-- ===== src/Dedup/Submit/Dups.antt =====
-- The dups of open groups: which they are, and what is counted for them.
use dupion.Base.{◌≡◌, refl, ◌⊎◌, inl, inr, Bool, true, false, ◌||◌, List, [], ◌∷◌, ◌==◌}
use dupion.Vfs.{VfsId}
use dupion.State.{Counters}
use dupion.Dedup.Submit.{
  DedupeRangeStatus, same, differs, DedupeRangeDestInfo, Opened, count_processed,
}
use dupion.Dedup.Submit.Marks.{either, no_file, marked_in, marks_one}

-- The dups of the open groups, and what a run over them counts.
abbrev pub has : VfsId → List VfsId → Bool
has id [] = false
has id (i ∷ is) = i == id || has id is

abbrev pub in_dups : List Opened → VfsId → Bool
in_dups [] = no_file
in_dups (o ∷ os) = either (λ id. has id o.group.dups) (in_dups os)

abbrev pub count_all : List Opened → Counters → Counters
count_all [] c = c
count_all (o ∷ os) c = count_all os (count_processed o.group o.last_part c)

-- As far as a run counts what it has gone through.
abbrev pub SameCount : Counters → Counters → Type 0
SameCount c d = (c.processed_bytes ≡ d.processed_bytes) × (c.processed_files ≡ d.processed_files)

pub count_all-SameCount :
    (os : List Opened) (c d : Counters)
    → SameCount c d
    → SameCount (count_all os c) (count_all os d)
count_all-SameCount [] c d h = h
count_all-SameCount (o ∷ os) c d h =
    count_all-SameCount os (count_processed o.group o.last_part c)
      (count_processed o.group o.last_part d) (rw h.0 refl, rw h.1 refl)

-- A mark is for a dup.
pub or-true_cases : (a b : Bool) → (a || b) ≡ true → (a ≡ true) ⊎ (b ≡ true)
or-true_cases true b h = inl refl
or-true_cases false b h = inr h

pub or-true_right : (a b : Bool) → b ≡ true → (a || b) ≡ true
or-true_right true b h = refl
or-true_right false b h = h

pub or-true_left : (a b : Bool) → a ≡ true → (a || b) ≡ true
or-true_left true b h = refl
or-true_left false b h = cc

pub or-both :
    {a b c d : Bool}
    → (a ≡ true → c ≡ true)
    → (b ≡ true → d ≡ true)
    → (a || b) ≡ true
    → (c || d) ≡ true
or-both {a} {b} {c} {d} f g h = elim (or-true_cases a b h) [
  | inl first ↦ or-true_left c d (f first)
  | inr second ↦ or-true_right c d (g second)
]

pub marks_one-eq :
    (id : VfsId) (status : DedupeRangeStatus) (j : VfsId)
    → marks_one id status j ≡ true
    → (id == j) ≡ true
marks_one-eq id same j h = h
marks_one-eq id differs j h = cc

pub marked_in-has :
    (is : List DedupeRangeDestInfo) (ids : List VfsId) (id : VfsId)
    → marked_in is ids id ≡ true
    → has id ids ≡ true
marked_in-has [] ids id h = cc
marked_in-has (i ∷ is) [] id h = cc
marked_in-has (i ∷ is) (j ∷ ids) id h =
    or-both (marks_one-eq j i.status id) (marked_in-has is ids id) h
