-- ===== src/State/Revival.antt =====
-- `set_valid` ends on a tree, and what `validate` leaves of an entry.
use dupion.Base.{
  ℕ, zero, suc, ◌+◌, ◌<◌, ◌≤◌, ◌≡◌, refl, ap, ◌∙◌, Bool, true, false, ◌||◌, ◌&&◌, Option, none,
  some, is_some, List, [], ◌∷◌, length, get_elem?, lt-get_elem?, get_elem?-lt, ◌==◌, Outcome, ok,
  unwrap, >>=-ok, arith, unwrap_result, All, if◌then◌else◌,
}
use dupion.FilePath.{FilePath}
use dupion.Vfs.{VfsEntry, VfsId, Hash}
use dupion.Vfs.Tree.{IsChild}
use dupion.State.{
  State, push_to_size_group, push_to_hash_group, for_children, for_recursive2, revive,
  set_valid_one, set_valid,
}
use dupion.State.Sound.{
  IsSound, Refreshes, Refreshes-refl, Refreshes-trans, Gives, Refreshed, with_entry-Refreshes,
  modify_lem, with_entry_found, with_entry,
}
use dupion.State.Refill.{push_size-Refreshes, push_hash-Refreshes}

revive-Refreshed : (e : VfsEntry) → Refreshed e (revive e)
revive-Refreshed e = record {
  path = refl;
  plc = refl;
  childs = refl;
  file_size = refl;
  file_hash = refl;
  phys = refl;
  n_extends = refl;
  unique = refl;
  valid = λ h. refl;
  is_file = λ h. ap (λ b. b || e.was_file) h;
}

-- The entry is there again, and valid.
abbrev pub IsRevived : State → VfsId → Type 0
IsRevived s id = (e : VfsEntry) × (get_elem? s.tree.entries id ≡ some e) × (e.valid ≡ true)

pub IsRevived-Refreshes :
    {content : Hash → ℕ} {s t : State} (id : VfsId)
    → Refreshes content s t
    → IsRevived s id
    → IsRevived t id
IsRevived-Refreshes id x (e, found, valid) =
    let (e', found', y) = x.kept id e found in (e', found', y.valid valid)

pub some_of :
    {A : Type 0} (o : Option A) (b : Bool) → (b && is_some o) ≡ true → (a : A) × (o ≡ some a)
some_of none true h = cc
some_of none false h = cc
some_of (some a) b h = (a, refl)

-- A push that is done under a condition, and whose error would be unwrapped.
pub refill_if :
    {content : Hash → ℕ} (b : Bool) (s : State) (r : Outcome State)
    → IsSound content s
    → (b ≡ true → Gives r (λ t. Refreshes content s t × (t.tree ≡ s.tree)))
    → Gives (if b then unwrap_result r else ok s) (λ t. Refreshes content s t × (t.tree ≡ s.tree))
refill_if true s r sound h = let (t, returns, x) = h refl in (t, ap unwrap_result returns, x)
refill_if false s r sound h = (s, refl, (Refreshes-refl s sound, refl))

set_valid_one_lem :
    (s s2 s3 : State) (id : VfsId) (e : VfsEntry)
    → get_elem? s.tree.entries id ≡ some e
    → (if (revive e).is_file && is_some e.file_size
        then unwrap_result (push_to_size_group (with_entry s id (revive e)) id true false)
        else ok (with_entry s id (revive e)))
      ≡ ok s2
    → (if (revive e).is_file && is_some e.file_hash
        then unwrap_result (push_to_hash_group s2 id true false)
        else ok s2)
      ≡ ok s3
    → set_valid_one s id ≡ ok s3
unfolding set_valid_one
set_valid_one_lem s s2 s3 id e found second third =
    >>=-ok _ (modify_lem s id e revive found)
      (>>=-ok _ (ap unwrap (with_entry_found s id e (revive e) found)) (>>=-ok _ second third))

pub set_valid_one-Refreshes :
    {content : Hash → ℕ} (s : State) (id : VfsId)
    → IsSound content s
    → id < length s.tree.entries
    → Gives (set_valid_one s id) (λ t. Refreshes content s t × IsRevived t id)
unfolding set_valid_one
set_valid_one-Refreshes s id sound inside =
    let (e, found) = get_elem?-lt s.tree.entries id inside in
    let s1 = with_entry s id (revive e) in
    let first = with_entry-Refreshes s id e (revive e) sound found (revive-Refreshed e) in
    let found1 = with_entry_found s id e (revive e) found in
    let (s2, returns2, (second, same2)) =
      refill_if ((revive e).is_file && is_some e.file_size) s1 (push_to_size_group s1 id true false)
        first.sound
        (λ b.
          let (size, known) = some_of e.file_size (revive e).is_file b in
          let (t, returns, (x, tree, _)) =
            push_size-Refreshes s1 id size (revive e) first.sound found1 refl known in
          (t, returns, (x, tree))) in
    let found2 : get_elem? s2.tree.entries id ≡ some (revive e) =
      ap (λ v. get_elem? v.entries id) same2 ∙ found1 in
    let (s3, returns3, (third, same3)) =
      refill_if ((revive e).is_file && is_some e.file_hash) s2 (push_to_hash_group s2 id true false)
        second.sound
        (λ b.
          let (hash, known) = some_of e.file_hash (revive e).is_file b in
          let (t, returns, (x, tree, _)) =
            push_hash-Refreshes s2 id hash (revive e) second.sound found2 refl known in
          (t, returns, (x, tree))) in
    (
      s3,
      set_valid_one_lem s s2 s3 id e found returns2 returns3,
      (
        Refreshes-trans first (Refreshes-trans second third),
        (revive e, ap (λ v. get_elem? v.entries id) same3 ∙ found2, refl),
      ),
    )

-- The children of an entry in a table of `n` entries, as the loop over them needs them.
abbrev BelowOf : ℕ → VfsId → List VfsId → Type 0
BelowOf n id = All (λ c. (id < c) × (c < n))

childs-BelowOf :
    (s : State) (id : VfsId) (p : FilePath) (cs : List VfsId)
    → All (λ c. (id < c) × IsChild s.tree p c) cs
    → BelowOf (length s.tree.entries) id cs
childs-BelowOf s id p [] h = tt
childs-BelowOf s id p (c ∷ cs) h =
    ((h.0.0, lt-get_elem? s.tree.entries c h.0.1.found), childs-BelowOf s id p cs h.1)

for_children-Refreshes :
    {content : Hash → ℕ} (n : ℕ) (visit : State → VfsId → Outcome State) (id : VfsId)
    (cs : List VfsId) (s : State)
    → ((u : State) (c : VfsId)
        → IsSound content u
        → length u.tree.entries ≡ n
        → id < c
        → c < n
        → Gives (visit u c) (λ t. Refreshes content u t × IsRevived t c))
    → IsSound content s
    → length s.tree.entries ≡ n
    → BelowOf n id cs
    → Gives (for_children visit id cs s) (Refreshes content s)
unfolding for_children
for_children-Refreshes n visit id [] s each sound count below = (s, refl, Refreshes-refl s sound)
for_children-Refreshes n visit id (c ∷ cs) s each sound count below =
    let apart : (c == id) ≡ false = ground (arith, below.0.0) in
    let (t, returns, (x, _)) = each s c sound count below.0.0 below.0.1 in
    let (u, rest, y) =
      for_children-Refreshes n visit id cs t each x.sound (x.count ∙ count) below.1 in
    (u, rw (apart, returns) rest, Refreshes-trans x y)

for_recursive2-Refreshes :
    {content : Hash → ℕ} (fuel : ℕ) (s : State) (id : VfsId)
    → IsSound content s
    → id < length s.tree.entries
    → length s.tree.entries ≤ id + fuel
    → Gives (for_recursive2 fuel set_valid_one s id) (λ t. Refreshes content s t × IsRevived t id)
unfolding for_recursive2
for_recursive2-Refreshes zero s id sound inside enough = absurd (omega arith)
for_recursive2-Refreshes (suc fuel) s id sound inside enough =
    let (t, returns, (x, (e, found, valid))) = set_valid_one-Refreshes s id sound inside in
    let (u, rest, y) =
      for_children-Refreshes (length t.tree.entries) (for_recursive2 fuel set_valid_one) id e.childs
        t
        (λ v c sound_v same later before.
          for_recursive2-Refreshes fuel v c sound_v (omega (arith, same, before))
            (omega (arith, same, later, enough, x.count)))
        x.sound refl (childs-BelowOf t id e.path e.childs (x.sound.tree.childs id e found)) in
    (
      u,
      >>=-ok _ returns (>>=-ok _ (ap unwrap found) rest),
      (Refreshes-trans x y, IsRevived-Refreshes id y (e, found, valid)),
    )

-- On a sound state `set_valid` returns for an entry of the table: the fuel is enough, and no push fails.
-- The state stays sound, every entry keeps its place and its content, and the entry is valid.
pub set_valid-Refreshes :
    {content : Hash → ℕ} (s : State) (id : VfsId)
    → IsSound content s
    → id < length s.tree.entries
    → Gives (set_valid s id) (λ t. Refreshes content s t × IsRevived t id)
unfolding set_valid
set_valid-Refreshes s id sound inside =
    for_recursive2-Refreshes (suc (length s.tree.entries)) s id sound inside (omega arith)
