-- ===== src/Zip/Errors.antt =====
-- Which errors `decode_zip` puts up with: the members that are read are stored in order, and the
-- archive is given up at the sixteenth error in a row.
use dupion.Base.{
  ℕ, ◌+◌, ◌<◌, ◌≡◌, refl, sym, ap, ◌∙◌, inl, inr, Bool, true, false, max, Option, none, some,
  Option-cases, Bool-cases, List, [], ◌∷◌, ◌++◌, append-nil, append_assoc, leb, ltb, if◌then◌else◌,
  Outcome, Outcome-cases, ok, ◌>>=◌, >>=-ok, arith,
}
use dupion.FilePath.{FilePath, Bytes}
use dupion.Vfs.{Hash}
use dupion.State.{State}
use dupion.Zip.{
  MemberRead, at_end, broken, chunk, Header, no_more, bad_header, member, join, read_member,
  store_member, decode_members,
}

-- The bytes of a member whose reads do not fail.
abbrev pub bytes_of : List MemberRead → Option Bytes
bytes_of [] = none
bytes_of (at_end ∷ rs) = some []
bytes_of (broken ∷ rs) = none
bytes_of (chunk bs ∷ rs) = elim (bytes_of rs) [ none ↦ none | some more ↦ some (bs ++ more) ]

abbrev after : Bytes → Option Bytes → Option Bytes
after before none = none
after before (some bytes) = some (before ++ bytes)

after_lem :
    (before bs : Bytes) (o : Option Bytes)
    → after (before ++ bs) o ≡ after before (elim o [ none ↦ none | some more ↦ some (bs ++ more) ])
after_lem before bs none = refl
after_lem before bs (some more) = ap some (append_assoc before bs more)

-- The reads come to an end or fail.
abbrev pub IsRead : List MemberRead → Type 0
IsRead [] = ⊥
IsRead (at_end ∷ rs) = Unit {0}
IsRead (broken ∷ rs) = Unit {0}
IsRead (chunk bs ∷ rs) = IsRead rs

-- The headers come to an end, and the reads of each member do.
abbrev pub IsArchive : List Header → Type 0
IsArchive [] = ⊥
IsArchive (no_more ∷ hs) = Unit {0}
IsArchive (bad_header ∷ hs) = IsArchive hs
IsArchive (member regular name reads ∷ hs) = IsRead reads × IsArchive hs

-- A header that gives an error, and a member that is stored.
pub data Kind : Type 0 where
  failing passed : Kind
  stored : FilePath → Bytes → Kind

abbrev pub kind_of_bytes : FilePath → Option Bytes → Kind
kind_of_bytes name none = failing
kind_of_bytes name (some bytes) = stored name bytes

abbrev pub kind_of : Header → Kind
kind_of no_more = passed
kind_of bad_header = failing
kind_of (member true (some name) reads) = kind_of_bytes name (bytes_of reads)
kind_of (member true none reads) = passed
kind_of (member false name reads) = passed

-- The errors in a row before the archive ends, at most, where `n` are counted already.
abbrev pub after_kind : Kind → ℕ → (ℕ → ℕ) → ℕ
after_kind failing n more = max (n + 1) (more (n + 1))
after_kind passed n more = more 0
after_kind (stored name bytes) n more = more 0

abbrev pub longest_failure : List Header → ℕ → ℕ
longest_failure [] n = 0
longest_failure (no_more ∷ hs) n = 0
longest_failure (bad_header ∷ hs) n = after_kind failing n (longest_failure hs)
longest_failure (member regular name reads ∷ hs) n =
    after_kind (kind_of (member regular name reads)) n (longest_failure hs)

-- The members that are read before the archive is given up.
abbrev pub members_of_kind : Kind → ℕ → (ℕ → List (FilePath × Bytes)) → List (FilePath × Bytes)
members_of_kind failing n more = if leb 16 (n + 1) then [] else more (n + 1)
members_of_kind passed n more = more 0
members_of_kind (stored name bytes) n more = (name, bytes) ∷ more 0

abbrev pub members_read : List Header → ℕ → List (FilePath × Bytes)
members_read [] n = []
members_read (no_more ∷ hs) n = []
members_read (bad_header ∷ hs) n = members_of_kind failing n (members_read hs)
members_read (member regular name reads ∷ hs) n =
    members_of_kind (kind_of (member regular name reads)) n (members_read hs)

pub store_all : (Bytes → Hash) → FilePath → List (FilePath × Bytes) → State → Outcome State
store_all blake3 zip_path [] s = ok s
store_all blake3 zip_path ((name, bytes) ∷ ms) s = do
  s' ← store_member blake3 (join zip_path name) bytes s
  store_all blake3 zip_path ms s'

-- What the loop comes to: everything that is read is stored, and then it is `Ok` or not.
abbrev pub decoded :
    (Bytes → Hash) → FilePath → List (FilePath × Bytes) → Bool → State → Outcome (State × Bool)
decoded blake3 zip_path ms fine s = do s' ← store_all blake3 zip_path ms s; ok (s', fine)

read_member_lem :
    (rs : List MemberRead) (before : Bytes)
    → IsRead rs
    → read_member rs before ≡ ok (after before (bytes_of rs))
unfolding read_member
read_member_lem [] before h = absurd h
read_member_lem (at_end ∷ rs) before h = ap (λ b. ok (some b)) (sym (append-nil before))
read_member_lem (broken ∷ rs) before h = refl
read_member_lem (chunk bs ∷ rs) before h =
    read_member_lem rs (before ++ bs) h ∙ ap ok (after_lem before bs (bytes_of rs))

module _ (blake3 : Bytes → Hash) (zip_path : FilePath) where
  fail_step :
      (hs : List Header) (n : ℕ) (s : State) (rest : Outcome (State × Bool))
      → (n + 1 < 16
          → rest
            ≡ decoded blake3 zip_path
                (members_read hs (n + 1))
                (ltb (longest_failure hs (n + 1)) 16)
                s)
      → (if leb 16 (n + 1) then ok (s, false) else rest)
        ≡ decoded blake3 zip_path
            (members_of_kind failing n (members_read hs))
            (ltb (after_kind failing n (longest_failure hs)) 16)
            s
  unfolding store_all
  fail_step hs n s rest more = elim (Bool-cases (leb 16 (n + 1))) [
    | inl given_up ↦
        let over : ltb (max (n + 1) (longest_failure hs (n + 1))) 16 ≡ false =
          ground (arith, given_up) in
        rw (given_up, over) refl
    | inr again ↦
        let few : n + 1 < 16 = ground (arith, again) in
        let same : ltb (max (n + 1) (longest_failure hs (n + 1))) 16
            ≡ ltb (longest_failure hs (n + 1)) 16 =
          ground (arith, few) in
        rw (again, same) (more few)
  ]

  store_step :
      (hs : List Header) (name : FilePath) (bytes : Bytes) (fine : Bool) (s : State)
      (rest : State → Outcome (State × Bool))
      → ((t : State) → rest t ≡ decoded blake3 zip_path (members_read hs 0) fine t)
      → (store_member blake3 (join zip_path name) bytes s >>= rest)
        ≡ decoded blake3 zip_path ((name, bytes) ∷ members_read hs 0) fine s
  unfolding store_all
  store_step hs name bytes fine s rest more =
      elim (Outcome-cases (store_member blake3 (join zip_path name) bytes s)) [
        | inl (f, failed) ↦ rw failed refl
        | inr (t, stored_one) ↦ rw stored_one (more t)
      ]

  -- For an archive that comes to an end, the loop stores the members that it reads before it gives
  -- up, in order and as long as they can be stored, and the result is then `Ok` exactly if there are
  -- fewer than sixteen errors in a row.
  pub decode_members_lem :
      (hs : List Header) (n : ℕ) (s : State)
      → IsArchive hs
      → n < 16
      → decode_members blake3 zip_path hs n s
        ≡ decoded blake3 zip_path (members_read hs n) (ltb (longest_failure hs n) 16) s
  unfolding decode_members store_all
  decode_members_lem [] n s h few = absurd h
  decode_members_lem (no_more ∷ hs) n s h few = refl
  decode_members_lem (bad_header ∷ hs) n s h few =
      fail_step hs n s (decode_members blake3 zip_path hs (n + 1) s)
        (decode_members_lem hs (n + 1) s h)
  decode_members_lem (member true (some name) reads ∷ hs) n s (read, more) few =
      elim (Option-cases (bytes_of reads)) [
        | inl nothing ↦ rw nothing (
            >>=-ok _ (read_member_lem reads [] read ∙ ap (λ o. ok (after [] o)) nothing) (
              fail_step hs n s (decode_members blake3 zip_path hs (n + 1) s)
                (decode_members_lem hs (n + 1) s more)))
        | inr (bytes, all) ↦ rw all (
            >>=-ok _ (read_member_lem reads [] read ∙ ap (λ o. ok (after [] o)) all) (
              store_step hs name bytes (ltb (longest_failure hs 0) 16) s
                (decode_members blake3 zip_path hs 0)
                (λ t. decode_members_lem hs 0 t more (omega arith))))
      ]
  decode_members_lem (member true none reads ∷ hs) n s (read, more) few =
      decode_members_lem hs 0 s more (omega arith)
  decode_members_lem (member false name reads ∷ hs) n s (read, more) few =
      decode_members_lem hs 0 s more (omega arith)
