-- ===== src/Process/DirDigest.antt =====
-- The digest of a directory does not depend on the order of its children.
use dupion.Base.{
  ℕ, ◌≡◌, refl, sym, ap, ap₂, inl, inr, Option-cases, ◌∙◌, subst, Option, none, some, List, [], ◌∷◌,
  add64, All, Perm, get_elem?, sort_by, Outcome, ok, ◌>>=◌, arith,
}
use mathlib.Core.Logic.{∥∥₁_elim}
use mathlib.Core.List.{Permᴰ}
use dupion.FilePath.{Bytes}
use dupion.Vfs.{VfsEntry, VfsId, Hash}
use dupion.State.{State, entry}
use dupion.Process.{Named, Props, name_of, collect, named_leb, hashed_bytes, dir_digest}
use dupion.Process.Digest.{hashed_bytes-Permᴰ}

-- The result is of an entry in the tree, whose name is in UTF-8.
abbrev pub IsNamed : State → VfsId × Props → Type 0
IsNamed s r =
    (e : VfsEntry) × (name : Bytes) × (get_elem? s.tree.entries r.0 ≡ some e)
    × (name_of e.path ≡ ok name)

-- Its name, if it has one.
abbrev ok_or_empty : Outcome Bytes → Bytes
ok_or_empty (ok n) = n
ok_or_empty _ = []

abbrev name_at : State → VfsId → Bytes
name_at s c = ok_or_empty (do e ← entry s c; name_of e.path)

abbrev Total : Type 0
Total = Option (ℕ × List Named)

abbrev join : ℕ → Named → Total → Total
join size n none = none
join size n (some (total, ns)) = some (add64 size total, n ∷ ns)

abbrev with_result : State → VfsId × Props → Total → Total
with_result s (c, none) rest = none
with_result s (c, some (size, hash)) rest = join size (hash, name_at s c) rest

-- What `collect` gives where every name can be read.
abbrev gather : State → List (VfsId × Props) → Total
gather s [] = some (0, [])
gather s (r ∷ rs) = with_result s r (gather s rs)

collect_lem :
    (s : State) (rs : List (VfsId × Props)) → All (IsNamed s) rs → collect s rs ≡ ok (gather s rs)
unfolding collect
collect_lem s [] h = refl
collect_lem s ((c, none) ∷ rs) h = refl
collect_lem s ((c, some (size, hash)) ∷ rs) ((e, name, found, named), more) =
    let rest = collect_lem s rs more in
    elim (Option-cases (gather s rs)) [
      | inl e ↦ rw (found, named, rest, e) refl
      | inr (x, e) ↦ rw (found, named, rest, e) refl
    ]

-- The same size, and the same pairs in some order.
abbrev Same : Total → Total → Type 0
Same none none = Unit {0}
Same (some (n, ns)) (some (m, ms)) = (n ≡ m) × Permᴰ ns ms
Same _ _ = ⊥

Same-trans : (t u v : Total) → Same t u → Same u v → Same t v
Same-trans none none none h k = tt
Same-trans (some (n, ns)) (some (m, ms)) (some (l, ls)) h k = (h.0 ∙ k.0, Permᴰ.trans h.1 k.1)
Same-trans none none (some x) h k = absurd k
Same-trans none (some y) v h k = absurd h
Same-trans (some x) none v h k = absurd h
Same-trans (some x) (some y) none h k = absurd k

join-Same : (n : ℕ) (x : Named) (t u : Total) → Same t u → Same (join n x t) (join n x u)
join-Same n x none none h = tt
join-Same n x (some (a, ns)) (some (b, ms)) h = (ap (add64 n) h.0, Permᴰ.cons refl h.1)
join-Same n x none (some u) h = absurd h
join-Same n x (some t) none h = absurd h

join_swap :
    (n m : ℕ) (x y : Named) (t : Total) → Same (join n x (join m y t)) (join m y (join n x t))
join_swap n m x y none = tt
join_swap n m x y (some (a, ns)) = (omega arith, Permᴰ.swap refl refl)

with_result-Same :
    (s : State) (r : VfsId × Props) (t u : Total)
    → Same t u
    → Same (with_result s r t) (with_result s r u)
with_result-Same s (c, none) t u h = tt
with_result-Same s (c, some (size, hash)) t u h = join-Same size (hash, name_at s c) t u h

with_result_swap :
    (s : State) (p q : VfsId × Props) (t : Total)
    → Same (with_result s p (with_result s q t)) (with_result s q (with_result s p t))
with_result_swap s (c, none) (d, none) t = tt
with_result_swap s (c, none) (d, some y) t = tt
with_result_swap s (c, some x) (d, none) t = tt
with_result_swap s (c, some (n, h)) (d, some (m, k)) t =
    join_swap n m (h, name_at s c) (k, name_at s d) t

gather-Same :
    (s : State) {rs ps : List (VfsId × Props)} → Permᴰ rs ps → Same (gather s rs) (gather s ps)
gather-Same s Permᴰ.nil = (refl, Permᴰ.nil)
gather-Same s (Permᴰ.cons {a} {b} {l₁} {l₂} e p) =
    subst (λ r. Same (with_result s a (gather s l₁)) (with_result s r (gather s l₂))) e
      (with_result-Same s a (gather s l₁) (gather s l₂) (gather-Same s p))
gather-Same s (Permᴰ.swap {a} {b} {a'} {b'} {l} e f) =
    subst
      (λ r.
        Same (with_result s a (with_result s b (gather s l)))
          (with_result s a' (with_result s r (gather s l))))
      e
      (subst
        (λ r.
          Same (with_result s a (with_result s b (gather s l)))
            (with_result s r (with_result s a (gather s l))))
        f (with_result_swap s a b (gather s l)))
gather-Same s (Permᴰ.trans {l₁} {l₂} {l₃} p q) =
    Same-trans (gather s l₁) (gather s l₂) (gather s l₃) (gather-Same s p) (gather-Same s q)

All-Permᴰ :
    (P : VfsId × Props → Type 0) {rs ps : List (VfsId × Props)} → Permᴰ rs ps → All P rs → All P ps
All-Permᴰ P Permᴰ.nil h = tt
All-Permᴰ P (Permᴰ.cons e p) h = (subst P e h.0, All-Permᴰ P p h.1)
All-Permᴰ P (Permᴰ.swap e f) h = (subst P f h.1.0, (subst P e h.0, h.1.1))
All-Permᴰ P (Permᴰ.trans p q) h = All-Permᴰ P q (All-Permᴰ P p h)

module _ (blake3 : Bytes → Hash) where
  abbrev digest : Total → Props
  digest none = none
  digest (some (size, ns)) = some (size, blake3 (hashed_bytes (sort_by named_leb ns)))

  digest-Same : (t u : Total) → Same t u → digest t ≡ digest u
  digest-Same none none h = refl
  digest-Same (some (n, ns)) (some (m, ms)) h =
      ap₂ (λ a bs. some (a, blake3 bs)) h.0 (hashed_bytes-Permᴰ ns ms h.1)
  digest-Same none (some u) h = absurd h
  digest-Same (some t) none h = absurd h

  dir_digest_lem :
      (s : State) (rs : List (VfsId × Props))
      → All (IsNamed s) rs
      → dir_digest blake3 s rs ≡ ok (digest (gather s rs))
  unfolding dir_digest
  dir_digest_lem s rs h = elim (Option-cases (gather s rs)) [
    | inl e ↦ rw (collect_lem s rs h, e) refl
    | inr (x, e) ↦ rw (collect_lem s rs h, e) refl
  ]

  -- If the children of a directory are in the tree, with names in UTF-8, `calculate_dir_hash` makes of
  -- their results the same size and the same digest in whatever order they come, or leaves with the
  -- error in every order.
  pub dir_digest-Perm :
      (s : State) (rs ps : List (VfsId × Props))
      → All (IsNamed s) rs
      → Perm rs ps
      → (digest : Props) × (dir_digest blake3 s rs ≡ ok digest)
        × (dir_digest blake3 s ps ≡ ok digest)
  dir_digest-Perm s rs ps named p = (
    digest (gather s rs),
    dir_digest_lem s rs named,
    ∥∥₁_elim p (hlevel) (λ d.
        dir_digest_lem s ps (All-Permᴰ (IsNamed s) d named)
        ∙ ap ok (sym (digest-Same (gather s rs) (gather s ps) (gather-Same s d)))),
  )
