-- ===== src/Readahead/Drain.antt =====
-- The loop of `hash_files` (dupion/src/driver/platterwalker.rs, `'big`) over the reader of
-- reapfrog: which files it sees. `reads u` is what `read(2)` answers while file `u` is hashed.
use dupion.Base.{
  ℕ, zero, suc, ◌≤◌, ◌<◌, ◌≡◌, refl, sym, ap, ◌∙◌, subst, Option, none, some, List, [], ◌∷◌, ◌++◌,
  map, All, length, cons_of_length, Outcome, ok, err, stuck, ◌>>=◌, arith,
}
use dupion.Readahead.{
  Readahead, Slot, ready, broken, Probe, opened, Delivery, reader, io_error, Prefetch, new, next,
  read, after_read, advance, set_budget, prefetch_block,
}
use dupion.Readahead.Queue.{
  Content, content, file, failure, pending, queued, contents, advance-Advanced,
}
use dupion.Readahead.Order.{tail_of, Delivers, next-Next}

module _ {U : Type 0} (probe : U → Probe) where
  -- The reads of one file, until its end or an error.
  pub read_file : Readahead U → List (Option ℕ) → Outcome (Readahead U)
  read_file s [] = ok s
  read_file s (r ∷ rs) = do done ← read probe s r; read_file done.0 rs

  abbrev after_delivery : Readahead U → Delivery U → (U → List (Option ℕ)) → Outcome (Readahead U)
  after_delivery s (reader u) reads = read_file s (reads u)
  after_delivery s (io_error e) reads = ok s

  -- The files and errors that the loop sees until `next` gives `None`.
  pub drain : ℕ → ℕ → (U → List (Option ℕ)) → Readahead U → Outcome (List (Delivery U))
  drain zero budget reads s = err stuck
  drain (suc fuel) budget reads s = do
    given ← next probe (set_budget s budget)
    elim given.1 [
      | none ↦ ok []
      | some d ↦ do
        s' ← after_delivery given.0 d reads
        rest ← drain fuel budget reads s'
        ok (d ∷ rest)
    ]

  -- The reader stands at file `u`, with `rest` behind it.
  pub record AtFile (u : U) (rest : List (Content U)) (s : Readahead U) : Type 0 where
    pub here : Prefetch U
    pub behind : List (Slot U)
    pub at_front : s.open_files ≡ ready here ∷ behind
    pub item : here.item ≡ u
    pub after : queued probe behind ++ contents probe s.source ≡ rest

  AtFile-pending :
      (u : U) (rest : List (Content U)) (s : Readahead U)
      → pending probe s ≡ file u ∷ rest
      → 0 < length s.open_files
      → AtFile u rest s
  AtFile-pending u rest s same busy =
      let (x, xs, e) = cons_of_length s.open_files busy in by_front x xs e
    where
      by_front : (x : Slot U) (xs : List (Slot U)) → s.open_files ≡ x ∷ xs → AtFile u rest s
      by_front (ready p) xs e =
          let same' : file p.item ∷ (queued probe xs ++ contents probe s.source) ≡ file u ∷ rest =
            rw e at same in
          record { here = p; behind = xs; at_front = e; item = cc; after = cc }
      by_front (broken n) xs e =
          let same' : failure n ∷ (queued probe xs ++ contents probe s.source) ≡ file u ∷ rest =
            rw e at same in
          cc

  read_lem :
      (s : Readahead U) (r : Option ℕ) (p : Prefetch U) (xs : List (Slot U))
      → s.open_files ≡ ready p ∷ xs
      → read probe s r ≡ (do s' ← advance probe (after_read r p xs s); ok (s', r))
  unfolding read
  read_lem s r p xs e = simp (e, read)

  after_read-pending :
      {u : U} {rest : List (Content U)} (s : Readahead U) (r : Option ℕ) (at : AtFile u rest s)
      → (pending probe (after_read r at.here at.behind s) ≡ file u ∷ rest)
        × (0 < length (after_read r at.here at.behind s).open_files)
        × ((after_read r at.here at.behind s).budget ≡ s.budget)
  unfolding after_read
  after_read-pending s none at =
      (rw at.at_front (cc (at.item, at.after)), rw at.at_front (omega arith), refl)
  after_read-pending s (some n) at = (cc (at.item, at.after), omega arith, refl)

  -- While the reader stands at a file a read returns, whatever `read(2)` gives, and leaves the reader
  -- at that file with the same behind it.
  pub read-AtFile :
      (u : U) (rest : List (Content U)) (s : Readahead U) (r : Option ℕ)
      → AtFile u rest s
      → (out : Readahead U) × (read probe s r ≡ ok (out, r)) × AtFile u rest out
  read-AtFile u rest s r at =
      let t = after_read r at.here at.behind s in
      let (same, busy, _) = after_read-pending s r at in
      let a = advance-Advanced probe t in
      (
        a.out,
        rw (read_lem s r at.here at.behind at.at_front, a.returns) refl,
        AtFile-pending u rest a.out (a.keeps.same ∙ same) (omega (arith, a.keeps.grows)),
      )

  read_file-AtFile :
      (u : U) (rest : List (Content U)) (s : Readahead U) (rs : List (Option ℕ))
      → AtFile u rest s
      → (out : Readahead U) × (read_file s rs ≡ ok out) × AtFile u rest out
  unfolding read_file
  read_file-AtFile u rest s [] at = (s, refl, at)
  read_file-AtFile u rest s (r ∷ rs) at =
      let (t, returned, at') = read-AtFile u rest s r at in
      let (out, returned', at'') = read_file-AtFile u rest t rs at' in
      (out, rw returned returned', at'')

  -- What is to come once the front of the queue is dropped.
  abbrev coming : Readahead U → List (Content U)
  coming s = queued probe (tail_of s.open_files) ++ contents probe s.source

  AtFile-coming :
      (u : U) (rest : List (Content U)) (s : Readahead U) → AtFile u rest s → coming s ≡ rest
  AtFile-coming u rest s at = rw at.at_front at.after

  drain_all :
      (us : List U) (fuel budget : ℕ) (reads : U → List (Option ℕ)) (s : Readahead U)
      → length us < fuel
      → prefetch_block ≤ budget
      → coming s ≡ map file us
      → drain fuel budget reads s ≡ ok (map reader us)
  unfolding drain set_budget
  drain_all us zero budget reads s enough rich e = absurd (omega arith)
  drain_all [] (suc fuel) budget reads s enough rich e =
      let n = next-Next probe (record s { budget = budget }) in
      let d = rw e at (n.delivers rich) in rw (n.returns, d.0) refl
  drain_all (u ∷ us) (suc fuel) budget reads s enough rich e =
      let n = next-Next probe (record s { budget = budget }) in
      let d = rw e at (n.delivers rich) in
      let at = AtFile-pending u (map file us) n.out d.1 (n.at_file u d.0) in
      let (t, returned, at') = read_file-AtFile u (map file us) n.out (reads u) at in
      rw
        (
          n.returns,
          d.0,
          returned,
          drain_all us fuel budget reads t (omega arith) rich (AtFile-coming u _ t at'),
        )
        refl

  abbrev Opens : U → Type 0
  Opens u = (len : ℕ) × (probe u ≡ opened len)

  contents-All : (us : List U) → All Opens us → contents probe us ≡ map file us
  contents-All [] h = refl
  contents-All (u ∷ us) h = rw (h.0.1, contents-All us h.1) refl

  -- If every file opens, the loop sees each file of the source once and in order, whatever the
  -- reads give, for any budget of a block or more.
  pub drain-map :
      (us : List U) (budget : ℕ) (reads : U → List (Option ℕ))
      → All Opens us
      → prefetch_block ≤ budget
      → drain (suc (length us)) budget reads (new us) ≡ ok (map reader us)
  unfolding new
  drain-map us budget reads h rich =
      drain_all us (suc (length us)) budget reads (new us) (omega arith) rich (contents-All us h)

  coming_of_pending :
      (c : Content U) (fs : List (Content U)) (s : Readahead U)
      → pending probe s ≡ c ∷ fs
      → 0 < length s.open_files
      → coming s ≡ fs
  coming_of_pending c fs s same busy =
      let (x, xs, e) = cons_of_length s.open_files busy in
      let same' : content x ∷ (queued probe xs ++ contents probe s.source) ≡ c ∷ fs =
        subst (λ ys. queued probe ys ++ contents probe s.source ≡ c ∷ fs) e same in
      subst (λ ys. queued probe (tail_of ys) ++ contents probe s.source ≡ fs) (sym e)
        (ap tail_of same')

  -- With a budget of a block, a file that stands behind one that failed to open is never seen: the
  -- `next` that follows the error drops it unread, and hands out what stands behind it.
  pub next_skips :
      (s : Readahead U) (x y : Slot U) (e : ℕ) (rest : List (Slot U))
      → prefetch_block ≤ s.budget
      → s.open_files ≡ x ∷ broken e ∷ y ∷ rest
      → (t u : Readahead U) × (d : Option (Delivery U)) × (next probe s ≡ ok (t, some (io_error e)))
        × (next probe t ≡ ok (u, d))
        × Delivers (queued probe rest ++ contents probe s.source) d (pending probe u)
  next_skips s x y e rest rich front =
      let n = next-Next probe s in
      let behind = λ (xs : List (Slot U)). queued probe (tail_of xs) ++ contents probe s.source in
      let d =
        subst (λ xs. Delivers (behind xs) n.handed (pending probe n.out)) front (n.delivers rich) in
      let next_coming =
        coming_of_pending (content y) (queued probe rest ++ contents probe s.source) n.out d.1
          (omega (arith, ap (λ xs. length (tail_of xs)) front, n.kept)) in
      let m = next-Next probe n.out in
      (
        n.out,
        m.out,
        m.handed,
        n.returns ∙ ap (λ h. ok (n.out, h)) d.0,
        m.returns,
        subst (λ p. Delivers p m.handed (pending probe m.out)) next_coming
            (m.delivers (rw n.budget rich)),
      )
