-- ===== src/Dedup/Submit/Run.antt =====
-- A batch from its files to the marks, and a run over all groups.
use dupion.Base.{
  ℕ, ◌≡◌, refl, sym, ap, subst, ◌∙◌, inl, inr, Bool, true, false, Bool-cases, Option, some, List,
  [], ◌∷◌, length, get_elem?, is_empty, ◌==◌, ==_iff, All, Outcome, ok, arith, sort_by_key,
}
use dupion.FilePath.{FilePath}
use dupion.Opts.{Opts}
use dupion.Vfs.{VfsId, VfsEntry}
use dupion.State.{State, Counters}
use dupion.Dedup.{DedupGroup}
use dupion.Dedup.Batch.{Marked}
use dupion.Dedup.Submit.{
  Advice, sequential, will_need, DedupeRange, ReadaheadItem, Opened, simulate, advise,
  dedup_group_batch, count_processed, open_groups, open_group, open_dups, open_dup, check_length,
}
use dupion.Dedup.Submit.Marks.{MarkedBy}
use dupion.Dedup.Submit.Dups.{SameCount, count_all}
use dupion.Dedup.Submit.Groups.{AllSubmitted, submit_groups-AllSubmitted}
use dupion.Dedup.Submit.Loaded.{
  open_dup_opened, IsLoaded, Answers, IsUsable, AllUsable, IsLoadedGroup,
}
use dupion.Dedup.Submit.Opening.{
  in_batch, OpenAll, open_groups-OpenAll, IsOpen-IsReady, readahead_of-returns,
}

module _ {W : Type 0} (open_file : FilePath → W → Option (ℕ × ℕ) × W)
    (fadvise : Advice → ReadaheadItem → W → W)
    (deduplicate_range : ℕ → DedupeRange → W → (Bool × DedupeRange) × W)
    (in_place : (fd : ℕ) (r : DedupeRange) (w : W)
      → length (deduplicate_range fd r w).0.1.dest_infos ≡ length r.dest_infos) where
  pub record BatchDone (ms : List Marked) (s : State) (r : Outcome (State × W)) : Type 0 where
    pub out : State
    pub world : W
    pub returns : r ≡ ok (out, world)
    pub marks : VfsId → Bool
    pub marked : MarkedBy marks s out
    pub only_dups : (id : VfsId) → marks id ≡ true → in_batch ms id ≡ true

  -- A real run, from the files that open.
  real-AllSubmitted :
      (opts : Opts) (ms : List Marked) (s : State) (w : W)
      → opts.dedup_simulate ≡ false
      → (os : OpenAll opts open_file s ms (open_groups opts open_file s ms w))
      → AllSubmitted deduplicate_range in_place os.out s
          (dedup_group_batch open_file fadvise deduplicate_range opts ms s w)
  unfolding dedup_group_batch
  real-AllSubmitted opts ms s w real os =
      let (items, read) = readahead_of-returns s os.out os.opened in
      let sorted = sort_by_key (λ (r : ReadaheadItem). r.phys) items in
      let w' = advise fadvise will_need sorted (advise fadvise sequential sorted os.world) in
      let done =
        submit_groups-AllSubmitted deduplicate_range in_place os.out s w'
          (IsOpen-IsReady s os.out os.opened) in
      record {
        out = done.out;
        world = done.world;
        returns = rw (real, os.returns, read, done.returns) refl;
        marks = done.marks;
        marked = done.marked;
        only_dups = done.only_dups;
        counted = done.counted;
      }

  -- The file opens whenever it is asked for, with the length that the group has.
  abbrev pub Opens : State → DedupGroup → VfsId → Type 0
  Opens s g id =
      (e : VfsEntry) × (get_elem? s.tree.entries id ≡ some e)
      × ((w : W) → (fd : ℕ) × (w' : W) × (open_file e.path w ≡ (some (fd, g.actual_file_size), w')))

  abbrev pub OpensGroup : State → Marked → Type 0
  OpensGroup s m = Opens s m.0 m.0.senpai × All (Opens s m.0) m.0.dups

  open_dup-all :
      (opts : Opts) (s : State) (g : DedupGroup) (id : VfsId) (w : W) (e : VfsEntry) (fd : ℕ)
      (w' : W)
      → get_elem? s.tree.entries id ≡ some e
      → open_file e.path w ≡ (some (fd, g.actual_file_size), w')
      → open_dup opts open_file s g id w ≡ ok (some fd, w')
  unfolding check_length
  open_dup-all opts s g id w e fd w' found answer =
      let right : (g.actual_file_size == g.actual_file_size) ≡ true = (==_iff _ _).1 refl in
      open_dup_opened opts open_file s g id w e fd found (rw (answer, right) refl)
      ∙ ap (λ x. ok (some fd, x.1)) answer

  open_dups-all :
      (opts : Opts) (s : State) (g : DedupGroup) (ids : List VfsId) (w : W)
      → All (Opens s g) ids
      → (fds : List ℕ) × (w' : W) × (open_dups opts open_file s g ids w ≡ ok ((ids, fds), w'))
        × (length fds ≡ length ids)
  unfolding open_dups
  open_dups-all opts s g [] w h = ([], w, refl, refl)
  open_dups-all opts s g (id ∷ ids) w ((e, found, opens), more) =
      let (fd, w', answer) = opens w in
      let (fds, w'', returns, even) = open_dups-all opts s g ids w' more in
      let first = open_dup-all opts s g id w e fd w' found answer in
      (fd ∷ fds, w'', rw (first, returns) refl, omega (arith, even))

  -- What opens needs no printing.
  Opens-Answers :
      (opts : Opts) (s : State) (g : DedupGroup) (id : VfsId)
      → Opens s g id
      → Answers opts open_file s g id
  unfolding check_length
  Opens-Answers opts s g id (e, found, opens) e' found' w =
      let it : some e ≡ some e' = sym found ∙ found' in
      let same : e ≡ e' = cc in
      let (fd, w', answer) = opens w in
      let answer' : open_file e'.path w ≡ (some (fd, g.actual_file_size), w') =
        subst (λ x. open_file x.path w ≡ (some (fd, g.actual_file_size), w')) same answer in
      let right : (g.actual_file_size == g.actual_file_size) ≡ true = (==_iff _ _).1 refl in
      inl (fd, rw (answer', right) refl)

  dups-IsUsable :
      (opts : Opts) (s : State) (g : DedupGroup) (ds : List VfsId)
      → Opens s g g.senpai
      → All (λ d. IsLoaded s g.senpai × IsLoaded s d) ds
      → All (Opens s g) ds
      → All (λ d. IsUsable opts open_file s g g.senpai × IsUsable opts open_file s g d) ds
  dups-IsUsable opts s g [] senpai h k = tt
  dups-IsUsable opts s g (d ∷ ds) senpai h k = (
    ((h.0.0, Opens-Answers opts s g g.senpai senpai), (h.0.1, Opens-Answers opts s g d k.0)),
    dups-IsUsable opts s g ds senpai h.1 k.1,
  )

  Opens-AllUsable :
      (opts : Opts) (s : State) (ms : List Marked)
      → All (IsLoadedGroup s) ms
      → All (OpensGroup s) ms
      → AllUsable opts open_file s ms
  unfolding AllUsable
  Opens-AllUsable opts s [] h k = tt
  Opens-AllUsable opts s ((g, last) ∷ ms) h k =
      (dups-IsUsable opts s g g.dups k.0.0 h.0 k.0.1, Opens-AllUsable opts s ms h.1 k.1)

  open_groups-all :
      (opts : Opts) (s : State) (ms : List Marked) (w : W)
      → All (OpensGroup s) ms
      → (os : List Opened) × (w' : W) × (open_groups opts open_file s ms w ≡ ok (os, w'))
        × ((c : Counters) → count_all os c ≡ simulate ms c)
  unfolding open_groups open_group simulate
  open_groups-all opts s [] w h = ([], w, refl, λ c. refl)
  open_groups-all opts s ((g, last) ∷ ms) w (((e, found, opens), dups), more) =
      elim (Bool-cases (is_empty g.dups)) [
        | inl nothing ↦
            let (os, w', returns, counts) = open_groups-all opts s ms w more in
            (os, w', rw (nothing, returns) refl, λ c. rw nothing (counts c))
        | inr some_dups ↦
            let (fd, w', answer) = opens w in
            let (fds, w'', returns, even) = open_dups-all opts s g g.dups w' dups in
            let (os, world, rest_returns, counts) = open_groups-all opts s ms w'' more in
            let first = open_dup-all opts s g g.senpai w e fd w' found answer in
            let together : (length fds == length g.dups) ≡ true = (==_iff _ _).1 even in
            (
              record { group = g; senpai_fd = fd; dups_fd = fds; last_part = last } ∷ os,
              world,
              rw (some_dups, first, returns, together, rest_returns) refl,
              λ c. rw some_dups (counts (count_processed g last c)),
            )
      ]

  -- If every file of the batch is in the tree with a known offset and opens with the length it had, and
  -- each call answers for each file it is given, a real run returns and counts as many processed bytes
  -- and files as a simulated one.
  pub simulate-SameCount :
      (opts : Opts) (ms : List Marked) (s : State) (w : W)
      → opts.dedup_simulate ≡ false
      → All (IsLoadedGroup s) ms
      → All (OpensGroup s) ms
      → (out : State) × (world : W) × (dedup_group_batch open_file fadvise deduplicate_range opts ms
            s w
          ≡ ok (out, world))
        × SameCount out.disp (simulate ms s.disp)
  simulate-SameCount opts ms s w real loaded opens =
      let os = open_groups-OpenAll opts open_file s ms w (Opens-AllUsable opts s ms loaded opens) in
      let (os', w', returns, counts) = open_groups-all opts s ms w opens in
      let it : ◌≡◌ {A = Outcome (List Opened × W)} (ok (os.out, os.world)) (ok (os', w')) =
        sym os.returns ∙ returns in
      let os_os' : os.out ≡ os' = cc in
      let done = real-AllSubmitted opts ms s w real os in
      let counted : count_all os.out s.disp ≡ simulate ms s.disp =
        ap (λ l. count_all l s.disp) os_os' ∙ counts s.disp in
      (
        done.out,
        done.world,
        done.returns,
        (
          done.counted.0 ∙ ap Counters.processed_bytes counted,
          done.counted.1 ∙ ap Counters.processed_files counted,
        ),
      )
