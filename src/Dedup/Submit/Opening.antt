-- ===== src/Dedup/Submit/Opening.antt =====
-- Opening the files of a batch: it returns, and what is open is part of the batch.
use dupion.Base.{
  ℕ, ◌≡◌, refl, inl, inr, Bool, true, false, Bool-cases, Option, Option-cases, List, [], ◌∷◌, ◌++◌,
  length, is_empty, ◌==◌, ==_iff, All, All-map, Outcome, ok, arith,
}
use dupion.FilePath.{FilePath}
use dupion.Opts.{Opts}
use dupion.Vfs.{VfsId}
use dupion.State.{State}
use dupion.Dedup.{DedupGroup}
use dupion.Dedup.Batch.{Marked}
use dupion.Dedup.Submit.{
  Opened, ReadaheadItem, open_dups, open_group, open_groups, readahead_dups, readahead_of,
  check_length,
}
use dupion.Dedup.Submit.Marks.{IsKnown, either, no_file}
use dupion.Dedup.Submit.Dups.{has, in_dups, or-both, or-true_right}
use dupion.Dedup.Submit.Groups.{IsReady}
use dupion.Dedup.Submit.Loaded.{IsLoaded, IsUsable, AllUsable, open_dup_opened, open_dup_closed}

-- The senpai of a group that has dups, and the dups.
senpai_and_dups :
    (P : VfsId → Type 0) (senpai : VfsId) (ds : List VfsId)
    → is_empty ds ≡ false
    → All (λ d. P senpai × P d) ds
    → P senpai × All P ds
senpai_and_dups P senpai [] some_dups h = cc
senpai_and_dups P senpai (d ∷ ds) some_dups h =
    (h.0.0, All-map (λ x. P senpai × P x) P (λ x l. l.1) (d ∷ ds) h)

-- The dups of the batch.
abbrev pub in_batch : List Marked → VfsId → Bool
in_batch [] = no_file
in_batch (m ∷ ms) = either (λ id. has id m.0.dups) (in_batch ms)

abbrev pub IsOpen : State → Opened → Type 0
IsOpen s o =
    (length o.dups_fd ≡ length o.group.dups)
    × IsLoaded s o.group.senpai
    × All (IsLoaded s) o.group.dups

pub IsOpen-IsReady : (s : State) (os : List Opened) → All (IsOpen s) os → All (IsReady s) os
IsOpen-IsReady s [] h = tt
IsOpen-IsReady s (o ∷ os) h = (
  (
    h.0.0,
    (h.0.1.0, h.0.1.2),
    All-map (IsLoaded s) (IsKnown s) (λ id l. (l.0, l.2)) o.group.dups h.0.2,
  ),
  IsOpen-IsReady s os h.1,
)

-- The offsets that are unwrapped are there.
readahead_dups-returns :
    (s : State) (g : DedupGroup) (ids : List VfsId) (fds : List ℕ)
    → All (IsLoaded s) ids
    → (items : List ReadaheadItem) × (readahead_dups s g ids fds ≡ ok items)
unfolding readahead_dups
readahead_dups-returns s g [] fds h = ([], refl)
readahead_dups-returns s g (id ∷ ids) [] h = ([], refl)
readahead_dups-returns s g (id ∷ ids) (fd ∷ fds) ((e, p, found, phys), more) =
    let (items, returns) = readahead_dups-returns s g ids fds more in
    (
      record { phys = p; fd = fd; start = g.start; stop = g.stop } ∷ items,
      rw (found, phys, returns) refl,
    )

pub readahead_of-returns :
    (s : State) (os : List Opened)
    → All (IsOpen s) os
    → (items : List ReadaheadItem) × (readahead_of s os ≡ ok items)
unfolding readahead_of
readahead_of-returns s [] h = ([], refl)
readahead_of-returns s (o ∷ os) ((even, (e, p, found, phys), dups), more) =
    let (items, returns) = readahead_dups-returns s o.group o.group.dups o.dups_fd dups in
    let (rest, rest_returns) = readahead_of-returns s os more in
    (
      record { phys = p; fd = o.senpai_fd; start = o.group.start; stop = o.group.stop } ∷ items
          ++ rest,
      rw (found, phys, returns, rest_returns) refl,
    )

module _ {W : Type 0} (opts : Opts) (open_file : FilePath → W → Option (ℕ × ℕ) × W) where
  record OpenDups (s : State) (ids : List VfsId) (r : Outcome ((List VfsId × List ℕ) × W))
      : Type 0 where
    pub out : List VfsId
    pub fds : List ℕ
    pub world : W
    pub returns : r ≡ ok ((out, fds), world)
    pub even : length fds ≡ length out
    pub loaded : All (IsLoaded s) out
    pub only : (id : VfsId) → has id out ≡ true → has id ids ≡ true

  open_dups-OpenDups :
      (s : State) (g : DedupGroup) (ids : List VfsId) (w : W)
      → All (IsUsable opts open_file s g) ids
      → OpenDups s ids (open_dups opts open_file s g ids w)
  unfolding open_dups
  open_dups-OpenDups s g [] w h = record {
    out = [];
    fds = [];
    world = w;
    returns = refl;
    even = refl;
    loaded = tt;
    only = λ id e. e;
  }
  open_dups-OpenDups s g (id ∷ ids) w (((e, p, found, phys), answers), more) =
      let answer = open_file e.path w in
      let rest = open_dups-OpenDups s g ids answer.1 more in
      elim (Option-cases (check_length g answer.0)) [
        | inl closed ↦ record {
          out = rest.out;
          fds = rest.fds;
          world = rest.world;
          returns =
              rw (open_dup_closed opts open_file s g id w e answers found closed, rest.returns)
                refl;
          even = rest.even;
          loaded = rest.loaded;
          only = λ j h. or-true_right (id == j) (has j ids) (rest.only j h);
        }
        | inr (fd, opened) ↦ record {
          out = id ∷ rest.out;
          fds = fd ∷ rest.fds;
          world = rest.world;
          returns =
              rw (open_dup_opened opts open_file s g id w e fd found opened, rest.returns) refl;
          even = omega (arith, rest.even);
          loaded = ((e, p, found, phys), rest.loaded);
          only = λ j h. or-both (λ x. x) (rest.only j) h;
        }
      ]

  pub record OpenAll (s : State) (ms : List Marked) (r : Outcome (List Opened × W)) : Type 0 where
    pub out : List Opened
    pub world : W
    pub returns : r ≡ ok (out, world)
    pub opened : All (IsOpen s) out
    pub only : (id : VfsId) → in_dups out id ≡ true → in_batch ms id ≡ true

  -- With the first group left out.
  skipped :
      {s : State} (m : Marked) {ms : List Marked} {r : Outcome (List Opened × W)}
      (rest : OpenAll s ms r) {whole : Outcome (List Opened × W)}
      → whole ≡ ok (rest.out, rest.world)
      → OpenAll s (m ∷ ms) whole
  skipped m {ms} rest returns = record {
    out = rest.out;
    world = rest.world;
    returns = returns;
    opened = rest.opened;
    only = λ id h. or-true_right (has id m.0.dups) (in_batch ms id) (rest.only id h);
  }

  pub open_groups-OpenAll :
      (s : State) (ms : List Marked) (w : W)
      → AllUsable opts open_file s ms
      → OpenAll s ms (open_groups opts open_file s ms w)
  unfolding open_groups open_group AllUsable
  open_groups-OpenAll s [] w h = record {
    out = [];
    world = w;
    returns = refl;
    opened = tt;
    only = λ id e. e;
  }
  open_groups-OpenAll s ((g, last) ∷ ms) w (pairs, more) = elim (Bool-cases (is_empty g.dups)) [
    | inl nothing ↦
        let rest = open_groups-OpenAll s ms w more in
        skipped (g, last) rest (rw (nothing, rest.returns) refl)
    | inr some_dups ↦
        let (((e, p, found, phys), answers), dups) =
          senpai_and_dups (IsUsable opts open_file s g) g.senpai g.dups some_dups pairs in
        let answer = open_file e.path w in
        let os = open_dups-OpenDups s g g.dups answer.1 dups in
        let even : (length os.fds == length os.out) ≡ true = (==_iff _ _).1 os.even in
        elim (Option-cases (check_length g answer.0)) [
          | inl closed ↦
              let rest = open_groups-OpenAll s ms answer.1 more in
              skipped (g, last) rest
                (rw
                  (
                    some_dups,
                    open_dup_closed opts open_file s g g.senpai w e answers found closed,
                    rest.returns,
                  )
                  refl)
          | inr (fd, opened) ↦
              let rest = open_groups-OpenAll s ms os.world more in
              record {
                out =
                    record {
                      group = record g { dups = os.out };
                      senpai_fd = fd;
                      dups_fd = os.fds;
                      last_part = last;
                    }
                    ∷ rest.out;
                world = rest.world;
                returns =
                    rw
                      (
                        some_dups,
                        open_dup_opened opts open_file s g g.senpai w e fd found opened,
                        os.returns,
                        even,
                        rest.returns,
                      )
                      refl;
                opened = ((os.even, (e, p, found, phys), os.loaded), rest.opened);
                only = λ id h. or-both (os.only id) (rest.only id) h;
              }
        ]
  ]
