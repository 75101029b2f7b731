-- ===== src/Dedup/Submit.antt =====
-- dupion/src/dedup/btrfs.rs from line 123: `dedup_group_batch`, which opens the files of a batch,
-- asks for them to be read ahead and has their ranges deduplicated. The system is a parameter: a
-- state of a type `W`, and what the calls answer and leave of it.
pub mod Marks
pub mod Dups
pub mod Groups
pub mod Loaded
pub mod Opening
pub mod Run
pub mod Failed
pub mod Whole
mod Examples
use dupion.Base.{
  panic, ℕ, ◌+◌, Bool, true, false, not, Option, none, some, List, [], ◌∷◌, ◌++◌, length, is_empty,
  ◌==◌, if◌then◌else◌, add64, mul64, sub64, Outcome, ok, err, ◌>>=◌, ◌>>◌, unwrap, assert,
  sort_by_key,
}
use dupion.FilePath.{FilePath}
use dupion.Vfs.{VfsId, VfsEntry}
use dupion.State.{State, Counters, entry, modify}
use dupion.Opts.{Opts, path_disp}
use dupion.Dedup.{DedupGroup}
use dupion.Dedup.Batch.{Marked}

-- The records of the call.
pub data DedupeRangeStatus : Type 0 where
  same differs : DedupeRangeStatus

pub record DedupeRangeDestInfo : Type 0 where
  pub dest_fd : ℕ
  pub dest_offset : ℕ
  pub bytes_deduped : ℕ
  pub status : DedupeRangeStatus

pub record DedupeRange : Type 0 where
  pub src_offset : ℕ
  pub src_length : ℕ
  pub dest_infos : List DedupeRangeDestInfo

pub data Advice : Type 0 where
  sequential will_need : Advice

-- A group whose files are open: `(DedupGroup,FileDescriptor,Vec<FileDescriptor>,bool)`.
pub record Opened : Type 0 where
  pub group : DedupGroup
  pub senpai_fd : ℕ
  pub dups_fd : List ℕ
  pub last_part : Bool

pub record ReadaheadItem : Type 0 where
  pub phys : ℕ
  pub fd : ℕ
  pub start : ℕ
  pub stop : ℕ

-- `DISP_PROCESSED_BYTES` and `DISP_PROCESSED_FILES` after a group.
abbrev pub count_processed : DedupGroup → Bool → Counters → Counters
count_processed g last_part c = record c {
  processed_bytes = add64 c.processed_bytes (mul64 (length g.dups) (sub64 g.stop g.start));
  processed_files =
      if last_part then add64 c.processed_files (length g.dups) else c.processed_files;
}

abbrev pub with_disp : State → Counters → State
with_disp s c = record s { disp = c }

-- The loop of a simulated run.
pub simulate : List Marked → Counters → Counters
simulate [] c = c
simulate ((g, last_part) ∷ ms) c =
    if is_empty g.dups then simulate ms c else simulate ms (count_processed g last_part c)

abbrev pub mark_deduped : VfsEntry → VfsEntry
mark_deduped e = record e { dedup_state = some true }

-- What is done for one file of an answer: only `Differs` leaves it unmarked.
abbrev pub record_status : VfsId → DedupeRangeStatus → State → Outcome State
record_status id differs s = do e ← entry s id; ok s
record_status id same s = modify s id mark_deduped

-- The loop over `dest_infos` and the dups. It ends with the shorter of the two.
pub mark_infos : List DedupeRangeDestInfo → List VfsId → ℕ → State → Outcome (State × ℕ)
mark_infos (i ∷ is) (id ∷ ids) deduped s = do
  s' ← record_status id i.status s
  mark_infos is ids (add64 deduped i.bytes_deduped) s'
mark_infos _ _ deduped s = ok (s, deduped)

-- `dest_infos` as they are before the call.
abbrev pub initial_infos : ℕ → List ℕ → List DedupeRangeDestInfo
initial_infos start [] = []
initial_infos start (fd ∷ fds) =
    record { dest_fd = fd; dest_offset = start; bytes_deduped = 0; status = same }
    ∷ initial_infos start fds

abbrev pub request : DedupGroup → List ℕ → DedupeRange
request g fds = record {
  src_offset = g.start;
  src_length = sub64 g.stop g.start;
  dest_infos = initial_infos g.start fds;
}

-- The reads to ask for: of the senpai, then of the dups with their descriptors.
pub readahead_dups : State → DedupGroup → List VfsId → List ℕ → Outcome (List ReadaheadItem)
readahead_dups s g (id ∷ ids) (fd ∷ fds) = do
  e ← entry s id
  phys ← unwrap e.phys
  rest ← readahead_dups s g ids fds
  ok (record { phys = phys; fd = fd; start = g.start; stop = g.stop } ∷ rest)
readahead_dups s g _ _ = ok []

pub readahead_of : State → List Opened → Outcome (List ReadaheadItem)
unfolding readahead_dups
readahead_of s [] = ok []
readahead_of s (o ∷ os) = do
  e ← entry s o.group.senpai
  phys ← unwrap e.phys
  dups ← readahead_dups s o.group o.group.dups o.dups_fd
  rest ← readahead_of s os
  ok (
      record { phys = phys; fd = o.senpai_fd; start = o.group.start; stop = o.group.stop } ∷ dups
      ++ rest)

-- A file that changed its length is not deduplicated.
pub check_length : DedupGroup → Option (ℕ × ℕ) → Option ℕ
check_length g none = none
check_length g (some (fd, len)) = if len == g.actual_file_size then some fd else none

-- `open_file` gives a descriptor and the length of the file, or fails.
module _ {W : Type 0} (opts : Opts) (open_file : FilePath → W → Option (ℕ × ℕ) × W) where
  -- In each case of failure the path is printed, which panics if it is not in UTF-8.
  pub open_dup : State → DedupGroup → VfsId → W → Outcome (Option ℕ × W)
  unfolding check_length path_disp
  open_dup s g id w = do
    e ← entry s id
    let (answer, w') = open_file e.path w
    elim (check_length g answer) [
      | some fd ↦ ok (some fd, w')
      | none ↦ do printed ← path_disp opts e.path; ok (none, w')
    ]

  -- The `while` loop over the dups: those that stay, and their descriptors.
  pub open_dups : State → DedupGroup → List VfsId → W → Outcome ((List VfsId × List ℕ) × W)
  unfolding open_dup
  open_dups s g [] w = ok (([], []), w)
  open_dups s g (id ∷ ids) w = do
    first ← open_dup s g id w
    rest ← open_dups s g ids first.1
    elim first.0 [ some fd ↦ ok ((id ∷ rest.0.0, fd ∷ rest.0.1), rest.1) | none ↦ ok rest ]

  -- One round of the loop `'g`.
  pub open_group : State → Marked → W → Outcome (Option Opened × W)
  unfolding open_dups
  open_group s (g, last_part) w = do
    senpai ← open_dup s g g.senpai w
    elim senpai.0 [
      | none ↦ ok (none, senpai.1)
      | some senpai_fd ↦ do
        dups ← open_dups s g g.dups senpai.1
        assert (length dups.0.1 == length dups.0.0)
        ok (
          some (record {
            group = record g { dups = dups.0.0 };
            senpai_fd = senpai_fd;
            dups_fd = dups.0.1;
            last_part = last_part;
          }),
          dups.1,
        )
    ]

  pub open_groups : State → List Marked → W → Outcome (List Opened × W)
  unfolding open_group
  open_groups s [] w = ok ([], w)
  open_groups s (m ∷ ms) w = do
    first ← if is_empty m.0.dups then ok (none, w) else open_group s m w
    rest ← open_groups s ms first.1
    elim first.0 [ none ↦ ok rest | some o ↦ ok (o ∷ rest.0, rest.1) ]

abbrev pub advise :
    {W : Type 0} → (Advice → ReadaheadItem → W → W) → Advice → List ReadaheadItem → W → W
advise fadvise a [] w = w
advise fadvise a (r ∷ rs) w = advise fadvise a rs (fadvise a r w)

-- `deduplicate_range` gives whether it failed, and leaves the range it was given changed.
module _ {W : Type 0} (deduplicate_range : ℕ → DedupeRange → W → (Bool × DedupeRange) × W) where
  -- After the call for the whole group has failed: a call for each dup, the result of which is
  -- not looked at.
  pub retry : Opened → List ℕ → List VfsId → ℕ → State → W → Outcome ((State × ℕ) × W)
  retry o (fd ∷ fds) (id ∷ ids) deduped s w = do
    let (answer, w') = deduplicate_range o.senpai_fd (request o.group (fd ∷ [])) w
    elim answer.1.dest_infos [
      | [] ↦ err panic
      | i ∷ is ↦ do
        s' ← record_status id i.status s
        retry o fds ids (add64 deduped i.bytes_deduped) s' w'
    ]
  retry o _ _ deduped s w = ok ((s, deduped), w)

  -- One round of the loop over the open groups.
  pub submit_group : Opened → State → W → Outcome (State × W)
  unfolding retry mark_infos
  submit_group o s w = do
    assert (length o.dups_fd == length o.group.dups)
    senpai ← entry s o.group.senpai
    let (answer, w') = deduplicate_range o.senpai_fd (request o.group o.dups_fd) w
    tried ← if answer.0 then retry o o.dups_fd o.group.dups 0 s w' else ok ((s, 0), w')
    let s' = with_disp tried.0.0 (count_processed o.group o.last_part tried.0.0.disp)
    marked ← mark_infos answer.1.dest_infos o.group.dups tried.0.1 s'
    let c = marked.0.disp
    ok (with_disp marked.0 (record c { deduped_bytes = add64 c.deduped_bytes marked.1 }), tried.1)

  pub submit_groups : List Opened → State → W → Outcome (State × W)
  unfolding submit_group
  submit_groups [] s w = ok (s, w)
  submit_groups (o ∷ os) s w = do next ← submit_group o s w; submit_groups os next.0 next.1

module _ {W : Type 0} (open_file : FilePath → W → Option (ℕ × ℕ) × W)
    (fadvise : Advice → ReadaheadItem → W → W)
    (deduplicate_range : ℕ → DedupeRange → W → (Bool × DedupeRange) × W) where
  -- (What is printed if `verbose` is set is left out.)
  pub dedup_group_batch : Opts → List Marked → State → W → Outcome (State × W)
  unfolding simulate open_groups readahead_of submit_groups
  dedup_group_batch opts current s w =
      let real = (do
        opened ← open_groups opts open_file s current w
        items ← readahead_of s opened.0
        let sorted = sort_by_key (λ (r : ReadaheadItem). r.phys) items
        let w' = advise fadvise will_need sorted (advise fadvise sequential sorted opened.1)
        submit_groups deduplicate_range opened.0 s w') in
      if opts.dedup_simulate then ok (with_disp s (simulate current s.disp), w) else real
