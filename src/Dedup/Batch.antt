-- ===== src/Dedup/Batch.antt =====
-- `dedup_groups` of dupion/src/dedup/btrfs.rs and `CacheUsable` of dupion/src/util/mod.rs: the
-- groups are handed over in batches that fit the cache. (`allow_range_split` is the constant
-- `false`, so lines 85 to 105 never run.)
pub mod Fill
pub mod Rounds
pub mod Loop
mod Examples
use dupion.Base.{
  ℕ, zero, suc, ◌+◌, ◌-◌, ◌*◌, ◌/◌, min, max, Bool, true, ◌&&◌, ◌||◌, List, [], ◌∷◌, ◌++◌, length,
  is_empty, sum_of, ltb, leb, ◌==◌, if◌then◌else◌, add64, sub64, Outcome, ok, err, panic, stuck,
  ◌>>=◌, ◌>>◌, assert,
}
use dupion.Dedup.{DedupGroup, sum, range_len, usage, split_off_end_at_candidate_n}

-- `u64::clamp`, which panics on an empty range.
abbrev pub clamp64 : ℕ → ℕ → ℕ → Outcome ℕ
clamp64 x lo hi = if leb lo hi then ok (max lo (min x hi)) else err panic

-- `CacheUsable::get` for the range `start .. stop`, where the system has `total` bytes of memory
-- and uses `used`.
unfoldable pub cache_usable : ℕ → ℕ → ℕ → ℕ → Outcome ℕ
cache_usable start stop total used =
    clamp64 (add64 (sub64 total used / 2) 1024 / 65536 * 65536) start stop

abbrev pub file_split_round : ℕ
file_split_round = 1024 * 1024 * 12

abbrev pub max_dups_per_group : ℕ
max_dups_per_group = 127

-- A group of the buffer, with the mark of its last part.
abbrev pub Marked : Type 0
Marked = DedupGroup × Bool

abbrev pub buffer_sum : List Marked → ℕ
buffer_sum = sum_of λ m. sum m.0

abbrev pub buffer_usage : List Marked → ℕ
buffer_usage [] = 0
buffer_usage (m ∷ ms) = add64 (usage m.0) (buffer_usage ms)

abbrev pub Queues : Type 0
Queues = record { groups : List DedupGroup; buffer : List Marked }

-- `.min(max_dups_per_group).max(2)` of the files of one group that fit the cache.
abbrev pub max_group_files : ℕ → ℕ → ℕ
max_group_files cache_max len = max 2 (min (cache_max / len) max_dups_per_group)

-- What the round does after the input: leave the loop, or put the end of a group back.
pub data Verdict : Type 0 where
  leave : Verdict
  again : List DedupGroup → List Marked → Verdict

-- Lines 65 to 82, for a buffer that does not fit.
pub shrink : ℕ → List DedupGroup → List Marked → Outcome Verdict
shrink cache_max groups [] = ok leave
shrink cache_max groups (m ∷ n ∷ ms) = err panic
shrink cache_max groups ((g, last) ∷ []) =
    let files = max_group_files cache_max (range_len g) in
    let split = (do
      parts ← split_off_end_at_candidate_n g (files - 1)
      ok (again (parts.0 ∷ groups) ((parts.1, last) ∷ []))) in
    if range_len g == 0
    then err panic
    else if ltb files (sum g)
    then split
    else (do assert (files == 2 && sum g == 2); ok leave)

abbrev pub fits : ℕ → List Marked → Bool
fits cache_max buffer =
    leb (buffer_sum buffer) max_dups_per_group && leb (buffer_usage buffer) cache_max

pub settle : ℕ → List DedupGroup → List Marked → Outcome Verdict
unfolding shrink
settle cache_max groups buffer =
    if fits cache_max buffer then ok leave else shrink cache_max groups buffer

-- Whether the first group of the input joins the buffer: lines 53 to 60.
abbrev pub joins : ℕ → DedupGroup → List Marked → Bool
joins cache_max g buffer =
    is_empty buffer
    || leb (buffer_sum buffer + sum g) max_dups_per_group
      && leb (add64 (buffer_usage buffer) (usage g)) cache_max

-- One round of the inner loop.
pub fill_round : ℕ → List DedupGroup → List Marked → Outcome Verdict
unfolding settle
fill_round cache_max [] [] = ok leave
fill_round cache_max [] (m ∷ ms) = settle cache_max [] (m ∷ ms)
fill_round cache_max (g ∷ rest) buffer =
    if is_empty g.dups
    then ok (again rest buffer)
    else if joins cache_max g buffer
    then ok (again rest (buffer ++ (g, true) ∷ []))
    else settle cache_max (g ∷ rest) buffer

-- The inner loop.
pub fill : ℕ → ℕ → List DedupGroup → List Marked → Outcome Queues
unfolding fill_round
fill zero cache_max groups buffer = err stuck
fill (suc fuel) cache_max groups buffer = do
  v ← fill_round cache_max groups buffer
  elim v [
    | leave ↦ ok (record { groups = groups; buffer = buffer })
    | again groups' buffer' ↦ fill fuel cache_max groups' buffer'
  ]

-- How long the loops can take: a group weighs less in the buffer than in the input, and a split
-- makes the two parts lighter together.
abbrev pub weight : DedupGroup → ℕ
weight g = max 1 (2 * length g.dups - 1)

abbrev pub buffer_weight : Marked → ℕ
buffer_weight m = 2 * length m.0.dups - 2

abbrev pub load : List DedupGroup → List Marked → ℕ
load groups buffer = sum_of weight groups + sum_of buffer_weight buffer

module _ {S : Type 0} (commit : List Marked → S → Outcome S) (cache : ℕ → Outcome ℕ) where
  -- `cache k` is what the `k`-th call of `cache_info.get()` gives.
  abbrev pub commit_some : List Marked → S → Outcome S
  commit_some [] s = ok s
  commit_some (m ∷ ms) s = commit (m ∷ ms) s

  -- The outer loop, in its round `k`. The buffer is empty between two rounds.
  pub dedup_loop : ℕ → ℕ → ℕ → List DedupGroup → S → Outcome S
  unfolding fill
  dedup_loop zero k cache_max groups s = err stuck
  dedup_loop (suc fuel) k cache_max [] s = ok s
  dedup_loop (suc fuel) k cache_max (g ∷ gs) s = do
    q ← fill (suc (load (g ∷ gs) [])) cache_max (g ∷ gs) []
    s' ← commit_some q.buffer s
    next_max ← cache (k + 1)
    dedup_loop fuel (k + 1) next_max q.groups s'

  -- `commit` stands for `dedup_group_batch`.
  unfoldable pub dedup_groups : List DedupGroup → S → Outcome S
  unfolding dedup_loop
  dedup_groups groups s = do
    cache_max ← cache 0
    dedup_loop (suc (load groups [])) 0 cache_max groups s
