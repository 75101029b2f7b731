-- ===== src/Dedup/Submit/Whole.antt =====
-- All groups: `dedup_groups` with `dedup_group_batch` for its batches.
use dupion.Base.{ℕ, ◌≡◌, Bool, true, Option, List, [], ◌∷◌, length, ◌==◌, Outcome, ok}
use dupion.FilePath.{FilePath}
use dupion.Opts.{Opts}
use dupion.Vfs.{VfsId}
use dupion.State.{State}
use dupion.Dedup.Batch.{Marked}
use dupion.Dedup.Batch.Fill.{Work}
use dupion.Dedup.Submit.{Advice, DedupeRange, ReadaheadItem, dedup_group_batch}
use dupion.Dedup.Submit.Marks.{MarkedBy, no_file, either}
use dupion.Dedup.Submit.Loaded.{IsLoadedShown}

-- Both files of a pair of files are loaded, and their paths can be printed.
abbrev pub IsLoadedWork : Opts → State → Work → Type 0
IsLoadedWork opts s x = IsLoadedShown opts s x.senpai × IsLoadedShown opts s x.dup

-- The dup of some pair of files.
abbrev pub dup_in : List Work → VfsId → Bool
dup_in [] = no_file
dup_in (x ∷ xs) = either (λ id. x.dup == id) (dup_in xs)

module _ {W : Type 0} (open_file : FilePath → W → Option (ℕ × ℕ) × W)
    (fadvise : Advice → ReadaheadItem → W → W)
    (deduplicate_range : ℕ → DedupeRange → W → (Bool × DedupeRange) × W)
    (in_place : (fd : ℕ) (r : DedupeRange) (w : W)
      → length (deduplicate_range fd r w).0.1.dest_infos ≡ length r.dest_infos)
    (opts : Opts) where
  abbrev pub commit_batch : List Marked → State × W → Outcome (State × W)
  commit_batch ms (s, w) = dedup_group_batch open_file fadvise deduplicate_range opts ms s w

  -- The run returns; it marks dups of the work, and changes no more.
  pub record RunDone (work : List Work) (s : State) (r : Outcome (State × W)) : Type 0 where
    pub out : State
    pub world : W
    pub returns : r ≡ ok (out, world)
    pub marks : VfsId → Bool
    pub marked : MarkedBy marks s out
    pub only_dups : (id : VfsId) → marks id ≡ true → dup_in work id ≡ true
