-- ===== src/Driver/Filter.antt =====
-- The filter of `hash_files`: which files go to the reader.
pub mod Wanted
use dupion.Base.{
  ℕ, ◌≡◌, ◌≤◌, ◌⊎◌, Bool, false, not, ◌&&◌, ◌||◌, Option, none, some, is_some, List, Bool-cases,
  Outcome, ok, ◌>>=◌, ◌>>◌, assert, if◌then◌else◌, add64, leb, ℕ_discrete, arith,
}
use dupion.FilePath.{FilePath}
use dupion.Opts.{Opts, zip_by_extension}
use dupion.Vfs.{VfsEntry, VfsId, Hash}
use dupion.State.{State, SizeGroup, disp_add_relevant, is_file_read_candidate, more_than_one_size}
use dupion.State.Sound.{Refreshes, modify_lem, with_entry, with_entry_found, with_entry_other}
use dupion.Driver.Filter.Wanted.{IsWanted, Counted, Takes}

-- What the filter does with one file.
record FilteredOne (content : Hash → ℕ) (opts : Opts) (s : State) (id : VfsId) (e : VfsEntry)
    (size : ℕ) (r : Outcome (State × Option FilePath)) : Type 0 where
  pub out : State
  pub taken : Option FilePath
  pub returns : r ≡ ok (out, taken)
  pub refreshes : Refreshes content s out
  pub counted : Counted s out
  pub choice :
      IsWanted s opts e size × (taken ≡ some e.path) ⊎ (¬ IsWanted s opts e size) × (taken ≡ none)

-- What the filter does with all files.
pub record Filtered (content : Hash → ℕ) (opts : Opts) (s : State) (ids : List VfsId)
    (r : Outcome (State × List (VfsId × FilePath))) : Type 0 where
  pub out : State
  pub taken : List (VfsId × FilePath)
  pub returns : r ≡ ok (out, taken)
  pub refreshes : Refreshes content s out
  pub counted : Counted s out
  pub takes : Takes s opts ids taken
