-- ===== src/Main/Report.antt =====
-- dupion/src/main.rs, the end of `main`: what is calculated and printed of the state that the scan
-- and the deduplication leave.
use dupion.Base.{ℕ, suc, not, List, length, is_empty, Outcome, ok, ◌>>=◌, ◌>>◌, assert}
use dupion.FilePath.{Bytes}
use dupion.Vfs.{Hash, root_id}
use dupion.State.{State, HashGroup}
use dupion.Opts.{Opts}
use dupion.Output.{Line, print_groups}
use dupion.Process.{calculate_dir_hash, find_shadowed, export}
use dupion.Serialize.{Json, print_tree, print_treediff}

pub data OutputMode : Type 0 where
  groups tree diff disabled : OutputMode

-- What is printed: the groups with their sizes, or one value.
pub data Printed : Type 0 where
  lines : List (ℕ × List Line) → Printed
  json : Json → Printed
  nothing : Printed

-- The last `match` of `main`.
pub print_result : State → Opts → List HashGroup → OutputMode → Outcome Printed
print_result s opts sorted groups = do gs ← print_groups s.tree opts sorted; ok (lines gs)
print_result s opts sorted tree = do out ← print_tree s opts; ok (json out)
print_result s opts sorted diff = do done ← print_treediff s opts; ok (json done.1)
print_result s opts sorted disabled = ok nothing

-- The groups are calculated from the root; whether the root has a hash does not matter. The depth of
-- the calls is that of the table.
unfoldable pub report : (Bytes → Hash) → State → Opts → OutputMode → Outcome Printed
unfolding print_result
report blake3 s opts disabled = ok nothing
report blake3 s opts mode = do
  assert (not (is_empty s.tree.entries))
  hashed ← calculate_dir_hash blake3 (suc (length s.tree.entries)) s root_id
  shadowed ← find_shadowed (suc (length s.tree.entries)) hashed.0 root_id
  exported ← export shadowed
  print_result exported.0 opts exported.1 mode
