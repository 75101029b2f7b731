-- ===== src/Main.antt =====
-- dupion/src/main.rs: the options, the number of threads, and `dirty_load`, which takes the files of
-- the cache for valid in place of a scan.
pub mod Roots
pub mod Report
mod Examples
use dupion.Base.{
  ℕ, zero, suc, add64, ◌*◌, ◌/◌, Option, none, some, List, [], ◌∷◌, Outcome, ok, ◌>>=◌,
  unwrap_result,
}
use dupion.FilePath.{FilePath}
use dupion.Opts.{Opts, Paths, validate_opts}
use dupion.Vfs.{VfsId, cid_and_create}
use dupion.State.{State, set_valid}

-- The bytes of an option in MiB, which are `bytes` before the rounding: a word of 64 bits, to which
-- 1024 is added with wrap-around.
abbrev pub round_option : ℕ → ℕ
round_option bytes = add64 bytes 1024 / 4096 * 4096

-- `get_threads`, from the two variables as far as they are numbers.
unfoldable pub get_threads : Option ℕ → Option ℕ → ℕ → ℕ
get_threads (some (suc n)) rs cpus = suc n
get_threads (some zero) rs cpus = cpus
get_threads none (some (suc n)) cpus = suc n
get_threads none _ cpus = cpus

unfoldable pub dirty_load : List FilePath → State → Outcome State
dirty_load [] s = ok s
dirty_load (root ∷ roots) s = do
  made ← cid_and_create s.tree root
  s' ← set_valid (record s { tree = made.0 }) made.1
  dirty_load roots s'

-- The options before a scan: the current directory if none is given, the number of threads, and
-- what `validate` makes of the paths; an error of it is unwrapped.
unfoldable pub prepare_opts : Paths → FilePath → ℕ → Opts → Outcome Opts
unfolding validate_opts
prepare_opts fs current_dir default_threads opts =
    let paths : List FilePath = elim opts.paths [ [] ↦ current_dir ∷ [] | p ∷ ps ↦ opts.paths ] in
    let threads : ℕ = elim opts.threads [ zero ↦ default_threads | suc n ↦ opts.threads ] in
    unwrap_result (validate_opts fs (record opts { paths = paths; threads = threads }))
