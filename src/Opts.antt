-- ===== src/Opts.antt =====
-- dupion/src/opts/mod.rs: the options, and which paths count as archives.
use dupion.Base.{
  Outcome, ok, err, panic, ℕ, Bool, true, false, ◌&&◌, ◌||◌, not, none, some, List, [], ◌∷◌,
  reverse, length, ◌==◌, if◌then◌else◌, failed, Option, assert, is_empty, ltb, ◌>>=◌, ◌>>◌,
}
use dupion.FilePath.Text.{path_text, is_utf8}
use dupion.FilePath.{Bytes, FilePath, strip_prefix, is_absolute_path}

pub record Opts : Type 0 where
  pub paths : List FilePath
  pub cache_path : FilePath
  pub verbose : Bool
  pub shadow_rule : ℕ
  pub force_absolute_paths : Bool
  pub read_buffer : ℕ
  pub cache_dropbehind : Bool
  pub prefetch_budget : ℕ
  pub dedup_budget : ℕ
  pub threads : ℕ
  pub pass_1_hash : Bool
  pub archive_cache_mem : ℕ
  pub dir_prefetch : Bool
  pub read_archives : Bool
  pub scan_size_min : ℕ
  pub scan_size_max : ℕ
  pub aggressive_dedup : Bool
  pub dedup_simulate : Bool

abbrev pub starts_with : Bytes → Bytes → Bool
starts_with s [] = true
starts_with [] (b ∷ bs) = false
starts_with (a ∷ s) (b ∷ bs) = a == b && starts_with s bs

abbrev pub ends_with : Bytes → Bytes → Bool
ends_with s suffix = starts_with (reverse s) (reverse suffix)

abbrev pub archive_suffixes : List Bytes
archive_suffixes =
    (b'.' ∷ b'z' ∷ b'i' ∷ b'p' ∷ [])
    ∷ (b'.' ∷ b't' ∷ b'a' ∷ b'r' ∷ [])
    ∷ (b'.' ∷ b'7' ∷ b'z' ∷ [])
    ∷ (b'.' ∷ b't' ∷ b'a' ∷ b'r' ∷ b'.' ∷ b'g' ∷ b'z' ∷ [])
    ∷ (b'.' ∷ b't' ∷ b'a' ∷ b'r' ∷ b'.' ∷ b'x' ∷ b'z' ∷ [])
    ∷ []

abbrev pub ends_with_any : Bytes → List Bytes → Bool
ends_with_any s [] = false
ends_with_any s (e ∷ es) = ends_with s e || ends_with_any s es

-- (`to_string_lossy` replaces only what is not UTF-8, which no suffix is.)
unfoldable pub zip_by_extension : Opts → FilePath → Bool
zip_by_extension opts p =
    if not opts.read_archives then false else ends_with_any (path_text p) archive_suffixes

-- The text that `path_disp` shows.
abbrev pub disp_text : Opts → FilePath → Bytes
disp_text opts path =
    if not opts.force_absolute_paths && length opts.paths == 1
    then (elim opts.paths [
      | [] ↦ path_text path
      | base ∷ rest ↦ elim (strip_prefix base path) [ some p ↦ path_text p | none ↦ path_text path ]
    ])
    else path_text path

-- `path_disp`: `to_str().unwrap()` of the path to print.
unfoldable pub path_disp : Opts → FilePath → Outcome Bytes
path_disp opts path = if is_utf8 (disp_text opts path) then ok (disp_text opts path) else err panic

-- What the file system answers: `canonicalize` gives none for an error.
pub record Paths : Type 0 where
  pub is_dir : FilePath → Bool
  pub is_file : FilePath → Bool
  pub canonicalize : FilePath → Option FilePath

abbrev pub is_root : Paths → FilePath → Bool
is_root fs p = fs.is_dir p || fs.is_file p

abbrev pub or_failed : Option FilePath → Outcome FilePath
or_failed none = err failed
or_failed (some p) = ok p

-- The loop of `validate`. (`is_absolute` asserts what its name says, or that the path is empty.)
pub validate_paths : Paths → List FilePath → Outcome (List FilePath)
validate_paths fs [] = ok []
validate_paths fs (p ∷ ps) = do
  assert (is_root fs p)
  q ← or_failed (fs.canonicalize p)
  assert (is_absolute_path q || is_empty q)
  assert (is_root fs q)
  rest ← validate_paths fs ps
  ok (q ∷ rest)

unfoldable pub validate_opts : Paths → Opts → Outcome Opts
unfolding validate_paths
validate_opts fs opts = do
  assert (ltb opts.shadow_rule 4)
  paths ← validate_paths fs opts.paths
  ok (record opts { paths = paths })
