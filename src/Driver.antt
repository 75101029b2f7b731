-- ===== src/Driver.antt =====
-- dupion/src/driver/platterwalker.rs: the driver, as far as it works on the state. What the walk
-- finds, with the metadata and the extents of the files, and the reads are parameters. Writing the
-- cache from time to time changes no state and is left out, and so are the locks and the threads.
mod Candidates
pub mod Size
pub mod Phase
pub mod Filter
pub mod Hashing
pub mod Memory
mod Examples
use dupion.Base.{
  ℕ, ◌+◌, Bool, true, false, not, ◌&&◌, ◌||◌, Option, none, some, is_some, option_eq, List, [], ◌∷◌,
  ◌++◌, if◌then◌else◌, length, leb, ◌==◌, add64, Outcome, ok, err, stuck, ◌>>=◌, ◌>>◌, assert,
  unwrap_result, sort_by_key,
}
use dupion.FilePath.{FilePath, Bytes}
use dupion.Opts.{Opts, zip_by_extension}
use dupion.Vfs.{VfsId, VfsEntry, Hash, cid_and_create}
use dupion.State.{
  State, Counters, entry, modify, push_to_size_group, push_to_hash_group, is_file_read_candidate,
  disp_add_relevant, validate,
}

-- `Metadata`, with the first physical offset and the number of the extents.
pub record Found : Type 0 where
  pub path : FilePath
  pub size : ℕ
  pub ctime : ℕ
  pub phy_off : ℕ
  pub n_extends : ℕ

-- The state and the two vectors that `size_file` appends to.
pub record Scan : Type 0 where
  pub state : State
  pub dest : List (ℕ × VfsId)
  pub hash_now : List VfsId

abbrev pub count_found : ℕ → State → State
count_found size s = record s {
  disp = record (s.disp) {
    found_bytes = add64 s.disp.found_bytes size;
    found_files = add64 s.disp.found_files 1;
  };
}

abbrev pub set_found : Found → VfsEntry → VfsEntry
set_found f e = record e {
  is_file = true;
  file_size = some f.size;
  phys = some f.phy_off;
  n_extends = some f.n_extends;
}

abbrev pub add_if_candidate : State → VfsId → Opts → Outcome State
add_if_candidate s id opts = do
  candidate ← is_file_read_candidate s id opts
  if candidate then disp_add_relevant s id else ok s

pub size_file : Found → Scan → Opts → Outcome Scan
size_file f scan opts = do
  made ← cid_and_create (count_found f.size scan.state).tree f.path
  checked ←
      validate (record (count_found f.size scan.state) { tree = made.0 }) made.1 f.ctime
        (some f.size) none
  s1 ← modify checked.0 made.1 (set_found f)
  s2 ← unwrap_result (push_to_size_group s1 made.1 true false)
  e ← entry s2 made.1
  s3 ←
      if is_some e.file_hash then unwrap_result (push_to_hash_group s2 made.1 true false) else ok s2
  s4 ← add_if_candidate s3 made.1 opts
  ok (record {
    state = s4;
    dest = scan.dest ++ (f.phy_off, made.1) ∷ [];
    hash_now = scan.hash_now ++ made.1 ∷ [];
  })

-- The files of the walk, in the order it yields them.
pub size_files : List Found → Scan → Opts → Outcome Scan
unfolding size_file
size_files [] scan opts = ok scan
size_files (f ∷ fs) scan opts = do scan' ← size_file f scan opts; size_files fs scan' opts

-- The loop over `dest` at the end of the phase.
pub add_candidates : List (ℕ × VfsId) → State → Opts → Outcome State
add_candidates [] s opts = ok s
add_candidates ((o, id) ∷ rest) s opts = do
  s' ← add_if_candidate s id opts
  add_candidates rest s' opts

-- The size phase without `pass_1_hash`, for which alone `hash_now` is kept and cleared: the entries in
-- the order of their offsets.
pub size_phase : List Found → State → Opts → Outcome (State × List (ℕ × VfsId))
unfolding size_files add_candidates
size_phase found s opts = do
  scan ← size_files found (record { state = s; dest = []; hash_now = [] }) opts
  let dest = sort_by_key (λ (d : ℕ × VfsId). d.0) scan.dest
  s' ← add_candidates dest scan.state opts
  ok (s', dest)

-- The filter of `hash_files`: whether the file goes to the reader, and with which path.
pub filter_file : Opts → State → VfsId → Outcome (State × Option FilePath)
filter_file opts s id = do
  candidate ← is_file_read_candidate s id opts
  e ← entry s id
  let taken = (do s' ← disp_add_relevant s id; assert e.valid; ok (s', some e.path))
  if candidate then taken else ok (s, none)

-- The files that pass the filter, in order.
pub filter_files : Opts → State → List VfsId → Outcome (State × List (VfsId × FilePath))
unfolding filter_file
filter_files opts s [] = ok (s, [])
filter_files opts s (id ∷ ids) = do
  first ← filter_file opts s id
  rest ← filter_files opts first.0 ids
  ok (rest.0, elim first.1 [ none ↦ rest.1 | some path ↦ (id, path) ∷ rest.1 ])

-- Whether the file that was opened is the one that was found.
pub comodified : State → VfsId → ℕ → ℕ → Outcome Bool
comodified s id size ctime = do
  e ← entry s id
  ok (not (option_eq e.file_size (some size)) || not (option_eq e.ctime (some ctime)))

abbrev pub count_processed_file : State → State
count_processed_file s = record s {
  disp = record (s.disp) { processed_files = add64 s.disp.processed_files 1 };
}

abbrev pub set_hash : Hash → Bool → VfsEntry → VfsEntry
set_hash hash is_zip e = record e { file_hash = some hash; is_dir = e.is_dir || is_zip }

-- What is done with the hash of a file.
pub finish_file : Opts → State → VfsId → FilePath → Hash → Outcome State
finish_file opts s id path hash = do
  s1 ← modify s id (set_hash hash (zip_by_extension opts path))
  s2 ← unwrap_result (push_to_hash_group s1 id true false)
  ok (count_processed_file s2)

-- What one call of `read` gives.
pub data ReadResult : Type 0 where
  at_end unexpected_eof interrupted failed : ReadResult
  chunk : Bytes → ReadResult

-- The loops that read a file: the bytes read, unless a read failed, and the counter of bytes.
pub read_stream : List ReadResult → Bytes → ℕ → Outcome (Option Bytes × ℕ)
read_stream [] bytes processed = err stuck
read_stream (at_end ∷ rs) bytes processed = ok (some bytes, processed)
read_stream (unexpected_eof ∷ rs) bytes processed = ok (some bytes, processed)
read_stream (interrupted ∷ rs) bytes processed = read_stream rs bytes processed
read_stream (failed ∷ rs) bytes processed = ok (none, processed)
read_stream (chunk bs ∷ rs) bytes processed =
    read_stream rs (bytes ++ bs) (add64 processed (length bs))

abbrev pub count_relevant_file : ℕ → State → State
count_relevant_file size s = record s {
  disp = record (s.disp) {
    relevant_bytes = add64 s.disp.relevant_bytes size;
    relevant_files = add64 s.disp.relevant_files 1;
  };
}

abbrev pub with_processed : ℕ → State → State
with_processed n s = record s { disp = record (s.disp) { processed_bytes = n } }

-- The reads and what follows them, for a state in which a large archive is counted again.
pub hash_reads :
    (Bytes → Hash) → Opts → State → VfsId → FilePath → ℕ → List ReadResult → Bool → Outcome State
unfolding read_stream finish_file
hash_reads blake3 opts s id path size reads small = do
  read ← read_stream reads [] s.disp.processed_bytes
  elim read.0 [
    | none ↦ ok (with_processed read.1 s)
    | some bytes ↦ do
      assert (not small || length bytes == size)
      finish_file opts (with_processed read.1 s) id path (blake3 bytes)
  ]

-- The loop body of `hash_files` for a file that was opened. An archive is also handed to a task that
-- decodes it.
pub hash_file :
    (Bytes → Hash)
    → Opts
    → Bool
    → ℕ
    → State
    → VfsId
    → FilePath
    → ℕ
    → ℕ
    → List ReadResult
    → Outcome State
unfolding comodified hash_reads
hash_file blake3 opts do_zips huge_zip_thres s id path size ctime reads = do
  changed ← comodified s id size ctime
  let archive = do_zips && zip_by_extension opts path
  let small = archive && leb size huge_zip_thres
  let s' = if archive && not small then count_relevant_file size s else s
  if changed then ok s else hash_reads blake3 opts s' id path size reads small
