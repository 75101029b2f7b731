-- ===== src/Driver/Hashing.antt =====
-- The hash of a file: it is the hash of the bytes read, and the file comes to the group of that hash.
use dupion.Base.{
  ℕ, ◌≡◌, refl, sym, ap, ◌∙◌, inl, inr, Bool, true, false, not, ◌&&◌, ◌||◌, Option, none, some,
  option_eq, List, [], ◌∷◌, ◌++◌, append-nil, append_assoc, length, leb, get_elem?, ◌==◌, ==_iff,
  Option-cases, add64, Outcome, ok, unwrap, unwrap_result, >>=-ok, ◌>>◌, assert, if◌then◌else◌,
}
use dupion.FilePath.{FilePath, Bytes}
use dupion.Opts.{Opts, zip_by_extension}
use dupion.Vfs.{VfsEntry, VfsId, Hash}
use dupion.State.{State}
use dupion.State.HashGroups.{in_hash_group}
use dupion.State.Sound.{
  IsSound, IsSound-disp, IsHashed, modify_lem, with_entry, with_entry-IsSound, with_entry_found,
}
use dupion.State.Refill.{push_hash-Refreshes}
use dupion.Driver.{
  ReadResult, at_end, unexpected_eof, interrupted, failed, chunk, read_stream, set_hash,
  finish_file, hash_file, hash_reads, count_processed_file, count_relevant_file, with_processed,
  comodified,
}

-- The bytes that the calls of `read` give up to the end, if none fails.
abbrev pub data_of : List ReadResult → Option Bytes
data_of [] = none
data_of (at_end ∷ rs) = some []
data_of (unexpected_eof ∷ rs) = some []
data_of (interrupted ∷ rs) = data_of rs
data_of (failed ∷ rs) = none
data_of (chunk bs ∷ rs) = elim (data_of rs) [ none ↦ none | some more ↦ some (bs ++ more) ]

same_bytes : {a b : Bytes} → some a ≡ some b → a ≡ b
same_bytes h = cc

read_stream_lem :
    (rs : List ReadResult) (before bytes : Bytes) (n : ℕ)
    → data_of rs ≡ some bytes
    → (m : ℕ) × (read_stream rs before n ≡ ok (some (before ++ bytes), m))
unfolding read_stream
read_stream_lem [] before bytes n h = cc
read_stream_lem (at_end ∷ rs) before bytes n h =
    (n, ap (λ b. ok (some b, n)) (sym (append-nil before) ∙ ap (λ b. before ++ b) (same_bytes h)))
read_stream_lem (unexpected_eof ∷ rs) before bytes n h =
    (n, ap (λ b. ok (some b, n)) (sym (append-nil before) ∙ ap (λ b. before ++ b) (same_bytes h)))
read_stream_lem (interrupted ∷ rs) before bytes n h = read_stream_lem rs before bytes n h
read_stream_lem (failed ∷ rs) before bytes n h = cc
read_stream_lem (chunk bs ∷ rs) before bytes n h = elim (Option-cases (data_of rs)) [
  | inl nothing ↦ let it : none ≡ some bytes = rw nothing at h in cc
  | inr (more, rest) ↦
      let it : some (bs ++ more) ≡ some bytes = rw rest at h in
      let (m, returns) = read_stream_lem rs (before ++ bs) more (add64 n (length bs)) rest in
      (
        m,
        returns
            ∙ ap (λ b. ok (some b, m))
                (append_assoc before bs more ∙ ap (λ b. before ++ b) (same_bytes it)),
      )
]

-- What is left behind a file that was hashed.
pub record HashedFile (content : Hash → ℕ) (id : VfsId) (hash : Hash) (r : Outcome State)
    : Type 0 where
  pub out : State
  pub returns : r ≡ ok out
  pub sound : IsSound content out
  pub entry : VfsEntry
  pub found : get_elem? out.tree.entries id ≡ some entry
  pub hashed : entry.file_hash ≡ some hash
  pub grouped : entry.unique ≡ false → in_hash_group out.hashes hash id ≡ true

finish_file-HashedFile :
    {content : Hash → ℕ} (opts : Opts) (s : State) (id : VfsId) (path : FilePath) (hash : Hash)
    (e : VfsEntry)
    → IsSound content s
    → get_elem? s.tree.entries id ≡ some e
    → e.valid ≡ true
    → e.file_size ≡ some (content hash)
    → HashedFile content id hash (finish_file opts s id path hash)
unfolding finish_file
finish_file-HashedFile {content} opts s id path hash e sound found valid known =
    let e' = set_hash hash (zip_by_extension opts path) e in
    let s1 = with_entry s id e' in
    let hashed : IsHashed content e' =
      λ h same. known ∙ ap (λ k. some (content k)) (same_hash same) in
    let sound1 = with_entry-IsSound s id e e' sound found refl refl refl hashed in
    let found1 = with_entry_found s id e e' found in
    let (t, returns, (x, tree, member)) =
      push_hash-Refreshes s1 id hash e' sound1 found1 valid refl in
    record {
      out = count_processed_file t;
      returns =
          >>=-ok _ (modify_lem s id e (set_hash hash (zip_by_extension opts path)) found)
            (>>=-ok _ (ap unwrap_result returns) refl);
      sound = IsSound-disp t (count_processed_file t).disp x.sound;
      entry = e';
      found = ap (λ v. get_elem? v.entries id) tree ∙ found1;
      hashed = refl;
      grouped = member;
    }
  where
    same_hash : {h : Hash} → some hash ≡ some h → hash ≡ h
    same_hash eq = cc

hash_reads_lem :
    (blake3 : Bytes → Hash) (opts : Opts) (s : State) (id : VfsId) (path : FilePath) (size : ℕ)
    (reads : List ReadResult) (bytes : Bytes) (small : Bool) (m : ℕ) {out : State}
    → read_stream reads [] s.disp.processed_bytes ≡ ok (some bytes, m)
    → length bytes ≡ size
    → finish_file opts (with_processed m s) id path (blake3 bytes) ≡ ok out
    → hash_reads blake3 opts s id path size reads small ≡ ok out
unfolding hash_reads
hash_reads_lem blake3 opts s id path size reads bytes small m read all finished =
    let test : (not small || length bytes == size) ≡ true =
      by_small small ((==_iff (length bytes) size).1 all) in
    >>=-ok _ read (
      ap (λ b. assert b >> finish_file opts (with_processed m s) id path (blake3 bytes)) test
      ∙ finished)
  where
    by_small : (b : Bool) {c : Bool} → c ≡ true → (not b || c) ≡ true
    by_small true h = h
    by_small false h = refl

-- A file that is opened as it was found, and read to its end, is hashed: if its entry is valid and has
-- its size and its time of change, the state is sound, the reads give all its bytes, and the hash of
-- the bytes is that of a content of their length, then `hash_file` returns, whether the file is an
-- archive or not. The entry then has the hash of the bytes, and is in the group of the hash unless it
-- is unique.
pub hash_file-HashedFile :
    {content : Hash → ℕ} (blake3 : Bytes → Hash) (opts : Opts) (do_zips : Bool) (huge_zip_thres : ℕ)
    (s : State) (id : VfsId) (path : FilePath) (size ctime : ℕ) (reads : List ReadResult)
    (bytes : Bytes) (e : VfsEntry)
    → IsSound content s
    → get_elem? s.tree.entries id ≡ some e
    → e.valid ≡ true
    → e.file_size ≡ some size
    → e.ctime ≡ some ctime
    → data_of reads ≡ some bytes
    → length bytes ≡ size
    → content (blake3 bytes) ≡ length bytes
    → HashedFile content id
        (blake3 bytes)
        (hash_file blake3 opts do_zips huge_zip_thres s id path size ctime reads)
unfolding hash_file comodified
hash_file-HashedFile {content} blake3 opts do_zips huge_zip_thres s id path size ctime reads bytes e
      sound found valid known time bytes_read all honest =
    let archive = do_zips && zip_by_extension opts path in
    let small = archive && leb size huge_zip_thres in
    let unchanged : (not (option_eq e.file_size (some size))
          || not (option_eq e.ctime (some ctime)))
        ≡ false =
      rw (known, time, (==_iff size size).1 refl, (==_iff ctime ctime).1 refl) refl in
    let h = by_counted (archive && not small) small in
    record {
      out = h.out;
      returns = >>=-ok _ (>>=-ok _ (ap unwrap found) refl) (rw unchanged h.returns);
      sound = h.sound;
      entry = h.entry;
      found = h.found;
      hashed = h.hashed;
      grouped = h.grouped;
    }
  where
    from_state :
        (t : State) (small : Bool)
        → IsSound content t
        → get_elem? t.tree.entries id ≡ some e
        → HashedFile content id (blake3 bytes) (hash_reads blake3 opts t id path size reads small)
    from_state t small sound_t found_t =
        let (m, read) = read_stream_lem reads [] bytes t.disp.processed_bytes bytes_read in
        let h =
          finish_file-HashedFile opts (with_processed m t) id path (blake3 bytes) e
            (IsSound-disp t (with_processed m t).disp sound_t) found_t valid
            (known ∙ ap some (sym all ∙ sym honest)) in
        record {
          out = h.out;
          returns =
              hash_reads_lem blake3 opts t id path size reads bytes small m read all h.returns;
          sound = h.sound;
          entry = h.entry;
          found = h.found;
          hashed = h.hashed;
          grouped = h.grouped;
        }

    by_counted :
        (counted small : Bool)
        → HashedFile content id (blake3 bytes) (
            hash_reads blake3 opts
              (if counted then count_relevant_file size s else s)
              id
              path
              size
              reads
              small)
    by_counted true small =
        from_state (count_relevant_file size s) small
          (IsSound-disp s (count_relevant_file size s).disp sound) found
    by_counted false small = from_state s small sound found
