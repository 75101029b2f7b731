-- ===== src/Cache/Text.antt =====
-- `PathBuf::from` of a text, as `components()` reads it.
use dupion.Base.{ℕ, false, List, [], ◌∷◌, ◌==◌, ◌≡◌, ◌++◌, refl, if◌then◌else◌, All, map}
use dupion.FilePath.{Bytes, FilePath, root_dir, cur_dir, parent_dir, normal, bytes_eq}
use dupion.FilePath.Text.{path_text, join_names}

abbrev pub cons_head : ℕ → List Bytes → List Bytes
cons_head b [] = (b ∷ []) ∷ []
cons_head b (n ∷ ns) = (b ∷ n) ∷ ns

-- The parts between the slashes.
pub split_slash : Bytes → List Bytes
split_slash [] = [] ∷ []
split_slash (b ∷ bs) =
    let rest = split_slash bs in if b == b'/' then [] ∷ rest else cons_head b rest

-- What `components()` makes of one part behind the first: empty parts and `.` are skipped.
abbrev pub add_part : Bytes → FilePath → FilePath
add_part n p =
    if bytes_eq n []
    then p
    else if bytes_eq n (b'.' ∷ [])
    then p
    else if bytes_eq n (b'.' ∷ b'.' ∷ [])
    then parent_dir ∷ p
    else normal n ∷ p

pub add_parts : List Bytes → FilePath
add_parts [] = []
add_parts (n ∷ ns) = add_part n (add_parts ns)

abbrev pub relative_parts : List Bytes → FilePath
relative_parts [] = []
relative_parts (n ∷ ns) =
    if bytes_eq n (b'.' ∷ []) then cur_dir ∷ add_parts ns else add_part n (add_parts ns)

pub parse_path : Bytes → FilePath
unfolding split_slash add_parts
parse_path [] = []
parse_path (b ∷ bs) =
    if b == b'/'
    then root_dir ∷ add_parts (split_slash bs)
    else relative_parts (split_slash (b ∷ bs))

abbrev pub HasNoSlash : Bytes → Type 0
HasNoSlash = All λ b. (b == b'/') ≡ false

-- The name of a file: not empty, neither `.` nor `..`, and without a slash.
abbrev pub IsName : Bytes → Type 0
IsName n =
    (bytes_eq n [] ≡ false)
    × (bytes_eq n (b'.' ∷ []) ≡ false)
    × (bytes_eq n (b'.' ∷ b'.' ∷ []) ≡ false)
    × HasNoSlash n

abbrev names : List Bytes → FilePath
names = map normal

split_slash-name : (n : Bytes) → HasNoSlash n → split_slash n ≡ n ∷ []
unfolding split_slash
split_slash-name [] h = refl
split_slash-name (b ∷ bs) h = rw (h.0, split_slash-name bs h.1) refl

split_slash-append : (n s : Bytes) → HasNoSlash n → split_slash (n ++ b'/' ∷ s) ≡ n ∷ split_slash s
unfolding split_slash
split_slash-append [] s h = refl
split_slash-append (b ∷ bs) s h = rw (h.0, split_slash-append bs s h.1) refl

add_part_name : (n : Bytes) (p : FilePath) → IsName n → add_part n p ≡ normal n ∷ p
add_part_name n p h = rw (h.0, h.1, h.2) refl

add_parts-names :
    (ns : List Bytes) → All IsName ns → add_parts (split_slash (join_names (names ns))) ≡ names ns
unfolding add_parts split_slash bytes_eq
add_parts-names [] h = refl
add_parts-names (n ∷ []) h = rw (split_slash-name n (h.0.3)) (add_part_name n [] h.0)
add_parts-names (n ∷ m ∷ ns) h =
    rw (split_slash-append n (join_names (names (m ∷ ns))) (h.0.3), add_parts-names (m ∷ ns) h.1)
      (add_part_name n (names (m ∷ ns)) h.0)

-- The paths of the tree: the empty one, and `/` followed by names.
pub data StoredPath : FilePath → Type 0 where
  no_path : StoredPath []
  rooted : (ns : List Bytes) → All IsName ns → StoredPath (root_dir ∷ names ns)

-- The text of such a path is read back as the path.
pub parse_path-path_text : (p : FilePath) → StoredPath p → parse_path (path_text p) ≡ p
unfolding parse_path
parse_path-path_text p no_path = refl
parse_path-path_text p (rooted ns h) = rw (add_parts-names ns h) refl
