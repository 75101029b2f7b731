-- ===== src/FilePath.antt =====
-- Paths as dupion uses `std::path::Path`: the list of the components that `components()` gives. The
-- names are the bytes of an `OsStr`.
pub mod Laws
pub mod Text
use dupion.Base.{
  ℕ, Bool, true, false, ◌&&◌, ◌||◌, not, Option, none, some, List, [], ◌∷◌, ◌++◌, ◌==◌, ltb,
  if◌then◌else◌, ◌≢◌,
}

abbrev pub Bytes : Type 0
Bytes = List ℕ

pub data Component : Type 0 where
  root_dir cur_dir parent_dir : Component
  normal : Bytes → Component

abbrev pub FilePath : Type 0
FilePath = List Component

unfoldable pub bytes_eq : Bytes → Bytes → Bool
bytes_eq [] [] = true
bytes_eq (a ∷ as') (b ∷ bs) = a == b && bytes_eq as' bs
bytes_eq _ _ = false

-- `Component::as_os_str`.
abbrev pub as_os_str : Component → Bytes
as_os_str root_dir = b'/' ∷ []
as_os_str cur_dir = b'.' ∷ []
as_os_str parent_dir = b'.' ∷ b'.' ∷ []
as_os_str (normal n) = n

unfoldable pub component_eq : Component → Component → Bool
unfolding bytes_eq
component_eq root_dir root_dir = true
component_eq cur_dir cur_dir = true
component_eq parent_dir parent_dir = true
component_eq (normal a) (normal b) = bytes_eq a b
component_eq _ _ = false

unfoldable pub path_eq : FilePath → FilePath → Bool
unfolding component_eq
path_eq [] [] = true
path_eq (a ∷ p) (b ∷ q) = component_eq a b && path_eq p q
path_eq _ _ = false

-- `PathBuf::push` of one component: an absolute one replaces the path.
abbrev pub push : FilePath → Component → FilePath
push p root_dir = root_dir ∷ []
push [] cur_dir = cur_dir ∷ []
push (c ∷ p) cur_dir = c ∷ p
push p parent_dir = p ++ parent_dir ∷ []
push p (normal n) = p ++ normal n ∷ []

-- `Path::is_absolute`.
abbrev pub is_absolute_path : FilePath → Bool
is_absolute_path (root_dir ∷ p) = true
is_absolute_path _ = false

abbrev pub last_component : FilePath → Option Component
last_component [] = none
last_component (c ∷ []) = some c
last_component (c ∷ d ∷ p) = last_component (d ∷ p)

-- `Path::file_name`.
abbrev pub file_name : FilePath → Option Bytes
file_name p = elim (last_component p) [ some (normal n) ↦ some n | _ ↦ none ]

-- `Path::strip_prefix(base)`, the base first.
unfoldable pub strip_prefix : FilePath → FilePath → Option FilePath
unfolding component_eq
strip_prefix [] p = some p
strip_prefix (b ∷ base) [] = none
strip_prefix (b ∷ base) (c ∷ p) = if component_eq b c then strip_prefix base p else none

-- `Path::join`.
abbrev pub join : FilePath → FilePath → FilePath
join p q = if is_absolute_path q then q else p ++ q

-- A component of a canonical path: the root, or a name with no slash.
abbrev pub IsPlain : Component → Type 0
IsPlain (normal n) = n ≢ b'/' ∷ []
IsPlain root_dir = Unit {0}
IsPlain cur_dir = ⊥
IsPlain parent_dir = ⊥
