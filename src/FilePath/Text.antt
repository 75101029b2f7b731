-- ===== src/FilePath/Text.antt =====
-- Paths as text: `Path::to_str`, which gives `None` for what is not UTF-8.
use dupion.Base.{
  ℕ, zero, suc, Bool, true, false, ◌&&◌, Option, none, some, [], ◌∷◌, ◌++◌, ltb, leb, ◌==◌,
  if◌then◌else◌,
}
use dupion.FilePath.{Bytes, FilePath, root_dir, as_os_str}

-- The text of a path.
abbrev pub join_names : FilePath → Bytes
join_names [] = []
join_names (c ∷ []) = as_os_str c
join_names (c ∷ d ∷ p) = as_os_str c ++ b'/' ∷ join_names (d ∷ p)

abbrev pub path_text : FilePath → Bytes
path_text (root_dir ∷ p) = b'/' ∷ join_names p
path_text p = join_names p

-- What may follow the first byte of a code point: how many bytes, and the range of the next.
abbrev pub Lead : Type 0
Lead = record { more : ℕ; low : ℕ; high : ℕ }

abbrev pub lead_of : ℕ → Option Lead
lead_of b =
    if ltb b 128
    then some (record { more = 0; low = 0; high = 0 })
    else if ltb b 194
    then none
    else if ltb b 224
    then some (record { more = 1; low = 128; high = 191 })
    else if b == 224
    then some (record { more = 2; low = 160; high = 191 })
    else if b == 237
    then some (record { more = 2; low = 128; high = 159 })
    else if ltb b 240
    then some (record { more = 2; low = 128; high = 191 })
    else if b == 240
    then some (record { more = 3; low = 144; high = 191 })
    else if ltb b 244
    then some (record { more = 3; low = 128; high = 191 })
    else if b == 244
    then some (record { more = 3; low = 128; high = 143 })
    else none

-- `more` bytes of a code point are still to come, the next one between `low` and `high`.
unfoldable pub utf8_from : ℕ → ℕ → ℕ → Bytes → Bool
utf8_from zero low high [] = true
utf8_from (suc more) low high [] = false
utf8_from zero low high (b ∷ bs) = elim (lead_of b) [
  | none ↦ false
  | some l ↦ utf8_from l.more l.low l.high bs
]
utf8_from (suc more) low high (b ∷ bs) = leb low b && leb b high && utf8_from more 128 191 bs

abbrev pub is_utf8 : Bytes → Bool
is_utf8 = utf8_from 0 0 0

-- `Path::to_str`.
abbrev pub to_str : FilePath → Option Bytes
to_str p = if is_utf8 (path_text p) then some (path_text p) else none
