-- ===== src/FilePath/Laws.antt =====
-- Equality of names, components and paths is decided by the comparisons of the code.
use dupion.Base.{◌≡◌, refl, ap, sym, subst, ◌↔◌, true, [], ◌∷◌, arith, some, ◌++◌}
use dupion.FilePath.{
  Bytes, Component, root_dir, cur_dir, parent_dir, normal, FilePath, bytes_eq, component_eq,
  path_eq, strip_prefix, as_os_str, IsPlain,
}

pub bytes_eq_refl : (a : Bytes) → bytes_eq a a ≡ true
unfolding bytes_eq
bytes_eq_refl [] = refl
bytes_eq_refl (a ∷ as') = ground (arith, bytes_eq_refl as')

pub bytes_eq→≡ : (a b : Bytes) → bytes_eq a b ≡ true → a ≡ b
unfolding bytes_eq
bytes_eq→≡ [] [] h = refl
bytes_eq→≡ (a ∷ as') (b ∷ bs) h = ground (arith, bytes_eq→≡ as' bs)
bytes_eq→≡ [] (b ∷ bs) h = cc
bytes_eq→≡ (a ∷ as') [] h = cc

pub component_eq_refl : (c : Component) → component_eq c c ≡ true
unfolding component_eq
component_eq_refl root_dir = refl
component_eq_refl cur_dir = refl
component_eq_refl parent_dir = refl
component_eq_refl (normal n) = bytes_eq_refl n

pub component_eq→≡ : (c d : Component) → component_eq c d ≡ true → c ≡ d
unfolding component_eq
component_eq→≡ root_dir root_dir h = refl
component_eq→≡ cur_dir cur_dir h = refl
component_eq→≡ parent_dir parent_dir h = refl
component_eq→≡ (normal a) (normal b) h = ap normal (bytes_eq→≡ a b h)
component_eq→≡ root_dir cur_dir h = cc
component_eq→≡ root_dir parent_dir h = cc
component_eq→≡ root_dir (normal b) h = cc
component_eq→≡ cur_dir root_dir h = cc
component_eq→≡ cur_dir parent_dir h = cc
component_eq→≡ cur_dir (normal b) h = cc
component_eq→≡ parent_dir root_dir h = cc
component_eq→≡ parent_dir cur_dir h = cc
component_eq→≡ parent_dir (normal b) h = cc
component_eq→≡ (normal a) root_dir h = cc
component_eq→≡ (normal a) cur_dir h = cc
component_eq→≡ (normal a) parent_dir h = cc

pub path_eq_refl : (p : FilePath) → path_eq p p ≡ true
unfolding path_eq
path_eq_refl [] = refl
path_eq_refl (c ∷ p) = rw (component_eq_refl c, path_eq_refl p)

-- Two canonical components with one name are one.
pub as_os_str_inj : (c d : Component) → IsPlain c → IsPlain d → as_os_str c ≡ as_os_str d → c ≡ d
as_os_str_inj root_dir root_dir hc hd e = refl
as_os_str_inj root_dir (normal n) hc hd e = absurd (hd (sym e))
as_os_str_inj (normal n) root_dir hc hd e = absurd (hc e)
as_os_str_inj (normal n) (normal m) hc hd e = ap normal e
as_os_str_inj cur_dir d hc hd e = absurd hc
as_os_str_inj parent_dir d hc hd e = absurd hc
as_os_str_inj c cur_dir hc hd e = absurd hd
as_os_str_inj c parent_dir hc hd e = absurd hd

pub strip_prefix-append : (base r : FilePath) → strip_prefix base (base ++ r) ≡ some r
unfolding strip_prefix
strip_prefix-append [] r = refl
strip_prefix-append (b ∷ base) r = rw (component_eq_refl b) (strip_prefix-append base r)

pub strip_prefix→append : (base p r : FilePath) → strip_prefix base p ≡ some r → p ≡ base ++ r
unfolding strip_prefix
strip_prefix→append [] p r h = ground arith
strip_prefix→append (b ∷ base) [] r h = cc
strip_prefix→append (b ∷ base) (c ∷ p) r h =
    ground (arith, component_eq→≡ b c, strip_prefix→append base p r)

pub path_eq→≡ : (p q : FilePath) → path_eq p q ≡ true → p ≡ q
unfolding path_eq
path_eq→≡ [] [] h = refl
path_eq→≡ [] (d ∷ q) h = cc
path_eq→≡ (c ∷ p) [] h = cc
path_eq→≡ (c ∷ p) (d ∷ q) h = ground (arith, component_eq→≡ c d, path_eq→≡ p q)

pub bytes_eq_iff : (a b : Bytes) → (bytes_eq a b ≡ true) ↔ (a ≡ b)
bytes_eq_iff a b = (bytes_eq→≡ a b, λ e. subst (λ c. bytes_eq a c ≡ true) e (bytes_eq_refl a))
