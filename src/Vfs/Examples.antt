-- ===== src/Vfs/Examples.antt =====
-- `cid_and_create` on the empty tree.
use dupion.Base.{refl, ◌∷◌, []}
use dupion.FilePath.{FilePath, root_dir, normal}
use dupion.Vfs.{new, cid_and_create}
use dupion.Vfs.Resolve.{Made, cid_and_create-Made, new-IsTree, IsCanonical}

-- /a/b
abbrev nested : FilePath
nested = root_dir ∷ normal (b'a' ∷ []) ∷ normal (b'b' ∷ []) ∷ []

nested-IsCanonical : IsCanonical nested
nested-IsCanonical = (refl, (tt, refl, ((λ e. cc), tt, ((λ e. cc), tt, tt))))

cid_and_create-Made_example : Made new nested (cid_and_create new nested)
cid_and_create-Made_example = cid_and_create-Made new nested new-IsTree nested-IsCanonical
