-- ===== src/Main/Examples.antt =====
-- Two roots, in a tree of the root alone.
use dupion.Base.{refl, ◌≡◌, ◌+◌, ◌≤◌, ◌%◌, u64_mod, ◌⊎◌, arith, List, [], ◌∷◌, length, All}
use dupion.FilePath.{FilePath, root_dir, normal}
use dupion.State.Sound.{IsSound, Gives}
use dupion.Main.{dirty_load, round_option}
use dupion.Main.Roots.{IsRooted, IsRounded, dirty_load-IsRooted, round_option_bounds}
use dupion.Samples.{before_walk, before_walk-IsSound}

abbrev two_roots : List FilePath
two_roots = (root_dir ∷ normal (b'a' ∷ []) ∷ []) ∷ (root_dir ∷ normal (b'b' ∷ []) ∷ []) ∷ []

dirty_load-IsRooted_example : Gives (dirty_load two_roots before_walk) (λ t.
    IsSound length t
    × All (IsRooted t) two_roots
    × ((r : FilePath) → IsRooted before_walk r → IsRooted t r))
dirty_load-IsRooted_example =
    dirty_load-IsRooted two_roots before_walk before_walk-IsSound
      ((refl, (tt, refl, ((λ e. cc), tt, tt))), ((refl, (tt, refl, ((λ e. cc), tt, tt))), tt))

round_option_bounds_example :
    (round_option 2000 % 4096 ≡ 0)
    × (IsRounded 2000 (round_option 2000) ⊎ (u64_mod ≤ 2000 + 1024) × (round_option 2000 ≡ 0))
round_option_bounds_example = round_option_bounds 2000 (omega arith)
