-- ===== src/Main/Roots.antt =====
-- What the options and `dirty_load` come to.
use dupion.Base.{
  ℕ, ◌+◌, ◌<◌, ◌≤◌, ◌≡◌, ◌↔◌, ◌%◌, u64_mod, ltb, Bool-cases, inl, inr, ◌⊎◌, refl, ◌∙◌, some, List,
  [], ◌∷◌, lt-get_elem?, All, ok, >>=-ok, arith,
}
use dupion.FilePath.{FilePath}
use dupion.Vfs.{VfsId, Hash, cid, cid_and_create}
use dupion.Vfs.Resolve.{IsCanonical, Made, cid_and_create-Made, cid-Extends}
use dupion.State.{State, set_valid}
use dupion.Vfs.Content.{cid_and_create-Grows}
use dupion.State.Sound.{IsSound, Gives}
use dupion.State.Created.{created-IsSound}
use dupion.State.Revival.{set_valid-Refreshes, IsRevived, IsRevived-Refreshes}
use dupion.State.Validation.{Refreshes-Extends}
use dupion.Main.{round_option, dirty_load}

-- A size that is small enough, and what it is rounded to.
abbrev pub IsRounded : ℕ → ℕ → Type 0
IsRounded bytes rounded =
    (bytes + 1024 < u64_mod)
    × (rounded ≤ bytes + 1024)
    × (bytes < rounded + 3072)
    × ((rounded ≡ 0) ↔ (bytes < 3072))

-- A size among the options, a word of 64 bits, is rounded to a multiple of 4096. Below
-- `2 ^ 64 - 1024` it becomes at most 1024 larger and less than 3072 smaller, and zero exactly if it is
-- less than 3072. From there on, up to the largest word, the addition wraps and it becomes zero.
pub round_option_bounds :
    (bytes : ℕ)
    → bytes < u64_mod
    → (round_option bytes % 4096 ≡ 0)
      × (IsRounded bytes (round_option bytes) ⊎ (u64_mod ≤ bytes + 1024) × (round_option bytes ≡ 0))
round_option_bounds bytes word = elim (Bool-cases (ltb (bytes + 1024) u64_mod)) [
  | inl small ↦
      let below : bytes + 1024 < u64_mod = ground (arith, small) in
      (
        omega arith,
        inl (
          below,
          omega (arith, below),
          omega (arith, below),
          ((λ h. omega (arith, below, h)), (λ h. omega (arith, below, h))),
        ),
      )
  | inr huge ↦
      let above : u64_mod ≤ bytes + 1024 = ground (arith, huge) in
      (omega arith, inr (above, omega (arith, word, above)))
]

-- The root is in the tree, and valid.
abbrev pub IsRooted : State → FilePath → Type 0
IsRooted s root = (id : VfsId) × (cid s.tree root ≡ ok (some id)) × IsRevived s id

-- A step of the loop: what is rooted stays so, and the root comes to it.
step-IsRooted :
    {content : Hash → ℕ} (s : State) (root : FilePath)
    → IsSound content s
    → IsCanonical root
    → (m : Made s.tree root (cid_and_create s.tree root)) × Gives
        (set_valid (record s { tree = m.out }) m.id)
        (λ t. IsSound content t × IsRooted t root × ((r : FilePath) → IsRooted s r → IsRooted t r))
step-IsRooted {content} s root sound canonical =
    let m = cid_and_create-Made s.tree root sound.tree canonical in
    let (t, returns, (x, revived)) =
      set_valid-Refreshes (record s { tree = m.out }) m.id (created-IsSound s root m sound)
        (lt-get_elem? m.out.entries m.id m.found) in
    let extends = Refreshes-Extends x in
    (
      m,
      (
        t,
        returns,
        (
          x.sound,
          (m.id, cid-Extends m.out t.tree root m.id extends m.resolves, revived),
          λ r (id, resolves, (e, found, valid)).
              let (e', found', same) =
                (cid_and_create-Grows s.tree m.out root m.id m.returns).old id e found in
              (
                id,
                cid-Extends m.out t.tree r id extends (m.keeps r id resolves),
                IsRevived-Refreshes id x (e', found', same.valid ∙ valid),
              ),
        ),
      ),
    )

All-IsRooted :
    (s t : State) (roots : List FilePath)
    → ((r : FilePath) → IsRooted s r → IsRooted t r)
    → All (IsRooted s) roots
    → All (IsRooted t) roots
All-IsRooted s t [] f h = tt
All-IsRooted s t (r ∷ rs) f h = (f r h.0, All-IsRooted s t rs f h.1)

-- On a sound state and for canonical roots, `dirty_load` returns a sound state in which every root
-- resolves to a valid entry, and so does every path that resolved to one before.
pub dirty_load-IsRooted :
    {content : Hash → ℕ} (roots : List FilePath) (s : State)
    → IsSound content s
    → All IsCanonical roots
    → Gives (dirty_load roots s) (λ t.
      IsSound content t × All (IsRooted t) roots × ((r : FilePath) → IsRooted s r → IsRooted t r))
unfolding dirty_load
dirty_load-IsRooted [] s sound canonical = (s, refl, (sound, tt, λ r h. h))
dirty_load-IsRooted (root ∷ roots) s sound canonical =
    let (m, (t, returns, (sound_t, rooted, stays))) = step-IsRooted s root sound canonical.0 in
    let (u, rest, (sound_u, all, later)) = dirty_load-IsRooted roots t sound_t canonical.1 in
    (
      u,
      >>=-ok _ m.returns (>>=-ok _ returns rest),
      (sound_u, (later root rooted, all), λ r h. later r (stays r h)),
    )
