-- ===== src/Dedup/Batch/Fill.antt =====
-- One run of the inner loop of `dedup_groups`: it ends, its assertions hold, and what it leaves in
-- the buffer fits the cache or is a single pair.
use dupion.Base.{
  ℕ, ◌+◌, ◌-◌, ◌*◌, ◌/◌, ◌%◌, ◌≤◌, ◌<◌, ◌≡◌, refl, sym, ap, ap₂, subst, ◌∙◌, ◌⊎◌, inl, inr, min,
  max, Bool, true, false, ◌&&◌, Bool-cases, List, [], ◌∷◌, ◌++◌, append_assoc, append-nil, length,
  length-append, sum_of, ltb, leb, ◌==◌, u64_mod, All, ok, arith,
}
use native.Mathlib.Nat.{mod-eq_of_lt, le-div_iff_mul-le}
use dupion.Vfs.{VfsId}
use dupion.Dedup.{DedupGroup, sum, range_len, usage}
use dupion.Dedup.Split.{Splits, split_off-Splits}
use dupion.Dedup.Batch.{
  Marked, buffer_sum, buffer_usage, max_group_files, Verdict, leave, again, shrink, fits, load,
  max_dups_per_group,
}

-- The file that is kept, one that is to share its extents, and the range.
abbrev pub Work : Type 0
Work = record { senpai : VfsId; dup : VfsId; start : ℕ; stop : ℕ }

abbrev pub work_item : DedupGroup → VfsId → Work
work_item g d = record { senpai = g.senpai; dup = d; start = g.start; stop = g.stop }

abbrev pub work_of : DedupGroup → List VfsId → List Work
work_of g [] = []
work_of g (d ∷ ds) = work_item g d ∷ work_of g ds

abbrev pub group_work : DedupGroup → List Work
group_work g = work_of g g.dups

abbrev pub input_work : List DedupGroup → List Work
input_work [] = []
input_work (g ∷ gs) = group_work g ++ input_work gs

abbrev pub buffer_work : List Marked → List Work
buffer_work [] = []
buffer_work (m ∷ ms) = group_work m.0 ++ buffer_work ms

-- The bytes of a group, twice over for each dup: no split makes them more.
abbrev pub volume : DedupGroup → ℕ
volume g = range_len g * (2 * length g.dups)

abbrev pub marked_volume : Marked → ℕ
marked_volume m = volume m.0

abbrev pub IsSized : DedupGroup → Type 0
IsSized g = 0 < range_len g

abbrev pub IsLive : Marked → Type 0
IsLive m = IsSized m.0 × (0 < length m.0.dups)

-- A batch fits the cache, or is one pair of files, which is handed over whatever its size.
abbrev pub IsBatch : ℕ → List Marked → Type 0
IsBatch cache ms =
    ((buffer_sum ms ≤ max_dups_per_group) × (buffer_usage ms ≤ cache))
    ⊎ ((m : Marked) × (ms ≡ m ∷ []) × (length m.0.dups ≡ 1))

-- The queues between two rounds: no range is empty, a group of the buffer has dups, no sum overflows,
-- and only a single group may be too large.
pub record IsFilling (cache : ℕ) (groups : List DedupGroup) (buffer : List Marked) : Type 0 where
  pub sized : All IsSized groups
  pub live : All IsLive buffer
  pub small : sum_of volume groups + sum_of marked_volume buffer < u64_mod
  pub single : (length buffer ≤ 1) ⊎ (fits cache buffer ≡ true)

-- What one round decides.
unfoldable pub Decides : ℕ → List DedupGroup → List Marked → Verdict → Type 0
Decides cache groups buffer leave =
    ((groups ≡ []) × (buffer ≡ [])) ⊎ ((0 < length buffer) × IsBatch cache buffer)
Decides cache groups buffer (again groups' buffer') =
    IsFilling cache groups' buffer'
    × (load groups' buffer' < load groups buffer)
    × (buffer_work buffer' ++ input_work groups' ≡ buffer_work buffer ++ input_work groups)

pub buffer_usage-append :
    (ms : List Marked) (m : Marked)
    → buffer_usage (ms ++ m ∷ []) ≡ (buffer_usage ms + usage m.0) % u64_mod
buffer_usage-append [] m = omega arith
buffer_usage-append (n ∷ ms) m = omega (arith, buffer_usage-append ms m)

pub sum_of-append {ℓ} :
    {A : Type ℓ} (f : A → ℕ) (xs ys : List A) → sum_of f (xs ++ ys) ≡ sum_of f xs + sum_of f ys
sum_of-append f [] ys = omega arith
sum_of-append f (x ∷ xs) ys = omega (arith, sum_of-append f xs ys)

pub buffer_work-append :
    (ms : List Marked) (g : DedupGroup) (b : Bool)
    → buffer_work (ms ++ (g, b) ∷ []) ≡ buffer_work ms ++ group_work g
buffer_work-append [] g b = append-nil (group_work g)
buffer_work-append (m ∷ ms) g b =
    ap (λ ws. group_work m.0 ++ ws) (buffer_work-append ms g b)
    ∙ sym (append_assoc (group_work m.0) (buffer_work ms) (group_work g))

work_of-append :
    (g : DedupGroup) (ds es : List VfsId) → work_of g (ds ++ es) ≡ work_of g ds ++ work_of g es
work_of-append g [] es = refl
work_of-append g (d ∷ ds) es = ap (λ ws. work_item g d ∷ ws) (work_of-append g ds es)

-- A group's volume bounds its usage, which then does not overflow.
pub usage-eq :
    (g : DedupGroup) → 0 < length g.dups → volume g < u64_mod → usage g ≡ range_len g * sum g
usage-eq g some_dup small =
    let n = length g.dups in
    let e : 2 * n ≡ (n + 1) + (n - 1) = omega arith in
    let wide : range_len g * (n + 1) ≤ volume g =
      omega (arith, ap (λ (t : ℕ). range_len g * t) e) in
    grind (arith, mod-eq_of_lt)

volume-split : (r a b n : ℕ) → a + b ≡ n → r * (2 * a) + r * (2 * b) ≡ r * (2 * n)
volume-split r a b n e = omega (arith, ap (λ (t : ℕ). r * (2 * t)) e)

work_of-same :
    (f g : DedupGroup) (ds : List VfsId)
    → f.senpai ≡ g.senpai
    → f.start ≡ g.start
    → f.stop ≡ g.stop
    → work_of f ds ≡ work_of g ds
work_of-same f g [] a b c = refl
work_of-same f g (d ∷ ds) a b c =
    let here : work_item f d ≡ work_item g d =
      ap (λ x. record { senpai = x; dup = d; start = f.start; stop = f.stop }) a
      ∙ ap₂ (λ x y. record { senpai = g.senpai; dup = d; start = x; stop = y }) b c in
    ap₂ (λ w ws. w ∷ ws) here (work_of-same f g ds a b c)

-- What a cut makes of the queues.
cut-IsFilling :
    (cache at : ℕ) (groups : List DedupGroup) (g front back : DedupGroup) (last : Bool)
    → Splits g at front back
    → 0 < at
    → at < length g.dups
    → IsFilling cache groups ((g, last) ∷ [])
    → IsFilling cache (back ∷ groups) ((front, last) ∷ [])
      × (load (back ∷ groups) ((front, last) ∷ []) < load groups ((g, last) ∷ []))
      × (buffer_work ((front, last) ∷ []) ++ input_work (back ∷ groups)
          ≡ buffer_work ((g, last) ∷ []) ++ input_work groups)
cut-IsFilling cache at groups g front back last s low high inv =
    let counts : length front.dups + length back.dups ≡ length g.dups =
      sym (length-append front.dups back.dups) ∙ ap length s.dups in
    let same : volume front + volume back ≡ volume g =
      ap₂ (λ a b. a * (2 * length front.dups) + b * (2 * length back.dups)) s.range.0 s.range.1
      ∙ volume-split (range_len g) (length front.dups) (length back.dups) (length g.dups) counts in
    let front_work = work_of-same front g front.dups s.senpai.0 s.starts.0 s.stops.0 in
    let back_work = work_of-same back g back.dups s.senpai.1 s.starts.1 s.stops.1 in
    let whole : group_work front ++ group_work back ≡ group_work g =
      ap₂ (λ a b. a ++ b) front_work back_work
      ∙ sym (work_of-append g front.dups back.dups)
      ∙ ap (work_of g) s.dups in
    (
      record {
        sized = (subst (λ n. 0 < n) (sym s.range.1) inv.live.0.0, inv.sized);
        live = ((subst (λ n. 0 < n) (sym s.range.0) inv.live.0.0, omega (arith, s.count)), tt);
        small = omega (arith, inv.small, same);
        single = inl (omega arith);
      },
      omega (arith, counts, s.count),
      simp (
        append-nil,
        sym (append_assoc (group_work front) (group_work back) (input_work groups)),
        whole,
      ),
    )

-- A group whose files are more than a batch may hold is cut: the front stays, the back returns.
pub shrink-cut :
    (cache : ℕ) (groups : List DedupGroup) (g : DedupGroup) (last : Bool)
    → IsFilling cache groups ((g, last) ∷ [])
    → ltb (max_group_files cache (range_len g)) (sum g) ≡ true
    → (v : Verdict) × (shrink cache groups ((g, last) ∷ []) ≡ ok v)
      × Decides cache groups ((g, last) ∷ []) v
unfolding shrink Decides
shrink-cut cache groups g last inv many =
    let files = max_group_files cache (range_len g) in
    let high : files - 1 < length g.dups = ground (arith, inv.live.0.1) in
    let (front, back, _, cut, s) = split_off-Splits g (files - 1) (omega (arith, high)) in
    let wide : (range_len g == 0) ≡ false = ground (arith, inv.live.0.0) in
    (
      again (back ∷ groups) ((front, last) ∷ []),
      rw (wide, many, cut) refl,
      cut-IsFilling cache (files - 1) groups g front back last s (omega arith) high inv,
    )

few_pair :
    (cache q n used : ℕ)
    → 0 < n
    → (leb (n + 1 + 0) 127 && leb ((used + 0) % u64_mod) cache) ≡ false
    → (n + 1 ≤ q → used ≤ cache)
    → ltb (max 2 (min q 127)) (n + 1) ≡ false
    → n ≡ 1
few_pair cache q n used some_dup large room few = elim (Bool-cases (leb (n + 1) q)) [
  | inl in_room ↦ let h = room (ground arith) in ground (arith, h)
  | inr no_room ↦ ground arith
]

-- A single group that does not fit the cache and cannot be cut is a pair.
pub shrink-pair :
    (cache : ℕ) (groups : List DedupGroup) (g : DedupGroup) (last : Bool)
    → IsFilling cache groups ((g, last) ∷ [])
    → fits cache ((g, last) ∷ []) ≡ false
    → ltb (max_group_files cache (range_len g)) (sum g) ≡ false
    → (shrink cache groups ((g, last) ∷ []) ≡ ok leave) × (length g.dups ≡ 1)
unfolding shrink
shrink-pair cache groups g last inv large few =
    let n = length g.dups in
    let used = usage-eq g inv.live.0.1 (omega (arith, inv.small)) in
    let room = le-div_iff_mul-le {k = range_len g} {x = sum g} {y = cache} inv.live.0.0 in
    let wide : (range_len g == 0) ≡ false = ground (arith, inv.live.0.0) in
    let one : n ≡ 1 =
      few_pair cache (cache / range_len g) n (usage g) inv.live.0.1 large
        (λ h. omega (arith, used, room.0 h)) few in
    let two : (max_group_files cache (range_len g) == 2 && sum g == 2) ≡ true =
      ground (arith, one, few) in
    (rw (wide, few, two) refl, one)
