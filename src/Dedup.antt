-- ===== src/Dedup.antt =====
-- dupion/src/dedup/mod.rs: from the groups of equal files to the groups to deduplicate.
pub mod Occurrences
pub mod Senpai
pub mod Split
pub mod Batch
pub mod Submit
mod Examples
use dupion.Base.{
  ℕ, zero, suc, ◌+◌, ◌-◌, ◌*◌, ◌/◌, ◌%◌, min, max, Bool, true, false, not, ◌&&◌, ◌||◌, Option, none,
  some, is_some, option_eq, List, [], ◌∷◌, ◌++◌, map, length, get_elem?, take, drop, keep, is_empty,
  sum_of, ltb, leb, ◌==◌, if◌then◌else◌, u64_mod, add64, mul64, Outcome, ok, err, panic, ◌>>=◌,
  unwrap, sort_by_key,
}
use dupion.Vfs.{VfsId, Hash}
use dupion.State.{State, HashGroup, Member, VfsEntryType, file, dir, type_eq, entry, Counters}
use dupion.Opts.{Opts}

pub record DedupCandidate : Type 0 where
  pub id : VfsId
  pub phys : ℕ
  pub phys_occurrences : ℕ
  pub file_size : ℕ
  pub n_extends : ℕ
  pub ctime : ℕ

-- `range` is `start .. stop`.
pub record DedupGroup : Type 0 where
  pub senpai : VfsId
  pub dups : List VfsId
  pub start : ℕ
  pub stop : ℕ
  pub avg_phys : ℕ
  pub actual_file_size : ℕ

abbrev pub with_occurrences : ℕ → DedupCandidate → DedupCandidate
with_occurrences n c = record c { phys_occurrences = n }

-- What a pass of `count_phys_occurrences_sorted` leaves: the candidates, and its two variables.
abbrev pub Pass : Type 0
Pass = record { marked : List DedupCandidate; current_phys : ℕ; current_count : ℕ }

-- The first loop, from `current_phys` and `current_count`.
pub count_forward : ℕ → ℕ → List DedupCandidate → Pass
count_forward phys count [] = record { marked = []; current_phys = phys; current_count = count }
count_forward phys count (v ∷ vs) =
    let count' = (if phys == v.phys then count else 0) + 1 in
    let rest = count_forward v.phys count' vs in
    record {
      marked = with_occurrences count' v ∷ rest.marked;
      current_phys = rest.current_phys;
      current_count = rest.current_count;
    }

-- The second loop, which goes from the end to the front.
pub count_backward : ℕ → ℕ → List DedupCandidate → Pass
count_backward phys count [] = record { marked = []; current_phys = phys; current_count = count }
count_backward phys count (v ∷ vs) =
    let rest = count_backward phys count vs in
    let count' = if rest.current_phys == v.phys then rest.current_count else v.phys_occurrences in
    record {
      marked = with_occurrences count' v ∷ rest.marked;
      current_phys = v.phys;
      current_count = count';
    }

unfoldable pub count_phys_occurrences_sorted : List DedupCandidate → List DedupCandidate
unfolding count_forward count_backward
count_phys_occurrences_sorted [] = []
count_phys_occurrences_sorted (v ∷ vs) =
    let first = count_forward v.phys 0 (v ∷ vs) in
    (count_backward first.current_phys first.current_count first.marked).marked

-- `e.entries.iter().filter(..).map(..)`: the files of the group that can be deduplicated.
pub candidate_of : State → Member → Outcome (Option DedupCandidate)
candidate_of s (typ, id) = do
  e ← entry s id
  let fits =
      type_eq typ file
      && is_some e.phys
      && not (option_eq e.phys (some 0))
      && e.valid
      && is_some e.n_extends
  let candidate = (do
    phys ← unwrap e.phys
    file_size ← unwrap e.file_size
    n_extends ← unwrap e.n_extends
    ctime ← unwrap e.ctime
    ok (
        some (record {
          id = id;
          phys = phys;
          phys_occurrences = 0;
          file_size = file_size;
          n_extends = n_extends;
          ctime = ctime;
        })))
  if fits then candidate else ok none

abbrev pub cons_some {ℓ} : {A : Type ℓ} → Option A → List A → List A
cons_some none xs = xs
cons_some (some x) xs = x ∷ xs

pub candidates_of : State → List Member → Outcome (List DedupCandidate)
unfolding candidate_of
candidates_of s [] = ok []
candidates_of s (m ∷ ms) = do c ← candidate_of s m; cs ← candidates_of s ms; ok (cons_some c cs)

-- `fn distance`.
abbrev pub distance : ℕ → ℕ → ℕ
distance a b = max a b - min a b

-- `<` on the keys of `min_by_key`: least extents, most common offset, oldest, nearest the average.
unfoldable pub preferred : ℕ → DedupCandidate → DedupCandidate → Bool
preferred avg a b =
    ltb a.n_extends b.n_extends
    || a.n_extends == b.n_extends
      && (ltb b.phys_occurrences a.phys_occurrences
          || a.phys_occurrences == b.phys_occurrences
            && (ltb a.ctime b.ctime
                || a.ctime == b.ctime && ltb (distance avg a.phys) (distance avg b.phys)))

-- `enumerate().min_by_key(..)` from index `i`, with the best so far: the first of the least.
pub select_from : ℕ → ℕ → ℕ → DedupCandidate → List DedupCandidate → ℕ × DedupCandidate
select_from avg i best_i best [] = (best_i, best)
select_from avg i best_i best (c ∷ cs) =
    let better = preferred avg c best in
    select_from avg (i + 1) (if better then i else best_i) (if better then c else best) cs

-- `Vec::remove`, in range.
abbrev pub remove_at {ℓ} : {A : Type ℓ} → ℕ → List A → List A
remove_at i [] = []
remove_at zero (x ∷ xs) = xs
remove_at (suc i) (x ∷ xs) = x ∷ remove_at i xs

abbrev pub is_dup : Bool → DedupCandidate → DedupCandidate → Bool
is_dup aggressive senpai c = not (c.id == senpai.id) && (aggressive || not (c.phys == senpai.phys))

-- The selection of the senpai and of its dups among the counted candidates: lines 60 to 98.
pub choose : Bool → ℕ → List DedupCandidate → Option DedupGroup
choose aggressive avg_phys [] = none
choose aggressive avg_phys (c ∷ rest) =
    let (idx, senpai) = select_from avg_phys 1 0 c rest in
    let dups = keep (is_dup aggressive senpai) (remove_at idx (c ∷ rest)) in
    if is_empty dups
    then none
    else some (record {
      senpai = senpai.id;
      dups = map (λ d. d.id) dups;
      start = 0;
      stop = senpai.file_size;
      avg_phys = avg_phys;
      actual_file_size = senpai.file_size;
    })

-- The candidates of one group to a group to deduplicate: lines 50 to 98.
pub group_of : Bool → List DedupCandidate → Option DedupGroup
group_of aggressive cs =
    if ltb (length cs) 2
    then none
    else choose aggressive (sum_of (λ c. c.phys) cs % u64_mod / length cs)
        (count_phys_occurrences_sorted (sort_by_key (λ c. c.phys) cs))

-- The loop over `s.hashes.values()`.
pub groups_of : State → Bool → List (Hash × HashGroup) → Outcome (List DedupGroup)
unfolding group_of candidates_of
groups_of s aggressive [] = ok []
groups_of s aggressive ((hash, g) ∷ gs) = do
  cs ← if g.size == 0 then ok [] else candidates_of s g.entries
  rest ← groups_of s aggressive gs
  ok (cons_some (group_of aggressive cs) rest)

-- `fetch_add` on the two counters, once for each group.
abbrev pub count_relevant : Counters → DedupGroup → Counters
count_relevant d g = record d {
  relevant_bytes = add64 d.relevant_bytes (mul64 (length g.dups) g.actual_file_size);
  relevant_files = add64 d.relevant_files (length g.dups);
}

abbrev pub count_all_relevant : Counters → List DedupGroup → Counters
count_all_relevant d [] = d
count_all_relevant d (g ∷ gs) = count_all_relevant (count_relevant d g) gs

abbrev pub reset_counters : Counters → Counters
reset_counters d = record d {
  processed_files = 0;
  processed_bytes = 0;
  relevant_files = 0;
  relevant_bytes = 0;
  deduped_bytes = 0;
}

-- `Deduper::dedup` up to its call of `dedup_groups`: the groups, in the order of their offsets.
unfoldable pub plan : State → Opts → Outcome (State × List DedupGroup)
unfolding groups_of
plan s opts = do
  gs ← groups_of s opts.aggressive_dedup s.hashes
  ok (
    record s { disp = count_all_relevant (reset_counters s.disp) gs },
    sort_by_key (λ g. g.avg_phys) gs,
  )

abbrev pub sum : DedupGroup → ℕ
sum g = length g.dups + 1

abbrev pub range_len : DedupGroup → ℕ
range_len g = g.stop - min g.start g.stop

abbrev pub usage : DedupGroup → ℕ
usage g = mul64 (range_len g) (sum g)

-- The part that is returned, and the group that is left; `split_off` panics behind the end.
unfoldable pub split_off_start_at_candidate_n : DedupGroup → ℕ → Outcome (DedupGroup × DedupGroup)
split_off_start_at_candidate_n g at =
    if leb at (length g.dups)
    then ok (record g { dups = take at g.dups }, record g { dups = drop at g.dups })
    else err panic

unfoldable pub split_off_end_at_candidate_n : DedupGroup → ℕ → Outcome (DedupGroup × DedupGroup)
split_off_end_at_candidate_n g at =
    if leb at (length g.dups)
    then ok (record g { dups = drop at g.dups }, record g { dups = take at g.dups })
    else err panic

unfoldable pub split_off_start_range : DedupGroup → ℕ → DedupGroup × DedupGroup
split_off_start_range g len =
    let len' = min len (range_len g) in
    (record g { stop = g.start + len' }, record g { start = g.start + len' })
