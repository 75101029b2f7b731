-- ===== src/Dedup/Senpai.antt =====
-- Which candidate the others are deduplicated against, and which those are.
use dupion.Base.{
  ℕ, zero, suc, ◌+◌, ◌/◌, ◌%◌, ◌≡◌, ◌≢◌, refl, sym, ap, ◌∙◌, subst, inl, inr, Bool, true, false,
  ◌&&◌, ◌||◌, none, some, List, [], ◌∷◌, ◌++◌, map, length, get_elem?, keep, is_empty, All, sum_of,
  ltb, ◌==◌, if◌then◌else◌, Bool-cases, append-nil, append_assoc, length-append, All-append,
  get_elem?-append_here, u64_mod, arith, sort_by_key,
}
use dupion.Dedup.{
  DedupCandidate, DedupGroup, preferred, select_from, remove_at, is_dup, group_of, choose,
  count_phys_occurrences_sorted,
}

-- One key of a lexicographic order, and the same with the larger first.
lex_trans :
    (x b c : ℕ) (rxb rcb rxc : Bool)
    → (rxb ≡ false → rcb ≡ true → rxc ≡ false)
    → (ltb x b || x == b && rxb) ≡ false
    → (ltb c b || c == b && rcb) ≡ true
    → (ltb x c || x == c && rxc) ≡ false
lex_trans x b c rxb rcb rxc h e f = ground (arith, h)

lex_trans_reverse :
    (x b c : ℕ) (rxb rcb rxc : Bool)
    → (rxb ≡ false → rcb ≡ true → rxc ≡ false)
    → (ltb b x || x == b && rxb) ≡ false
    → (ltb b c || c == b && rcb) ≡ true
    → (ltb c x || x == c && rxc) ≡ false
lex_trans_reverse x b c rxb rcb rxc h e f = ground (arith, h)

-- What is not preferred to the old best is not preferred to a better one.
preferred_trans :
    (avg : ℕ) (x b c : DedupCandidate)
    → preferred avg x b ≡ false
    → preferred avg c b ≡ true
    → preferred avg x c ≡ false
unfolding preferred
preferred_trans avg x b c = lex_trans x.n_extends b.n_extends c.n_extends _ _ _ (
    lex_trans_reverse x.phys_occurrences b.phys_occurrences c.phys_occurrences _ _ _
      (lex_trans x.ctime b.ctime c.ctime _ _ _ (λ e f. ground arith)))

preferred_irrefl : (avg : ℕ) (x : DedupCandidate) → preferred avg x x ≡ false
unfolding preferred
preferred_irrefl avg x = ground arith

-- No candidate of the list is preferred to `s`.
abbrev pub IsBest : ℕ → DedupCandidate → List DedupCandidate → Type 0
IsBest avg s = All (λ c. preferred avg c s ≡ false)

IsBest-better :
    (avg : ℕ) (b c : DedupCandidate) (xs : List DedupCandidate)
    → preferred avg c b ≡ true
    → IsBest avg b xs
    → IsBest avg c xs
IsBest-better avg b c [] h all = tt
IsBest-better avg b c (x ∷ xs) h all =
    (preferred_trans avg x b c all.0 h, IsBest-better avg b c xs h all.1)

-- The selection over the rest of a list `all` whose front `seen` is done.
select_from-IsBest :
    (avg i : ℕ) (all seen : List DedupCandidate) (best_i : ℕ) (best : DedupCandidate)
    (cs : List DedupCandidate)
    → all ≡ seen ++ cs
    → i ≡ length seen
    → get_elem? all best_i ≡ some best
    → IsBest avg best seen
    → let (idx, s) = select_from avg i best_i best cs in
      (get_elem? all idx ≡ some s) × IsBest avg s all
unfolding select_from
select_from-IsBest avg i all seen best_i best [] split here at best_seen =
    (at, subst (IsBest avg best) (sym (append-nil seen) ∙ sym split) best_seen)
select_from-IsBest avg i all seen best_i best (c ∷ cs) split here at best_seen =
    let split' = split ∙ sym (append_assoc seen (c ∷ []) cs) in
    let here' : i + 1 ≡ length (seen ++ c ∷ []) = omega (arith, length-append seen (c ∷ [])) in
    elim (Bool-cases (preferred avg c best)) [
      | inl better ↦
          rw (better, select_from)
            (select_from-IsBest avg (i + 1) all (seen ++ c ∷ []) i c cs split' here'
              (rw (split, here) (get_elem?-append_here seen c cs))
              (All-append _ seen (c ∷ []) (IsBest-better avg best c seen better best_seen)
                (preferred_irrefl avg c, tt)))
      | inr worse ↦
          rw (worse, select_from)
            (select_from-IsBest avg (i + 1) all (seen ++ c ∷ []) best_i best cs split' here' at
              (All-append _ seen (c ∷ []) best_seen (worse, tt)))
    ]

-- Removing an element that a filter drops anyway changes nothing.
keep-remove_at :
    (p : DedupCandidate → Bool) (xs : List DedupCandidate) (i : ℕ) (x : DedupCandidate)
    → get_elem? xs i ≡ some x
    → p x ≡ false
    → keep p (remove_at i xs) ≡ keep p xs
keep-remove_at p [] i x at no_x = refl
keep-remove_at p (y ∷ ys) zero x at no_x =
    let same : y ≡ x = cc in let no_y : p y ≡ false = rw same no_x in rw no_y refl
keep-remove_at p (y ∷ ys) (suc i) x at no_x =
    ap (λ r. if p y then y ∷ r else r) (keep-remove_at p ys i x at no_x)

-- The candidates in the order in which the code looks at them, each with its count, and the
-- average of their offsets.
abbrev pub counted : List DedupCandidate → List DedupCandidate
counted cs = count_phys_occurrences_sorted (sort_by_key (λ c. c.phys) cs)

abbrev pub average : List DedupCandidate → ℕ
average cs = sum_of (λ c. c.phys) cs % u64_mod / length cs

-- How a group to deduplicate comes from the counted candidates `cs`: its senpai is one of them, to
-- which none is preferred, and its dups are exactly those that `is_dup` lets through.
pub record Picks (aggressive : Bool) (avg : ℕ) (cs : List DedupCandidate) (g : DedupGroup)
    : Type 0 where
  pub best : DedupCandidate
  pub index : ℕ
  pub among : get_elem? cs index ≡ some best
  pub least : IsBest avg best cs
  pub senpai : g.senpai ≡ best.id
  pub dups : g.dups ≡ map (λ d. d.id) (keep (is_dup aggressive best) cs)
  pub some_dup : g.dups ≢ []
  pub whole : (g.start ≡ 0) × (g.stop ≡ best.file_size) × (g.actual_file_size ≡ best.file_size)
  pub average : g.avg_phys ≡ avg

map_ne_nil : (xs : List DedupCandidate) → is_empty xs ≡ false → map (λ d. d.id) xs ≢ []
map_ne_nil [] h = cc
map_ne_nil (x ∷ xs) h = λ e. cc

choose-Picks :
    (aggressive : Bool) (avg : ℕ) (cs : List DedupCandidate) (g : DedupGroup)
    → choose aggressive avg cs ≡ some g
    → Picks aggressive avg cs g
unfolding choose
choose-Picks aggressive avg [] g h = cc
choose-Picks aggressive avg (c ∷ rest) g h =
    let (idx, s) = select_from avg 1 0 c rest in
    let (among, least) =
      select_from-IsBest avg 1 (c ∷ rest) (c ∷ []) 0 c rest refl refl refl
        (preferred_irrefl avg c, tt) in
    let dropped : is_dup aggressive s s ≡ false = ground arith in
    let kept = keep-remove_at (is_dup aggressive s) (c ∷ rest) idx s among dropped in
    elim (Bool-cases (is_empty (keep (is_dup aggressive s) (remove_at idx (c ∷ rest))))) [
      | inl none_left ↦ let no_way : none ≡ some g = rw none_left at h in cc
      | inr some_left ↦
          let dups = keep (is_dup aggressive s) (remove_at idx (c ∷ rest)) in
          let made : DedupGroup = record {
            senpai = s.id;
            dups = map (λ d. d.id) dups;
            start = 0;
            stop = s.file_size;
            avg_phys = avg;
            actual_file_size = s.file_size;
          } in
          let given : some made ≡ some g = rw some_left at h in
          let same : made ≡ g = cc in
          subst (Picks aggressive avg (c ∷ rest)) same (record {
            best = s;
            index = idx;
            among = among;
            least = least;
            senpai = refl;
            dups = ap (map (λ d. d.id)) kept;
            some_dup = map_ne_nil dups some_left;
            whole = (refl, refl, refl);
            average = refl;
          })
    ]

-- A group that comes from candidates has as senpai one of them, counted, to which none is
-- preferred, and as dups exactly those that `is_dup` lets through, in order and at least one.
pub group_of-Chosen :
    (aggressive : Bool) (cs : List DedupCandidate) (g : DedupGroup)
    → group_of aggressive cs ≡ some g
    → Picks aggressive (average cs) (counted cs) g
unfolding group_of
group_of-Chosen aggressive cs g h = elim (Bool-cases (ltb (length cs) 2)) [
  | inl few ↦ let no_way : none ≡ some g = rw few at h in cc
  | inr many ↦ choose-Picks aggressive (average cs) (counted cs) g (rw many at h)
]
