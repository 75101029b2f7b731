-- ===== src/Readahead.antt =====
-- reapfrog/src/lib.rs: files are opened ahead of the reader, and the kernel is told what it will
-- need. `File::open` and `File::metadata` are the parameter `probe`; what `read(2)` returns is an
-- argument of `read`; each `posix_fadvise` is an entry of `log`, newest last.
pub mod Queue
pub mod Order
pub mod Drain
pub mod Bounds
mod Examples
use dupion.Base.{
  ℕ, zero, suc, ◌+◌, ◌-◌, ◌*◌, ◌/◌, ◌%◌, min, max, Bool, true, false, not, ◌&&◌, ◌||◌, Option, none,
  some, List, [], ◌∷◌, ◌++◌, length, get_elem?, set, sum_of, ltb, leb, ◌==◌, if◌then◌else◌, u64_mod,
  add64, sub64, Outcome, ok, err, panic, stuck, ◌>>=◌, unwrap,
}

abbrev pub dropbehind_block : ℕ
dropbehind_block = 512 * 1024

abbrev pub prefetch_block : ℕ
prefetch_block = 65536

abbrev pub max_open : ℕ
max_open = 512

abbrev pub default_budget : ℕ
default_budget = 8 * 1024 * 1024

pub record Prefetch (U : Type 0) : Type 0 where
  pub item : U
  pub read_pos : ℕ
  pub prefetch_pos : ℕ
  pub to_drop : ℕ
  pub size : ℕ

-- An element of the queue `open`: an opened file, or the error with which it did not open.
pub data Slot (U : Type 0) : Type 0 where
  ready : Prefetch U → Slot U
  broken : ℕ → Slot U

-- What `File::open` and `File::metadata` answer: the file's length, or an error.
pub data Probe : Type 0 where
  opened : ℕ → Probe
  refused : ℕ → Probe

-- The hints given to the kernel: the file, the offset and the length.
pub data Advice (U : Type 0) : Type 0 where
  sequential : U → Advice U
  will_need : U → ℕ → ℕ → Advice U
  dont_need : U → ℕ → ℕ → Advice U

pub record Readahead (U : Type 0) : Type 0 where
  pub source : List U
  pub open_files : List (Slot U)
  pub dropbehind : Bool
  pub budget : ℕ
  pub log : List (Advice U)

pub new : {U : Type 0} → List U → Readahead U
new src = record {
  source = src;
  open_files = [];
  dropbehind = false;
  budget = default_budget;
  log = [];
}

pub set_dropbehind : {U : Type 0} → Readahead U → Bool → Readahead U
set_dropbehind s v = record s { dropbehind = v }

pub set_budget : {U : Type 0} → Readahead U → ℕ → Readahead U
set_budget s v = record s { budget = v }

-- `Prefetch::new`, less its `posix_fadvise`.
abbrev pub fresh_prefetch : {U : Type 0} → ℕ → U → Prefetch U
fresh_prefetch len p = record { item = p; read_pos = 0; prefetch_pos = 0; to_drop = 0; size = len }

-- What one element of the source becomes, and the hint given for it.
abbrev pub slot_of : {U : Type 0} → U → Probe → Slot U
slot_of p (opened len) = ready (fresh_prefetch len p)
slot_of p (refused e) = broken e

abbrev pub open_advice : {U : Type 0} → U → Probe → List (Advice U)
open_advice p (opened len) = sequential p ∷ []
open_advice p (refused e) = []

abbrev pub is_ready : {U : Type 0} → Slot U → Bool
is_ready (ready p) = true
is_ready (broken e) = false

-- `prefetch_pos.saturating_sub(read_pos)`; a failed file holds nothing.
abbrev pub outstanding : {U : Type 0} → Slot U → ℕ
outstanding (ready p) = p.prefetch_pos - p.read_pos
outstanding (broken e) = 0

-- One file of the source is opened, or fails to: `p` is the next item, `rest` what follows it.
abbrev pub take_in : {U : Type 0} → U → List U → Probe → Readahead U → Readahead U
take_in p rest answer s = record s {
  source = rest;
  open_files = s.open_files ++ slot_of p answer ∷ [];
  log = s.log ++ open_advice p answer;
}

module _ {U : Type 0} (probe : U → Probe) where
  -- The loop of `add_file`, with `rounds` rounds left.
  pub add_files : ℕ → Readahead U → Bool → Readahead U × Bool
  add_files zero s read = (s, read)
  add_files (suc rounds) s read = elim s.source [
    | [] ↦ (s, read)
    | p ∷ rest ↦
        add_files rounds (take_in p rest (probe p) s) (read || is_ready (slot_of p (probe p)))
  ]

  unfoldable pub add_file : Readahead U → Readahead U × Bool
  unfolding add_files
  add_file s = add_files (max_open / 4) s false

-- `(x + PREFETCH_BLOCK - 1) & !(PREFETCH_BLOCK - 1)` on `u64`.
pub round_up : ℕ → ℕ
round_up x = sub64 (add64 x prefetch_block) 1 / prefetch_block * prefetch_block

-- Where the hint for a file ends, from its position and the budget: lines 141 to 148.
pub prefetch_end : ℕ → ℕ → ℕ → ℕ
unfolding round_up
prefetch_end budget old_pos size =
    let internal_budget = budget / prefetch_block * prefetch_block in
    let prefetch_length = min (size - old_pos) internal_budget in
    min size (round_up (old_pos + prefetch_length))

abbrev pub old_position : {U : Type 0} → Prefetch U → ℕ
old_position p = max p.read_pos p.prefetch_pos

-- The body of the loop of `advance` for an opened file at index `i`: the state and the budget left.
pub prefetch_file : {U : Type 0} → ℕ → ℕ → Prefetch U → Readahead U → Readahead U × ℕ
unfolding prefetch_end
prefetch_file i budget p s =
    let old_pos = old_position p in
    let new_pos = prefetch_end budget old_pos p.size in
    if leb p.size old_pos then (s, budget) else (
      record s {
        open_files = set s.open_files i (ready (record p { prefetch_pos = new_pos }));
        log = s.log ++ will_need p.item old_pos (new_pos - old_pos) ∷ [];
      },
      budget - (new_pos - old_pos),
    )

abbrev pub prefetch_slot : {U : Type 0} → ℕ → ℕ → Slot U → Readahead U → Readahead U × ℕ
prefetch_slot i budget (ready p) s = prefetch_file i budget p s
prefetch_slot i budget (broken e) s = (s, budget)

-- The hint for the file that is left behind.
abbrev pub discard_advice : {U : Type 0} → Slot U → List (Advice U)
discard_advice (ready p) = if ltb 0 p.to_drop then dont_need p.item 0 0 ∷ [] else []
discard_advice (broken e) = []

-- `self.open.pop_front()` and the hint.
pub discard : {U : Type 0} → List (Slot U) → Readahead U → Readahead U
discard [] s = s
discard (slot ∷ rest) s = record s { open_files = rest; log = s.log ++ discard_advice slot }

-- What `next` hands out: a reader on the file at the front, or the error of one that failed.
pub data Delivery (U : Type 0) : Type 0 where
  reader : U → Delivery U
  io_error : ℕ → Delivery U

pub front : {U : Type 0} → Readahead U → Outcome (Readahead U × Option (Delivery U))
front s = elim s.open_files [
  | [] ↦ err panic
  | ready p ∷ rest ↦ ok (s, some (reader p.item))
  | broken e ∷ rest ↦ ok (record s { open_files = rest }, some (io_error e))
]

-- What `read` does to the file at the front when `read(2)` gave `bytes`: lines 73 to 83.
abbrev pub count_read : {U : Type 0} → Bool → ℕ → Prefetch U → Prefetch U
count_read drop bytes p =
    let to_drop = add64 p.to_drop bytes in
    record p {
      read_pos = add64 p.read_pos bytes;
      to_drop = if drop then if leb dropbehind_block to_drop then 0 else to_drop else p.to_drop;
    }

abbrev pub read_advice : {U : Type 0} → Bool → ℕ → Prefetch U → List (Advice U)
read_advice drop bytes p =
    let to_drop = add64 p.to_drop bytes in
    if drop && leb dropbehind_block to_drop
    then dont_need p.item (sub64 (add64 p.read_pos bytes) to_drop) to_drop ∷ []
    else []

pub after_read : {U : Type 0} → Option ℕ → Prefetch U → List (Slot U) → Readahead U → Readahead U
after_read none p rest s = s
after_read (some bytes) p rest s = record s {
  open_files = ready (count_read s.dropbehind bytes p) ∷ rest;
  log = s.log ++ read_advice s.dropbehind bytes p;
}

module _ {U : Type 0} (probe : U → Probe) where
  -- `i == self.open.len() && !self.add_file()`, with its effect: the loop goes on if `true`.
  pub ensure_open : ℕ → Readahead U → Readahead U × Bool
  ensure_open i s = if i == length s.open_files then add_file probe s else (s, true)

  -- `for i in 0..`, from `i` with `fuel` rounds left.
  pub advance_from : ℕ → ℕ → ℕ → Readahead U → Outcome (Readahead U)
  advance_from zero i budget s = err stuck
  advance_from (suc fuel) i budget s =
      let opening = ensure_open i s in
      let rest = (do
        slot ← unwrap (get_elem? opening.0.open_files i)
        let done = prefetch_slot i budget slot opening.0
        advance_from fuel (i + 1) done.1 done.0) in
      if ltb budget prefetch_block
      then ok s
      else if not opening.1
      then ok opening.0
      else if ltb max_open i
      then ok opening.0
      else rest

  -- The loop ends by its own tests in the round of index 513 at the latest.
  unfoldable pub advance : Readahead U → Outcome (Readahead U)
  advance s =
      let consumed = sum_of outstanding s.open_files % u64_mod in
      let budget = s.budget - consumed in
      if ltb budget consumed then ok s else advance_from (max_open + 2) 0 budget s

  unfoldable pub next : Readahead U → Outcome (Readahead U × Option (Delivery U))
  next s = do
    s' ← advance (discard s.open_files s)
    let opening = ensure_open 0 s'
    if not opening.1 then ok (opening.0, none) else front opening.0

  -- `Reader::read`, where `result` is what `read(2)` gave: the bytes read, or an error.
  unfoldable pub read : Readahead U → Option ℕ → Outcome (Readahead U × Option ℕ)
  read s result = elim s.open_files [
    | [] ↦ err panic
    | broken e ∷ rest ↦ err panic
    | ready p ∷ rest ↦ do s' ← advance (after_read result p rest s); ok (s', result)
  ]
