-- ===== src/State/Validation.antt =====
-- What `validate` does with the entry of a file that the walk has found.
use dupion.Base.{
  ℕ, ◌<◌, ◌≡◌, refl, sym, ap, ◌∙◌, inl, inr, Bool, true, false, ◌&&◌, Option, none, some, option_eq,
  length, length-set, get_elem?, get_elem?-lt, get_elem?-set_ne, ◌≢◌, ==_iff, Bool-cases, Outcome,
  ok, >>=-ok, unwrap,
}
use dupion.Vfs.{VfsEntry, VfsId, Hash}
use dupion.Vfs.Tree.{Extends}
use dupion.Vfs.Create.{Extends-set}
use dupion.State.{State, forget, validate}
use dupion.State.Sound.{
  IsSound, Refreshes, Refreshed, Refreshed-refl, Kept-childs, modify_lem, with_entry,
  with_entry-IsSound, with_entry_found,
}
use dupion.State.Revival.{set_valid-Refreshes}

pub Refreshes-Extends :
    {content : Hash → ℕ} {s t : State} → Refreshes content s t → Extends s.tree t.tree
Refreshes-Extends x = record {
  kept = λ id e found.
      let (e', found', y) = x.kept id e found in
      (e', found', Kept-childs e e' y.path y.plc y.childs);
}

-- The entry is valid; what is known of its content fits a file of `size` bytes.
pub record Validated (content : Hash → ℕ) (s : State) (id : VfsId) (size : ℕ)
    (r : Outcome (State × Bool)) : Type 0 where
  pub out : State
  pub unchanged : Bool
  pub returns : r ≡ ok (out, unchanged)
  pub sound : IsSound content out
  pub count : length out.tree.entries ≡ length s.tree.entries
  pub extends : Extends s.tree out.tree
  pub entry : VfsEntry
  pub found : get_elem? out.tree.entries id ≡ some entry
  pub valid : entry.valid ≡ true
  pub fits : (h : Hash) → entry.file_hash ≡ some h → content h ≡ size
  pub others :
      (j : VfsId) (e : VfsEntry)
      → id ≢ j
      → get_elem? s.tree.entries j ≡ some e
      → (e' : VfsEntry) × (get_elem? out.tree.entries j ≡ some e') × Refreshed e e'

and-true : (a b : Bool) → (a && b) ≡ true → (a ≡ true) × (b ≡ true)
and-true true true h = (refl, refl)
and-true true false h = cc
and-true false b h = cc

option_eq→≡ : (o : Option ℕ) (n : ℕ) → option_eq o (some n) ≡ true → o ≡ some n
option_eq→≡ none n h = cc
option_eq→≡ (some m) n h = ap some ((==_iff m n).0 h)

some-injective : {a b : ℕ} → some a ≡ some b → a ≡ b
some-injective h = cc

-- On a sound state `validate` returns for an entry of the table. The entry is valid then, and if it
-- still has a hash, the hash is that of a content of the size it is checked against.
pub validate-Validated :
    {content : Hash → ℕ} (s : State) (id ctime size : ℕ)
    → IsSound content s
    → id < length s.tree.entries
    → Validated content s id size (validate s id ctime (some size) none)
unfolding validate
validate-Validated {content} s id ctime size sound inside =
    let (e, found) = get_elem?-lt s.tree.entries id inside in
    elim (Bool-cases
      (option_eq e.ctime (some ctime) && option_eq e.file_size (some size) && true)) [
        | inl same ↦
            let (t, returns, (x, (e', found', valid))) = set_valid-Refreshes s id sound inside in
            let (e'', found'', y) = x.kept id e found in
            let it : some e' ≡ some e'' = sym found' ∙ found'' in
            let e'_e'' : e' ≡ e'' = cc in
            let (_, checked) = and-true _ _ (and-true _ _ same).0 in
            record {
              out = t;
              unchanged = true;
              returns = >>=-ok _ (ap unwrap found) (rw same (>>=-ok _ returns refl));
              sound = x.sound;
              count = x.count;
              extends = Refreshes-Extends x;
              entry = e';
              found = found';
              valid = valid;
              fits = λ h hashed. some-injective (
                  sym (
                    sound.hashed id e found h
                      (sym y.file_hash ∙ ap VfsEntry.file_hash (sym e'_e'') ∙ hashed))
                  ∙ option_eq→≡ e.file_size size checked);
              others = λ j d apart there. x.kept j d there;
            }
        | inr other ↦ record {
          out = with_entry s id (forget ctime e);
          unchanged = false;
          returns =
              >>=-ok _ (ap unwrap found)
                (rw other (>>=-ok _ (modify_lem s id e (forget ctime) found) refl));
          sound =
              with_entry-IsSound s id e (forget ctime e) sound found refl refl refl
                (λ h hashed. cc);
          count = length-set s.tree.entries id (forget ctime e);
          extends =
              Extends-set s.tree id e (forget ctime e) found
                (Kept-childs e (forget ctime e) refl refl refl);
          entry = forget ctime e;
          found = with_entry_found s id e (forget ctime e) found;
          valid = refl;
          fits = λ h hashed. cc;
          others = λ j d apart there.
              (d, get_elem?-set_ne s.tree.entries (forget ctime e) apart ∙ there, Refreshed-refl d);
        }
      ]
