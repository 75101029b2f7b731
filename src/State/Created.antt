-- ===== src/State/Created.antt =====
-- `cid_and_create` keeps the invariant of the state.
use dupion.Base.{◌≡◌, sym, ◌∙◌, inl, inr, none, some, ℕ}
use dupion.FilePath.{FilePath}
use dupion.Vfs.{Hash, cid_and_create}
use dupion.Vfs.Resolve.{Made}
use dupion.Vfs.Content.{Grows, cid_and_create-Grows}
use dupion.State.{State}
use dupion.State.Sound.{IsSound}

pub created-IsSound :
    {content : Hash → ℕ} (s : State) (p : FilePath) (m : Made s.tree p (cid_and_create s.tree p))
    → IsSound content s
    → IsSound content (record s { tree = m.out })
created-IsSound {content} s p m sound = record {
  tree = m.tree;
  hashed = λ id e' found' h hashed. elim (grows.known id e' found') [
    | inl (e, found, same) ↦
        same.file_size ∙ sound.hashed id e found h (sym same.file_hash ∙ hashed)
    | inr fresh ↦ let nothing : none ≡ some h = sym fresh ∙ hashed in cc
  ];
  sizes = sound.sizes;
  hashes = sound.hashes;
  filed = sound.filed;
}
  where
    grows : Grows s.tree m.out
    grows = cid_and_create-Grows s.tree m.out p m.id m.returns
