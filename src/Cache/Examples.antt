-- ===== src/Cache/Examples.antt =====
-- A tree with the file /a is stored and loaded again.
use dupion.Base.{zero, suc, subst, get_elem?, arith, refl, ◌∷◌, [], ◌≡◌, true, false, some, none}
use dupion.FilePath.{Bytes, root_dir, normal, bytes_eq}
use dupion.Vfs.{Vfs, VfsEntry, VfsId, to_plc}
use dupion.Vfs.Tree.{IsTree, ChildsAt}
use dupion.State.{State}
use dupion.FilePath.Text.{utf8_from}
use dupion.Cache.Text.{no_path, rooted}
use dupion.Cache.Reload.{Storable, Reloads, store_vfs-load_vfs}

abbrev zeros : Bytes
zeros =
    0 ∷ 0 ∷ 0 ∷ 0 ∷ 0 ∷ 0 ∷ 0 ∷ 0 ∷ 0 ∷ 0 ∷ 0 ∷ 0 ∷ 0 ∷ 0 ∷ 0 ∷ 0 ∷ 0 ∷ 0 ∷ 0 ∷ 0 ∷ 0 ∷ 0 ∷ 0 ∷ 0
    ∷ 0 ∷ 0 ∷ 0 ∷ 0 ∷ 0 ∷ 0 ∷ 0 ∷ 0 ∷ []

abbrev an_entry : VfsEntry
an_entry = record {
  path = root_dir ∷ normal (b'a' ∷ []) ∷ [];
  plc = b'a' ∷ [];
  ctime = some 1;
  file_size = some 10;
  dir_size = none;
  file_hash = some zeros;
  dir_hash = none;
  childs = [];
  valid = true;
  is_file = true;
  is_dir = false;
  was_file = false;
  was_dir = false;
  file_shadowed = false;
  dir_shadowed = false;
  unique = false;
  disp_relevated = false;
  failure = none;
  treediff_stat = 0;
  dedup_state = none;
  phys = some 4096;
  n_extends = some 1;
}

abbrev root_dir_entry : VfsEntry
root_dir_entry = record an_entry {
  path = root_dir ∷ [];
  plc = b'/' ∷ [];
  file_size = none;
  file_hash = none;
  childs = 2 ∷ [];
  is_file = false;
  is_dir = true;
}

abbrev top_entry : VfsEntry
top_entry = record an_entry {
  path = [];
  plc = [];
  file_size = none;
  file_hash = none;
  childs = 1 ∷ [];
  is_file = false;
  is_dir = true;
}

abbrev small_state : State
small_state = record {
  tree = record { entries = top_entry ∷ root_dir_entry ∷ an_entry ∷ [] };
  sizes = [];
  hashes = [];
  cache_allowed = true;
  disp = record {
    found_bytes = 0;
    found_files = 0;
    relevant_bytes = 0;
    relevant_files = 0;
    processed_bytes = 0;
    processed_files = 0;
    deduped_bytes = 0;
  };
}

three-childs :
    (v : Vfs) (a b c : VfsEntry)
    → v.entries ≡ a ∷ b ∷ c ∷ []
    → ChildsAt v 0 a
    → ChildsAt v 1 b
    → ChildsAt v 2 c
    → (id : VfsId) (e : VfsEntry) → get_elem? v.entries id ≡ some e
    → ChildsAt v id e
three-childs v a b c whole at_a at_b at_c id e h =
    by_id id (subst (λ es. get_elem? es id ≡ some e) whole h)
  where
    by_id : (id : VfsId) → get_elem? (a ∷ b ∷ c ∷ []) id ≡ some e → ChildsAt v id e
    by_id zero h = let same : a ≡ e = cc in subst (ChildsAt v 0) same at_a
    by_id (suc zero) h = let same : b ≡ e = cc in subst (ChildsAt v 1) same at_b
    by_id (suc (suc zero)) h = let same : c ≡ e = cc in subst (ChildsAt v 2) same at_c
    by_id (suc (suc (suc id))) h = cc

small_state-childs :
    (id : VfsId) (e : VfsEntry)
    → get_elem? small_state.tree.entries id ≡ some e
    → ChildsAt small_state.tree id e
small_state-childs =
    three-childs small_state.tree top_entry root_dir_entry an_entry refl
      (
        (
          omega arith,
          record {
            entry = root_dir_entry;
            found = refl;
            name = root_dir;
            plain = tt;
            path = refl;
            plc = refl;
          },
        ),
        tt,
      )
      (
        (
          omega arith,
          record {
            entry = an_entry;
            found = refl;
            name = normal (b'a' ∷ []);
            plain = λ eq. cc;
            path = refl;
            plc = refl;
          },
        ),
        tt,
      )
      tt

small_state-IsTree : IsTree small_state.tree
small_state-IsTree = record {
  top = top_entry;
  root = refl;
  root_path = refl;
  childs = small_state-childs;
}

small_state-Storable : Storable top_entry × Storable root_dir_entry × Storable an_entry
unfolding to_plc utf8_from bytes_eq
small_state-Storable = (
  record { path = no_path; text = refl; plc = refl; hash = tt },
  record { path = rooted [] tt; text = refl; plc = refl; hash = tt },
  record {
    path = rooted ((b'a' ∷ []) ∷ []) ((refl, refl, refl, (refl, tt)), tt);
    text = refl;
    plc = refl;
    hash = refl;
  },
)

store_vfs-load_vfs_example : Reloads (λ b. some b) small_state small_state
store_vfs-load_vfs_example =
    let s = small_state-Storable in
    store_vfs-load_vfs (λ b. some b) small_state small_state refl refl small_state-IsTree
      (s.0, (s.1, (s.2, tt)))
