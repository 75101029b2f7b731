-- ===== src/Zip/Examples.antt =====
-- An archive with two members and an error between them. The hash of a content is the content itself.
use dupion.Base.{refl, ◌≡◌, List, [], ◌∷◌, length, true, false, none, some, ltb, arith}
use dupion.FilePath.{FilePath, root_dir, normal, path_eq}
use dupion.Vfs.{
  cid_and_create, create_walk, create_step, append_entry, child_of, find_child, new_entry, update,
}
use dupion.Zip.{
  Header, no_more, bad_header, member, at_end, broken, chunk, store_member, decode_members,
}
use dupion.Zip.Members.{StoredMember, store_member-StoredMember}
use dupion.Zip.Errors.{decoded, members_read, longest_failure, decode_members_lem}
use dupion.Samples.{before_walk, before_walk-IsSound}

abbrev archive : FilePath
archive = root_dir ∷ normal (b'z' ∷ []) ∷ []

abbrev member_path : FilePath
member_path = root_dir ∷ normal (b'z' ∷ []) ∷ normal (b'm' ∷ []) ∷ []

abbrev headers : List Header
headers =
    member true (some (normal (b'm' ∷ []) ∷ [])) (chunk (1 ∷ 2 ∷ []) ∷ at_end ∷ [])
    ∷ bad_header
    ∷ member true (some (normal (b'n' ∷ []) ∷ [])) (broken ∷ [])
    ∷ member false none (at_end ∷ [])
    ∷ no_more
    ∷ []

store_member-StoredMember_example :
    StoredMember length before_walk member_path
      (1 ∷ 2 ∷ [])
      (store_member (λ b. b) member_path (1 ∷ 2 ∷ []) before_walk)
unfolding cid_and_create create_walk create_step append_entry child_of find_child new_entry update
    path_eq
store_member-StoredMember_example =
    store_member-StoredMember (λ b. b) member_path (1 ∷ 2 ∷ []) before_walk before_walk-IsSound
      (refl, (tt, refl, ((λ e. cc), tt, ((λ e. cc), tt, tt)))) refl refl refl refl

decode_members_lem_example :
    decode_members (λ b. b) archive headers 0 before_walk
    ≡ decoded
        (λ b. b)
        archive
        (members_read headers 0)
        (ltb (longest_failure headers 0) 16)
        before_walk
decode_members_lem_example =
    decode_members_lem (λ b. b) archive headers 0 before_walk (tt, (tt, (tt, tt))) (omega arith)
