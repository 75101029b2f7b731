-- ===== src/Dedup/Submit/Failed.antt =====
-- What is marked after the call for a group has failed.
use dupion.Base.{
  ℕ, ◌≡◌, ap, ◌∙◌, Bool, true, some, List, [], ◌∷◌, length, get_elem?, if◌then◌else◌, ok, arith,
}
use dupion.Vfs.{VfsId, VfsEntry}
use dupion.State.{State}
use dupion.Dedup.Submit.{DedupeRange, Opened, request, initial_infos, submit_group, mark_deduped}
use dupion.Dedup.Submit.Marks.{marked_in}
use dupion.Dedup.Submit.Dups.{has, or-true_right, or-both}
use dupion.Dedup.Submit.Groups.{group_marks, submit_group-Submitted, IsReady, retry_marks}

module _ {W : Type 0} (deduplicate_range : ℕ → DedupeRange → W → (Bool × DedupeRange) × W)
    (in_place : (fd : ℕ) (r : DedupeRange) (w : W)
      → length (deduplicate_range fd r w).0.1.dest_infos ≡ length r.dest_infos) where
  initial_infos-marked :
      (start : ℕ) (fds : List ℕ) (ids : List VfsId) (id : VfsId)
      → length fds ≡ length ids
      → has id ids ≡ true
      → marked_in (initial_infos start fds) ids id ≡ true
  initial_infos-marked start fds [] id even h = cc
  initial_infos-marked start [] (j ∷ ids) id even h = absurd (omega (arith, even))
  initial_infos-marked start (fd ∷ fds) (j ∷ ids) id even h =
      or-both (λ x. x) (initial_infos-marked start fds ids id (omega (arith, even))) h

  -- For an open group whose files are in the tree, with a descriptor for each dup, and calls that
  -- answer for each file they are given: if the call for the group fails and leaves the answers as they
  -- were given to it, `submit_group` returns and every dup is marked as deduplicated, whatever the
  -- single calls for the dups then answer.
  pub submit_group_marks_dups :
      (o : Opened) (s : State) (w w' : W)
      → IsReady s o
      → deduplicate_range o.senpai_fd (request o.group o.dups_fd) w
        ≡ ((true, request o.group o.dups_fd), w')
      → (out : State) × (world : W) × (submit_group deduplicate_range o s w ≡ ok (out, world))
        × ((id : VfsId) (e : VfsEntry)
            → has id o.group.dups ≡ true
            → get_elem? s.tree.entries id ≡ some e
            → get_elem? out.tree.entries id ≡ some (mark_deduped e))
  submit_group_marks_dups o s w w' (even, senpai, dups) failed =
      let done = submit_group-Submitted deduplicate_range in_place o s w even senpai dups in
      (
        done.out,
        done.world,
        done.returns,
        λ id e member found.
            let told : group_marks deduplicate_range in_place o w id ≡ true = rw failed (
              or-true_right (retry_marks deduplicate_range in_place o o.dups_fd o.group.dups w' id)
                _ (initial_infos-marked o.group.start o.dups_fd o.group.dups id even member)) in
            done.marked.kept id e found ∙ ap (λ b. some (if b then mark_deduped e else e)) told,
      )
