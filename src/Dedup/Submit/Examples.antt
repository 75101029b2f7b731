-- ===== src/Dedup/Submit/Examples.antt =====
-- Three files of one content: every file opens, and the calls fail, or the second file differs.
use dupion.Base.{
  ℕ, refl, ◌≡◌, List, [], ◌∷◌, Bool, true, false, Option, some, get_elem?, length, ◌+◌, ok,
}
use dupion.FilePath.{FilePath}
use dupion.Vfs.{VfsId, VfsEntry}
use dupion.State.{State}
use dupion.Dedup.{DedupGroup}
use dupion.Dedup.Submit.{
  Advice, DedupeRange, DedupeRangeDestInfo, differs, ReadaheadItem, Opened, dedup_group_batch,
  submit_group, simulate, mark_deduped,
}
use dupion.Dedup.Submit.Dups.{SameCount, has}
use dupion.Dedup.Submit.Run.{simulate-SameCount}
use dupion.Dedup.Submit.Failed.{submit_group_marks_dups}
use dupion.Samples.{sample_opts, three_files}

-- The world counts the calls. A descriptor is the number of the call that opened it.
abbrev opens_all : FilePath → ℕ → Option (ℕ × ℕ) × ℕ
opens_all p w = (some (w, 9000), w + 1)

abbrev no_advice : Advice → ReadaheadItem → ℕ → ℕ
no_advice a r w = w

abbrev fails : ℕ → DedupeRange → ℕ → (Bool × DedupeRange) × ℕ
fails fd r w = ((true, r), w + 1)

-- The file of the first answer differs, the others are deduplicated.
abbrev first_differs : List DedupeRangeDestInfo → List DedupeRangeDestInfo
first_differs [] = []
first_differs (i ∷ is) = record i { status = differs } ∷ is

abbrev answers : ℕ → DedupeRange → ℕ → (Bool × DedupeRange) × ℕ
answers fd r w = ((false, record r { dest_infos = first_differs r.dest_infos }), w + 1)

first_differs_length : (is : List DedupeRangeDestInfo) → length (first_differs is) ≡ length is
first_differs_length [] = refl
first_differs_length (i ∷ is) = refl

abbrev group : DedupGroup
group = record {
  senpai = 0;
  dups = 1 ∷ 2 ∷ [];
  start = 0;
  stop = 9000;
  avg_phys = 4096;
  actual_file_size = 9000;
}

abbrev opened : Opened
opened = record { group = group; senpai_fd = 3; dups_fd = 4 ∷ 5 ∷ []; last_part = true }

simulate-SameCount_example :
    (out : State) × (world : ℕ) × (dedup_group_batch opens_all no_advice answers sample_opts
        ((group, true) ∷ [])
        three_files
        0
      ≡ ok (out, world))
    × SameCount out.disp (simulate ((group, true) ∷ []) three_files.disp)
simulate-SameCount_example =
    simulate-SameCount opens_all no_advice answers (λ fd r w. first_differs_length r.dest_infos)
      sample_opts ((group, true) ∷ []) three_files 0 refl
      (
        ((
          ((_, _, refl, refl), (_, _, refl, refl)),
          (((_, _, refl, refl), (_, _, refl, refl)), tt),
        )),
        tt,
      )
      ((
        (
          (_, refl, λ w. (w, w + 1, refl)),
          ((_, refl, λ w. (w, w + 1, refl)), ((_, refl, λ w. (w, w + 1, refl)), tt)),
        ),
        tt,
      ))

submit_group_marks_dups_example :
    (out : State) × (world : ℕ) × (submit_group fails opened three_files 0 ≡ ok (out, world))
    × ((id : VfsId) (e : VfsEntry)
        → has id (1 ∷ 2 ∷ []) ≡ true
        → get_elem? three_files.tree.entries id ≡ some e
        → get_elem? out.tree.entries id ≡ some (mark_deduped e))
submit_group_marks_dups_example =
    submit_group_marks_dups fails (λ fd r w. refl) opened three_files 0 1
      (refl, (_, refl), ((_, refl), ((_, refl), tt))) refl
