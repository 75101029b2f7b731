-- ===== src/Dedup/Submit/Groups.antt =====
-- One open group and all of them: which files end up marked, and which bytes are counted, on every
-- branch of the calls.
use dupion.Base.{
  ℕ, ◌≡◌, refl, ◌∙◌, inl, inr, Bool, true, false, ◌||◌, List, [], ◌∷◌, length, ◌==◌, ==_iff,
  if◌then◌else◌, All, Outcome, ok, err, panic, ◌>>=◌, arith, add64,
}
use dupion.Vfs.{VfsId}
use dupion.State.{State}
use dupion.Dedup.Submit.{
  DedupeRangeDestInfo, DedupeRange, Opened, request, with_disp, count_processed, retry,
  submit_group, submit_groups, record_status,
}
use dupion.Dedup.Submit.Marks.{
  MarkedBy, IsKnown, either, no_file, MarkedBy-refl, MarkedBy-trans, MarkedBy-disp, MarkedBy-start,
  IsKnown-MarkedBy, All-IsKnown-MarkedBy, marked_in, bytes_in, marks_one, record_status-Marks,
  mark_infos-MarksAll,
}
use dupion.Dedup.Submit.Dups.{
  has, in_dups, count_all, SameCount, count_all-SameCount, or-true_cases, or-both, marks_one-eq,
  marked_in-has,
}

-- The files of an open group are in the tree, and each dup has its descriptor.
abbrev pub IsReady : State → Opened → Type 0
IsReady s o =
    (length o.dups_fd ≡ length o.group.dups)
    × IsKnown s o.group.senpai
    × All (IsKnown s) o.group.dups

All-IsReady-MarkedBy :
    {m : VfsId → Bool} {s t : State} (os : List Opened)
    → MarkedBy m s t
    → All (IsReady s) os
    → All (IsReady t) os
All-IsReady-MarkedBy [] x h = tt
All-IsReady-MarkedBy (o ∷ os) x ((even, senpai, dups), more) = (
  (even, IsKnown-MarkedBy o.group.senpai x senpai, All-IsKnown-MarkedBy o.group.dups x dups),
  All-IsReady-MarkedBy os x more,
)

module _ {W : Type 0} (deduplicate_range : ℕ → DedupeRange → W → (Bool × DedupeRange) × W)
    -- The call writes its answers in place.
    (in_place : (fd : ℕ) (r : DedupeRange) (w : W)
      → length (deduplicate_range fd r w).0.1.dest_infos ≡ length r.dest_infos) where
  abbrev call : Opened → List ℕ → W → (Bool × DedupeRange) × W
  call o fds w = deduplicate_range o.senpai_fd (request o.group fds) w

  -- What the single calls answer, one after the other: the marks, the bytes and the world behind.
  abbrev marks_of : List DedupeRangeDestInfo → VfsId → (VfsId → Bool) → VfsId → Bool
  marks_of [] id more = no_file
  marks_of (i ∷ is) id more = either (marks_one id i.status) more

  abbrev bytes_of : List DedupeRangeDestInfo → ℕ
  bytes_of [] = 0
  bytes_of (i ∷ is) = i.bytes_deduped

  abbrev pub retry_marks : Opened → List ℕ → List VfsId → W → VfsId → Bool
  retry_marks o [] ids w = no_file
  retry_marks o (fd ∷ fds) [] w = no_file
  retry_marks o (fd ∷ fds) (id ∷ ids) w =
      marks_of (call o (fd ∷ []) w).0.1.dest_infos id (retry_marks o fds ids (call o (fd ∷ []) w).1)

  -- The calls return, and mark what `m` tells.
  record Retried (m : VfsId → Bool) (s : State) (r : Outcome ((State × ℕ) × W)) : Type 0 where
    pub out : State
    pub bytes : ℕ
    pub world : W
    pub returns : r ≡ ok ((out, bytes), world)
    pub marked : MarkedBy m s out
    pub disp : out.disp ≡ s.disp

  nothing_tried : (n : ℕ) (s : State) (w : W) → Retried no_file s (ok ((s, n), w))
  nothing_tried n s w = record {
    out = s;
    bytes = n;
    world = w;
    returns = refl;
    marked = MarkedBy-refl s s.disp;
    disp = refl;
  }

  retry-Retried :
      (o : Opened) (fds : List ℕ) (ids : List VfsId) (n : ℕ) (s : State) (w : W)
      → All (IsKnown s) ids
      → Retried (retry_marks o fds ids w) s (retry deduplicate_range o fds ids n s w)
  unfolding retry
  retry-Retried o [] ids n s w h = nothing_tried n s w
  retry-Retried o (fd ∷ fds) [] n s w h = nothing_tried n s w
  retry-Retried o (fd ∷ fds) (id ∷ ids) n s w h =
      let answer = call o (fd ∷ []) w in
      by_infos (λ k t x g. retry-Retried o fds ids k t x g) answer.1 answer.0.1.dest_infos
        (in_place o.senpai_fd (request o.group (fd ∷ [])) w)
    where
      by_infos :
          ((k : ℕ) (t : State) (x : W)
            → All (IsKnown t) ids
            → Retried (retry_marks o fds ids x) t (retry deduplicate_range o fds ids k t x))
          → (w' : W) (infos : List DedupeRangeDestInfo) → length infos ≡ 1
          → Retried (marks_of infos id (retry_marks o fds ids w')) s (elim infos [
            | [] ↦ err panic
            | i ∷ is ↦ record_status id i.status s >>= λ s'.
                retry deduplicate_range o fds ids (add64 n i.bytes_deduped) s' w'
          ])
      by_infos more w' [] one = absurd (omega (arith, one))
      by_infos more w' (i ∷ is) one =
          let first = record_status-Marks id i.status s h.0 in
          let rest =
            more (add64 n i.bytes_deduped) first.out w'
              (All-IsKnown-MarkedBy ids first.marked h.1) in
          record {
            out = rest.out;
            bytes = rest.bytes;
            world = rest.world;
            returns = rw first.returns rest.returns;
            marked = MarkedBy-trans first.marked rest.marked;
            disp = rest.disp ∙ first.disp;
          }

  -- All the marks of a group. The answer of the first call counts even if that call has failed.
  abbrev pub group_marks : Opened → W → VfsId → Bool
  group_marks o w =
      let answer = call o o.dups_fd w in
      either (if answer.0.0 then retry_marks o o.dups_fd o.group.dups answer.1 else no_file)
        (marked_in answer.0.1.dest_infos o.group.dups)

  pub record Submitted (o : Opened) (s : State) (w : W) (r : Outcome (State × W)) : Type 0 where
    pub out : State
    pub world : W
    pub returns : r ≡ ok (out, world)
    pub marked : MarkedBy (group_marks o w) s out
    pub counted : SameCount out.disp (count_processed o.group o.last_part s.disp)

  pub submit_group-Submitted :
      (o : Opened) (s : State) (w : W)
      → length o.dups_fd ≡ length o.group.dups
      → IsKnown s o.group.senpai
      → All (IsKnown s) o.group.dups
      → Submitted o s w (submit_group deduplicate_range o s w)
  unfolding submit_group
  submit_group-Submitted o s w together senpai dups =
      let answer = call o o.dups_fd w in
      let tried = tried_if answer.0.0 answer.1 in
      let counted = with_disp tried.out (count_processed o.group o.last_part tried.out.disp) in
      let marks =
        mark_infos-MarksAll answer.0.1.dest_infos o.group.dups tried.bytes counted (
          All-IsKnown-MarkedBy o.group.dups (MarkedBy-disp {c = counted.disp} tried.marked) dups) in
      let even : (length o.dups_fd == length o.group.dups) ≡ true = (==_iff _ _).1 together in
      let c = marks.out.disp in
      record {
        out = with_disp marks.out (record c {
          deduped_bytes =
              add64 c.deduped_bytes (bytes_in answer.0.1.dest_infos o.group.dups tried.bytes);
        });
        world = tried.world;
        returns = rw (even, senpai.1, tried.returns, marks.returns) refl;
        marked = MarkedBy-disp (MarkedBy-trans tried.marked (MarkedBy-start marks.marked));
        counted = (rw (marks.disp, tried.disp) refl, rw (marks.disp, tried.disp) refl);
      }
    where
      tried_if :
          (failed : Bool) (w' : W)
          → Retried (if failed then retry_marks o o.dups_fd o.group.dups w' else no_file) s (
              if failed
              then retry deduplicate_range o o.dups_fd o.group.dups 0 s w'
              else ok ((s, 0), w'))
      tried_if true w' = retry-Retried o o.dups_fd o.group.dups 0 s w' dups
      tried_if false w' = nothing_tried 0 s w'

  -- The marks of all groups, each in the world that the group before it leaves.
  pub record AllSubmitted (os : List Opened) (s : State) (r : Outcome (State × W)) : Type 0 where
    pub out : State
    pub world : W
    pub returns : r ≡ ok (out, world)
    pub marks : VfsId → Bool
    pub marked : MarkedBy marks s out
    pub only_dups : (id : VfsId) → marks id ≡ true → in_dups os id ≡ true
    pub counted : SameCount out.disp (count_all os s.disp)

  retry_marks-has :
      (o : Opened) (fds : List ℕ) (ids : List VfsId) (w : W) (id : VfsId)
      → retry_marks o fds ids w id ≡ true
      → has id ids ≡ true
  retry_marks-has o [] ids w id h = cc
  retry_marks-has o (fd ∷ fds) [] w id h = cc
  retry_marks-has o (fd ∷ fds) (j ∷ ids) w id h =
      by_infos (call o (fd ∷ []) w).0.1.dest_infos (retry_marks o fds ids (call o (fd ∷ []) w).1)
        (retry_marks-has o fds ids (call o (fd ∷ []) w).1 id) h
    where
      by_infos :
          (infos : List DedupeRangeDestInfo) (more : VfsId → Bool)
          → (more id ≡ true → has id ids ≡ true)
          → marks_of infos j more id ≡ true
          → (j == id || has id ids) ≡ true
      by_infos [] more f h = cc
      by_infos (i ∷ is) more f h = or-both (marks_one-eq j i.status id) f h

  group_marks-has :
      (o : Opened) (w : W) (id : VfsId) → group_marks o w id ≡ true → has id o.group.dups ≡ true
  group_marks-has o w id h =
      let answer = call o o.dups_fd w in
      elim (or-true_cases _ _ h) [
        | inl retried ↦ by_failed answer.0.0 answer.1 retried
        | inr told ↦ marked_in-has answer.0.1.dest_infos o.group.dups id told
      ]
    where
      by_failed :
          (failed : Bool) (w' : W)
          → (if failed then retry_marks o o.dups_fd o.group.dups w' else no_file) id ≡ true
          → has id o.group.dups ≡ true
      by_failed true w' h = retry_marks-has o o.dups_fd o.group.dups w' id h
      by_failed false w' h = cc

  pub submit_groups-AllSubmitted :
      (os : List Opened) (s : State) (w : W)
      → All (IsReady s) os
      → AllSubmitted os s (submit_groups deduplicate_range os s w)
  unfolding submit_groups
  submit_groups-AllSubmitted [] s w h = record {
    out = s;
    world = w;
    returns = refl;
    marks = no_file;
    marked = MarkedBy-refl s s.disp;
    only_dups = λ id e. cc;
    counted = (refl, refl);
  }
  submit_groups-AllSubmitted (o ∷ os) s w ((even, senpai, dups), more) =
      let first = submit_group-Submitted o s w even senpai dups in
      let rest =
        submit_groups-AllSubmitted os first.out first.world
          (All-IsReady-MarkedBy os first.marked more) in
      record {
        out = rest.out;
        world = rest.world;
        returns = rw first.returns rest.returns;
        marks = either (group_marks o w) rest.marks;
        marked = MarkedBy-trans first.marked rest.marked;
        only_dups = λ id e. or-both (group_marks-has o w id) (rest.only_dups id) e;
        counted =
            let later =
              count_all-SameCount os first.out.disp (count_processed o.group o.last_part s.disp)
                first.counted in
            (rest.counted.0 ∙ later.0, rest.counted.1 ∙ later.1);
      }
