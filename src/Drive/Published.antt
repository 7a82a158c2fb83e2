-- ===== src/Drive/Published.antt =====
-- A transaction publishes at most once, and without failures it has published and cleaned up.
use croton_mcp.Base.{
  ℕ, ◌≤◌, Bool, true, false, not, ◌||◌, Option, none, some, List, [], ◌∷◌, ◌++◌, if◌then◌else◌,
  Bytes, codes, ◌≡◌, refl, arith, of_both,
}
use croton_mcp.Drive.Careful.{
  replay, IsCareful, times, is_link, is_publication, is_file_removal, is_directory_removal,
  is_success, Step, Leads, reopened, failed-Step, failed_later-Step,
}
use croton_mcp.Drive.Confined.{
  Failure, writer_required, already_exists, status_unknown, making_failed, authority_unavailable,
  stage_replaced, not_private, opening_failed, writing_failed, closing_failed, linking_failed,
  removing_file_failed, removing_directory_failed, Stat, Status, found, no_entry, unknown, Files,
  Call, opened, closed, wrote, linked, file_removed, directory_removed, State, Done, record_call,
  hold, write_fresh,
}
use croton_mcp.Drive.Held.{
  record_call-Step, hold-Step, with_confined_parent-Step, Anything, write_fresh-Step,
}
use croton_mcp.Drive.Transaction.{
  is_directory, is_private_stage, is_same, source_name, publish, remove_behind, after_writer,
  with_file, check_opened, in_stage, remove_stage, leave_stage, check_created, after_making,
  check_fresh, transact, write_transactional,
}

-- The file has its name; the staged file has lost its own; the stage is gone.
abbrev IsPublished : List Call → Type 0
IsPublished log = 1 ≤ times is_publication log

abbrev IsUnstaged : List Call → Type 0
IsUnstaged log = IsPublished log × (1 ≤ times is_file_removal log)

abbrev pub IsComplete : List Call → Type 0
IsComplete log =
    (1 ≤ times is_publication log)
    × (1 ≤ times is_file_removal log)
    × (1 ≤ times is_directory_removal log)

closed-IsUnstaged : (fd : ℕ) (log : List Call) → IsUnstaged log → IsUnstaged (closed fd true ∷ log)
unfolding times
closed-IsUnstaged fd log h = h

closed-IsComplete : (fd : ℕ) (log : List Call) → IsComplete log → IsComplete (closed fd true ∷ log)
unfolding times
closed-IsComplete fd log h = h

module _ {W : Type 0} (files : Files W) (write : ℕ → W → W × Bool) where
  publish-Step :
      (fd directory parent : ℕ) (name : Bytes) (w : W × Bool) (log : List Call)
      → Leads IsPublished log (
          publish files write directory parent name w
            (closed fd w.1 ∷ wrote fd true ∷ opened fd ∷ log))
  unfolding replay times
  publish-Step fd directory parent name (w, false) log = record {
    balanced = reopened fd false (replay log);
    careful = λ c. c;
    once = omega arith;
    success = λ e. absurd (cc e);
  }
  publish-Step fd directory parent name (w, true) log =
      record_call-Step Anything IsPublished linked linking_failed
        (files.link directory source_name parent name w) log log
        (closed fd true ∷ wrote fd true ∷ opened fd ∷ log) []
        (record {
          balanced = reopened fd true (replay log);
          careful = λ c. c;
          once = omega arith;
          success = λ e. tt;
        })
        (λ ok. reopened fd true (replay log)) (λ ok c. (refl, c)) (λ ok. omega arith)
        (λ g. omega arith)

  after_writer-Step :
      (fd directory parent : ℕ) (name : Bytes) (w : W × Bool) (log : List Call)
      → Leads IsPublished log
          (after_writer files write fd directory parent name w (opened fd ∷ log))
  unfolding replay times
  after_writer-Step fd directory parent name (w, true) log =
      publish-Step fd directory parent name (files.close fd w) log
  after_writer-Step fd directory parent name (w, false) log =
      record_call-Step IsPublished IsPublished (closed fd) closing_failed (files.close fd w) log
        (opened fd ∷ log) (wrote fd false ∷ opened fd ∷ log) (writing_failed ∷ [])
        (record {
          balanced = refl;
          careful = λ c. c;
          once = omega arith;
          success = λ e. absurd (cc e);
        })
        (λ ok. reopened fd ok (replay log)) (λ ok c. c) (λ ok. omega arith) (λ g. g)

  remove_behind-Step :
      (directory : ℕ) (log : List Call) (d : Done W)
      → Leads IsPublished log d
      → Leads IsUnstaged log (remove_behind files write directory d)
  unfolding replay times
  remove_behind-Step directory log (s, failures) step =
      record_call-Step IsPublished IsUnstaged file_removed removing_file_failed
        (files.remove_file directory source_name s.world) log log s.log failures step
        (λ ok. step.balanced) (λ ok. step.careful) (λ ok. step.once) (λ g. (g, omega arith))

  with_file-Step :
      (directory parent : ℕ) (name : Bytes) (log : List Call) (o : W × Option ℕ)
      → Leads IsUnstaged log (with_file files write directory parent name log o)
  with_file-Step directory parent name log (w, none) =
      failed-Step IsUnstaged log (opening_failed ∷ []) refl
  with_file-Step directory parent name log (w, some fd) =
      remove_behind-Step directory log
        (after_writer files write fd directory parent name (write fd w) (opened fd ∷ log))
        (after_writer-Step fd directory parent name (write fd w) log)

  check_opened-Step :
      (created : Stat) (directory parent : ℕ) (name : Bytes) (log : List Call) (o : W × Option Stat)
      → Leads IsUnstaged log (check_opened files write created directory parent name log o)
  check_opened-Step created directory parent name log (w, none) =
      failed-Step IsUnstaged log (status_unknown ∷ []) refl
  check_opened-Step created directory parent name log (w, some now) =
      let s : State W = record { world = w; log = log } in
      let go_on =
        with_file files write directory parent name log
          (files.create_file directory source_name w) in
      of_both (Leads IsUnstaged log) (not (is_same now created)) (s, stage_replaced ∷ [])
        (if not (is_private_stage files.user now) then (s, not_private ∷ []) else go_on)
        (failed-Step IsUnstaged log (stage_replaced ∷ []) refl)
        (of_both (Leads IsUnstaged log) (not (is_private_stage files.user now))
          (s, not_private ∷ []) go_on (failed-Step IsUnstaged log (not_private ∷ []) refl)
          (with_file-Step directory parent name log (files.create_file directory source_name w)))

  remove_stage-Step :
      (created : Stat) (parent : ℕ) (stage : Bytes) (before log : List Call)
      (failures : List Failure) (o : W × Status)
      → Step IsUnstaged before log failures
      → Leads IsComplete before (remove_stage files write created parent stage log failures o)
  unfolding replay times
  remove_stage-Step created parent stage before log failures (w, no_entry) step =
      failed_later-Step IsUnstaged IsComplete before log failures status_unknown step
  remove_stage-Step created parent stage before log failures (w, unknown) step =
      failed_later-Step IsUnstaged IsComplete before log failures status_unknown step
  remove_stage-Step created parent stage before log failures (w, found now) step =
      let out = files.remove_directory parent stage w in
      of_both (Leads IsComplete before) (not (is_same now created) || not (is_directory now))
        (record { world = w; log = log }, failures ++ stage_replaced ∷ [])
        (record_call directory_removed removing_directory_failed out log failures)
        (failed_later-Step IsUnstaged IsComplete before log failures stage_replaced step)
        (record_call-Step IsUnstaged IsComplete directory_removed removing_directory_failed out
          before before log failures step (λ ok. step.balanced) (λ ok. step.careful)
          (λ ok. step.once) (λ g. (g.0, g.1, omega arith)))

  check_created-Step :
      (parent : ℕ) (name stage : Bytes) (log : List Call) (o : W × Status)
      → Leads IsComplete log (check_created files write parent name stage log o)
  check_created-Step parent name stage log (w, no_entry) =
      failed-Step IsComplete log (authority_unavailable ∷ []) refl
  check_created-Step parent name stage log (w, unknown) =
      failed-Step IsComplete log (authority_unavailable ∷ []) refl
  check_created-Step parent name stage log (w, found created) =
      let o = files.open_directory (some parent) stage w in
      let held = hold files (in_stage files write created parent name) log o in
      of_both (Leads IsComplete log) (not (is_private_stage files.user created))
        (record { world = w; log = log }, authority_unavailable ∷ [])
        (leave_stage files write created parent stage held)
        (failed-Step IsComplete log (authority_unavailable ∷ []) refl)
        (remove_stage-Step created parent stage log (held.0).log held.1
          (files.status_at parent stage (held.0).world)
          (hold-Step files IsUnstaged closed-IsUnstaged (in_stage files write created parent name)
            log o
            (λ fd s. check_opened-Step created fd parent name s.log (files.status_of fd s.world))))

  after_making-Step :
      (parent : ℕ) (name stage : Bytes) (log : List Call) (o : W × Bool)
      → Leads IsComplete log (after_making files write parent name stage log o)
  after_making-Step parent name stage log (w, false) =
      failed-Step IsComplete log (making_failed ∷ []) refl
  after_making-Step parent name stage log (w, true) =
      check_created-Step parent name stage log (files.status_at parent stage w)

  check_fresh-Step :
      (parent : ℕ) (name : Bytes) (log : List Call) (o : W × Status)
      → Leads IsComplete log (check_fresh files write parent name log o)
  check_fresh-Step parent name log (w, found s) =
      failed-Step IsComplete log (already_exists ∷ []) refl
  check_fresh-Step parent name log (w, unknown) =
      failed-Step IsComplete log (status_unknown ∷ []) refl
  check_fresh-Step parent name log (w, no_entry) =
      let (v, text) = files.random_text w in
      let stage = codes ".croton-output-" ++ text in
      after_making-Step parent name stage log (files.make_directory parent stage v)

write_transactional-Step :
    {W : Type 0} (files : Files W) (root destination : Bytes) (write : Option (ℕ → W → W × Bool))
    (s : State W)
    → Leads IsComplete s.log (write_transactional files root destination write s)
unfolding write_transactional
write_transactional-Step files root destination none s =
    failed-Step IsComplete s.log (writer_required ∷ []) refl
write_transactional-Step files root destination (some write) s =
    with_confined_parent-Step files IsComplete closed-IsComplete root destination
      (transact files write) s
      (λ fd name t. check_fresh-Step files write fd name t.log (files.status_at fd name t.world))

-- The state before any call.
abbrev pub at_first : {W : Type 0} → W → State W
at_first w = record { world = w; log = [] }

-- Whatever the file system and the writer do: a transaction and a fresh write close every descriptor they
-- open, the latest first, and no other, and leave none open.
pub write_transactional-replay :
    {W : Type 0} (files : Files W) (root destination : Bytes) (write : Option (ℕ → W → W × Bool))
    (w : W)
    → (replay (write_transactional files root destination write (at_first w)).0.log ≡ some [])
      × (replay (write_fresh files root destination write (at_first w)).0.log ≡ some [])
unfolding replay
write_transactional-replay files root destination write w = (
  (write_transactional-Step files root destination write (at_first w)).balanced,
  (write_fresh-Step files root destination write (at_first w)).balanced,
)

-- Whatever the file system and the writer do: a transaction links at most once, each link directly follows
-- a successful close of a file that was written with success, and if no failure is returned, then
-- the file is linked, and the staged name and the stage are removed.
pub write_transactional-IsCareful :
    {W : Type 0} (files : Files W) (root destination : Bytes) (write : Option (ℕ → W → W × Bool))
    (w : W)
    → let d = write_transactional files root destination write (at_first w) in
      IsCareful (d.0).log
      × (times is_link (d.0).log ≤ 1)
      × (is_success d.1 ≡ true → IsComplete (d.0).log)
unfolding times
write_transactional-IsCareful files root destination write w =
    let step = write_transactional-Step files root destination write (at_first w) in
    (step.careful tt, step.once, step.success)
