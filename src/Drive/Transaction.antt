-- ===== src/Drive/Transaction.antt =====
-- internal/drivefs/transaction.go: `writeTransactional`, which stages a file in a private directory and
-- links it to its destination.
use croton_mcp.Base.{
  ℕ, ◌/◌, ◌%◌, Bool, true, false, not, ◌&&◌, ◌||◌, Option, none, some, List, [], ◌∷◌, ◌++◌, ◌==◌,
  if◌then◌else◌, Bytes, codes,
}
use croton_mcp.Drive.Confined.{
  Failure, writer_required, already_exists, status_unknown, making_failed, authority_unavailable,
  stage_replaced, not_private, writing_failed, closing_failed, linking_failed, removing_file_failed,
  removing_directory_failed, Stat, Status, found, no_entry, unknown, Files, Call, closed, wrote,
  linked, file_removed, directory_removed, State, Done, record_call, hold, with_confined_parent,
}

-- Whether the format bits of a mode are those of a directory.
abbrev pub is_directory : Stat → Bool
is_directory s = s.mode / 4096 % 16 == 4

-- `privateStage`; the last six bits of the mode are the permissions of others.
abbrev pub is_private_stage : ℕ → Stat → Bool
is_private_stage user s = is_directory s && s.owner == user && s.mode % 64 == 0

abbrev pub is_same : Stat → Stat → Bool
is_same a b = a.device == b.device && a.inode == b.inode

abbrev pub source_name : Bytes
source_name = codes "output"

module _ {W : Type 0} (files : Files W) (write : ℕ → W → W × Bool) where
  -- Behind the close of the written file.
  abbrev pub publish : ℕ → ℕ → Bytes → W × Bool → List Call → Done W
  publish directory parent name (w, false) log =
      (record { world = w; log = log }, closing_failed ∷ [])
  publish directory parent name (w, true) log =
      record_call linked linking_failed (files.link directory source_name parent name w) log []

  -- The name of the file is removed whatever has become of it.
  abbrev pub remove_behind : ℕ → Done W → Done W
  remove_behind directory (s, failures) =
      record_call file_removed removing_file_failed
        (files.remove_file directory source_name s.world) s.log failures

  abbrev pub after_writer : ℕ → ℕ → ℕ → Bytes → W × Bool → List Call → Done W
  after_writer fd directory parent name (w, false) log =
      record_call (closed fd) closing_failed (files.close fd w) (wrote fd false ∷ log)
        (writing_failed ∷ [])
  after_writer fd directory parent name (w, true) log =
      let shut = files.close fd w in
      publish directory parent name shut (closed fd shut.1 ∷ wrote fd true ∷ log)

  abbrev pub with_file : ℕ → ℕ → Bytes → List Call → W × Option ℕ → Done W
  with_file directory parent name log (w, none) =
      (record { world = w; log = log }, Failure.opening_failed ∷ [])
  with_file directory parent name log (w, some fd) =
      remove_behind directory
        (after_writer fd directory parent name (write fd w) (Call.opened fd ∷ log))

  abbrev pub check_opened : Stat → ℕ → ℕ → Bytes → List Call → W × Option Stat → Done W
  check_opened created directory parent name log (w, none) =
      (record { world = w; log = log }, status_unknown ∷ [])
  check_opened created directory parent name log (w, some now) =
      if not (is_same now created)
      then (record { world = w; log = log }, stage_replaced ∷ [])
      else if not (is_private_stage files.user now)
      then (record { world = w; log = log }, not_private ∷ [])
      else with_file directory parent name log (files.create_file directory source_name w)

  abbrev pub in_stage : Stat → ℕ → Bytes → ℕ → State W → Done W
  in_stage created parent name directory s =
      check_opened created directory parent name s.log (files.status_of directory s.world)

  -- `checkStage`, and the removal of the stage.
  abbrev pub remove_stage : Stat → ℕ → Bytes → List Call → List Failure → W × Status → Done W
  remove_stage created parent stage log failures (w, no_entry) =
      (record { world = w; log = log }, failures ++ status_unknown ∷ [])
  remove_stage created parent stage log failures (w, unknown) =
      (record { world = w; log = log }, failures ++ status_unknown ∷ [])
  remove_stage created parent stage log failures (w, found now) =
      if not (is_same now created) || not (is_directory now)
      then (record { world = w; log = log }, failures ++ stage_replaced ∷ [])
      else record_call directory_removed removing_directory_failed
          (files.remove_directory parent stage w) log failures

  abbrev pub leave_stage : Stat → ℕ → Bytes → Done W → Done W
  leave_stage created parent stage (s, failures) =
      remove_stage created parent stage s.log failures (files.status_at parent stage s.world)

  abbrev pub check_created : ℕ → Bytes → Bytes → List Call → W × Status → Done W
  check_created parent name stage log (w, no_entry) =
      (record { world = w; log = log }, authority_unavailable ∷ [])
  check_created parent name stage log (w, unknown) =
      (record { world = w; log = log }, authority_unavailable ∷ [])
  check_created parent name stage log (w, found created) =
      if not (is_private_stage files.user created)
      then (record { world = w; log = log }, authority_unavailable ∷ [])
      else leave_stage created parent stage (
          hold files (in_stage created parent name) log
            (files.open_directory (some parent) stage w))

  abbrev pub after_making : ℕ → Bytes → Bytes → List Call → W × Bool → Done W
  after_making parent name stage log (w, false) =
      (record { world = w; log = log }, making_failed ∷ [])
  after_making parent name stage log (w, true) =
      check_created parent name stage log (files.status_at parent stage w)

  abbrev pub make_stage : ℕ → Bytes → List Call → W × Bytes → Done W
  make_stage parent name log (w, text) =
      let stage = codes ".croton-output-" ++ text in
      after_making parent name stage log (files.make_directory parent stage w)

  abbrev pub check_fresh : ℕ → Bytes → List Call → W × Status → Done W
  check_fresh parent name log (w, found s) = (record { world = w; log = log }, already_exists ∷ [])
  check_fresh parent name log (w, unknown) = (record { world = w; log = log }, status_unknown ∷ [])
  check_fresh parent name log (w, no_entry) = make_stage parent name log (files.random_text w)

  abbrev pub transact : ℕ → Bytes → State W → Done W
  transact parent name s = check_fresh parent name s.log (files.status_at parent name s.world)

-- `writeTransactional`, with a writer or none.
unfoldable pub write_transactional :
    {W : Type 0} → Files W → Bytes → Bytes → Option (ℕ → W → W × Bool) → State W → Done W
unfolding with_confined_parent
write_transactional files root destination none s = (s, writer_required ∷ [])
write_transactional files root destination (some write) s =
    with_confined_parent files root destination (transact files write) s
