-- ===== src/Triage/Move.antt =====
-- bridge/move.go: the native moves, one UID MOVE for each UID in input order.
use croton_mcp.Base.{
  ℕ, Bool, true, false, not, ◌&&◌, ◌||◌, Option, none, some, List, [], ◌∷◌, if◌then◌else◌, Bytes,
}
use croton_mcp.Codes.{Code, imap_command, imap_protocol, unsupported}
use croton_mcp.Triage.Destination.{
  identity_matches, validate_move_destination, resolve_move_destination,
  resolve_attribute_destination,
}
use croton_mcp.Triage.Result.{
  Context, ImapError, map_error, Reply, ok, err, Answer, Result, done, failed, TriageResult,
  Attempt, applied, refused, not_attempted, unknown, zero_result, pending_results,
}
use croton_mcp.Triage.Seen.{uid_error, absent_uid, abandon_uid, result, is_imap_command}
use croton_mcp.Triage.Server.{Server, ListedMailbox}
use croton_mcp.Triage.Source.{Adapter, validate_triage_request, invalidate, open_triage_source}

-- `refuseRemaining`, on the results from its index on.
unfoldable pub refuse_all : List ℕ → List TriageResult
refuse_all [] = []
refuse_all (uid ∷ uids) = result uid (some unsupported) refused ∷ refuse_all uids

abbrev pub Resolver : Type 0
Resolver = List ListedMailbox → Option Bytes

-- The loop's four ways on after a UID: the rest is refused, the request fails, it stops, it goes on.
pub data Next : Type 0 where
  refuse_rest stop go_on : Next
  fail_with : Code → Next

abbrev pub is_unsupported : Option Code → Bool
is_unsupported (some unsupported) = true
is_unsupported _ = false

abbrev pub is_not_attempted : Attempt → Bool
is_not_attempted not_attempted = true
is_not_attempted _ = false

abbrev pub is_applied : Attempt → Bool
is_applied applied = true
is_applied _ = false

-- `errorCode(result.Code)`; a UID that stops the batch unattempted has a code.
abbrev code_or : Option Code → Code
code_or (some code) = code
code_or none = imap_protocol

unfoldable pub next_of : Bool → TriageResult → Bool → Next
next_of written r stopping =
    if is_unsupported r.code
    then refuse_rest
    else if stopping && not written && is_not_attempted r.outcome
    then fail_with (code_or r.code)
    else if stopping
    then stop
    else go_on

module _ {W : Type 0} (server : Server W) where
  -- What `prepareMove` returns: a target, or the result of the UID and the flag to stop.
  pub data Prepared : Type 0 where
    target : Bytes → Prepared
    unready : TriageResult → Bool → Prepared

  abbrev unready_of : Adapter W × TriageResult × Bool → Adapter W × Prepared
  unready_of (a, r, s) = (a, unready r s)

  abbrev resolved : ℕ → Option Bytes → Prepared
  resolved uid none = unready (result uid (some unsupported) refused) false
  resolved uid (some name) = target name

  listed : ℕ → Resolver → W × Answer (List ListedMailbox) → Adapter W → Adapter W × Prepared
  listed uid resolve (w, answer) a = elim answer.reply [
    | err e ↦ unready_of (abandon_uid server uid answer.context e (record a { world = w }))
    | ok listing ↦ (record a { world = w }, resolved uid (resolve listing))
  ]

  present : ℕ → ℕ → Resolver → Context → Option ImapError → Adapter W → Adapter W × Prepared
  unfolding listed
  present max_folders uid resolve ctx (some e) a = unready_of (absent_uid server uid ctx e a)
  present max_folders uid resolve ctx none a =
      listed uid resolve (server.list_mailboxes max_folders a.world) a

  -- `prepareMove`.
  unfoldable pub prepare_move : ℕ → ℕ → Resolver → Adapter W → Adapter W × Prepared
  unfolding present
  prepare_move max_folders uid resolve a =
      let (w, answer) = server.search uid a.world in
      present max_folders uid resolve answer.context (uid_error uid answer.reply)
        (record a { world = w })

  -- The result of a dispatched MOVE.
  unfoldable pub moved_result :
      ℕ → Context → Reply (Unit {0}) → Adapter W → Adapter W × TriageResult × Bool
  moved_result uid ctx (ok _) a = (a, result uid none applied, false)
  moved_result uid ctx (err e) a =
      let code = map_error ctx e in
      if is_unsupported (some code)
      then (invalidate server a, result uid (some unsupported) refused, false)
      else if is_imap_command code
      then (a, result uid (some imap_command) refused, false)
      else (invalidate server a, result uid (some code) unknown, true)

  -- The MOVE, unless the target is the empty name, for which `moveUID` returns the zero result that
  -- `prepareMove` left.
  move_prepared : ℕ → Adapter W × Prepared → Adapter W × TriageResult × Bool
  unfolding moved_result
  move_prepared uid (a, unready r s) = (a, r, s)
  move_prepared uid (a, target []) = (a, zero_result, false)
  move_prepared uid (a, target (c ∷ cs)) =
      let (w, answer) = server.move_uid uid (c ∷ cs) a.world in
      moved_result uid answer.context answer.reply (record a { world = w })

  -- `moveUID`.
  unfoldable pub move_uid : ℕ → ℕ → Resolver → Adapter W → Adapter W × TriageResult × Bool
  unfolding move_prepared
  move_uid max_folders uid resolve a = move_prepared uid (prepare_move max_folders uid resolve a)

  abbrev put_first : TriageResult → Result (List TriageResult) → Result (List TriageResult)
  put_first r (done rs) = done (r ∷ rs)
  put_first r (failed code) = failed code

  abbrev go_by :
      Next
      → Adapter W
      → TriageResult
      → List ℕ
      → Adapter W × Result (List TriageResult)
      → Adapter W × Result (List TriageResult)
  go_by refuse_rest a r uids rest = (a, done (r ∷ refuse_all uids))
  go_by (fail_with code) a r uids rest = (a, failed code)
  go_by stop a r uids rest = (a, done (r ∷ pending_results uids))
  go_by go_on a r uids rest = (rest.0, put_first r rest.1)

  -- The loop of `move`; the flag is `written`.
  unfoldable pub move_all :
      ℕ → Resolver → Bool → List ℕ → Adapter W → Adapter W × Result (List TriageResult)
  move_all max_folders resolve written [] a = (a, done [])
  move_all max_folders resolve written (uid ∷ uids) a =
      let step = move_uid max_folders uid resolve a in
      let rest = move_all max_folders resolve (written || is_applied step.1.outcome) uids step.0 in
      go_by (next_of written step.1 step.2) step.0 step.1 uids rest

  move_opened :
      ℕ → Resolver → List ℕ → Adapter W × Result (Unit {0}) → Adapter W × Result (List TriageResult)
  move_opened max_folders resolve uids (a, failed code) = (a, failed code)
  move_opened max_folders resolve uids (a, done _) =
      if not server.is_mover
      then (a, failed imap_protocol)
      else if not (server.supports_move a.world)
      then (a, done (refuse_all uids))
      else move_all max_folders resolve false uids a

  move_acquired :
      ℕ
      → Bytes
      → ℕ
      → List ℕ
      → Resolver
      → W × Answer (Unit {0})
      → Adapter W
      → Adapter W × Result (List TriageResult)
  unfolding move_opened
  move_acquired max_folders mailbox uid_validity uids resolve (w, answer) a = elim answer.reply [
    | err e ↦ (record a { world = w }, failed (map_error answer.context e))
    | ok _ ↦
        move_opened max_folders resolve uids
          (open_triage_source server mailbox uid_validity (record a { world = w }))
  ]

  -- `move`, the batch that the three requests share.
  unfoldable pub move_batch :
      ℕ → Bytes → ℕ → List ℕ → Resolver → Adapter W → Adapter W × Result (List TriageResult)
  unfolding move_acquired
  move_batch max_folders mailbox uid_validity uids resolve a =
      move_acquired max_folders mailbox uid_validity uids resolve (server.acquire a.world) a

  -- `Move`.
  unfoldable pub move :
      ℕ → Bytes → ℕ → List ℕ → Bytes → Adapter W → Adapter W × Result (List TriageResult)
  move max_folders mailbox uid_validity uids destination a =
      elim (validate_triage_request mailbox uid_validity uids) [
        | some code ↦ (a, failed code)
        | none ↦ elim (validate_move_destination destination) [
          | some code ↦ (a, failed code)
          | none ↦
              if identity_matches mailbox destination
              then (a, done (refuse_all uids))
              else move_batch max_folders mailbox uid_validity uids
                  (λ listing. resolve_move_destination listing destination) a
        ]
      ]

  abbrev other_than : Bytes → Option Bytes → Option Bytes
  other_than mailbox none = none
  other_than mailbox (some name) = if identity_matches mailbox name then none else some name

  -- `moveToAttribute`; `Archive` and `Trash` call it with their attribute.
  unfoldable pub move_to_attribute :
      ℕ → Bytes → ℕ → List ℕ → Bytes → Adapter W → Adapter W × Result (List TriageResult)
  move_to_attribute max_folders mailbox uid_validity uids attribute a =
      elim (validate_triage_request mailbox uid_validity uids) [
        | some code ↦ (a, failed code)
        | none ↦
            move_batch max_folders mailbox uid_validity uids
              (λ listing. other_than mailbox (resolve_attribute_destination listing attribute)) a
      ]
