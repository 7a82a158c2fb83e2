-- ===== src/Triage/Seen.antt =====
-- bridge/seen.go: `SetSeen`, one STORE for each UID in input order.
use croton_mcp.Base.{
  ℕ, Bool, true, false, Option, none, some, List, [], ◌∷◌, ◌==◌, if◌then◌else◌, Bytes,
}
use croton_mcp.Codes.{
  Code, bounds_exceeded, imap_protocol, stale_message_id, message_not_found, imap_command,
}
use croton_mcp.Triage.Result.{
  Context, ImapError, coded, map_error, Reply, ok, err, Answer, Result, done, failed, TriageResult,
  Attempt, applied, refused, not_attempted, unknown, pending_results,
}
use croton_mcp.Triage.Server.{Server}
use croton_mcp.Triage.Source.{Adapter, validate_triage_request, invalidate, open_triage_source}

-- The error of `requireMessageUID` for a failed search.
abbrev search_error : ImapError → ImapError
search_error e = elim e.code_of [ some bounds_exceeded ↦ coded imap_protocol | _ ↦ e ]

-- The error for a search that succeeded.
abbrev found_error : ℕ → List ℕ → Option ImapError
found_error uid [] = some (coded stale_message_id)
found_error uid (u ∷ []) = if u == uid then none else some (coded imap_protocol)
found_error uid (u ∷ v ∷ us) = some (coded imap_protocol)

-- `requireMessageUID`: its error, if any.
unfoldable pub uid_error : ℕ → Reply (List ℕ) → Option ImapError
uid_error uid (ok uids) = found_error uid uids
uid_error uid (err e) = some (search_error e)

abbrev pub is_stale : Option Code → Bool
is_stale (some stale_message_id) = true
is_stale _ = false

abbrev pub is_imap_command : Code → Bool
is_imap_command imap_command = true
is_imap_command _ = false

abbrev pub result : ℕ → Option Code → Attempt → TriageResult
result uid code outcome = record { uid = uid; outcome = outcome; code = code }

module _ {W : Type 0} (server : Server W) where
  -- A UID for which nothing was dispatched, on a session that is no longer trusted.
  unfoldable pub abandon_uid : ℕ → Context → ImapError → Adapter W → Adapter W × TriageResult × Bool
  abandon_uid uid ctx e a =
      (invalidate server a, result uid (some (map_error ctx e)) not_attempted, true)

  -- The result of a UID that is not present, and the flag to stop.
  unfoldable pub absent_uid : ℕ → Context → ImapError → Adapter W → Adapter W × TriageResult × Bool
  unfolding abandon_uid
  absent_uid uid ctx e a =
      if is_stale e.code_of
      then (a, result uid (some message_not_found) refused, false)
      else abandon_uid uid ctx e a

  -- The result of a dispatched STORE, and the flag to stop.
  unfoldable pub stored :
      ℕ → Context → Reply (Unit {0}) → Adapter W → Adapter W × TriageResult × Bool
  stored uid ctx (ok _) a = (a, result uid none applied, false)
  stored uid ctx (err e) a =
      let code = map_error ctx e in
      if is_imap_command code
      then (a, result uid (some imap_command) refused, false)
      else (invalidate server a, result uid (some code) unknown, true)

  unfoldable pub store_found :
      ℕ → Bool → Context → Option ImapError → Adapter W → Adapter W × TriageResult × Bool
  store_found uid seen ctx (some e) a = absent_uid uid ctx e a
  store_found uid seen ctx none a =
      let (w, answer) = server.store_seen uid seen a.world in
      stored uid answer.context answer.reply (record a { world = w })

  -- `storeSeen`: the new state, the result, and whether every later UID is left unattempted.
  unfoldable pub store_seen : ℕ → Bool → Adapter W → Adapter W × TriageResult × Bool
  unfolding store_found
  store_seen uid seen a =
      let (w, answer) = server.search uid a.world in
      store_found uid seen answer.context (uid_error uid answer.reply) (record a { world = w })

  abbrev pub stop_or :
      Bool → Adapter W → List ℕ → Adapter W × List TriageResult → Adapter W × List TriageResult
  stop_or true a uids rest = (a, pending_results uids)
  stop_or false a uids rest = rest

  -- The loop of `SetSeen`, over results that begin as not attempted.
  unfoldable pub store_all : Bool → List ℕ → Adapter W → Adapter W × List TriageResult
  store_all seen [] a = (a, [])
  store_all seen (uid ∷ uids) a =
      let step = store_seen uid seen a in
      let rest = store_all seen uids step.0 in
      let after = stop_or step.2 step.0 uids rest in (after.0, step.1 ∷ after.1)

  unfoldable pub store_opened :
      Bool → List ℕ → Adapter W × Result (Unit {0}) → Adapter W × Result (List TriageResult)
  store_opened seen uids (a, failed code) = (a, failed code)
  store_opened seen uids (a, done _) = let out = store_all seen uids a in (out.0, done out.1)

  unfoldable pub store_acquired :
      Bytes
      → ℕ
      → List ℕ
      → Bool
      → W × Answer (Unit {0})
      → Adapter W
      → Adapter W × Result (List TriageResult)
  unfolding store_opened
  store_acquired mailbox uid_validity uids seen (w, answer) a = elim answer.reply [
    | err e ↦ (record a { world = w }, failed (map_error answer.context e))
    | ok _ ↦
        store_opened seen uids
          (open_triage_source server mailbox uid_validity (record a { world = w }))
  ]

  -- `SetSeen`.
  unfoldable pub set_seen :
      Bytes → ℕ → List ℕ → Bool → Adapter W → Adapter W × Result (List TriageResult)
  unfolding store_acquired
  set_seen mailbox uid_validity uids seen a =
      elim (validate_triage_request mailbox uid_validity uids) [
        | some code ↦ (a, failed code)
        | none ↦ store_acquired mailbox uid_validity uids seen (server.acquire a.world) a
      ]
