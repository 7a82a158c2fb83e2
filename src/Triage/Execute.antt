-- ===== src/Triage/Execute.antt =====
-- bridge/bridge.go: `execute`, which runs one operation on the retained session, and `Close`.
use croton_mcp.Base.{Bool, true, false, ◌&&◌, Option, none, some, if◌then◌else◌}
use croton_mcp.Codes.{Code, bridge_unreachable}
use croton_mcp.Triage.Result.{Context, ImapError, coded, map_error, Reply, ok, err, Answer}
use croton_mcp.Triage.Server.{Server}
use croton_mcp.Triage.Source.{
  Adapter, can_replay, invalidates_session, invalidate, session_for_operation,
}

-- `invalidatesSession` on an error with this code.
abbrev pub invalidates : Option Code → Bool
invalidates none = false
invalidates (some code) = invalidates_session code

-- What one attempt comes to: another attempt, or the error that is returned, if any.
pub data Attempted : Type 0 where
  retry : Attempted
  returned : Option ImapError → Attempted

module _ {W : Type 0} (server : Server W) (operation : W → W × Answer (Unit {0})) where
  -- The attempt behind the operation; the flag is `attempt == 0`.
  unfoldable pub after_operation :
      Bool → Context → Reply (Unit {0}) → Adapter W → Adapter W × Attempted
  after_operation first ctx (ok _) a = (a, returned none)
  after_operation first ctx (err e) a =
      if first && can_replay ctx e.code_of
      then (invalidate server a, retry)
      else (if invalidates e.code_of then invalidate server a else a, returned (some e))

  unfoldable pub on_session :
      Bool → Adapter W × Option (Context × ImapError) → Adapter W × Attempted
  on_session first (a, some (ctx, e)) =
      let code = map_error ctx e in
      (a, if first && can_replay ctx (some code) then retry else returned (some (coded code)))
  on_session first (a, none) =
      let (w, answer) = operation a.world in
      after_operation first answer.context answer.reply (record a { world = w })

  abbrev pub or_retry :
      Adapter W × Attempted
      → (Adapter W → Adapter W × Option ImapError)
      → Adapter W × Option ImapError
  or_retry (a, returned e) next = (a, e)
  or_retry (a, retry) next = next a

  -- The loop of `execute`, with the gate held.
  unfoldable pub execute_held : Adapter W → Adapter W × Option ImapError
  execute_held a = or_retry (on_session true (session_for_operation server a)) λ b.
      or_retry (on_session false (session_for_operation server b))
        λ c. (c, some (coded bridge_unreachable))

  execute_acquired : W × Answer (Unit {0}) → Adapter W → Adapter W × Option ImapError
  execute_acquired (w, answer) a = elim answer.reply [
    | err e ↦ (record a { world = w }, some (coded (map_error answer.context e)))
    | ok _ ↦ execute_held (record a { world = w })
  ]

  -- `execute`.
  unfoldable pub execute : Adapter W → Adapter W × Option ImapError
  unfolding execute_acquired
  execute a = execute_acquired (server.acquire a.world) a

-- `Close` of an adapter that is not nil, with the gate held; `logout` is the session's `Logout`.
unfoldable pub close_held :
    {W : Type 0} → (W → W × Answer (Unit {0})) → Adapter W → Adapter W × Option ImapError
close_held logout a =
    if a.is_closed
    then (a, none)
    else if a.has_session
    then (let (w, answer) = logout a.world in
        (
          record a { world = w; is_closed = true; has_session = false },
          elim answer.reply [ ok _ ↦ none | err e ↦ some e ],
        ))
    else (record a { is_closed = true }, none)
