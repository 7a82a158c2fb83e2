-- ===== src/Triage/Source.antt =====
-- bridge/bridge.go, bridge/seen.go: the retained session of the adapter, and the source of a triage
-- request. One request at a time holds the gate, so the retained session is the only one.
use croton_mcp.Base.{
  ℕ, Bool, true, false, ◌&&◌, ◌||◌, Option, none, some, List, [], ◌∷◌, ltb, ◌==◌, if◌then◌else◌,
  Bytes, length,
}
use croton_mcp.Codes.{
  Code, bridge_unreachable, command_timed_out, operation_canceled, bounds_exceeded, imap_protocol,
  adapter_closed, stale_message_id, invalid_request,
}
use croton_mcp.Text.{is_empty}
use croton_mcp.Triage.Result.{
  Context, ImapError, coded, map_error, ok, err, Answer, Result, done, failed,
}
use croton_mcp.Triage.Server.{Server}

abbrev pub max_mailbox_name_bytes : ℕ
max_mailbox_name_bytes = 512

abbrev pub max_triage_uids : ℕ
max_triage_uids = 50

-- The fields of `Adapter` that a request changes, with the world that its session talks to.
pub record Adapter (W : Type 0) : Type 0 where
  pub world : W
  pub has_session : Bool
  pub is_closed : Bool

unfoldable pub mem_uid : ℕ → List ℕ → Bool
mem_uid uid [] = false
mem_uid uid (u ∷ us) = u == uid || mem_uid uid us

-- The loop of `validateTriageRequest`, with the UIDs already seen.
unfoldable pub uids_valid : List ℕ → List ℕ → Bool
unfolding mem_uid
uids_valid before [] = true
uids_valid before (uid ∷ uids) =
    let rest = uids_valid (uid ∷ before) uids in
    if uid == 0 then false else if mem_uid uid before then false else rest

unfoldable pub validate_triage_request : Bytes → ℕ → List ℕ → Option Code
unfolding uids_valid
validate_triage_request mailbox uid_validity uids =
    if is_empty mailbox || uid_validity == 0 || length uids == 0
    then some invalid_request
    else if ltb max_mailbox_name_bytes (length mailbox) || ltb max_triage_uids (length uids)
    then some bounds_exceeded
    else if uids_valid [] uids
    then none
    else some invalid_request

abbrev pub is_unreachable_code : Option Code → Bool
is_unreachable_code (some bridge_unreachable) = true
is_unreachable_code _ = false

-- `canReplay`, on an error with this code.
abbrev pub can_replay : Context → Option Code → Bool
can_replay ctx code = elim ctx.canceled [ none ↦ is_unreachable_code code | some c ↦ false ]

abbrev pub invalidates_session : Code → Bool
invalidates_session bridge_unreachable = true
invalidates_session command_timed_out = true
invalidates_session operation_canceled = true
invalidates_session bounds_exceeded = true
invalidates_session imap_protocol = true
invalidates_session _ = false

-- A session, or an error in its context; the flag says whether a session came beside the error.
pub data Opened : Type 0 where
  opened : ℕ → Opened
  broken : Bool → Context → ImapError → Opened

module _ {W : Type 0} (server : Server W) where
  -- `invalidate` of the retained session.
  unfoldable pub invalidate : Adapter W → Adapter W
  invalidate a =
      if a.has_session then record a { world = server.abort a.world; has_session = false } else a

  abbrev connected : Adapter W → W × Answer (Unit {0}) → Adapter W × Option (Context × ImapError)
  connected a (w, answer) = elim answer.reply [
    | ok _ ↦ (record a { world = w; has_session = true }, none)
    | err e ↦ (record a { world = w }, some (answer.context, e))
  ]

  -- `sessionForOperation`.
  unfoldable pub session_for_operation : Adapter W → Adapter W × Option (Context × ImapError)
  session_for_operation a =
      if a.is_closed
      then (a, some (server.now a.world, coded adapter_closed))
      else if a.has_session
      then (a, none)
      else connected a (server.connect a.world)

  abbrev selected : Adapter W → W × Answer ℕ → Adapter W × Opened
  selected a (w, answer) = elim answer.reply [
    | ok validity ↦ (record a { world = w }, opened validity)
    | err e ↦ (record a { world = w }, broken true answer.context e)
  ]

  abbrev select_on : Bytes → Adapter W × Option (Context × ImapError) → Adapter W × Opened
  select_on mailbox (a, some (ctx, e)) = (a, broken false ctx e)
  select_on mailbox (a, none) =
      if server.is_writer
      then selected a (server.select_source mailbox a.world)
      else (a, broken true (server.now a.world) (coded imap_protocol))

  -- `selectTriageSource`.
  unfoldable pub select_triage_source : Bytes → Adapter W → Adapter W × Opened
  unfolding session_for_operation
  select_triage_source mailbox a = select_on mailbox (session_for_operation a)

  abbrev generation : ℕ → ℕ → Result (Unit {0})
  generation uid_validity validity =
      if validity == uid_validity then done tt else failed stale_message_id

  -- One attempt of `openTriageSource`: `none` where it is tried again. The flag is `attempt == 0`.
  abbrev pub attempt : Bool → ℕ → Adapter W × Opened → Adapter W × Option (Result (Unit {0}))
  attempt first uid_validity (a, opened validity) = (a, some (generation uid_validity validity))
  attempt first uid_validity (a, broken with_session ctx e) =
      let code = map_error ctx e in
      let retry = first && can_replay ctx (some code) in
      let a' = if with_session && (retry || invalidates_session code) then invalidate a else a in
      (a', if retry then none else some (failed code))

  abbrev pub or_again :
      Adapter W × Option (Result (Unit {0}))
      → (Adapter W → Adapter W × Result (Unit {0}))
      → Adapter W × Result (Unit {0})
  or_again (a, some r) again = (a, r)
  or_again (a, none) again = again a

  -- `openTriageSource`: two attempts at most.
  unfoldable pub open_triage_source : Bytes → ℕ → Adapter W → Adapter W × Result (Unit {0})
  unfolding select_triage_source invalidate
  open_triage_source mailbox uid_validity a =
      or_again (attempt true uid_validity (select_triage_source mailbox a)) λ b.
        or_again (attempt false uid_validity (select_triage_source mailbox b))
          λ c. (c, failed bridge_unreachable)
