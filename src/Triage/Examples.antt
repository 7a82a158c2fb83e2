-- ===== src/Triage/Examples.antt =====
-- Runs of the triage requests on a server of three messages.
use croton_mcp.Base.{
  Bytes, ℕ, ◌≡◌, refl, true, false, none, some, List, [], ◌∷◌, ◌==◌, if◌then◌else◌, codes, arith,
}
use croton_mcp.Codes.{message_not_found, imap_command, bridge_unreachable}
use croton_mcp.Triage.Result.{
  Context, ImapError, map_error, Reply, ok, err, Answer, done, applied, refused, unknown,
  pending_results, coded,
}
use croton_mcp.Triage.Seen.{
  uid_error, result, absent_uid, abandon_uid, stored, store_seen, store_all, set_seen,
}
use croton_mcp.Triage.SeenWrites.{Accounted, set_seen-Accounted}
use croton_mcp.Text.{equal, equal_fold, has_prefix}
use croton_mcp.Triage.Destination.{
  resolve_move_destination, sole_match, identity_matches, destination_of, has_attribute,
}
use croton_mcp.Triage.DestinationSound.{IsSole, IsAllowed, resolve_move_destination-IsAllowed}
use croton_mcp.Triage.Execute.{execute_held, on_session, after_operation, close_held}
use croton_mcp.Triage.Sessions.{Settled, IsTidy, execute_held-Settled, close_held-closed}
use croton_mcp.Triage.Server.{Server, ListedMailbox, Write, seen, logged}
use croton_mcp.Triage.Source.{
  Adapter, validate_triage_request, invalidate, session_for_operation, select_triage_source,
  open_triage_source,
}

abbrev running : Context
running = record { canceled = none; past_deadline = false }

abbrev yes : {A : Type 0} → A → Answer A
yes x = record { context = running; reply = ok x }

abbrev refusal : ImapError
refusal = record {
  code_of = none;
  is_authentication = false;
  is_unreachable = false;
  is_imap = true;
}

abbrev lost : ImapError
lost = record { code_of = none; is_authentication = false; is_unreachable = true; is_imap = false }

abbrev store_answer : ℕ → Reply (Unit {0})
store_answer uid = if uid == 3 then err refusal else if uid == 5 then err lost else ok tt

-- UIDVALIDITY is 9; the UID 4 is gone; the STORE of 3 is refused, and that of 5 loses the session.
abbrev mail : Server (Unit {0})
mail = record {
  acquire = λ w. (w, yes tt);
  now = λ w. running;
  connect = λ w. (w, yes tt);
  abort = λ w. w;
  is_writer = true;
  is_mover = true;
  select_source = λ m w. (w, yes 9);
  search = λ u w. (w, yes (if u == 4 then [] else u ∷ []));
  store_seen = λ u b w. (w, record { context = running; reply = store_answer u });
  supports_move = λ w. true;
  list_mailboxes = λ n w. (w, yes []);
  move_uid = λ u d w. (w, yes tt);
}

abbrev start : Adapter (Unit {0} × List Write)
start = record { world = (tt, []); has_session = false; is_closed = false }

stores : (set_seen (logged mail) (codes "INBOX") 9 (2 ∷ 3 ∷ 4 ∷ 5 ∷ 6 ∷ []) true start) ≡ (
  record start { world = (tt, seen 2 true ∷ seen 3 true ∷ seen 5 true ∷ []) },
  done (
      result 2 none applied
      ∷ result 3 (some imap_command) refused
      ∷ result 4 (some message_not_found) refused
      ∷ result 5 (some bridge_unreachable) unknown
      ∷ pending_results (6 ∷ [])),
)
unfolding set_seen store_all store_seen stored absent_uid abandon_uid uid_error map_error
    open_triage_source select_triage_source session_for_operation validate_triage_request logged
    invalidate pending_results
stores = refl

set_seen-Accounted_example :
    Accounted
      (2 ∷ 3 ∷ 4 ∷ 5 ∷ 6 ∷ [])
      true
      []
      (set_seen (logged mail) (codes "INBOX") 9 (2 ∷ 3 ∷ 4 ∷ 5 ∷ 6 ∷ []) true start)
set_seen-Accounted_example =
    set_seen-Accounted mail (codes "INBOX") 9 (2 ∷ 3 ∷ 4 ∷ 5 ∷ 6 ∷ []) true start

abbrev idle_adapter : Adapter (Unit {0})
idle_adapter = record { world = tt; has_session = true; is_closed = false }

idle_adapter-IsTidy : IsTidy idle_adapter
idle_adapter-IsTidy = λ e. absurd (ground (arith, e))

-- An operation that finds the connection lost, twice.
abbrev lose : Unit {0} → Unit {0} × Answer (Unit {0})
lose w = (w, record { context = running; reply = err (coded bridge_unreachable) })

loses :
    execute_held mail lose idle_adapter
    ≡ (record idle_adapter { has_session = false }, some (coded bridge_unreachable))
unfolding execute_held on_session after_operation session_for_operation invalidate
loses = refl

execute_held-Settled_example :
    let out = execute_held mail lose idle_adapter in Settled out.0 out.1 × IsTidy out.0
execute_held-Settled_example = execute_held-Settled mail lose idle_adapter idle_adapter-IsTidy

close_held-closed_example :
    let out = close_held lose idle_adapter in
    (out.0.is_closed ≡ true) × (out.0.has_session ≡ false) × (close_held lose out.0 ≡ (out.0, none))
close_held-closed_example = close_held-closed lose idle_adapter idle_adapter-IsTidy

abbrev entry : Bytes → ListedMailbox
entry name = record { name = name; delimiter = b'/'; attributes = [] }

abbrev folders : List ListedMailbox
folders = entry (codes "INBOX") ∷ entry (codes "Folders/Bills") ∷ entry (codes "Labels/Old") ∷ []

resolves : resolve_move_destination folders (codes "Folders/Bills") ≡ some (codes "Folders/Bills")
unfolding resolve_move_destination sole_match identity_matches equal_fold equal destination_of
    has_attribute has_prefix
resolves = refl

resolve_move_destination-IsAllowed_example :
    (m : ListedMailbox) × IsSole (λ n. identity_matches (codes "Folders/Bills") n.name) folders m
    × IsAllowed m (codes "Folders/Bills")
resolve_move_destination-IsAllowed_example =
    resolve_move_destination-IsAllowed folders (codes "Folders/Bills") (codes "Folders/Bills")
      resolves
