-- ===== src/Triage/SeenWrites.antt =====
-- The STOREs of `SetSeen`: those that its results account for, and no others.
use croton_mcp.Base.{
  ℕ, Bool, true, false, Option, none, some, List, [], ◌∷◌, ◌++◌, ◌≡◌, refl, arith, ◌∙◌, ap, sym,
  append_assoc, append-nil, of_both, if◌then◌else◌, Bytes,
}
use croton_mcp.Codes.{Code, bridge_unreachable}
use croton_mcp.Triage.Result.{
  map_error, Context, ImapError, Reply, ok, err, Result, done, failed, TriageResult,
}
use croton_mcp.Triage.Seen.{
  is_stale, absent_uid, abandon_uid, stored, store_found, store_seen, stop_or, store_all,
  is_imap_command, store_opened, store_acquired, set_seen,
}
use croton_mcp.Triage.Server.{Server, Write, seen, logged}
use croton_mcp.Triage.Source.{
  attempt, or_again, Opened, opened, broken, Adapter, invalidate, session_for_operation,
  select_triage_source, open_triage_source, validate_triage_request,
}
use croton_mcp.Triage.SeenOrder.{
  uids_of, Halts, dispatched, stores_of, stores_of-pending, uids_of-store_all, Halts-store_all,
}

-- What a session on a recording server has been asked to write.
abbrev pub log : {W : Type 0} → Adapter (W × List Write) → List Write
log a = a.world.1

-- The writes that a result accounts for.
abbrev written_of : Bool → TriageResult → List Write
written_of b r = if dispatched r.outcome r.code then seen r.uid b ∷ [] else []

module _ {W : Type 0} (server : Server W) where
  log-invalidate : (a : Adapter (W × List Write)) → log (invalidate (logged server) a) ≡ log a
  unfolding invalidate logged
  log-invalidate a =
      of_both (λ (x : Adapter (W × List Write)). log x ≡ log a) a.has_session _ _ refl refl

  log-absent_uid :
      (uid : ℕ) (b : Bool) (ctx : Context) (e : ImapError) (a : Adapter (W × List Write))
      → let step = absent_uid (logged server) uid ctx e a in
        log step.0 ≡ log a ++ written_of b step.1
  unfolding absent_uid abandon_uid
  log-absent_uid uid b ctx e a =
      of_both
        (λ (step : Adapter (W × List Write) × TriageResult × Bool).
          log step.0 ≡ log a ++ written_of b step.1)
        (is_stale e.code_of) _ _ (sym (append-nil (log a)))
        (log-invalidate a ∙ sym (append-nil (log a)))

  log-stored :
      (uid : ℕ) (b : Bool) (ctx : Context) (answer : Reply Unit) (before : List Write)
      (a : Adapter (W × List Write))
      → log a ≡ before ++ seen uid b ∷ []
      → let step = stored (logged server) uid ctx answer a in
        log step.0 ≡ before ++ written_of b step.1
  unfolding stored
  log-stored uid b ctx (ok _) before a h = h
  log-stored uid b ctx (err e) before a h =
      of_both
        (λ (step : Adapter (W × List Write) × TriageResult × Bool).
          log step.0 ≡ before ++ written_of b step.1)
        (is_imap_command (map_error ctx e)) _ _ h (log-invalidate a ∙ h)

  log-store_found :
      (uid : ℕ) (b : Bool) (ctx : Context) (e : Option ImapError) (a : Adapter (W × List Write))
      → let step = store_found (logged server) uid b ctx e a in
        log step.0 ≡ log a ++ written_of b step.1
  unfolding store_found logged
  log-store_found uid b ctx (some e) a = log-absent_uid uid b ctx e a
  log-store_found uid b ctx none a = log-stored uid b _ _ (log a) _ refl

  log-store_seen :
      (uid : ℕ) (b : Bool) (a : Adapter (W × List Write))
      → let step = store_seen (logged server) uid b a in log step.0 ≡ log a ++ written_of b step.1
  unfolding store_seen logged
  log-store_seen uid b a = log-store_found uid b _ _ _

  log-stop_or :
      (b stop : Bool) (a : Adapter (W × List Write)) (uids : List ℕ)
      (rest : Adapter (W × List Write) × List TriageResult)
      → log rest.0 ≡ log a ++ stores_of b rest.1
      → let out = stop_or (logged server) stop a uids rest in log out.0 ≡ log a ++ stores_of b out.1
  log-stop_or b true a uids rest e = rw (stores_of-pending b uids, append-nil)
  log-stop_or b false a uids rest e = e

  log-store_all :
      (b : Bool) (uids : List ℕ) (a : Adapter (W × List Write))
      → let out = store_all (logged server) b uids a in log out.0 ≡ log a ++ stores_of b out.1
  unfolding store_all stores_of
  log-store_all b [] a = sym (append-nil (log a))
  log-store_all b (uid ∷ uids) a =
      let step = store_seen (logged server) uid b a in
      let rest =
        log-stop_or b step.2 step.0 uids (store_all (logged server) b uids step.0)
          (log-store_all b uids step.0) in
      let later =
        stores_of b
          (stop_or (logged server) step.2 step.0 uids
            (store_all (logged server) b uids step.0)).1 in
      rest ∙ ap (λ l. l ++ later) (log-store_seen uid b a) ∙ append_assoc (log a) _ later

  log-session_for_operation :
      (a : Adapter (W × List Write)) → log (session_for_operation (logged server) a).0 ≡ log a
  unfolding session_for_operation logged
  log-session_for_operation a = ground arith

  log-select_triage_source :
      (mailbox : Bytes) (a : Adapter (W × List Write))
      → log (select_triage_source (logged server) mailbox a).0 ≡ log a
  unfolding select_triage_source logged
  log-select_triage_source mailbox a = ground (arith, log-session_for_operation a)

  log-attempt :
      (first : Bool) (v : ℕ) (x : Adapter (W × List Write) × Opened)
      → log (attempt (logged server) first v x).0 ≡ log x.0
  log-attempt first v (a, opened validity) = refl
  log-attempt first v (a, broken with_session ctx e) =
      of_both (λ (x : Adapter (W × List Write)). log x ≡ log a) _ _ _ (log-invalidate a) refl

  log-or_again :
      (x : Adapter (W × List Write) × Option (Result Unit))
      (again : Adapter (W × List Write) → Adapter (W × List Write) × Result Unit)
      → ((b : Adapter (W × List Write)) → log (again b).0 ≡ log b)
      → log (or_again (logged server) x again).0 ≡ log x.0
  log-or_again (a, some r) again h = refl
  log-or_again (a, none) again h = h a

  log-open_triage_source :
      (mailbox : Bytes) (v : ℕ) (a : Adapter (W × List Write))
      → log (open_triage_source (logged server) mailbox v a).0 ≡ log a
  unfolding open_triage_source
  log-open_triage_source mailbox v a =
      let select = log-select_triage_source mailbox in
      let turn = λ (first : Bool) (b : Adapter (W × List Write)).
        attempt (logged server) first v (select_triage_source (logged server) mailbox b) in
      let give_up : Adapter (W × List Write) → Adapter (W × List Write) × Result Unit =
        λ c. (c, failed bridge_unreachable) in
      log-or_again (turn true a) (λ b. or_again (logged server) (turn false b) give_up)
        (λ b.
          log-or_again (turn false b) give_up (λ c. refl)
          ∙ log-attempt false v (select_triage_source (logged server) mailbox b)
          ∙ select b)
      ∙ log-attempt true v (select_triage_source (logged server) mailbox a)
      ∙ select a

-- The writes of a whole request: those that its results account for, and none where it fails.
abbrev written_by : Bool → Result (List TriageResult) → List Write
written_by b (done rs) = stores_of b rs
written_by b (failed code) = []

abbrev IsOrdered : List ℕ → Result (List TriageResult) → Type 0
IsOrdered uids (failed code) = Unit
IsOrdered uids (done rs) = (uids_of rs ≡ uids) × Halts rs

-- What a request comes to: ordered results, and a log that grew by what they account for.
abbrev pub Accounted :
    {W : Type 0}
    → List ℕ
    → Bool
    → List Write
    → Adapter (W × List Write) × Result (List TriageResult)
    → Type 0
Accounted uids b before (a, r) = IsOrdered uids r × (log a ≡ before ++ written_by b r)

module _ {W : Type 0} (server : Server W) where
  store_opened-Accounted :
      (b : Bool) (uids : List ℕ) (x : Adapter (W × List Write) × Result Unit) (before : List Write)
      → log x.0 ≡ before
      → Accounted uids b before (store_opened (logged server) b uids x)
  unfolding store_opened
  store_opened-Accounted b uids (a, failed code) before h = (tt, h ∙ sym (append-nil before))
  store_opened-Accounted b uids (a, done _) before h = (
    (uids_of-store_all (logged server) b uids a, Halts-store_all (logged server) b uids a),
    log-store_all server b uids a
        ∙ ap (λ l. l ++ stores_of b (store_all (logged server) b uids a).1) h,
  )

  store_acquired-Accounted :
      (mailbox : Bytes) (v : ℕ) (uids : List ℕ) (b : Bool) (w : W × List Write) (ctx : Context)
      (r : Reply Unit) (a : Adapter (W × List Write))
      → Accounted uids b w.1 (
          store_acquired
            (logged server)
            mailbox
            v
            uids
            b
            (w, record { context = ctx; reply = r })
            a)
  unfolding store_acquired
  store_acquired-Accounted mailbox v uids b w ctx (err e) a = (tt, sym (append-nil w.1))
  store_acquired-Accounted mailbox v uids b w ctx (ok _) a =
      store_opened-Accounted b uids _ w.1 (log-open_triage_source server mailbox v _)

  -- The results of a request name the UIDs asked for in their order, nothing is attempted behind a
  -- result that is unknown or not attempted, and the STOREs that the session was sent during the
  -- request are exactly those that the results report as dispatched, in order; a request that fails
  -- sent none. This holds for any server and any answers of it.
  pub set_seen-Accounted :
      (mailbox : Bytes) (v : ℕ) (uids : List ℕ) (b : Bool) (a : Adapter (W × List Write))
      → Accounted uids b (log a) (set_seen (logged server) mailbox v uids b a)
  unfolding set_seen logged
  set_seen-Accounted mailbox v uids b a =
      let run = λ (o : Option Code).
        elim o as (λ _. Adapter (W × List Write) × Result (List TriageResult)) [
          | some code ↦ (a, failed code)
          | none ↦
              store_acquired (logged server) mailbox v uids b ((logged server).acquire a.world) a
        ] in
      elim (validate_triage_request mailbox v uids)
        as (λ o. Accounted {W = W} uids b (log a) (run o)) [
          | some code ↦ (tt, sym (append-nil (log a)))
          | none ↦ store_acquired-Accounted mailbox v uids b _ _ _ a
        ]
