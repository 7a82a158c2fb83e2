-- ===== src/Triage/Sessions.antt =====
-- The retained session of the adapter, through `execute` and `Close`.
use croton_mcp.Base.{Bool, true, false, ◌&&◌, Option, none, some, ◌≡◌, arith, of_both, of_branches}
use croton_mcp.Triage.Execute.{
  invalidates, Attempted, retry, returned, after_operation, on_session, or_retry, execute_held,
  close_held,
}
use croton_mcp.Triage.Result.{Context, ImapError, coded, map_error, Reply, ok, err, Answer}
use croton_mcp.Triage.Server.{Server}
use croton_mcp.Triage.Source.{Adapter, can_replay, invalidate, session_for_operation}

-- A closed adapter retains no session.
abbrev pub IsTidy : {W : Type 0} → Adapter W → Type 0
IsTidy a = a.is_closed ≡ true → a.has_session ≡ false

-- A session is retained behind a success, and none behind an error that ends sessions.
abbrev pub Settled : {W : Type 0} → Adapter W → Option ImapError → Type 0
Settled a none = a.has_session ≡ true
Settled a (some e) = invalidates e.code_of ≡ true → a.has_session ≡ false

module _ {W : Type 0} (server : Server W) where
  -- A session comes of it, or an error and, for a tidy adapter, no session.
  abbrev Ready : Adapter W × Option (Context × ImapError) → Type 0
  Ready (a, none) = (a.has_session ≡ true) × (a.is_closed ≡ false)
  Ready (a, some e) = a.has_session ≡ false

  session_for_operation-Ready :
      (a : Adapter W)
      → IsTidy a
      → Ready (session_for_operation server a) × IsTidy (session_for_operation server a).0
  unfolding session_for_operation
  session_for_operation-Ready a t = ground (arith, t)

  invalidate-lost : (a : Adapter W) → (invalidate server a).has_session ≡ false
  unfolding invalidate
  invalidate-lost a = ground arith

  abbrev Holds : Adapter W × Attempted → Type 0
  Holds (a, retry) = a.has_session ≡ false
  Holds (a, returned e) = Settled a e × IsTidy a

  abbrev HoldsBoth : Adapter W × Option ImapError → Type 0
  HoldsBoth (a, e) = Settled a e × IsTidy a

  module _ (operation : W → W × Answer (Unit {0})) where
    after_operation-Holds :
        (first : Bool) (ctx : Context) (r : Reply (Unit {0})) (a : Adapter W)
        → a.has_session ≡ true
        → a.is_closed ≡ false
        → Holds (after_operation server operation first ctx r a)
    unfolding after_operation
    after_operation-Holds first ctx (ok _) a h c = (h, ground (arith, c))
    after_operation-Holds first ctx (err e) a h c =
        let lost = invalidate-lost a in
        of_both Holds (first && can_replay ctx e.code_of) _ _ lost (
          of_branches (λ (b : Adapter W). Settled b (some e) × IsTidy b) (invalidates e.code_of) _ _
            (λ i. ((λ _. lost), (λ _. lost))) (λ i. (ground (arith, i), ground (arith, c))))

    on_session-Holds :
        (first : Bool) (x : Adapter W × Option (Context × ImapError))
        → Ready x
        → IsTidy x.0
        → Holds (on_session server operation first x)
    unfolding on_session
    on_session-Holds first (a, some (ctx, e)) r t =
        let code = map_error ctx e in
        of_both (λ (x : Attempted). Holds (a, x)) (first && can_replay ctx (some code)) retry
          (returned (some (coded code))) r ((λ _. r), t)
    on_session-Holds first (a, none) r t = after_operation-Holds first _ _ _ r.0 r.1

    or_retry-Holds :
        (x : Adapter W × Attempted) (next : Adapter W → Adapter W × Option ImapError)
        → Holds x
        → ((b : Adapter W) → b.has_session ≡ false → HoldsBoth (next b))
        → HoldsBoth (or_retry server operation x next)
    or_retry-Holds (a, returned e) next h k = h
    or_retry-Holds (a, retry) next h k = k a h

    -- Whatever the server and the operation do, an execution on a tidy adapter leaves it tidy, with a
    -- session retained where it returns no error, and none where its error is one that ends sessions.
    pub execute_held-Settled :
        (a : Adapter W)
        → IsTidy a
        → let out = execute_held server operation a in Settled out.0 out.1 × IsTidy out.0
    unfolding execute_held
    execute_held-Settled a t =
        let session = session_for_operation-Ready a t in
        or_retry-Holds _ _
          (on_session-Holds true (session_for_operation server a) session.0 session.1)
          λ b h.
            let again = session_for_operation-Ready b (λ _. h) in
            or_retry-Holds _ _
              (on_session-Holds false (session_for_operation server b) again.0 again.1)
              λ c i. ((λ _. i), (λ _. i))

-- Closing retains no session, on a tidy adapter, and closing again changes nothing and reports nothing.
pub close_held-closed :
    {W : Type 0} (logout : W → W × Answer (Unit {0})) (a : Adapter W)
    → IsTidy a
    → let out = close_held logout a in
      (out.0.is_closed ≡ true)
      × (out.0.has_session ≡ false)
      × (close_held logout out.0 ≡ (out.0, none))
unfolding close_held
close_held-closed logout a t = ground (arith, t)
