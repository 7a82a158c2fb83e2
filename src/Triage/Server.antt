-- ===== src/Triage/Server.antt =====
-- The interfaces of the bridge adapter to its session: `sessionFactory`, `readSession`,
-- `seenSession` and `moveSession`, over a state of the outside world.
use croton_mcp.Base.{ℕ, Bool, List, [], ◌∷◌, ◌++◌, Bytes}
use croton_mcp.Triage.Result.{Context, Answer}

-- One entry of a mailbox listing; the delimiter 0 is NIL.
pub record ListedMailbox : Type 0 where
  pub name : Bytes
  pub delimiter : ℕ
  pub attributes : List Bytes

pub record Server (W : Type 0) : Type 0 where
  -- `acquire`, where `ctx.Done()` and the gate race.
  pub acquire : W → W × Answer (Unit {0})
  -- The context of the operation that is about to run.
  pub now : W → Context
  -- `factory`, which opens and authenticates a session.
  pub connect : W → W × Answer (Unit {0})
  pub abort : W → W
  -- Whether the session is a `seenSession`, and a `moveSession`.
  pub is_writer : Bool
  pub is_mover : Bool
  -- `SelectSource`, by the UIDVALIDITY of its snapshot.
  pub select_source : Bytes → W → W × Answer ℕ
  -- `UIDSearchWindow` over one UID with the limit 1.
  pub search : ℕ → W → W × Answer (List ℕ)
  pub store_seen : ℕ → Bool → W → W × Answer (Unit {0})
  pub supports_move : W → Bool
  pub list_mailboxes : ℕ → W → W × Answer (List ListedMailbox)
  pub move_uid : ℕ → Bytes → W → W × Answer (Unit {0})

-- The writes that a session may be asked for.
pub data Write : Type 0 where
  seen : ℕ → Bool → Write
  moved : ℕ → Bytes → Write

-- The same server, which also records every write that is dispatched to it.
unfoldable pub logged : {W : Type 0} → Server W → Server (W × List Write)
logged s = record {
  acquire = λ w. let a = s.acquire w.0 in ((a.0, w.1), a.1);
  now = λ w. s.now w.0;
  connect = λ w. let a = s.connect w.0 in ((a.0, w.1), a.1);
  abort = λ w. (s.abort w.0, w.1);
  is_writer = s.is_writer;
  is_mover = s.is_mover;
  select_source = λ m w. let a = s.select_source m w.0 in ((a.0, w.1), a.1);
  search = λ u w. let a = s.search u w.0 in ((a.0, w.1), a.1);
  store_seen = λ u b w. let a = s.store_seen u b w.0 in ((a.0, w.1 ++ seen u b ∷ []), a.1);
  supports_move = λ w. s.supports_move w.0;
  list_mailboxes = λ n w. let a = s.list_mailboxes n w.0 in ((a.0, w.1), a.1);
  move_uid = λ u d w. let a = s.move_uid u d w.0 in ((a.0, w.1 ++ moved u d ∷ []), a.1);
}
