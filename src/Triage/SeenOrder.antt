-- ===== src/Triage/SeenOrder.antt =====
-- The results of `SetSeen`: one for each UID, in input order, and none attempted behind a stop.
use croton_mcp.Base.{
  ℕ, Bool, true, false, Option, some, List, [], ◌∷◌, ◌++◌, ◌≡◌, refl, arith, ap, if◌then◌else◌,
}
use croton_mcp.Codes.{Code, imap_command}
use croton_mcp.Triage.Result.{
  TriageResult, Attempt, applied, refused, not_attempted, unknown, pending_results,
}
use croton_mcp.Triage.Seen.{absent_uid, abandon_uid, stored, store_seen, stop_or, store_all}
use croton_mcp.Triage.Server.{Server, Write, seen}
use croton_mcp.Triage.Source.{Adapter}

unfoldable pub uids_of : List TriageResult → List ℕ
uids_of [] = []
uids_of (r ∷ rs) = r.uid ∷ uids_of rs

abbrev pub is_final : Attempt → Bool
is_final unknown = true
is_final not_attempted = true
is_final _ = false

-- Behind an uncertain or unattempted result nothing was attempted.
abbrev pub Halts : List TriageResult → Type 0
Halts [] = Unit
Halts (r ∷ rs) = (is_final r.outcome ≡ true → rs ≡ pending_results (uids_of rs)) × Halts rs

-- Whether a result is that of a dispatched write.
abbrev pub dispatched : Attempt → Option Code → Bool
dispatched applied code = true
dispatched unknown code = true
dispatched refused (some imap_command) = true
dispatched _ _ = false

unfoldable pub stores_of : Bool → List TriageResult → List Write
stores_of b [] = []
stores_of b (r ∷ rs) =
    (if dispatched r.outcome r.code then seen r.uid b ∷ [] else []) ++ stores_of b rs

uids_of-pending : (uids : List ℕ) → uids_of (pending_results uids) ≡ uids
unfolding uids_of pending_results
uids_of-pending [] = refl
uids_of-pending (u ∷ uids) = ap (◌∷◌ u) (uids_of-pending uids)

Halts-pending : (uids : List ℕ) → Halts (pending_results uids)
unfolding pending_results
Halts-pending [] = tt
Halts-pending (u ∷ uids) = ((λ _. rw (uids_of-pending uids)), Halts-pending uids)

pub stores_of-pending : (b : Bool) (uids : List ℕ) → stores_of b (pending_results uids) ≡ []
unfolding stores_of pending_results
stores_of-pending b [] = refl
stores_of-pending b (u ∷ uids) = stores_of-pending b uids

module _ {W : Type 0} (server : Server W) where
  uid-store_seen : (uid : ℕ) (b : Bool) (a : Adapter W) → (store_seen server uid b a).1.uid ≡ uid
  unfolding store_seen absent_uid abandon_uid stored
  uid-store_seen uid b a = ground arith

  -- A stop goes with a result behind which nothing is attempted, and only with such.
  stop-store_seen :
      (uid : ℕ) (b : Bool) (a : Adapter W)
      → (store_seen server uid b a).2 ≡ is_final (store_seen server uid b a).1.outcome
  unfolding store_seen absent_uid abandon_uid stored
  stop-store_seen uid b a = ground arith

  uids_of-stop_or :
      (stop : Bool) (a : Adapter W) (uids : List ℕ) (rest : Adapter W × List TriageResult)
      → uids_of rest.1 ≡ uids
      → uids_of (stop_or server stop a uids rest).1 ≡ uids
  uids_of-stop_or true a uids rest e = uids_of-pending uids
  uids_of-stop_or false a uids rest e = e

  Halts-stop_or :
      (stop : Bool) (r : TriageResult) (a : Adapter W) (uids : List ℕ)
      (rest : Adapter W × List TriageResult)
      → stop ≡ is_final r.outcome
      → Halts rest.1
      → Halts (r ∷ (stop_or server stop a uids rest).1)
  Halts-stop_or true r a uids rest e h = ((λ _. rw (uids_of-pending uids)), Halts-pending uids)
  Halts-stop_or false r a uids rest e h = ((λ f. absurd (ground (arith, e, f))), h)

  pub uids_of-store_all :
      (b : Bool) (uids : List ℕ) (a : Adapter W) → uids_of (store_all server b uids a).1 ≡ uids
  unfolding store_all uids_of
  uids_of-store_all b [] a = refl
  uids_of-store_all b (uid ∷ uids) a =
      let step = store_seen server uid b a in
      let rest =
        uids_of-stop_or step.2 step.0 uids (store_all server b uids step.0)
          (uids_of-store_all b uids step.0) in
      rw (uid-store_seen uid b a, rest)

  pub Halts-store_all :
      (b : Bool) (uids : List ℕ) (a : Adapter W) → Halts (store_all server b uids a).1
  unfolding store_all
  Halts-store_all b [] a = tt
  Halts-store_all b (uid ∷ uids) a =
      let step = store_seen server uid b a in
      Halts-stop_or step.2 step.1 step.0 uids (store_all server b uids step.0)
        (stop-store_seen uid b a) (Halts-store_all b uids step.0)
