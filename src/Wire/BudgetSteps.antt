-- ===== src/Wire/BudgetSteps.antt =====
-- The budget under any interleaving of commands with the one reader of the connection.
use croton_mcp.Base.{
  ℕ, ◌-◌, ◌≤◌, true, Option, none, some, Bytes, length, pos, ◌≡◌, ◌≢◌, refl, sym, subst, ◌∙◌, arith,
}
use croton_mcp.Wire.Budget.{
  Budget, new_budget, begin, start_search, check_search_window, end_budget, end_search, asks,
  refuses, panics, request, request_within, receive, max_search_response_bytes,
  max_control_response_bytes, fetch_input_budget,
}
use croton_mcp.Wire.Observer.{Window}
use croton_mcp.Quarantine.State.{max_session_bytes}

-- The buffer of the client library's reader, `bufio`'s default size.
abbrev pub reader_bytes : ℕ
reader_bytes = 4096

-- The connection, and the read that is in flight.
abbrev pub State : Type 0
State = Budget × Option ℕ

-- No read is in flight that asks for more than that buffer. The library reads more at once only for a
-- literal, on behalf of the command that waits for it, so that no budget begins or ends meanwhile.
abbrev pub IsShort : Option ℕ → Type 0
IsShort none = Unit
IsShort (some n) = n ≤ reader_bytes

-- One step: a command begins or ends its budget while no long read is in flight, or goes on with its
-- search, or the reader begins or ends a read of any size.
pub data Step : State → State → Type 0 where
  begins :
      (b : Budget) (r : Option ℕ) → IsShort r → Step (b, r) (begin max_control_response_bytes b, r)
  fetches :
      (b : Budget) (r : Option ℕ) (limit count : ℕ)
      → IsShort r
      → 1 ≤ count
      → Step (b, r) (begin (fetch_input_budget limit count) b, r)
  fetches_structure :
      (b : Budget) (r : Option ℕ) → IsShort r → Step (b, r) (begin max_session_bytes b, r)
  searches :
      (b : Budget) (r : Option ℕ) → IsShort r → Step (b, r) (begin max_search_response_bytes b, r)
  watches : (b : Budget) (r : Option ℕ) → Step (b, r) (start_search b, r)
  checks : (b : Budget) (r : Option ℕ) (w : Window) → Step (b, r) (check_search_window w b, r)
  ends : (b : Budget) (r : Option ℕ) → IsShort r → Step (b, r) ((end_budget b).0, r)
  ends_search : (b : Budget) (r : Option ℕ) → IsShort r → Step (b, r) ((end_search b).0, r)
  reads : (b : Budget) (size n : ℕ) → request size b ≡ asks n → Step (b, none) (b, some n)
  stops : (b c : Budget) (size : ℕ) → request size b ≡ refuses c → Step (b, none) (c, none)
  returns : (b : Budget) (n : ℕ) (s : Bytes) → length s ≤ n → Step (b, some n) (receive s b, none)

pub data Reached : State → Type 0 where
  start : Reached (new_budget max_control_response_bytes, none)
  then_step : (s t : State) → Reached s → Step s t → Reached t

-- What a read in flight may still bring is within what remains.
abbrev Fits : Option ℕ → ℕ → Type 0
Fits none r = Unit
Fits (some n) r = n ≤ r

pub record IsFunded (s : State) : Type 0 where
  pub left : ℕ
  pub is_left : s.0.remaining ≡ pos left
  pub active : s.0.is_active ≡ true
  pub idle : reader_bytes ≤ s.0.idle_limit
  pub fits : Fits s.1 left

Fits-limit : (r : Option ℕ) (limit : ℕ) → reader_bytes ≤ limit → IsShort r → Fits r limit
Fits-limit none limit k f = tt
Fits-limit (some n) limit k f = omega (arith, f, k)

request_within-Fits :
    (n size : ℕ) (b : Budget) (m : ℕ) → request_within (pos n) size b ≡ asks m → m ≤ n
unfolding request_within
request_within-Fits n size b m e = ground (arith, e)

request_within-refuses :
    (n size : ℕ) (b c : Budget)
    → request_within (pos n) size b ≡ refuses c
    → c ≡ record b { is_exceeded = true }
unfolding request_within
request_within-refuses n size b c e = ground (arith, e)

request_within-panics : (n size : ℕ) (b : Budget) → request_within (pos n) size b ≢ panics
unfolding request_within
request_within-panics n size b e = absurd (ground (arith, e))

receive-left :
    (s : Bytes) (b : Budget) (left : ℕ)
    → b.is_active ≡ true
    → b.remaining ≡ pos left
    → length s ≤ left
    → ((receive s b).remaining ≡ pos (left - length s))
      × ((receive s b).is_active ≡ true)
      × ((receive s b).idle_limit ≡ b.idle_limit)
unfolding receive
receive-left s b left a e k = ground (arith, a, e, k)

request-funded :
    (s : State) (h : IsFunded s) (size : ℕ)
    → request size s.0 ≡ request_within (pos h.left) size s.0
unfolding request
request-funded s h size = rw (h.active, h.is_left)

request-asks : (s : State) (h : IsFunded s) (size n : ℕ) → request size s.0 ≡ asks n → n ≤ h.left
request-asks s h size n e =
    request_within-Fits h.left size s.0 n (sym (request-funded s h size) ∙ e)

request-refuses :
    (s : State) (h : IsFunded s) (size : ℕ) (c : Budget)
    → request size s.0 ≡ refuses c
    → c ≡ record (s.0) { is_exceeded = true }
request-refuses s h size c e =
    request_within-refuses h.left size s.0 c (sym (request-funded s h size) ∙ e)

IsFunded-Step : {s t : State} → Step s t → IsFunded s → IsFunded t
IsFunded-Step (begins b r k) h = record {
  left = max_control_response_bytes;
  is_left = refl;
  active = refl;
  idle = h.idle;
  fits = Fits-limit r _ (omega arith) k;
}
IsFunded-Step (fetches b r limit count k c) h = record {
  left = fetch_input_budget limit count;
  is_left = refl;
  active = refl;
  idle = h.idle;
  fits = Fits-limit r _ (grind (arith, c)) k;
}
IsFunded-Step (fetches_structure b r k) h = record {
  left = max_session_bytes;
  is_left = refl;
  active = refl;
  idle = h.idle;
  fits = Fits-limit r _ (omega arith) k;
}
IsFunded-Step (searches b r k) h = record {
  left = max_search_response_bytes;
  is_left = refl;
  active = refl;
  idle = h.idle;
  fits = Fits-limit r _ (omega arith) k;
}
IsFunded-Step (watches b r) h = record {
  left = h.left;
  is_left = h.is_left;
  active = h.active;
  idle = h.idle;
  fits = h.fits;
}
IsFunded-Step (checks b r w) h = record {
  left = h.left;
  is_left = h.is_left;
  active = h.active;
  idle = h.idle;
  fits = h.fits;
}
IsFunded-Step (ends b r k) h = record {
  left = b.idle_limit;
  is_left = refl;
  active = refl;
  idle = h.idle;
  fits = Fits-limit r _ h.idle k;
}
IsFunded-Step (ends_search b r k) h = record {
  left = b.idle_limit;
  is_left = refl;
  active = refl;
  idle = h.idle;
  fits = Fits-limit r _ h.idle k;
}
IsFunded-Step (reads b size n e) h = record {
  left = h.left;
  is_left = h.is_left;
  active = h.active;
  idle = h.idle;
  fits = request-asks (b, none) h size n e;
}
IsFunded-Step (stops b c size e) h =
    subst (λ (d : Budget). IsFunded (d, none)) (sym (request-refuses (b, none) h size c e))
      (record { left = h.left; is_left = h.is_left; active = h.active; idle = h.idle; fits = tt })
IsFunded-Step (returns b n s k) h =
    let got = receive-left s b h.left h.active h.is_left (omega (arith, k, h.fits)) in
    record {
      left = h.left - length s;
      is_left = got.0;
      active = got.1;
      idle = omega (arith, got.2, h.idle);
      fits = tt;
    }

Reached-IsFunded : {s : State} → Reached s → IsFunded s
Reached-IsFunded start = record {
  left = max_control_response_bytes;
  is_left = refl;
  active = refl;
  idle = omega arith;
  fits = tt;
}
Reached-IsFunded (then_step s t r k) = IsFunded-Step k (Reached-IsFunded r)

-- Whatever order commands and reads of any size come in, where no budget begins or ends while a read of
-- more than the library's buffer is in flight: no read panics on a negative budget, and one that is let
-- through asks for no more than what remains of the budget.
pub Reached-request :
    (s : State) (size : ℕ)
    → Reached s
    → (request size s.0 ≢ panics)
      × ((n : ℕ) → request size s.0 ≡ asks n → (left : ℕ) × (s.0.remaining ≡ pos left) × (n ≤ left))
Reached-request s size r =
    let h = Reached-IsFunded r in
    (
      (λ e. request_within-panics h.left size s.0 (sym (request-funded s h size) ∙ e)),
      λ n e. (h.left, h.is_left, request-asks s h size n e),
    )
