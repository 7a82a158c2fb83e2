-- ===== src/Gate/Phases.antt =====
-- The order of the handshakes, as what is seen of the requests must keep it, and the state that keeps it.
use croton_mcp.Base.{
  ℕ, Bool, true, false, Option, none, some, List, [], ◌∷◌, ◌==◌, if◌then◌else◌, ◌≡◌, refl, ap,
  subst, arith, of_branches,
}
use croton_mcp.Gate.Ensure.{
  Place, entering, waiting, holding, negotiating, storing, leaving, admitted, commanded, refused,
  Event, asked, answered, ran, System, update,
}

-- How far the handshakes are: none in flight, one of this request in flight, or one has succeeded.
pub data Phase : Type 0 where
  idle done : Phase
  busy : ℕ → Phase

-- After one more event; `none` where the event is out of order.
abbrev pub after_event : Event → Option Phase → Option Phase
after_event (asked i) (some idle) = some (busy i)
after_event (answered i ok) (some (busy j)) =
    if i == j then some (if ok then done else idle) else none
after_event (ran i) (some done) = some done
after_event e _ = none

-- One handshake at a time, no other after one that succeeded, and no command before that.
unfoldable pub judge : List Event → Option Phase
judge [] = some idle
judge (e ∷ log) = after_event e (judge log)

abbrev pub is_inside : Place → Bool
is_inside holding = true
is_inside negotiating = true
is_inside storing = true
is_inside (leaving ok) = true
is_inside _ = false

abbrev pub is_busy : Place → Bool
is_busy negotiating = true
is_busy storing = true
is_busy _ = false

abbrev pub is_passed : Place → Bool
is_passed admitted = true
is_passed (leaving ok) = ok
is_passed _ = false

abbrev pub owns : Option ℕ → ℕ → Bool
owns none j = false
owns (some i) j = i == j

abbrev pub is_owned : Option ℕ → Bool
is_owned none = false
is_owned (some i) = true

abbrev pub place_phase : ℕ → Place → Phase
place_phase i negotiating = busy i
place_phase i storing = done
place_phase i _ = idle

abbrev pub owned_phase : Option ℕ → (ℕ → Place) → Phase
owned_phase none at = idle
owned_phase (some i) at = place_phase i (at i)

-- The slot is taken by the one request inside, no handshake runs once one is verified, whoever passed
-- found it verified, and what was seen is in order and as far as the requests are.
pub record IsOrderly (s : System) : Type 0 where
  pub owner : Option ℕ
  pub taken : s.gate.is_taken ≡ is_owned owner
  pub inside : (j : ℕ) → is_inside (s.at j) ≡ owns owner j
  pub unverified : (j : ℕ) → is_busy (s.at j) ≡ true → s.gate.is_verified ≡ false
  pub passed : (j : ℕ) → is_passed (s.at j) ≡ true → s.gate.is_verified ≡ true
  pub judged : judge s.log ≡ some (if s.gate.is_verified then done else owned_phase owner s.at)

pub same_self : (i : ℕ) → (i == i) ≡ true
same_self i = ground arith

pub update-same : (at : ℕ → Place) (i : ℕ) (p : Place) → update at i p i ≡ p
update-same at i p = rw (same_self i)

pub update-other :
    (at : ℕ → Place) (i : ℕ) (p : Place) (j : ℕ) → (i == j) ≡ false → update at i p j ≡ at j
update-other at i p j h = rw h

-- What holds at the new place, and of the others, holds after an update.
pub update_all :
    (P : ℕ → Place → Type 0) (at : ℕ → Place) (i : ℕ) (p : Place)
    → P i p
    → ((j : ℕ) → (i == j) ≡ false → P j (at j))
    → (j : ℕ) → P j (update at i p j)
update_all P at i p here other j =
    of_branches (P j) (i == j) p (at j) (λ h. subst (λ x. P x p) (ground (arith, h)) here)
      (λ h. other j h)

pub is_inside-busy : (p : Place) → is_busy p ≡ true → is_inside p ≡ true
is_inside-busy negotiating h = refl
is_inside-busy storing h = refl
is_inside-busy entering h = absurd (cc h)
is_inside-busy waiting h = absurd (cc h)
is_inside-busy holding h = refl
is_inside-busy (leaving ok) h = refl
is_inside-busy admitted h = absurd (cc h)
is_inside-busy commanded h = absurd (cc h)
is_inside-busy refused h = absurd (cc h)

pub owns-some : (o : Option ℕ) (i : ℕ) → owns o i ≡ true → o ≡ some i
owns-some none i h = absurd (cc h)
owns-some (some k) i h = ap some (ground (arith, h))

pub is_owned-none : (o : Option ℕ) → is_owned o ≡ false → o ≡ none
is_owned-none none h = refl
is_owned-none (some k) h = absurd (cc h)

pub owned_phase-update :
    (o : Option ℕ) (at : ℕ → Place) (i : ℕ) (p : Place)
    → owns o i ≡ false
    → owned_phase o (update at i p) ≡ owned_phase o at
owned_phase-update none at i p h = refl
owned_phase-update (some k) at i p h =
    ap (place_phase k) (update-other at i p k (ground (arith, h)))
