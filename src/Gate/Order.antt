-- ===== src/Gate/Order.antt =====
-- What is seen of the requests keeps the order of the handshakes.
use croton_mcp.Base.{
  ℕ, Bool, true, false, none, some, List, [], ◌∷◌, if◌then◌else◌, inl, inr, ◌≡◌, refl, sym, ap, ◌∙◌,
  of_branches,
}
use croton_mcp.Gate.Ensure.{
  Place, entering, waiting, holding, negotiating, storing, leaving, admitted, commanded, refused,
  Choice, proceed, expire, succeed, fail, asked, answered, ran, Turn, stay, behind, load_first,
  select_slot, load_again, end_handshake, advance, System, put_turn, take_turn, start, run,
}
use croton_mcp.Gate.Phases.{
  done, after_event, judge, is_inside, is_busy, is_passed, owns, is_owned, place_phase, owned_phase,
  IsOrderly, same_self, update-same, owns-some, is_owned-none,
}
use croton_mcp.Gate.Turns.{put_turn-IsOrderly, outside_turn, inside_turn}

module _ (s : System) (o : IsOrderly s) (i : ℕ) where
  owns_of : {p : Place} {b : Bool} → s.at i ≡ p → is_inside p ≡ b → owns o.owner i ≡ b
  owns_of e h = sym (o.inside i) ∙ ap is_inside e ∙ h

  owner_of : {p : Place} → s.at i ≡ p → is_inside p ≡ true → o.owner ≡ some i
  owner_of e h = owns-some o.owner i (owns_of e h)

  taken_of : o.owner ≡ some i → s.gate.is_taken ≡ true
  taken_of m = o.taken ∙ ap is_owned m

  judged_of :
      {p : Place}
      → s.at i ≡ p
      → o.owner ≡ some i
      → judge s.log ≡ some (if s.gate.is_verified then done else place_phase i p)
  judged_of e m =
      o.judged
      ∙ ap (λ x. some (if s.gate.is_verified then done else owned_phase x s.at)) m
      ∙ ap (λ p. some (if s.gate.is_verified then done else place_phase i p)) e

  passed_of : {p : Place} → s.at i ≡ p → is_passed p ≡ true → s.gate.is_verified ≡ true
  passed_of e h = o.passed i (ap is_passed e ∙ h)

  unverified_of : {p : Place} → s.at i ≡ p → is_busy p ≡ true → s.gate.is_verified ≡ false
  unverified_of e h = o.unverified i (ap is_busy e ∙ h)

  -- A turn that only moves the request, outside of the slot.
  moved_outside :
      {p : Place} (q : Place)
      → s.at i ≡ p
      → is_inside p ≡ false
      → is_inside q ≡ false
      → is_busy q ≡ false
      → (is_passed q ≡ true → s.gate.is_verified ≡ true)
      → IsOrderly (put_turn s i (stay s.gate q))
  moved_outside q e out inside calm passed =
      outside_turn s o i (stay s.gate q) (owns_of e out) refl inside calm passed refl

  load_first-IsOrderly : s.at i ≡ entering → IsOrderly (put_turn s i (load_first s.gate))
  load_first-IsOrderly e =
      of_branches (λ q. IsOrderly (put_turn s i (stay s.gate q))) s.gate.is_verified admitted
        waiting (λ v. moved_outside admitted e refl refl refl (λ c. v))
        (λ n. moved_outside waiting e refl refl refl (λ c. absurd (cc c)))

  enter-IsOrderly :
      s.at i ≡ waiting
      → s.gate.is_taken ≡ false
      → IsOrderly (put_turn s i (stay (record (s.gate) { is_taken = true }) holding))
  enter-IsOrderly e free =
      let none_owns = is_owned-none o.owner (sym o.taken ∙ free) in
      put_turn-IsOrderly s o i (stay (record (s.gate) { is_taken = true }) holding) (some i) refl
        (sym (same_self i)) (λ j n. ap (λ x. owns x j) none_owns ∙ sym n) (λ c. absurd (cc c))
        (λ c. absurd (cc c)) (inl refl)
        (o.judged
          ∙ ap (λ x. some (if s.gate.is_verified then done else owned_phase x s.at)) none_owns
          ∙ ap (λ p. some (if s.gate.is_verified then done else place_phase i p))
              (sym (update-same s.at i holding)))

  select_slot-IsOrderly :
      (c : Choice) → s.at i ≡ waiting → IsOrderly (put_turn s i (select_slot c s.gate))
  select_slot-IsOrderly proceed e =
      of_branches (λ t. IsOrderly (put_turn s i t)) s.gate.is_taken (stay s.gate waiting)
        (stay (record (s.gate) { is_taken = true }) holding)
        (λ h. moved_outside waiting e refl refl refl (λ c. absurd (cc c)))
        (λ free. enter-IsOrderly e free)
  select_slot-IsOrderly expire e = moved_outside refused e refl refl refl (λ c. absurd (cc c))
  select_slot-IsOrderly succeed e = moved_outside waiting e refl refl refl (λ c. absurd (cc c))
  select_slot-IsOrderly fail e = moved_outside waiting e refl refl refl (λ c. absurd (cc c))

  load_again-IsOrderly : s.at i ≡ holding → IsOrderly (put_turn s i (load_again i s.gate))
  unfolding judge
  load_again-IsOrderly e =
      let mine = owner_of e refl in
      let negotiate : Turn = record { gate = s.gate; place = negotiating; events = asked i ∷ [] } in
      of_branches (λ t. IsOrderly (put_turn s i t)) s.gate.is_verified (stay s.gate (leaving true))
        negotiate
        (λ v.
          inside_turn s o i (stay s.gate (leaving true)) mine (taken_of mine) refl
            (λ c. absurd (cc c)) (λ c. v) (inl refl) (judged_of e mine))
        (λ n.
          inside_turn s o i negotiate mine (taken_of mine) refl (λ c. n) (λ c. absurd (cc c))
            (inl refl) (ap (after_event (asked i)) (judged_of e mine) ∙ (rw n refl)))

  end_handshake-IsOrderly :
      (c : Choice) → s.at i ≡ negotiating → IsOrderly (put_turn s i (end_handshake c i s.gate))
  unfolding judge
  end_handshake-IsOrderly proceed e =
      let mine = owner_of e refl in
      inside_turn s o i (stay s.gate negotiating) mine (taken_of mine) refl
        (λ c. unverified_of e refl) (λ c. absurd (cc c)) (inl refl) (judged_of e mine)
  end_handshake-IsOrderly expire e =
      let mine = owner_of e refl in
      inside_turn s o i (stay s.gate negotiating) mine (taken_of mine) refl
        (λ c. unverified_of e refl) (λ c. absurd (cc c)) (inl refl) (judged_of e mine)
  end_handshake-IsOrderly succeed e =
      let mine = owner_of e refl in
      let n = unverified_of e refl in
      inside_turn s o i (end_handshake succeed i s.gate) mine (taken_of mine) refl (λ c. n)
        (λ c. absurd (cc c)) (inl refl)
        (ap (after_event (answered i true)) (judged_of e mine) ∙ (rw (n, same_self i)))
  end_handshake-IsOrderly fail e =
      let mine = owner_of e refl in
      let n = unverified_of e refl in
      inside_turn s o i (end_handshake fail i s.gate) mine (taken_of mine) refl (λ c. absurd (cc c))
        (λ c. absurd (cc c)) (inl refl)
        (ap (after_event (answered i false)) (judged_of e mine) ∙ (rw (n, same_self i)))

  store-IsOrderly :
      s.at i ≡ storing
      → IsOrderly (put_turn s i (stay (record (s.gate) { is_verified = true }) (leaving true)))
  store-IsOrderly e =
      let mine = owner_of e refl in
      inside_turn s o i (stay (record (s.gate) { is_verified = true }) (leaving true)) mine
        (taken_of mine) refl (λ c. absurd (cc c)) (λ c. refl) (inr refl)
        (judged_of e mine ∙ (rw (unverified_of e refl)))

  leave-IsOrderly :
      (ok : Bool)
      → s.at i ≡ leaving ok
      → IsOrderly (put_turn s i (stay (record (s.gate) { is_taken = false }) (behind ok)))
  leave-IsOrderly true e =
      let mine = owner_of e refl in
      put_turn-IsOrderly s o i (stay (record (s.gate) { is_taken = false }) admitted) none refl refl
        (λ j n. ap (λ x. owns x j) mine ∙ n) (λ c. absurd (cc c)) (λ c. passed_of e refl) (inl refl)
        (judged_of e mine)
  leave-IsOrderly false e =
      let mine = owner_of e refl in
      put_turn-IsOrderly s o i (stay (record (s.gate) { is_taken = false }) refused) none refl refl
        (λ j n. ap (λ x. owns x j) mine ∙ n) (λ c. absurd (cc c)) (λ c. absurd (cc c)) (inl refl)
        (judged_of e mine)

  run-IsOrderly :
      s.at i ≡ admitted
      → IsOrderly (put_turn s i (record { gate = s.gate; place = commanded; events = ran i ∷ [] }))
  unfolding judge
  run-IsOrderly e =
      let v = passed_of e refl in
      let succeeded : judge s.log ≡ some done = o.judged ∙ (rw v refl) in
      outside_turn s o i (record { gate = s.gate; place = commanded; events = ran i ∷ [] })
        (owns_of e refl) refl refl refl (λ c. v)
        (ap (after_event (ran i)) succeeded ∙ sym succeeded)

  advance-IsOrderly :
      (c : Choice) (p : Place) → s.at i ≡ p → IsOrderly (put_turn s i (advance c i s.gate p))
  unfolding advance
  advance-IsOrderly c entering e = load_first-IsOrderly e
  advance-IsOrderly c waiting e = select_slot-IsOrderly c e
  advance-IsOrderly c holding e = load_again-IsOrderly e
  advance-IsOrderly c negotiating e = end_handshake-IsOrderly c e
  advance-IsOrderly c storing e = store-IsOrderly e
  advance-IsOrderly c (leaving ok) e = leave-IsOrderly ok e
  advance-IsOrderly c admitted e = run-IsOrderly e
  advance-IsOrderly c commanded e = moved_outside commanded e refl refl refl (λ c. absurd (cc c))
  advance-IsOrderly c refused e = moved_outside refused e refl refl refl (λ c. absurd (cc c))

start-IsOrderly : IsOrderly start
unfolding judge
start-IsOrderly = record {
  owner = none;
  taken = refl;
  inside = λ j. refl;
  unverified = λ j c. absurd (cc c);
  passed = λ j c. absurd (cc c);
  judged = refl;
}

pub run_all-IsOrderly : (turns : List (ℕ × Choice)) → IsOrderly (run turns)
unfolding run take_turn
run_all-IsOrderly [] = start-IsOrderly
run_all-IsOrderly ((i, c) ∷ earlier) =
    let before = run earlier in
    advance-IsOrderly before (run_all-IsOrderly earlier) i c (before.at i) refl
