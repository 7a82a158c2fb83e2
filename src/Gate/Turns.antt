-- ===== src/Gate/Turns.antt =====
-- When a turn of one request keeps the order of the handshakes.
use croton_mcp.Base.{
  ℕ, true, false, Option, some, ◌++◌, ◌==◌, if◌then◌else◌, ◌⊎◌, inl, inr, ◌≡◌, refl, sym, ap, ◌∙◌,
}
use croton_mcp.Gate.Ensure.{Turn, System, update, put_turn}
use croton_mcp.Gate.Phases.{
  done, judge, is_inside, is_busy, is_passed, owns, is_owned, place_phase, owned_phase, IsOrderly,
  same_self, update-same, update_all, is_inside-busy, owned_phase-update,
}

-- A turn of one request keeps the order, if it does at its own place and for the new owner.
module _ (s : System) (o : IsOrderly s) (i : ℕ) (t : Turn) where
  pub put_turn-IsOrderly :
      (owner : Option ℕ)
      → t.gate.is_taken ≡ is_owned owner
      → is_inside t.place ≡ owns owner i
      → ((j : ℕ) → (i == j) ≡ false → owns o.owner j ≡ owns owner j)
      → (is_busy t.place ≡ true → t.gate.is_verified ≡ false)
      → (is_passed t.place ≡ true → t.gate.is_verified ≡ true)
      → ((t.gate.is_verified ≡ s.gate.is_verified)
          ⊎ ((o.owner ≡ some i) × (t.gate.is_verified ≡ true)))
      → judge (t.events ++ s.log)
        ≡ some (if t.gate.is_verified then done else owned_phase owner (update s.at i t.place))
      → IsOrderly (put_turn s i t)
  put_turn-IsOrderly owner taken inside others unverified passed verified judged = record {
    owner = owner;
    taken = taken;
    inside =
        update_all (λ j p. is_inside p ≡ owns owner j) s.at i t.place inside
          (λ j n. o.inside j ∙ others j n);
    unverified =
        update_all (λ j p. is_busy p ≡ true → t.gate.is_verified ≡ false) s.at i t.place unverified
          (λ j n b. elim verified [
            | inl e ↦ e ∙ o.unverified j b
            | inr (m, v) ↦
                absurd (cc (is_inside-busy (s.at j) b, o.inside j, ap (λ x. owns x j) m, n))
          ]);
    passed =
        update_all (λ j p. is_passed p ≡ true → t.gate.is_verified ≡ true) s.at i t.place passed
          (λ j n b. elim verified [ inl e ↦ e ∙ o.passed j b | inr (m, v) ↦ v ]);
    judged = judged;
  }

  -- A turn outside of the slot, to a place outside.
  pub outside_turn :
      owns o.owner i ≡ false
      → t.gate ≡ s.gate
      → is_inside t.place ≡ false
      → is_busy t.place ≡ false
      → (is_passed t.place ≡ true → s.gate.is_verified ≡ true)
      → judge (t.events ++ s.log) ≡ judge s.log
      → IsOrderly (put_turn s i t)
  outside_turn out same inside calm passed judged =
      put_turn-IsOrderly o.owner (ap (λ g. g.is_taken) same ∙ o.taken) (inside ∙ sym out)
        (λ j n. refl) (λ b. absurd (cc (b, calm))) (λ p. ap (λ g. g.is_verified) same ∙ passed p)
        (inl (ap (λ g. g.is_verified) same))
        (judged
          ∙ o.judged
          ∙ ap (λ p. some (if s.gate.is_verified then done else p))
              (sym (owned_phase-update o.owner s.at i t.place out))
          ∙ ap
              (λ g.
                some (if g.is_verified then done else owned_phase o.owner (update s.at i t.place)))
              (sym same))

  -- A turn inside of the slot, to a place inside.
  pub inside_turn :
      o.owner ≡ some i
      → t.gate.is_taken ≡ true
      → is_inside t.place ≡ true
      → (is_busy t.place ≡ true → t.gate.is_verified ≡ false)
      → (is_passed t.place ≡ true → t.gate.is_verified ≡ true)
      → ((t.gate.is_verified ≡ s.gate.is_verified) ⊎ (t.gate.is_verified ≡ true))
      → judge (t.events ++ s.log)
        ≡ some (if t.gate.is_verified then done else place_phase i t.place)
      → IsOrderly (put_turn s i t)
  inside_turn mine taken inside unverified passed verified judged =
      put_turn-IsOrderly (some i) taken (inside ∙ sym (same_self i))
        (λ j n. ap (λ x. owns x j) mine) unverified passed
        (elim verified [ inl e ↦ inl e | inr v ↦ inr (mine, v) ])
        (judged
          ∙ ap (λ p. some (if t.gate.is_verified then done else place_phase i p))
              (sym (update-same s.at i t.place)))
