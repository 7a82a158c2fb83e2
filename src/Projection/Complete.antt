-- ===== src/Projection/Complete.antt =====
-- A projection without a truncation flag lists every attachment.
use croton_mcp.Base.{
  ℕ, ◌+◌, ◌≤◌, true, Option, none, some, List, [], ◌∷◌, ◌++◌, append-nil, append_assoc, ltb, leb,
  length, length-append, ℤ, ◌≡◌, refl, sym, ap, subst, ◌∙◌, arith, of_both, if◌then◌else◌,
  Bool-cases, inl, inr, of_branches,
}
use croton_mcp.Projection.Entity.{
  Structure, single, multi, neither, Children, no_child, child, Mime, Entity, single_entity,
  multi_entity,
}
use croton_mcp.Projection.Visit.{
  Limits, Entry, Projector, Outcome, finished, parts_limit, malformed, is_listed, is_message,
  cut_depth, entry_of, is_entry_cut, append_attachment, close_entity, visit_entity, and_next,
  within_depth, within_parts, visit, visit_children, projected, limits_of, new_projector,
  project_attachments,
}
use croton_mcp.Projection.Enumerate.{
  IsClean, whole_entry, entries_of, join, enumerate, enumerate_children, whole_entry-entry_of,
  or_left,
}

some-injective : {x y : Projector} → some x ≡ some y → x ≡ y
some-injective e = cc e

module _ (mime : Mime) where
  module _ (limits : Limits) where
    -- What a visit adds to a projector.
    record Grown (p : Projector) (entries : Option (List Entry)) (r : Projector × Outcome)
        : Type 0 where
      clean_before : IsClean r.0 → IsClean p
      all_listed :
          r.1 ≡ finished
          → IsClean r.0
          → (es : List Entry) × (entries ≡ some es) × (r.0.attachments ≡ p.attachments ++ es)
      limit_flagged : r.1 ≡ parts_limit → r.0.mime_parts ≡ true
      few :
          length p.attachments ≤ limits.max_attachment_count
          → length r.0.attachments ≤ limits.max_attachment_count

    flagged-Grown :
        (p : Projector) (entries : Option (List Entry)) → Grown p entries (cut_depth p, finished)
    flagged-Grown p entries = record {
      clean_before = λ c. absurd (cc (c.1));
      all_listed = λ e c. absurd (cc (c.1));
      limit_flagged = λ e. absurd (cc e);
      few = λ l. l;
    }

    malformed-Grown :
        (p : Projector) (entries : Option (List Entry)) → Grown p entries (p, malformed)
    malformed-Grown p entries = record {
      clean_before = λ c. c;
      all_listed = λ e c. absurd (cc e);
      limit_flagged = λ e. absurd (cc e);
      few = λ l. l;
    }

    nothing-Grown : (p : Projector) → Grown p (some []) (p, finished)
    nothing-Grown p = record {
      clean_before = λ c. c;
      all_listed = λ e c. ([], refl, sym (append-nil p.attachments));
      limit_flagged = λ e. absurd (cc e);
      few = λ l. l;
    }

    append_attachment-Grown :
        (e : Entity) (p : Projector)
        → Grown p (some (whole_entry mime e ∷ [])) (append_attachment mime limits e p, finished)
    unfolding append_attachment
    append_attachment-Grown e p =
        of_branches (λ (q : Projector). Grown p (some (whole_entry mime e ∷ [])) (q, finished))
          (leb limits.max_attachment_count (length p.attachments)) _ _
          (λ f. record {
            clean_before = λ c. absurd (cc (c.2));
            all_listed = λ g c. absurd (cc (c.2));
            limit_flagged = λ g. absurd (cc g);
            few = λ l. l;
          })
          (λ f. record {
            clean_before = λ c. (
              c.0,
              c.1,
              (or_left mime limits p.attachments_cut (is_entry_cut mime limits e) c.2).0,
            );
            all_listed = λ g c. (
              whole_entry mime e ∷ [],
              refl,
              ap (λ x. p.attachments ++ x ∷ [])
                  (whole_entry-entry_of mime limits e
                    (or_left mime limits p.attachments_cut (is_entry_cut mime limits e) c.2).1),
            );
            limit_flagged = λ g. absurd (cc g);
            few = λ l.
                let all = length-append p.attachments (entry_of mime limits e ∷ []) in
                ground (arith, f, all);
          })

    -- Not finished, nothing is said of the list.
    stopped-Grown :
        (p q : Projector) (entries more : Option (List Entry)) (o : Outcome)
        → (o ≡ finished → ⊥)
        → Grown p entries (q, o)
        → Grown p more (q, o)
    stopped-Grown p q entries more o n g = record {
      clean_before = g.clean_before;
      all_listed = λ e c. absurd (n e);
      limit_flagged = g.limit_flagged;
      few = g.few;
    }

    close_entity-Grown :
        (e : Entity) (p : Projector) (entries : Option (List Entry)) (r : Projector × Outcome)
        → Grown p entries r
        → Grown p (if is_message e then none else entries) (close_entity mime limits e r)
    close_entity-Grown e p entries (q, parts_limit) g =
        stopped-Grown p q entries _ parts_limit (λ e. cc) g
    close_entity-Grown e p entries (q, malformed) g =
        stopped-Grown p q entries _ malformed (λ e. cc) g
    close_entity-Grown e p entries (q, finished) g = elim (Bool-cases (is_message e)) [
      | inl c ↦ rw c (record {
        clean_before = λ c. absurd (cc (c.1));
        all_listed = λ e c. absurd (cc (c.1));
        limit_flagged = λ e. absurd (cc e);
        few = g.few;
      })
      | inr c ↦ rw c g
    ]

    visit_entity-Grown :
        (o : Option Entity) (children : Projector → Projector × Outcome)
        (below : Option (List Entry)) (p : Projector)
        → Grown p below (children p)
        → Grown p (entries_of mime o below) (visit_entity mime limits o children p)
    visit_entity-Grown none children below p g = malformed-Grown p none
    visit_entity-Grown (some e) children below p g = elim (Bool-cases (is_listed e)) [
      | inl c ↦ rw c (append_attachment-Grown e p)
      | inr c ↦ rw c (close_entity-Grown e p below (children p) g)
    ]

    within_depth-Grown :
        (depth : ℕ) (go : Projector → Projector × Outcome) (entries : Option (List Entry))
        (p : Projector)
        → Grown p entries (go p)
        → Grown p entries (within_depth mime limits depth go p)
    within_depth-Grown depth go entries p g =
        of_both (Grown p entries) (ltb limits.max_mime_depth depth) (cut_depth p, finished) (go p)
          (flagged-Grown p entries) g

    and_next-Grown :
        (next : Projector → Projector × Outcome) (p : Projector)
        (entries more : Option (List Entry)) (r : Projector × Outcome)
        → Grown p entries r
        → ((q : Projector) → Grown q more (next q))
        → Grown p (join mime entries more) (and_next mime limits next r)
    and_next-Grown next p entries more (q, parts_limit) g h = record {
      clean_before = g.clean_before;
      all_listed = λ e c. absurd (cc e);
      limit_flagged = g.limit_flagged;
      few = g.few;
    }
    and_next-Grown next p entries more (q, malformed) g h = record {
      clean_before = g.clean_before;
      all_listed = λ e c. absurd (cc e);
      limit_flagged = λ e. absurd (cc e);
      few = g.few;
    }
    and_next-Grown next p entries more (q, finished) g h =
        let rest = h q in
        record {
          clean_before = λ c. g.clean_before (rest.clean_before c);
          all_listed = λ e c.
              let here = g.all_listed refl (rest.clean_before c) in
              let later = rest.all_listed e c in
              (
                here.0 ++ later.0,
                ap (λ o. join mime o more) here.1 ∙ ap (join mime (some here.0)) later.1,
                later.2 ∙ ap (λ l. l ++ later.0) here.2 ∙ append_assoc p.attachments here.0 later.0,
              );
          limit_flagged = rest.limit_flagged;
          few = λ l. rest.few (g.few l);
        }

    within_parts-Grown :
        (go : Projector → Projector × Outcome) (entries : Option (List Entry)) (p : Projector)
        → Grown (record p { parts = p.parts + 1 }) entries (go (record p { parts = p.parts + 1 }))
        → Grown p entries (within_parts mime limits go p)
    within_parts-Grown go entries p g =
        of_both (Grown p entries) (leb limits.max_mime_parts p.parts)
          (record p { mime_parts = true }, parts_limit) (go (record p { parts = p.parts + 1 }))
          (record {
            clean_before = λ c. absurd (cc (c.0));
            all_listed = λ e c. absurd (cc e);
            limit_flagged = λ e. refl;
            few = λ l. l;
          })
          (record {
            clean_before = g.clean_before;
            all_listed = g.all_listed;
            limit_flagged = g.limit_flagged;
            few = g.few;
          })

    mutual
      unfolding visit enumerate

      visit-Grown :
          (depth : ℕ) (s : Structure) (p : Projector)
          → Grown p (enumerate mime s) (visit mime limits depth s p)
      visit-Grown depth (single i) p =
          within_depth-Grown depth
            (visit_entity mime limits (single_entity mime i) (λ q. (q, finished))) _ p
            (visit_entity-Grown (single_entity mime i) (λ q. (q, finished)) (some []) p
              (nothing-Grown p))
      visit-Grown depth (multi i cs) p =
          within_depth-Grown depth
            (visit_entity mime limits (multi_entity mime i)
              (visit_children mime limits (depth + 1) cs))
            _ p
            (visit_entity-Grown (multi_entity mime i) (visit_children mime limits (depth + 1) cs)
              (enumerate_children mime cs) p (visit_children-Grown (depth + 1) cs p))
      visit-Grown depth neither p =
          within_depth-Grown depth (λ q. (q, malformed)) none p (malformed-Grown p none)

      visit_children-Grown :
          (depth : ℕ) (cs : Children) (p : Projector)
          → Grown p (enumerate_children mime cs) (visit_children mime limits depth cs p)
      visit_children-Grown depth no_child p = nothing-Grown p
      visit_children-Grown depth (child c cs) p =
          within_parts-Grown
            (λ q.
              and_next mime limits (visit_children mime limits depth cs)
                (visit mime limits depth c q))
            _ p
            (and_next-Grown (visit_children mime limits depth cs) _ (enumerate mime c)
              (enumerate_children mime cs)
              (visit mime limits depth c (record p { parts = p.parts + 1 }))
              (visit-Grown depth c (record p { parts = p.parts + 1 }))
              (λ q. visit_children-Grown depth cs q))

    projected-Complete :
        (entries : Option (List Entry)) (q : Projector) (r : Projector × Outcome)
        → Grown new_projector entries r
        → projected r ≡ some q
        → (length q.attachments ≤ limits.max_attachment_count)
          × (IsClean q → entries ≡ some q.attachments)
    projected-Complete entries q (p, malformed) g h = absurd (cc h)
    projected-Complete entries q (p, finished) g h =
        subst
          (λ x.
            (length x.attachments ≤ limits.max_attachment_count)
            × (IsClean x → entries ≡ some x.attachments))
          (some-injective h)
          (g.few (omega arith), λ c. let all = g.all_listed refl c in all.1 ∙ ap some (sym all.2))
    projected-Complete entries q (p, parts_limit) g h =
        subst
          (λ x.
            (length x.attachments ≤ limits.max_attachment_count)
            × (IsClean x → entries ≡ some x.attachments))
          (some-injective h) (g.few (omega arith), λ c. absurd (cc (g.limit_flagged refl, c.0)))

-- If the structure of a message is projected, then no more attachments are listed than the limit allows,
-- and if no truncation flag is set, then no entity outside of an attachment is malformed or a message, and
-- the list is that of all attachments of the structure, in order and with their fields whole.
pub project_attachments-IsClean :
    (mime : Mime) (max_parts max_attachments : ℤ) (s : Structure) (q : Projector)
    → project_attachments mime max_parts max_attachments s ≡ some q
    → (length q.attachments ≤ (limits_of max_parts max_attachments).max_attachment_count)
      × (IsClean q → enumerate mime s ≡ some q.attachments)
unfolding project_attachments
project_attachments-IsClean mime max_parts max_attachments s q h =
    let limits = limits_of max_parts max_attachments in
    projected-Complete mime limits (enumerate mime s) q (visit mime limits 0 s new_projector)
      (visit-Grown mime limits 0 s new_projector) h
