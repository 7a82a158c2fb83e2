-- ===== src/Search/FetchedAll.antt =====
-- Fetched metadata that is accepted is that of the requested UIDs, one for each.
use croton_mcp.Base.{
  ℕ, ◌+◌, true, not, Option, none, some, List, [], ◌∷◌, ◌==◌, if◌then◌else◌, length, ◌≡◌, refl, ap,
  arith, of_both, of_branches,
}
use croton_mcp.Codes.{imap_protocol}
use croton_mcp.Search.Fetched.{
  Metadata, uids_of, remove_uid, gather, strike, all_struck, struck, validate_fetched,
}
use croton_mcp.Search.Highest.{times}
use croton_mcp.Triage.Source.{mem_uid}

times-remove_uid :
    (u v : ℕ) (us : List ℕ)
    → mem_uid u us ≡ true
    → times v us ≡ (if u == v then 1 else 0) + times v (remove_uid u us)
unfolding times mem_uid remove_uid
times-remove_uid u v [] h = absurd (cc h)
times-remove_uid u v (w ∷ ws) h =
    of_branches (λ (l : List ℕ). times v (w ∷ ws) ≡ (if u == v then 1 else 0) + times v l) (w == u)
      ws (w ∷ remove_uid u ws) (λ e. ground (arith, e))
      (λ e. let rest = times-remove_uid u v ws (ground (arith, e, h)) in omega (arith, rest))

times-gather :
    (v : ℕ) (remaining uids out : List ℕ)
    → gather remaining uids ≡ some out
    → times v out ≡ times v uids + times v remaining
unfolding times gather
times-gather v remaining [] out h =
    let same : remaining ≡ out = cc h in omega (arith, ap (times v) same)
times-gather v remaining (u ∷ us) out h =
    let inner = times-gather v (u ∷ remaining) us out (ground (arith, h)) in omega (arith, inner)

times-strike :
    (v : ℕ) (remaining : List ℕ) (ms : List Metadata)
    → strike remaining ms ≡ some []
    → times v remaining ≡ times v (uids_of ms)
unfolding times strike
times-strike v remaining [] h = let same : remaining ≡ [] = cc h in ap (times v) same
times-strike v remaining (m ∷ ms) h =
    let found : mem_uid m.own_uid remaining ≡ true = ground (arith, h) in
    let inner = times-strike v (remove_uid m.own_uid remaining) ms (ground (arith, h)) in
    omega (arith, inner, times-remove_uid m.own_uid v remaining found)

all_struck-none : (o : Option (List ℕ)) → all_struck o ≡ none → o ≡ some []
all_struck-none none h = absurd (cc h)
all_struck-none (some []) h = refl
all_struck-none (some (u ∷ us)) h = absurd (cc h)

times-struck :
    (v : ℕ) (requested : List ℕ) (results : List Metadata) (o : Option (List ℕ))
    → gather [] requested ≡ o
    → struck o results ≡ none
    → times v (uids_of results) ≡ times v requested
unfolding times
times-struck v requested results none g h = absurd (cc h)
times-struck v requested results (some remaining) g h =
    let left = times-strike v remaining results (all_struck-none (strike remaining results) h) in
    omega (arith, left, times-gather v [] requested remaining g)

-- If the fetched metadata is accepted, then each UID stands among the results as often as among those
-- requested.
pub times-validate_fetched :
    (v : ℕ) (requested : List ℕ) (results : List Metadata)
    → validate_fetched requested results ≡ none
    → times v (uids_of results) ≡ times v requested
unfolding validate_fetched
times-validate_fetched v requested results h =
    of_both (λ o. o ≡ none → times v (uids_of results) ≡ times v requested)
      (not (length results == length requested)) (some imap_protocol)
      (struck (gather [] requested) results) (λ d. absurd (cc d))
      (λ d. times-struck v requested results _ refl d) h
