-- ===== src/Search/Falling.antt =====
-- Lists of UIDs that fall: a sorted list is fixed by how often each UID stands in it.
use croton_mcp.Base.{
  none, ℕ, ◌+◌, ◌≤◌, ◌<◌, List, [], ◌∷◌, ◌++◌, leb, ◌==◌, if◌then◌else◌, ◌≡◌, refl, ap, ◌∙◌, arith,
  of_branches,
}
use croton_mcp.Search.Fetched.{Metadata, uids_of, validate_fetched}
use croton_mcp.Search.FetchedAll.{times-validate_fetched}
use croton_mcp.Search.Highest.{
  times, AreFalling, AreIn, AreSorted, AreSorted-tail, AreSorted-sort_uids, times-sort_uids,
}
use croton_mcp.Search.Page.{insert_metadata, sort_metadata}
use croton_mcp.Search.Select.{insert_uid, sort_uids}
use croton_mcp.Wire.Observer.{Window}

AreSorted-head : (u x : ℕ) (xs : List ℕ) → AreSorted (x ∷ xs) → 1 ≤ times u (x ∷ xs) → u ≤ x
unfolding times
AreSorted-head u x [] s h = ground (arith, h)
AreSorted-head u x (y ∷ ys) s h =
    of_branches (λ n. 1 ≤ n + times u (y ∷ ys) → u ≤ x) (x == u) 1 0 (λ e i. ground (arith, e))
      (λ e i. let up = AreSorted-head u y ys s.1 (omega (arith, i)) in omega (arith, up, s.0)) h

times-none : (u : ℕ) → times u [] ≡ 0
unfolding times
times-none u = refl

times-head : (x : ℕ) (xs : List ℕ) → 1 ≤ times x (x ∷ xs)
unfolding times
times-head x xs = ground arith

times-cons :
    (u x y : ℕ) (xs ys : List ℕ)
    → x ≡ y
    → times u (x ∷ xs) ≡ times u (y ∷ ys)
    → times u xs ≡ times u ys
unfolding times
times-cons u x y xs ys e h =
    let same : times u (x ∷ ys) ≡ times u (y ∷ ys) = ap (λ z. times u (z ∷ ys)) e in
    omega (arith, h, same)

sorted_unique :
    (xs ys : List ℕ) → AreSorted xs → AreSorted ys → ((u : ℕ) → times u xs ≡ times u ys) → xs ≡ ys
sorted_unique [] [] s t h = refl
sorted_unique [] (y ∷ ys) s t h = absurd (omega (arith, times-none y, h y, times-head y ys))
sorted_unique (x ∷ xs) [] s t h = absurd (omega (arith, times-none x, h x, times-head x xs))
sorted_unique (x ∷ xs) (y ∷ ys) s t h =
    let up = AreSorted-head x y ys t (omega (arith, h x, times-head x xs)) in
    let down = AreSorted-head y x xs s (omega (arith, h y, times-head y ys)) in
    let same : x ≡ y = omega (arith, up, down) in
    let rest =
      sorted_unique xs ys (AreSorted-tail x xs s) (AreSorted-tail y ys t)
        (λ u. times-cons u x y xs ys same (h u)) in
    ap (λ z. z ∷ xs) same ∙ ap (λ zs. y ∷ zs) rest

uids_of-insert_metadata :
    (m : Metadata) (ms : List Metadata)
    → uids_of (insert_metadata m ms) ≡ insert_uid m.own_uid (uids_of ms)
unfolding insert_metadata insert_uid
uids_of-insert_metadata m [] = refl
uids_of-insert_metadata m (n ∷ ns) =
    let c = leb n.own_uid m.own_uid in
    of_branches
      (λ l. uids_of l ≡ (
        if c
        then m.own_uid ∷ n.own_uid ∷ uids_of ns
        else n.own_uid ∷ insert_uid m.own_uid (uids_of ns)))
      c (m ∷ n ∷ ns) (n ∷ insert_metadata m ns) (λ e. rw e refl)
      (λ e. rw e (ap (λ l. n.own_uid ∷ l) (uids_of-insert_metadata m ns)))

uids_of-sort_metadata : (ms : List Metadata) → uids_of (sort_metadata ms) ≡ sort_uids (uids_of ms)
unfolding sort_metadata sort_uids
uids_of-sort_metadata [] = refl
uids_of-sort_metadata (m ∷ ms) =
    uids_of-insert_metadata m (sort_metadata ms)
    ∙ ap (insert_uid m.own_uid) (uids_of-sort_metadata ms)

AreFalling-AreSorted : (bound : ℕ) (us : List ℕ) → AreFalling bound us → AreSorted us
AreFalling-AreSorted bound [] f = tt
AreFalling-AreSorted bound (u ∷ []) f = tt
AreFalling-AreSorted bound (u ∷ v ∷ vs) f =
    (omega (arith, f.1.0), AreFalling-AreSorted u (v ∷ vs) f.1)

-- If the metadata fetched for UIDs that fall is accepted, then in the order of the page its UIDs are
-- those that were requested, one for one.
pub uids_of-validate_fetched :
    (bound : ℕ) (selected : List ℕ) (metadata : List Metadata)
    → AreFalling bound selected
    → validate_fetched selected metadata ≡ none
    → uids_of (sort_metadata metadata) ≡ selected
uids_of-validate_fetched bound selected metadata f h =
    uids_of-sort_metadata metadata
    ∙ sorted_unique (sort_uids (uids_of metadata)) selected (AreSorted-sort_uids (uids_of metadata))
        (AreFalling-AreSorted bound selected f)
        (λ u. times-sort_uids u (uids_of metadata) ∙ times-validate_fetched u selected metadata h)

-- From just below `top`, strictly down to no less than `bottom`.
abbrev pub Falls : ℕ → List ℕ → ℕ → Type 0
Falls top [] bottom = bottom ≤ top
Falls top (u ∷ us) bottom = (u < top) × Falls u us bottom

pub Falls-append :
    (top middle bottom : ℕ) (us vs : List ℕ)
    → Falls top us middle
    → Falls middle vs bottom
    → Falls top (us ++ vs) bottom
Falls-append top middle bottom [] [] f g = omega (arith, f, g)
Falls-append top middle bottom [] (v ∷ vs) f g = (omega (arith, f, g.0), g.1)
Falls-append top middle bottom (u ∷ us) vs f g = (f.0, Falls-append u middle bottom us vs f.1 g)

pub Falls-AreFalling :
    (w : Window) (top : ℕ) (us : List ℕ)
    → w.first ≤ top
    → AreFalling top us
    → AreIn w us
    → Falls top us w.first
Falls-AreFalling w top [] l f i = l
Falls-AreFalling w top (u ∷ us) l f i = (f.0, Falls-AreFalling w u us i.1 f.1 i.3)
