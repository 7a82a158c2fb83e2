-- ===== src/Search/PageBounds.antt =====
-- A page of search results: its order, its bounds, and the identity of its messages.
use croton_mcp.Base.{
  ℕ, zero, suc, ◌+◌, ◌-◌, ◌≤◌, ◌<◌, min, ◌&&◌, ◌||◌, Option, none, some, List, [], ◌∷◌, ◌++◌, ltb,
  length, length-append, ◌≡◌, refl, sym, ap, subst, ◌∙◌, arith, of_branches,
}
use croton_mcp.Codes.{Code}
use croton_mcp.Search.Falling.{Falls, Falls-append, Falls-AreFalling, uids_of-validate_fetched}
use croton_mcp.Search.Fetched.{Metadata, uids_of, validate_fetched}
use croton_mcp.Search.Highest.{AreFalling, AreIn, IsHighest, select_highest_uids-IsHighest}
use croton_mcp.Search.Page.{
  max_search_windows, Snapshot, Finder, Found, Page, nothing_found, sort_metadata, window_of,
  add_messages, add_window, answer_of, after_fetch, after_select, after_search, search_turn, go_on,
  search_windows, paged, after_examine, search_mail_page,
}
use croton_mcp.Search.Select.{select_highest_uids}
use croton_mcp.Search.Weighed.{page_bytes, AreNamed, IsWeighed, add_messages-Added}
use croton_mcp.Triage.Result.{Context, Reply, ok, err, Answer, Result, done, failed, done-injective}
use croton_mcp.Wire.Observer.{Window, width}

AreFalling-front : (bound : ℕ) (us vs : List ℕ) → AreFalling bound (us ++ vs) → AreFalling bound us
AreFalling-front bound [] vs f = tt
AreFalling-front bound (u ∷ us) vs f = (f.0, AreFalling-front u us vs f.1)

AreIn-front : (w : Window) (us vs : List ℕ) → AreIn w (us ++ vs) → AreIn w us
AreIn-front w [] vs f = tt
AreIn-front w (u ∷ us) vs f = (f.0, f.1, f.2, AreIn-front w us vs f.3)

Falls-lower :
    (top bottom lower : ℕ) (us : List ℕ) → lower ≤ bottom → Falls top us bottom → Falls top us lower
Falls-lower top bottom lower [] l f = omega (arith, l, f)
Falls-lower top bottom lower (u ∷ us) l f = (f.0, Falls-lower u bottom lower us l f.1)

length-uids_of : (ms : List Metadata) → length (uids_of ms) ≡ length ms
length-uids_of [] = refl
length-uids_of (m ∷ ms) = ap suc (length-uids_of ms)

ok-injective : {A : Type 0} {x y : A} → ok x ≡ ok y → x ≡ y
ok-injective e = cc e

module _ {W : Type 0} (finder : Finder W) (validity top : ℕ) where
  -- The variables of the loop, for the mailbox generation and its UIDNEXT.
  abbrev IsKept : Found → Type 0
  IsKept f =
      Falls top (uids_of f.messages) f.remaining
      × (length f.messages ≤ finder.max_search_results)
      × (min 1 top ≤ f.remaining)
      × IsWeighed finder validity f

  -- The UIDs taken of a window fall from where the loop stands to where the window begins.
  IsHighest-Falls :
      (remaining budget : ℕ) (uids selected : List ℕ)
      → 1 < remaining
      → IsHighest uids (window_of remaining) budget selected
      → Falls remaining selected (window_of remaining).first
  IsHighest-Falls remaining budget uids selected l (rest, count, falls, inside, size) =
      let w = window_of remaining in
      Falls-AreFalling w remaining selected (ground (arith, l))
        (subst (λ n. AreFalling n selected) (omega (arith, l))
          (AreFalling-front (suc w.last) selected rest falls))
        (AreIn-front w selected rest inside)

  add_window-IsKept :
      (f g : Found) (uids selected : List ℕ) (metadata : List Metadata) (checked : Option Code)
      → 1 < f.remaining
      → IsKept f
      → IsHighest uids
          (window_of f.remaining)
          (finder.max_search_results - length f.messages)
          selected
      → validate_fetched selected metadata ≡ checked
      → (elim checked as (λ _. Result Found) [
        | some code ↦ failed code
        | none ↦
            add_messages finder validity
              (sort_metadata metadata)
              (done (record f { remaining = (window_of f.remaining).first }))
      ])
        ≡ done g
      → IsKept g
  add_window-IsKept f g uids selected metadata (some code) l k hi v h = absurd (cc h)
  add_window-IsKept f g uids selected metadata none l k hi v h =
      let w = window_of f.remaining in
      let added =
        add_messages-Added finder validity (sort_metadata metadata)
          (record f { remaining = w.first }) g k.3 h in
      let same =
        uids_of-validate_fetched (suc w.last) selected metadata
          (AreFalling-front (suc w.last) selected hi.0 hi.2) v in
      let listed : uids_of g.messages ≡ uids_of f.messages ++ selected =
        added.0 ∙ ap (λ l. uids_of f.messages ++ l) same in
      let falls =
        Falls-append top f.remaining w.first (uids_of f.messages) selected k.0
          (IsHighest-Falls f.remaining _ uids selected l hi) in
      let total : length (uids_of g.messages) ≡ length (uids_of f.messages) + length selected =
        ap length listed ∙ length-append (uids_of f.messages) selected in
      (
        subst (λ n. Falls top (uids_of g.messages) n) (sym added.1)
            (subst (λ l. Falls top l w.first) (sym listed) falls),
        omega (arith, total, length-uids_of g.messages, length-uids_of f.messages, hi.4, k.1),
        subst (λ n. min 1 top ≤ n) (sym added.1) (ground (arith, l)),
        added.2,
      )

  -- What is kept whenever the answer is a success.
  abbrev Keeps : W × Answer Found → Type 0
  Keeps (world, answer) = (g : Found) → answer.reply ≡ ok g → IsKept g

  answer_of-Keeps :
      (world : W) (r : Result Found)
      → ((g : Found) → r ≡ done g → IsKept g)
      → Keeps (answer_of finder world r)
  answer_of-Keeps world (failed code) k g h = absurd (cc h)
  answer_of-Keeps world (done f) k g h = k g (ap done (ok-injective h))

  after_fetch-Keeps :
      (f : Found) (uids selected : List ℕ) (world : W) (c : Context) (r : Reply (List Metadata))
      → 1 < f.remaining
      → IsKept f
      → IsHighest uids
          (window_of f.remaining)
          (finder.max_search_results - length f.messages)
          selected
      → Keeps (
          after_fetch finder validity
            (window_of f.remaining)
            selected
            f
            (world, record { context = c; reply = r }))
  unfolding add_window
  after_fetch-Keeps f uids selected world c (err e) l k hi = λ g h. absurd (cc h)
  after_fetch-Keeps f uids selected world c (ok metadata) l k hi =
      answer_of-Keeps world (add_window finder validity (window_of f.remaining) selected metadata f)
        λ g e.
          add_window-IsKept f g uids selected metadata (validate_fetched selected metadata) l k hi
            refl e

  after_select-Keeps :
      (f : Found) (uids : List ℕ) (world : W) (r : Result (List ℕ))
      → 1 < f.remaining
      → IsKept f
      → select_highest_uids uids
          (window_of f.remaining)
          (finder.max_search_results - length f.messages)
        ≡ r
      → Keeps (after_select finder validity (window_of f.remaining) uids f world r)
  after_select-Keeps f uids world (failed code) l k e =
      answer_of-Keeps world (failed code) (λ g d. absurd (cc d))
  after_select-Keeps f uids world (done selected) l k e =
      let a = finder.fetch_metadata selected finder.max_header_bytes world in
      after_fetch-Keeps (record f { omitted = f.omitted || ltb (length selected) (length uids) })
        uids selected a.0 a.1.context a.1.reply l k
        (select_highest_uids-IsHighest uids (window_of f.remaining)
          (finder.max_search_results - length f.messages) selected e)

  after_search-Keeps :
      (f : Found) (world : W) (c : Context) (r : Reply (List ℕ))
      → 1 < f.remaining
      → IsKept f
      → Keeps (
          after_search finder validity
            (window_of f.remaining)
            f
            (world, record { context = c; reply = r }))
  after_search-Keeps f world c (err e) l k = λ g h. absurd (cc h)
  after_search-Keeps f world c (ok uids) l k = after_select-Keeps f uids world _ l k refl

  search_turn-Keeps :
      (f : Found) (world : W)
      → 1 < f.remaining
      → IsKept f
      → Keeps (search_turn finder validity f world)
  unfolding search_turn
  search_turn-Keeps f world l k =
      let w = window_of f.remaining in
      let a = finder.search_window w (width w) world in
      after_search-Keeps f a.0 a.1.context a.1.reply l k

  go_on-Keeps :
      (next : Found → W → W × Answer Found) (world : W) (c : Context) (r : Reply Found)
      → ((f : Found) (v : W) → IsKept f → Keeps (next f v))
      → Keeps (world, record { context = c; reply = r })
      → Keeps (go_on finder next (world, record { context = c; reply = r }))
  go_on-Keeps next world c (err e) n k = λ g h. absurd (cc h)
  go_on-Keeps next world c (ok f) n k = n f world (k f refl)

  search_windows-Keeps :
      (n : ℕ) (f : Found) (world : W) → IsKept f → Keeps (search_windows finder n validity f world)
  unfolding search_windows
  search_windows-Keeps zero f world k =
      answer_of-Keeps world (done f) (λ g d. subst IsKept (done-injective d) k)
  search_windows-Keeps (suc n) f world k =
      let t = search_turn finder validity f world in
      of_branches Keeps (ltb 1 f.remaining && ltb (length f.messages) finder.max_search_results)
        (go_on finder (search_windows finder n validity) t) (answer_of finder world (done f))
        (λ e.
          go_on-Keeps (search_windows finder n validity) t.0 t.1.context t.1.reply
            (λ g v. search_windows-Keeps n g v) (search_turn-Keeps f world (ground (arith, e)) k))
        (λ e. answer_of-Keeps world (done f) (λ g d. subst IsKept (done-injective d) k))

module _ {W : Type 0} (finder : Finder W) where
  abbrev pub IsPageOf : Snapshot → Page → Type 0
  IsPageOf s page =
      Falls s.uid_next (uids_of page.messages) (min 1 s.uid_next)
      × (length page.messages ≤ finder.max_search_results)
      × (page_bytes finder page.messages ≤ finder.max_output_bytes)
      × AreNamed finder s.uid_validity page.messages

  paged-IsPageOf :
      (s : Snapshot) (page : Page) (world : W) (c : Context) (r : Reply Found)
      → ((f : Found) → r ≡ ok f → IsKept finder s.uid_validity s.uid_next f)
      → (paged finder (world, record { context = c; reply = r })).1.reply ≡ ok page
      → IsPageOf s page
  paged-IsPageOf s page world c (err e) k h = absurd (cc h)
  paged-IsPageOf s page world c (ok f) k h =
      let kept = k f refl in
      let weighed = kept.3 in
      subst (IsPageOf s) (ok-injective h) (
        Falls-lower s.uid_next f.remaining (min 1 s.uid_next) (uids_of f.messages) kept.2 kept.0,
        kept.1,
        omega (arith, weighed.0, weighed.1),
        weighed.2,
      )

  abbrev pub IsBoundedPage : Reply Snapshot → Page → Type 0
  IsBoundedPage r page = (s : Snapshot) × (r ≡ ok s) × IsPageOf s page

  after_examine-IsBoundedPage :
      (page : Page) (world : W) (c : Context) (r : Reply Snapshot)
      → 2 ≤ finder.max_output_bytes
      → (after_examine finder (world, record { context = c; reply = r })).1.reply ≡ ok page
      → IsBoundedPage r page
  after_examine-IsBoundedPage page world c (err e) m h = absurd (cc h)
  after_examine-IsBoundedPage page world c (ok s) m h =
      let a = search_windows finder max_search_windows s.uid_validity (nothing_found s) world in
      let start : IsKept finder s.uid_validity s.uid_next (nothing_found s) =
        (omega arith, omega arith, omega arith, (refl, m, tt)) in
      let kept =
        search_windows-Keeps finder s.uid_validity s.uid_next max_search_windows (nothing_found s)
          world start in
      (s, refl, paged-IsPageOf s page a.0 a.1.context a.1.reply kept h)

  -- If a search returns a page under an output bound of at least two bytes, then its mailbox was
  -- examined, the UIDs of its messages fall strictly from below UIDNEXT and are not zero, there are no
  -- more messages than the bound allows, the JSON array of the messages is within the output bound, and
  -- each message carries the mailbox, the examined generation, its UID and the identifier of these.
  pub search_mail_page-IsBoundedPage :
      (world : W) (page : Page)
      → 2 ≤ finder.max_output_bytes
      → (search_mail_page finder world).1.reply ≡ ok page
      → IsBoundedPage (finder.examine world).1.reply page
  unfolding search_mail_page
  search_mail_page-IsBoundedPage world page m h =
      let a = finder.examine world in after_examine-IsBoundedPage page a.0 a.1.context a.1.reply m h
