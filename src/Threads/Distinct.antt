-- ===== src/Threads/Distinct.antt =====
-- Every message of a thread gets a key, and no two get the same.
use croton_mcp.Base.{
  ℕ, zero, suc, ◌≤◌, ◌<◌, true, false, Bool-cases, Option-cases, inl, inr, Option, none, some, List,
  [], ◌∷◌, ◌++◌, if◌then◌else◌, Bytes, length, length-append, ◌≡◌, ◌≢◌, refl, sym, ap, subst, ◌∙◌,
  arith, of_branches,
}
use croton_mcp.Text.{equal, equal-eq, equal_self, format_uint}
use croton_mcp.Threads.Keys.{
  has_key, candidate, key_from, base_key, stable_thread_key, with_front, keyed_with, set_keys,
}
use croton_mcp.Threads.Links.{ThreadMessage}
use croton_mcp.Threads.Numerals.{format_uint-injective}

-- A list without one of its keys.
unfoldable drop_key : Bytes → List Bytes → List Bytes
drop_key key [] = []
drop_key key (k ∷ ks) = let rest = drop_key key ks in if equal k key then ks else k ∷ rest

abbrev AllIn : List Bytes → List Bytes → Type 0
AllIn [] keys = Unit
AllIn (u ∷ us) keys = (has_key u keys ≡ true) × AllIn us keys

abbrev NotIn : Bytes → List Bytes → Type 0
NotIn key [] = Unit
NotIn key (u ∷ us) = (u ≢ key) × NotIn key us

abbrev pub AreDistinct : List Bytes → Type 0
AreDistinct [] = Unit
AreDistinct (u ∷ us) = NotIn u us × AreDistinct us

equal-apart : (s t : Bytes) → s ≢ t → equal s t ≡ false
equal-apart s t n = elim (Bool-cases (equal s t)) [
  | inl e ↦ absurd (n (equal-eq s t e))
  | inr e ↦ e
]

length-drop_key :
    (key : Bytes) (keys : List Bytes)
    → has_key key keys ≡ true
    → length keys ≡ suc (length (drop_key key keys))
unfolding has_key drop_key
length-drop_key key [] h = absurd (cc h)
length-drop_key key (k ∷ ks) h = elim (Bool-cases (equal k key)) [
  | inl e ↦ rw e refl
  | inr e ↦
      (let rest : has_key key ks ≡ true =
          subst (λ c. (if c then true else has_key key ks) ≡ true) e h in
        rw e (ap suc (length-drop_key key ks rest)))
]

has_key-drop_key :
    (u key : Bytes) (keys : List Bytes)
    → u ≢ key
    → has_key u keys ≡ true
    → has_key u (drop_key key keys) ≡ true
unfolding has_key drop_key
has_key-drop_key u key [] n h = h
has_key-drop_key u key (k ∷ ks) n h = elim (Bool-cases (equal k key)) [
  | inl e ↦
      (let other : equal k u ≡ false = equal-apart k u (λ f. n (sym f ∙ equal-eq k key e)) in
        rw e (subst (λ c. (if c then true else has_key u ks) ≡ true) other h))
  | inr e ↦ rw e (
      of_branches (λ b. b ≡ true → (if equal k u then true else has_key u (drop_key key ks)) ≡ true)
        (equal k u) true (has_key u ks) (λ f h. rw f refl)
        (λ f h. rw f (has_key-drop_key u key ks n h)) h)
]

AllIn-drop_key :
    (key : Bytes) (us keys : List Bytes)
    → NotIn key us
    → AllIn us keys
    → AllIn us (drop_key key keys)
AllIn-drop_key key [] keys n a = tt
AllIn-drop_key key (u ∷ us) keys n a =
    (has_key-drop_key u key keys n.0 a.0, AllIn-drop_key key us keys n.1 a.1)

-- Distinct keys of a list are no more than the list.
length-AllIn : (us keys : List Bytes) → AreDistinct us → AllIn us keys → length us ≤ length keys
length-AllIn [] keys d a = omega arith
length-AllIn (u ∷ us) keys d a = omega (
  arith,
  length-drop_key u keys a.0,
  length-AllIn us (drop_key u keys) d.1 (AllIn-drop_key u us keys d.0 a.1),
)

abbrev candidates : Bytes → ℕ → ℕ → List Bytes
candidates base zero suffix = []
candidates base (suc n) suffix = candidate base suffix ∷ candidates base n (suc suffix)

length-candidates : (base : Bytes) (n suffix : ℕ) → length (candidates base n suffix) ≡ n
length-candidates base zero suffix = refl
length-candidates base (suc n) suffix = ap suc (length-candidates base n (suc suffix))

append-cancel : (s t u : Bytes) → s ++ t ≡ s ++ u → t ≡ u
append-cancel [] t u e = e
append-cancel (c ∷ s) t u e = append-cancel s t u (cc e)

candidate-injective : (base : Bytes) (m n : ℕ) → candidate base m ≡ candidate base n → m ≡ n
candidate-injective base m n e =
    let tails : b'#' ∷ format_uint m ≡ b'#' ∷ format_uint n =
      append-cancel base (b'#' ∷ format_uint m) (b'#' ∷ format_uint n) e in
    format_uint-injective m n (cc tails)

candidate-NotIn :
    (base : Bytes) (m n suffix : ℕ)
    → m < suffix
    → NotIn (candidate base m) (candidates base n suffix)
candidate-NotIn base m zero suffix l = tt
candidate-NotIn base m (suc n) suffix l = (
  (λ e. let same = candidate-injective base suffix m e in absurd (omega (arith, l, same))),
  candidate-NotIn base m n (suc suffix) (omega (arith, l)),
)

base-NotIn : (base : Bytes) (n suffix : ℕ) → NotIn base (candidates base n suffix)
base-NotIn base zero suffix = tt
base-NotIn base (suc n) suffix = (
  (λ e.
      let size = ap length e in
      let sum = length-append base (b'#' ∷ format_uint suffix) in
      absurd (omega (arith, size, sum))),
  base-NotIn base n (suc suffix),
)

candidates-AreDistinct : (base : Bytes) (n suffix : ℕ) → AreDistinct (candidates base n suffix)
candidates-AreDistinct base zero suffix = tt
candidates-AreDistinct base (suc n) suffix = (
  candidate-NotIn base suffix n (suc suffix) (omega arith),
  candidates-AreDistinct base n (suc suffix),
)

key_from-AllIn :
    (fuel suffix : ℕ) (base key : Bytes) (keys : List Bytes)
    → key_from (suc fuel) suffix base key keys ≡ none
    → AllIn (key ∷ candidates base fuel suffix) keys
unfolding key_from
key_from-AllIn zero suffix base key keys h =
    of_branches (λ o. o ≡ none → AllIn (key ∷ []) keys) (has_key key keys) none (some key)
      (λ e h. (e, tt)) (λ e h. absurd (cc h)) h
key_from-AllIn (suc fuel) suffix base key keys h =
    of_branches (λ o. o ≡ none → AllIn (key ∷ candidates base (suc fuel) suffix) keys)
      (has_key key keys) (key_from (suc fuel) (suc suffix) base (candidate base suffix) keys)
      (some key) (λ e h. (e, key_from-AllIn fuel (suc suffix) base (candidate base suffix) keys h))
      (λ e h. absurd (cc h)) h

key_from-new :
    (fuel suffix : ℕ) (base key k : Bytes) (keys : List Bytes)
    → key_from fuel suffix base key keys ≡ some k
    → has_key k keys ≡ false
unfolding key_from
key_from-new zero suffix base key k keys h = absurd (cc h)
key_from-new (suc fuel) suffix base key k keys h =
    of_branches (λ o. o ≡ some k → has_key k keys ≡ false) (has_key key keys)
      (key_from fuel (suc suffix) base (candidate base suffix) keys) (some key)
      (λ e h. key_from-new fuel (suc suffix) base (candidate base suffix) k keys h)
      (λ e h. let same : key ≡ k = cc h in subst (λ x. has_key x keys ≡ false) same e) h

stable_thread_key-new :
    (m : ThreadMessage) (keys : List Bytes) (k : Bytes)
    → stable_thread_key m keys ≡ some k
    → has_key k keys ≡ false
unfolding stable_thread_key
stable_thread_key-new m keys k h =
    key_from-new (suc (length keys)) 2 (base_key m) (base_key m) k keys h

pub stable_thread_key-told :
    (m : ThreadMessage) (keys : List Bytes) → stable_thread_key m keys ≢ none
unfolding stable_thread_key
stable_thread_key-told m keys h =
    let base = base_key m in
    let all = key_from-AllIn (length keys) 2 base base keys h in
    let few =
      length-AllIn (base ∷ candidates base (length keys) 2) keys
        (base-NotIn base (length keys) 2, candidates-AreDistinct base (length keys) 2) all in
    absurd (omega (arith, few, length-candidates base (length keys) 2))

abbrev pub keys_of : List ThreadMessage → List Bytes
keys_of [] = []
keys_of (m ∷ ms) = m.key ∷ keys_of ms

-- No key of a list is among others.
abbrev AllNew : List Bytes → List Bytes → Type 0
AllNew keys [] = Unit
AllNew keys (u ∷ us) = (has_key u keys ≡ false) × AllNew keys us

has_key-append :
    (u k : Bytes) (keys : List Bytes)
    → has_key u (keys ++ k ∷ []) ≡ false
    → (has_key u keys ≡ false) × (u ≢ k)
unfolding has_key
has_key-append u k [] h = (
  refl,
  λ e.
      let same : equal k u ≡ true = subst (λ x. equal k x ≡ true) (sym e) (equal_self k) in
      absurd (cc (subst (λ c. (if c then true else false) ≡ false) same h)),
)
has_key-append u k (j ∷ js) h = elim (Bool-cases (equal j u)) [
  | inl e ↦ absurd (cc (subst (λ c. (if c then true else has_key u (js ++ k ∷ [])) ≡ false) e h))
  | inr e ↦
      (let rest =
          has_key-append u k js
            (subst (λ c. (if c then true else has_key u (js ++ k ∷ [])) ≡ false) e h) in
        (rw e (rest.0), rest.1))
]

AllNew-append :
    (keys us : List Bytes) (k : Bytes) → AllNew (keys ++ k ∷ []) us → AllNew keys us × NotIn k us
AllNew-append keys [] k a = (tt, tt)
AllNew-append keys (u ∷ us) k a =
    let one = has_key-append u k keys a.0 in
    let rest = AllNew-append keys us k a.1 in ((one.0, rest.0), (one.1, rest.1))

abbrev pub WithKeys : List Bytes → ℕ → Option (List ThreadMessage) → Type 0
WithKeys keys n o =
    (out : List ThreadMessage) × (o ≡ some out)
    × AllNew keys (keys_of out)
    × AreDistinct (keys_of out)
    × (length out ≡ n)

keyed_with-keys :
    (keys : List Bytes) (n : ℕ) (m : ThreadMessage) (k : Bytes)
    (rest : Bytes → Option (List ThreadMessage))
    → has_key k keys ≡ false
    → WithKeys (keys ++ k ∷ []) n (rest k)
    → WithKeys keys (suc n) (keyed_with m (some k) rest)
keyed_with-keys keys n m k rest h (out, e, a, d, l) =
    let apart = AllNew-append keys (keys_of out) k a in
    (
      record m { key = k } ∷ out,
      ap (with_front (record m { key = k })) e,
      (h, apart.0),
      (apart.1, d),
      ap suc l,
    )

pub set_keys-WithKeys :
    (keys : List Bytes) (ms : List ThreadMessage) → WithKeys keys (length ms) (set_keys keys ms)
unfolding set_keys
set_keys-WithKeys keys [] = ([], refl, tt, tt, refl)
set_keys-WithKeys keys (m ∷ ms) = elim (Option-cases (stable_thread_key m keys)) [
  | inl e ↦ absurd (stable_thread_key-told m keys e)
  | inr (k, e) ↦
      subst
        (λ o.
          WithKeys keys (suc (length ms)) (keyed_with m o (λ key. set_keys (keys ++ key ∷ []) ms)))
        (sym e)
        (keyed_with-keys keys (length ms) m k (λ key. set_keys (keys ++ key ∷ []) ms)
          (stable_thread_key-new m keys k e) (set_keys-WithKeys (keys ++ k ∷ []) ms))
]
