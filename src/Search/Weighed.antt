-- ===== src/Search/Weighed.antt =====
-- The messages of a page: their identifiers, and the bytes of the page as JSON.
use croton_mcp.Base.{
  ℕ, ◌+◌, ◌-◌, ◌≤◌, ◌||◌, Option, none, some, List, [], ◌∷◌, ◌++◌, ltb, Bytes, length, ◌≡◌, refl,
  sym, ap, subst, ◌∙◌, append-nil, append_assoc, arith, of_branches,
}
use croton_mcp.Codes.{Code, bounds_exceeded}
use croton_mcp.Search.Fetched.{Metadata, uids_of}
use croton_mcp.Search.Page.{
  Finder, Found, separator_bytes, identified, add_encoded, add_identified, add_message,
  add_messages,
}
use croton_mcp.Triage.Result.{Result, done, failed, done-injective}

uids_of-append : (ms ns : List Metadata) → uids_of (ms ++ ns) ≡ uids_of ms ++ uids_of ns
uids_of-append [] ns = refl
uids_of-append (m ∷ ms) ns = ap (λ l. m.own_uid ∷ l) (uids_of-append ms ns)

abbrev size_of : Option Bytes → ℕ
size_of none = 0
size_of (some b) = length b

module _ {W : Type 0} (finder : Finder W) where
  abbrev pub json_size : Metadata → ℕ
  json_size m = size_of (finder.marshal m)

  abbrev pub bytes_behind : List Metadata → ℕ
  bytes_behind [] = 0
  bytes_behind (m ∷ ms) = 1 + json_size m + bytes_behind ms

  -- The bytes of a JSON array of messages: its brackets, the messages, and a comma between two.
  abbrev pub page_bytes : List Metadata → ℕ
  page_bytes [] = 2
  page_bytes (m ∷ ms) = 2 + json_size m + bytes_behind ms

  -- Each message carries the mailbox, the generation and its UID, and the identifier of these three.
  abbrev pub AreNamed : ℕ → List Metadata → Type 0
  AreNamed validity [] = Unit
  AreNamed validity (m ∷ ms) =
      (m.mailbox ≡ finder.mailbox)
      × (m.uid_validity ≡ validity)
      × (m.uid ≡ m.own_uid)
      × (finder.identify
            (record { mailbox = m.mailbox; uid_validity = m.uid_validity; uid = m.uid })
          ≡ done m.id)
      × AreNamed validity ms

  pub AreNamed-append :
      (validity : ℕ) (ms ns : List Metadata)
      → AreNamed validity ms
      → AreNamed validity ns
      → AreNamed validity (ms ++ ns)
  AreNamed-append validity [] ns a b = b
  AreNamed-append validity (m ∷ ms) ns (p, q, r, s, a) b =
      (p, q, r, s, AreNamed-append validity ms ns a b)

  bytes_behind-append :
      (ms : List Metadata) (m : Metadata)
      → bytes_behind (ms ++ m ∷ []) ≡ bytes_behind ms + json_size m + 1
  bytes_behind-append [] m = omega arith
  bytes_behind-append (n ∷ ns) m = omega (arith, bytes_behind-append ns m)

  page_bytes-append :
      (ms : List Metadata) (m : Metadata)
      → page_bytes (ms ++ m ∷ []) ≡ page_bytes ms + (json_size m + separator_bytes ms)
  page_bytes-append [] m = omega arith
  page_bytes-append (n ∷ ns) m = omega (arith, bytes_behind-append ns m)

  -- The output bound holds of the bytes counted, which are those of the page.
  abbrev pub IsWeighed : ℕ → Found → Type 0
  IsWeighed validity f =
      (f.output_bytes ≡ page_bytes f.messages)
      × (f.output_bytes ≤ finder.max_output_bytes)
      × AreNamed validity f.messages

  -- What a successful addition makes of the variables.
  abbrev Added : ℕ → Found → List ℕ → Found → Type 0
  Added validity f uids g =
      (uids_of g.messages ≡ uids_of f.messages ++ uids)
      × (g.remaining ≡ f.remaining)
      × IsWeighed validity g

  add_encoded-Added :
      (validity : ℕ) (f g : Found) (m : Metadata) (o : Option Bytes)
      → finder.marshal m ≡ o
      → AreNamed validity (m ∷ [])
      → IsWeighed validity f
      → add_encoded finder f m o ≡ done g
      → Added validity f (m.own_uid ∷ []) g
  add_encoded-Added validity f g m none e n k h = absurd (cc h)
  add_encoded-Added validity f g m (some b) e n k h =
      let bytes = length b + separator_bytes f.messages in
      let size : json_size m ≡ length b = ap size_of e in
      of_branches (λ r. r ≡ done g → Added validity f (m.own_uid ∷ []) g)
        (ltb finder.max_output_bytes f.output_bytes
          || ltb (finder.max_output_bytes - f.output_bytes) bytes)
        (failed bounds_exceeded)
        (done (record f { messages = f.messages ++ m ∷ []; output_bytes = f.output_bytes + bytes }))
        (λ c d. absurd (cc d))
        (λ c d. subst (Added validity f (m.own_uid ∷ [])) (done-injective d) (
          uids_of-append f.messages (m ∷ []),
          refl,
          (
            omega (arith, k.0, size, page_bytes-append f.messages m),
            ground (arith, c),
            AreNamed-append validity f.messages (m ∷ []) k.2 n,
          ),
        ))
        h

  add_identified-Added :
      (validity : ℕ) (f g : Found) (m : Metadata) (r : Result Bytes)
      → finder.identify
          (record { mailbox = finder.mailbox; uid_validity = validity; uid = m.own_uid })
        ≡ r
      → IsWeighed validity f
      → add_identified finder validity f m r ≡ done g
      → Added validity f (m.own_uid ∷ []) g
  add_identified-Added validity f g m (failed code) e k h = absurd (cc h)
  add_identified-Added validity f g m (done id) e k h =
      add_encoded-Added validity f g (identified finder validity m id) _ refl
        (refl, refl, refl, e, tt) k h

  add_message-Added :
      (validity : ℕ) (f g : Found) (m : Metadata)
      → IsWeighed validity f
      → add_message finder validity f m ≡ done g
      → Added validity f (m.own_uid ∷ []) g
  unfolding add_message
  add_message-Added validity f g m k h = add_identified-Added validity f g m _ refl k h

  failed_stays :
      (validity : ℕ) (ms : List Metadata) (code : Code)
      → add_messages finder validity ms (failed code) ≡ failed code
  unfolding add_messages
  failed_stays validity ms code = refl

  add_messages-next :
      (validity : ℕ) (m : Metadata) (ms : List Metadata) (f g : Found)
      → ((f1 : Found)
          → IsWeighed validity f1
          → add_messages finder validity ms (done f1) ≡ done g
          → Added validity f1 (uids_of ms) g)
      → IsWeighed validity f
      → (r : Result Found) → add_message finder validity f m ≡ r
      → add_messages finder validity ms r ≡ done g
      → Added validity f (uids_of (m ∷ ms)) g
  add_messages-next validity m ms f g rest k (failed code) e h =
      absurd (cc (failed_stays validity ms code, h))
  add_messages-next validity m ms f g rest k (done f1) e h =
      let one = add_message-Added validity f f1 m k e in
      let all = rest f1 one.2 h in
      (
        all.0
            ∙ ap (λ l. l ++ uids_of ms) one.0
            ∙ append_assoc (uids_of f.messages) (m.own_uid ∷ []) (uids_of ms),
        all.1 ∙ one.1,
        all.2,
      )

  pub add_messages-Added :
      (validity : ℕ) (ms : List Metadata) (f g : Found)
      → IsWeighed validity f
      → add_messages finder validity ms (done f) ≡ done g
      → Added validity f (uids_of ms) g
  unfolding add_messages
  add_messages-Added validity [] f g k h =
      subst (Added validity f []) (done-injective h)
        (sym (append-nil (uids_of f.messages)), refl, k)
  add_messages-Added validity (m ∷ ms) f g k h =
      add_messages-next validity m ms f g (λ f1 k1 e. add_messages-Added validity ms f1 g k1 e) k
        (add_message finder validity f m) refl h
