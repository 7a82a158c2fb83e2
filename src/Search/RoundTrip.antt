-- ===== src/Search/RoundTrip.antt =====
-- A message identifier decodes to the payload it was made of, and none decodes that was not signed.
use croton_mcp.Base.{
  ℕ, zero, suc, ◌+◌, ◌-◌, ◌≤◌, false, ◌||◌, Option, none, some, [], ◌∷◌, ◌++◌, ltb, leb, Bytes,
  length, length-append, take, drop, take-append-drop, ◌≡◌, refl, sym, ap, subst, ◌∙◌, arith,
  of_branches,
}
use croton_mcp.Codes.{stale_message_id, imap_protocol}
use croton_mcp.Search.Identifier.{
  max_message_id_bytes, max_message_id_encoded_bytes, sha256_size, Payload, is_blank, Codec, sign,
  encode_message_id, opened, authenticated, decoded, decode_message_id,
}
use croton_mcp.Text.{equal, equal-eq, equal_self}
use croton_mcp.Triage.Result.{done, failed, done-injective}

take-append : (s t : Bytes) (n : ℕ) → n ≡ length s → take n (s ++ t) ≡ s
take-append [] t zero h = refl
take-append [] t (suc n) h = absurd (omega (arith, h))
take-append (c ∷ s) t zero h = absurd (omega (arith, h))
take-append (c ∷ s) t (suc n) h = ap (λ r. c ∷ r) (take-append s t n (omega (arith, h)))

drop-append : (s t : Bytes) (n : ℕ) → n ≡ length s → drop n (s ++ t) ≡ t
drop-append [] t zero h = refl
drop-append [] t (suc n) h = absurd (omega (arith, h))
drop-append (c ∷ s) t zero h = absurd (omega (arith, h))
drop-append (c ∷ s) t (suc n) h = drop-append s t n (omega (arith, h))

-- What the libraries document of the codec, for the signing code and the encoding.
pub record IsSound (codec : Codec) : Type 0 where
  pub mac_length : (b : Bytes) → length (codec.mac b) ≡ sha256_size
  pub base64 : (b : Bytes) → codec.decode_base64 (codec.encode_base64 b) ≡ some b
  pub no_empty_json : codec.unmarshal [] ≡ none

module _ (codec : Codec) (sound : IsSound codec) where
  -- What `encodeMessageID` accepts of a payload.
  abbrev Signed : Payload → Bytes → Type 0
  Signed p value =
      (b : Bytes) × (codec.marshal p ≡ some b)
      × (is_blank p ≡ false)
      × (length b + sha256_size ≤ max_message_id_bytes)
      × (length value ≤ max_message_id_encoded_bytes)
      × (value ≡ codec.encode_base64 (b ++ codec.mac b))

  sign-Signed :
      (p : Payload) (value : Bytes) (o : Option Bytes)
      → codec.marshal p ≡ o
      → is_blank p ≡ false
      → sign codec o ≡ done value
      → Signed p value
  sign-Signed p value none m e h = absurd (cc h)
  sign-Signed p value (some b) m e h = ground (arith, m, e, h)

  encode_message_id-Signed :
      (p : Payload) (value : Bytes) → encode_message_id codec p ≡ done value → Signed p value
  unfolding encode_message_id
  encode_message_id-Signed p value h =
      of_branches (λ r. r ≡ done value → Signed p value) (is_blank p) (failed imap_protocol)
        (sign codec (codec.marshal p)) (λ e d. absurd (cc d))
        (λ e d. sign-Signed p value (codec.marshal p) refl e d) h

  authenticated-mac :
      (p : Payload) (b : Bytes)
      → codec.unmarshal b ≡ some p
      → is_blank p ≡ false
      → authenticated codec b (codec.mac b) ≡ done p
  authenticated-mac p b u e = rw (equal_self (codec.mac b)) (rw u (rw e refl))

  decoded-signed :
      (p : Payload) (b : Bytes)
      → codec.unmarshal b ≡ some p
      → is_blank p ≡ false
      → 1 ≤ length b
      → length b + sha256_size ≤ max_message_id_bytes
      → decoded codec (some (b ++ codec.mac b)) ≡ done p
  decoded-signed p b u e n l =
      let size : length (b ++ codec.mac b) ≡ length b + sha256_size =
        length-append b (codec.mac b) ∙ ap (λ k. length b + k) (sound.mac_length b) in
      let at : length (b ++ codec.mac b) - sha256_size ≡ length b = omega (arith, size) in
      let accepted : (leb (length (b ++ codec.mac b)) sha256_size
            || ltb max_message_id_bytes (length (b ++ codec.mac b)))
          ≡ false =
        ground (arith, size, n, l) in
      rw accepted (
        rw (take-append b (codec.mac b) (length (b ++ codec.mac b) - sha256_size) at) (
          rw (drop-append b (codec.mac b) (length (b ++ codec.mac b) - sha256_size) at)
            (authenticated-mac p b u e)))

  unmarshal-length : (p : Payload) (b : Bytes) → codec.unmarshal b ≡ some p → 1 ≤ length b
  unmarshal-length p [] u = absurd (cc (u, sound.no_empty_json))
  unmarshal-length p (c ∷ b) u = omega arith

  decode_message_id-Signed :
      (p : Payload) (value : Bytes)
      → ((b : Bytes) → codec.marshal p ≡ some b → codec.unmarshal b ≡ some p)
      → Signed p value
      → decode_message_id codec value ≡ done p
  unfolding decode_message_id
  decode_message_id-Signed p value json (b, m, e, l, v, q) =
      let u = json b m in
      let short : ltb max_message_id_encoded_bytes (length value) ≡ false = ground (arith, v) in
      let bytes : codec.decode_base64 value ≡ some (b ++ codec.mac b) =
        ap codec.decode_base64 q ∙ sound.base64 (b ++ codec.mac b) in
      rw short (rw bytes (decoded-signed p b u e (unmarshal-length p b u) l))

  -- Whatever identifier `encodeMessageID` gives for a payload, `decodeMessageID` gives back the payload,
  -- if the payload survives JSON, the signing code has 32 bytes, base64 decodes what it encodes, and the
  -- empty text is no JSON.
  pub decode_message_id-encode_message_id :
      (p : Payload) (value : Bytes)
      → ((b : Bytes) → codec.marshal p ≡ some b → codec.unmarshal b ≡ some p)
      → encode_message_id codec p ≡ done value
      → decode_message_id codec value ≡ done p
  decode_message_id-encode_message_id p value json h =
      decode_message_id-Signed p value json (encode_message_id-Signed p value h)

module _ (codec : Codec) where
  -- The identifier decodes to a text followed by its signing code, and the text reads as the payload.
  abbrev pub IsAuthentic : Bytes → Payload → Type 0
  IsAuthentic value p =
      (b : Bytes) × (codec.decode_base64 value ≡ some (b ++ codec.mac b))
      × (codec.unmarshal b ≡ some p)
      × (is_blank p ≡ false)

  abbrev Opens : Bytes → Bytes → Payload → Type 0
  Opens payload code p =
      (code ≡ codec.mac payload) × (codec.unmarshal payload ≡ some p) × (is_blank p ≡ false)

  opened-done :
      (p : Payload) (o : Option Payload)
      → opened codec o ≡ done p
      → (o ≡ some p) × (is_blank p ≡ false)
  opened-done p none h = absurd (cc h)
  opened-done p (some q) h =
      of_branches (λ r. r ≡ done p → (some q ≡ some p) × (is_blank p ≡ false)) (is_blank q)
        (failed stale_message_id) (done q) (λ e d. absurd (cc d))
        (λ e d.
          let same : q ≡ p = done-injective d in
          (ap some same, subst (λ r. is_blank r ≡ false) same e))
        h

  authenticated-Opens :
      (payload code : Bytes) (p : Payload)
      → authenticated codec payload code ≡ done p
      → Opens payload code p
  authenticated-Opens payload code p h =
      of_branches (λ r. r ≡ done p → Opens payload code p) (equal code (codec.mac payload))
        (opened codec (codec.unmarshal payload)) (failed stale_message_id)
        (λ e d.
          let o = opened-done p (codec.unmarshal payload) d in
          (equal-eq code (codec.mac payload) e, o.0, o.1))
        (λ e d. absurd (cc d)) h

  decoded-IsAuthentic :
      (value : Bytes) (p : Payload) (o : Option Bytes)
      → codec.decode_base64 value ≡ o
      → decoded codec o ≡ done p
      → IsAuthentic value p
  decoded-IsAuthentic value p none e h = absurd (cc h)
  decoded-IsAuthentic value p (some bytes) e h =
      let n = length bytes - sha256_size in
      of_branches (λ r. r ≡ done p → IsAuthentic value p)
        (leb (length bytes) sha256_size || ltb max_message_id_bytes (length bytes))
        (failed stale_message_id) (authenticated codec (take n bytes) (drop n bytes))
        (λ c d. absurd (cc d))
        (λ c d.
          let o = authenticated-Opens (take n bytes) (drop n bytes) p d in
          (
            take n bytes,
            e ∙ ap some (sym (take-append-drop n bytes) ∙ ap (λ r. take n bytes ++ r) o.0),
            o.1,
            o.2,
          ))
        h

  -- If an identifier decodes to a payload, then base64 decodes it to a text followed by the signing code
  -- of that text, JSON reads the text as the payload, and no field of the payload is blank.
  pub decode_message_id-IsAuthentic :
      (value : Bytes) (p : Payload) → decode_message_id codec value ≡ done p → IsAuthentic value p
  unfolding decode_message_id
  decode_message_id-IsAuthentic value p h =
      of_branches (λ r. r ≡ done p → IsAuthentic value p)
        (ltb max_message_id_encoded_bytes (length value)) (failed stale_message_id)
        (decoded codec (codec.decode_base64 value)) (λ e d. absurd (cc d))
        (λ e d. decoded-IsAuthentic value p _ refl d) h
