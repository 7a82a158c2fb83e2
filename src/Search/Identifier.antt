-- ===== src/Search/Identifier.antt =====
-- bridge/search.go: the opaque message identifiers, `encodeMessageID` and `decodeMessageID`.
use croton_mcp.Base.{
  ℕ, ◌+◌, ◌-◌, Bool, ◌||◌, Option, none, some, ◌++◌, ltb, leb, ◌==◌, if◌then◌else◌, Bytes, length,
  take, drop,
}
use croton_mcp.Codes.{bounds_exceeded, stale_message_id, imap_protocol}
use croton_mcp.Text.{equal, is_empty}
use croton_mcp.Triage.Result.{Result, done, failed}

abbrev pub max_message_id_bytes : ℕ
max_message_id_bytes = 1024

abbrev pub max_message_id_encoded_bytes : ℕ
max_message_id_encoded_bytes = 1366

-- `sha256.Size`.
abbrev pub sha256_size : ℕ
sha256_size = 32

-- `messageIDPayload`.
pub record Payload : Type 0 where
  pub mailbox : Bytes
  pub uid_validity : ℕ
  pub uid : ℕ

abbrev pub is_blank : Payload → Bool
is_blank p = is_empty p.mailbox || p.uid_validity == 0 || p.uid == 0

-- What the code uses of the libraries: `json.Marshal` and `json.Unmarshal` of a payload, the HMAC
-- with the adapter's key, and the raw URL encoding of base64.
pub record Codec : Type 0 where
  pub marshal : Payload → Option Bytes
  pub unmarshal : Bytes → Option Payload
  pub mac : Bytes → Bytes
  pub encode_base64 : Bytes → Bytes
  pub decode_base64 : Bytes → Option Bytes

module _ (codec : Codec) where
  abbrev pub bounded_value : Bytes → Result Bytes
  bounded_value value =
      if ltb max_message_id_encoded_bytes (length value) then failed bounds_exceeded else done value

  abbrev pub sign : Option Bytes → Result Bytes
  sign none = failed imap_protocol
  sign (some encoded) =
      if ltb max_message_id_bytes (length encoded + sha256_size)
      then failed bounds_exceeded
      else bounded_value (codec.encode_base64 (encoded ++ codec.mac encoded))

  -- `encodeMessageID`.
  unfoldable pub encode_message_id : Payload → Result Bytes
  encode_message_id p = if is_blank p then failed imap_protocol else sign (codec.marshal p)

  abbrev pub opened : Option Payload → Result Payload
  opened none = failed stale_message_id
  opened (some p) = if is_blank p then failed stale_message_id else done p

  -- The decoded value as the payload in front and the code behind it.
  abbrev pub authenticated : Bytes → Bytes → Result Payload
  authenticated payload code =
      if equal code (codec.mac payload)
      then opened (codec.unmarshal payload)
      else failed stale_message_id

  abbrev pub decoded : Option Bytes → Result Payload
  decoded none = failed stale_message_id
  decoded (some bytes) =
      if leb (length bytes) sha256_size || ltb max_message_id_bytes (length bytes)
      then failed stale_message_id
      else authenticated (take (length bytes - sha256_size) bytes)
          (drop (length bytes - sha256_size) bytes)

  -- `decodeMessageID`.
  unfoldable pub decode_message_id : Bytes → Result Payload
  decode_message_id value =
      if ltb max_message_id_encoded_bytes (length value)
      then failed stale_message_id
      else decoded (codec.decode_base64 value)
