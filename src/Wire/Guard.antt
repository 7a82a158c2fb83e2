-- ===== src/Wire/Guard.antt =====
-- bridge/imapclient.go: `dispatchGuardConn`, the only way out of the session while a MOVE is dispatched.
use croton_mcp.Base.{
  ℕ, Bool, true, false, not, ◌&&◌, ◌||◌, Option, none, some, ◌++◌, if◌then◌else◌, Bytes, codes,
}
use croton_mcp.Text.{format_uint, is_empty, contains, cut, cut_last, cut_prefix}

pub record Guard : Type 0 where
  pub is_armed : Bool
  pub is_used : Bool
  pub is_tripped : Bool
  pub prefix : Bytes

-- `arm`.
unfoldable pub arm : ℕ → Guard → Guard
unfolding format_uint
arm uid g = record {
  is_armed = true;
  is_used = false;
  is_tripped = false;
  prefix = codes "UID MOVE " ++ format_uint uid ++ codes " ";
}

-- `disarm`, and whether a write was refused.
unfoldable pub disarm : Guard → Guard × Bool
disarm g = (record g { is_armed = false }, g.is_tripped)

-- `strings.CutSuffix` at a line end.
abbrev pub cut_line_end : Bytes → Option Bytes
cut_line_end s = elim (cut_last b'\n' s) [ none ↦ none | some t ↦ cut_last b'\r' t ]

abbrev pub ends_in : ℕ → Bytes → Bool
ends_in c s = elim (cut_last c s) [ none ↦ false | some t ↦ true ]

abbrev pub move_mailbox : Option Bytes → Bool
move_mailbox none = false
move_mailbox (some mailbox) = not (is_empty mailbox) && not (ends_in b'}' mailbox)

abbrev pub move_command : Bytes → Bytes × Bytes × Bool → Bool
move_command prefix (tag, command, found) =
    if not found || is_empty tag then false else move_mailbox (cut_prefix prefix command)

abbrev pub move_body : Bytes → Option Bytes → Bool
move_body prefix none = false
move_body prefix (some body) =
    if contains b'\r' body || contains b'\n' body
    then false
    else move_command prefix (cut b' ' body)

-- `nativeMoveLine`.
unfoldable pub native_move_line : Bytes → Bytes → Bool
native_move_line buffer prefix = move_body prefix (cut_line_end buffer)

-- `Write`: whether the buffer is forwarded; where it is not, the connection is closed.
unfoldable pub write : Bytes → Guard → Guard × Bool
write buffer g =
    if g.is_armed
    then (if g.is_tripped || g.is_used || not (native_move_line buffer g.prefix)
        then (record g { is_tripped = true }, false)
        else (record g { is_used = true }, true))
    else (g, true)
