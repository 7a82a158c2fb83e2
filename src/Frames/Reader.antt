-- ===== src/Frames/Reader.antt =====
-- internal/stdioframe/stdioframe.go: `boundedFrameReader`.
use croton_mcp.Base.{
  ℕ, Bool, true, false, not, ◌||◌, Option, none, some, [], ltb, ◌==◌, if◌then◌else◌, Bytes, length,
  take, drop,
}
use croton_mcp.Text.{is_empty}

-- The errors of the reader: its own two, `io.EOF`, and another of the source.
pub data FrameError : Type 0 where
  too_large invalid at_end source_failed : FrameError

-- The error beside a slice: `bufio.ErrBufferFull`, `io.EOF`, or another.
pub data SliceError : Type 0 where
  buffer_full no_more other_error : SliceError

-- `ReadSlice('\n')` of the buffered source, and the checks of a frame: `ValidateObject` with the
-- maximum, and `validProtocolAliases`.
pub record Source (W : Type 0) : Type 0 where
  pub read_slice : W → W × Bytes × Option SliceError
  pub validate_object : Bytes → Bool
  pub valid_protocol_aliases : Bytes → Bool

-- `boundedFrameReader`, over a source in some state.
pub record Reader (W : Type 0) : Type 0 where
  pub world : W
  pub maximum : ℕ
  pub pending : Bytes
  pub terminal : Option FrameError

-- `newBoundedFrameReader`; `none` is a maximum that is negative.
abbrev pub new_reader : {W : Type 0} → W → Option ℕ → Reader W
new_reader w none = record { world = w; maximum = 0; pending = []; terminal = some too_large }
new_reader w (some maximum) = record {
  world = w;
  maximum = maximum;
  pending = [];
  terminal = if maximum == 0 then some too_large else none;
}

abbrev pub is_full : Option SliceError → Bool
is_full (some buffer_full) = true
is_full _ = false

abbrev pub is_other : Option SliceError → Bool
is_other (some other_error) = true
is_other _ = false

-- The error of the end of the source, if it is reached.
abbrev pub end_of : Option SliceError → Option FrameError
end_of (some no_more) = some at_end
end_of _ = none

-- What a call of `Read` returns: its bytes and its error.
abbrev pub Got : Type 0 → Type 0
Got W = Reader W × Bytes × Option FrameError

module _ {W : Type 0} where
  abbrev pub stopped : Reader W → Option FrameError → Got W
  stopped r e = (record r { terminal = e }, [], e)

  abbrev pub copied : ℕ → Reader W → Got W
  copied n r = (record r { pending = drop n r.pending }, take n r.pending, none)

  module _ (source : Source W) where
    -- Behind `ReadSlice`, with the frame and its error.
    unfoldable pub take_frame : ℕ → Bytes → Option SliceError → Reader W → Got W
    take_frame n frame e r =
        if is_full e || ltb r.maximum (length frame)
        then stopped r (some too_large)
        else if is_other e
        then stopped r (some source_failed)
        else if is_empty frame
        then stopped r (end_of e)
        else if not (source.validate_object frame) || not (source.valid_protocol_aliases frame)
        then stopped r (some invalid)
        else copied n (record r { pending = frame; terminal = end_of e })

    abbrev pub fill : ℕ → W × Bytes × Option SliceError → Reader W → Got W
    fill n (w, frame, e) r = take_frame n frame e (record r { world = w })

    abbrev pub refill : ℕ → Option FrameError → Reader W → Got W
    refill n (some e) r = (r, [], some e)
    refill n none r = fill n (source.read_slice r.world) r

    -- `Read` into a destination of this size.
    unfoldable pub read : ℕ → Reader W → Got W
    unfolding take_frame
    read n r =
        if n == 0
        then (r, [], none)
        else if is_empty r.pending
        then refill n r.terminal r
        else copied n r
