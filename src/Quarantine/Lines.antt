-- ===== src/Quarantine/Lines.antt =====
-- A flat line holds no CR or LF but those of the CRLF that ends it.
use croton_mcp.Base.{
  ℕ, ◌+◌, ◌-◌, Bool, true, false, none, [], ◌∷◌, ◌++◌, ◌≡◌, refl, ◌≢◌, arith, length, take, Bytes,
  ◌==◌, append_assoc, length-append, append-nil, ap,
}
use croton_mcp.Quarantine.Control.{Prefix, is_control, fetch_prefix}
use croton_mcp.Quarantine.Feed.{third_space, line_space, line_byte, complete_line, feasible}
use croton_mcp.Quarantine.Fetch.{start_fetch}
use croton_mcp.Quarantine.State.{Mode, between, line, fetch, Quarantine}
use croton_mcp.Text.{contains, contains-append}

abbrev pub HasNoBreak : Bytes → Type 0
HasNoBreak body = (contains b'\r' body ≡ false) × (contains b'\n' body ≡ false)

abbrev cr_if : Bool → Bytes
cr_if true = b'\r' ∷ []
cr_if false = []

-- The frame of a line in progress: a body, and the CR that has been read.
abbrev pub IsLine : Bool → Bytes → Type 0
IsLine line_cr frame = (body : Bytes) × HasNoBreak body × (frame ≡ body ++ cr_if line_cr)

-- A released control: its body and CRLF.
abbrev pub IsControlFrame : Bytes → Type 0
IsControlFrame frame =
    (body : Bytes) × HasNoBreak body
    × (is_control body ≡ true)
    × (frame ≡ body ++ b'\r' ∷ b'\n' ∷ [])

take-append : (s t : Bytes) (n : ℕ) → n ≡ length s → take n (s ++ t) ≡ s
take-append [] t n e = rw e
take-append (x ∷ s) t n e = rw e (ap (◌∷◌ x) (take-append s t (length s) refl))

HasNoBreak-append :
    (body : Bytes) (v : ℕ)
    → HasNoBreak body
    → (v == b'\r') ≡ false
    → (v == b'\n') ≡ false
    → HasNoBreak (body ++ v ∷ [])
unfolding contains
HasNoBreak-append body v h r n =
    ground (arith, contains-append b'\r' body (v ∷ []), contains-append b'\n' body (v ∷ []))

-- What an accepted byte `v` says of the line before it, where it does not begin a FETCH.
abbrev pub LineStep : ℕ → Bool → Mode → Bool → Type 0
LineStep v before between after = (before ≡ true) × (v ≡ b'\n')
LineStep v before line true = (before ≡ false) × (v ≡ b'\r')
LineStep v before line false = (before ≡ false) × ((v == b'\r') ≡ false) × ((v == b'\n') ≡ false)
LineStep v before fetch after = Unit

third_space-mode :
    (p : Prefix) (q : Quarantine)
    → q.mode ≡ line
    → (third_space p q).0.mode ≢ between × ((third_space p q).0.line_cr ≡ q.line_cr)
unfolding third_space start_fetch feasible
third_space-mode Prefix.flat q m = ground arith
third_space-mode Prefix.malformed q m = ground arith
third_space-mode Prefix.fetch q m = ground arith

pub line_byte-LineStep :
    (v : ℕ) (q : Quarantine)
    → q.mode ≡ line
    → (line_byte v q).1 ≡ none
    → LineStep v q.line_cr (line_byte v q).0.mode (line_byte v q).0.line_cr
unfolding line_byte line_space complete_line
line_byte-LineStep v q m e =
    ground (
      arith,
      third_space-mode (fetch_prefix q.frame) (record q { line_spaces = q.line_spaces + 1 }),
    )

pub IsLine-step :
    (v : ℕ) (before after : Bool) (frame : Bytes)
    → IsLine before frame
    → LineStep v before line after
    → IsLine after (frame ++ v ∷ [])
IsLine-step v false true frame (body, clean, e) s = (body, clean, rw e (rw s.1 (rw append-nil)))
IsLine-step v false false frame (body, clean, e) s =
    (body ++ v ∷ [], HasNoBreak-append body v clean s.1 s.2, rw e (simp append-nil))
IsLine-step v true true frame (body, clean, e) s = cc
IsLine-step v true false frame (body, clean, e) s = cc

pub IsLine-IsControlFrame :
    (v : ℕ) (before after : Bool) (frame : Bytes)
    → IsLine before frame
    → LineStep v before between after
    → is_control (take (length (frame ++ v ∷ []) - 2) (frame ++ v ∷ [])) ≡ true
    → IsControlFrame (frame ++ v ∷ [])
IsLine-IsControlFrame v false after frame l s c = cc
IsLine-IsControlFrame v true after frame (body, clean, e) s c =
    let whole : frame ++ v ∷ [] ≡ body ++ b'\r' ∷ b'\n' ∷ [] =
      rw e (rw s.1 (append_assoc body (b'\r' ∷ []) (b'\n' ∷ []))) in
    (
      body,
      clean,
      rw
          (take-append body (b'\r' ∷ b'\n' ∷ []) (length (body ++ b'\r' ∷ b'\n' ∷ []) - 2)
            (omega (arith, length-append body (b'\r' ∷ b'\n' ∷ []))))
          at (rw whole at c),
      whole,
    )
