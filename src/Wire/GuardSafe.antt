-- ===== src/Wire/GuardSafe.antt =====
-- What leaves the session between arming and disarming the guard.
use croton_mcp.Base.{
  ℕ, Bool, true, false, ◌||◌, Option, none, some, List, [], ◌∷◌, ◌++◌, if◌then◌else◌, Bytes, codes,
  not, ◌&&◌, ◌==◌, ◌≡◌, refl, sym, ap, ◌∙◌, arith, of_branches, append_assoc,
}
use croton_mcp.Text.{format_uint, is_empty, contains, cut, cut_last, cut_prefix}
use croton_mcp.Wire.Guard.{
  Guard, arm, write, ends_in, native_move_line, cut_line_end, move_body, move_command, move_mailbox,
}

-- A run of writes, with the buffers that are forwarded.
unfoldable pub write_all : List Bytes → Guard → Guard × List Bytes
write_all [] g = (g, [])
write_all (b ∷ bs) g =
    let step = write b g in
    let rest = write_all bs step.0 in (rest.0, if step.1 then b ∷ rest.1 else rest.1)

abbrev pub command_text : Bytes → Bytes → Bytes → Bytes
command_text tag prefix mailbox = tag ++ (b' ' ∷ (prefix ++ mailbox))

abbrev pub line_end : Bytes
line_end = b'\r' ∷ b'\n' ∷ []

-- One complete command line: a tag of one word, the prefix, and a mailbox that does not end in `}`, as
-- the size of a literal does; no other line break.
pub record IsMoveLine (prefix line : Bytes) : Type 0 where
  pub tag : Bytes
  pub mailbox : Bytes
  pub reads : line ≡ command_text tag prefix mailbox ++ line_end
  pub tagged : is_empty tag ≡ false
  pub one_word : contains b' ' tag ≡ false
  pub named : is_empty mailbox ≡ false
  pub no_literal : ends_in b'}' mailbox ≡ false
  pub no_return : contains b'\r' (command_text tag prefix mailbox) ≡ false
  pub no_feed : contains b'\n' (command_text tag prefix mailbox) ≡ false

some_behind :
    (x : ℕ) (o : Option Bytes) (t : Bytes)
    → (elim o as (λ _. Option Bytes) [ none ↦ none | some u ↦ some (x ∷ u) ]) ≡ some t
    → (u : Bytes) × (o ≡ some u) × (x ∷ u ≡ t)
some_behind x none t e = absurd (cc e)
some_behind x (some u) t e = (u, refl, cc e)

cut_last-eq : (c : ℕ) (s t : Bytes) → cut_last c s ≡ some t → s ≡ t ++ c ∷ []
unfolding cut_last
cut_last-eq c [] t e = absurd (ground (arith, e))
cut_last-eq c (x ∷ []) t e =
    of_branches (λ (o : Option Bytes). o ≡ some t → x ∷ [] ≡ t ++ c ∷ []) (x == c) (some []) none
      (λ f e. let same : x ≡ c = ground (arith, f) in let nil : [] ≡ t = cc e in rw (same, sym nil))
      (λ f e. absurd (ground (arith, e))) e
cut_last-eq c (x ∷ y ∷ s) t e =
    let (u, f, g) = some_behind x (cut_last c (y ∷ s)) t e in
    ap (◌∷◌ x) (cut_last-eq c (y ∷ s) u f) ∙ ap (λ v. v ++ c ∷ []) g

cut_prefix-eq : (p s t : Bytes) → cut_prefix p s ≡ some t → s ≡ p ++ t
unfolding cut_prefix
cut_prefix-eq [] s t e = cc e
cut_prefix-eq (x ∷ p) [] t e = absurd (ground (arith, e))
cut_prefix-eq (x ∷ p) (y ∷ s) t e =
    of_branches (λ (o : Option Bytes). o ≡ some t → y ∷ s ≡ x ∷ (p ++ t)) (y == x) (cut_prefix p s)
      none
      (λ f e. let same : y ≡ x = ground (arith, f) in rw same (ap (◌∷◌ x) (cut_prefix-eq p s t e)))
      (λ f e. absurd (ground (arith, e))) e

cut-eq : (c : ℕ) (s : Bytes) → (cut c s).2 ≡ true → s ≡ (cut c s).0 ++ c ∷ (cut c s).1
unfolding cut
cut-eq c [] e = absurd (ground (arith, e))
cut-eq c (x ∷ s) e =
    of_branches (λ (r : Bytes × Bytes × Bool). r.2 ≡ true → x ∷ s ≡ r.0 ++ c ∷ r.1) (x == c)
      ([], s, true) (x ∷ (cut c s).0, (cut c s).1, (cut c s).2)
      (λ f e. let same : x ≡ c = ground (arith, f) in rw same) (λ f e. ap (◌∷◌ x) (cut-eq c s e)) e

cut-contains : (c : ℕ) (s : Bytes) → contains c (cut c s).0 ≡ false
unfolding cut contains
cut-contains c [] = refl
cut-contains c (x ∷ s) =
    of_branches (λ (r : Bytes × Bytes × Bool). contains c r.0 ≡ false) (x == c) ([], s, true)
      (x ∷ (cut c s).0, (cut c s).1, (cut c s).2) (λ f. refl)
      (λ f. let rest = cut-contains c s in ground (arith, f, rest))

both_refused : (a b : Bool) → (not a && not b) ≡ true → (a ≡ false) × (b ≡ false)
both_refused a b e = ground (arith, e)

move_mailbox-named :
    (o : Option Bytes)
    → move_mailbox o ≡ true
    → (m : Bytes) × (o ≡ some m) × (is_empty m ≡ false) × (ends_in b'}' m ≡ false)
move_mailbox-named none e = absurd (ground (arith, e))
move_mailbox-named (some m) e =
    let r = both_refused (is_empty m) (ends_in b'}' m) e in (m, refl, r.0, r.1)

cut_twice-eq :
    (s body : Bytes) (o : Option Bytes)
    → cut_last b'\n' s ≡ o
    → (elim o as (λ _. Option Bytes) [ none ↦ none | some t ↦ cut_last b'\r' t ]) ≡ some body
    → s ≡ body ++ line_end
cut_twice-eq s body none f g = absurd (cc g)
cut_twice-eq s body (some t) f g =
    cut_last-eq b'\n' s t f
    ∙ ap (λ u. u ++ b'\n' ∷ []) (cut_last-eq b'\r' t body g)
    ∙ append_assoc body (b'\r' ∷ []) (b'\n' ∷ [])

cut_line_end-eq : (s body : Bytes) → cut_line_end s ≡ some body → s ≡ body ++ line_end
cut_line_end-eq s body e = cut_twice-eq s body (cut_last b'\n' s) refl e

move_command-reads :
    (prefix body : Bytes)
    → move_command prefix (cut b' ' body) ≡ true
    → (tag : Bytes) × (mailbox : Bytes) × (body ≡ command_text tag prefix mailbox)
      × (is_empty tag ≡ false)
      × (contains b' ' tag ≡ false)
      × (is_empty mailbox ≡ false)
      × (ends_in b'}' mailbox ≡ false)
move_command-reads prefix body e =
    let parts = cut b' ' body in
    let (mailbox, g, named, no_literal) =
      move_mailbox-named (cut_prefix prefix (cut b' ' body).1) (ground (arith, e)) in
    (
      (cut b' ' body).0,
      mailbox,
      cut-eq b' ' body (ground (arith, e))
          ∙ ap (λ c. (cut b' ' body).0 ++ (b' ' ∷ c))
              (cut_prefix-eq prefix (cut b' ' body).1 mailbox g),
      ground (arith, e),
      cut-contains b' ' body,
      named,
      no_literal,
    )

framed_command :
    (prefix line body : Bytes)
    → line ≡ body ++ line_end
    → contains b'\r' body ≡ false
    → contains b'\n' body ≡ false
    → ((tag : Bytes) × (mailbox : Bytes) × (body ≡ command_text tag prefix mailbox)
        × (is_empty tag ≡ false)
        × (contains b' ' tag ≡ false)
        × (is_empty mailbox ≡ false)
        × (ends_in b'}' mailbox ≡ false))
    → IsMoveLine prefix line
framed_command prefix line body l r n (tag, mailbox, reads, tagged, one_word, named, no_literal) =
    record {
      tag = tag;
      mailbox = mailbox;
      reads = l ∙ ap (λ b. b ++ line_end) reads;
      tagged = tagged;
      one_word = one_word;
      named = named;
      no_literal = no_literal;
      no_return = ap (contains b'\r') (sym reads) ∙ r;
      no_feed = ap (contains b'\n') (sym reads) ∙ n;
    }

move_body-IsMoveLine :
    (prefix line : Bytes) (o : Option Bytes)
    → cut_line_end line ≡ o
    → move_body prefix o ≡ true
    → IsMoveLine prefix line
move_body-IsMoveLine prefix line none f e = absurd (ground (arith, e))
move_body-IsMoveLine prefix line (some body) f e =
    framed_command prefix line body (cut_line_end-eq line body f) (ground (arith, e))
      (ground (arith, e)) (move_command-reads prefix body (ground (arith, e)))

-- Nothing is forwarded any more while the guard is armed.
abbrev IsSpent : Guard → Type 0
IsSpent g = (g.is_armed ≡ true) × ((g.is_tripped || g.is_used) ≡ true)

write-IsSpent :
    (buffer : Bytes) (g : Guard)
    → IsSpent g
    → ((write buffer g).1 ≡ false) × IsSpent (write buffer g).0
unfolding write
write-IsSpent buffer g h = ground (arith, h)

write_all-spent : (bs : List Bytes) (g : Guard) → IsSpent g → (write_all bs g).1 ≡ []
unfolding write_all
write_all-spent [] g h = refl
write_all-spent (b ∷ bs) g h =
    let step = write-IsSpent b g h in rw (step.0) (write_all-spent bs (write b g).0 step.1)

-- What an armed guard forwards: nothing, or one line of the native MOVE.
abbrev pub IsOneMove : Bytes → List Bytes → Type 0
IsOneMove prefix [] = Unit
IsOneMove prefix (line ∷ []) = IsMoveLine prefix line
IsOneMove prefix (line ∷ more ∷ lines) = ⊥

abbrev IsFresh : Guard → Type 0
IsFresh g = (g.is_armed ≡ true) × (g.is_tripped ≡ false) × (g.is_used ≡ false)

write-fresh :
    (buffer : Bytes) (g : Guard)
    → IsFresh g
    → IsSpent (write buffer g).0 × ((write buffer g).1 ≡ native_move_line buffer g.prefix)
unfolding write
write-fresh buffer g h = ground (arith, h)

one_line : (b prefix : Bytes) → native_move_line b prefix ≡ true → IsMoveLine prefix b
unfolding native_move_line
one_line b prefix e = move_body-IsMoveLine prefix b (cut_line_end b) refl e

write_all-IsOneMove :
    (bs : List Bytes) (g : Guard) → IsFresh g → IsOneMove g.prefix (write_all bs g).1
unfolding write_all
write_all-IsOneMove [] g h = tt
write_all-IsOneMove (b ∷ bs) g h =
    let step = write-fresh b g h in
    rw (write_all-spent bs (write b g).0 step.0) (
      of_branches (λ (l : List Bytes). IsOneMove g.prefix l) (write b g).1 (b ∷ []) []
        (λ e. one_line b g.prefix (sym step.1 ∙ e)) (λ e. tt))

-- Between arming the guard for a UID and disarming it, whatever is written, at most one buffer leaves
-- the session, and it is one complete line: a tag of one word, the UID MOVE of that UID, and a mailbox
-- that announces no literal; there is no line break but the one at its end.
pub arm-IsOneMove :
    (uid : ℕ) (g : Guard) (bs : List Bytes)
    → IsOneMove (codes "UID MOVE " ++ format_uint uid ++ codes " ") (write_all bs (arm uid g)).1
unfolding arm
arm-IsOneMove uid g bs = write_all-IsOneMove bs (arm uid g) (refl, refl, refl)
