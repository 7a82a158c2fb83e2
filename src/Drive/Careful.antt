-- ===== src/Drive/Careful.antt =====
-- What is recorded of a file written under a root: descriptors are closed in the reverse of the order they
-- are opened in, and only what was written and closed is linked.
use croton_mcp.Base.{
  ℕ, suc, ◌≤◌, Bool, true, false, Option, none, some, List, [], ◌∷◌, ◌++◌, ◌==◌, if◌then◌else◌, ◌≡◌,
  refl, arith,
}
use croton_mcp.Drive.Confined.{
  Failure, Call, opened, closed, wrote, linked, file_removed, directory_removed, Done, unless,
}

-- The descriptors that are open after one more call, the latest in front; `none` where one is closed
-- that is not the latest.
abbrev pub after_call : Call → Option (List ℕ) → Option (List ℕ)
after_call (opened fd) (some fds) = some (fd ∷ fds)
after_call (opened fd) none = none
after_call (closed fd ok) (some []) = none
after_call (closed fd ok) (some (x ∷ fds)) = if x == fd then some fds else none
after_call (closed fd ok) none = none
after_call (wrote fd ok) r = r
after_call (linked ok) r = r
after_call (file_removed ok) r = r
after_call (directory_removed ok) r = r

unfoldable pub replay : List Call → Option (List ℕ)
replay [] = some []
replay (c ∷ log) = after_call c (replay log)

-- A link stands behind a successful close of what was successfully written.
abbrev pub IsWritten : List Call → Type 0
IsWritten (closed fd true ∷ wrote x true ∷ log) = fd ≡ x
IsWritten _ = ⊥

abbrev pub IsCareful : List Call → Type 0
IsCareful [] = Unit
IsCareful (linked ok ∷ log) = IsWritten log × IsCareful log
IsCareful (opened fd ∷ log) = IsCareful log
IsCareful (closed fd ok ∷ log) = IsCareful log
IsCareful (wrote fd ok ∷ log) = IsCareful log
IsCareful (file_removed ok ∷ log) = IsCareful log
IsCareful (directory_removed ok ∷ log) = IsCareful log

unfoldable pub times : (Call → Bool) → List Call → ℕ
times test [] = 0
times test (c ∷ log) = let rest = times test log in if test c then suc rest else rest

abbrev pub is_link : Call → Bool
is_link (linked ok) = true
is_link _ = false

abbrev pub is_publication : Call → Bool
is_publication (linked ok) = ok
is_publication _ = false

abbrev pub is_file_removal : Call → Bool
is_file_removal (file_removed ok) = ok
is_file_removal _ = false

abbrev pub is_directory_removal : Call → Bool
is_directory_removal (directory_removed ok) = ok
is_directory_removal _ = false

abbrev pub is_success : List Failure → Bool
is_success [] = true
is_success (f ∷ fs) = false

-- From one record to a later one, with the failures: where there are none, the goal holds.
pub record Step (Goal : List Call → Type 0) (before after : List Call) (failures : List Failure)
    : Type 0 where
  pub balanced : replay after ≡ replay before
  pub careful : IsCareful before → IsCareful after
  pub once : times is_link after ≤ suc (times is_link before)
  pub success : is_success failures ≡ true → Goal after

abbrev pub Leads : {W : Type 0} → (List Call → Type 0) → List Call → Done W → Type 0
Leads Goal before d = Step Goal before (d.0).log d.1

-- Closing the latest descriptor undoes its opening.
pub reopened :
    (fd : ℕ) (ok : Bool) (r : Option (List ℕ))
    → after_call (closed fd ok) (after_call (opened fd) r) ≡ r
reopened fd ok none = refl
reopened fd ok (some fds) = (let e : (fd == fd) ≡ true = ground arith in rw e refl)

pub is_success-append :
    (f g : List Failure)
    → is_success (f ++ g) ≡ true
    → (is_success f ≡ true) × (is_success g ≡ true)
is_success-append [] g h = (refl, h)
is_success-append (f ∷ fs) g h = absurd (cc h)

pub is_success-unless : (ok : Bool) (f : Failure) → is_success (unless ok f) ≡ true → ok ≡ true
is_success-unless true f h = refl
is_success-unless false f h = absurd (cc h)

-- A failure with nothing recorded.
pub failed-Step :
    (Goal : List Call → Type 0) (log : List Call) (f : List Failure)
    → is_success f ≡ false
    → Step Goal log log f
failed-Step Goal log f h = record {
  balanced = refl;
  careful = λ c. c;
  once = omega arith;
  success = λ e. absurd (cc (e, h));
}

-- The failure of a computation that goes on with no more calls.
pub failed_later-Step :
    (Goal Later : List Call → Type 0) (before after : List Call) (f : List Failure) (g : Failure)
    → Step Goal before after f
    → Step Later before after (f ++ g ∷ [])
failed_later-Step Goal Later before after f g s = record {
  balanced = s.balanced;
  careful = s.careful;
  once = s.once;
  success = λ e. absurd (cc ((is_success-append f (g ∷ []) e).1));
}
