-- ===== src/Drive/Confined.antt =====
-- internal/drivefs/confined.go: the directories from the root down to a destination, held open while a
-- callback uses the last. The system calls are parameters; those that matter are recorded.
use croton_mcp.Base.{
  ℕ, Bool, true, false, not, ◌||◌, Option, none, some, List, [], ◌∷◌, ◌++◌, if◌then◌else◌, Bytes,
  codes,
}
use croton_mcp.Text.{equal, is_empty, contains, split, has_prefix}

-- What an operation fails with. Errors that are joined are a list, and no error is the empty one.
pub data Failure : Type 0 where
  writer_required invalid_path invalid_component already_exists status_unknown making_failed
        authority_unavailable :
      Failure
  stage_replaced not_private opening_failed writing_failed closing_failed linking_failed : Failure
  removing_file_failed removing_directory_failed : Failure

-- `unix.Stat_t`.
pub record Stat : Type 0 where
  pub mode : ℕ
  pub owner : ℕ
  pub device : ℕ
  pub inode : ℕ

pub data Status : Type 0 where
  found : Stat → Status
  no_entry unknown : Status

-- The system calls; a Boolean answer is whether the call succeeded. Opened from no directory, a name is
-- taken from the working directory.
pub record Files (W : Type 0) : Type 0 where
  pub open_directory : Option ℕ → Bytes → W → W × Option ℕ
  pub create_file : ℕ → Bytes → W → W × Option ℕ
  pub close : ℕ → W → W × Bool
  pub status_at : ℕ → Bytes → W → W × Status
  pub status_of : ℕ → W → W × Option Stat
  pub make_directory : ℕ → Bytes → W → W × Bool
  pub remove_file : ℕ → Bytes → W → W × Bool
  pub remove_directory : ℕ → Bytes → W → W × Bool
  pub link : ℕ → Bytes → ℕ → Bytes → W → W × Bool
  pub random_text : W → W × Bytes
  pub user : ℕ

-- What is recorded, with its success: descriptors that are opened and closed, the callback's writing,
-- links, and removals.
pub data Call : Type 0 where
  opened : ℕ → Call
  closed : ℕ → Bool → Call
  wrote : ℕ → Bool → Call
  linked : Bool → Call
  file_removed : Bool → Call
  directory_removed : Bool → Call

-- The world and the record, the newest first.
pub record State (W : Type 0) : Type 0 where
  pub world : W
  pub log : List Call

abbrev pub Done : Type 0 → Type 0
Done W = State W × List Failure

-- The failure of a call, if it failed.
abbrev pub unless : Bool → Failure → List Failure
unless true f = []
unless false f = f ∷ []

-- A call that is recorded.
abbrev pub record_call :
    {W : Type 0} → (Bool → Call) → Failure → W × Bool → List Call → List Failure → Done W
record_call call failure (w, ok) log failures =
    (record { world = w; log = call ok ∷ log }, failures ++ unless ok failure)

abbrev pub is_bad_component : Bytes → Bool
is_bad_component part =
    is_empty part || equal part (codes ".") || equal part (codes "..") || contains 0 part

unfoldable pub any_bad_component : List Bytes → Bool
any_bad_component [] = false
any_bad_component (p ∷ ps) =
    let rest = any_bad_component ps in if is_bad_component p then true else rest

-- `components`; `none` is its error.
unfoldable pub components : Bytes → Option (List Bytes)
unfolding any_bad_component split
components path = if any_bad_component (split b'/' path) then none else some (split b'/' path)

-- The path without its slash in front.
abbrev pub without_slash : Bytes → Bytes
without_slash [] = []
without_slash (c ∷ s) = s

-- The components of the root.
unfoldable pub root_components : Bytes → Option (List Bytes)
unfolding components
root_components root = if equal root (codes "/") then some [] else components (without_slash root)

abbrev pub last_component : Bytes → List Bytes → Bytes
last_component x [] = x
last_component x (y ∷ ys) = last_component y ys

abbrev pub but_last : Bytes → List Bytes → List Bytes
but_last x [] = []
but_last x (y ∷ ys) = x ∷ but_last y ys

module _ {W : Type 0} (files : Files W) where
  -- A descriptor that is closed behind its use.
  abbrev pub close_behind : ℕ → Done W → Done W
  close_behind fd (s, failures) =
      record_call (closed fd) closing_failed (files.close fd s.world) s.log failures

  abbrev pub hold : (ℕ → State W → Done W) → List Call → W × Option ℕ → Done W
  hold body log (w, none) = (record { world = w; log = log }, opening_failed ∷ [])
  hold body log (w, some fd) =
      close_behind fd (body fd (record { world = w; log = opened fd ∷ log }))

  -- The directories below one that is held.
  unfoldable pub hold_all : (ℕ → State W → Done W) → List Bytes → ℕ → State W → Done W
  hold_all body [] parent s = body parent s
  hold_all body (part ∷ parts) parent s =
      hold (hold_all body parts) s.log (files.open_directory (some parent) part s.world)

  abbrev pub hold_from_root : (ℕ → State W → Done W) → List Bytes → State W → Done W
  hold_from_root body parts s =
      hold (hold_all body parts) s.log (files.open_directory none (codes "/") s.world)

  abbrev pub hold_parent :
      (ℕ → Bytes → State W → Done W) → Option (List Bytes) → Option (List Bytes) → State W → Done W
  hold_parent body none targets s = (s, invalid_component ∷ [])
  hold_parent body (some roots) none s = (s, invalid_component ∷ [])
  hold_parent body (some roots) (some []) s = (s, invalid_component ∷ [])
  hold_parent body (some roots) (some (t ∷ ts)) s =
      hold_from_root (λ parent. body parent (last_component t ts)) (roots ++ but_last t ts) s

  -- `withConfinedParent`.
  unfoldable pub with_confined_parent :
      Bytes → Bytes → (ℕ → Bytes → State W → Done W) → State W → Done W
  unfolding root_components hold_all
  with_confined_parent root destination body s =
      if not (has_prefix (codes "/") root) || has_prefix (codes "/") destination
      then (s, invalid_path ∷ [])
      else hold_parent body (root_components root) (components destination) s

  abbrev pub after_writing : ℕ → W × Bool → List Call → Done W
  after_writing fd w log = record_call (wrote fd) writing_failed w log []

  -- `writeFresh`, with a writer or none.
  unfoldable pub write_fresh : Bytes → Bytes → Option (ℕ → W → W × Bool) → State W → Done W
  unfolding with_confined_parent
  write_fresh root destination none s = (s, writer_required ∷ [])
  write_fresh root destination (some write) s =
      with_confined_parent root destination
        (λ parent name t.
          hold (λ fd v. after_writing fd (write fd v.world) v.log) t.log
            (files.create_file parent name t.world))
        s
