-- ===== src/Drive/Held.antt =====
-- The directories and files that are held are closed behind their use.
use croton_mcp.Base.{
  ℕ, suc, ◌≤◌, Bool, true, false, not, ◌||◌, Option, none, some, List, [], ◌∷◌, ◌++◌, Bytes, codes,
  ◌≡◌, refl, ap, ◌∙◌, arith, of_both,
}
use croton_mcp.Text.{has_prefix}
use croton_mcp.Drive.Careful.{
  after_call, replay, IsCareful, times, is_link, Step, Leads, reopened, is_success-append,
  failed-Step,
}
use croton_mcp.Drive.Confined.{
  Failure, writer_required, invalid_path, invalid_component, opening_failed, writing_failed,
  closing_failed, Files, Call, opened, closed, wrote, State, Done, record_call, components,
  root_components, last_component, but_last, close_behind, hold, hold_all, hold_parent,
  with_confined_parent, after_writing, write_fresh,
}

-- A call that is recorded behind others.
pub record_call-Step :
    {W : Type 0} (Goal Later : List Call → Type 0) (call : Bool → Call) (failure : Failure)
    (w : W × Bool) (before base log : List Call) (failures : List Failure)
    → Step Goal base log failures
    → ((ok : Bool) → replay (call ok ∷ log) ≡ replay before)
    → ((ok : Bool) → IsCareful before → IsCareful (call ok ∷ log))
    → ((ok : Bool) → times is_link (call ok ∷ log) ≤ suc (times is_link before))
    → (Goal log → Later (call true ∷ log))
    → Leads Later before (record_call call failure w log failures)
record_call-Step Goal Later call failure (w, true) before base log failures s balanced careful once
      later =
    record {
      balanced = balanced true;
      careful = careful true;
      once = once true;
      success = λ e. later (s.success (is_success-append failures [] e).0);
    }
record_call-Step Goal Later call failure (w, false) before base log failures s balanced careful once
      later =
    record {
      balanced = balanced false;
      careful = careful false;
      once = once false;
      success = λ e. absurd (cc ((is_success-append failures (failure ∷ []) e).1));
    }

module _ {W : Type 0} (files : Files W) (Goal : List Call → Type 0)
    (closing : (fd : ℕ) (log : List Call) → Goal log → Goal (closed fd true ∷ log)) where
  close_behind-Step :
      (fd : ℕ) (log : List Call) (d : Done W)
      → Leads Goal (opened fd ∷ log) d
      → Leads Goal log (close_behind files fd d)
  unfolding replay times
  close_behind-Step fd log (s, failures) step =
      record_call-Step Goal Goal (closed fd) closing_failed (files.close fd s.world) log
        (opened fd ∷ log) s.log failures step
        (λ ok. ap (after_call (closed fd ok)) step.balanced ∙ reopened fd ok (replay log))
        (λ ok. step.careful) (λ ok. step.once) (closing fd s.log)

  pub hold-Step :
      (body : ℕ → State W → Done W) (log : List Call) (o : W × Option ℕ)
      → ((fd : ℕ) (s : State W) → Leads Goal s.log (body fd s))
      → Leads Goal log (hold files body log o)
  hold-Step body log (w, none) h = failed-Step Goal log (opening_failed ∷ []) refl
  hold-Step body log (w, some fd) h =
      let s : State W = record { world = w; log = opened fd ∷ log } in
      close_behind-Step fd log (body fd s) (h fd s)

  hold_all-Step :
      (body : ℕ → State W → Done W) (parts : List Bytes) (parent : ℕ) (s : State W)
      → ((fd : ℕ) (t : State W) → Leads Goal t.log (body fd t))
      → Leads Goal s.log (hold_all files body parts parent s)
  unfolding hold_all
  hold_all-Step body [] parent s h = h parent s
  hold_all-Step body (part ∷ parts) parent s h =
      hold-Step (hold_all files body parts) s.log (files.open_directory (some parent) part s.world)
        (λ fd t. hold_all-Step body parts fd t h)

  hold_parent-Step :
      (body : ℕ → Bytes → State W → Done W) (roots targets : Option (List Bytes)) (s : State W)
      → ((fd : ℕ) (name : Bytes) (t : State W) → Leads Goal t.log (body fd name t))
      → Leads Goal s.log (hold_parent files body roots targets s)
  hold_parent-Step body none targets s h = failed-Step Goal s.log (invalid_component ∷ []) refl
  hold_parent-Step body (some roots) none s h = failed-Step Goal s.log (invalid_component ∷ []) refl
  hold_parent-Step body (some roots) (some []) s h =
      failed-Step Goal s.log (invalid_component ∷ []) refl
  hold_parent-Step body (some roots) (some (t ∷ ts)) s h =
      let use_last : ℕ → State W → Done W = λ parent. body parent (last_component t ts) in
      let parts = roots ++ but_last t ts in
      hold-Step (hold_all files use_last parts) s.log
        (files.open_directory none (codes "/") s.world)
        (λ fd v. hold_all-Step use_last parts fd v (λ parent. h parent (last_component t ts)))

  pub with_confined_parent-Step :
      (root destination : Bytes) (body : ℕ → Bytes → State W → Done W) (s : State W)
      → ((fd : ℕ) (name : Bytes) (t : State W) → Leads Goal t.log (body fd name t))
      → Leads Goal s.log (with_confined_parent files root destination body s)
  unfolding with_confined_parent
  with_confined_parent-Step root destination body s h =
      of_both (λ d. Leads Goal s.log d)
        (not (has_prefix (codes "/") root) || has_prefix (codes "/") destination)
        (s, invalid_path ∷ [])
        (hold_parent files body (root_components root) (components destination) s)
        (failed-Step Goal s.log (invalid_path ∷ []) refl)
        (hold_parent-Step body (root_components root) (components destination) s h)

-- Of a fresh file, nothing but its writing is asked.
abbrev pub Anything : List Call → Type 0
Anything log = Unit

module _ {W : Type 0} (files : Files W) where
  after_writing-Step :
      (fd : ℕ) (w : W × Bool) (log : List Call) → Leads Anything log (after_writing files fd w log)
  unfolding replay times
  after_writing-Step fd w log =
      record_call-Step Anything Anything (wrote fd) writing_failed w log log log []
        (record { balanced = refl; careful = λ c. c; once = omega arith; success = λ e. tt })
        (λ ok. refl) (λ ok c. c) (λ ok. omega arith) (λ g. tt)

  pub write_fresh-Step :
      (root destination : Bytes) (write : Option (ℕ → W → W × Bool)) (s : State W)
      → Leads Anything s.log (write_fresh files root destination write s)
  unfolding write_fresh
  write_fresh-Step root destination none s = failed-Step Anything s.log (writer_required ∷ []) refl
  write_fresh-Step root destination (some write) s =
      let use_file : ℕ → State W → Done W =
        λ fd v. after_writing files fd (write fd v.world) v.log in
      with_confined_parent-Step files Anything (λ fd log g. tt) root destination
        (λ parent name t. hold files use_file t.log (files.create_file parent name t.world)) s
        (λ parent name t.
          hold-Step files Anything (λ fd log g. tt) use_file t.log
            (files.create_file parent name t.world)
            (λ fd v. after_writing-Step fd (write fd v.world) v.log))
