-- ===== src/Drive/FileExamples.antt =====
-- A file written under a root, on a file system on which all but the writer goes well.
use croton_mcp.Base.{
  ℕ, suc, ◌≤◌, if◌then◌else◌, Bool, true, some, List, [], ◌∷◌, Bytes, codes, ◌≡◌, refl,
}
use croton_mcp.Text.{equal, contains, split, has_prefix}
use croton_mcp.Drive.Careful.{replay, times, is_link, is_success, IsCareful}
use croton_mcp.Drive.Confined.{
  Failure, Stat, found, no_entry, Files, Call, opened, closed, wrote, linked, file_removed,
  directory_removed, any_bad_component, components, root_components, hold_all, with_confined_parent,
  write_fresh,
}
use croton_mcp.Drive.Published.{
  IsComplete, at_first, write_transactional-replay, write_transactional-IsCareful,
}
use croton_mcp.Drive.Transaction.{write_transactional}

-- A directory of the user 7, which no one else may use.
abbrev stage : Stat
stage = record { mode = 16832; owner = 7; device = 1; inode = 9 }

-- Its world is the next descriptor; only the destination is not there yet.
abbrev disk : Files ℕ
disk = record {
  open_directory = λ parent name fd. (suc fd, some fd);
  create_file = λ parent name fd. (suc fd, some fd);
  close = λ fd w. (w, true);
  status_at = λ parent name w. (w, if equal name (codes "new") then no_entry else found stage);
  status_of = λ fd w. (w, some stage);
  make_directory = λ parent name w. (w, true);
  remove_file = λ parent name w. (w, true);
  remove_directory = λ parent name w. (w, true);
  link = λ from source to name w. (w, true);
  random_text = λ w. (w, codes "x");
  user = 7;
}

unfoldable run : Bytes → Bool → List Call × List Failure
unfolding write_transactional with_confined_parent hold_all root_components components
    any_bad_component split contains equal has_prefix
run destination is_written =
    let d =
      write_transactional disk (codes "/tmp") destination (some (λ fd w. (w, is_written)))
        (at_first 3) in
    ((d.0).log, d.1)

publishes_the_file : run (codes "new") true ≡ (
  closed 3 true
      ∷ closed 4 true
      ∷ directory_removed true
      ∷ closed 5 true
      ∷ file_removed true
      ∷ linked true
      ∷ closed 6 true
      ∷ wrote 6 true
      ∷ opened 6
      ∷ opened 5
      ∷ opened 4
      ∷ opened 3
      ∷ [],
  [],
)
unfolding run
publishes_the_file = refl

keeps_what_is_there :
    run (codes "old") true
    ≡ (closed 3 true ∷ closed 4 true ∷ opened 4 ∷ opened 3 ∷ [], Failure.already_exists ∷ [])
unfolding run
keeps_what_is_there = refl

refuses_to_climb : run (codes "../new") true ≡ ([], Failure.invalid_component ∷ [])
unfolding run
refuses_to_climb = refl

write_transactional-replay_example :
    (replay
        (write_transactional disk
          (codes "/tmp")
          (codes "new")
          (some (λ fd w. (w, true)))
          (at_first 3)).0.log
      ≡ some [])
    × (replay
          (write_fresh disk
            (codes "/tmp")
            (codes "new")
            (some (λ fd w. (w, true)))
            (at_first 3)).0.log
        ≡ some [])
write_transactional-replay_example =
    write_transactional-replay disk (codes "/tmp") (codes "new") (some (λ fd w. (w, true))) 3

write_transactional-IsCareful_example :
    let d =
      write_transactional disk
        (codes "/tmp")
        (codes "new")
        (some (λ fd w. (w, true)))
        (at_first 3) in
    IsCareful (d.0).log
    × (times is_link (d.0).log ≤ 1)
    × (is_success d.1 ≡ true → IsComplete (d.0).log)
write_transactional-IsCareful_example =
    write_transactional-IsCareful disk (codes "/tmp") (codes "new") (some (λ fd w. (w, true))) 3
