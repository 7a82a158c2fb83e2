-- ===== src/Drive/Examples.antt =====
-- Runs of the copy and of the Drive paths.
use croton_mcp.Base.{
  ℕ, ◌≤◌, ◌≡◌, ◌≢◌, refl, Bool, true, false, Option, none, some, ltb, if◌then◌else◌, Bytes, codes,
  length, take, drop, pos, min,
}
use croton_mcp.Text.{equal, split, valid_utf8}
use croton_mcp.Drive.Copy.{
  CopyError, copy_limit, untold, Streams, ending, after_write, after_count, after_read, turn,
  copy_loop, copy_bounded,
}
use croton_mcp.Drive.CopyBounds.{copy_bounded-untold}
use croton_mcp.Drive.CopyLog.{Bounded, empty_log, logged, copy_bounded-Bounded}
use croton_mcp.Drive.PathCanonical.{IsCanonical, valid_drive_path-IsCanonical}
use croton_mcp.Drive.Path.{any_bad, has_control, ends_with, segments_valid, valid_drive_path}

-- A source that hands out two bytes at a time, and a destination that takes all it is given.
abbrev pairs : Streams Bytes
pairs = record {
  poll = λ s. (s, none);
  read = λ n s.
      let m = min (min n 2) (length s) in
      (
        drop m s,
        record { count = pos m; content = take m s; error = if ltb m 1 then some true else none },
      );
  write = λ b s. (s, record { written = pos (length b); is_failed = false });
}

-- The copy with all of its definitions open.
unfoldable copied : ℕ → Bytes → Option CopyError
unfolding copy_bounded copy_loop turn after_read after_count after_write ending
copied limit s = (copy_bounded pairs limit s).1

takes_all : copied 5 (codes "abcde") ≡ none
unfolding copied
takes_all = refl

takes_no_more : copied 4 (codes "abcde") ≡ some copy_limit
unfolding copied
takes_no_more = refl

copy_bounded-untold_example : (copy_bounded pairs 4 (codes "abcde")).1 ≢ some untold
copy_bounded-untold_example = copy_bounded-untold pairs 4 (codes "abcde")

copy_bounded-Bounded_example :
    let out = copy_bounded (logged pairs) 4 (codes "abcde", empty_log) in Bounded 4 out.0.1 out.1
copy_bounded-Bounded_example = copy_bounded-Bounded pairs 4 (codes "abcde")

unfoldable accepted : Bytes → Bool
unfolding valid_drive_path segments_valid any_bad split ends_with has_control valid_utf8
accepted path = valid_drive_path path

accepts_name : valid_drive_path (codes "/My Files/a.txt") ≡ true
unfolding accepted equal
accepts_name = refl

refuses_parent : valid_drive_path (codes "/My Files/../x") ≡ false
unfolding accepted equal
refuses_parent = refl

valid_drive_path-IsCanonical_example :
    let path = codes "/My Files/a.txt" in
    IsCanonical path × (length path ≤ 1024) × (valid_utf8 path ≡ true) × (has_control path ≡ false)
valid_drive_path-IsCanonical_example =
    valid_drive_path-IsCanonical (codes "/My Files/a.txt") accepts_name
