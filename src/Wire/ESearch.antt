-- ===== src/Wire/ESearch.antt =====
-- bridge/imapclient.go: `eSearchAllOverlaps`. What it passes to `observe` is a list.
use croton_mcp.Base.{
  ℕ, zero, suc, Bool, true, false, Option, none, some, List, [], ◌∷◌, ◌++◌, if◌then◌else◌, Bytes,
  codes, length,
}
use croton_mcp.Text.{equal, equal_fold, is_empty, cut_prefix}
use croton_mcp.Wire.Grammar.{plain, esearch_atom, esearch_value, behind_correlator}
use croton_mcp.Wire.Sets.{Interval, parse_set, intervals_overlap}
use croton_mcp.Wire.Spaces.{trim_space}

-- The intervals observed, then `overlaps` and `complete`; `untold` says that the fuel ran out, which no
-- line comes to.
pub data Walk : Type 0 where
  walked : List Interval → Bool → Bool → Walk
  untold : Walk

abbrev pub observing : List Interval → Walk → Walk
observing is (walked js overlaps complete) = walked (is ++ js) overlaps complete
observing is untold = untold

abbrev pub incomplete : Walk
incomplete = walked [] false false

abbrev pub next_name : (Bytes → Bytes → Walk) → Option Bytes → Walk
next_name next none = incomplete
next_name next (some rest) = let atom = esearch_atom rest in next atom.0 atom.1

-- Behind a value.
abbrev pub behind_value : (Bytes → Bytes → Walk) → Bytes → Walk
behind_value next [] = walked [] false true
behind_value next (c ∷ s) = next_name next (cut_prefix (codes " ") (c ∷ s))

-- Behind the value of ALL.
abbrev pub judge_all : (Bytes → Bytes → Walk) → Option (List Interval) → Bytes → Walk
judge_all next none after = incomplete
judge_all next (some is) after =
    observing is (if intervals_overlap is then walked [] true true else behind_value next after)

abbrev pub judge_value : (Bytes → Bytes → Walk) → Bytes → Bytes × Bytes → Walk
judge_value next name (value, after) =
    if is_empty value
    then incomplete
    else if equal_fold name (codes "ALL")
    then judge_all next (parse_set value) after
    else behind_value next after

abbrev pub spaced_value : (Bytes → Bytes → Walk) → Bytes → Option Bytes → Walk
spaced_value next name none = incomplete
spaced_value next name (some rest) = judge_value next name (esearch_value rest)

-- The loop over the pairs of a name and a value.
unfoldable pub walk_from : ℕ → Bytes → Bytes → Walk
walk_from fuel [] rest = walked [] false (is_empty rest)
walk_from zero (c ∷ name) rest = untold
walk_from (suc fuel) (c ∷ name) rest =
    spaced_value (walk_from fuel) (c ∷ name) (cut_prefix (codes " ") rest)

abbrev trim_prefix : Bytes → Bytes → Bytes
trim_prefix p s = elim (cut_prefix p s) [ none ↦ s | some t ↦ t ]

-- Behind the correlator, where the marker UID may stand. Two bytes go with each turn of the loop.
abbrev pub walk_names : Bytes → Walk
walk_names rest =
    let (name, behind) = esearch_atom rest in
    let (name', behind') =
      if equal name (codes "UID")
      then esearch_atom (trim_prefix (codes " ") behind)
      else (name, behind) in
    walk_from (suc (length behind')) name' behind'

abbrev pub walk_behind : Option Bytes → Walk
walk_behind none = incomplete
walk_behind (some rest) = walk_names (trim_prefix (codes " ") rest)

-- `eSearchAllOverlaps`.
unfoldable pub esearch_all : Bytes → Walk
unfolding walk_from trim_space
esearch_all rest =
    let trimmed = trim_space rest in
    elim (cut_prefix (codes "(") trimmed) [
      | some inside ↦ walk_behind (behind_correlator plain inside)
      | none ↦ walk_names trimmed
    ]
