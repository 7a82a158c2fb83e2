-- ===== src/Wire/Sets.antt =====
-- bridge/imapclient.go: `sequenceSetOverlaps`.
use croton_mcp.Base.{
  ℕ, Bool, false, ◌||◌, Option, none, some, List, [], ◌∷◌, ltb, leb, if◌then◌else◌, Bytes,
}
use croton_mcp.Text.{cut, split}
use croton_mcp.Wire.Grammar.{parse_uint}

-- The numbers from `start` to `stop`.
pub record Interval : Type 0 where
  pub start : ℕ
  pub stop : ℕ

-- The two bounds of an item, the smaller first.
abbrev pub interval_of : ℕ → ℕ → Interval
interval_of a b = if ltb b a then record { start = b; stop = a } else record { start = a; stop = b }

abbrev pub bounds_of : Option ℕ → Option ℕ → Option Interval
bounds_of (some a) (some b) = some (interval_of a b)
bounds_of _ _ = none

-- One item: a number, or two with a colon between them.
abbrev pub item_interval : Bytes × Bytes × Bool → Option Interval
item_interval (low, high, is_range) =
    bounds_of (parse_uint 32 low) (if is_range then parse_uint 32 high else parse_uint 32 low)

abbrev pub put_interval : Option Interval → Option (List Interval) → Option (List Interval)
put_interval (some i) (some is) = some (i ∷ is)
put_interval _ _ = none

unfoldable pub parse_items : List Bytes → Option (List Interval)
parse_items [] = some []
parse_items (item ∷ items) = put_interval (item_interval (cut b':' item)) (parse_items items)

-- The intervals of a sequence set; `none` where it does not parse.
unfoldable pub parse_set : Bytes → Option (List Interval)
unfolding parse_items
parse_set set = parse_items (split b',' set)

-- `sort.Slice` by the start. The order of equal starts does not matter, since such intervals overlap.
unfoldable pub insert_interval : Interval → List Interval → List Interval
insert_interval i [] = i ∷ []
insert_interval i (j ∷ js) =
    let rest = insert_interval i js in if leb i.start j.start then i ∷ j ∷ js else j ∷ rest

unfoldable pub sort_intervals : List Interval → List Interval
sort_intervals [] = []
sort_intervals (i ∷ is) = insert_interval i (sort_intervals is)

-- Whether an interval begins before the end of the one in front of it.
unfoldable pub neighbours_overlap : List Interval → Bool
neighbours_overlap [] = false
neighbours_overlap (i ∷ []) = false
neighbours_overlap (i ∷ j ∷ js) = leb j.start i.stop || neighbours_overlap (j ∷ js)

-- Whether the intervals of a set name a number twice.
unfoldable pub intervals_overlap : List Interval → Bool
intervals_overlap is = neighbours_overlap (sort_intervals is)
