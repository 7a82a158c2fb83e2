-- ===== src/Triage/DestinationSound.antt =====
-- Which mailbox a move may go to: the only entry of the listing for its name, and an allowed one.
use croton_mcp.Base.{
  ◌<◌, ◌==◌, length, subst, Bool, true, false, some, List, [], ◌∷◌, ◌++◌, if◌then◌else◌, Bytes, ◌≡◌,
  refl, arith, ◌∙◌, ap, sym, ◌⊎◌, inl, inr,
}
use croton_mcp.Text.{equal_fold, has_prefix, contains, is_empty}
use croton_mcp.Triage.Destination.{
  inbox, identity_matches, has_attribute, root_system_attributes, refused_destination_attributes,
  is_hierarchy_root, folders_prefix, Match, missing, many, only, add_match, sole_match,
  destination_of, destination_of_match, resolve_move_destination,
}
use croton_mcp.Triage.Server.{ListedMailbox}

abbrev NoneOf : (ListedMailbox → Bool) → List ListedMailbox → Type 0
NoneOf test [] = Unit
NoneOf test (m ∷ ms) = (test m ≡ false) × NoneOf test ms

-- `m` stands once in the listing, and no other entry satisfies the test.
abbrev pub IsSole : (ListedMailbox → Bool) → List ListedMailbox → ListedMailbox → Type 0
IsSole test listing m =
    (before : List ListedMailbox) × (after : List ListedMailbox) × (listing ≡ before ++ m ∷ after)
    × (test m ≡ true)
    × NoneOf test before
    × NoneOf test after

missing_step :
    (b : Bool) (m : ListedMailbox) (r : Match)
    → (if b then add_match m r else r) ≡ missing
    → (b ≡ false) × (r ≡ missing)
missing_step false m r e = (refl, e)
missing_step true m missing e = absurd (cc e)
missing_step true m many e = absurd (cc e)
missing_step true m (only n) e = absurd (cc e)

only_step :
    (b : Bool) (m n : ListedMailbox) (r : Match)
    → (if b then add_match m r else r) ≡ only n
    → ((b ≡ true) × (r ≡ missing) × (m ≡ n)) ⊎ ((b ≡ false) × (r ≡ only n))
only_step false m n r e = inr (refl, e)
only_step true m n missing e = inl (refl, refl, cc e)
only_step true m n many e = absurd (cc e)
only_step true m n (only k) e = absurd (cc e)

NoneOf-missing :
    (test : ListedMailbox → Bool) (ms : List ListedMailbox)
    → sole_match test ms ≡ missing
    → NoneOf test ms
unfolding sole_match
NoneOf-missing test [] e = tt
NoneOf-missing test (m ∷ ms) e =
    let s = missing_step (test m) m (sole_match test ms) e in (s.0, NoneOf-missing test ms s.1)

sole_match-IsSole :
    (test : ListedMailbox → Bool) (ms : List ListedMailbox) (n : ListedMailbox)
    → sole_match test ms ≡ only n
    → IsSole test ms n
unfolding sole_match
sole_match-IsSole test [] n e = absurd (cc e)
sole_match-IsSole test (m ∷ ms) n e = elim (only_step (test m) m n (sole_match test ms) e) [
  | inl (t, r, same) ↦
      ([], ms, ap (λ k. k ∷ ms) same, ap test (sym same) ∙ t, tt, NoneOf-missing test ms r)
  | inr (t, r) ↦
      (let (before, after, split, h, b, a) = sole_match-IsSole test ms n r in
        (m ∷ before, after, ap (λ l. m ∷ l) split, h, (t, b), a))
]

-- An entry below Folders/: the prefix, something behind it, and `/` as the delimiter.
abbrev pub IsBelowFolders : ListedMailbox → Type 0
IsBelowFolders m =
    (rest : Bytes) × (m.name ≡ folders_prefix ++ rest)
    × (is_empty rest ≡ false)
    × (m.delimiter ≡ b'/')

-- An entry whose name has neither `/` nor the delimiter of its listing, if there is one.
abbrev pub IsTopLevel : ListedMailbox → Type 0
IsTopLevel m =
    (contains b'/' m.name ≡ false) × ((m.delimiter ≡ 0) ⊎ (contains m.delimiter m.name ≡ false))

-- The name that a mailbox may be moved to under, if it may: INBOX, an entry below Folders/, or an entry
-- at the top level with a system attribute; and it has no attribute that refuses it.
abbrev pub IsAllowed : ListedMailbox → Bytes → Type 0
IsAllowed m name =
    (has_attribute m.attributes refused_destination_attributes ≡ false)
    × (((equal_fold m.name inbox ≡ true) × (name ≡ inbox))
        ⊎ ((name ≡ m.name)
            × (IsBelowFolders m
                ⊎ (IsTopLevel m × (has_attribute m.attributes root_system_attributes ≡ true)))))

has_prefix-eq : (p s : Bytes) → has_prefix p s ≡ true → (rest : Bytes) × (s ≡ p ++ rest)
unfolding has_prefix
has_prefix-eq [] s h = (s, refl)
has_prefix-eq (x ∷ p) [] h = absurd (cc h)
has_prefix-eq (x ∷ p) (y ∷ s) h =
    let h' : ((y == x) ≡ true) × (has_prefix p s ≡ true) = ground (arith, h) in
    let rest = has_prefix-eq p s h'.1 in
    let same : y ≡ x = ground (arith, h'.0) in
    (rest.0, ap (λ z. z ∷ s) same ∙ ap (λ l. x ∷ l) rest.1)

longer-IsBelowFolders :
    (m : ListedMailbox)
    → (m.delimiter == b'/') ≡ true
    → has_prefix folders_prefix m.name ≡ true
    → length folders_prefix < length m.name
    → IsBelowFolders m
longer-IsBelowFolders m d p l =
    let rest = has_prefix-eq folders_prefix m.name p in
    (rest.0, rest.1, not_empty rest.0 (subst (λ s. 8 < length s) rest.1 l), ground (arith, d))
  where
    not_empty : (r : Bytes) → 8 < length (folders_prefix ++ r) → is_empty r ≡ false
    not_empty [] l = absurd (omega (arith, l))
    not_empty (c ∷ r) l = refl

is_hierarchy_root-IsTopLevel : (m : ListedMailbox) → is_hierarchy_root m ≡ true → IsTopLevel m
unfolding is_hierarchy_root
is_hierarchy_root-IsTopLevel m h = ground (arith, h)

destination_of-IsAllowed :
    (m : ListedMailbox) (name : Bytes) → destination_of m ≡ some name → IsAllowed m name
unfolding destination_of
destination_of-IsAllowed m name e =
    ground (arith, e, longer-IsBelowFolders m, is_hierarchy_root-IsTopLevel m)

destination_of_match-only :
    (r : Match) (name : Bytes)
    → destination_of_match r ≡ some name
    → (m : ListedMailbox) × (r ≡ only m) × (destination_of m ≡ some name)
destination_of_match-only missing name e = absurd (cc e)
destination_of_match-only many name e = absurd (cc e)
destination_of_match-only (only m) name e = (m, refl, e)

-- A destination that resolves is that of one entry of the listing, the only one that the requested
-- name identifies; the entry has no refusing attribute, and the target is INBOX for INBOX, else the
-- entry's own name, which is below Folders/ with the delimiter `/`, or at the top level with a system
-- attribute.
pub resolve_move_destination-IsAllowed :
    (listing : List ListedMailbox) (destination name : Bytes)
    → resolve_move_destination listing destination ≡ some name
    → (m : ListedMailbox) × IsSole (λ n. identity_matches destination n.name) listing m
      × IsAllowed m name
unfolding resolve_move_destination
resolve_move_destination-IsAllowed listing destination name e =
    let test = λ (n : ListedMailbox). identity_matches destination n.name in
    let (m, r, d) = destination_of_match-only (sole_match test listing) name e in
    (m, sole_match-IsSole test listing m r, destination_of-IsAllowed m name d)
