-- ===== src/Projection/Entity.antt =====
-- bridge/attachment_projection.go: one node of a structure, its media type, parameters and disposition.
use croton_mcp.Base.{
  ℕ, Bool, true, false, ◌||◌, Option, none, some, List, [], ◌∷◌, ◌++◌, leb, ◌==◌, if◌then◌else◌,
  Bytes, codes,
}
use croton_mcp.Text.{less, is_empty, contains}

-- A map of strings, by its entries; each key stands once.
abbrev pub Params : Type 0
Params = List (Bytes × Bytes)

-- `singlePartStructure`, with its `Disposition()`.
pub record SinglePart : Type 0 where
  pub kind : Bytes
  pub subtype : Bytes
  pub params : Params
  pub octets : ℕ
  pub disposition : Option (Bytes × Params)

-- `multiPartStructure` but for its children; the parameters are empty without the extended data.
pub record MultiPart : Type 0 where
  pub subtype : Bytes
  pub params : Params
  pub disposition : Option (Bytes × Params)

-- `bodyStructure`: a single part, a multipart with its children, or what is neither.
mutual
  pub data Structure : Type 0 where
    single : SinglePart → Structure
    multi : MultiPart → Children → Structure
    neither : Structure

  pub data Children : Type 0 where
    no_child : Children
    child : Structure → Children → Children

-- What the code uses of the libraries: `mime.ParseMediaType`, `strings.ToValidUTF8` with the replacement
-- character, and `strconv.ParseInt` where its result is not negative.
pub record Mime : Type 0 where
  pub parse_media_type : Bytes → Option (Bytes × Params)
  pub to_valid_utf8 : Bytes → Bytes
  pub parse_size : Bytes → Option ℕ

-- `projectedEntity` but for the children.
pub record Entity : Type 0 where
  pub media_type : Bytes
  pub parameters : Params
  pub disposition : Bytes
  pub disposition_parameters : Params
  pub has_transfer_octets : Bool
  pub transfer_octets : ℕ

abbrev pub special_bytes : Bytes
special_bytes = codes "()<>@,;:\\\"/[]?="

unfoldable pub all_token : Bytes → Bool
all_token [] = true
all_token (c ∷ s) =
    let rest = all_token s in
    if leb c b' ' || leb 0x7f c || contains c special_bytes then false else rest

-- `structureParameterToken`.
unfoldable pub is_parameter_token : Bytes → Bool
unfolding all_token
is_parameter_token key = if is_empty key then false else all_token key

-- `slices.Sorted` of the keys, with their values.
unfoldable pub insert_param : Bytes × Bytes → Params → Params
insert_param p [] = p ∷ []
insert_param p (q ∷ qs) =
    let rest = insert_param p qs in if less q.0 p.0 then q ∷ rest else p ∷ q ∷ qs

unfoldable pub sort_params : Params → Params
sort_params [] = []
sort_params (p ∷ ps) = insert_param p (sort_params ps)

-- The replacer of backslashes and quotes.
unfoldable pub escape : Bytes → Bytes
escape [] = []
escape (c ∷ s) =
    let rest = escape s in if c == b'\\' || c == b'"' then b'\\' ∷ c ∷ rest else c ∷ rest

abbrev pub write_param : Bytes × Bytes → Bytes → Bytes
write_param p rest = codes "; " ++ p.0 ++ codes "=\"" ++ escape p.1 ++ codes "\"" ++ rest

abbrev pub before_params : Bytes × Bytes → Option Bytes → Option Bytes
before_params p none = none
before_params p (some rest) = if is_parameter_token p.0 then some (write_param p rest) else none

-- The parameters as they stand in the header; `none` where a key is no token.
unfoldable pub write_params : Params → Option Bytes
write_params [] = some []
write_params (p ∷ ps) = before_params p (write_params ps)

abbrev pub prepend : Bytes → Option Bytes → Option Bytes
prepend base none = none
prepend base (some rest) = some (base ++ rest)

module _ (mime : Mime) where
  abbrev pub parse_header : Option Bytes → Option (Bytes × Params)
  parse_header none = none
  parse_header (some header) = mime.parse_media_type header

  -- `parseStructureMediaType`; `none` is malformed MIME.
  unfoldable pub parse_structure_media_type : Bytes → Params → Option (Bytes × Params)
  unfolding write_params sort_params
  parse_structure_media_type base parameters =
      if contains b';' base
      then none
      else parse_header (prepend base (write_params (sort_params parameters)))

  abbrev pub disposition_of : Option (Bytes × Params) → Option (Bytes × Params)
  disposition_of none = some ([], [])
  disposition_of (some (value, params)) = parse_structure_media_type value params

  abbrev pub entity_with :
      Bool → ℕ → Option (Bytes × Params) → Option (Bytes × Params) → Option Entity
  entity_with has_octets octets (some (media_type, parameters))
        (some (disposition, disposition_parameters)) =
      some (record {
        media_type = media_type;
        parameters = parameters;
        disposition = disposition;
        disposition_parameters = disposition_parameters;
        has_transfer_octets = has_octets;
        transfer_octets = octets;
      })
  entity_with has_octets octets _ _ = none

  -- `structureEntity`; `none` is malformed MIME.
  unfoldable pub single_entity : SinglePart → Option Entity
  unfolding parse_structure_media_type
  single_entity i =
      entity_with true i.octets
        (parse_structure_media_type (i.kind ++ codes "/" ++ i.subtype) i.params)
        (disposition_of i.disposition)

  unfoldable pub multi_entity : MultiPart → Option Entity
  unfolding parse_structure_media_type
  multi_entity i =
      entity_with false 0 (parse_structure_media_type (codes "multipart/" ++ i.subtype) i.params)
        (disposition_of i.disposition)
