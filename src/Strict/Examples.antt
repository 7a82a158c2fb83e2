-- ===== src/Strict/Examples.antt =====
-- Runs of the validation, behind a decoder of a few texts.
use croton_mcp.Base.{true, false, ◌&&◌, ◌≡◌, refl, List, [], ◌∷◌, Bytes, codes, if◌then◌else◌}
use croton_mcp.Strict.Clean.{
  Json, nothing, number, array, item, no_item, object, no_field, field, tokens_of, is_clean,
}
use croton_mcp.Strict.Decode.{
  Token, broken, Rules, is_taken, consume_from, is_bounded, validate_object, validate_array,
  array_rules,
}
use croton_mcp.Strict.Whole.{is_object, is_array, validate_object-is_clean, validate_array-is_clean}
use croton_mcp.Text.{equal, equal_fold, fold}

abbrev strict : Rules
strict = record { reject_null = true; fold_aliases = true; equal_fold = equal_fold }

abbrev loose : Rules
loose = record { reject_null = false; fold_aliases = false; equal_fold = equal_fold }

abbrev aliased : Json
aliased = object (field (codes "a") number (field (codes "A") number no_field))

abbrev aliased_text : Bytes
aliased_text = codes "{\"a\":1,\"A\":2}"

-- The decoder knows this text alone.
unfoldable decode : Bytes → List Token
unfolding equal tokens_of
decode s = if equal s aliased_text then tokens_of aliased [] else broken ∷ []

decodes : decode aliased_text ≡ tokens_of aliased []
unfolding decode
decodes = refl

refuses_the_alias : validate_object decode strict 100 aliased_text ≡ false
unfolding validate_object decode consume_from is_taken equal_fold fold
refuses_the_alias = refl

admits_the_alias : validate_object decode loose 100 aliased_text ≡ true
unfolding validate_object decode consume_from is_taken
admits_the_alias = refl

validate_object-is_clean_example :
    validate_object decode strict 100 aliased_text
    ≡ (is_bounded 100 aliased_text && (is_object aliased && is_clean strict 0 aliased))
validate_object-is_clean_example =
    validate_object-is_clean decode strict 100 aliased_text aliased decodes

abbrev two_nulls : Json
two_nulls = array (item nothing (item nothing no_item))

abbrev two_nulls_text : Bytes
two_nulls_text = codes "[null,null]"

unfoldable decode_array : Bytes → List Token
unfolding equal tokens_of
decode_array s = if equal s two_nulls_text then tokens_of two_nulls [] else broken ∷ []

decodes_array : decode_array two_nulls_text ≡ tokens_of two_nulls []
unfolding decode_array
decodes_array = refl

validate_array-is_clean_example : validate_array decode_array equal_fold 100 two_nulls_text ≡ (
    is_bounded 100 two_nulls_text
    && (is_array two_nulls && is_clean (array_rules equal_fold) 0 two_nulls))
validate_array-is_clean_example =
    validate_array-is_clean decode_array equal_fold 100 two_nulls_text two_nulls decodes_array
