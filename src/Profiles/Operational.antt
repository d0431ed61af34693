-- ===== src/Profiles/Operational.antt =====
-- src/intent_packages/profiles/non_software_operational.py
use Prim.Native.Nat.{Ordering}
use Prim.Native.String.{compare}
use intent_packages.Prelude.{
  starts_with, ℕ, suc, String, Bool, true, false, not, ◌&&◌, Option, none, some, List, [], ◌∷◌,
  ◌++◌, ◌==◌, eqb, codes, if◌then◌else◌, is_blank,
}
use intent_packages.Value.{Value, str, bool, list, dict, Entries, to_list}
use intent_packages.Value.Dict.{get, lookup}
use intent_packages.Schema.{
  Spec, scalar, bool_type, map_of, no_more, required, optional, text, texts, walk,
}
use intent_packages.Outcome.Report.{Where, in_top, at, Issues, one, one_if}
use intent_packages.Host.{Host}
use intent_packages.DestinationFormat.{destination_error}
use intent_packages.Profiles.Tags.{TagMap, check_evidence_tags, blank_fields, unless_errors}

abbrev pub profile_fields_schema : Spec
profile_fields_schema = map_of (
    required "owner" text (
      required "operating_procedure" text (
        optional "external_systems" texts (
          optional "standing" (scalar bool_type false none) (
            optional "credential_id" text
              (optional "occurrence" text (optional "destinations" texts no_more)))))))

abbrev pub tag_to_evidence_type : TagMap
tag_to_evidence_type =
    ("human:", "human_review")
    ∷ ("external:", "external_attestation")
    ∷ ("observation:", "observation")
    ∷ []

-- `sorted(set(xs))`, by code points.
insert_once : String → List String → List String
insert_once s [] = s ∷ []
insert_once s (x ∷ xs) =
    let later = x ∷ insert_once s xs in
    elim (compare s x) [ Ordering.lt ↦ s ∷ x ∷ xs | Ordering.eq ↦ x ∷ xs | Ordering.gt ↦ later ]

unfoldable pub sorted_set : List String → List String
unfolding insert_once
sorted_set [] = []
sorted_set (s ∷ ss) = insert_once s (sorted_set ss)

same_strings : List String → List String → Bool
same_strings [] [] = true
same_strings (a ∷ as') (b ∷ bs) = a == b && same_strings as' bs
same_strings _ _ = false

-- The texts of a list that the walker found to hold texts alone.
unfoldable pub text_values : List Value → List String
text_values [] = []
text_values (str s ∷ vs) = s ∷ text_values vs
text_values (v ∷ vs) = text_values vs

abbrev fields_place : Where
fields_place = in_top "profile_fields"

abbrev refusal : Option String → Issues
refusal none = []
refusal (some e) = one (at fields_place "destinations") e

unfoldable pub provider_count : List String → ℕ
provider_count [] = 0
provider_count (s ∷ ss) =
    let rest = provider_count ss in if starts_with s "provider " then suc rest else rest

module _ (H : Host) where
  unfoldable pub each_destination : List String → Issues
  unfolding destination_error codes
  each_destination [] = []
  each_destination (s ∷ ss) = refusal (destination_error H (codes s)) ++ each_destination ss

  unfoldable pub destination_errors : List String → Issues
  unfolding each_destination provider_count same_strings sorted_set
  destination_errors ds =
      if same_strings ds (sorted_set ds)
      then each_destination ds
        ++ one_if (not (eqb (provider_count ds) 1)) (at fields_place "destinations")
            "must hold exactly one provider entry"
      else one (at fields_place "destinations") "entries must be sorted and unique"

  destinations_of : Value → Issues
  unfolding destination_errors text_values to_list
  destinations_of (list xs) = destination_errors (text_values (to_list xs))
  destinations_of _ = []

  missing_text : Value → Bool
  unfolding is_blank
  missing_text (str s) = is_blank s
  missing_text _ = true

  standing_errors : Value → Entries → Issues
  unfolding missing_text get
  standing_errors (bool true) fields =
      one_if (missing_text (get fields "credential_id")) (at fields_place "credential_id")
        "required when profile_fields.standing is true"
      ++ one_if (missing_text (get fields "occurrence")) (at fields_place "occurrence")
          "required when profile_fields.standing is true"
  standing_errors _ fields = []

  check_fields : Option Value → Issues
  unfolding walk blank_fields destinations_of standing_errors get
  check_fields none = one fields_place "missing required key"
  check_fields (some (dict fields)) =
      unless_errors (walk profile_fields_schema (dict fields) fields_place) (
        blank_fields ("owner" ∷ "operating_procedure" ∷ []) fields fields_place
        ++ (destinations_of (get fields "destinations")
            ++ standing_errors (get fields "standing") fields))
  check_fields (some _) = []

  unfoldable pub check_profile_fields : Entries → Issues
  unfolding check_fields lookup
  check_profile_fields d = check_fields (lookup "profile_fields" d)

  unfoldable pub validate : Entries → Issues
  unfolding check_profile_fields check_evidence_tags
  validate d = check_profile_fields d ++ check_evidence_tags d tag_to_evidence_type
