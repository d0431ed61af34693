-- ===== src/Profiles/Tags.antt =====
-- src/intent_packages/profiles/_evidence_tags.py: every evidence text starts with a tag of its
-- profile, and its evidence_type is the one that the tag asks for.
use intent_packages.Prelude.{
  starts_with, ℕ, String, not, Option, none, some, List, [], ◌∷◌, ◌++◌, if◌then◌else◌, is_blank,
}
use intent_packages.Value.{Value, str, list, dict, Entries, to_list, is_text}
use intent_packages.Value.Dict.{get}
use intent_packages.Outcome.Report.{Where, in_top, at, nth, Issues, one, one_if, each}

abbrev pub TagMap : Type 0
TagMap = List (String × String)

-- The first tag that the evidence starts with, and the type that it asks for.
unfoldable pub matched_tag : TagMap → String → Option String
matched_tag [] evidence = none
matched_tag ((tag, expected) ∷ tags) evidence =
    if starts_with evidence tag then some expected else matched_tag tags evidence

tag_errors : Option String → Value → Where → Issues
tag_errors none actual p = one (at p "evidence") "does not start with a recognized producer tag"
tag_errors (some expected) actual p =
    one_if (not (is_text actual expected)) (at p "evidence_type") "the tag requires another type"

evidence_errors : TagMap → Value → Value → Where → Issues
unfolding matched_tag tag_errors
evidence_errors tags (str evidence) actual p = tag_errors (matched_tag tags evidence) actual p
evidence_errors tags _ actual p = []

item_errors : TagMap → ℕ → Value → Issues
unfolding evidence_errors get
item_errors tags i (dict d) =
    evidence_errors tags (get d "evidence") (get d "evidence_type") (nth (in_top "acceptance") i)
item_errors tags i _ = []

unfoldable pub check_evidence_tags : Entries → TagMap → Issues
unfolding get item_errors evidence_errors tag_errors matched_tag each to_list
check_evidence_tags d tags = elim (get d "acceptance") [
  | list xs ↦ each (item_errors tags) 0 (to_list xs)
  | _ ↦ []
]

-- The loop over the fields of a profile that must not be blank.
abbrev pub blank_value : Value → Where → Issues
blank_value (str s) p = one_if (is_blank s) p "must be a non-empty string"
blank_value _ p = []

unfoldable pub blank_fields : List String → Entries → Where → Issues
unfolding get is_blank
blank_fields [] d p = []
blank_fields (k ∷ ks) d p = blank_value (get d k) (at p k) ++ blank_fields ks d p

-- `if errors: return errors`
abbrev pub unless_errors : Issues → Issues → Issues
unless_errors [] more = more
unless_errors (e ∷ es) more = e ∷ es
