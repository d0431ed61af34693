-- ===== src/Profiles/Dependency.antt =====
-- src/intent_packages/profiles/dependency_update.py: what a package of the profile may say, and the
-- characters that may reach a command line.
pub mod Safety
pub mod Pins
pub mod Commands
pub mod Envelope
use intent_packages.Prelude.{
  ℕ, String, Bool, true, false, not, ◌&&◌, ◌||◌, Option, none, some, List, [], ◌∷◌, ◌++◌, codes,
  eqb, leb, if◌then◌else◌, all,
}
use intent_packages.Value.{Value, str, dict, Entries}
use intent_packages.Value.Dict.{get, lookup}
use intent_packages.Schema.{
  Spec, scalar, bool_type, map_of, Fields, no_more, required, optional, text, walk,
}
use intent_packages.Host.{Text}
use intent_packages.Outcome.Report.{Where, in_top, at, Issues, one, one_if}
use intent_packages.Profiles.Tags.{TagMap, check_evidence_tags, blank_fields, unless_errors}

abbrev pub profile_fields_schema : Spec
profile_fields_schema = map_of (
    required "target_repo" text (
      required "package" text (
        required "from_version" text (
          required "to_version" text (optional "standing" (scalar bool_type false none) no_more)))))

abbrev pub tag_to_evidence_type : TagMap
tag_to_evidence_type =
    ("ci:", "automated_check") ∷ ("gate:", "automated_check") ∷ ("human:", "human_review") ∷ []

-- `[a-z0-9]`, `[A-Za-z0-9]`, and what may follow in a name or in a version.
unfoldable pub is_low : ℕ → Bool
is_low c = (leb 97 c && leb c 122) || (leb 48 c && leb c 57)

unfoldable pub is_alnum : ℕ → Bool
unfolding is_low
is_alnum c = is_low c || (leb 65 c && leb c 90)

abbrev is_mark : ℕ → Bool
is_mark c = eqb c b'.' || (eqb c b'_' || eqb c b'-')

abbrev is_name_char : ℕ → Bool
is_name_char c = is_alnum c || is_mark c

abbrev is_low_char : ℕ → Bool
is_low_char c = is_low c || is_mark c

abbrev is_version_char : ℕ → Bool
is_version_char c = is_name_char c || (eqb c b'+' || eqb c b'!')

-- `[head][tail]*` against a whole text.
unfoldable pub shaped : (ℕ → Bool) → (ℕ → Bool) → Text → Bool
unfolding all
shaped head tail [] = false
shaped head tail (c ∷ cs) = head c && all tail cs

-- The part before the first slash, and the part after it, if there is one.
unfoldable pub before_slash : Text → Text
before_slash [] = []
before_slash (c ∷ cs) = if eqb c b'/' then [] else c ∷ before_slash cs

unfoldable pub after_slash : Text → Option Text
after_slash [] = none
after_slash (c ∷ cs) = let more = after_slash cs in if eqb c b'/' then some cs else more

scope_shaped : Text → Bool
unfolding shaped is_low is_alnum
scope_shaped [] = false
scope_shaped (c ∷ cs) = eqb c b'@' && shaped is_low is_low_char cs

scoped_name : Text → Option Text → Bool
unfolding shaped scope_shaped is_low is_alnum
scoped_name before none = false
scoped_name before (some after) = scope_shaped before && shaped is_low is_low_char after

-- `_PACKAGE_RE.fullmatch`
unfoldable pub is_package_name : Text → Bool
unfolding scoped_name before_slash after_slash shaped is_low is_alnum
is_package_name s = shaped is_alnum is_name_char s || scoped_name (before_slash s) (after_slash s)

-- `_VERSION_RE.fullmatch`
unfoldable pub is_version : Text → Bool
unfolding shaped is_low is_alnum
is_version s = shaped is_alnum is_version_char s

-- `".." in package`
unfoldable pub has_dots : Text → Bool
has_dots [] = false
has_dots (c ∷ []) = false
has_dots (c ∷ d ∷ cs) = (eqb c b'.' && eqb d b'.') || has_dots (d ∷ cs)

unfoldable pub safe_package : Value → Bool
unfolding is_package_name has_dots codes
safe_package (str s) = not (has_dots (codes s)) && is_package_name (codes s)
safe_package _ = false

unfoldable pub safe_version : Value → Bool
unfolding is_version codes
safe_version (str s) = is_version (codes s)
safe_version _ = false

abbrev fields_place : Where
fields_place = in_top "profile_fields"

unfoldable pub unsafe_field_errors : Value → Value → Value → Issues
unfolding safe_package safe_version
unsafe_field_errors pkg old new =
    one_if (not (safe_package pkg)) (at fields_place "package") "is not a plain package name"
    ++ (one_if (not (safe_version old)) (at fields_place "from_version")
          "is not a plain version string"
        ++ one_if (not (safe_version new)) (at fields_place "to_version")
            "is not a plain version string")

check_fields : Option Value → Issues
unfolding walk blank_fields unsafe_field_errors get
check_fields none = one fields_place "missing required key"
check_fields (some (dict fields)) =
    unless_errors (walk profile_fields_schema (dict fields) fields_place) (
      unless_errors
        (blank_fields ("target_repo" ∷ "package" ∷ "from_version" ∷ "to_version" ∷ []) fields
          fields_place)
        (unsafe_field_errors (get fields "package") (get fields "from_version")
          (get fields "to_version")))
check_fields (some _) = []

unfoldable pub check_profile_fields : Entries → Issues
unfolding check_fields lookup
check_profile_fields d = check_fields (lookup "profile_fields" d)

unfoldable pub validate : Entries → Issues
unfolding check_profile_fields check_evidence_tags
validate d = check_profile_fields d ++ check_evidence_tags d tag_to_evidence_type
