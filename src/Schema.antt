-- ===== src/Schema.antt =====
-- src/intent_packages/schema.py: the closed schema, the walker that checks a document against it,
-- and the scan for values that the hasher could not take.
pub mod Top
pub mod Conforms
use intent_packages.Prelude.{
  ℕ, suc, String, Bool, true, false, not, ◌||◌, Option, none, some, List, [], ◌∷◌, ◌++◌, mem, ◌==◌,
  if◌then◌else◌,
}
use intent_packages.Value.{
  Value, null, bool, int, str, list, dict, float, date, bytes, other, Items, nil, cons, Entries,
  end, entry, to_list, is_str, is_int, is_bool, is_null, str_in,
}
use intent_packages.Key.{Key, name, odd}
use intent_packages.Value.Dict.{lookup, has, keys}
use intent_packages.Outcome.Report.{Where, field, nth, at, Issues, one, one_if, each}

pub data PyType : Type 0 where
  str_type int_type bool_type : PyType

-- `ScalarSpec`, `ListSpec`, `MapSpec` and `OpenMapSpec`; an `OptionalKey` is a flag on the field.
mutual
  pub data Spec : Type 0 where
    scalar : PyType → Bool → Option (List String) → Spec
    list_of : Spec → Spec
    map_of : Fields → Spec
    open_map : List String → Spec

  pub data Fields : Type 0 where
    no_more : Fields
    key : String → Bool → Spec → Fields → Fields

-- `_s(str)` and so on
abbrev pub text : Spec
text = scalar str_type false none

abbrev pub nullable_text : Spec
nullable_text = scalar str_type true none

abbrev pub one_of : List String → Spec
one_of vs = scalar str_type false (some vs)

abbrev pub texts : Spec
texts = list_of text

-- A field that must be there, and an `OptionalKey`.
abbrev pub required : String → Spec → Fields → Fields
required k s fs = key k false s fs

abbrev pub optional : String → Spec → Fields → Fields
optional k s fs = key k true s fs

unfoldable pub has_type : PyType → Value → Bool
has_type str_type v = is_str v
has_type int_type v = is_int v
has_type bool_type v = is_bool v

unfoldable pub in_enum : Option (List String) → Value → Bool
in_enum none v = true
in_enum (some vs) v = str_in v vs

unfoldable pub check_scalar : PyType → Bool → Option (List String) → Value → Where → Issues
unfolding has_type in_enum
check_scalar t nullable enum v p =
    if is_null v
    then one_if (not nullable) p "null is not allowed here"
    else if has_type t v
    then one_if (not (in_enum enum v)) p "value is not one of the legal values"
    else one p "value of another type expected"

unfoldable pub is_field : String → Fields → Bool
is_field k no_more = false
is_field k (key j opt s fs) = k == j || is_field k fs

abbrev pub is_field_key : Key → Fields → Bool
is_field_key (name k) fs = is_field k fs
is_field_key (odd n) fs = false

-- `for key in value: if key not in spec.fields`
unfoldable pub unknown_keys : (Key → Bool) → List Key → Where → Issues
unknown_keys known [] p = []
unknown_keys known (k ∷ ks) p =
    one_if (not (known k)) (field p k) "unknown key" ++ unknown_keys known ks p

missing_required : List String → Entries → Where → Issues
unfolding has
missing_required [] d p = []
missing_required (k ∷ ks) d p =
    one_if (not (has k d)) (at p k) "missing required key" ++ missing_required ks d p

abbrev pub is_good_key : Key → Bool
is_good_key (name k) = not (k == "")
is_good_key (odd n) = false

check_open : Entries → Where → Issues
check_open end p = []
check_open (entry k v d) p =
    one_if (not (is_good_key k)) p "keys must be non-empty strings"
    ++ (one_if (not (is_str v)) (field p k) "expected str" ++ check_open d p)

unfoldable pub walk_open_map : List String → Value → Where → Issues
unfolding missing_required check_open
walk_open_map req (dict d) p = missing_required req d p ++ check_open d p
walk_open_map req _ p = one p "expected a mapping"

abbrev pub Walker : Type 0
Walker = Value → Where → Issues

unfoldable pub walk_list : Walker → Walker
unfolding each to_list
walk_list walk_item (list xs) p = each (λ i v. walk_item v (nth p i)) 0 (to_list xs)
walk_list walk_item _ p = one p "expected a list"

unfoldable pub walk_map : (Key → Bool) → (Entries → Where → Issues) → Walker
unfolding unknown_keys keys
walk_map known walk_each (dict d) p = unknown_keys known (keys d) p ++ walk_each d p
walk_map known walk_each _ p = one p "expected a mapping"

-- One field of a `MapSpec`, by what the document holds under its key.
unfoldable pub walk_key : Bool → Walker → Option Value → Where → Issues
walk_key opt walk_value (some v) p = walk_value v p
walk_key true walk_value none p = []
walk_key false walk_value none p = one p "missing required key"

-- `_walk`, `_walk_list` and `_walk_map`
unfoldable mutual
  unfolding check_scalar walk_list walk_map walk_open_map walk_key is_field lookup

  pub walk : Spec → Value → Where → Issues
  walk (scalar t nullable enum) v p = check_scalar t nullable enum v p
  walk (list_of item) v p = walk_list (λ w q. walk item w q) v p
  walk (map_of fs) v p = walk_map (λ k. is_field_key k fs) (λ d q. walk_fields fs d q) v p
  walk (open_map req) v p = walk_open_map req v p

  pub walk_fields : Fields → Entries → Where → Issues
  walk_fields no_more d p = []
  walk_fields (key k opt s fs) d p =
      walk_key opt (λ w q. walk s w q) (lookup k d) (at p k) ++ walk_fields fs d p

-- `_scan_forbidden_types`
unfoldable mutual
  pub scan : Value → Where → Issues
  scan (float n) p = one p "float value is not allowed (quote the value)"
  scan (date n) p = one p "datetime/date value is not allowed (use a quoted ISO-8601 string)"
  scan (bytes n) p = one p "bytes value is not allowed"
  scan (other h n) p = one p "value of this type is not allowed"
  scan (dict d) p = scan_entries d p
  scan (list xs) p = scan_items xs 0 p
  scan null p = []
  scan (bool b) p = []
  scan (int n) p = []
  scan (str s) p = []

  pub scan_items : Items → ℕ → Where → Issues
  scan_items nil i p = []
  scan_items (cons v vs) i p = scan v (nth p i) ++ scan_items vs (suc i) p

  pub scan_entries : Entries → Where → Issues
  scan_entries end p = []
  scan_entries (entry k v d) p =
      (if is_good_key k then scan v (field p k) else one p "keys must be non-empty strings")
      ++ scan_entries d p
