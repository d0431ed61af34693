-- ===== src/Routing.antt =====
-- src/intent_packages/routing.py: the routing policy, a TOML document that says which models a
-- surface or a change class may use.
pub mod Rows
pub mod Laws
use intent_packages.Prelude.{
  ℕ, String, Bool, true, false, ◌&&◌, Option, none, some, List, [], ◌∷◌, ◌++◌, ◌==◌, leb, all,
  if◌then◌else◌, is_blank,
}
use intent_packages.Key.{Key, name, odd}
use intent_packages.Value.{
  Value, int, pos, str, list, dict, Entries, nil, cons, end, to_list, is_hashable, truthy,
}
use intent_packages.Value.Dict.{get, items, Pairs}
use intent_packages.Value.Access.{field_of, iterate}
use intent_packages.Outcome.{
  Outcome, ok, raised, routing_error, attribute_error, type_error, ◌>>=◌, ◌>>◌, raise_if,
}

-- The models by their slugs.
abbrev pub Models : Type 0
Models = List (String × String)

pub record RoutingRow : Type 0 where
  pub id : String
  pub models : List String
  pub model_ids : List String
  pub rationale : String
  pub decided : String

abbrev pub Rows : Type 0
Rows = List (String × RoutingRow)

pub record RoutingPolicy : Type 0 where
  pub version : ℕ
  pub models : Models
  pub surfaces : Rows
  pub change_classes : Rows
  pub no_llm : List String

-- `d.get(k)` and `k in d` for a dict with texts as keys.
unfoldable pub find {ℓ} : {A : Type ℓ} → String → List (String × A) → Option A
find k [] = none
find k ((j, a) ∷ rest) = if k == j then some a else find k rest

unfoldable pub known {ℓ} : {A : Type ℓ} → String → List (String × A) → Bool
unfolding find
known k rows = elim (find k rows) [ none ↦ false | some _ ↦ true ]

require_text : Value → Outcome String
unfolding is_blank
require_text (str s) =
    if is_blank s then raised (routing_error "must be a non-empty string") else ok s
require_text _ = raised (routing_error "must be a non-empty string")

unfoldable pub require_str : Value → String → Outcome String
unfolding field_of require_text
require_str table k = field_of table k >>= require_text

-- `slug in models`, which hashes the slug first.
check_slug : Models → Value → Outcome String
unfolding known
check_slug models (str s) =
    if known s models then ok s else raised (routing_error "unknown model slug")
check_slug models v =
    if is_hashable v then raised (routing_error "unknown model slug") else raised type_error

check_slugs : Models → List Value → Outcome (List String)
unfolding check_slug
check_slugs models [] = ok []
check_slugs models (v ∷ vs) =
    check_slug models v >>= λ s. (check_slugs models vs >>= λ ss. ok (s ∷ ss))

slugs_of : Models → Value → Outcome (List String)
unfolding check_slugs to_list
slugs_of models (list (cons v vs)) = check_slugs models (v ∷ to_list vs)
slugs_of models _ = raised (routing_error "models must be a non-empty list")

-- `models[s] for s in slugs`; each slug was checked to be a key.
ids_of : Models → List String → List String
unfolding find
ids_of models [] = []
ids_of models (s ∷ ss) = elim (find s models) [
  | none ↦ ids_of models ss
  | some i ↦ i ∷ ids_of models ss
]

unfoldable pub build_row : Value → String → Models → Outcome RoutingRow
unfolding field_of slugs_of ids_of require_str
build_row table row_id models = do
  value ← field_of table "models"
  slugs ← slugs_of models value
  rationale ← require_str table "rationale"
  decided ← require_str table "decided"
  ok (record {
    id = row_id;
    models = slugs;
    model_ids = ids_of models slugs;
    rationale = rationale;
    decided = decided;
  })

unfoldable pub validate_version : Value → Outcome ℕ
validate_version (int (pos n)) =
    if leb 1 n then ok n else raised (routing_error "version must be a positive integer")
validate_version _ = raised (routing_error "version must be a positive integer")

model_id_of : Value → Outcome String
unfolding is_blank
model_id_of (str s) =
    if is_blank s then raised (routing_error "model id must be a non-empty string") else ok s
model_id_of _ = raised (routing_error "model id must be a non-empty string")

-- A TOML table has texts as keys only.
models_of : Pairs → Outcome Models
unfolding model_id_of
models_of [] = ok []
models_of ((name k, v) ∷ rest) = model_id_of v >>= λ i. (models_of rest >>= λ ms. ok ((k, i) ∷ ms))
models_of ((odd n, v) ∷ rest) = raised type_error

unfoldable pub validate_models_table : Value → Outcome Models
unfolding models_of items
validate_models_table (dict end) = raised (routing_error "[models] must be a non-empty table")
validate_models_table (dict d) = models_of (items d)
validate_models_table _ = raised (routing_error "[models] must be a non-empty table")

-- What `for table in value or []` goes through.
rows_in : Value → Outcome (List Value)
unfolding iterate truthy
rows_in v = if truthy v then iterate v else ok []

add_surface : Models → Rows → Value → Outcome Rows
unfolding require_str known build_row
add_surface models surfaces table = do
  row_id ← require_str table "id"
  raise_if (known row_id surfaces) (routing_error "duplicate surface id")
  _where ← require_str table "where"
  row ← build_row table row_id models
  ok (surfaces ++ (row_id, row) ∷ [])

add_surfaces : Models → Rows → List Value → Outcome Rows
unfolding add_surface
add_surfaces models surfaces [] = ok surfaces
add_surfaces models surfaces (table ∷ tables) =
    add_surface models surfaces table >>= λ more. add_surfaces models more tables

some_rows : Rows → Outcome Rows
some_rows [] = raised (routing_error "policy declares no [[surface]] rows")
some_rows (row ∷ rows) = ok (row ∷ rows)

unfoldable pub parse_surfaces : Value → Models → Outcome Rows
unfolding rows_in add_surfaces some_rows
parse_surfaces value models =
    rows_in value >>= λ tables. (add_surfaces models [] tables >>= some_rows)

change_class_row : Models → Rows → String → Value → Outcome RoutingRow
unfolding require_str known build_row
change_class_row models surfaces class_name table = do
  surface ← require_str table "surface"
  raise_if (if known surface surfaces then false else true) (routing_error "unknown surface")
  build_row table class_name models

change_class_rows : Models → Rows → Pairs → Outcome Rows
unfolding change_class_row
change_class_rows models surfaces [] = ok []
change_class_rows models surfaces ((name k, table) ∷ rest) =
    change_class_row models surfaces k table >>= λ row.
    (change_class_rows models surfaces rest >>= λ rows. ok ((k, row) ∷ rows))
change_class_rows models surfaces ((odd n, table) ∷ rest) = raised type_error

-- `(value or {}).items()`
table_items : Value → Outcome Pairs
unfolding items truthy
table_items (dict d) = ok (items d)
table_items v = if truthy v then raised attribute_error else ok []

unfoldable pub parse_change_classes : Value → Models → Rows → Outcome Rows
unfolding table_items change_class_rows
parse_change_classes value models surfaces =
    table_items value >>= λ rows. change_class_rows models surfaces rows

texts_in : List Value → Outcome (List String)
texts_in [] = ok []
texts_in (str s ∷ vs) = texts_in vs >>= λ ss. ok (s ∷ ss)
texts_in (v ∷ vs) = raised (routing_error "[no_llm].items must be a list of strings")

no_llm_items : Value → Outcome (List String)
unfolding texts_in to_list
no_llm_items (list xs) = texts_in (to_list xs)
no_llm_items _ = raised (routing_error "[no_llm].items must be a list of strings")

unfoldable pub validate_no_llm : Value → Outcome (List String)
unfolding no_llm_items field_of truthy
validate_no_llm v = field_of (if truthy v then v else dict end) "items" >>= no_llm_items

unfoldable pub parse_policy : Entries → Outcome RoutingPolicy
unfolding get validate_version validate_models_table parse_surfaces parse_change_classes
    validate_no_llm
parse_policy raw = do
  version ← validate_version (get raw "version")
  models ← validate_models_table (get raw "models")
  surfaces ← parse_surfaces (get raw "surface") models
  change_classes ← parse_change_classes (get raw "change_class") models surfaces
  no_llm ← validate_no_llm (get raw "no_llm")
  ok (record {
    version = version;
    models = models;
    surfaces = surfaces;
    change_classes = change_classes;
    no_llm = no_llm;
  })

-- What `_parse_toml` finds at the path: no file, a file that is no TOML, or a document.
pub data PolicyFile : Type 0 where
  missing malformed : PolicyFile
  document : Entries → PolicyFile

unfoldable pub load_policy : PolicyFile → Outcome RoutingPolicy
unfolding parse_policy
load_policy missing = raised (routing_error "routing policy not found")
load_policy malformed = raised (routing_error "routing policy is not valid TOML")
load_policy (document raw) = parse_policy raw

unfoldable pub resolve_surface : RoutingPolicy → String → Outcome RoutingRow
unfolding find
resolve_surface policy surface_id = elim (find surface_id policy.surfaces) [
  | none ↦ raised (routing_error "unknown surface")
  | some row ↦ ok row
]

unfoldable pub resolve_change_class : RoutingPolicy → String → Outcome RoutingRow
unfolding find
resolve_change_class policy change_class = elim (find change_class policy.change_classes) [
  | none ↦ raised (routing_error "unknown change-class")
  | some row ↦ ok row
]
