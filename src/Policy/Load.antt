-- ===== src/Policy/Load.antt =====
-- Loading approval-policy.toml, in src/intent_packages/approval_policy.py.
pub mod Laws
use Prim.Native.String.{slice, len}
use intent_packages.Prelude.{
  ℕ, String, Bool, true, false, not, ◌&&◌, ◌||◌, Option, none, some, List, [], ◌∷◌, ◌==◌, mem,
  codes, leb, eqb, if◌then◌else◌, all, is_blank, starts_with,
}
use intent_packages.Key.{Key, name, odd}
use intent_packages.Value.{Value, int, pos, str, list, dict, Entries, nil, cons, to_list}
use intent_packages.Value.Dict.{get, has, keys, lookup, items, Pairs}
use intent_packages.Outcome.{Outcome, ok, raised, policy_error, ◌>>=◌, ◌>>◌, raise_if}
use intent_packages.Host.{Host, Text}
use intent_packages.Profiles.{profile_names}
use intent_packages.Policy.{Grant, ApprovalPolicy}

abbrev row_required : List String
row_required = "rationale" ∷ "decided" ∷ []

abbrev grant_fields : List String
grant_fields =
    "rationale" ∷ "decided" ∷ "authority_allowed" ∷ "authority_requires_approval"
    ∷ "authority_prohibited" ∷ "max_attempts" ∷ "max_llm_calls" ∷ "acceptance_evidence_types"
    ∷ "acceptance_approvers" ∷ "max_impact" ∷ []

abbrev target_field : ℕ → String
target_field version = if eqb version 1 then "target_repositories" else "targets_from"

abbrev reach_field : ℕ → String
reach_field version = if leb 3 version then "reach_options" else "reach"

unfoldable pub key_in : List String → Key → Bool
unfolding mem
key_in names (name k) = mem k names
key_in names (odd n) = false

-- `missing = fields - set(table)`, `unknown = set(table) - fields`
unfoldable pub check_fields : List String → List String → Entries → Outcome (Unit {0})
unfolding all has keys key_in
check_fields req known table =
    raise_if (not (all (λ k. has k table) req)) (policy_error "missing fields")
    >> raise_if (not (all (key_in known) (keys table))) (policy_error "unknown fields")

unfoldable pub text_of : Entries → String → Outcome String
unfolding get is_blank
text_of table k = elim (get table k) [
  | str s ↦ if is_blank s then raised (policy_error "must be a non-empty string") else ok s
  | _ ↦ raised (policy_error "must be a non-empty string")
]

-- The texts of a list, each non-empty.
unfoldable pub texts_of : List Value → Outcome (List String)
texts_of [] = ok []
texts_of (str s ∷ vs) =
    let rest = texts_of vs >>= λ ss. ok (s ∷ ss) in
    if s == "" then raised (policy_error "must hold non-empty strings") else rest
texts_of (v ∷ vs) = raised (policy_error "must hold non-empty strings")

strings_of : Value → Bool → Outcome (List String)
unfolding texts_of to_list
strings_of (list nil) true = ok []
strings_of (list nil) false = raised (policy_error "must be a non-empty list")
strings_of (list (cons v vs)) allow_empty = texts_of (v ∷ to_list vs)
strings_of _ allow_empty = raised (policy_error "must be a non-empty list")

unfoldable pub strings : Entries → String → Bool → Outcome (List String)
unfolding strings_of get
strings table k allow_empty = strings_of (get table k) allow_empty

unfoldable pub positive_int : Entries → String → Outcome ℕ
unfolding get
positive_int table k = elim (get table k) [
  | int n ↦ elim n [
    | pos m ↦ if leb 1 m then ok m else raised (policy_error "must be a positive integer")
    | _ ↦ raised (policy_error "must be a positive integer")
  ]
  | _ ↦ raised (policy_error "must be a positive integer")
]

is_service_char : ℕ → Bool
is_service_char c = (leb 97 c && leb c 122) || eqb c b'_'

-- `[a-z][a-z_]*`
is_service : Text → Bool
unfolding is_service_char all
is_service [] = false
is_service (c ∷ cs) = (leb 97 c && leb c 122) && all is_service_char cs

abbrev targets_from_prefix : String
targets_from_prefix = "sds-member-record:"

unfoldable pub target_service : Entries → Outcome String
unfolding text_of is_service codes
target_service table = text_of table "targets_from" >>= λ source.
    (let service = slice source (len targets_from_prefix) (len source) in
      if starts_with source targets_from_prefix && is_service (codes service)
      then ok service
      else raised (policy_error "targets_from must name a service"))

repeats : List String → Bool
unfolding mem
repeats [] = false
repeats (s ∷ ss) = mem s ss || repeats ss

reach_option : Value → Outcome (List String)
unfolding strings_of repeats
reach_option v = strings_of v false >>= λ ss.
    (if repeats ss then raised (policy_error "option repeats a member") else ok ss)

options_of : List Value → Outcome (List (List String))
unfolding reach_option
options_of [] = ok []
options_of (v ∷ vs) = reach_option v >>= λ o. (options_of vs >>= λ os. ok (o ∷ os))

options_in : Value → Outcome (List (List String))
unfolding options_of to_list
options_in (list (cons v vs)) = options_of (v ∷ to_list vs)
options_in _ = raised (policy_error "reach_options must be a non-empty list")

unfoldable pub reach_options : Entries → ℕ → Outcome (List (List String))
unfolding strings options_in get
reach_options table version =
    if leb 3 version
    then options_in (get table "reach_options")
    else strings table "reach" false >>= λ ss. ok (ss ∷ [])

abbrev some_service : Entries → Outcome (Option String)
some_service table = target_service table >>= λ s. ok (some s)

-- `_grant` of a table.
unfoldable pub grant_of : Entries → ℕ → Outcome Grant
unfolding check_fields text_of strings target_service reach_options positive_int
grant_of table version = do
  check_fields (target_field version ∷ reach_field version ∷ grant_fields)
      (target_field version ∷ reach_field version ∷ grant_fields) table
  rationale ← text_of table "rationale"
  decided ← text_of table "decided"
  repositories ← if eqb version 1 then strings table "target_repositories" false else ok []
  service ← if leb 2 version then some_service table else ok none
  options ← reach_options table version
  allowed ← strings table "authority_allowed" false
  requires ← strings table "authority_requires_approval" true
  prohibited ← strings table "authority_prohibited" false
  attempts ← positive_int table "max_attempts"
  calls ← positive_int table "max_llm_calls"
  types ← strings table "acceptance_evidence_types" false
  approvers ← strings table "acceptance_approvers" false
  impact ← strings table "max_impact" false
  ok (record {
    rationale = rationale;
    decided = decided;
    target_repositories = repositories;
    target_service = service;
    reach_options = options;
    authority_allowed = allowed;
    authority_requires_approval = requires;
    authority_prohibited = prohibited;
    max_attempts = attempts;
    max_llm_calls = calls;
    acceptance_evidence_types = types;
    acceptance_approvers = approvers;
    max_impact = impact;
  })

granted : Option Value → ℕ → Outcome (Option Grant)
unfolding grant_of
granted none version = ok none
granted (some (dict table)) version = grant_of table version >>= λ g. ok (some g)
granted (some v) version = raised (policy_error "must be a table")

-- `_row`
unfoldable pub row_of : Value → ℕ → Outcome (Option Grant)
unfolding check_fields text_of granted lookup
row_of (dict table) version = do
  check_fields row_required ("grant" ∷ row_required) table
  _r ← text_of table "rationale"
  _d ← text_of table "decided"
  granted (lookup "grant" table) version
row_of _ version = raised (policy_error "must be a table")

-- The rows in the order of the document. A key that is no text is refused before.
unfoldable pub rows_of : Pairs → ℕ → Outcome (List (String × Option Grant))
unfolding row_of
rows_of [] version = ok []
rows_of ((name k, v) ∷ rows) version = do
  g ← row_of v version
  gs ← rows_of rows version
  ok ((k, g) ∷ gs)
rows_of ((odd n, v) ∷ rows) version = raised (policy_error "unknown profile row")

unfoldable pub check_version : Value → Outcome ℕ
check_version (int (pos n)) =
    if leb 1 n && leb n 3 then ok n else raised (policy_error "schema version not known")
check_version (int n) = raised (policy_error "schema version not known")
check_version _ = raised (policy_error "declares no schema version")

-- Exactly one row for each registered profile.
unfoldable pub check_rows : Value → Outcome Entries
unfolding all has keys key_in
check_rows (dict rows) =
    if all (λ p. has p rows) profile_names && all (key_in profile_names) (keys rows)
    then ok rows
    else raised (policy_error "must have exactly one row per registered profile")
check_rows _ = raised (policy_error "declares no profile rows")

unfoldable pub parse_policy : Entries → Outcome ApprovalPolicy
unfolding all keys key_in get check_version check_rows rows_of items
parse_policy raw = do
  raise_if (not (all (key_in ("version" ∷ "profile" ∷ [])) (keys raw)))
      (policy_error "unknown fields")
  version ← check_version (get raw "version")
  rows ← check_rows (get raw "profile")
  grants ← rows_of (items rows) version
  ok (record { version = version; grants = grants })

unfoldable pub policy_from : Option Entries → Outcome ApprovalPolicy
unfolding parse_policy
policy_from none = raised (policy_error "the approval policy is unreadable or malformed")
policy_from (some raw) = parse_policy raw

unfoldable pub load_policy : Host → Outcome ApprovalPolicy
unfolding policy_from
load_policy H = policy_from H.policy_toml
