-- ===== src/Factory/Verify/Criteria.antt =====
-- src/intent_packages/factory/verify.py: which criteria of an intake accept named-check evidence.
use intent_packages.Prelude.{
  String, Bool, true, not, Option, none, some, List, [], ◌∷◌, ◌==◌, if◌then◌else◌,
}
use intent_packages.Value.{Value, str, dict, Entries, truthy}
use intent_packages.Value.Dict.{get}
use intent_packages.Value.Access.{iterate}
use intent_packages.Outcome.{Outcome, ok, ◌>>=◌}

-- The kind of evidence of each criterion that has an id; `none` where the kind is no text.
abbrev pub Kinds : Type 0
Kinds = List (String × Option String)

abbrev kind_of : Value → Option String
kind_of (str s) = some s
kind_of _ = none

-- `types[ac_id] = …`
unfoldable pub put_kind : String → Option String → Kinds → Kinds
put_kind k v [] = (k, v) ∷ []
put_kind k v ((j, w) ∷ rest) = if j == k then (j, v) ∷ rest else (j, w) ∷ put_kind k v rest

add_identified : Value → Value → Kinds → Kinds
unfolding put_kind
add_identified (str k) kind kinds = if k == "" then kinds else put_kind k (kind_of kind) kinds
add_identified _ kind kinds = kinds

unfoldable pub add_kind : Value → Kinds → Kinds
unfolding add_identified get
add_kind (dict d) kinds = add_identified (get d "ac_id") (get d "evidence_type") kinds
add_kind _ kinds = kinds

unfoldable pub add_kinds : List Value → Kinds → Kinds
unfolding add_kind
add_kinds [] kinds = kinds
add_kinds (v ∷ vs) kinds = add_kinds vs (add_kind v kinds)

criteria_in : Value → Outcome (List Value)
unfolding iterate truthy
criteria_in v = if truthy v then iterate v else ok []

-- `_criteria_evidence_types`
unfoldable pub evidence_kinds : Entries → Outcome Kinds
unfolding criteria_in add_kinds get
evidence_kinds intake =
    criteria_in (get intake "acceptance_criteria") >>= λ vs. ok (add_kinds vs [])

unfoldable pub find_kind : String → Kinds → Option (Option String)
find_kind k [] = none
find_kind k ((j, v) ∷ rest) = if j == k then some v else find_kind k rest

abbrev pub named_check_kind : String
named_check_kind = "automated_check"

unfoldable pub kind_refused : Option (Option String) → Bool
kind_refused none = true
kind_refused (some none) = true
kind_refused (some (some kind)) = not (kind == named_check_kind)

-- `_ac_evidence_type_refusal` of an intake: whether there is a refusal.
unfoldable pub ac_refused : Entries → String → Outcome Bool
unfolding evidence_kinds find_kind kind_refused
ac_refused intake ac_id =
    evidence_kinds intake >>= λ kinds. ok (kind_refused (find_kind ac_id kinds))
