-- ===== src/Operations/Verify.antt =====
-- `verify_approval` and `default_chain_checker` of src/intent_packages/operations.py.
pub mod Laws
use intent_packages.Prelude.{
  String, Bool, true, false, not, ◌&&◌, Option, none, some, List, [], ◌∷◌, if◌then◌else◌, any,
}
use intent_packages.Value.{Value, str, list, dict, Entries, to_list, is_text, is_list}
use intent_packages.Value.Dict.{get, lookup, item}
use intent_packages.Value.Equal.{value_eq}
use intent_packages.Outcome.{
  Outcome, ok, raised, Exn, chain_unavailable, attribute_error, ◌>>=◌, ◌>>◌, raise_if,
}
use intent_packages.Host.{Host, PackageDir}
use intent_packages.Loader.{load_package, load_lineage}
use intent_packages.Canonical.{package_hash}
use intent_packages.Operations.Approvers.{approvals_of, has_matching_approval}

-- What the chain is read from: whether the security-standards checkout is found, whether
-- `factory_events verify` ran and exited with 0, and the lines of the events file that are not
-- blank, each `none` where it is no JSON; no file is `none`.
pub record Chain : Type 0 where
  pub standards_found : Bool
  pub is_intact : Bool
  pub lines : Option (List (Option Value))

abbrev carries : Value → String → Value → Bool
carries (dict e) h revision =
    is_text (get e "approved_hash") h && value_eq (get e "revision") revision
carries _ h revision = false

unfoldable pub evidence_matches : Value → String → Value → Bool
unfolding any to_list get value_eq
evidence_matches (list xs) h revision = any (λ e. carries e h revision) (to_list xs)
evidence_matches _ h revision = false

-- `obj.get("event", obj)`
abbrev event_of : Entries → Value
event_of obj = elim (lookup "event" obj) [ none ↦ dict obj | some v ↦ v ]

-- Whether one line records the approval. A line that holds no mapping raises.
unfoldable pub line_matches : Option Value → String → Value → Outcome Bool
unfolding lookup get evidence_matches
line_matches none h revision = ok false
line_matches (some (dict obj)) h revision = elim (event_of obj) [
  | dict ev ↦ ok (
      is_text (get ev "action") "package.approved"
      && evidence_matches (get ev "evidence") h revision)
  | _ ↦ raised attribute_error
]
line_matches (some v) h revision = raised attribute_error

unfoldable pub scan_events : List (Option Value) → String → Value → Outcome Bool
unfolding line_matches
scan_events [] h revision = ok false
scan_events (l ∷ ls) h revision =
    let rest = scan_events ls h revision in
    line_matches l h revision >>= λ found. (if found then ok true else rest)

unfoldable pub scan_file : Option (List (Option Value)) → String → Value → Outcome Bool
unfolding scan_events
scan_file none h revision = raised (chain_unavailable "factory events file not found")
scan_file (some ls) h revision = scan_events ls h revision

unfoldable pub events_file_has_matching_approval : Chain → String → Value → Outcome Bool
unfolding scan_file
events_file_has_matching_approval C h revision = scan_file C.lines h revision

unfoldable pub default_chain_checker : Chain → String → Value → Outcome Bool
unfolding events_file_has_matching_approval
default_chain_checker C h revision = do
  raise_if (not C.standards_found) (chain_unavailable "cannot locate security-standards")
  raise_if (not C.is_intact) (chain_unavailable "chain integrity check failed")
  events_file_has_matching_approval C h revision

-- `except Exception: return False`
abbrev fail_closed : Outcome Bool → Bool
fail_closed (ok b) = b
fail_closed (raised e) = false

module _ (H : Host) (checker : String → Value → Outcome Bool) where
  chain_check : Bool → String → Entries → Bool
  unfolding item
  chain_check ledger_only h pkg =
      if ledger_only
      then true
      else fail_closed (item pkg "revision" >>= λ revision. checker h revision)

  -- An `approvals` that is no list is no approval.
  unfoldable pub verify_approval : Bool → PackageDir → Outcome Bool
  unfolding load_package package_hash load_lineage approvals_of has_matching_approval chain_check
  verify_approval ledger_only dir = do
    pkg ← load_package H dir
    h ← package_hash H pkg
    lin ← load_lineage H dir
    approved ← has_matching_approval H (approvals_of lin) h
    ok (if approved then chain_check ledger_only h pkg else false)
