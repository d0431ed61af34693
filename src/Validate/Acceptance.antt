-- ===== src/Validate/Acceptance.antt =====
-- Check A of src/intent_packages/validate.py: the acceptance criteria.
use intent_packages.Prelude.{
  starts_with, ℕ, suc, String, Bool, true, false, not, ◌&&◌, none, some, List, [], ◌∷◌, ◌==◌, mem,
  if◌then◌else◌, is_blank,
}
use intent_packages.Value.{Value, str, list, dict, Entries, to_list, in_set}
use intent_packages.Value.Dict.{get}
use intent_packages.Outcome.{ok, ◌>>=◌}
use intent_packages.Outcome.Report.{
  Where, in_top, at, nth, Issues, one, one_if, Report, issue, issue_if, clean, ◌+++◌,
}
use intent_packages.Host.{Host}
use intent_packages.Registry.{registry_dir, is_registered_agent}
use intent_packages.Validate.Formats.{is_acceptance_id}

abbrev pub evidence_types : List String
evidence_types =
    "automated_test" ∷ "automated_check" ∷ "human_review" ∷ "external_attestation" ∷ "observation"
    ∷ []

abbrev pub external_approver_evidence_types : List String
external_approver_evidence_types = "external_attestation" ∷ "human_review" ∷ []

-- The message about an id, and the ids seen after it.
unfoldable pub check_acceptance_id : Value → Where → List String → Issues × List String
unfolding is_acceptance_id mem
check_acceptance_id (str s) p seen =
    if is_acceptance_id s
    then (if mem s seen then (one (at p "id") "duplicate acceptance id", seen) else ([], s ∷ seen))
    else (one (at p "id") "must match ^AC-[0-9]{3,}$", seen)
check_acceptance_id _ p seen = (one (at p "id") "must match ^AC-[0-9]{3,}$", seen)

unfoldable pub check_evidence_type : Value → Where → Report
unfolding in_set
check_evidence_type v p = in_set v evidence_types >>= λ legal.
    issue_if (not legal) (at p "evidence_type") "not a legal evidence type"

unfoldable pub check_evidence : Value → Where → Issues
unfolding is_blank
check_evidence (str s) p = one_if (is_blank s) (at p "evidence") "must be a non-empty string"
check_evidence _ p = one (at p "evidence") "must be a non-empty string"

-- `external:<label>`
external_approver : String → Value → Where → Report
unfolding in_set ◌+++◌
external_approver s evidence_type p =
    issue_if (s == "external:") (at p "approver") "external: approver must include a label"
    +++ (in_set evidence_type external_approver_evidence_types >>= λ legal.
        issue_if (not legal) (at p "approver") "external: approver is not legal here")

module _ (H : Host) where
  unfoldable pub check_acceptance_approver : Value → Value → Where → Bool → Report
  unfolding external_approver is_registered_agent
  check_acceptance_approver (str s) evidence_type p registry_present =
      if s == ""
      then issue (at p "approver") "missing or invalid approver"
      else if s == "policy"
      then clean
      else if starts_with s "external:"
      then external_approver s evidence_type p
      else issue_if (registry_present && not (is_registered_agent H s)) (at p "approver")
          "not a legal approver"
  check_acceptance_approver _ evidence_type p registry_present =
      issue (at p "approver") "missing or invalid approver"

  -- The checks of one criterion behind that of its id.
  unfoldable pub check_criterion : Entries → Where → Bool → Report
  unfolding get check_evidence_type check_evidence check_acceptance_approver ◌+++◌
  check_criterion item p present =
      check_evidence_type (get item "evidence_type") p
      +++ (ok (check_evidence (get item "evidence") p)
          +++ check_acceptance_approver (get item "approver") (get item "evidence_type") p present)

  -- The loop over the criteria, with the ids seen so far.
  unfoldable pub check_items : Bool → List Value → ℕ → List String → Report
  unfolding check_acceptance_id get check_criterion ◌+++◌
  check_items present [] i seen = clean
  check_items present (dict item ∷ vs) i seen =
      let p = nth (in_top "acceptance") i in
      let (id_issues, more) = check_acceptance_id (get item "id") p seen in
      (ok id_issues +++ check_criterion item p present) +++ check_items present vs (suc i) more
  check_items present (v ∷ vs) i seen =
      issue (nth (in_top "acceptance") i) "expected a mapping"
      +++ check_items present vs (suc i) seen

  present : Bool
  unfolding registry_dir
  present = elim (registry_dir H) [ none ↦ false | some r ↦ true ]

  unfoldable pub check_acceptance : Entries → Report
  unfolding get check_items present to_list
  check_acceptance d = elim (get d "acceptance") [
    | list xs ↦ check_items present (to_list xs) 0 []
    | _ ↦ clean
  ]
