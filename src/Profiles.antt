-- ===== src/Profiles.antt =====
-- src/intent_packages/profiles/__init__.py and base.py: the registry of delivery profiles, and the
-- dispatch of a package to the one that it declares. Of a `DeliveryProfile` the model keeps the
-- fields that validation and routing read.
pub mod Tags
pub mod Software
pub mod Infrastructure
pub mod Maintenance
pub mod Dependency
pub mod Operational
use intent_packages.Prelude.{
  ℕ, String, Bool, true, false, Option, none, some, List, [], ◌∷◌, ◌++◌, ◌==◌, if◌then◌else◌,
}
use intent_packages.Value.{Value, null, str, list, dict, Entries, to_list, in_set}
use intent_packages.Value.Dict.{get, has}
use intent_packages.Outcome.{Outcome, ok, raised, ◌>>=◌}
use intent_packages.Outcome.Report.{
  Where, in_top, at, nth, Issues, one, one_if, Report, issue_if, clean, ◌+++◌, for_each,
}
use intent_packages.Host.{Host}
use intent_packages.Profiles.Tags.{TagMap}

pub record DeliveryProfile : Type 0 where
  pub profile_name : String
  pub change_class : Option String
  pub forbidden_evidence_types : List String
  pub validate : Entries → Report

abbrev pub software : DeliveryProfile
software = record {
  profile_name = "software-delivery";
  change_class = some "software-delivery";
  forbidden_evidence_types = [];
  validate = λ d. ok (Software.validate d);
}

abbrev pub infrastructure : DeliveryProfile
infrastructure = record {
  profile_name = "infrastructure-change";
  change_class = none;
  forbidden_evidence_types = [];
  validate = λ d. ok (Infrastructure.validate d);
}

abbrev pub dependency : DeliveryProfile
dependency = record {
  profile_name = "dependency-update";
  change_class = some "dependency-update";
  forbidden_evidence_types = "automated_test" ∷ [];
  validate = λ d. ok (Dependency.validate d);
}

abbrev pub maintenance : DeliveryProfile
maintenance = record {
  profile_name = "maintenance-remediation";
  change_class = some "maintenance-remediation";
  forbidden_evidence_types = "automated_test" ∷ [];
  validate = λ d. ok (Maintenance.validate d);
}

abbrev pub operational : Host → DeliveryProfile
operational H = record {
  profile_name = "non-software-operational";
  change_class = none;
  forbidden_evidence_types = "automated_test" ∷ [];
  validate = λ d. ok (Operational.validate H d);
}

-- `PROFILES`
abbrev pub profiles : Host → List DeliveryProfile
profiles H = software ∷ infrastructure ∷ dependency ∷ maintenance ∷ operational H ∷ []

abbrev pub profile_names : List String
profile_names =
    "software-delivery" ∷ "infrastructure-change" ∷ "dependency-update" ∷ "maintenance-remediation"
    ∷ "non-software-operational" ∷ []

unfoldable pub find_profile : String → List DeliveryProfile → Option DeliveryProfile
find_profile k [] = none
find_profile k (p ∷ ps) = if k == p.profile_name then some p else find_profile k ps

abbrev forbidden_item : List String → ℕ → Value → Report
forbidden_item forbidden i (dict d) = in_set (get d "evidence_type") forbidden >>= λ bad.
    issue_if bad (at (nth (in_top "acceptance") i) "evidence_type") "forbidden by this profile"
forbidden_item forbidden i _ = clean

unfoldable pub check_forbidden_evidence_types : Entries → List String → Report
unfolding get in_set for_each to_list
check_forbidden_evidence_types d [] = clean
check_forbidden_evidence_types d (f ∷ fs) = elim (get d "acceptance") [
  | list xs ↦ for_each (forbidden_item (f ∷ fs)) 0 (to_list xs)
  | _ ↦ clean
]

unfoldable pub run_profile : Option DeliveryProfile → Entries → Report
unfolding check_forbidden_evidence_types ◌+++◌ Software.validate Infrastructure.validate
    Dependency.validate Maintenance.validate Operational.validate
run_profile none d = ok (one (in_top "profile") "unknown profile")
run_profile (some p) d =
    p.validate d +++ check_forbidden_evidence_types d p.forbidden_evidence_types

-- `validate_profile`
unfoldable pub validate_profile : Host → Entries → Report
unfolding get has run_profile find_profile
validate_profile H d = elim (get d "profile") [
  | null ↦ issue_if (has "profile_fields" d) (in_top "profile_fields") "requires a declared profile"
  | str s ↦ run_profile (find_profile s (profiles H)) d
  | _ ↦ clean
]
