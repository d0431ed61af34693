-- ===== src/Validate/Package.antt =====
-- `validate_package` of src/intent_packages/validate.py and `cross_file_errors` of
-- src/intent_packages/checks_semantic.py: all checks of a package directory.
pub mod Laws
use intent_packages.Prelude.{
  ℕ, String, Bool, true, false, not, ◌&&◌, Option, none, some, List, [], ◌∷◌, ◌++◌, if◌then◌else◌,
  any, starts_with, mem,
}
use intent_packages.Value.{Value, null, str, list, dict, Entries, to_list, truthy, is_null, in_set}
use intent_packages.Value.Dict.{get}
use intent_packages.Outcome.{Outcome, ok, raised, load_error, ◌>>=◌}
use intent_packages.Outcome.Report.{
  Where, top, in_top, Issues, one, one_if, Report, issue, clean, ◌+++◌,
}
use intent_packages.Host.{Host, PackageDir}
use intent_packages.Loader.{load_package, load_lineage}
use intent_packages.Schema.{scan}
use intent_packages.Registry.{registry_dir}
use intent_packages.Profiles.{validate_profile}
use intent_packages.Semantic.{
  status_mirror_errors, hash_drift_errors, authority_errors, dependency_errors,
}
use intent_packages.Semantic.Ledger.{lineage_consistency_errors}
use intent_packages.Validate.{check_k_and_j, check_reach, check_package_id, check_trust}
use intent_packages.Validate.Acceptance.{check_acceptance}
use intent_packages.Validate.Formats.{check_scalar_formats}

module _ (H : Host) where
  -- The checks of package.yaml by itself.
  unfoldable pub package_errors : Entries → String → Report
  unfolding ◌+++◌ check_acceptance check_k_and_j check_package_id check_reach check_scalar_formats
      check_trust scan validate_profile
  package_errors pkg dir_name =
      ok (check_k_and_j pkg)
      +++ (ok (scan (dict pkg) top)
          +++ (ok (check_package_id pkg dir_name)
              +++ (check_reach pkg
                  +++ (check_trust pkg
                      +++ (check_acceptance H pkg
                          +++ (ok (check_scalar_formats H pkg) +++ validate_profile H pkg))))))

  unfoldable pub with_lineage : Outcome Entries → Entries → Report
  unfolding ◌+++◌ hash_drift_errors lineage_consistency_errors status_mirror_errors
  with_lineage (raised (load_error w)) pkg = issue top w
  with_lineage (raised e) pkg = raised e
  with_lineage (ok lin) pkg =
      ok (status_mirror_errors pkg lin)
      +++ (hash_drift_errors H pkg lin +++ lineage_consistency_errors lin)

  unfoldable pub cross_file_errors : Entries → PackageDir → Report
  unfolding with_lineage load_lineage ◌+++◌ authority_errors dependency_errors
  cross_file_errors pkg dir =
      authority_errors H pkg +++ (dependency_errors H pkg +++ with_lineage (load_lineage H dir) pkg)

  unfoldable pub with_package : Outcome Entries → PackageDir → Report
  unfolding package_errors cross_file_errors ◌+++◌
  with_package (raised (load_error w)) dir = issue top w
  with_package (raised e) dir = raised e
  with_package (ok pkg) dir = package_errors pkg dir.dir_name +++ cross_file_errors pkg dir

  unfoldable pub validate_package : PackageDir → Report
  unfolding with_package load_package
  validate_package dir = with_package (load_package H dir) dir
