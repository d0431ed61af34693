-- ===== src/Validate/Package/Laws.antt =====
-- What a package directory without an error satisfies, for `validate_package` of
-- src/intent_packages/validate.py.
use intent_packages.Prelude.{
  ℕ, String, ◌≡◌, refl, ap, ◌∙◌, Bool, not, ◌||◌, true, false, List, [], ◌∷◌, All,
}
use intent_packages.Key.{Key}
use intent_packages.Value.{
  Value, null, bool, int, str, list, dict, float, date, bytes, other, Entries, to_list, in_set,
  is_text,
}
use intent_packages.Value.Dict.{get, keys}
use intent_packages.Value.Equal.{value_eq}
use intent_packages.Schema.{is_field_key, scan}
use intent_packages.Schema.Top.{top_schema}
use intent_packages.Schema.Conforms.{ConformsFields, walk_fields_sound, unknown_keys_iff}
use intent_packages.Profiles.{validate_profile}
use intent_packages.Validate.{
  trust_values, is_reserved, check_k_and_j, check_reach, check_package_id, check_source,
  check_trust,
}
use intent_packages.Validate.Acceptance.{check_acceptance}
use intent_packages.Validate.Formats.{check_scalar_formats}
use intent_packages.Outcome.{ok-inj, >>=-ok, Outcome, ok, raised, load_error}
use intent_packages.Outcome.Report.{
  Where, top, IsClean, IsClean-+++, append-eq-nil, one_unless, for_each, issue_if,
}
use intent_packages.Host.{Host, PackageDir}
use intent_packages.Loader.{load_package, load_lineage}
use intent_packages.Semantic.{
  status_mirror_errors, hash_drift_errors, authority_errors, dependency_errors,
}
use intent_packages.Semantic.Ledger.{lineage_consistency_errors}
use intent_packages.Validate.Package.{
  package_errors, with_lineage, cross_file_errors, with_package, validate_package,
}

-- A key that check K knows at the top of package.yaml.
abbrev pub IsTopKey : Key → Type 0
IsTopKey k = (is_field_key k top_schema || is_reserved k) ≡ true

-- A source that is a mapping has one of the legal trust values.
abbrev pub IsTrusted : Value → Type 0
IsTrusted (dict src) = in_set (get src "trust") trust_values ≡ ok true
IsTrusted v = Unit

abbrev pub AreTrusted : Value → Type 0
AreTrusted (list xs) = All IsTrusted (to_list xs)
AreTrusted v = Unit

top_shape :
    (d : Entries) → check_k_and_j d ≡ [] → ConformsFields top_schema d × All IsTopKey (keys d)
unfolding check_k_and_j
top_shape d h =
    let outer = (append-eq-nil _ _).0 h in
    let inner = (append-eq-nil _ _).0 outer.1 in
    (
      walk_fields_sound top_schema d top inner.0,
      (unknown_keys_iff (λ k. is_field_key k top_schema || is_reserved k) (keys d) top).0 outer.0,
    )

no_issue : (b : Bool) (p : Where) (s : String) → IsClean (issue_if (not b) p s) → b ≡ true
no_issue true p s h = refl
no_issue false p s h = absurd (cc)

check_source-IsTrusted : (i : ℕ) (v : Value) → IsClean (check_source i v) → IsTrusted v
unfolding check_source
check_source-IsTrusted i (dict src) h =
    let (legal, e, h1) = >>=-ok (in_set (get src "trust") trust_values) _ h in
    e ∙ ap ok (no_issue legal _ _ h1)
check_source-IsTrusted i null h = tt
check_source-IsTrusted i (bool b) h = tt
check_source-IsTrusted i (int n) h = tt
check_source-IsTrusted i (str s) h = tt
check_source-IsTrusted i (list xs) h = tt
check_source-IsTrusted i (float n) h = tt
check_source-IsTrusted i (date n) h = tt
check_source-IsTrusted i (bytes n) h = tt
check_source-IsTrusted i (other b n) h = tt

each_source-IsTrusted :
    (i : ℕ) (vs : List Value) → IsClean (for_each check_source i vs) → All IsTrusted vs
unfolding for_each
each_source-IsTrusted i [] h = tt
each_source-IsTrusted i (v ∷ vs) h =
    let (a, b) = (IsClean-+++ (check_source i v) _).0 h in
    (check_source-IsTrusted i v a, each_source-IsTrusted _ vs b)

check_trust-AreTrusted : (d : Entries) → IsClean (check_trust d) → AreTrusted (get d "sources")
unfolding check_trust
check_trust-AreTrusted d h = by_sources (get d "sources") h
  where
    by_sources :
        (v : Value)
        → IsClean (elim v [ list xs ↦ for_each check_source 0 (to_list xs) | _ ↦ ok [] ])
        → AreTrusted v
    by_sources (list xs) e = each_source-IsTrusted 0 (to_list xs) e
    by_sources null e = tt
    by_sources (bool b) e = tt
    by_sources (int n) e = tt
    by_sources (str s) e = tt
    by_sources (dict xs) e = tt
    by_sources (float n) e = tt
    by_sources (date n) e = tt
    by_sources (bytes n) e = tt
    by_sources (other b n) e = tt

module _ (H : Host) where
  -- package.yaml has the shape of the schema at its top, no forbidden value, the name of its
  -- directory as its id and trusted values of its sources; its reach, its acceptance, its scalars
  -- and its profile pass their checks.
  abbrev pub PackageHolds : Entries → String → Type 0
  PackageHolds pkg dir_name =
      (ConformsFields top_schema pkg × All IsTopKey (keys pkg))
      × (scan (dict pkg) top ≡ [])
      × (is_text (get pkg "package_id") dir_name ≡ true)
      × IsClean (check_reach pkg)
      × AreTrusted (get pkg "sources")
      × IsClean (check_acceptance H pkg)
      × (check_scalar_formats H pkg ≡ [])
      × IsClean (validate_profile H pkg)

  package_errors-PackageHolds :
      (pkg : Entries) (dir_name : String)
      → IsClean (package_errors H pkg dir_name)
      → PackageHolds pkg dir_name
  unfolding package_errors check_package_id
  package_errors-PackageHolds pkg dir_name h =
      let (a, h1) = (IsClean-+++ (ok (check_k_and_j pkg)) _).0 h in
      let (b, h2) = (IsClean-+++ (ok (scan (dict pkg) top)) _).0 h1 in
      let (c, h3) = (IsClean-+++ (ok (check_package_id pkg dir_name)) _).0 h2 in
      let (d, h4) = (IsClean-+++ (check_reach pkg) _).0 h3 in
      let (e, h5) = (IsClean-+++ (check_trust pkg) _).0 h4 in
      let (f, h6) = (IsClean-+++ (check_acceptance H pkg) _).0 h5 in
      let (g, i) = (IsClean-+++ (ok (check_scalar_formats H pkg)) _).0 h6 in
      (
        top_shape pkg (ok-inj a),
        ok-inj b,
        (one_unless (is_text (get pkg "package_id") dir_name) _ _).0 (ok-inj c),
        d,
        check_trust-AreTrusted pkg e,
        f,
        ok-inj g,
        i,
      )

  -- Every part of the check, for the package and the ledger that are on disk.
  abbrev pub CleanParts : Entries → Entries → String → Type 0
  CleanParts pkg lin dir_name =
      PackageHolds pkg dir_name
      × IsClean (authority_errors H pkg)
      × IsClean (dependency_errors H pkg)
      × (value_eq (get pkg "status") (get lin "current_state") ≡ true)
      × IsClean (hash_drift_errors H pkg lin)
      × IsClean (lineage_consistency_errors lin)

  with_lineage-parts :
      (m : Outcome Entries) (pkg : Entries)
      → IsClean (with_lineage H m pkg)
      → (lin : Entries) × (m ≡ ok lin)
        × (status_mirror_errors pkg lin ≡ [])
        × IsClean (hash_drift_errors H pkg lin)
        × IsClean (lineage_consistency_errors lin)
  unfolding with_lineage
  with_lineage-parts (ok lin) pkg h =
      let (a, h1) = (IsClean-+++ (ok (status_mirror_errors pkg lin)) _).0 h in
      let (b, c) = (IsClean-+++ (hash_drift_errors H pkg lin) _).0 h1 in (lin, refl, ok-inj a, b, c)
  with_lineage-parts (raised (load_error w)) pkg h = absurd (cc)
  with_lineage-parts (raised e) pkg h = absurd (cc)

  with_package-parts :
      (m : Outcome Entries) (dir : PackageDir)
      → IsClean (with_package H m dir)
      → (pkg : Entries) × (lin : Entries) × (m ≡ ok pkg)
        × (load_lineage H dir ≡ ok lin)
        × CleanParts pkg lin dir.dir_name
  unfolding with_package cross_file_errors status_mirror_errors
  with_package-parts (ok pkg) dir h =
      let (a, h1) = (IsClean-+++ (package_errors H pkg dir.dir_name) _).0 h in
      let (b, h2) = (IsClean-+++ (authority_errors H pkg) _).0 h1 in
      let (c, h3) = (IsClean-+++ (dependency_errors H pkg) _).0 h2 in
      let (lin, l, d, e, f) = with_lineage-parts (load_lineage H dir) pkg h3 in
      let same = (one_unless (value_eq (get pkg "status") (get lin "current_state")) _ _).0 d in
      (pkg, lin, refl, l, (package_errors-PackageHolds pkg dir.dir_name a, b, c, same, e, f))
  with_package-parts (raised (load_error w)) dir h = absurd (cc)
  with_package-parts (raised e) dir h = absurd (cc)

  -- The directory loads, and every part of the check is clean.
  abbrev pub Valid : PackageDir → Type 0
  Valid dir =
      (pkg : Entries) × (lin : Entries) × (load_package H dir ≡ ok pkg)
      × (load_lineage H dir ≡ ok lin)
      × CleanParts pkg lin dir.dir_name

  -- A directory in which `validate_package` finds nothing has two files that load. package.yaml has
  -- the shape that the schema specifies, no key beside those of the schema and the reserved ones, no
  -- forbidden value, the name of the directory as its id, and a legal trust value on each source that
  -- is a mapping; its status is the state of the ledger. The checks of its reach, its acceptance,
  -- its scalars, its profile, its authority, its dependencies, its hash (H) and its ledger (L) find
  -- nothing.
  pub validate_package-parts : (dir : PackageDir) → IsClean (validate_package H dir) → Valid dir
  unfolding validate_package
  validate_package-parts dir h = with_package-parts (load_package H dir) dir h
