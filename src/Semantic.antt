-- ===== src/Semantic.antt =====
-- src/intent_packages/checks_semantic.py: package.yaml against lineage.yaml and the registry.
pub mod Ledger
use intent_packages.Prelude.{
  ℕ, suc, String, Bool, true, false, not, ◌&&◌, ◌||◌, Option, none, some, List, [], ◌∷◌, ◌++◌, ◌==◌,
  mem, all, ltb, length, if◌then◌else◌,
}
use intent_packages.Lifecycle.{drift_locked, revise_legal_from}
use intent_packages.Value.{
  Value, str, int, list, dict, Entries, to_list, is_str, is_int, is_hashable, in_set, scalar_eq,
  is_text, str_in,
}
use intent_packages.Value.Dict.{get}
use intent_packages.Value.Equal.{value_eq}
use intent_packages.Outcome.{Outcome, ok, raised, type_error, canonical_error, ◌>>=◌}
use intent_packages.Outcome.Report.{
  Where, top, in_top, at, nth, Issues, one, one_if, each, Report, issue, issue_if, clean, ◌+++◌,
}
use intent_packages.Host.{Host, PackageDir}
use intent_packages.Canonical.{package_hash}
use intent_packages.Lineage.{current_revision_hash}
use intent_packages.Registry.{capability_vocabulary}

-- Check S
unfoldable pub status_mirror_errors : Entries → Entries → Issues
unfolding get value_eq
status_mirror_errors pkg lin =
    one_if (not (value_eq (get pkg "status") (get lin "current_state"))) (in_top "status")
      "does not match lineage current_state"

module _ (H : Host) where
  compare_hash : String → Value → Value → Report
  unfolding in_set
  compare_hash live recorded status =
      if is_text recorded live
      then clean
      else in_set status revise_legal_from >>= λ early. issue (in_top "hash") (
          if early
          then "intent changed since the recorded revision"
          else "intent materially changed after execution began")

  -- `except canonical.CanonicalError`
  recorded_drift : Outcome String → Entries → Value → Report
  unfolding current_revision_hash compare_hash
  recorded_drift (raised (canonical_error w)) lin status =
      issue (in_top "hash") "cannot canonicalize invalid package"
  recorded_drift (raised e) lin status = raised e
  recorded_drift (ok live) lin status =
      current_revision_hash lin >>= λ recorded. compare_hash live recorded status

  -- Check H
  unfoldable pub hash_drift_errors : Entries → Entries → Report
  unfolding get in_set recorded_drift package_hash
  hash_drift_errors pkg lin = in_set (get pkg "status") drift_locked >>= λ locked.
      (if locked then recorded_drift (package_hash H pkg) lin (get pkg "status") else clean)

-- A term with the lists that name it, in order.
abbrev pub Membership : Type 0
Membership = List (Value × List String)

add_term : Value → String → Membership → Membership
unfolding scalar_eq
add_term t l [] = (t, l ∷ []) ∷ []
add_term t l ((u, ls) ∷ m) =
    if scalar_eq u t then (u, ls ++ l ∷ []) ∷ m else (u, ls) ∷ add_term t l m

-- The inner loop; a term that cannot be hashed raises.
unfoldable pub add_terms : String → List Value → Membership → Outcome Membership
unfolding add_term
add_terms l [] m = ok m
add_terms l (t ∷ ts) m =
    let rest = add_terms l ts (add_term t l m) in if is_hashable t then rest else raised type_error

abbrev list_or_empty : Value → List Value
list_or_empty (list xs) = to_list xs
list_or_empty _ = []

-- All names of a term are one.
same_lists : List String → Bool
unfolding all
same_lists [] = true
same_lists (l ∷ ls) = all (λ k. l == k) ls

-- Listed twice: in two lists, or within one.
term_errors : List String → Issues
unfolding same_lists
term_errors ls =
    if same_lists ls
    then one_if (ltb 1 (length ls)) (in_top "authority") "term is listed more than once"
    else one (in_top "authority") "term appears in more than one list"

unfoldable pub duplicate_errors : Membership → Issues
unfolding term_errors
duplicate_errors [] = []
duplicate_errors ((t, ls) ∷ m) = term_errors ls ++ duplicate_errors m

unfoldable pub unknown_terms : List String → Membership → Issues
unknown_terms vocabulary [] = []
unknown_terms vocabulary ((t, ls) ∷ m) =
    one_if (not (str_in t vocabulary)) (in_top "authority") "unknown capability term"
    ++ unknown_terms vocabulary m

abbrev all_terms : (Value → Bool) → Membership → Bool
all_terms p [] = true
all_terms p ((t, ls) ∷ m) = p t && all_terms p m

-- `sorted(membership)` wants texts alone, or integers alone, or one term at most.
abbrev sortable : Membership → Bool
sortable m = all_terms is_str m || (all_terms is_int m || ltb (length m) 2)

vocabulary_errors : Membership → Option (List String) → Report
unfolding unknown_terms
vocabulary_errors m none = clean
vocabulary_errors m (some vocabulary) =
    if sortable m then ok (unknown_terms vocabulary m) else raised type_error

unfoldable pub membership : Entries → Outcome Membership
unfolding add_terms get to_list
membership authority = add_terms "allowed" (list_or_empty (get authority "allowed")) [] >>= λ m.
    (add_terms "requires_approval" (list_or_empty (get authority "requires_approval")) m >>= λ n.
    add_terms "prohibited" (list_or_empty (get authority "prohibited")) n)

unknown_required : List String → ℕ → Value → Issues
unfolding mem
unknown_required vocabulary i (str s) =
    one_if (not (mem s vocabulary)) (nth (at (in_top "dependencies") "required_capabilities") i)
      "unknown capability term"
unknown_required vocabulary i _ = []

required_errors : Value → Option (List String) → Issues
unfolding each unknown_required to_list
required_errors (list xs) (some vocabulary) = each (unknown_required vocabulary) 0 (to_list xs)
required_errors _ _ = []

module _ (H : Host) where
  -- Check T
  unfoldable pub authority_errors : Entries → Report
  unfolding get membership duplicate_errors vocabulary_errors capability_vocabulary ◌+++◌
  authority_errors pkg = elim (get pkg "authority") [
    | dict authority ↦ membership authority >>= λ m.
        (ok (duplicate_errors m) +++ (capability_vocabulary H >>= λ v. vocabulary_errors m v))
    | _ ↦ clean
  ]

  unfoldable pub dependency_errors : Entries → Report
  unfolding get capability_vocabulary required_errors
  dependency_errors pkg = elim (get pkg "dependencies") [
    | dict d ↦
        capability_vocabulary H >>= λ v. ok (required_errors (get d "required_capabilities") v)
    | _ ↦ clean
  ]
