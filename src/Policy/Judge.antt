-- ===== src/Policy/Judge.antt =====
-- The tests of src/intent_packages/approval_policy.py that judge a package by a grant.
use Prim.Native.Nat.{Ordering}
use Prim.Native.String.{compare}
use intent_packages.Prelude.{
  ℕ, String, Bool, true, false, not, ◌&&◌, ◌||◌, Option, none, some, List, [], ◌∷◌, ◌++◌, ◌==◌, mem,
  leb, ltb, length, if◌then◌else◌, all, any,
}
use intent_packages.Value.{
  Value, null, bool, int, pos, str, list, dict, Entries, cons, to_list, is_str, in_set,
}
use intent_packages.Value.Dict.{get}
use intent_packages.Outcome.{Outcome, ok, raised, type_error, members_unreadable}
use intent_packages.Host.{Host}
use intent_packages.Members.{granted_targets}
use intent_packages.Policy.{
  Grant, Refusal, acceptance_not_permitted, authority_terms_not_permitted, budget_above_ceiling,
  bump_versions_not_distinct, max_impact_not_permitted, member_record_unreadable,
  not_a_standing_package, reach_not_permitted, target_repository_not_permitted,
}

-- What one test answers: an objection or none, or what it raises.
abbrev pub Answer : Type 0
Answer = Outcome (Option Refusal)

abbrev pub fine : Answer
fine = ok none

abbrev pub refuse : Refusal → Answer
refuse r = ok (some r)

abbrev pub refuse_unless : Bool → Refusal → Answer
refuse_unless true r = fine
refuse_unless false r = refuse r

-- The value under a key of a value that may be no mapping.
abbrev pub field_of : Value → String → Value
field_of (dict d) k = get d k
field_of _ k = null

module _ (H : Host) where
  -- `except MembersUnreadable`
  unfoldable pub by_members : String → Outcome (List String) → Answer
  unfolding mem
  by_members target (ok granted) =
      refuse_unless (mem (H.casefold target) granted) target_repository_not_permitted
  by_members target (raised (members_unreadable w)) = refuse member_record_unreadable
  by_members target (raised e) = raised e

  unfoldable pub target_answer : Value → Option String → List String → Answer
  unfolding mem by_members granted_targets
  target_answer (str target) none repositories =
      refuse_unless (mem target repositories) target_repository_not_permitted
  target_answer (str target) (some service) repositories =
      by_members target (granted_targets H service)
  target_answer _ service repositories = refuse target_repository_not_permitted

  unfoldable pub target_refusal : Entries → Grant → Answer
  unfolding target_answer get
  target_refusal pkg g =
      target_answer (field_of (get pkg "profile_fields") "target_repo") g.target_service
        g.target_repositories

abbrev pub is_true : Value → Bool
is_true (bool true) = true
is_true _ = false

unfoldable pub standing_refusal : Entries → Answer
unfolding get
standing_refusal pkg =
    refuse_unless (is_true (field_of (get pkg "profile_fields") "standing")) not_a_standing_package

abbrev pub distinct : Value → Value → Bool
distinct (str before) (str after) = not (before == after)
distinct _ _ = false

unfoldable pub bump_refusal : Entries → Answer
unfolding get
bump_refusal pkg =
    refuse_unless
      (distinct (field_of (get pkg "profile_fields") "from_version")
        (field_of (get pkg "profile_fields") "to_version"))
      bump_versions_not_distinct

-- `list(reach) == list(option)` for an option of texts.
unfoldable pub equals_texts : List Value → List String → Bool
equals_texts [] [] = true
equals_texts (str s ∷ vs) (t ∷ ts) = s == t && equals_texts vs ts
equals_texts vs ts = false

abbrev pub reach_fits : Value → List (List String) → Bool
reach_fits (list xs) options = any (λ o. equals_texts (to_list xs) o) options
reach_fits _ options = false

unfoldable pub reach_refusal : Entries → Grant → Answer
unfolding get equals_texts to_list any
reach_refusal pkg g =
    refuse_unless (reach_fits (get pkg "reach") g.reach_options) reach_not_permitted

-- `sorted` of texts.
insert_text : String → List String → List String
insert_text s [] = s ∷ []
insert_text s (x ∷ xs) =
    let later = x ∷ insert_text s xs in elim (compare s x) [ Ordering.gt ↦ later | _ ↦ s ∷ x ∷ xs ]

unfoldable pub sort_texts : List String → List String
unfolding insert_text
sort_texts [] = []
sort_texts (s ∷ ss) = insert_text s (sort_texts ss)

-- `sorted(declared) == sorted(permitted)`. A list that holds something else than texts differs; it
-- raises where Python has no order for it: texts and other values mixed, or two values of a kind
-- that has none. A list of lists is taken to have one.
abbrev one_text : Value → List String
one_text (str s) = s ∷ []
one_text _ = []

unfoldable pub texts_in : List Value → List String
texts_in [] = []
texts_in (v ∷ vs) = one_text v ++ texts_in vs

abbrev is_number : Value → Bool
is_number (int n) = true
is_number (bool b) = true
is_number (Value.float n) = true
is_number _ = false

abbrev is_sequence : Value → Bool
is_sequence (list xs) = true
is_sequence _ = false

abbrev is_bytes : Value → Bool
is_bytes (Value.bytes n) = true
is_bytes _ = false

abbrev pub orderable : List Value → Bool
orderable vs = ltb (length vs) 2 || (all is_number vs || (all is_sequence vs || all is_bytes vs))

unfoldable pub same_strings : List String → List String → Bool
same_strings [] [] = true
same_strings (a ∷ as') (b ∷ bs) = a == b && same_strings as' bs
same_strings _ _ = false

unfoldable pub same_terms : Value → List String → Outcome Bool
unfolding texts_in sort_texts same_strings to_list all
same_terms (list xs) permitted =
    if all is_str (to_list xs)
    then ok (same_strings (sort_texts (texts_in (to_list xs))) (sort_texts permitted))
    else if orderable (to_list xs)
    then ok false
    else raised type_error
same_terms _ permitted = ok false

-- Each test in turn, up to the first that fails.
abbrev pub and_then : Outcome Bool → Outcome Bool → Outcome Bool
and_then (ok true) m = m
and_then (ok false) m = ok false
and_then (raised e) m = raised e

abbrev pub answer_by : Outcome Bool → Refusal → Answer
answer_by (ok b) r = refuse_unless b r
answer_by (raised e) r = raised e

unfoldable pub authority_answer : Value → Grant → Answer
unfolding get same_terms
authority_answer (dict a) g =
    answer_by
      (and_then (same_terms (get a "allowed") g.authority_allowed) (
        and_then (same_terms (get a "requires_approval") g.authority_requires_approval)
          (same_terms (get a "prohibited") g.authority_prohibited)))
      authority_terms_not_permitted
authority_answer _ g = refuse authority_terms_not_permitted

unfoldable pub authority_refusal : Entries → Grant → Answer
unfolding get authority_answer
authority_refusal pkg g = authority_answer (get pkg "authority") g

abbrev pub within : Value → ℕ → Bool
within (int (pos n)) ceiling = leb 1 n && leb n ceiling
within _ ceiling = false

unfoldable pub budget_refusal : Entries → Grant → Answer
unfolding get
budget_refusal pkg g =
    let budgets = field_of (get pkg "authority") "budgets" in
    refuse_unless
      (within (field_of budgets "max_attempts") g.max_attempts
        && within (field_of budgets "max_llm_calls") g.max_llm_calls)
      budget_above_ceiling

unfoldable pub criteria_fit : List Value → Grant → Outcome Bool
unfolding get in_set
criteria_fit [] g = ok true
criteria_fit (dict c ∷ cs) g =
    let rest = criteria_fit cs g in
    and_then (in_set (get c "evidence_type") g.acceptance_evidence_types)
      (and_then (in_set (get c "approver") g.acceptance_approvers) rest)
criteria_fit (v ∷ cs) g = ok false

unfoldable pub acceptance_answer : Value → Grant → Answer
unfolding criteria_fit to_list
acceptance_answer (list (cons c cs)) g =
    answer_by (criteria_fit (c ∷ to_list cs) g) acceptance_not_permitted
acceptance_answer _ g = refuse acceptance_not_permitted

unfoldable pub acceptance_refusal : Entries → Grant → Answer
unfolding get acceptance_answer
acceptance_refusal pkg g = acceptance_answer (get pkg "acceptance") g

unfoldable pub impact_refusal : Entries → Grant → Answer
unfolding get in_set
impact_refusal pkg g =
    answer_by (in_set (field_of (get pkg "risk") "max_impact") g.max_impact)
      max_impact_not_permitted
