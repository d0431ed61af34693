-- ===== src/Operations/Approvers/Laws.antt =====
-- Who `_authorize_approver` of src/intent_packages/operations.py lets approve.
use intent_packages.Prelude.{
  String, ◌≡◌, refl, sym, ap, ◌∙◌, ◌⊎◌, inl, inr, Bool, true, false, some, List, [], ◌∷◌, codes,
  same_text-eq, if◌then◌else◌,
}
use intent_packages.Value.{Value, str, Entries}
use intent_packages.Value.Dict.{get}
use intent_packages.Outcome.{Outcome, ok, raised, policy_error, >>=-ok, if-ok}
use intent_packages.Host.{Host}
use intent_packages.Registry.{is_human_operator}
use intent_packages.Policy.{ApprovalPolicy, Grant, Refusal}
use intent_packages.Policy.Refusals.{refusals_for, find_grant}
use intent_packages.Policy.Approver.{is_policy_approver, approver_for}
use intent_packages.Policy.Load.{load_policy}
use intent_packages.Policy.Laws.Permits.{Permits, refusals_for-Permits}
use intent_packages.Operations.Approvers.{
  is_expected, no_refusals, readable, granted_by, by_policy, authorize_approver,
}

no_refusals-ok : (rs : List Refusal) → no_refusals rs ≡ ok tt → rs ≡ []
unfolding no_refusals
no_refusals-ok [] h = refl
no_refusals-ok (r ∷ rs) h = absurd (cc)

readable-ok : (m : Outcome ApprovalPolicy) (p : ApprovalPolicy) → readable m ≡ ok p → m ≡ ok p
unfolding readable
readable-ok (ok q) p h = h
readable-ok (raised (policy_error w)) p h = absurd (cc)
readable-ok (raised e) p h = absurd (cc)

expected-profile :
    (approver : String) (v : Value) (policy : ApprovalPolicy)
    → is_expected approver v policy ≡ true
    → (p : String) × (v ≡ str p) × (codes approver ≡ approver_for policy p)
expected-profile approver (str p) policy h = (p, refl, same_text-eq _ _ h)
expected-profile approver v policy h = absurd (cc)

-- The approver is the one of the policy on file for the profile of the package, and the policy
-- permits the package.
abbrev pub PolicyApproves : Host → Entries → String → Type 0
PolicyApproves H pkg approver =
    (policy : ApprovalPolicy) × (p : String) × (g : Grant) × (load_policy H ≡ ok policy)
    × (get pkg "profile" ≡ str p)
    × (codes approver ≡ approver_for policy p)
    × (find_grant p policy.grants ≡ some (some g))
    × Permits H pkg g

str-inj : (s t : String) → str s ≡ str t → s ≡ t
str-inj s t h = cc

module _ (H : Host) where
  granted_by-ok :
      (policy : ApprovalPolicy) (pkg : Entries) (approver : String)
      → granted_by H policy pkg approver ≡ ok tt
      → (is_expected approver (get pkg "profile") policy ≡ true)
        × (refusals_for H policy pkg ≡ ok [])
  unfolding granted_by
  granted_by-ok policy pkg approver h =
      let (e, h1) = if-ok _ _ _ h in
      let (rs, r, h2) = >>=-ok (refusals_for H policy pkg) _ h1 in
      (e, r ∙ ap ok (no_refusals-ok rs h2))

  by_policy-ok :
      (approver : String) (pkg : Entries)
      → by_policy H approver pkg ≡ ok tt
      → (is_policy_approver approver ≡ true) × PolicyApproves H pkg approver
  unfolding by_policy
  by_policy-ok approver pkg h =
      let (i, h1) = if-ok _ _ _ h in
      let (policy, l, h2) = >>=-ok (readable (load_policy H)) _ h1 in
      let (e, r) = granted_by-ok policy pkg approver h2 in
      let (p, g, q, f, permits) = refusals_for-Permits H policy pkg r in
      let (p', q', a) = expected-profile approver (get pkg "profile") policy e in
      (
        i,
        (
          policy,
          p,
          g,
          readable-ok (load_policy H) policy l,
          q,
          a ∙ ap (approver_for policy) (str-inj p' p (sym q' ∙ q)),
          f,
          permits,
        ),
      )

  human_or :
      (b : Bool) (m : Outcome (Unit {0}))
      → (if b then ok tt else m) ≡ ok tt
      → (b ≡ true) ⊎ (m ≡ ok tt)
  human_or true m h = inl refl
  human_or false m h = inr h

  -- A human operator, or the policy for the package.
  abbrev pub Authorised : Entries → String → Type 0
  Authorised pkg approver =
      (is_human_operator H approver ≡ ok true)
      ⊎ ((is_policy_approver approver ≡ true) × PolicyApproves H pkg approver)

  -- An approver that is authorised is a human operator of the registry, or it has the form of a
  -- policy approver and is the one that the policy on file has for the profile of the package, with
  -- a grant for this profile that permits the package.
  pub authorize_approver_sound :
      (pkg : Entries) (approver : String)
      → authorize_approver H pkg approver ≡ ok tt
      → Authorised pkg approver
  unfolding authorize_approver
  authorize_approver_sound pkg approver h =
      let (b, m, h1) = >>=-ok (is_human_operator H approver) _ h in
      elim (human_or b (by_policy H approver pkg) h1) [
        | inl e ↦ inl (m ∙ ap ok e)
        | inr r ↦ inr (by_policy-ok approver pkg r)
      ]
