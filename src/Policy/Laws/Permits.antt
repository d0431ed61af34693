-- ===== src/Policy/Laws/Permits.antt =====
-- `ApprovalPolicy.refusals_for` of src/intent_packages/approval_policy.py without an objection.
use intent_packages.Prelude.{
  String, ◌≡◌, ◌≢◌, refl, ap, ◌⊎◌, inl, inr, Bool, true, false, Option, none, some, List, [], ◌∷◌,
  ◌==◌, mem, any-In, In, All, if◌then◌else◌, &&-true,
}
use intent_packages.Value.{
  Value, bool, str, list, dict, Entries, Items, nil, cons, to_list, strings,
}
use intent_packages.Value.Dict.{get}
use intent_packages.Outcome.{Outcome, ok, raised, members_unreadable}
use intent_packages.Host.{Host}
use intent_packages.Members.{granted_targets}
use intent_packages.Policy.{Refusal, Grant, ApprovalPolicy}
use intent_packages.Policy.Judge.{
  fine, field_of, target_answer, by_members, target_refusal, standing_refusal, bump_refusal,
  equals_texts, reach_fits, reach_refusal, authority_answer, acceptance_answer, authority_refusal,
  budget_refusal, acceptance_refusal, impact_refusal,
}
use intent_packages.Policy.Refusals.{
  find_grant, grant_answers, grant_refusals, by_grant, by_profile, refusals_for,
}
use intent_packages.Policy.Laws.{
  refuse_unless-fine, answer_by-fine, and_then-true, gather-All, is_true-eq, distinct-texts, Within,
  within-Within, equals_texts-eq, in_set-text, Fits, criteria_fit-Fits, SameTerms,
  same_terms-SameTerms,
}

-- The target stands in the grant, or in the member record that the grant names.
abbrev pub TargetGranted : Host → Grant → String → Type 0
TargetGranted H g target =
    ((g.target_service ≡ none) × (mem target g.target_repositories ≡ true))
    ⊎ ((service : String) × (ts : List String) × (g.target_service ≡ some service)
        × (granted_targets H service ≡ ok ts)
        × (mem (H.casefold target) ts ≡ true))

by_members-fine :
    (H : Host) (target : String) (m : Outcome (List String))
    → by_members H target m ≡ fine
    → (ts : List String) × (m ≡ ok ts) × (mem (H.casefold target) ts ≡ true)
unfolding by_members
by_members-fine H target (ok ts) h = (ts, refl, refuse_unless-fine _ _ h)
by_members-fine H target (raised (members_unreadable w)) h = absurd (cc)
by_members-fine H target (raised e) h = absurd (cc)

target_answer-fine :
    (H : Host) (v : Value) (o : Option String) (repositories : List String)
    → target_answer H v o repositories ≡ fine
    → (target : String) × (v ≡ str target)
      × (((o ≡ none) × (mem target repositories ≡ true))
          ⊎ ((service : String) × (ts : List String) × (o ≡ some service)
              × (granted_targets H service ≡ ok ts)
              × (mem (H.casefold target) ts ≡ true)))
unfolding target_answer
target_answer-fine H (str target) none repositories h =
    (target, refl, inl (refl, refuse_unless-fine _ _ h))
target_answer-fine H (str target) (some service) repositories h =
    let (ts, p, m) = by_members-fine H target _ h in (target, refl, inr (service, ts, refl, p, m))
target_answer-fine H v o repositories h = absurd (cc)

reach_fits-In :
    (v : Value) (options : List (List String))
    → reach_fits v options ≡ true
    → (o : List String) × In o options × (v ≡ list (strings o))
reach_fits-In (list xs) options h =
    let (o, i, e) = any-In (λ o. equals_texts (to_list xs) o) options h in
    (o, i, ap list (equals_texts-eq xs o e))
reach_fits-In v options h = absurd (cc)

authority-terms :
    (v : Value) (g : Grant)
    → authority_answer v g ≡ fine
    → (a : Entries) × (v ≡ dict a)
      × SameTerms (get a "allowed") g.authority_allowed
      × SameTerms (get a "requires_approval") g.authority_requires_approval
      × SameTerms (get a "prohibited") g.authority_prohibited
unfolding authority_answer
authority-terms (dict a) g h =
    let (p, h1) = and_then-true _ _ (answer_by-fine _ _ h) in
    let (q, r) = and_then-true _ _ h1 in
    (a, refl, same_terms-SameTerms _ _ p, same_terms-SameTerms _ _ q, same_terms-SameTerms _ _ r)
authority-terms v g h = absurd (cc)

acceptance-criteria :
    (v : Value) (g : Grant)
    → acceptance_answer v g ≡ fine
    → (c : Value) × (cs : Items) × (v ≡ list (cons c cs)) × Fits g c × All (Fits g) (to_list cs)
unfolding acceptance_answer
acceptance-criteria (list nil) g h = absurd (cc)
acceptance-criteria (list (cons c cs)) g h =
    let (f, fs) = criteria_fit-Fits (c ∷ to_list cs) g (answer_by-fine _ _ h) in
    (c, cs, refl, f, fs)
acceptance-criteria v g h = absurd (cc)

-- What a grant permits.
abbrev pub Permits : Host → Entries → Grant → Type 0
Permits H pkg g =
    ((target : String) × (field_of (get pkg "profile_fields") "target_repo" ≡ str target)
      × TargetGranted H g target)
    × (field_of (get pkg "profile_fields") "standing" ≡ bool true)
    × ((s : String) × (t : String) × (field_of (get pkg "profile_fields") "from_version" ≡ str s)
        × (field_of (get pkg "profile_fields") "to_version" ≡ str t)
        × (s ≢ t))
    × ((o : List String) × In o g.reach_options × (get pkg "reach" ≡ list (strings o)))
    × ((a : Entries) × (get pkg "authority" ≡ dict a)
        × SameTerms (get a "allowed") g.authority_allowed
        × SameTerms (get a "requires_approval") g.authority_requires_approval
        × SameTerms (get a "prohibited") g.authority_prohibited)
    × Within (field_of (field_of (get pkg "authority") "budgets") "max_attempts") g.max_attempts
    × Within (field_of (field_of (get pkg "authority") "budgets") "max_llm_calls") g.max_llm_calls
    × ((c : Value) × (cs : Items) × (get pkg "acceptance" ≡ list (cons c cs))
        × Fits g c
        × All (Fits g) (to_list cs))
    × ((s : String) × (field_of (get pkg "risk") "max_impact" ≡ str s)
        × (mem s g.max_impact ≡ true))

module _ (H : Host) where
  grant_refusals-Permits :
      (pkg : Entries) (g : Grant) → grant_refusals H pkg g ≡ ok [] → Permits H pkg g
  unfolding grant_refusals target_refusal standing_refusal bump_refusal reach_refusal
      authority_refusal budget_refusal acceptance_refusal impact_refusal
  grant_refusals-Permits pkg g h =
      let (t, (s, (b, (r, (a, (l, (c, (i, _)))))))) = gather-All (grant_answers H pkg g) h in
      let (m, n) = &&-true _ _ (refuse_unless-fine _ _ l) in
      (
        target_answer-fine H _ _ _ t,
        is_true-eq _ (refuse_unless-fine _ _ s),
        distinct-texts _ _ (refuse_unless-fine _ _ b),
        reach_fits-In _ _ (refuse_unless-fine _ _ r),
        authority-terms (get pkg "authority") g a,
        within-Within _ _ m,
        within-Within _ _ n,
        acceptance-criteria (get pkg "acceptance") g c,
        in_set-text _ _ (answer_by-fine _ _ i),
      )

  by_grant-Permits :
      (o : Option (Option Grant)) (pkg : Entries)
      → by_grant H o pkg ≡ ok []
      → (g : Grant) × (o ≡ some (some g)) × Permits H pkg g
  unfolding by_grant
  by_grant-Permits none pkg h = absurd (cc)
  by_grant-Permits (some none) pkg h = absurd (cc)
  by_grant-Permits (some (some g)) pkg h = (g, refl, grant_refusals-Permits pkg g h)

  Granted : ApprovalPolicy → Entries → Value → Type 0
  Granted policy pkg v =
      (p : String) × (g : Grant) × (v ≡ str p)
      × (find_grant p policy.grants ≡ some (some g))
      × Permits H pkg g

  by_profile-Permits :
      (v : Value) (policy : ApprovalPolicy) (pkg : Entries)
      → by_profile H v policy pkg ≡ ok []
      → Granted policy pkg v
  unfolding by_profile Granted
  by_profile-Permits (str p) policy pkg h = by_name (p == "") h
    where
      by_name :
          (b : Bool)
          → (if b
              then ok (Refusal.profile_undeclared ∷ [])
              else by_grant H (find_grant p policy.grants) pkg)
            ≡ ok []
          → Granted policy pkg (str p)
      by_name true e = absurd (cc)
      by_name false e = let (g, f, q) = by_grant-Permits _ pkg e in (p, g, refl, f, q)
  by_profile-Permits v policy pkg h = absurd (cc)

  -- The policy grants the profile of the package, and the grant permits it.
  abbrev pub PolicyPermits : ApprovalPolicy → Entries → Type 0
  PolicyPermits policy pkg =
      (p : String) × (g : Grant) × (get pkg "profile" ≡ str p)
      × (find_grant p policy.grants ≡ some (some g))
      × Permits H pkg g

  -- Where the policy has no objection, it has a grant for the profile of the package, the target
  -- repository is granted, the package is standing, the versions differ, the reach is one of the
  -- options, the authority terms are those granted in some order, the budgets lie between 1 and
  -- their ceilings, each criterion has a granted kind of evidence and approver, and the impact is
  -- granted.
  pub refusals_for-Permits :
      (policy : ApprovalPolicy) (pkg : Entries)
      → refusals_for H policy pkg ≡ ok []
      → PolicyPermits policy pkg
  unfolding refusals_for Granted
  refusals_for-Permits policy pkg h = by_profile-Permits (get pkg "profile") policy pkg h
