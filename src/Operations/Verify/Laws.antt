-- ===== src/Operations/Verify/Laws.antt =====
-- `verify_approval` of src/intent_packages/operations.py fails closed.
use intent_packages.Prelude.{
  String, ◌≡◌, refl, ap, ◌∙◌, Bool, true, false, Option, some, List, [], ◌∷◌, arith, if◌then◌else◌,
  inl, inr, ◌⊎◌, In, first, later,
}
use intent_packages.Value.{Value, list, dict, Entries, Items, to_list, is_text}
use intent_packages.Value.Dict.{get, item}
use intent_packages.Outcome.{Outcome, ok, raised, ◌>>=◌, >>=-ok}
use intent_packages.Host.{Host, PackageDir}
use intent_packages.Loader.{load_package, load_lineage}
use intent_packages.Canonical.{package_hash}
use intent_packages.Operations.Approvers.{
  approvals_of, has_matching_approval, any_approval, is_recognised_approver,
}
use intent_packages.Operations.Verify.{
  Chain, verify_approval, chain_check, fail_closed, line_matches,
}

-- The entry is an approval of this hash by a recognised approver.
abbrev pub Approves : Host → String → Entries → Type 0
Approves H h a =
    (is_text (get a "approved_hash") h ≡ true)
    × (is_recognised_approver H (get a "approver") ≡ ok true)

either :
    (b : Bool) (m rest : Outcome Bool)
    → (if b then (m >>= λ known. (if known then ok true else rest)) else rest) ≡ ok true
    → ((b ≡ true) × (m ≡ ok true)) ⊎ (rest ≡ ok true)
either true (ok true) rest h = inl (refl, refl)
either true (ok false) rest h = inr h
either true (raised e) rest h = absurd (cc)
either false m rest h = inr h

module _ (H : Host) where
  any_approval-In :
      (vs : List Value) (h : String)
      → any_approval H vs h ≡ ok true
      → (a : Entries) × In (dict a) vs × Approves H h a
  unfolding any_approval
  any_approval-In [] h e = absurd (cc)
  any_approval-In (dict a ∷ vs) h e =
      elim (either (is_text (get a "approved_hash") h) (is_recognised_approver H (get a "approver"))
        (any_approval H vs h) e) [
          | inl p ↦ (a, first, p)
          | inr r ↦ let (b, i, p) = any_approval-In vs h r in (b, later i, p)
        ]
  any_approval-In (v ∷ vs) h e = let (a, i, p) = any_approval-In vs h e in (a, later i, p)

  -- A matching approval is an entry of the list.
  pub has_matching_approval-In :
      (v : Value) (h : String)
      → has_matching_approval H v h ≡ ok true
      → (xs : Items) × (v ≡ list xs) × ((a : Entries) × In (dict a) (to_list xs) × Approves H h a)
  unfolding has_matching_approval
  has_matching_approval-In (list xs) h e = (xs, refl, any_approval-In (to_list xs) h e)
  has_matching_approval-In v h e = absurd (cc)

closed-true : (m : Outcome Bool) → fail_closed m ≡ true → m ≡ ok true
closed-true (ok b) h = ap ok h
closed-true (raised e) h = absurd (cc)

module _ (H : Host) (checker : String → Value → Outcome Bool) where
  -- The chain confirmed the hash for the revision of the package.
  abbrev pub Confirmed : String → Entries → Type 0
  Confirmed h pkg =
      (revision : Value) × (item pkg "revision" ≡ ok revision) × (checker h revision ≡ ok true)

  chain_check-true :
      (ledger_only : Bool) (h : String) (pkg : Entries)
      → chain_check H checker ledger_only h pkg ≡ true
      → (ledger_only ≡ true) ⊎ Confirmed h pkg
  unfolding chain_check
  chain_check-true true h pkg e = inl refl
  chain_check-true false h pkg e =
      inr (>>=-ok (item pkg "revision") (λ r. checker h r) (closed-true _ e))

  both : (b : Bool) (c : Bool) → ok (if b then c else false) ≡ ok true → (b ≡ true) × (c ≡ true)
  both b c h = ground arith

  -- What stands behind a verified approval.
  abbrev pub Verified : Bool → PackageDir → Type 0
  Verified ledger_only dir =
      (pkg : Entries) × (h : String) × (lin : Entries) × (xs : Items) × (a : Entries)
      × (load_package H dir ≡ ok pkg)
      × (package_hash H pkg ≡ ok h)
      × (load_lineage H dir ≡ ok lin)
      × (approvals_of lin ≡ list xs)
      × In (dict a) (to_list xs)
      × Approves H h a
      × ((ledger_only ≡ true) ⊎ Confirmed h pkg)

  -- When a package is verified, an entry of its ledger has the hash that the package has now and a
  -- recognised approver, and the chain checker answered yes for this hash and the revision of the
  -- package, unless only the ledger was asked for.
  pub verify_approval_sound :
      (ledger_only : Bool) (dir : PackageDir)
      → verify_approval H checker ledger_only dir ≡ ok true
      → Verified ledger_only dir
  unfolding verify_approval
  verify_approval_sound ledger_only dir e0 =
      let (pkg, p, e1) = >>=-ok (load_package H dir) _ e0 in
      let (h, g, e2) = >>=-ok (package_hash H pkg) _ e1 in
      let (lin, l, e3) = >>=-ok (load_lineage H dir) _ e2 in
      let (b, m, e4) = >>=-ok (has_matching_approval H (approvals_of lin) h) _ e3 in
      let (t, c) = both b _ e4 in
      let (xs, v, (a, i, q)) = has_matching_approval-In H (approvals_of lin) h (m ∙ ap ok t) in
      (pkg, h, lin, xs, a, p, g, l, v, i, q, chain_check-true ledger_only h pkg c)

-- An intact chain has a line for the approval.
abbrev pub ChainRecords : Chain → String → Value → Type 0
ChainRecords C h revision =
    (C.standards_found ≡ true)
    × (C.is_intact ≡ true)
    × ((ls : List (Option Value)) × (l : Option Value) × (C.lines ≡ some ls)
        × In l ls
        × (line_matches l h revision ≡ ok true))
