-- ===== src/Operations/Approve/Laws.antt =====
-- `do_approve` of src/intent_packages/operations.py: what was sent when something is written, and
-- what holds when it returns.
use intent_packages.Prelude.{
  String, ◌≡◌, refl, sym, ap, ◌∙◌, ◌⊎◌, inl, inr, Bool, true, false, Option, [], ◌∷◌, ◌++◌,
  if◌then◌else◌,
}
use intent_packages.Value.{Value, str, Entries, is_text}
use intent_packages.Value.Dict.{item, put}
use intent_packages.Outcome.{Outcome, ok}
use intent_packages.Host.{Host}
use intent_packages.Loader.{load_package, load_lineage}
use intent_packages.Canonical.{package_hash}
use intent_packages.Operations.{pure, emit_or_refuse, Event, World, with_lineage, write_lineage}
use intent_packages.Operations.Steps.{
  resume-any, resume-any_write, refuse_if-any, if-any, set_status-events, emit_or_refuse-world,
  emit_or_refuse-cases,
}
use intent_packages.Operations.Approvers.{
  authorize_approver, approval_entries, as_entries, approvals_of, has_matching_approval,
}
use intent_packages.Operations.Approve.{
  approved_event, complete_approval, record_approval, approve_fresh, do_approve,
}

-- The package as it is on disk was judged: it is authorised, and either a recognised approval of
-- its hash stands in the ledger already, or the event that says so went out, and no other.
abbrev pub Judged : Host → String → String → World → World → Type 0
Judged H approver commit w w' =
    (pkg : Entries) × (lin : Entries) × (h : String) × (load_package H w.dir ≡ ok pkg)
    × (load_lineage H w.dir ≡ ok lin)
    × (authorize_approver H pkg approver ≡ ok tt)
    × (package_hash H pkg ≡ ok h)
    × (((has_matching_approval H (approvals_of lin) h ≡ ok true) × (w'.events ≡ w.events))
        ⊎ ((ref : Value) × (revision : Value) × (item pkg "package_id" ≡ ok ref)
            × (item pkg "revision" ≡ ok revision)
            × (w'.events ≡ w.events ++ approved_event ref revision h approver commit ∷ [])))

entries-same : (u v : Value) → as_entries u ≡ ok v → v ≡ u
unfolding as_entries
entries-same (Value.list xs) v h = cc
entries-same u v h = absurd (cc)

pub entries-approvals :
    (lin : Entries) (v : Value) → approval_entries lin ≡ ok v → v ≡ approvals_of lin
unfolding approval_entries
entries-approvals lin v h = entries-same (approvals_of lin) v h

module _ (H : Host) (emit : Event → Outcome (Option String)) where
  -- Completing the writes of an earlier approval sends nothing.
  complete_approval-events :
      (pkg lin : Entries) (current : Value) (w : World)
      → (complete_approval H emit pkg lin current w).1.events ≡ w.events
  unfolding complete_approval write_lineage
  complete_approval-events pkg lin current w =
      let P = λ (x : World). (x.events ≡ w.events) in
      let first = if-any P (is_text current "approved") _ _ w refl refl in
      let w1 =
        ((if is_text current "approved"
            then pure tt
            else write_lineage H (put "current_state" (str "approved") lin))
          w).1 in
      resume-any_write P _ _ first λ _ _. resume-any P _ _ _ first λ status _.
        if-any P (is_text status "approved") _ _ _ first (set_status-events "approved" w1 ∙ first)

  abbrev Sent : Entries → String → String → String → World → World → Type 0
  Sent pkg h approver commit w w' =
      (w' ≡ w)
      ⊎ ((ref : Value) × (revision : Value) × (item pkg "package_id" ≡ ok ref)
          × (item pkg "revision" ≡ ok revision)
          × (w'.events ≡ w.events ++ approved_event ref revision h approver commit ∷ []))

  -- A fresh approval sends its event before it writes anything.
  record_approval-Sent :
      (pkg lin : Entries) (h approver commit now : String) (w : World)
      → Sent pkg h approver commit w (record_approval H emit pkg lin h approver commit now w).1
  unfolding record_approval write_lineage
  record_approval-Sent pkg lin h approver commit now w =
      let P = Sent pkg h approver commit w in
      resume-any P _ w _ (inl refl) λ ref r. resume-any P _ w _ (inl refl) λ revision n.
        let e = approved_event ref revision h approver commit in
        resume-any_write P _ _
          (elim (emit_or_refuse-cases emit e w) [
            | inl g ↦ inr (ref, revision, r, n, ap (λ x. x.events) g)
            | inr g ↦ inl g
          ])
          λ id i.
            let g = ap (λ x. x.events) (emit_or_refuse-world emit e w i) in
            resume-any P _ _ _ (inr (ref, revision, r, n, g)) λ more _.
              let w1 = (emit_or_refuse emit e w).1 in
              let t = H.dump (put "current_state" (str "approved") more) in
              resume-any P _ _ _ (inr (ref, revision, r, n, g)) λ _ _.
                inr (ref, revision, r, n, set_status-events "approved" (with_lineage t w1) ∙ g)

  approve_fresh-Sent :
      (pkg lin : Entries) (current : Value) (h approver commit now : String) (w : World)
      → Sent pkg h approver commit w
          (approve_fresh H emit pkg lin current h approver commit now w).1
  unfolding approve_fresh
  approve_fresh-Sent pkg lin current h approver commit now w =
      refuse_if-any (Sent pkg h approver commit w) _ _ w _ (inl refl)
        λ _. record_approval-Sent pkg lin h approver commit now w

  finish-Judged :
      (pkg lin : Entries) (current : Value) (h approver commit now : String) (w : World)
      (already : Bool)
      → load_package H w.dir ≡ ok pkg
      → load_lineage H w.dir ≡ ok lin
      → authorize_approver H pkg approver ≡ ok tt
      → package_hash H pkg ≡ ok h
      → has_matching_approval H (approvals_of lin) h ≡ ok already
      → let w' =
          ((if already
              then complete_approval H emit pkg lin current
              else approve_fresh H emit pkg lin current h approver commit now)
            w).1 in
        (w' ≡ w) ⊎ Judged H approver commit w w'
  finish-Judged pkg lin current h approver commit now w true p l a g m =
      inr (pkg, lin, h, p, l, a, g, inl (m, complete_approval-events pkg lin current w))
  finish-Judged pkg lin current h approver commit now w false p l a g m =
      elim (approve_fresh-Sent pkg lin current h approver commit now w) [
        | inl e ↦ inl e
        | inr e ↦ inr (pkg, lin, h, p, l, a, g, inr e)
      ]

  -- Whatever `do_approve` answers, also when it raises, and whatever the emitter does: the directory
  -- and the events are as they were; or the package on disk had an authorised approver and a hash,
  -- and either a recognised approval of this hash was in the ledger and nothing was sent, or just
  -- the `package.approved` event of this hash, revision, approver and commit was sent.
  pub do_approve-audited :
      (approver commit now : String) (w : World)
      → ((do_approve H emit approver commit now w).1 ≡ w)
        ⊎ Judged H approver commit w (do_approve H emit approver commit now w).1
  unfolding do_approve
  do_approve-audited approver commit now w =
      let P = λ (x : World). (x ≡ w) ⊎ Judged H approver commit w x in
      resume-any P _ w _ (inl refl) λ errors _. refuse_if-any P _ _ w _ (inl refl) λ _.
        resume-any P _ w _ (inl refl) λ pkg p. resume-any P _ w _ (inl refl) λ lin l.
          resume-any P _ w _ (inl refl) λ current _. refuse_if-any P _ _ w _ (inl refl) λ _.
            resume-any P _ w _ (inl refl) λ scope _. resume-any P _ w _ (inl refl) λ questions _.
              refuse_if-any P _ _ w _ (inl refl) λ _. resume-any P _ w _ (inl refl) λ _ a.
                resume-any P _ w _ (inl refl) λ h g. resume-any P _ w _ (inl refl) λ vs v.
                  resume-any P _ w _ (inl refl) λ already m.
                    finish-Judged pkg lin current h approver commit now w already p l a g
                      (sym (ap (λ x. has_matching_approval H x h) (entries-approvals lin vs v)) ∙ m)
