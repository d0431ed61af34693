-- ===== src/Operations/Approve/Returns.antt =====
-- `do_approve` of src/intent_packages/operations.py, when it returns.
use intent_packages.Prelude.{
  String, ◌≡◌, sym, ap, ◌∙◌, ◌⊎◌, inl, inr, Bool, true, false, ◌||◌, refl, Option, some,
  if◌then◌else◌,
}
use intent_packages.Value.{Value, str, Entries, is_text, truthy}
use intent_packages.Value.Dict.{item, subscript, put}
use intent_packages.Outcome.{Outcome, ok}
use intent_packages.Outcome.Report.{IsClean}
use intent_packages.Host.{Host, Text}
use intent_packages.Edit.{set_status_text}
use intent_packages.Loader.{load_package, load_lineage}
use intent_packages.Canonical.{package_hash}
use intent_packages.Lineage.{append_approval}
use intent_packages.Validate.Package.{validate_package}
use intent_packages.Operations.{Event, World, pure, resume, write_lineage, set_status_in_file}
use intent_packages.Operations.Steps.{
  resume-ok, resume-ok_write, refuse_if-ok, set_status-ok, emit_or_refuse-ok,
}
use intent_packages.Operations.Approvers.{authorize_approver, approvals_of, has_matching_approval}
use intent_packages.Operations.Transition.Laws.{no_issues, from_not, Entered}
use intent_packages.Operations.Approve.Laws.{entries-approvals}
use intent_packages.Operations.Approve.{
  approved_event, complete_approval, record_approval, approve_fresh, do_approve,
}

module _ (H : Host) (emit : Event → Outcome (Option String)) where
  -- The approval went out, stands in the ledger with its event, and the package reads approved.
  abbrev pub Recorded :
      Entries → Entries → String → String → String → String → World → World → Type 0
  Recorded pkg lin h approver commit now w w' =
      (ref : Value) × (revision : Value) × (id : Option String) × (more : Entries) × (item pkg
          "package_id"
        ≡ ok ref)
      × (item pkg "revision" ≡ ok revision)
      × (emit (approved_event ref revision h approver commit) ≡ ok id)
      × (append_approval lin revision h approver now commit id ≡ ok more)
      × Entered H w.dir "approved" more w'.dir

  record_approval-ok :
      (pkg lin : Entries) (h approver commit now : String) (w w' : World)
      → record_approval H emit pkg lin h approver commit now w ≡ (ok tt, w')
      → Recorded pkg lin h approver commit now w w'
  unfolding record_approval write_lineage
  record_approval-ok pkg lin h approver commit now w w' h0 =
      let (ref, r, h1) = resume-ok _ w _ h0 in
      let (revision, n, h2) = resume-ok _ w _ h1 in
      let (id, w1, e, h3) = resume-ok_write _ _ h2 in
      let (sent, u) = emit_or_refuse-ok emit _ w w1 e in
      let (more, m, h4) = resume-ok _ w1 _ h3 in
      let (_, _, h5) = resume-ok _ _ _ h4 in
      let (text, t, p, q, s) = set_status-ok "approved" _ w' h5 in
      (
        ref,
        revision,
        id,
        more,
        r,
        n,
        sent,
        m,
        (
          ap (λ x. x.dir.lineage_yaml) s,
          (text, t, sym (ap (λ x. x.dir.package_yaml) u) ∙ p, q, ap (λ x. x.dir.package_yaml) s),
        ),
      )

  approve_fresh-ok :
      (pkg lin : Entries) (current : Value) (h approver commit now : String) (w w' : World)
      → approve_fresh H emit pkg lin current h approver commit now w ≡ (ok tt, w')
      → (is_text current "ready_for_review" ≡ true) × Recorded pkg lin h approver commit now w w'
  unfolding approve_fresh
  approve_fresh-ok pkg lin current h approver commit now w w' h0 =
      let (n, h1) = refuse_if-ok _ _ w _ h0 in
      (from_not _ n, record_approval-ok pkg lin h approver commit now w w' h1)

  -- The hash was approved already: nothing is sent, and the ledger and the status line are written
  -- just where they do not say `approved` yet.
  abbrev pub Completed : Entries → Entries → Value → World → World → Type 0
  Completed pkg lin current w w' =
      (status : Value) × (item pkg "status" ≡ ok status)
      × (w'.events ≡ w.events)
      × (w'.dir.lineage_yaml ≡ (
          if is_text current "approved"
          then w.dir.lineage_yaml
          else some (H.dump (put "current_state" (str "approved") lin))))
      × (((is_text status "approved" ≡ true) × (w'.dir.package_yaml ≡ w.dir.package_yaml))
          ⊎ ((is_text status "approved" ≡ false)
              × (text : Text) × (t : Text) × (w.dir.package_yaml ≡ some text)
              × (set_status_text "approved" text ≡ some t)
              × (w'.dir.package_yaml ≡ some t)))

  -- The status line, once the ledger was seen to.
  complete_status :
      (pkg lin : Entries) (current : Value) (w w1 w' : World)
      → w1.events ≡ w.events
      → w1.dir.package_yaml ≡ w.dir.package_yaml
      → w1.dir.lineage_yaml ≡ (
          if is_text current "approved"
          then w.dir.lineage_yaml
          else some (H.dump (put "current_state" (str "approved") lin)))
      → resume
          (item pkg "status", w1)
          (λ status. if is_text status "approved" then pure tt else set_status_in_file "approved")
        ≡ (ok tt, w')
      → Completed pkg lin current w w'
  complete_status pkg lin current w w1 w' events kept ledger h0 =
      let (status, i, h1) = resume-ok _ w1 _ h0 in
      by_status status i (is_text status "approved") refl h1
    where
      by_status :
          (status : Value)
          → item pkg "status" ≡ ok status
          → (b : Bool) → is_text status "approved" ≡ b
          → (if b then pure tt else set_status_in_file "approved") w1 ≡ (ok tt, w')
          → Completed pkg lin current w w'
      by_status status i true e h =
          let same : w1 ≡ w' = ap (λ p. p.1) h in
          (
            status,
            i,
            sym (ap (λ x. x.events) same) ∙ events,
            sym (ap (λ x. x.dir.lineage_yaml) same) ∙ ledger,
            inl (e, sym (ap (λ x. x.dir.package_yaml) same) ∙ kept),
          )
      by_status status i false e h =
          let (text, t, p, q, s) = set_status-ok "approved" w1 w' h in
          (
            status,
            i,
            ap (λ x. x.events) s ∙ events,
            ap (λ x. x.dir.lineage_yaml) s ∙ ledger,
            inr (e, text, t, sym kept ∙ p, q, ap (λ x. x.dir.package_yaml) s),
          )

  complete_approval-ok :
      (pkg lin : Entries) (current : Value) (w w' : World)
      → complete_approval H emit pkg lin current w ≡ (ok tt, w')
      → Completed pkg lin current w w'
  unfolding complete_approval write_lineage resume
  complete_approval-ok pkg lin current w w' h = by_state (is_text current "approved") refl h
    where
      by_state :
          (b : Bool)
          → is_text current "approved" ≡ b
          → resume
              ((if b then pure tt else write_lineage H (put "current_state" (str "approved") lin))
                w)
              (λ _ v.
                resume
                  (item pkg "status", v)
                  (λ status.
                    if is_text status "approved" then pure tt else set_status_in_file "approved"))
            ≡ (ok tt, w')
          → Completed pkg lin current w w'
      by_state true e h = complete_status pkg lin current w w w' refl refl (rw e refl) h
      by_state false e h = complete_status pkg lin current w _ w' refl refl (rw e refl) h

  finish-ok :
      (pkg lin : Entries) (current : Value) (h approver commit now : String) (w w' : World)
      (already : Bool)
      → has_matching_approval H (approvals_of lin) h ≡ ok already
      → (if already
            then complete_approval H emit pkg lin current
            else approve_fresh H emit pkg lin current h approver commit now)
          w
        ≡ (ok tt, w')
      → ((has_matching_approval H (approvals_of lin) h ≡ ok true) × Completed pkg lin current w w')
        ⊎ ((is_text current "ready_for_review" ≡ true)
            × Recorded pkg lin h approver commit now w w')
  finish-ok pkg lin current h approver commit now w w' true m h0 =
      inl (m, complete_approval-ok pkg lin current w w' h0)
  finish-ok pkg lin current h approver commit now w w' false m h0 =
      inr (approve_fresh-ok pkg lin current h approver commit now w w' h0)

  -- What holds when an approval has returned.
  abbrev pub Approved : String → String → String → World → World → Type 0
  Approved approver commit now w w' =
      (pkg : Entries) × (lin : Entries) × (current : Value) × (scope : Value) × (questions : Value)
      × (h : String) × IsClean (validate_package H w.dir)
      × (load_package H w.dir ≡ ok pkg)
      × (load_lineage H w.dir ≡ ok lin)
      × (item lin "current_state" ≡ ok current)
      × ((is_text current "ready_for_review" || is_text current "approved") ≡ true)
      × (item pkg "scope" ≡ ok scope)
      × (subscript scope "open_questions" ≡ ok questions)
      × (truthy questions ≡ false)
      × (authorize_approver H pkg approver ≡ ok tt)
      × (package_hash H pkg ≡ ok h)
      × (((has_matching_approval H (approvals_of lin) h ≡ ok true) × Completed pkg lin current w w')
          ⊎ ((is_text current "ready_for_review" ≡ true)
              × Recorded pkg lin h approver commit now w w'))

  -- When `do_approve` returns, the directory had passed every check, the state was `ready_for_review`
  -- or `approved`, no question was open, and the approver was authorised. Then either a recognised
  -- approval of this hash was in the ledger, nothing was sent, and the state of the ledger and the
  -- status line were set to `approved` just where they were not; or the state was
  -- `ready_for_review`, the emitter answered, and what was written is the ledger with this approval
  -- and its event appended and `approved` as its state, and the status line `approved`.
  pub do_approve-ok :
      (approver commit now : String) (w w' : World)
      → do_approve H emit approver commit now w ≡ (ok tt, w')
      → Approved approver commit now w w'
  unfolding do_approve
  do_approve-ok approver commit now w w' h0 =
      let (errors, v, h1) = resume-ok _ w _ h0 in
      let (n, h2) = refuse_if-ok _ _ w _ h1 in
      let (pkg, p, h3) = resume-ok _ w _ h2 in
      let (lin, l, h4) = resume-ok _ w _ h3 in
      let (current, c, h5) = resume-ok _ w _ h4 in
      let (f, h6) = refuse_if-ok _ _ w _ h5 in
      let (scope, s, h7) = resume-ok _ w _ h6 in
      let (questions, q, h8) = resume-ok _ w _ h7 in
      let (o, h9) = refuse_if-ok _ _ w _ h8 in
      let (_, a, h10) = resume-ok _ w _ h9 in
      let (h, g, h11) = resume-ok _ w _ h10 in
      let (vs, e, h12) = resume-ok _ w _ h11 in
      let (already, m, h13) = resume-ok _ w _ h12 in
      let m' = sym (ap (λ x. has_matching_approval H x h) (entries-approvals lin vs e)) ∙ m in
      (
        pkg,
        lin,
        current,
        scope,
        questions,
        h,
        v ∙ ap ok (no_issues errors n),
        p,
        l,
        c,
        from_not _ f,
        s,
        q,
        o,
        a,
        g,
        finish-ok pkg lin current h approver commit now w w' already m' h13,
      )
