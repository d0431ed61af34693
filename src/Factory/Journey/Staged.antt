-- ===== src/Factory/Journey/Staged.antt =====
-- What the verb `submit` of src/intent_packages/factory/journey.py posts, however it ends.
use intent_packages.Prelude.{
  String, ◌≡◌, refl, ap, ◌∙◌, ◌⊎◌, inl, inr, Bool, true, false, Option, none, some, List, [], ◌∷◌,
  ◌++◌, Bool-cases, ◌==◌, if◌then◌else◌,
}
use intent_packages.Value.{Entries, is_text, truthy}
use intent_packages.Value.Dict.{get}
use intent_packages.Outcome.{
  Outcome, Exn, ok, raised, load_error, key_error, canonical_error, >>=-ok, ok-inj,
}
use intent_packages.Host.{Host}
use intent_packages.Loader.{load_package, load_lineage}
use intent_packages.Factory.Session.{
  Role, Route, Request, Session, Backend, Answer, done, failed, Fault, cli, ApiError, resume,
}
use intent_packages.Factory.Api.{writing, stage_intake}
use intent_packages.Factory.Api.Quiet.{
  writes, Quiet, Quiet-bind, Quiet-if, bind-any, AtMost, AtMost-bind, AtMost-handled,
  request_dict-posts,
}
use intent_packages.Factory.Journey.{
  Gate, Submission, open_page, received_payload, with_key, is_approved, when_loaded, emit_payload,
  copy_to_clipboard, hand_off_paste, stage_refused, staged_for_decision, is_incomplete,
  report_staged, report_reply, post_staging, stage, with_payload, submit,
}
use intent_packages.Factory.Journey.Key.{loaded, key_of}

module _ (H : Host) (B : Backend) (G : Gate) (a : Submission) where
  -- Both files load, both say `approved`, and the payload is what the client answered for the key of
  -- the package.
  abbrev pub IsApproved : Entries → Type 0
  IsApproved payload =
      (pkg lineage : Entries) × (key : String) × (load_package H a.dir ≡ ok pkg)
      × (load_lineage H a.dir ≡ ok lineage)
      × (is_text (get pkg "status") "approved" ≡ true)
      × (is_text (get lineage "current_state") "approved" ≡ true)
      × (key_of H B a.idempotency_key pkg ≡ ok key)
      × (G.intake_payload a.path a.source_repository key ≡ done payload)

  abbrev staging_post : Entries → Request
  staging_post payload = writing B Route.staged_intakes Role.system payload

  abbrev pub Staged : List Request → List Request → Type 0
  Staged rs rs' =
      (payload : Entries) × IsApproved payload
      × (a.print_payload ≡ false)
      × (writes rs' ≡ writes rs ++ staging_post payload ∷ [])

  -- Neither a refusal nor a payload sends anything.
  received_payload-silent :
      (o : Answer Entries) (s : Session) → (received_payload o s).1.requests ≡ s.requests
  unfolding received_payload resume
  received_payload-silent (done p) s = refl
  received_payload-silent (failed (cli why)) s = refl
  received_payload-silent (failed (Fault.api e)) s = refl
  received_payload-silent (failed (Fault.other e)) s = refl

  received_payload-some :
      (o : Answer Entries) (s : Session) (payload : Entries)
      → (received_payload o s).0 ≡ done (some payload)
      → o ≡ done payload
  unfolding received_payload resume
  received_payload-some (done p) s payload h = cc h
  received_payload-some (failed (cli why)) s payload h = absurd (cc h)
  received_payload-some (failed (Fault.api e)) s payload h = absurd (cc h)
  received_payload-some (failed (Fault.other e)) s payload h = absurd (cc h)

  -- What `_emit_payload` answers: it sent nothing, and a payload is that of an approved package.
  abbrev Emitted : Session → Answer (Option Entries) × Session → Type 0
  Emitted s r =
      (r.1.requests ≡ s.requests)
      × ((payload : Entries) → r.0 ≡ done (some payload) → IsApproved payload)

  with_key-Emitted :
      (pkg lineage : Entries) (s : Session)
      → load_package H a.dir ≡ ok pkg
      → load_lineage H a.dir ≡ ok lineage
      → is_text (get pkg "status") "approved" ≡ true
      → is_text (get lineage "current_state") "approved" ≡ true
      → (o : Outcome String) → key_of H B a.idempotency_key pkg ≡ o
      → Emitted s (with_key H B G a o s)
  unfolding with_key resume
  with_key-Emitted pkg lineage s p l status state (ok key) k =
      let reply = G.intake_payload a.path a.source_repository key in
      (
        received_payload-silent reply s,
        λ payload h.
            (pkg, lineage, key, p, l, status, state, k, received_payload-some reply s payload h),
      )
  with_key-Emitted pkg lineage s p l status state (raised e) k = by_exception e
    where
      by_exception : (e : Exn) → Emitted s (with_key H B G a (raised e) s)
      by_exception (key_error x) = (refl, λ payload h. absurd (cc h))
      by_exception (canonical_error x) = (refl, λ payload h. absurd (cc h))
      by_exception e = (refl, λ payload h. absurd (cc h))

  loaded-both :
      (pkg lineage : Entries)
      → loaded H a.dir ≡ ok (pkg, lineage)
      → (load_package H a.dir ≡ ok pkg) × (load_lineage H a.dir ≡ ok lineage)
  unfolding loaded
  loaded-both pkg lineage h =
      let (p, l1, h1) = >>=-ok (load_package H a.dir) _ h in
      let (l, l2, h2) = >>=-ok (load_lineage H a.dir) _ h1 in
      let same : (p, l) ≡ (pkg, lineage) = ok-inj h2 in
      (l1 ∙ ap (λ q. ok q.0) same, l2 ∙ ap (λ q. ok q.1) same)

  when_loaded-Emitted :
      (s : Session) (o : Outcome (Entries × Entries))
      → loaded H a.dir ≡ o
      → Emitted s (when_loaded H B G a o s)
  unfolding when_loaded is_approved resume
  when_loaded-Emitted s (ok (pkg, lineage)) h =
      let (p, l) = loaded-both pkg lineage h in
      elim (Bool-cases (is_text (get pkg "status") "approved")) [
        | inl status ↦ elim (Bool-cases (is_text (get lineage "current_state") "approved")) [
          | inl state ↦
              rw (status, state)
                (with_key-Emitted pkg lineage s p l status state (key_of H B a.idempotency_key pkg)
                  refl)
          | inr state ↦ rw (status, state) (refl, λ payload g. absurd (cc g))
        ]
        | inr status ↦ rw status (refl, λ payload g. absurd (cc g))
      ]
  when_loaded-Emitted s (raised e) h = by_exception e
    where
      by_exception : (e : Exn) → Emitted s (when_loaded H B G a (raised e) s)
      by_exception (load_error x) = (refl, λ payload h. absurd (cc h))
      by_exception e = (refl, λ payload h. absurd (cc h))

  emit_payload-Emitted : (s : Session) → Emitted s (emit_payload H B G a s)
  unfolding emit_payload
  emit_payload-Emitted s = when_loaded-Emitted s (loaded H a.dir) refl

  Quiet-open_page : (b : Bool) (link : String) → Quiet (open_page b link)
  unfolding open_page
  Quiet-open_page true link s = refl
  Quiet-open_page false link s = refl

  Quiet-copy_to_clipboard : (payload : Entries) → Quiet (copy_to_clipboard H B G payload)
  unfolding copy_to_clipboard
  Quiet-copy_to_clipboard payload s = elim (Bool-cases G.clipboard_works) [
    | inl e ↦ rw e refl
    | inr e ↦ rw e refl
  ]

  Quiet-hand_off_paste : (payload : Entries) → Quiet (hand_off_paste H B G a payload)
  unfolding hand_off_paste resume
  Quiet-hand_off_paste payload =
      Quiet-bind (copy_to_clipboard H B G payload) _ (Quiet-copy_to_clipboard payload) (λ copied.
        Quiet-bind (open_page a.open_browser _) _ (Quiet-open_page a.open_browser _) (λ _ s. refl))

  Quiet-stage_refused : (e : ApiError) → Quiet (stage_refused e)
  unfolding stage_refused resume
  Quiet-stage_refused e s = elim (Bool-cases (truthy e.recovery)) [
    | inl p ↦ elim (Bool-cases (e.code == "idempotency_conflict")) [
      | inl q ↦ rw (p, q) refl
      | inr q ↦ rw (p, q) refl
    ]
    | inr p ↦ elim (Bool-cases (e.code == "idempotency_conflict")) [
      | inl q ↦ rw (p, q) refl
      | inr q ↦ rw (p, q) refl
    ]
  ]

  Quiet-report_reply : (reply : Option Entries) → Quiet (report_reply H B G a reply)
  unfolding report_staged staged_for_decision resume
  Quiet-report_reply none s = refl
  Quiet-report_reply (some staged) s =
      Quiet-if (is_incomplete staged) _ _ (λ t. refl)
        (Quiet-if (is_text (get staged "state") "registered") _ _ (λ t. refl)
          (Quiet-if (is_text (get staged "state") "staged") _ _
            (Quiet-bind (open_page a.open_browser _) _ (Quiet-open_page a.open_browser _)
              (λ _ t. refl))
            (λ t. refl)))
        s

  stage-AtMost :
      (payload : Entries) (s : Session)
      → AtMost (staging_post payload) s.requests (stage H B G a payload s).1.requests
  unfolding stage post_staging stage_intake
  stage-AtMost payload s =
      AtMost-bind (staging_post payload) s.requests _ (report_reply H B G a)
        (AtMost-handled (staging_post payload) s.requests _ stage_refused
          (AtMost-bind (staging_post payload) s.requests _ _
            (request_dict-posts B Route.staged_intakes Role.system payload s) (λ _ t. refl))
          Quiet-stage_refused)
        Quiet-report_reply

  with_payload-Staged :
      (payload : Entries) (s : Session)
      → IsApproved payload
      → (writes (with_payload H B G a (some payload) s).1.requests ≡ writes s.requests)
        ⊎ Staged s.requests (with_payload H B G a (some payload) s).1.requests
  with_payload-Staged payload s approved = by_print a.print_payload refl
    where
      posted :
          a.print_payload ≡ false
          → AtMost (staging_post payload) s.requests (stage H B G a payload s).1.requests
          → (writes (stage H B G a payload s).1.requests ≡ writes s.requests)
            ⊎ Staged s.requests (stage H B G a payload s).1.requests
      posted p (inl e) = inl e
      posted p (inr e) = inr (payload, approved, p, e)

      by_print :
          (b : Bool)
          → a.print_payload ≡ b
          → (writes
                ((if b then hand_off_paste H B G a payload else stage H B G a payload) s).1.requests
              ≡ writes s.requests)
            ⊎ Staged s.requests
                ((if b then hand_off_paste H B G a payload else stage H B G a payload) s).1.requests
      by_print true p = inl (Quiet-hand_off_paste payload s)
      by_print false p = posted p (stage-AtMost payload s)

  since :
      (rs rs0 rs' : List Request)
      → rs ≡ rs0
      → (writes rs' ≡ writes rs) ⊎ Staged rs rs'
      → (writes rs' ≡ writes rs0) ⊎ Staged rs0 rs'
  since rs rs0 rs' e x = rw e at x

  -- However `submit` ends, also when it raises, and whatever the service replies: it has posted
  -- nothing; or it was not asked to print the payload, and it posted one staged intake and nothing
  -- else, when package.yaml and lineage.yaml both loaded and said `approved`, under the key that was
  -- given or else the one of the package, with the payload that the client answered for this key.
  pub submit-Staged :
      (s : Session)
      → (writes (submit H B G a s).1.requests ≡ writes s.requests)
        ⊎ Staged s.requests (submit H B G a s).1.requests
  unfolding submit
  submit-Staged s =
      let (silent, approved) = emit_payload-Emitted s in
      bind-any (λ x. (writes x.requests ≡ writes s.requests) ⊎ Staged s.requests x.requests)
        (emit_payload H B G a s) (with_payload H B G a) (inl (ap writes silent))
        λ o e.
          by_payload o (emit_payload H B G a s).1 silent
            (λ payload g. approved payload (e ∙ ap done g))
    where
      by_payload :
          (o : Option Entries) (t : Session)
          → t.requests ≡ s.requests
          → ((payload : Entries) → o ≡ some payload → IsApproved payload)
          → (writes (with_payload H B G a o t).1.requests ≡ writes s.requests)
            ⊎ Staged s.requests (with_payload H B G a o t).1.requests
      by_payload none t same f = inl (ap writes same)
      by_payload (some payload) t same f =
          since t.requests s.requests (with_payload H B G a (some payload) t).1.requests same
            (with_payload-Staged payload t (f payload refl))
