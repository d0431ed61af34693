-- ===== src/Factory/Verify/Laws.antt =====
-- When the verb `verify` of src/intent_packages/factory/verify.py answers 0.
use intent_packages.Prelude.{
  ℕ, String, ◌≡◌, sym, ap, ◌⊎◌, inl, inr, true, Bool-cases, Option, none, some, arith,
}
use intent_packages.Value.{Value, dict, Entries, list, nil, is_text}
use intent_packages.Value.Dict.{get}
use intent_packages.Value.Access.{field_or, iterate}
use intent_packages.Factory.Session.{
  Session, Backend, Line, done, Verb, print, resume, catch, exit, give_up, ◌>>◌,
}
use intent_packages.Factory.Api.Quiet.{bind-done, bind-lift, handled-done}
use intent_packages.Factory.Reads.{resolve_revision}
use intent_packages.Factory.Verify.Posts.{Evidenced, Admitted, resolved-Evidenced}
use intent_packages.Factory.Verify.{
  Claim, readable, refuse, verify_resolved, by_result, report_verification, report_reply,
  verify_reported, verify,
}

-- The verification completed, or awaits a human.
abbrev pub IsSettled : Entries → Type 0
IsSettled reply =
    (is_text (get reply "result") "completed" ≡ true)
    ⊎ (is_text (get reply "result") "awaiting_review" ≡ true)

module _ (B : Backend) where
  by_result-zero :
      (reply : Entries) (s s' : Session)
      → by_result B (get reply "result") s ≡ (done 0, s')
      → IsSettled reply × (s'.requests ≡ s.requests)
  unfolding by_result resume
  by_result-zero reply s s' h = elim (Bool-cases (is_text (get reply "result") "completed")) [
    | inl e ↦ (inl e, said _ s (rw e at h))
    | inr e ↦ elim (Bool-cases (is_text (get reply "result") "awaiting_review")) [
      | inl a ↦ (inr a, said _ s (rw a at (rw e at h)))
      | inr a ↦ absurd (failed_exit _ s (rw a at (rw e at h)))
    ]
  ]
    where
      said :
          (l : Line) (t : Session) → (print l >> exit 0) t ≡ (done 0, s') → s'.requests ≡ t.requests
      said l t g = ap (λ p. p.1.requests) (sym g)

      failed_exit : (why : String) (t : Session) → give_up why 1 t ≡ (done 0, s') → ⊥
      failed_exit why t g = ground arith

  report-zero :
      (reply : Entries) (s s' : Session)
      → report_verification B reply s ≡ (done 0, s')
      → IsSettled reply × (s'.requests ≡ s.requests)
  unfolding report_verification
  report-zero reply s s' h =
      let (evaluations, _, h1) = bind-lift (field_or (dict reply) "evaluations" (list nil)) s _ h in
      let (rows, _, h2) = bind-lift (iterate evaluations) s _ h1 in
      let (_, _, h3) = bind-lift (readable rows) s _ h2 in by_result-zero reply s s' h3

  -- The evidence and the verification of a unit of a revision, and a settled reply.
  abbrev pub Verified : String → Claim → Session → Session → Type 0
  Verified r c s s' =
      (unit_id : Value) × (reply : Entries) × (s1 : Session) × Admitted B r c s
      × Evidenced B unit_id c s s1 reply
      × IsSettled reply
      × (s'.requests ≡ s1.requests)

  reported-Verified :
      (r unit_key : String) (c : Claim) (o : Option (Value × Entries)) (s t s' : Session)
      → catch (verify_resolved B r unit_key c) (λ _. refuse B "verify failed") s ≡ (done o, t)
      → report_reply B o t ≡ (done 0, s')
      → Verified r c s s'
  unfolding refuse resume
  reported-Verified r unit_key c none s t s' m g = absurd (ground arith)
  reported-Verified r unit_key c (some (unit_id, reply)) s t s' m g =
      let (settled, same) = report-zero reply t s' g in
      let (admitted, evidenced) =
        resolved-Evidenced B r unit_key c s t (unit_id, reply)
          (handled-done (verify_resolved B r unit_key c s) _ (some (unit_id, reply)) t
            (λ _ x q. cc q) m) in
      (unit_id, reply, t, admitted, evidenced, settled, same)

  -- When `verify` answers 0, the criterion that it names accepts named-check evidence in an intake
  -- that was read; it posted just twice, as its last requests: the evidence, bound to the latest
  -- dispatch of the unit and to its row in flight, whose pull request is armed, whose state accepts
  -- evidence and whose head is the armed one, and then the request to verify, with the version of
  -- that row; and the service replied to the latter that the verification completed or awaits review.
  pub verify-Verified :
      (revision unit_key : String) (c : Claim) (s s' : Session)
      → verify B revision unit_key c s ≡ (done 0, s')
      → (r : String) × Verified r c s s'
  unfolding verify verify_reported resume
  verify-Verified revision unit_key c s s' h = by_revision (resolve_revision B revision) h
    where
      by_revision :
          (o : Option String)
          → (elim o as (λ _. Verb ℕ) [
            | none ↦ give_up "verify failed: no revision id" 2
            | some r ↦ verify_reported B r unit_key c
          ])
              s
            ≡ (done 0, s')
          → (r : String) × Verified r c s s'
      by_revision none g = absurd (ground arith)
      by_revision (some r) g =
          let (o, t, m, g1) =
            bind-done (catch (verify_resolved B r unit_key c) (λ _. refuse B "verify failed") s) _
              g in
          (r, reported-Verified r unit_key c o s t s' m g1)
