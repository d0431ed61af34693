-- ===== src/Factory/Verify/Posts.antt =====
-- The two posts of the verb `verify` of src/intent_packages/factory/verify.py, where it makes both.
use intent_packages.Prelude.{
  String, ◌≡◌, sym, ap, ◌∙◌, inl, inr, false, Option, none, some, List, [], ◌∷◌, ◌++◌, ◌<>◌,
  Bool-cases, arith, eq_iff,
}
use intent_packages.Value.{Value, str, dict, Entries, is_null}
use intent_packages.Value.Dict.{put, item}
use intent_packages.Outcome.{ok, >>=-ok, ok-inj}
use intent_packages.Factory.Session.{
  Role, Route, Request, Session, Backend, done, replied, resume, draw,
}
use intent_packages.Factory.Api.{shown, reading, writing, get_intake, named_check}
use intent_packages.Factory.Api
use intent_packages.Factory.Api.Quiet.{
  writes, bind-done, bind-lift, pair-done, Quiet-step, Quiet-get_intake,
}
use intent_packages.Factory.Api.Answers.{ReplyTo, request_dict-Replied}
use intent_packages.Factory.Execution.{keyed}
use intent_packages.Factory.Reads.{resolve_unit_id}
use intent_packages.Factory.Reads.Answers.{RowRead, DispatchRead}
use intent_packages.Factory.Reads.Laws.{Quiet-resolve_unit_id}
use intent_packages.Factory.Verify.Criteria.{
  Kinds, evidence_kinds, find_kind, kind_refused, ac_refused,
}
use intent_packages.Factory.Verify.Binding.{Dispatched, Armed, dispatched_in, named_check_payload}
use intent_packages.Factory.Verify.Writes.{IsArmed, Quiet-derive_payload}
use intent_packages.Factory.Verify.{
  Claim, refuse, derive_payload, post_evidence, post_bound, verify_unit, verify_admitted,
  verify_resolved,
}
use intent_packages.Factory.Verify.Bound.{Bound, derive-Bound}

only : (o : Option (Option String)) → kind_refused o ≡ false → o ≡ some (some "automated_check")
unfolding kind_refused
only none h = absurd (cc h)
only (some none) h = absurd (cc h)
only (some (some kind)) h = ground (arith, eq_iff kind "automated_check")

sent_twice :
    (rs rs1 rs2 rs3 rs4 : List Request) (r1 r2 : Request)
    → rs1 ≡ rs
    → rs2 ≡ rs1 ++ r1 ∷ []
    → rs3 ≡ rs2
    → rs4 ≡ rs3 ++ r2 ∷ []
    → (rs3 ≡ rs ++ r1 ∷ []) × (rs4 ≡ (rs ++ r1 ∷ []) ++ r2 ∷ [])
sent_twice rs rs1 rs2 rs3 rs4 r1 r2 a b c d = (cc, cc)

module _ (B : Backend) where
  -- The post of the evidence, and the post that asks for the verification.
  abbrev pub evidence_post : Value → Claim → Dispatched → Armed → String → Request
  evidence_post unit_id c d a key = writing B (Route.named_check (shown B unit_id)) Role.verifier (
      put "idempotency_key" (str key)
        (named_check_payload B d a c.ac_id c.check_name c.expected_conclusion))

  abbrev pub verify_post : Value → Armed → String → Request
  verify_post unit_id a key =
      writing B (Route.verify (shown B unit_id)) Role.verifier (keyed key a.version)

  -- The two posts are the last requests and the only ones that post; they are about one dispatch and
  -- one armed row of the unit; and the service replied to the second.
  abbrev pub Evidenced : Value → Claim → Session → Session → Entries → Type 0
  Evidenced unit_id c s s' reply =
      (log : List Request) × (payload snapshot : Value) × (d : Dispatched) × (a : Armed) × (key
        key' : String)
      × DispatchRead B unit_id payload
      × (dispatched_in payload ≡ ok (some d))
      × RowRead B unit_id snapshot
      × IsArmed snapshot a
      × (writes log ≡ writes s.requests)
      × (s'.requests
          ≡ (log ++ evidence_post unit_id c d a key ∷ []) ++ verify_post unit_id a key' ∷ [])
      × ReplyTo B (log ++ evidence_post unit_id c d a key ∷ []) (verify_post unit_id a key')
          (dict reply)

  -- The version of the evidence is that of the row.
  payload_version :
      (d : Dispatched) (a : Armed) (c : Claim) (v : Value)
      → item
          (named_check_payload B d a c.ac_id c.check_name c.expected_conclusion)
          "expected_version"
        ≡ ok v
      → v ≡ a.version
  unfolding item named_check_payload
  payload_version d a c v h = cc h

  -- The two posts, the first with this body and the second with this version.
  abbrev Posts : Value → Entries → Value → List Request → List Request → Entries → Type 0
  Posts unit_id p version log log' reply =
      (key key' : String) × (log'
        ≡ (log
            ++ writing B (Route.named_check (shown B unit_id)) Role.verifier
                (put "idempotency_key" (str key) p)
              ∷ [])
          ++ writing B (Route.verify (shown B unit_id)) Role.verifier (keyed key' version) ∷ [])
      × ReplyTo B
          (log
            ++ writing B (Route.named_check (shown B unit_id)) Role.verifier
                (put "idempotency_key" (str key) p)
              ∷ [])
          (writing B (Route.verify (shown B unit_id)) Role.verifier (keyed key' version))
          (dict reply)

  post-Posts :
      (unit_id : Value) (p : Entries) (s s' : Session) (pair : Value × Entries)
      → post_evidence B unit_id p s ≡ (done (some pair), s')
      → (version : Value) × (item p "expected_version" ≡ ok version)
        × (unit_id ≡ pair.0)
        × Posts unit_id p version s.requests s'.requests pair.1
  unfolding post_evidence draw named_check Api.verify
  post-Posts unit_id p s s' pair h =
      let (version, v, h1) = bind-lift (item p "expected_version") s _ h in
      let (key, s1, k, h2) = bind-done (draw B s) _ h1 in
      let body = put "idempotency_key" (str ("factory-verify-" <> key)) p in
      let r1 = writing B (Route.named_check (shown B unit_id)) Role.verifier body in
      let (accepted, s2, n, h3) = bind-done (named_check B (shown B unit_id) body s1) _ h2 in
      let (key', s3, k', h4) = bind-done (draw B s2) _ h3 in
      let key2 = "factory-verify-" <> key' in
      let r2 = writing B (Route.verify (shown B unit_id)) Role.verifier (keyed key2 version) in
      let (reply, s4, m, h5) =
        bind-done (Api.verify B (shown B unit_id) (keyed key2 version) s3) _ h4 in
      let (sent1, _, _, _) = request_dict-Replied B r1 s1 s2 accepted n in
      let (sent2, status, text, answer2) = request_dict-Replied B r2 s3 s4 reply m in
      let (log, log') =
        sent_twice s.requests s1.requests s2.requests s3.requests s4.requests r1 r2
          (ap (λ x. x.1.requests) (sym k)) sent1 (ap (λ x. x.1.requests) (sym k')) sent2 in
      let (x, y) = pair-done h5 in
      let f : (unit_id, reply) ≡ pair = cc x in
      (
        version,
        v,
        ap (λ z. z.0) f,
        (
          "factory-verify-" <> key,
          key2,
          ap (λ z. z.requests) (sym y) ∙ log',
          (
            status,
            text,
            ap (λ z. B.answer z r2) (sym log)
                ∙ answer2
                ∙ ap (λ z. replied status text (some (dict z.1))) f,
          ),
        ),
      )

  post-Evidenced :
      (unit_id : Value) (c : Claim) (p : Entries) (s0 s s' : Session) (pair : Value × Entries)
      → Bound B unit_id c p
      → writes s.requests ≡ writes s0.requests
      → post_evidence B unit_id p s ≡ (done (some pair), s')
      → Evidenced pair.0 c s0 s' pair.1
  post-Evidenced unit_id c p s0 s s' pair (payload, snapshot, d, a, g, e, r, armed, q) w h =
      let (version, v, u, posts) = post-Posts unit_id p s s' pair h in
      let same : version ≡ a.version =
        payload_version d a c version (ap (λ x. item x "expected_version") (sym q) ∙ v) in
      let moved : Posts pair.0
          (named_check_payload B d a c.ac_id c.check_name c.expected_conclusion) a.version
          s.requests s'.requests pair.1 =
        rw (← u) (rw (← q) (rw (← same) posts)) in
      let (key, key', sent, answer) = moved in
      (
        s.requests,
        payload,
        snapshot,
        d,
        a,
        key,
        key',
        rw (← u) g,
        e,
        rw (← u) r,
        armed,
        w,
        sent,
        answer,
      )

  verify_unit-Evidenced :
      (unit_id : Value) (c : Claim) (s0 s s' : Session) (pair : Value × Entries)
      → writes s.requests ≡ writes s0.requests
      → verify_unit B unit_id c s ≡ (done (some pair), s')
      → Evidenced pair.0 c s0 s' pair.1
  unfolding verify_unit
  verify_unit-Evidenced unit_id c s0 s s' pair w h =
      let (o, s1, m, h1) = bind-done (derive_payload B unit_id c s) _ h in
      by_payload o s1 m
        (Quiet-step (derive_payload B unit_id c) s s1 (Quiet-derive_payload B unit_id c) m ∙ w) h1
    where
      by_payload :
          (o : Option Entries) (s1 : Session)
          → derive_payload B unit_id c s ≡ (done o, s1)
          → writes s1.requests ≡ writes s0.requests
          → post_bound B unit_id o s1 ≡ (done (some pair), s')
          → Evidenced pair.0 c s0 s' pair.1
      by_payload none s1 m w h = absurd (cc h)
      by_payload (some p) s1 m w h =
          post-Evidenced unit_id c p s0 s1 s' pair (derive-Bound B unit_id c s s1 p m) w h

  admitted-Evidenced :
      (revision unit_key : String) (c : Claim) (s0 s s' : Session) (pair : Value × Entries)
      → writes s.requests ≡ writes s0.requests
      → verify_admitted B revision unit_key c s ≡ (done (some pair), s')
      → Evidenced pair.0 c s0 s' pair.1
  unfolding verify_admitted
  admitted-Evidenced revision unit_key c s0 s s' pair w h =
      let (unit_id, s1, m, h1) = bind-done (resolve_unit_id B revision unit_key s) _ h in
      let w1 =
        Quiet-step (resolve_unit_id B revision unit_key) s s1
          (Quiet-resolve_unit_id B revision unit_key) m
        ∙ w in
      elim (Bool-cases (is_null unit_id)) [
        | inl e ↦ absurd (cc (rw e at h1))
        | inr e ↦ verify_unit-Evidenced unit_id c s0 s1 s' pair w1 (rw e at h1)
      ]

  -- The intake of the revision, which the service sent, has the criterion with this kind of evidence.
  abbrev pub Admitted : String → Claim → Session → Type 0
  Admitted revision c s =
      (intake : Entries) × (kinds : Kinds) × ReplyTo B s.requests
        (reading B (Route.package_intake revision)) (dict intake)
      × (evidence_kinds intake ≡ ok kinds)
      × (find_kind c.ac_id kinds ≡ some (some "automated_check"))

  ac_refused-false :
      (intake : Entries) (ac_id : String)
      → ac_refused intake ac_id ≡ ok false
      → (kinds : Kinds) × (evidence_kinds intake ≡ ok kinds)
        × (find_kind ac_id kinds ≡ some (some "automated_check"))
  unfolding ac_refused
  ac_refused-false intake ac_id h =
      let (kinds, e, h1) = >>=-ok (evidence_kinds intake) _ h in
      (kinds, e, only (find_kind ac_id kinds) (ok-inj h1))

  pub resolved-Evidenced :
      (revision unit_key : String) (c : Claim) (s s' : Session) (pair : Value × Entries)
      → verify_resolved B revision unit_key c s ≡ (done (some pair), s')
      → Admitted revision c s × Evidenced pair.0 c s s' pair.1
  unfolding verify_resolved refuse resume get_intake
  resolved-Evidenced revision unit_key c s s' pair h =
      let (intake, s1, m, h1) = bind-done (get_intake B revision s) _ h in
      let (refused, r, h2) = bind-lift (ac_refused intake c.ac_id) s1 _ h1 in
      let w = Quiet-step (get_intake B revision) s s1 (Quiet-get_intake B revision) m in
      let (_, status, text, answer) =
        request_dict-Replied B (reading B (Route.package_intake revision)) s s1 intake m in
      let admitted : ac_refused intake c.ac_id ≡ ok false → Admitted revision c s = λ f.
        (let (kinds, k, g) = ac_refused-false intake c.ac_id f in
          (intake, kinds, (status, text, answer), k, g)) in
      elim (Bool-cases refused) [
        | inl e ↦ absurd (cc (rw e at h2))
        | inr e ↦ (
          admitted (r ∙ ap ok e),
          admitted-Evidenced revision unit_key c s s1 s' pair w (rw e at h2),
        )
      ]
