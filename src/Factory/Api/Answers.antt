-- ===== src/Factory/Api/Answers.antt =====
-- A call of src/intent_packages/factory/api.py that answered: what was sent, and what came back.
use intent_packages.Prelude.{
  ℕ, String, ◌≡◌, refl, sym, ap, ◌∙◌, Option, none, some, List, [], ◌∷◌, ◌++◌, Bool-cases, inl, inr,
  arith,
}
use intent_packages.Value.{Value, Entries, Items, list, dict}
use intent_packages.Factory.Session.{
  Request, Response, timed_out, unreachable, replied, Session, Backend, done,
}
use intent_packages.Factory.Api.{
  received, exchange, send, object_in, array_in, request_dict, request_list, is_error,
}
use intent_packages.Factory.Api.Quiet.{bind-done}

-- The service, having received these requests, replied so to the next one.
abbrev pub ReplyTo : Backend → List Request → Request → Value → Type 0
ReplyTo B log r v = (status : ℕ) × (text : String) × (B.answer log r ≡ replied status text (some v))

module _ (B : Backend) where
  received-done :
      (response : Response) (text : String) (json : Option Value)
      → received B response ≡ done (text, json)
      → (status : ℕ) × (response ≡ replied status text json)
  unfolding received
  received-done timed_out text json h = absurd (cc)
  received-done unreachable text json h = absurd (cc)
  received-done (replied status t j) text json h = elim (Bool-cases (is_error B status)) [
    | inl e ↦ absurd (ground (arith, e))
    | inr e ↦ (status, ground (arith, e))
  ]

  -- The request was sent on top of what was sent before, and this is what the service replied.
  abbrev pub Replied : Request → Session → Session → Option Value → Type 0
  Replied r s s' json =
      (s'.requests ≡ s.requests ++ r ∷ [])
      × (status : ℕ) × (text : String) × (B.answer s.requests r ≡ replied status text json)

  send-Replied :
      (r : Request) (s s' : Session) (text : String) (json : Option Value)
      → send B r s ≡ (done (text, json), s')
      → Replied r s s' json
  unfolding send exchange
  send-Replied r s s' text json h = elim (Bool-cases (B.has_token r.role)) [
    | inr e ↦ absurd (ground (arith, e))
    | inl e ↦
        let h' : exchange B r s ≡ (done (text, json), s') = rw (e, send) at h in
        let (status, q) = received-done (B.answer s.requests r) text json (ap (λ p. p.0) h') in
        (sym (ap (λ p. p.1.requests) h'), status, text, q)
  ]

  object_in-done : (o : Option Value) (d : Entries) → object_in B o ≡ done d → o ≡ some (dict d)
  unfolding object_in
  object_in-done none d h = absurd (cc)
  object_in-done (some (dict e)) d h = cc
  object_in-done (some v) d h = absurd (ground arith)

  array_in-done :
      (o : Option Value) (v : Value)
      → array_in B o ≡ done v
      → (xs : Items) × (v ≡ list xs) × (o ≡ some (list xs))
  unfolding array_in
  array_in-done none v h = absurd (cc)
  array_in-done (some (list xs)) v h = (xs, cc, refl)
  array_in-done (some w) v h = absurd (ground arith)

  pub request_dict-Replied :
      (r : Request) (s s' : Session) (d : Entries)
      → request_dict B r s ≡ (done d, s')
      → Replied r s s' (some (dict d))
  unfolding request_dict
  request_dict-Replied r s s' d h =
      let (reply, t, m, h1) = bind-done (send B r s) _ h in
      let e = object_in-done reply.1 d (ap (λ p. p.0) h1) in
      let (q, status, text, a) = send-Replied r s t reply.0 reply.1 m in
      (
        ap (λ x. x.requests) (sym (ap (λ p. p.1) h1)) ∙ q,
        status,
        text,
        a ∙ ap (replied status text) e,
      )

  pub request_list-Replied :
      (r : Request) (s s' : Session) (v : Value)
      → request_list B r s ≡ (done v, s')
      → (xs : Items) × (v ≡ list xs) × Replied r s s' (some (list xs))
  unfolding request_list
  request_list-Replied r s s' v h =
      let (reply, t, m, h1) = bind-done (send B r s) _ h in
      let (xs, e, o) = array_in-done reply.1 v (ap (λ p. p.0) h1) in
      let (q, status, text, a) = send-Replied r s t reply.0 reply.1 m in
      (
        xs,
        e,
        (
          ap (λ x. x.requests) (sym (ap (λ p. p.1) h1)) ∙ q,
          status,
          text,
          a ∙ ap (replied status text) o,
        ),
      )
