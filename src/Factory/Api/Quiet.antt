-- ===== src/Factory/Api/Quiet.antt =====
-- Which calls of src/intent_packages/factory/api.py only read: those that leave the list of the
-- requests with a body as it was. And how the steps of a verb that was run are taken apart.
use intent_packages.Prelude.{
  String, ◌≡◌, refl, sym, ap, ◌∙◌, Bool, true, false, none, some, List, [], ◌∷◌, ◌++◌, ◌==◌,
  append-nil, ◌⊎◌, if◌then◌else◌, Bool-cases, inl, inr, arith,
}
use intent_packages.Value.{Entries}
use intent_packages.Outcome.{Outcome, ok, raised}
use intent_packages.Factory.Session.{
  Role, Route, Request, ApiError, Fault, api, Session, Backend, Answer, done, failed, Verb, resume,
  handled, catch, ◌>>=◌, lifted, draw,
}
use intent_packages.Factory.Api.{
  exchange, send, request_dict, request_list, reading, writing, get_intake, traceability, history,
  in_flight_units, list_proposals, evidence_pack, revision_evidence_pack, evidence_pack_markdown,
  request_text,
}

-- The requests that carry a body, in order.
unfoldable pub writes : List Request → List Request
writes [] = []
writes (r ∷ rs) = let rest = writes rs in elim r.body [ none ↦ rest | some _ ↦ r ∷ rest ]

pub writes-append : (rs ss : List Request) → writes (rs ++ ss) ≡ writes rs ++ writes ss
unfolding writes
writes-append [] ss = refl
writes-append (r ∷ rs) ss = ground (arith, writes-append rs ss)

-- A verb that posts nothing, whatever it answers.
abbrev pub Quiet {ℓ} : {A : Type ℓ} → Verb A → Type 0
Quiet m = (s : Session) → writes (m s).1.requests ≡ writes s.requests

-- A property of the session after a step and what follows it, whatever is answered.
pub bind-any {ℓ κ μ} :
    {A : Type ℓ} {B : Type κ} (P : Session → Type μ) (r : Answer A × Session) (k : A → Verb B)
    → P r.1
    → ((a : A) → r.0 ≡ done a → P (k a r.1).1)
    → P (resume r k).1
unfolding resume
bind-any P (done a, s) k p f = f a refl
bind-any P (failed e, s) k p f = p

-- A step that answered, and what followed it.
pub bind-done {ℓ κ} :
    {A : Type ℓ} {B : Type κ} (r : Answer A × Session) (k : A → Verb B) {b : B} {s' : Session}
    → resume r k ≡ (done b, s')
    → (a : A) × (s1 : Session) × (r ≡ (done a, s1)) × (k a s1 ≡ (done b, s'))
unfolding resume
bind-done (done a, s) k h = (a, s, refl, h)
bind-done (failed e, s) k h = absurd (cc)

-- What a pair of an answer and a session says of each.
pub pair-done :
    {A : Type 0} {a b : A} {s s' : Session}
    → ◌≡◌ {A = Answer A × Session} (done a, s) (done b, s')
    → (a ≡ b) × (s ≡ s')
pair-done h = (cc, cc)

pub lift-done {ℓ} : {A : Type ℓ} (m : Outcome A) {a : A} → lifted m ≡ done a → m ≡ ok a
unfolding lifted
lift-done (ok a) h = cc h
lift-done (raised e) h = absurd (cc)

-- The same where the step calls no service.
pub bind-lift {ℓ κ} :
    {A : Type ℓ} {B : Type κ} (m : Outcome A) (s : Session) (k : A → Verb B) {b : B} {s' : Session}
    → resume (lifted m, s) k ≡ (done b, s')
    → (a : A) × (m ≡ ok a) × (k a s ≡ (done b, s'))
unfolding resume lifted
bind-lift (ok a) s k h = (a, refl, h)
bind-lift (raised e) s k h = absurd (cc)

module _ {ℓ κ} {A : Type ℓ} {B : Type κ} where
  pub Quiet-bind :
      (m : Verb A) (k : A → Verb B) → Quiet m → ((a : A) → Quiet (k a)) → Quiet (m >>= k)
  Quiet-bind m k q f s =
      bind-any (λ x. writes x.requests ≡ writes s.requests) (m s) k (q s) (λ a _. f a (m s).1 ∙ q s)

module _ {ℓ} {A : Type ℓ} where
  handled-Quiet :
      (s : Session) (r : Answer A × Session) (f : ApiError → Verb A)
      → writes r.1.requests ≡ writes s.requests
      → ((e : ApiError) → Quiet (f e))
      → writes (handled r f).1.requests ≡ writes s.requests
  unfolding handled
  handled-Quiet s (done a, t) f q g = q
  handled-Quiet s (failed (api e), t) f q g = g e t ∙ q
  handled-Quiet s (failed (Fault.cli e), t) f q g = q
  handled-Quiet s (failed (Fault.other e), t) f q g = q

  pub Quiet-catch :
      (m : Verb A) (f : ApiError → Verb A)
      → Quiet m
      → ((e : ApiError) → Quiet (f e))
      → Quiet (catch m f)
  Quiet-catch m f q g s = handled-Quiet s (m s) f (q s) g

  pub Quiet-if : (b : Bool) (m n : Verb A) → Quiet m → Quiet n → Quiet (if b then m else n)
  Quiet-if true m n q r = q
  Quiet-if false m n q r = r

module _ (B : Backend) where
  pub Quiet-draw : Quiet (draw B)
  unfolding draw
  Quiet-draw s = refl

  -- What a request adds to the writes: itself, if it has a body and a token was had.
  pub send-reading : (route : Route) → Quiet (send B (reading B route))
  unfolding send exchange
  send-reading route s = elim (Bool-cases (B.has_token Role.system)) [
    | inl e ↦ rw e (writes-append s.requests _ ∙ (unfold writes in append-nil _))
    | inr e ↦ rw e refl
  ]

  request_dict-reading : (route : Route) → Quiet (request_dict B (reading B route))
  unfolding request_dict
  request_dict-reading route =
      Quiet-bind (send B (reading B route)) _ (send-reading route) (λ _ s. refl)

  request_list-reading : (route : Route) → Quiet (request_list B (reading B route))
  unfolding request_list
  request_list-reading route =
      Quiet-bind (send B (reading B route)) _ (send-reading route) (λ _ s. refl)

  pub Quiet-get_intake : (revision : String) → Quiet (get_intake B revision)
  unfolding get_intake
  Quiet-get_intake revision = request_dict-reading (Route.package_intake revision)

  pub Quiet-list_proposals : (revision : String) → Quiet (list_proposals B revision)
  unfolding list_proposals
  Quiet-list_proposals revision = request_list-reading (Route.decomposition_proposals revision)

  pub Quiet-evidence_pack : (unit_id : String) → Quiet (evidence_pack B unit_id)
  unfolding evidence_pack
  Quiet-evidence_pack unit_id = request_dict-reading (Route.evidence_pack unit_id)

  pub Quiet-revision_evidence_pack : (revision : String) → Quiet (revision_evidence_pack B revision)
  unfolding revision_evidence_pack
  Quiet-revision_evidence_pack revision =
      request_dict-reading (Route.revision_evidence_pack revision)

  pub Quiet-evidence_pack_markdown : (unit_id : String) → Quiet (evidence_pack_markdown B unit_id)
  unfolding evidence_pack_markdown request_text
  Quiet-evidence_pack_markdown unit_id =
      Quiet-bind (send B (reading B (Route.evidence_pack_markdown unit_id))) _
        (send-reading (Route.evidence_pack_markdown unit_id)) (λ _ s. refl)

  pub Quiet-traceability : (revision : String) → Quiet (traceability B revision)
  unfolding traceability
  Quiet-traceability revision =
      Quiet-if (revision == "") _ _ (λ s. refl) (request_dict-reading (Route.traceability revision))

  pub Quiet-history : (unit_id : String) → Quiet (history B unit_id)
  unfolding history
  Quiet-history unit_id = request_list-reading (Route.history unit_id)

  pub Quiet-in_flight_units : Quiet (in_flight_units B)
  unfolding in_flight_units
  Quiet-in_flight_units = request_dict-reading Route.in_flight_units

-- Nothing was posted, or just this request.
abbrev pub AtMost : Request → List Request → List Request → Type 0
AtMost r rs rs' = (writes rs' ≡ writes rs) ⊎ (writes rs' ≡ writes rs ++ r ∷ [])

-- What follows, without a post of its own, changes nothing about that.
pub AtMost-quiet :
    (r : Request) (rs rs1 rs2 : List Request)
    → AtMost r rs rs1
    → writes rs2 ≡ writes rs1
    → AtMost r rs rs2
AtMost-quiet r rs rs1 rs2 (inl e) q = inl (q ∙ e)
AtMost-quiet r rs rs1 rs2 (inr e) q = inr (q ∙ e)

pub quiet-AtMost :
    (r : Request) (rs rs1 rs2 : List Request)
    → writes rs1 ≡ writes rs
    → AtMost r rs1 rs2
    → AtMost r rs rs2
quiet-AtMost r rs rs1 rs2 q (inl e) = inl (e ∙ q)
quiet-AtMost r rs rs1 rs2 q (inr e) = inr (e ∙ ap (λ ws. ws ++ r ∷ []) q)

module _ {ℓ} {A : Type ℓ} (r : Request) (rs : List Request) where
  -- A handler that posts nothing.
  pub AtMost-handled :
      (m : Answer A × Session) (f : ApiError → Verb A)
      → AtMost r rs m.1.requests
      → ((e : ApiError) → Quiet (f e))
      → AtMost r rs (handled m f).1.requests
  unfolding handled
  AtMost-handled (done a, t) f q g = q
  AtMost-handled (failed (api e), t) f q g =
      AtMost-quiet r rs t.requests (f e t).1.requests q (g e t)
  AtMost-handled (failed (Fault.cli e), t) f q g = q
  AtMost-handled (failed (Fault.other e), t) f q g = q

  pub AtMost-bind :
      {B : Type 0} (m : Answer A × Session) (k : A → Verb B)
      → AtMost r rs m.1.requests
      → ((a : A) → Quiet (k a))
      → AtMost r rs (resume m k).1.requests
  AtMost-bind m k q f =
      bind-any (λ x. AtMost r rs x.requests) m k q
        (λ a _. AtMost-quiet r rs m.1.requests (k a m.1).1.requests q (f a m.1))

module _ (B : Backend) (route : Route) (role : Role) (payload : Entries) where
  abbrev post : Request
  post = writing B route role payload

  send-posts : (s : Session) → AtMost post s.requests (send B post s).1.requests
  unfolding send exchange
  send-posts s = elim (Bool-cases (B.has_token role)) [
    | inl e ↦ rw e (inr (writes-append s.requests (post ∷ []) ∙ (unfold writes in refl)))
    | inr e ↦ rw e (inl refl)
  ]

  pub request_dict-posts : (s : Session) → AtMost post s.requests (request_dict B post s).1.requests
  unfolding request_dict
  request_dict-posts s = AtMost-bind post s.requests (send B post s) _ (send-posts s) (λ _ t. refl)

-- A quiet step that was taken.
pub Quiet-step {ℓ} :
    {A : Type ℓ} (m : Verb A) (s s1 : Session) {a : A}
    → Quiet m
    → m s ≡ (done a, s1)
    → writes s1.requests ≡ writes s.requests
Quiet-step m s s1 q h = ap (λ p. writes p.1.requests) (sym h) ∙ q s

-- An answer that no handler gives was given before any handler.
pub handled-done {ℓ} :
    {A : Type ℓ} (m : Answer A × Session) (f : ApiError → Verb A) (a : A) (s' : Session)
    → ((e : ApiError) (s : Session) → f e s ≡ (done a, s') → ⊥)
    → handled m f ≡ (done a, s')
    → m ≡ (done a, s')
unfolding handled
handled-done (done b, s) f a s' no_answer h = h
handled-done (failed (api e), s) f a s' no_answer h = absurd (no_answer e s h)
handled-done (failed (Fault.cli e), s) f a s' no_answer h = absurd (cc h)
handled-done (failed (Fault.other e), s) f a s' no_answer h = absurd (cc h)
