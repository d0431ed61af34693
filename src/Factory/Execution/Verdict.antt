-- ===== src/Factory/Execution/Verdict.antt =====
-- What `dispatch` of src/intent_packages/factory/execution.py says of a post that may have landed.
use intent_packages.Prelude.{
  ◌≡◌, refl, sym, ap, ◌∙◌, true, false, ◌&&◌, Option, none, List, [], ◌∷◌, ◌++◌, all, append_assoc,
  Bool-cases, inl, inr, arith,
}
use intent_packages.Value.{Value, ℤ, Entries, is_str, truthy}
use intent_packages.Factory.Session.{
  Route, Request, Session, Backend, ApiError, Answer, done, Line, err, resume, handled, lifted,
}
use intent_packages.Factory.Api.{shown, reading, exchange, send, history, request_list}
use intent_packages.Factory.Api.Quiet.{bind-any}
use intent_packages.Factory.Views.{listed}
use intent_packages.Factory.Reads.{scan_dispatch_events, joinable}
use intent_packages.Factory.Execution.{
  Target, minus, say_landed, compare_ids, reconcile, dispatch_failed, is_inconclusive, landed_line,
  unlanded_line,
}

minus-all : (ids prior : List Value) → all (λ v. listed v prior) ids ≡ true → minus ids prior ≡ []
unfolding minus all
minus-all [] prior h = refl
minus-all (v ∷ ids) prior h = ground (arith, minus-all ids prior)

-- An id that is new is left over.
minus-new :
    (ids prior : List Value)
    → all (λ v. listed v prior) ids ≡ false
    → (v : Value) × (vs : List Value) × (minus ids prior ≡ v ∷ vs)
unfolding minus all
minus-new [] prior h = absurd (cc h)
minus-new (v ∷ ids) prior h = elim (Bool-cases (listed v prior)) [
  | inl e ↦ let (w, ws, q) = minus-new ids prior (rw e at h) in (w, ws, rw e q)
  | inr e ↦ (v, minus ids prior, rw e refl)
]

minus-strings :
    (ids prior : List Value) → all is_str ids ≡ true → all is_str (minus ids prior) ≡ true
unfolding minus all
minus-strings [] prior h = refl
minus-strings (v ∷ ids) prior h = ground (arith, minus-strings ids prior)

module _ (B : Backend) where
  abbrev SameLines : Session → Session → Type 0
  SameLines s x = x.lines ≡ s.lines

  send-lines : (r : Request) (s : Session) → SameLines s (send B r s).1
  unfolding send exchange
  send-lines r s = elim (Bool-cases (B.has_token r.role)) [ inl e ↦ rw e refl | inr e ↦ rw e refl ]

  scan-lines : (unit_id : Value) (s : Session) → SameLines s (scan_dispatch_events B unit_id s).1
  unfolding scan_dispatch_events history request_list
  scan-lines unit_id s =
      let r = reading B (Route.history (shown B unit_id)) in
      let sent = send-lines r s in
      bind-any (SameLines s) (history B (shown B unit_id) s) _
        (bind-any (SameLines s) (send B r s) _ sent (λ _ _. sent))
        (λ _ _. bind-any (SameLines s) (send B r s) _ sent (λ _ _. sent))

  -- There is no reply, and these lines follow those that were printed before.
  abbrev pub Says : Session → List Line → Answer (Option Entries) × Session → Type 0
  Says s ls r = (r.0 ≡ done none) × (r.1.lines ≡ s.lines ++ ls)

  abbrev pub warned : Session → Session
  warned s = record s { lines = s.lines ++ err "dispatch failed" ∷ [] }

  told :
      (t : Target) (e : ApiError) (s s1 : Session) (l : Line)
      → (is_inconclusive e && truthy t.unit_id) ≡ true
      → reconcile B t (warned s) ≡ (done tt, record s1 { lines = s1.lines ++ l ∷ [] })
      → s1.lines ≡ s.lines ++ err "dispatch failed" ∷ []
      → Says s (err "dispatch failed" ∷ l ∷ []) (dispatch_failed B t e s)
  unfolding dispatch_failed resume
  told t e s s1 l i r same = rw (i, r) (refl, ap (λ x. x ++ l ∷ []) same ∙ append_assoc s.lines _ _)

  say_landed-nil :
      (s : Session)
      → say_landed B [] s ≡ (done tt, record s { lines = s.lines ++ unlanded_line ∷ [] })
  unfolding say_landed
  say_landed-nil s = refl

  say_landed-cons :
      (v : Value) (vs : List Value) (s : Session)
      → all is_str (v ∷ vs) ≡ true
      → say_landed B (v ∷ vs) s ≡ (done tt, record s { lines = s.lines ++ landed_line ∷ [] })
  unfolding say_landed joinable resume lifted
  say_landed-cons v vs s h = rw h refl

  reconcile-said :
      (t : Target) (s s1 : Session) (latest : ℤ) (ids : List Value) (l : Line)
      → scan_dispatch_events B t.unit_id s ≡ (done (latest, ids), s1)
      → say_landed B (minus ids t.prior) s1 ≡ (done tt, record s1 { lines = s1.lines ++ l ∷ [] })
      → reconcile B t s ≡ (done tt, record s1 { lines = s1.lines ++ l ∷ [] })
  unfolding reconcile compare_ids resume handled
  reconcile-said t s s1 latest ids l scan said = rw (scan, said) refl

  -- Where the post of a dispatch was inconclusive and the history can be read again: if each record
  -- id that it has now was there before, the failure is said and that nothing landed; if one is new,
  -- and all are texts, that it landed and must not be tried again. Either way there is no reply.
  pub dispatch_failed-Says :
      (t : Target) (e : ApiError) (s s1 : Session) (latest : ℤ) (ids : List Value)
      → (is_inconclusive e && truthy t.unit_id) ≡ true
      → scan_dispatch_events B t.unit_id (warned s) ≡ (done (latest, ids), s1)
      → (all (λ v. listed v t.prior) ids ≡ true
          → Says s (err "dispatch failed" ∷ unlanded_line ∷ []) (dispatch_failed B t e s))
        × (all (λ v. listed v t.prior) ids ≡ false
            → all is_str ids ≡ true
            → Says s (err "dispatch failed" ∷ landed_line ∷ []) (dispatch_failed B t e s))
  dispatch_failed-Says t e s s1 latest ids i scan =
      let same : s1.lines ≡ s.lines ++ err "dispatch failed" ∷ [] =
        ap (λ p. p.1.lines) (sym scan) ∙ scan-lines t.unit_id (warned s) in
      (
        λ old.
            told t e s s1 unlanded_line i
              (reconcile-said t (warned s) s1 latest ids unlanded_line scan
                (rw (minus-all ids t.prior old) (say_landed-nil s1)))
              same,
        λ new texts.
            let (v, vs, q) = minus-new ids t.prior new in
            let strs = rw q at (minus-strings ids t.prior texts) in
            told t e s s1 landed_line i
              (reconcile-said t (warned s) s1 latest ids landed_line scan
                (rw q (say_landed-cons v vs s1 strs)))
              same,
      )
