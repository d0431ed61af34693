-- ===== src/Factory/Execution/Laws.antt =====
-- When the verb `dispatch` of src/intent_packages/factory/execution.py answers 0.
use intent_packages.Prelude.{
  ℕ, String, ◌≡◌, ◌≢◌, refl, sym, ap, ◌∙◌, inl, inr, Bool, true, false, ◌&&◌, Option, none, some,
  List, [], ◌∷◌, ◌++◌, ◌<>◌, arith, All, Bool-cases, if◌then◌else◌,
}
use intent_packages.Value.{
  Value, ℤ, Entries, Items, list, dict, to_list, is_null, is_text, truthy, is_hashable,
}
use intent_packages.Value.Dict.{get, subscript}
use intent_packages.Value.Access.{field_of}
use intent_packages.Outcome.{ok}
use intent_packages.Factory.Session.{
  Role, Route, Request, Session, Backend, Answer, done, ApiError, Verb, resume, print, pure, err,
  out, exit, draw, catch, ◌>>◌, give_up,
}
use intent_packages.Factory.Api.{shown, reading, writing, history}
use intent_packages.Factory.Api
use intent_packages.Factory.Api.Quiet.{bind-done, bind-lift, pair-done, handled-done}
use intent_packages.Factory.Api.Answers.{ReplyTo, request_dict-Replied}
use intent_packages.Factory.Views.{DispatchEvent, dispatch_events, listed, in_ids}
use intent_packages.Factory.Views.Laws.{IsCovered, scan_history-IsCovered}
use intent_packages.Factory.Reads.{resolve_revision}
use intent_packages.Factory.Execution.{
  Target, keyed, prepare, reconcile, dispatch_failed, no_op, by_status, is_repeat, report_dispatch,
  posted, report_reply, dispatch_target, dispatch_prepared, dispatch_resolved, dispatch,
  is_inconclusive,
}
use intent_packages.Factory.Execution.Scanned.{null-falsy, Scanned, prepare-Scanned}

-- The event records another dispatch than the one of this id.
abbrev pub IsOther : Value → DispatchEvent → Type 0
IsOther id e =
    (v : Value) × (field_of e.payload "dispatch_record_id" ≡ ok v) × (truthy v ≡ true → v ≢ id)

-- The history of the unit was read; then, as the next and last request, the dispatch was posted; the
-- service replied that it was dispatched, under an id that no dispatch event of the history has.
abbrev pub Landed : Backend → Session → Type 0
Landed B s' =
    (unit_id : Value) × (log : List Request) × (xs : Items) × (payload : Entries)
    × (reply : Entries) × (es : List DispatchEvent) × ReplyTo B log
        (reading B (Route.history (shown B unit_id))) (list xs)
    × ReplyTo B (log ++ reading B (Route.history (shown B unit_id)) ∷ [])
        (writing B (Route.dispatch (shown B unit_id)) Role.system payload) (dict reply)
    × (s'.requests
        ≡ (log ++ reading B (Route.history (shown B unit_id)) ∷ [])
          ++ writing B (Route.dispatch (shown B unit_id)) Role.system payload ∷ [])
    × (dispatch_events (to_list xs) ≡ ok es)
    × All (IsOther (get reply "id")) es
    × (is_text (get reply "status") "dispatched" ≡ true)

abbrev Ended : Type 0
Ended = Answer ℕ × Session

one-ne-zero : (s s' : Session) → ◌≡◌ {A = Ended} (done 1, s) (done 0, s') → ⊥
one-ne-zero s s' h = ground arith

module _ (B : Backend) where
  -- The handler of a failed POST has no reply to report.
  dispatch_failed-none :
      (t : Target) (e : ApiError) (s s' : Session) (reply : Entries)
      → dispatch_failed B t e s ≡ (done (some reply), s')
      → ⊥
  unfolding dispatch_failed
  dispatch_failed-none t e s s' reply h =
      let (_, s1, _, h1) = bind-done (print (err "dispatch failed") s) _ h in
      let (_, s2, _, h2) =
        bind-done ((if is_inconclusive e && truthy t.unit_id then reconcile B t else pure tt) s1) _
          h1 in
      cc h2

  posted-Replied :
      (t : Target) (payload reply : Entries) (s s' : Session)
      → posted B t payload s ≡ (done (some reply), s')
      → let r = writing B (Route.dispatch (shown B t.unit_id)) Role.system payload in
        ReplyTo B s.requests r (dict reply) × (s'.requests ≡ s.requests ++ r ∷ [])
  unfolding posted Api.dispatch
  posted-Replied t payload reply s s' h =
      let r = writing B (Route.dispatch (shown B t.unit_id)) Role.system payload in
      let (d, s1, m, h1) = bind-done (Api.dispatch B (shown B t.unit_id) payload s) _ h in
      let (q, status, text, a) = request_dict-Replied B r s s1 d m in
      let (e, w) = pair-done h1 in
      let f : d ≡ reply = cc e in ((status, text, rw (← f) a), rw (← w) q)

  -- A report of 0 had an id that is not among the earlier ones, and the status `dispatched`.
  is_repeat-other :
      (id v : Value) (prior : List Value)
      → is_repeat B id prior ≡ ok false
      → (truthy v ≡ true → listed v prior ≡ true)
      → truthy v ≡ true
      → v ≢ id
  unfolding is_repeat in_ids
  is_repeat-other id v prior h l t e = elim (Bool-cases (is_null id)) [
    | inl n ↦ null-falsy id n (rw e at t)
    | inr n ↦ elim (Bool-cases (is_hashable id)) [
      | inl g ↦
          let no : listed id prior ≡ false = ground (arith, n, g) in
          absurd (cc (sym no ∙ rw e at (l t)))
      | inr g ↦ absurd (ground (arith, n, g))
    ]
  ]

  All-IsOther :
      (id : Value) (latest : ℤ) (prior : List Value) (es : List DispatchEvent)
      → is_repeat B id prior ≡ ok false
      → All (IsCovered B latest prior) es
      → All (IsOther id) es
  All-IsOther id latest prior [] h a = tt
  All-IsOther id latest prior (e ∷ es) h ((n, v, _, _, d, l), a) =
      ((v, d, is_repeat-other id v prior h l), All-IsOther id latest prior es h a)

  by_status-zero :
      (reply : Entries) (s s' : Session)
      → by_status B reply s ≡ (done 0, s')
      → (is_text (get reply "status") "dispatched" ≡ true) × (s'.requests ≡ s.requests)
  unfolding by_status resume
  by_status-zero reply s s' h = chosen (is_text (get reply "status") "dispatched") h
    where
      chosen :
          (b : Bool)
          → (if b
                then print (out "dispatched") >> exit 0
                else give_up "dispatch failed: no workflow_dispatch fired" 1)
              s
            ≡ (done 0, s')
          → (b ≡ true) × (s'.requests ≡ s.requests)
      chosen true h = (refl, ap (λ p. p.1.requests) (sym h))
      chosen false h = absurd (one-ne-zero _ s' h)

  report-zero :
      (reply : Entries) (prior : List Value) (s s' : Session)
      → report_dispatch B reply prior s ≡ (done 0, s')
      → (is_repeat B (get reply "id") prior ≡ ok false)
        × (is_text (get reply "status") "dispatched" ≡ true)
        × (s'.requests ≡ s.requests)
  unfolding report_dispatch no_op resume
  report-zero reply prior s s' h =
      let (b, q, h1) = bind-lift (is_repeat B (get reply "id") prior) s _ h in chosen b q h1
    where
      chosen :
          (b : Bool)
          → is_repeat B (get reply "id") prior ≡ ok b
          → (if b then no_op B else by_status B reply) s ≡ (done 0, s')
          → (is_repeat B (get reply "id") prior ≡ ok false)
            × (is_text (get reply "status") "dispatched" ≡ true)
            × (s'.requests ≡ s.requests)
      chosen true q h = absurd (one-ne-zero _ s' h)
      chosen false q h = let (d, w) = by_status-zero reply s s' h in (q, d, w)

  reported-Landed :
      (t : Target) (payload : Entries) (s0 s s1 s2 s' : Session) (o : Option Entries)
      → Scanned B t.unit_id t.prior s0 s
      → s1.requests ≡ s.requests
      → catch (posted B t payload) (dispatch_failed B t) s1 ≡ (done o, s2)
      → report_reply B t o s2 ≡ (done 0, s')
      → Landed B s'
  reported-Landed t payload s0 s s1 s2 s' none c w p h = absurd (one-ne-zero s2 s' h)
  reported-Landed t payload s0 s s1 s2 s' (some reply) (xs, latest, read, sent, scan) w p h =
      let (landed, told) = posted-Replied t payload reply s1 s2 (
        handled-done (posted B t payload s1) (dispatch_failed B t) (some reply) s2
          (λ e x q. dispatch_failed-none t e x s2 reply q) p) in
      let (fresh, status, same) = report-zero reply t.prior s2 s' h in
      let (es, e, _, covered, _, _) = scan_history-IsCovered B (to_list xs) latest t.prior scan in
      let r = writing B (Route.dispatch (shown B t.unit_id)) Role.system payload in
      (
        t.unit_id,
        s0.requests,
        xs,
        payload,
        reply,
        es,
        read,
        rw (← sent) (rw (← w) landed),
        same ∙ told ∙ ap (λ x. x ++ r ∷ []) (w ∙ sent),
        e,
        All-IsOther (get reply "id") latest t.prior es fresh covered,
        status,
      )

  dispatch_target-Landed :
      (t : Target) (s0 s s' : Session)
      → Scanned B t.unit_id t.prior s0 s
      → dispatch_target B t s ≡ (done 0, s')
      → Landed B s'
  unfolding dispatch_target draw
  dispatch_target-Landed t s0 s s' c h =
      let (key, s1, k, h1) = bind-done (draw B s) _ h in
      let (version, _, h2) = bind-lift (subscript t.snapshot "version") s1 _ h1 in
      let payload = keyed ("factory-dispatch-" <> key) version in
      let (o, s2, p, h3) = bind-done (catch (posted B t payload) (dispatch_failed B t) s1) _ h2 in
      reported-Landed t payload s0 s s1 s2 s' o c (ap (λ x. x.1.requests) (sym k)) p h3

  -- The handler of a failed read has no target.
  no_target :
      (s s' : Session) (t : Target)
      → (print (err "dispatch failed") >> pure none) s ≡ (done (some t), s')
      → ⊥
  unfolding resume
  no_target s s' t h = cc h

  prepared-Landed :
      (o : Option Target) (revision unit_key : String) (s s1 s' : Session)
      → catch (prepare B revision unit_key) (λ _. print (err "dispatch failed") >> pure none) s
        ≡ (done o, s1)
      → dispatch_prepared B o s1 ≡ (done 0, s')
      → Landed B s'
  prepared-Landed none revision unit_key s s1 s' p h = absurd (one-ne-zero s1 s' h)
  prepared-Landed (some t) revision unit_key s s1 s' p h =
      let (s0, c) = prepare-Scanned B revision unit_key s s1 t (
        handled-done (prepare B revision unit_key s) _ (some t) s1 (λ e x q. no_target x s1 t q)
          p) in
      dispatch_target-Landed t s0 s1 s' c h

  -- When `dispatch` answers 0, it has read the history of a unit and then, as its last request,
  -- posted a dispatch of that unit; the service replied with the status `dispatched`, and with an id
  -- that no dispatch event of that history records.
  pub dispatch-Landed :
      (revision unit_key : String) (s s' : Session)
      → dispatch B revision unit_key s ≡ (done 0, s')
      → Landed B s'
  unfolding dispatch dispatch_resolved resume
  dispatch-Landed revision unit_key s s' h = by_revision (resolve_revision B revision) h
    where
      by_revision :
          (o : Option String)
          → (elim o as (λ _. Verb ℕ) [
            | none ↦ give_up "dispatch failed: no revision id" 2
            | some r ↦ dispatch_resolved B r unit_key
          ])
              s
            ≡ (done 0, s')
          → Landed B s'
      by_revision none h = absurd (ground arith)
      by_revision (some r) h =
          let (o, s1, p, h1) =
            bind-done
              (catch (prepare B r unit_key) (λ _. print (err "dispatch failed") >> pure none) s) _
              h in
          prepared-Landed o r unit_key s s1 s' p h1
