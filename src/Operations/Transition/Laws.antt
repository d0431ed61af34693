-- ===== src/Operations/Transition/Laws.antt =====
-- What `do_transition` of src/intent_packages/operations.py has done when it returns.
use intent_packages.Prelude.{
  String, ◌≡◌, refl, sym, ap, ◌∙◌, Bool, true, false, not, ◌&&◌, ◌⊎◌, inl, inr, ◌++◌, Bool-cases,
  Option, none, some, List, [], ◌∷◌, arith, ◌==◌,
}
use intent_packages.Value.{Value, str, Entries, truthy}
use intent_packages.Value.Dict.{get, item, subscript, put, get-put_self}
use intent_packages.Outcome.{ok-inj, Outcome, ok, raised, emit_error, >>=-ok}
use intent_packages.Outcome.Report.{IsClean, Issue}
use intent_packages.Host.{Host, Text, PackageDir}
use intent_packages.Loader.{load_package, load_lineage}
use intent_packages.Lifecycle.{is_legal_transition}
use intent_packages.Lineage.{append_transition}
use intent_packages.Validate.Package.{validate_package}
use intent_packages.Validate.Package.Laws.{validate_package-parts}
use intent_packages.Semantic.Ledger.{lineage_consistency_errors}
use intent_packages.Semantic.Ledger.Laws.{append_transition-consistent}
use intent_packages.Edit.{set_status_text}
use intent_packages.Operations.{Event, World, is_legal_from, write_lineage, sent, emit_best_effort}
use intent_packages.Operations.Steps.{
  resume-ok, resume-ok_write, refuse_if-ok, set_status-ok, emit_best_effort-dir,
}
use intent_packages.Operations.Transition.{
  has_issues, follow_up_blocks, renew_snapshot, transition_event, enact_transition, do_transition,
}

pub no_issues : (xs : List Issue) → has_issues xs ≡ false → xs ≡ []
no_issues [] h = refl
no_issues (x ∷ xs) h = absurd (cc)

pub legal-text :
    (v : Value) (t : String)
    → is_legal_from v t ≡ ok true
    → (s : String) × (v ≡ str s) × (is_legal_transition s t ≡ true)
unfolding is_legal_from
legal-text (str s) t h = (s, refl, cc)
legal-text v t h = ground arith

pub from_not : (b : Bool) → not b ≡ false → b ≡ true
from_not true h = refl
from_not false h = absurd (cc)

-- A package goes from `completed` straight to `closed` only if it requires no follow-up.
abbrev pub FollowsUp : String → String → Entries → Type 0
FollowsUp s to_state pkg =
    ((s == "completed" && to_state == "closed") ≡ false)
    ⊎ ((f : Value) × (r : Value) × (item pkg "follow_up" ≡ ok f)
        × (subscript f "required" ≡ ok r)
        × (truthy r ≡ false))

follow_up_blocks-FollowsUp :
    (s to_state : String) (pkg : Entries)
    → follow_up_blocks (str s) to_state pkg ≡ ok false
    → FollowsUp s to_state pkg
unfolding follow_up_blocks
follow_up_blocks-FollowsUp s to_state pkg h =
    elim (Bool-cases (s == "completed" && to_state == "closed")) [
      | inl e ↦
          let (f, i, h1) = >>=-ok (item pkg "follow_up") _ (rw e at h) in
          let (r, j, h2) = >>=-ok (subscript f "required") _ h1 in inr (f, r, i, j, ok-inj h2)
      | inr e ↦ inl e
    ]

-- What is on disk after a state was entered with a ledger, from the directory before.
abbrev pub Entered : Host → PackageDir → String → Entries → PackageDir → Type 0
Entered H d to_state lin d' =
    (d'.lineage_yaml ≡ some (H.dump (put "current_state" (str to_state) lin)))
    × ((text : Text) × (t : Text) × (d.package_yaml ≡ some text)
        × (set_status_text to_state text ≡ some t)
        × (d'.package_yaml ≡ some t))

module _ (H : Host) (emit : Event → Outcome (Option String)) where
  -- The id of the event, recorded where the emitter answered, and none where it raised `EmitError`.
  abbrev pub Emitted : Event → Option String → World → World → Type 0
  Emitted e id w w' =
      ((emit e ≡ ok id) × (w'.events ≡ w.events ++ e ∷ []))
      ⊎ ((why : String) × (emit e ≡ raised (emit_error why)) × (id ≡ none) × (w'.events ≡ w.events))

  sent-Emitted :
      (e : Event) (m : Outcome (Option String)) (w w' : World) (id : Option String)
      → emit e ≡ m
      → sent e m w ≡ (ok id, w')
      → Emitted e id w w'
  unfolding sent
  sent-Emitted e (ok i) w w' id q h = inl (q ∙ ap (λ p. p.0) h, sym (ap (λ p. p.1.events) h))
  sent-Emitted e (raised (emit_error why)) w w' id q h =
      inr (why, q, sym (ok-inj (ap (λ p. p.0) h)), sym (ap (λ p. p.1.events) h))
  sent-Emitted e (raised x) w w' id q h = absurd (cc)

  emit_best_effort-Emitted :
      (e : Event) (w w' : World) (id : Option String)
      → emit_best_effort emit e w ≡ (ok id, w')
      → Emitted e id w w'
  unfolding emit_best_effort
  emit_best_effort-Emitted e w w' id h = sent-Emitted e (emit e) w w' id refl h

  Emitted-later :
      (e : Event) (id : Option String) (w w1 w' : World)
      → w'.events ≡ w1.events
      → Emitted e id w w1
      → Emitted e id w w'
  Emitted-later e id w w1 w' q (inl (a, b)) = inl (a, q ∙ b)
  Emitted-later e id w w1 w' q (inr (why, a, n, b)) = inr (why, a, n, q ∙ b)

  Emitted-from :
      (ref revision v : Value) (s to_state : String) (id : Option String) (w w' : World)
      → v ≡ str s
      → Emitted (transition_event ref revision v to_state) id w w'
      → Emitted (transition_event ref revision (str s) to_state) id w w'
  Emitted-from ref revision v s to_state id w w' e h = rw e at h

  -- The ledger and the status line that `enact_transition` writes.
  enact_transition-ok :
      (pkg lin : Entries) (current : Value) (to_state actor now : String) (w w' : World)
      → enact_transition H emit pkg lin current to_state actor now w ≡ (ok tt, w')
      → (ref revision : Value) × (id : Option String) × (more : Entries) × (item pkg "package_id"
          ≡ ok ref)
        × (item pkg "revision" ≡ ok revision)
        × Emitted (transition_event ref revision current to_state) id w w'
        × (append_transition lin "transition" current to_state now actor id ≡ ok more)
        × Entered H w.dir to_state more w'.dir
  unfolding enact_transition write_lineage
  enact_transition-ok pkg lin current to_state actor now w w' h0 =
      let (ref, rf, h1) = resume-ok _ w _ h0 in
      let (revision, rv, h2) = resume-ok _ w _ h1 in
      let (id, w1, e, h3) = resume-ok_write _ _ h2 in
      let (more, m, h4) = resume-ok _ w1 _ h3 in
      let (_, _, h5) = resume-ok _ _ _ h4 in
      let (text, t, p, q, r) = set_status-ok to_state _ w' h5 in
      let d = emit_best_effort-dir emit _ w w1 e in
      (
        ref,
        revision,
        id,
        more,
        rf,
        rv,
        Emitted-later _ id w w1 w' (ap (λ x. x.events) r) (emit_best_effort-Emitted _ w w1 id e),
        m,
        (
          ap (λ x. x.dir.lineage_yaml) r,
          (text, t, sym (ap (λ x. x.package_yaml) d) ∙ p, q, ap (λ x. x.dir.package_yaml) r),
        ),
      )

  -- What holds when a transition has returned.
  abbrev pub Transitioned : String → String → String → World → World → Type 0
  Transitioned to_state actor now w w' =
      (pkg : Entries) × (lin : Entries) × (fresh : Entries) × (s : String) × (ref revision : Value)
      × (id : Option String) × (more : Entries) × IsClean (validate_package H w.dir)
      × (load_package H w.dir ≡ ok pkg)
      × (load_lineage H w.dir ≡ ok lin)
      × (item lin "current_state" ≡ ok (str s))
      × (is_legal_transition s to_state ≡ true)
      × FollowsUp s to_state pkg
      × (renew_snapshot H to_state pkg lin now actor ≡ ok fresh)
      × (item pkg "package_id" ≡ ok ref)
      × (item pkg "revision" ≡ ok revision)
      × Emitted (transition_event ref revision (str s) to_state) id w w'
      × (append_transition fresh "transition" (str s) to_state now actor id ≡ ok more)
      × Entered H w.dir to_state more w'.dir

  pub do_transition-ok :
      (to_state actor now : String) (w w' : World)
      → do_transition H emit to_state actor now w ≡ (ok tt, w')
      → Transitioned to_state actor now w w'
  unfolding do_transition
  do_transition-ok to_state actor now w w' h0 =
      let (errors, v, h1) = resume-ok _ w _ h0 in
      let (n, h2) = refuse_if-ok _ _ w _ h1 in
      let (pkg, p, h3) = resume-ok _ w _ h2 in
      let (lin, l, h4) = resume-ok _ w _ h3 in
      let (current, c, h5) = resume-ok _ w _ h4 in
      let (legal, g, h6) = resume-ok _ w _ h5 in
      let (m, h7) = refuse_if-ok _ _ w _ h6 in
      let (blocked, f, h8) = resume-ok _ w _ h7 in
      let (u, h9) = refuse_if-ok _ _ w _ h8 in
      let (fresh, r, h10) = resume-ok _ w _ h9 in
      let (s, cs, edge) = legal-text current to_state (g ∙ ap ok (from_not legal m)) in
      let (ref, revision, id, more, rf, rv, sent_it, a, e) =
        enact_transition-ok pkg fresh current to_state actor now w w' h10 in
      (
        pkg,
        lin,
        fresh,
        s,
        ref,
        revision,
        id,
        more,
        v ∙ ap ok (no_issues errors n),
        p,
        l,
        c ∙ ap ok cs,
        edge,
        follow_up_blocks-FollowsUp s to_state pkg
            (sym (ap (λ x. follow_up_blocks x to_state pkg) cs) ∙ (f ∙ ap ok u)),
        r,
        rf,
        rv,
        Emitted-from ref revision current s to_state id w w' cs sent_it,
        sym (ap (λ x. append_transition fresh "transition" x to_state now actor id) cs) ∙ a,
        e,
      )

  -- The snapshot is renewed only on the way into review.
  renew_snapshot-other :
      (to_state now actor : String) (pkg lin fresh : Entries)
      → (to_state == "ready_for_review") ≡ false
      → renew_snapshot H to_state pkg lin now actor ≡ ok fresh
      → lin ≡ fresh
  unfolding renew_snapshot
  renew_snapshot-other to_state now actor pkg lin fresh e h = ok-inj (rw e at h)

  -- A transition that returns, to any state but `ready_for_review`, has written a ledger in which
  -- check L finds nothing and whose state is the new one.
  pub do_transition-consistent :
      (to_state actor now : String) (w w' : World)
      → (to_state == "ready_for_review") ≡ false
      → do_transition H emit to_state actor now w ≡ (ok tt, w')
      → (lin : Entries) × (w'.dir.lineage_yaml ≡ some (H.dump lin))
        × IsClean (lineage_consistency_errors lin)
        × (get lin "current_state" ≡ str to_state)
  do_transition-consistent to_state actor now w w' other h0 =
      let (pkg, lin, fresh, s, _, _, id, more, v, p, l, c, edge, _, r, _, _, _, a, (d, _)) =
        do_transition-ok to_state actor now w w' h0 in
      let (pkg', lin', p', l', (_, _, _, _, _, k)) = validate_package-parts H w.dir v in
      let same =
        ok-inj (sym l' ∙ l) ∙ renew_snapshot-other to_state now actor pkg lin fresh other r in
      let consistent = rw same at k in
      (
        put "current_state" (str to_state) more,
        d,
        append_transition-consistent fresh more s to_state now actor id consistent edge a,
        get-put_self "current_state" (str to_state) more,
      )
