-- ===== src/Operations/Revise/Laws.antt =====
-- What `do_revise` and `do_supersede` of src/intent_packages/operations.py have done when they return.
use intent_packages.Prelude.{String, ◌≡◌, sym, ap, ◌∙◌, true, Option, some}
use intent_packages.Value.{Value, str, int, ℤ, Entries, in_set, is_text}
use intent_packages.Value.Dict.{item, get}
use intent_packages.Value.Equal.{value_eq}
use intent_packages.Outcome.{Outcome, ok, raised}
use intent_packages.Host.{Host, Text, PackageDir}
use intent_packages.Loader.{load_package, load_lineage}
use intent_packages.Canonical.{package_hash}
use intent_packages.Lifecycle.{revise_legal_from, is_legal_transition}
use intent_packages.Lineage.{append_transition, snapshot_revision}
use intent_packages.Edit.{set_revision_text}
use intent_packages.Operations.{Event, World, with_package, write_lineage}
use intent_packages.Operations.Steps.{
  resume-ok, resume-ok_write, refuse_if-ok, set_status-ok, emit_best_effort-dir,
}
use intent_packages.Operations.Transition.Laws.{from_not, legal-text, Entered}
use intent_packages.Operations.Revise.{
  next_revision, mark_superseded, loadable, enact_supersession, do_supersede,
}

loadable-ok : (m : Outcome Entries) (d : Entries) → loadable m ≡ ok d → m ≡ ok d
unfolding loadable
loadable-ok (ok e) d h = h
loadable-ok (raised e) d h = absurd (cc)

module _ (H : Host) (emit : Event → Outcome (Option String)) where
  -- The package as it reads after the edit of its revision was recorded, and a draft entered.
  abbrev pub DraftRecorded : Entries → Value → ℤ → String → String → World → World → Type 0
  DraftRecorded lin current n actor now w w' =
      (reloaded : Entries) × (h : String) × (fresh : Entries) × (id : Option String)
      × (more : Entries) × (load_package H w.dir ≡ ok reloaded)
      × (package_hash H reloaded ≡ ok h)
      × (snapshot_revision lin (int n) h now actor ≡ ok fresh)
      × (append_transition fresh "revision" current "draft" now actor id ≡ ok more)
      × Entered H w.dir "draft" more w'.dir

  -- What holds when a revision has returned.
  abbrev pub Revised : String → String → World → World → Type 0
  Revised actor now w w' =
      (lin : Entries) × (current : Value) × (pkg : Entries) × (revision : Value) × (n : ℤ)
      × (text : Text) × (t : Text) × (load_lineage H w.dir ≡ ok lin)
      × (item lin "current_state" ≡ ok current)
      × (in_set current revise_legal_from ≡ ok true)
      × (load_package H w.dir ≡ ok pkg)
      × (item pkg "revision" ≡ ok revision)
      × (next_revision revision ≡ ok n)
      × (w.dir.package_yaml ≡ some text)
      × (set_revision_text n text ≡ some t)
      × DraftRecorded lin current n actor now (with_package t w) w'

  enact_supersession-ok :
      (pkg lin : Entries) (current : Value) (new_id actor now : String) (w w' : World)
      → enact_supersession H emit pkg lin current new_id actor now w ≡ (ok tt, w')
      → (id : Option String) × (more : Entries) × (append_transition lin "supersession" current
            "superseded" now actor id
          ≡ ok more)
        × Entered H w.dir "superseded" (mark_superseded new_id more) w'.dir
  unfolding enact_supersession write_lineage
  enact_supersession-ok pkg lin current new_id actor now w w' h0 =
      let (ref, _, h1) = resume-ok _ w _ h0 in
      let (id, w1, e, h2) = resume-ok_write _ _ h1 in
      let (more, m, h3) = resume-ok _ w1 _ h2 in
      let (_, _, h4) = resume-ok _ _ _ h3 in
      let (text, t, q, r, u) = set_status-ok "superseded" _ w' h4 in
      let d = emit_best_effort-dir emit _ w w1 e in
      (
        id,
        more,
        m,
        (
          ap (λ x. x.dir.lineage_yaml) u,
          (text, t, sym (ap (λ x. x.package_yaml) d) ∙ q, r, ap (λ x. x.dir.package_yaml) u),
        ),
      )

  -- What holds when a supersession has returned.
  abbrev pub Superseded : (String → PackageDir) → String → String → String → World → World → Type 0
  Superseded beside new_id actor now w w' =
      (lin : Entries) × (s : String) × (pkg : Entries) × (next : Entries) × (id : Option String)
      × (more : Entries) × (load_lineage H w.dir ≡ ok lin)
      × (item lin "current_state" ≡ ok (str s))
      × (is_legal_transition s "superseded" ≡ true)
      × (load_package H w.dir ≡ ok pkg)
      × (load_package H (beside new_id) ≡ ok next)
      × (is_text (get next "package_id") new_id ≡ true)
      × (value_eq (get next "supersedes") (get pkg "package_id") ≡ true)
      × (append_transition lin "supersession" (str s) "superseded" now actor id ≡ ok more)
      × Entered H w.dir "superseded" (mark_superseded new_id more) w'.dir

  -- A supersession that returns left a state that may be superseded, in favour of a package that
  -- loads, bears the name given and says that it supersedes this one.
  pub do_supersede-ok :
      (beside : String → PackageDir) (new_id actor now : String) (w w' : World)
      → do_supersede H emit beside new_id actor now w ≡ (ok tt, w')
      → Superseded beside new_id actor now w w'
  unfolding do_supersede
  do_supersede-ok beside new_id actor now w w' h0 =
      let (lin, l, h1) = resume-ok _ w _ h0 in
      let (current, c, h2) = resume-ok _ w _ h1 in
      let (legal, g, h3) = resume-ok _ w _ h2 in
      let (m, h4) = refuse_if-ok _ _ w _ h3 in
      let (pkg, p, h5) = resume-ok _ w _ h4 in
      let (next, r, h6) = resume-ok _ w _ h5 in
      let (i, h7) = refuse_if-ok _ _ w _ h6 in
      let (j, h8) = refuse_if-ok _ _ w _ h7 in
      let (s, cs, edge) = legal-text current "superseded" (g ∙ ap ok (from_not legal m)) in
      let (id, more, a, e) = enact_supersession-ok pkg lin current new_id actor now w w' h8 in
      (
        lin,
        s,
        pkg,
        next,
        id,
        more,
        l,
        c ∙ ap ok cs,
        edge,
        p,
        loadable-ok (load_package H (beside new_id)) next r,
        from_not _ i,
        from_not _ j,
        sym (ap (λ x. append_transition lin "supersession" x "superseded" now actor id) cs) ∙ a,
        e,
      )
