-- ===== src/Validate/Warnings/Laws.antt =====
-- Check O of src/intent_packages/validate.py beside `do_approve` of
-- src/intent_packages/operations.py.
use intent_packages.Prelude.{String, ◌≡◌, refl, ap, ◌∙◌, false, Option, none, some, []}
use intent_packages.Value.{
  Value, null, bool, int, str, list, dict, float, date, bytes, other, nil, cons, Entries, truthy,
}
use intent_packages.Value.Dict.{lookup, get, item, subscript}
use intent_packages.Outcome.{Outcome, ok, raised, key_error, ok-inj}
use intent_packages.Host.{Host}
use intent_packages.Loader.{load_package}
use intent_packages.Operations.{Event, World}
use intent_packages.Operations.Approve.{do_approve}
use intent_packages.Operations.Approve.Returns.{do_approve-ok}
use intent_packages.Validate.Warnings.{list_warning, inside, question_warnings}

falsy-list_warning : (v : Value) → truthy v ≡ false → list_warning v ≡ []
unfolding list_warning truthy
falsy-list_warning (list nil) h = refl
falsy-list_warning (list (cons v vs)) h = absurd (cc)
falsy-list_warning null h = refl
falsy-list_warning (bool b) h = refl
falsy-list_warning (int n) h = refl
falsy-list_warning (str s) h = refl
falsy-list_warning (dict d) h = refl
falsy-list_warning (float n) h = refl
falsy-list_warning (date n) h = refl
falsy-list_warning (bytes n) h = refl
falsy-list_warning (other b n) h = refl

found-get :
    (o : Option Value) (k : String) (v : Value)
    → elim o [ none ↦ raised (key_error k) | some u ↦ ok u ] ≡ ok v
    → elim o [ none ↦ null | some u ↦ u ] ≡ v
found-get none k v h = absurd (cc)
found-get (some u) k v h = ok-inj h

item-get : (d : Entries) (k : String) (v : Value) → item d k ≡ ok v → get d k ≡ v
unfolding item get
item-get d k v h = found-get (lookup k d) k v h

subscript-inside : (u v : Value) (k : String) → subscript u k ≡ ok v → inside u k ≡ v
unfolding subscript
subscript-inside (dict d) v k h = item-get d k v h
subscript-inside u v k h = absurd (cc)

module _ (H : Host) (emit : Event → Outcome (Option String)) where
  -- When `do_approve` returns, check O warns of nothing in the package that it approved.
  pub do_approve-no_warning :
      (approver commit now : String) (w w' : World)
      → do_approve H emit approver commit now w ≡ (ok tt, w')
      → (pkg : Entries) × (load_package H w.dir ≡ ok pkg) × (question_warnings pkg ≡ [])
  unfolding question_warnings
  do_approve-no_warning approver commit now w w' h =
      let (pkg, _, _, scope, questions, _, _, p, _, _, _, s, q, o, _, _, _) =
        do_approve-ok H emit approver commit now w w' h in
      let e = item-get pkg "scope" scope s in
      let f = subscript-inside scope questions "open_questions" q in
      (
        pkg,
        p,
        ap (λ v. list_warning (inside v "open_questions")) e
            ∙ (ap list_warning f ∙ falsy-list_warning questions o),
      )
