-- ===== src/Operations/Steps.antt =====
-- How the steps of an operation of src/intent_packages/operations.py answer, and what they leave of
-- the package directory.
use intent_packages.Prelude.{
  String, ◌≡◌, refl, sym, ap, ◌⊎◌, inl, inr, Bool, true, false, Option, none, some, if◌then◌else◌,
}
use intent_packages.Outcome.{Outcome, ok, raised, emit_error}
use intent_packages.Host.{Text}
use intent_packages.Edit.{set_status_text, set_revision_text}
use intent_packages.Value.{ℤ}
use intent_packages.Operations.{
  Event, World, Op, stored, edited, sent, sent_or_refused, resume, with_package, with_event,
  refuse_if, set_status_in_file, set_revision_in_file, emit_best_effort, emit_or_refuse,
}

-- A step that only reads, and what follows it.
pub resume-ok {ℓ κ} :
    {A : Type ℓ} {B : Type κ} (m : Outcome A) (w : World) (k : A → Op B) {b : B} {w' : World}
    → resume (m, w) k ≡ (ok b, w')
    → (a : A) × (m ≡ ok a) × (k a w ≡ (ok b, w'))
unfolding resume
resume-ok (ok a) w k h = (a, refl, h)
resume-ok (raised e) w k h = absurd (cc)

-- A step that writes.
pub resume-ok_write {ℓ κ} :
    {A : Type ℓ} {B : Type κ} (m : Outcome A × World) (k : A → Op B) {b : B} {w' : World}
    → resume m k ≡ (ok b, w')
    → (a : A) × (w1 : World) × (m ≡ (ok a, w1)) × (k a w1 ≡ (ok b, w'))
unfolding resume
resume-ok_write (ok a, w) k h = (a, w, refl, h)
resume-ok_write (raised e, w) k h = absurd (cc)

pub refuse_if-ok {κ} :
    {B : Type κ} (b : Bool) (why : String) (w : World) (k : Op B) {r : B} {w' : World}
    → resume (refuse_if b why w) (λ _. k) ≡ (ok r, w')
    → (b ≡ false) × (k w ≡ (ok r, w'))
unfolding resume
refuse_if-ok true why w k h = absurd (cc)
refuse_if-ok false why w k h = (refl, h)

stored-ok :
    (o : Option Text) (w w' : World)
    → stored o w ≡ (ok tt, w')
    → (t : Text) × (o ≡ some t) × (w' ≡ with_package t w)
unfolding stored
stored-ok none w w' h = absurd (cc)
stored-ok (some t) w w' h = (t, refl, sym (ap (λ p. p.1) h))

edited-ok :
    (o : Option Text) (edit : Text → Option Text) (w w' : World)
    → edited o edit w ≡ (ok tt, w')
    → (text : Text) × (t : Text) × (o ≡ some text) × (edit text ≡ some t) × (w' ≡ with_package t w)
unfolding edited
edited-ok none edit w w' h = absurd (cc)
edited-ok (some text) edit w w' h =
    let (t, e, u) = stored-ok (edit text) w w' h in (text, t, refl, e, u)

-- The status line was replaced, and nothing else of the world.
pub set_status-ok :
    (status : String) (w w' : World)
    → set_status_in_file status w ≡ (ok tt, w')
    → (text : Text) × (t : Text) × (w.dir.package_yaml ≡ some text)
      × (set_status_text status text ≡ some t)
      × (w' ≡ with_package t w)
unfolding set_status_in_file
set_status-ok status w w' h = edited-ok w.dir.package_yaml (set_status_text status) w w' h

-- The same for the line of the revision.
pub set_revision-ok :
    (n : ℤ) (w w' : World)
    → set_revision_in_file n w ≡ (ok tt, w')
    → (text : Text) × (t : Text) × (w.dir.package_yaml ≡ some text)
      × (set_revision_text n text ≡ some t)
      × (w' ≡ with_package t w)
unfolding set_revision_in_file
set_revision-ok n w w' h = edited-ok w.dir.package_yaml (set_revision_text n) w w' h

sent-dir :
    (e : Event) (m : Outcome (Option String)) (w w' : World) {id : Option String}
    → sent e m w ≡ (ok id, w')
    → (w'.dir ≡ w.dir)
unfolding sent
sent-dir e (ok id) w w' h = sym (ap (λ p. p.1.dir) h)
sent-dir e (raised (emit_error why)) w w' h = sym (ap (λ p. p.1.dir) h)
sent-dir e (raised x) w w' h = absurd (cc)

module _ (emit : Event → Outcome (Option String)) where
  -- An emit leaves the directory.
  pub emit_best_effort-dir :
      (e : Event) (w w' : World) {id : Option String}
      → emit_best_effort emit e w ≡ (ok id, w')
      → (w'.dir ≡ w.dir)
  unfolding emit_best_effort
  emit_best_effort-dir e w w' h = sent-dir e (emit e) w w' h

  sent_or_refused-ok :
      (e : Event) (m : Outcome (Option String)) (w w' : World) {id : Option String}
      → sent_or_refused e m w ≡ (ok id, w')
      → (m ≡ ok id) × (w' ≡ with_event e w)
  unfolding sent_or_refused
  sent_or_refused-ok e (ok id) w w' h = (ap (λ p. p.0) h, sym (ap (λ p. p.1) h))
  sent_or_refused-ok e (raised (emit_error why)) w w' h = absurd (cc)
  sent_or_refused-ok e (raised x) w w' h = absurd (cc)

  -- An emit that is not refused took place.
  pub emit_or_refuse-ok :
      (e : Event) (w w' : World) {id : Option String}
      → emit_or_refuse emit e w ≡ (ok id, w')
      → (emit e ≡ ok id) × (w' ≡ with_event e w)
  unfolding emit_or_refuse
  emit_or_refuse-ok e w w' h = sent_or_refused-ok e (emit e) w w' h

-- A predicate on the world after a step that only reads and what follows it, whatever is answered.
pub resume-any {ℓ κ μ} :
    {A : Type ℓ} {B : Type κ} (P : World → Type μ) (m : Outcome A) (w : World) (k : A → Op B)
    → P w
    → ((a : A) → m ≡ ok a → P (k a w).1)
    → P (resume (m, w) k).1
unfolding resume
resume-any P (ok a) w k p f = f a refl
resume-any P (raised e) w k p f = p

-- The same for a step that writes.
pub resume-any_write {ℓ κ μ} :
    {A : Type ℓ} {B : Type κ} (P : World → Type μ) (m : Outcome A × World) (k : A → Op B)
    → P m.1
    → ((a : A) → m.0 ≡ ok a → P (k a m.1).1)
    → P (resume m k).1
unfolding resume
resume-any_write P (ok a, w) k p f = f a refl
resume-any_write P (raised e, w) k p f = p

pub refuse_if-any {κ μ} :
    {B : Type κ} (P : World → Type μ) (b : Bool) (why : String) (w : World) (k : Op B)
    → P w
    → (b ≡ false → P (k w).1)
    → P (resume (refuse_if b why w) (λ _. k)).1
unfolding resume
refuse_if-any P true why w k p f = p
refuse_if-any P false why w k p f = f refl

pub if-any {κ μ} :
    {B : Type κ} (P : World → Type μ) (b : Bool) (m n : Op B) (w : World)
    → P (m w).1
    → P (n w).1
    → P ((if b then m else n) w).1
if-any P true m n w p q = p
if-any P false m n w p q = q

stored-events : (o : Option Text) (w : World) → (stored o w).1.events ≡ w.events
unfolding stored
stored-events none w = refl
stored-events (some t) w = refl

edited-events :
    (o : Option Text) (edit : Text → Option Text) (w : World)
    → (edited o edit w).1.events ≡ w.events
unfolding edited
edited-events none edit w = refl
edited-events (some text) edit w = stored-events (edit text) w

-- An edit of the status line sends nothing, whatever it answers.
pub set_status-events :
    (status : String) (w : World) → (set_status_in_file status w).1.events ≡ w.events
unfolding set_status_in_file
set_status-events status w = edited-events w.dir.package_yaml (set_status_text status) w

-- A fatal emit that answers was recorded; one that raises left the world.
sent_or_refused-world :
    (e : Event) (m : Outcome (Option String)) (w : World) {id : Option String}
    → (sent_or_refused e m w).0 ≡ ok id
    → (sent_or_refused e m w).1 ≡ with_event e w
unfolding sent_or_refused
sent_or_refused-world e (ok id) w h = refl
sent_or_refused-world e (raised (emit_error why)) w h = absurd (cc)
sent_or_refused-world e (raised x) w h = absurd (cc)

sent_or_refused-cases :
    (e : Event) (m : Outcome (Option String)) (w : World)
    → ((sent_or_refused e m w).1 ≡ with_event e w) ⊎ ((sent_or_refused e m w).1 ≡ w)
unfolding sent_or_refused
sent_or_refused-cases e (ok id) w = inl refl
sent_or_refused-cases e (raised (emit_error why)) w = inr refl
sent_or_refused-cases e (raised x) w = inr refl

module _ (emit : Event → Outcome (Option String)) where
  pub emit_or_refuse-world :
      (e : Event) (w : World) {id : Option String}
      → (emit_or_refuse emit e w).0 ≡ ok id
      → (emit_or_refuse emit e w).1 ≡ with_event e w
  unfolding emit_or_refuse
  emit_or_refuse-world e w h = sent_or_refused-world e (emit e) w h

  pub emit_or_refuse-cases :
      (e : Event) (w : World)
      → ((emit_or_refuse emit e w).1 ≡ with_event e w) ⊎ ((emit_or_refuse emit e w).1 ≡ w)
  unfolding emit_or_refuse
  emit_or_refuse-cases e w = sent_or_refused-cases e (emit e) w
