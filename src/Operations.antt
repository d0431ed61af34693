-- ===== src/Operations.antt =====
-- src/intent_packages/operations.py: the operations that change a package directory. An operation
-- passes the world on, also when it raises: what was written before stays written.
pub mod Transition
pub mod Approvers
pub mod Approve
pub mod Revise
pub mod Verify
pub mod Steps
use intent_packages.Prelude.{
  ℕ, String, ◌≡◌, refl, Bool, true, false, Option, none, some, List, [], ◌∷◌, ◌++◌, if◌then◌else◌,
}
use intent_packages.Value.{Value, ℤ, Entries, is_hashable, str}
use intent_packages.Outcome.{
  Outcome, ok, raised, Exn, operation_error, emit_error, value_error, type_error,
}
use intent_packages.Lifecycle.{is_legal_transition}
use intent_packages.Host.{Host, Text, PackageDir}
use intent_packages.Edit.{set_status_text, set_revision_text}

-- What an emitter is called with.
pub record Event : Type 0 where
  pub action : String
  pub ref : Value
  pub evidence : Entries

-- The package directory, and the events that were emitted, in order.
pub record World : Type 0 where
  pub dir : PackageDir
  pub events : List Event

abbrev pub Op {ℓ} : Type ℓ → Type ℓ
Op A = World → Outcome A × World

unfoldable pub resume {ℓ κ} :
    {A : Type ℓ} {B : Type κ} → Outcome A × World → (A → Op B) → Outcome B × World
resume (ok a, w) f = f a w
resume (raised e, w) f = (raised e, w)

infixl 5 ◌>>=◌ ◌>>◌
abbrev pub ◌>>=◌ {ℓ κ} : {A : Type ℓ} {B : Type κ} → Op A → (A → Op B) → Op B
m >>= f = λ w. resume (m w) f

abbrev pub ◌>>◌ {ℓ} : {B : Type ℓ} → Op (Unit {0}) → Op B → Op B
m >> k = m >>= λ _. k

abbrev pub pure {ℓ} : {A : Type ℓ} → A → Op A
pure a = λ w. (ok a, w)

-- What only reads.
abbrev pub reading {ℓ} : {A : Type ℓ} → (PackageDir → Outcome A) → Op A
reading f = λ w. (f w.dir, w)

abbrev pub lift {ℓ} : {A : Type ℓ} → Outcome A → Op A
lift m = λ w. (m, w)

abbrev pub refuse_if : Bool → String → Op (Unit {0})
refuse_if b why = λ w. ((if b then raised (operation_error why) else ok tt), w)

abbrev pub with_package : Text → World → World
with_package text w = record w { dir = record (w.dir) { package_yaml = some text } }

abbrev pub with_lineage : Text → World → World
with_lineage text w = record w { dir = record (w.dir) { lineage_yaml = some text } }

abbrev pub with_event : Event → World → World
with_event e w = record w { events = w.events ++ e ∷ [] }

unfoldable pub stored : Option Text → World → Outcome (Unit {0}) × World
stored none w = (raised (operation_error "could not find a top-level line to update"), w)
stored (some text) w = (ok tt, with_package text w)

-- `read_text`, the edit, `write_text`.
unfoldable pub edited : Option Text → (Text → Option Text) → World → Outcome (Unit {0}) × World
unfolding stored
edited none edit w = (raised (value_error "package.yaml cannot be read"), w)
edited (some text) edit w = stored (edit text) w

unfoldable pub set_status_in_file : String → Op (Unit {0})
unfolding edited set_status_text
set_status_in_file status w = edited w.dir.package_yaml (set_status_text status) w

unfoldable pub set_revision_in_file : ℤ → Op (Unit {0})
unfolding edited set_revision_text
set_revision_in_file n w = edited w.dir.package_yaml (set_revision_text n) w

module _ (H : Host) where
  -- `lineage.write`
  unfoldable pub write_lineage : Entries → Op (Unit {0})
  write_lineage lin w = (ok tt, with_lineage (H.dump lin) w)

-- `lifecycle.is_legal_transition(current, to)` for a state that may be any value.
unfoldable pub is_legal_from : Value → String → Outcome Bool
unfolding is_legal_transition
is_legal_from (str s) t = ok (is_legal_transition s t)
is_legal_from v t = if is_hashable v then ok false else raised type_error

unfoldable pub sent : Event → Outcome (Option String) → World → Outcome (Option String) × World
sent e (ok id) w = (ok id, with_event e w)
sent e (raised (emit_error why)) w = (ok none, w)
sent e (raised x) w = (raised x, w)

unfoldable pub sent_or_refused :
    Event → Outcome (Option String) → World → Outcome (Option String) × World
sent_or_refused e (ok id) w = (ok id, with_event e w)
sent_or_refused e (raised (emit_error why)) w =
    (raised (operation_error "approval emit failed, aborting"), w)
sent_or_refused e (raised x) w = (raised x, w)

module _ (emit : Event → Outcome (Option String)) where
  -- `try: event_id = emitter.emit(…)`, `except EmitError: event_id = None`
  unfoldable pub emit_best_effort : Event → Op (Option String)
  unfolding sent
  emit_best_effort e w = sent e (emit e) w

  -- `except EmitError as exc: raise OperationError(…)`
  unfoldable pub emit_or_refuse : Event → Op (Option String)
  unfolding sent_or_refused
  emit_or_refuse e w = sent_or_refused e (emit e) w
