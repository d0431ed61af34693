-- ===== src/Lifecycle/Runs.antt =====
-- Runs of a package through its life: `do_transition` along an edge, `do_revise` back to draft and
-- `do_supersede` (src/intent_packages/operations.py), by the states of
-- src/intent_packages/lifecycle.py.
use intent_packages.Prelude.{
  String, ◌≡◌, refl, Bool, true, false, not, ◌&&◌, ◌||◌, List, [], ◌∷◌, arith, ◌==◌, mem, all,
  mem-all, if◌then◌else◌,
}
use intent_packages.Lifecycle.{
  states, terminal, legal_transitions, revise_legal_from, is_legal_transition,
}
use intent_packages.Lifecycle.Laws.{by_edges, edges_pass, implies}

-- One operation on a package in state `s`, by the states alone. A move into `approved` is any legal
-- edge: `transition` stands for the edge that `do_approve` follows and for a plain `do_transition`.
pub data Move (s : String) (t : String) : Type 0 where
  transition : is_legal_transition s t ≡ true → Move s t
  revise : mem s revise_legal_from ≡ true → t ≡ "draft" → Move s t
  supersede : is_legal_transition s "superseded" ≡ true → t ≡ "superseded" → Move s t

-- A run from `s`, with the states entered since, the latest first.
pub data Run (s : String) : String → List String → Type 0 where
  here : Run s s []
  next :
      {t : String} {seen : List String} (u : String) → Run s t seen → Move t u → Run s u (u ∷ seen)

-- The states in which work is under way or done.
abbrev pub working : List String
working =
    "executable" ∷ "in_execution" ∷ "verification" ∷ "completed" ∷ "follow_up_due" ∷ "blocked" ∷ []

enters_work : String → String → Bool
enters_work s t = implies (mem t working) (mem s working || s == "approved")

enters_work_table : edges_pass enters_work legal_transitions ≡ true
unfolding edges_pass enters_work implies mem all
enters_work_table = refl

-- Read from the latest state back: `approved` comes before any `draft`.
unfoldable pub entered_approved : List String → Bool
entered_approved [] = false
entered_approved (s ∷ seen) =
    if s == "approved" then true else if s == "draft" then false else entered_approved seen

abbrev Keeps : String → List String → Type 0
Keeps t seen = implies (mem t working || t == "approved") (entered_approved seen) ≡ true

plain_working : String → Bool
plain_working t = not (t == "draft")

plain_working_table : all plain_working working ≡ true
unfolding all plain_working
plain_working_table = refl

Move-Keeps :
    (s t : String) (seen : List String)
    → is_legal_transition s t ≡ true
    → Keeps s seen
    → Keeps t (t ∷ seen)
unfolding implies entered_approved enters_work plain_working
Move-Keeps s t seen h k = ground (
  arith,
  by_edges enters_work enters_work_table s t h,
  mem-all plain_working t working plain_working_table,
)

idle : (t : String) (seen : List String) → (mem t working || t == "approved") ≡ false → Keeps t seen
unfolding implies
idle t seen h = rw h

Keeps-draft : (seen : List String) → Keeps "draft" seen
unfolding mem
Keeps-draft seen = idle "draft" seen refl

Keeps-superseded : (seen : List String) → Keeps "superseded" seen
unfolding mem
Keeps-superseded seen = idle "superseded" seen refl

Run-Keeps : {s t : String} {seen : List String} → Run s t seen → Keeps s [] → Keeps t seen
Run-Keeps here h = h
Run-Keeps {s} (next {t = t} {seen = seen} u r (transition m)) h =
    Move-Keeps t u seen m (Run-Keeps r h)
Run-Keeps (next u r (revise m e)) h = rw e (Keeps-draft _)
Run-Keeps (next u r (supersede m e)) h = rw e (Keeps-superseded _)

-- From a draft, whatever moves are made, a package is in a working state only if it entered the state
-- `approved` since it last became a draft.
pub Run-entered_approved :
    {t : String} {seen : List String}
    → Run "draft" t seen
    → mem t working ≡ true
    → entered_approved seen ≡ true
unfolding implies
Run-entered_approved r h = ground (arith, Run-Keeps r (Keeps-draft []))

-- A shortest way to a terminal state.
route : String → List String
route s =
    if mem s (
      "draft" ∷ "needs_clarification" ∷ "ready_for_review" ∷ "approved" ∷ "executable"
      ∷ "in_execution" ∷ "blocked" ∷ [])
    then "cancelled" ∷ []
    else if s == "verification"
    then "failed" ∷ []
    else if mem s ("completed" ∷ "follow_up_due" ∷ [])
    then "closed" ∷ []
    else if s == "rejected"
    then "draft" ∷ "cancelled" ∷ []
    else []

-- Each state of the list follows the one before it by a legal edge, and the last is terminal.
unfoldable pub ends_legally : String → List String → Bool
ends_legally s [] = mem s terminal
ends_legally s (t ∷ ts) = is_legal_transition s t && ends_legally t ts

route_table : all (λ s. ends_legally s (route s)) states ≡ true
unfolding all ends_legally route is_legal_transition mem
route_table = refl

-- No state is a dead end: legal transitions lead from each to a terminal one.
pub can_end : (s : String) → mem s states ≡ true → (ts : List String) × (ends_legally s ts ≡ true)
can_end s h = (route s, mem-all (λ r. ends_legally r (route r)) s states route_table h)
