-- ===== src/Lifecycle.antt =====
-- src/intent_packages/lifecycle.py: the states of a package and the edges between them.
pub mod Laws
pub mod Runs
use intent_packages.Prelude.{String, Bool, ◌==◌, List, [], ◌∷◌, mem, if◌then◌else◌}

abbrev pub states : List String
states =
    "draft" ∷ "needs_clarification" ∷ "ready_for_review" ∷ "approved" ∷ "executable"
    ∷ "in_execution" ∷ "verification" ∷ "completed" ∷ "follow_up_due" ∷ "blocked" ∷ "rejected"
    ∷ "closed" ∷ "cancelled" ∷ "failed" ∷ "superseded" ∷ []

abbrev pub Table : Type 0
Table = List (String × List String)

abbrev pub legal_transitions : Table
legal_transitions =
    ("draft", "needs_clarification" ∷ "ready_for_review" ∷ "cancelled" ∷ [])
    ∷ ("needs_clarification", "draft" ∷ "ready_for_review" ∷ "cancelled" ∷ [])
    ∷ ("ready_for_review", "approved" ∷ "rejected" ∷ "needs_clarification" ∷ "cancelled" ∷ [])
    ∷ ("approved", "executable" ∷ "superseded" ∷ "cancelled" ∷ [])
    ∷ ("executable", "in_execution" ∷ "blocked" ∷ "superseded" ∷ "cancelled" ∷ [])
    ∷ ("in_execution", "verification" ∷ "blocked" ∷ "failed" ∷ "superseded" ∷ "cancelled" ∷ [])
    ∷ ("verification", "completed" ∷ "in_execution" ∷ "failed" ∷ "blocked" ∷ "superseded" ∷ [])
    ∷ ("completed", "follow_up_due" ∷ "closed" ∷ [])
    ∷ ("follow_up_due", "closed" ∷ [])
    ∷ ("blocked", "executable" ∷ "in_execution" ∷ "cancelled" ∷ [])
    ∷ ("rejected", "draft" ∷ [])
    ∷ ("closed", [])
    ∷ ("cancelled", [])
    ∷ ("failed", [])
    ∷ ("superseded", [])
    ∷ []

abbrev pub terminal : List String
terminal = "closed" ∷ "cancelled" ∷ "failed" ∷ "superseded" ∷ []

abbrev pub drift_locked : List String
drift_locked =
    "ready_for_review" ∷ "approved" ∷ "executable" ∷ "in_execution" ∷ "verification" ∷ "completed"
    ∷ "follow_up_due" ∷ "blocked" ∷ "rejected" ∷ []

abbrev pub revise_legal_from : List String
revise_legal_from =
    "draft" ∷ "needs_clarification" ∷ "ready_for_review" ∷ "rejected" ∷ "approved" ∷ []

-- `table.get(src, frozenset())`
unfoldable pub targets : Table → String → List String
targets [] src = []
targets ((s, ts) ∷ rest) src = if src == s then ts else targets rest src

unfoldable pub is_legal_transition : String → String → Bool
unfolding targets mem
is_legal_transition src dst = mem dst (targets legal_transitions src)
