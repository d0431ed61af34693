-- ===== src/Lifecycle/Laws.antt =====
-- What the edges of src/intent_packages/lifecycle.py allow: which states end, how approval is
-- reached, and that execution is never reached around it.
use intent_packages.Prelude.{
  String, ◌≡◌, refl, ◌↔◌, Bool, true, false, not, ◌&&◌, List, [], ◌∷◌, arith, ◌==◌, eq_iff, mem,
  all, mem-all,
}
use intent_packages.Lifecycle.{
  states, Table, legal_transitions, terminal, targets, is_legal_transition,
}

-- A test on both ends of an edge, at each edge of a table.
unfoldable pub edges_pass : (String → String → Bool) → Table → Bool
unfolding all
edges_pass p [] = true
edges_pass p ((s, ts) ∷ rest) = all (p s) ts && edges_pass p rest

edges_pass-targets :
    (p : String → String → Bool) (s t : String) (table : Table)
    → edges_pass p table ≡ true
    → mem t (targets table s) ≡ true
    → p s t ≡ true
unfolding edges_pass targets mem
edges_pass-targets p s t [] h m = ground arith
edges_pass-targets p s t ((r, ts) ∷ rest) h m =
    ground (arith, eq_iff s r, mem-all (p s) t ts, edges_pass-targets p s t rest)

module _ (p : String → String → Bool) (checked : edges_pass p legal_transitions ≡ true) where
  pub by_edges : (s t : String) → is_legal_transition s t ≡ true → p s t ≡ true
  unfolding is_legal_transition
  by_edges s t h = edges_pass-targets p s t legal_transitions checked h

unfoldable pub implies : Bool → Bool → Bool
implies true b = b
implies false b = true

stays_inside : String → String → Bool
stays_inside s t = mem s states && mem t states && not (mem s terminal)

stays_inside_table : edges_pass stays_inside legal_transitions ≡ true
unfolding edges_pass stays_inside mem
stays_inside_table = refl

-- Both ends of a legal edge are states, and the first is not terminal.
pub legal-in_states :
    (s t : String)
    → is_legal_transition s t ≡ true
    → (mem s states ≡ true) × (mem t states ≡ true) × (mem s terminal ≡ false)
unfolding stays_inside
legal-in_states s t h = ground (arith, by_edges stays_inside stays_inside_table s t h)

is_nil : List String → Bool
is_nil [] = true
is_nil (x ∷ xs) = false

same : Bool → Bool → Bool
same true b = b
same false b = not b

same_iff : (b : Bool) (xs : List String) → same b (is_nil xs) ≡ true → (b ≡ true) ↔ (xs ≡ [])
unfolding same is_nil
same_iff true [] h = (λ _. refl, λ _. refl)
same_iff true (x ∷ xs) h = absurd (cc)
same_iff false [] h = absurd (cc)
same_iff false (x ∷ xs) h = (λ e. cc, λ e. cc)

ends : String → Bool
ends s = same (mem s terminal) (is_nil (targets legal_transitions s))

ends_table : all ends states ≡ true
unfolding ends all mem is_nil same targets
ends_table = refl

-- A state is listed as terminal exactly when no edge leaves it.
pub terminal_exact :
    (s : String)
    → mem s states ≡ true
    → (mem s terminal ≡ true) ↔ (targets legal_transitions s ≡ [])
unfolding ends
terminal_exact s h = same_iff (mem s terminal) _ (mem-all ends s states ends_table h)

to_approved : String → String → Bool
to_approved s t = implies (t == "approved") (s == "ready_for_review")

to_approved_table : edges_pass to_approved legal_transitions ≡ true
unfolding edges_pass to_approved implies
to_approved_table = refl

-- The only edge into `approved` leaves `ready_for_review`.
pub approved-from_review :
    (s : String) → is_legal_transition s "approved" ≡ true → s ≡ "ready_for_review"
unfolding to_approved implies
approved-from_review s h =
    (eq_iff s "ready_for_review").0 (by_edges to_approved to_approved_table s "approved" h)
