-- ===== src/Lineage.antt =====
-- src/intent_packages/lineage.py: reading and writing the ledger of a package, as a raw mapping.
-- An order between revision numbers that are neither integers nor texts is not modelled: it raises.
use Prim.Native.Nat.{Ordering}
use Prim.Native.String.{compare}
use intent_packages.Prelude.{
  String, Bool, true, false, Option, none, some, List, [], ◌∷◌, ◌++◌, ltb, if◌then◌else◌,
}
use intent_packages.Value.{
  Value, null, bool, int, str, list, dict, ℤ, pos, negsuc, nil, cons, Entries, to_list, of_list,
  scalar_eq,
}
use intent_packages.Value.Dict.{lookup, item, put, of_pairs, subscript}
use intent_packages.Outcome.{Outcome, ok, raised, type_error, attribute_error, value_error, ◌>>=◌}

unfoldable pub lt_ℤ : ℤ → ℤ → Bool
lt_ℤ (pos a) (pos b) = ltb a b
lt_ℤ (pos a) (negsuc b) = false
lt_ℤ (negsuc a) (pos b) = true
lt_ℤ (negsuc a) (negsuc b) = ltb b a

abbrev as_number : Value → Option ℤ
as_number (int n) = some n
as_number (bool true) = some (pos 1)
as_number (bool false) = some (pos 0)
as_number _ = none

abbrev below : Option ℤ → Option ℤ → Outcome Bool
below (some m) (some n) = ok (lt_ℤ m n)
below _ _ = raised type_error

-- `v < w`
unfoldable pub value_lt : Value → Value → Outcome Bool
unfolding lt_ℤ
value_lt (str s) (str t) = ok (elim (compare s t) [ Ordering.lt ↦ true | _ ↦ false ])
value_lt v w = below (as_number v) (as_number w)

-- `max(rest, key=…)` with the best so far and its key; the first of equal keys stays.
unfoldable pub max_by_revision : Value → Value → List Value → Outcome Value
unfolding value_lt subscript
max_by_revision best key [] = ok best
max_by_revision best key (r ∷ rs) = subscript r "revision" >>= λ k.
    (value_lt key k >>= λ later.
    max_by_revision (if later then r else best) (if later then k else key) rs)

unfoldable pub latest : Value → Outcome Value
unfolding max_by_revision to_list subscript
latest (list nil) = raised (value_error "max() of an empty list")
latest (list (cons r rs)) = subscript r "revision" >>= λ k. max_by_revision r k (to_list rs)
latest _ = raised type_error

unfoldable pub current_revision_hash : Entries → Outcome Value
unfolding latest item subscript
current_revision_hash lineage =
    item lineage "revisions" >>= λ rs. (latest rs >>= λ r. subscript r "hash")

unfoldable pub entries_at : Option Value → Outcome (List Value)
unfolding to_list
entries_at none = ok []
entries_at (some (list xs)) = ok (to_list xs)
entries_at (some v) = raised attribute_error

-- `lineage.setdefault(key, [])`: the list that is there, or a fresh one. Only `append` is called on
-- it, which a value that is no list does not have.
unfoldable pub setdefault : String → Entries → Outcome (List Value)
unfolding entries_at lookup
setdefault k d = entries_at (lookup k d)

abbrev pub put_list : String → List Value → Entries → Entries
put_list k vs d = put k (list (of_list vs)) d

unfoldable pub append_to : String → Value → Entries → Outcome Entries
unfolding setdefault put of_list
append_to k v d = setdefault k d >>= λ vs. ok (put_list k (vs ++ v ∷ []) d)

-- An event id, `None` where the emit failed.
abbrev pub event_value : Option String → Value
event_value none = null
event_value (some id) = str id

abbrev pub transition_entry : String → Value → String → String → String → Option String → Entries
transition_entry kind src dst now actor event = of_pairs (
    ("kind", str kind)
    ∷ ("from", src)
    ∷ ("to", str dst)
    ∷ ("at", str now)
    ∷ ("actor", str actor)
    ∷ ("event_id", event_value event)
    ∷ [])

unfoldable pub append_transition :
    Entries → String → Value → String → String → String → Option String → Outcome Entries
unfolding append_to of_pairs
append_transition lineage kind src dst now actor event =
    append_to "transitions" (dict (transition_entry kind src dst now actor event)) lineage

abbrev pub revision_entry : Value → String → Value → String → Entries
revision_entry revision hash created author = of_pairs (
    ("revision", revision)
    ∷ ("hash", str hash)
    ∷ ("created_at", created)
    ∷ ("author", str author)
    ∷ [])

-- The entry that takes the place of an old one of the same number: it keeps the date of creation.
abbrev pub replacement : Value → String → String → String → Value → Value
replacement revision hash now author (dict old) = dict (
    put "snapshotted_at" (str now) (
      revision_entry revision hash (elim (lookup "created_at" old) [ none ↦ str now | some v ↦ v ])
        author))
replacement revision hash now author old = old

-- The loop over the recorded revisions; a fresh entry goes to the end.
unfoldable pub snapshot_loop : Value → String → String → String → List Value → Outcome (List Value)
unfolding subscript scalar_eq lookup put of_pairs
snapshot_loop revision hash now author [] =
    ok (dict (revision_entry revision hash (str now) author) ∷ [])
snapshot_loop revision hash now author (r ∷ rs) =
    let later = snapshot_loop revision hash now author rs >>= λ more. ok (r ∷ more) in
    subscript r "revision" >>= λ n.
    (if scalar_eq n revision then ok (replacement revision hash now author r ∷ rs) else later)

unfoldable pub snapshot_revision : Entries → Value → String → String → String → Outcome Entries
unfolding setdefault snapshot_loop put of_list
snapshot_revision lineage revision hash now author = setdefault "revisions" lineage >>= λ rs.
    (snapshot_loop revision hash now author rs >>= λ rs'. ok (put_list "revisions" rs' lineage))

unfoldable pub append_approval :
    Entries → Value → String → String → String → String → Option String → Outcome Entries
unfolding append_to of_pairs
append_approval lineage revision hash approver now commit event =
    append_to "approvals"
      (dict (
        of_pairs (
          ("revision", revision)
          ∷ ("approved_hash", str hash)
          ∷ ("approver", str approver)
          ∷ ("approved_at", str now)
          ∷ ("commit", str commit)
          ∷ ("event_id", event_value event)
          ∷ [])))
      lineage
