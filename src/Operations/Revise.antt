-- ===== src/Operations/Revise.antt =====
-- `do_revise` and `do_supersede` of src/intent_packages/operations.py. A revision number that is a
-- float is not modelled: adding to it raises.
pub mod Laws
use intent_packages.Prelude.{
  ℕ, zero, suc, String, Bool, true, false, not, Option, none, some, List, [], ◌∷◌, if◌then◌else◌,
}
use intent_packages.Value.{
  Value, null, bool, int, str, list, dict, ℤ, pos, negsuc, Entries, Items, nil, cons, is_text,
  in_set,
}
use intent_packages.Value.Dict.{get, lookup, item, put, of_pairs}
use intent_packages.Value.Equal.{value_eq}
use intent_packages.Outcome.{Outcome, ok, raised, type_error, operation_error}
use intent_packages.Lifecycle.{revise_legal_from}
use intent_packages.Host.{Host, PackageDir}
use intent_packages.Loader.{load_package, load_lineage}
use intent_packages.Canonical.{package_hash}
use intent_packages.Lineage.{append_transition, snapshot_revision}
use intent_packages.Operations.{
  Event, World, Op, ◌>>=◌, ◌>>◌, reading, lift, refuse_if, write_lineage, set_status_in_file,
  set_revision_in_file, is_legal_from, emit_best_effort,
}

-- `package["revision"] + 1`
unfoldable pub next_revision : Value → Outcome ℤ
next_revision (int (pos n)) = ok (pos (suc n))
next_revision (int (negsuc zero)) = ok (pos 0)
next_revision (int (negsuc (suc n))) = ok (negsuc n)
next_revision (bool b) = ok (pos (if b then 2 else 1))
next_revision _ = raised type_error

abbrev pub revised_event : Value → Value → ℤ → Event
revised_event ref current n = record {
  action = "package.revised";
  ref = ref;
  evidence = of_pairs (("from", current) ∷ ("revision", int n) ∷ []);
}

abbrev pub superseded_event : Value → Value → String → Event
superseded_event ref current new_id = record {
  action = "package.superseded";
  ref = ref;
  evidence = of_pairs (("from", current) ∷ ("superseded_by", str new_id) ∷ []);
}

-- `lin["transitions"][-1]["superseded_by"] = …`
unfoldable pub mark_last : String → Items → Items
unfolding put
mark_last new_id nil = nil
mark_last new_id (cons (dict t) nil) = cons (dict (put "superseded_by" (str new_id) t)) nil
mark_last new_id (cons v nil) = cons v nil
mark_last new_id (cons v (cons w vs)) = cons v (mark_last new_id (cons w vs))

unfoldable pub mark_superseded : String → Entries → Entries
unfolding mark_last get put
mark_superseded new_id lin = elim (get lin "transitions") [
  | list xs ↦ put "transitions" (list (mark_last new_id xs)) lin
  | _ ↦ lin
]

-- `except Exception`
loadable : Outcome Entries → Outcome Entries
loadable (ok d) = ok d
loadable (raised e) = raised (operation_error "superseding package could not be loaded")

module _ (H : Host) (emit : Event → Outcome (Option String)) where
  unfoldable pub enact_revision : Entries → Entries → Value → ℤ → String → String → Op (Unit {0})
  unfolding load_package package_hash snapshot_revision item emit_best_effort of_pairs
      append_transition put write_lineage set_status_in_file
  enact_revision pkg lin current n actor now = do
    reloaded ← reading (load_package H)
    h ← lift (package_hash H reloaded)
    fresh ← lift (snapshot_revision lin (int n) h now actor)
    ref ← lift (item pkg "package_id")
    id ← emit_best_effort emit (revised_event ref current n)
    more ← lift (append_transition fresh "revision" current "draft" now actor id)
    write_lineage H (put "current_state" (str "draft") more)
    set_status_in_file "draft"

  unfoldable pub do_revise : String → String → Op (Unit {0})
  unfolding load_lineage load_package item in_set next_revision set_revision_in_file enact_revision
  do_revise actor now = do
    lin ← reading (load_lineage H)
    current ← lift (item lin "current_state")
    legal ← lift (in_set current revise_legal_from)
    refuse_if (not legal) "cannot revise: use supersede"
    pkg ← reading (load_package H)
    revision ← lift (item pkg "revision")
    n ← lift (next_revision revision)
    set_revision_in_file n
    enact_revision pkg lin current n actor now

  unfoldable pub enact_supersession :
      Entries → Entries → Value → String → String → String → Op (Unit {0})
  unfolding item emit_best_effort of_pairs append_transition mark_superseded put write_lineage
      set_status_in_file
  enact_supersession pkg lin current new_id actor now = do
    ref ← lift (item pkg "package_id")
    id ← emit_best_effort emit (superseded_event ref current new_id)
    more ← lift (append_transition lin "supersession" current "superseded" now actor id)
    write_lineage H (put "current_state" (str "superseded") (mark_superseded new_id more))
    set_status_in_file "superseded"

  -- The directories beside this one are an argument.
  unfoldable pub do_supersede : (String → PackageDir) → String → String → String → Op (Unit {0})
  unfolding load_lineage load_package item is_legal_from loadable get value_eq enact_supersession
  do_supersede beside new_id actor now = do
    lin ← reading (load_lineage H)
    current ← lift (item lin "current_state")
    legal ← lift (is_legal_from current "superseded")
    refuse_if (not legal) "illegal transition"
    pkg ← reading (load_package H)
    next ← lift (loadable (load_package H (beside new_id)))
    refuse_if (not (is_text (get next "package_id") new_id))
        "superseding package id does not match its directory"
    refuse_if (not (value_eq (get next "supersedes") (get pkg "package_id")))
        "superseding package must declare supersedes"
    enact_supersession pkg lin current new_id actor now
