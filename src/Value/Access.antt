-- ===== src/Value/Access.antt =====
-- What Python does with a value that may be of any type: `.get`, iteration, and `str in`.
use intent_packages.Prelude.{String, none, some, List, [], ◌∷◌, ◌==◌, if◌then◌else◌}
use intent_packages.Key.{name, odd}
use intent_packages.Value.{Value, str, list, dict, Entries, end, entry, to_list}
use intent_packages.Value.Dict.{get, lookup}
use intent_packages.Outcome.{Outcome, ok, raised, attribute_error, type_error}

-- `value.get(k)`, which only a mapping has.
unfoldable pub field_of : Value → String → Outcome Value
unfolding get
field_of (dict d) k = ok (get d k)
field_of _ k = raised attribute_error

-- `value.get(k, default)`
unfoldable pub field_or : Value → String → Value → Outcome Value
unfolding lookup
field_or (dict d) k default = elim (lookup k d) [ none ↦ ok default | some v ↦ ok v ]
field_or _ k default = raised attribute_error

-- The keys that are texts.
unfoldable pub text_keys : Entries → List Value
text_keys end = []
text_keys (entry (name k) v d) = str k ∷ text_keys d
text_keys (entry (odd n) v d) = text_keys d

-- What `for x in value` goes through. The letters of a text are texts too, and have no fields: one
-- text stands for all of them.
unfoldable pub iterate : Value → Outcome (List Value)
unfolding to_list text_keys
iterate (list xs) = ok (to_list xs)
iterate (dict d) = ok (text_keys d)
iterate (str s) = ok (if s == "" then [] else str s ∷ [])
iterate _ = raised type_error
