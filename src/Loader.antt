-- ===== src/Loader.antt =====
-- src/intent_packages/loader.py: one YAML document, a mapping, with no repeated key.
pub mod Laws
use intent_packages.Prelude.{
  ℕ, suc, ◌+◌, ◌*◌, Bool, true, false, ◌||◌, Option, none, some, List, [], ◌∷◌, if◌then◌else◌,
}
use intent_packages.Key.{Key, name, odd}
use intent_packages.Value.{
  Value, bool, int, str, list, dict, float, date, bytes, other, pos, negsuc, Items, nil, cons,
  Entries, end, entry, is_hashable, scalar_eq,
}
use intent_packages.Outcome.{Outcome, ok, raised, load_error, type_error, ◌>>=◌}
use intent_packages.Host.{
  Text, Node, leaf, seq, mapping, Nodes, no_nodes, node, Pairs, no_pairs, pair, Host, PackageDir,
}

-- `key in seen`, which hashes the key.
unfoldable pub seen_key : Value → List Value → Bool
unfolding scalar_eq
seen_key k [] = false
seen_key k (j ∷ js) = scalar_eq k j || seen_key k js

-- One round of the loop of `construct_mapping`: the keys seen so far, or what is raised.
unfoldable pub see_key : Value → List Value → Outcome (List Value)
unfolding seen_key
see_key k seen =
    if is_hashable k
    then if seen_key k seen then raised (load_error "duplicate key in mapping") else ok (k ∷ seen)
    else raised type_error

-- The number by which a key that is no text is known.
key_number : Value → ℕ
key_number (bool true) = 6 * 1 + 1
key_number (bool false) = 1
key_number (int (pos n)) = 6 * n + 1
key_number (int (negsuc n)) = 6 * n + 2
key_number (float n) = 6 * n + 3
key_number (date n) = 6 * n + 4
key_number (bytes n) = 6 * n + 5
key_number (other h n) = 6 * suc n
key_number _ = 0

unfoldable pub to_key : Value → Key
unfolding key_number
to_key (str s) = name s
to_key v = odd (key_number v)

-- `construct_object` and `construct_mapping`. The keys of a mapping are checked before its dict is
-- made.
unfoldable mutual
  unfolding see_key to_key

  pub construct : Node → Outcome Value
  construct (leaf v) = ok v
  construct (seq ns) = construct_items ns >>= λ xs. ok (list xs)
  construct (mapping ps) = check_keys ps [] >>= λ _. (construct_entries ps >>= λ d. ok (dict d))

  pub construct_items : Nodes → Outcome Items
  construct_items no_nodes = ok nil
  construct_items (node n ns) = construct n >>= λ v. (construct_items ns >>= λ vs. ok (cons v vs))

  pub check_keys : Pairs → List Value → Outcome (Unit {0})
  check_keys no_pairs seen = ok tt
  check_keys (pair k v ps) seen =
      construct k >>= λ key. (see_key key seen >>= λ more. check_keys ps more)

  pub construct_entries : Pairs → Outcome Entries
  construct_entries no_pairs = ok end
  construct_entries (pair k v ps) = construct k >>= λ key.
      (construct v >>= λ w. (construct_entries ps >>= λ d. ok (entry (to_key key) w d)))

-- The documents of a text, each constructed in turn.
construct_all : List Node → Outcome (List Value)
unfolding construct
construct_all [] = ok []
construct_all (n ∷ ns) = construct n >>= λ v. (construct_all ns >>= λ vs. ok (v ∷ vs))

-- The checks of `load_yaml_strict` on the documents.
unfoldable pub single_mapping : List Value → Outcome Entries
single_mapping (dict d ∷ []) = ok d
single_mapping (v ∷ []) = raised (load_error "top-level YAML must be a mapping")
single_mapping vs = raised (load_error "expected exactly one YAML document")

module _ (H : Host) where
  unfoldable pub load_yaml_strict : Text → Outcome Entries
  unfolding construct_all single_mapping
  load_yaml_strict text = elim (H.compose text) [
    | none ↦ raised (load_error "invalid YAML")
    | some ns ↦ construct_all ns >>= single_mapping
  ]

  unfoldable pub load_file : Option Text → Outcome Entries
  unfolding load_yaml_strict
  load_file none = raised (load_error "could not read the file")
  load_file (some text) = load_yaml_strict text

  unfoldable pub load_package : PackageDir → Outcome Entries
  unfolding load_file
  load_package dir = load_file dir.package_yaml

  unfoldable pub load_lineage : PackageDir → Outcome Entries
  unfolding load_file
  load_lineage dir = load_file dir.lineage_yaml
