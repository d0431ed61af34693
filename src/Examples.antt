-- ===== src/Examples.antt =====
-- A host that loads a package and its ledger, for the runs in the child modules.
pub mod Package
pub mod Operations
pub mod Documents
pub mod Texts
pub mod Service
pub mod Factory
pub mod Decomposition
pub mod Journey
use intent_packages.Prelude.{
  ℕ, String, Bool, true, false, ◌&&◌, Option, none, some, List, [], ◌∷◌, ◌==◌, codes, eqb, leb,
  if◌then◌else◌,
}
use intent_packages.Key.{Key, name, odd}
use intent_packages.Value.{
  Value, null, bool, int, str, list, dict, pos, Items, nil, cons, Entries, end, entry, strings,
  of_list,
}
use intent_packages.Value.Dict.{of_pairs}
use intent_packages.Host.{
  Text, Node, leaf, seq, mapping, Nodes, no_nodes, node, Pairs, no_pairs, pair, RegistryDir, Host,
  PackageDir,
}

abbrev key_node : Key → Node
key_node (name k) = leaf (str k)
key_node (odd n) = leaf null

-- The node tree of a document.
unfoldable mutual
  pub node_of : Value → Node
  node_of (list xs) = seq (nodes_of xs)
  node_of (dict d) = mapping (pairs_of d)
  node_of v = leaf v

  pub nodes_of : Items → Nodes
  nodes_of nil = no_nodes
  nodes_of (cons v vs) = node (node_of v) (nodes_of vs)

  pub pairs_of : Entries → Pairs
  pairs_of end = no_pairs
  pairs_of (entry k v d) = pair (key_node k) (node_of v) (pairs_of d)

unfoldable pub texts : List String → Value
unfolding strings
texts ss = list (strings ss)

unfoldable pub record_of : List (String × Value) → Value
unfolding of_pairs
record_of kvs = dict (of_pairs kvs)

unfoldable pub list_of : List Value → Value
unfolding of_list
list_of vs = list (of_list vs)

unfoldable pub agent : Entries
unfolding of_pairs
agent = of_pairs (("authority_profile", str "human-operator-v1") ∷ [])

unfoldable pub successor : Entries
unfolding of_pairs
successor = of_pairs (("package_id", str "docs-canary-2") ∷ ("supersedes", str "docs-canary") ∷ [])

-- What the first character of a file stands for.
unfoldable pub document : Entries → Entries → Text → Option (List Node)
unfolding node_of agent successor
document pkg lin [] = none
document pkg lin (c ∷ cs) =
    if eqb c b's'
    then some (node_of (dict pkg) ∷ [])
    else if eqb c b'l'
    then some (node_of (dict lin) ∷ [])
    else if eqb c b'a'
    then some (node_of (dict agent) ∷ [])
    else if eqb c b'n'
    then some (node_of (dict successor) ∷ [])
    else none

unfoldable pub registry : RegistryDir
unfolding codes
registry = record {
  capabilities_file = none;
  agent_file = λ id. if id == "devon" then some (codes "agent") else none;
}

unfoldable pub host : Entries → Entries → Option Value → Option Entries → Host
unfolding document registry codes
host pkg lin members policy = record {
  compose = document pkg lin;
  dump = λ d. codes "lineage";
  sha256 = λ t. "h1";
  is_nfc = λ t. true;
  is_decimal_digit = λ c. leb 48 c && leb c 57;
  standards_dir = "std";
  home = "";
  members_body = members;
  casefold = λ s. s;
  policy_toml = policy;
  registry_at = λ p. if p == "std/registry" then some registry else none;
}

unfoldable pub directory : PackageDir
unfolding codes
directory = record {
  dir_name = "docs-canary";
  package_yaml = some (codes "status: ready_for_review # now\nrevision: 1\n");
  lineage_yaml = some (codes "lineage");
}

-- The directory of the package that comes after.
unfoldable pub directory_beside : String → PackageDir
unfolding codes
directory_beside id = record {
  dir_name = id;
  package_yaml = some (codes "next");
  lineage_yaml = none;
}
