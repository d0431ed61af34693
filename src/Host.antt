-- ===== src/Host.antt =====
-- What the program takes from outside its own code: PyYAML, hashlib, the environment, the registry
-- checkout of another repository, the file system. Every field is a parameter of the model.
use intent_packages.Prelude.{ℕ, String, Bool, Option, List}
use intent_packages.Value.{Value, Entries}

-- The code points of a file.
abbrev pub Text : Type 0
Text = List ℕ

-- The node tree that PyYAML composes, before values are built: a scalar with its value, a
-- sequence, or a mapping with its pairs in order.
mutual
  pub data Node : Type 0 where
    leaf : Value → Node
    seq : Nodes → Node
    mapping : Pairs → Node

  pub data Nodes : Type 0 where
    no_nodes : Nodes
    node : Node → Nodes → Nodes

  pub data Pairs : Type 0 where
    no_pairs : Pairs
    pair : Node → Node → Pairs → Pairs

-- A `registry/` folder: the capability file, and the identity file of an agent.
pub record RegistryDir : Type 0 where
  pub capabilities_file : Option Text
  pub agent_file : String → Option Text

pub record Host : Type 0 where
  -- `yaml.compose_all`, `none` on a `YAMLError`, and `yaml.safe_dump`.
  pub compose : Text → Option (List Node)
  pub dump : Entries → Text
  -- `hashlib.sha256(text.encode("utf-8")).hexdigest()`
  pub sha256 : Text → String
  -- `unicodedata.is_normalized("NFC", …)` and the Unicode decimal digits that `\d` matches.
  pub is_nfc : Text → Bool
  pub is_decimal_digit : ℕ → Bool
  -- `os.environ.get("SECURITY_STANDARDS_DIR")`, "" where it is unset, and `Path.home()`.
  pub standards_dir : String
  pub home : String
  -- The body of `GET /api/v1/members`, `none` where no token, no answer or no JSON came, and
  -- `str.casefold`.
  pub members_body : Option Value
  pub casefold : String → String
  -- `tomllib` on approval-policy.toml, `none` where it is missing or malformed.
  pub policy_toml : Option Entries
  -- The folder at a path, if there is one.
  pub registry_at : String → Option RegistryDir

-- A package directory: its name and its two files, `none` where one cannot be read.
pub record PackageDir : Type 0 where
  pub dir_name : String
  pub package_yaml : Option Text
  pub lineage_yaml : Option Text
