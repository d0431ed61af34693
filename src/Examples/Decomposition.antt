-- ===== src/Examples/Decomposition.antt =====
-- A run of the verb `decompose` of src/intent_packages/factory/decompose.py, from a pin in a
-- checkout and the routing policy on file to the proposal that is posted.
use mathlib.Core.List.{Perm}
use intent_packages.Prelude.{
  String, ◌≡◌, ◌↔◌, ◌≢◌, refl, Bool, true, false, none, some, List, [], ◌∷◌, ◌==◌, codes,
  if◌then◌else◌,
}
use intent_packages.Value.{int, pos, str, list, nil, Entries, end}
use intent_packages.Value.Dict.{of_pairs}
use intent_packages.Outcome.{ok}
use intent_packages.Routing.{document, RoutingPolicy, RoutingRow, load_policy, resolve_change_class}
use intent_packages.Routing.Rows.{IsSoundRow}
use intent_packages.Routing.Laws.{resolve_change_class-declared}
use intent_packages.Profiles.Dependency.{unsafe_field_errors}
use intent_packages.Profiles.Dependency.Pins.{Checkout, PinSite}
use intent_packages.Profiles.Dependency.Envelope.{Commands, envelope_commands}
use intent_packages.Factory.Session.{done, resume, handled, lifted}
use intent_packages.Factory.Validations.{Shell, is_denied, assert_runner_honest}
use intent_packages.Factory.Validations.Honest.{IsHonest, assert_runner_honest-IsHonest}
use intent_packages.Factory.Validations.Moved.{IsPossible, prove_possible-IsPossible}
use intent_packages.Factory.Decompose.Possible.{prove_possible}
use intent_packages.Prelude.{All, mem}
use intent_packages.Factory.Decompose.Proposal.{
  Ask, Proposal, Uuids, criteria_uuid_map, uuid_of, build_proposal,
}
use intent_packages.Factory.Decompose.Criteria.{uuids_in, build_proposal-whole}
use intent_packages.Factory.Decompose.Flow.{Desk, decompose}
use intent_packages.Factory.Decompose.Laws.{Guarded, decompose-Guarded}
use intent_packages.Examples.{record_of, list_of, texts}
use intent_packages.Examples.Service.{service, fresh, intake}

unfoldable routing : Entries
unfolding of_pairs record_of list_of texts
routing = of_pairs (
    ("version", int (pos 1))
    ∷ ("models", record_of (("small", str "model-1") ∷ []))
    ∷ (
      "surface",
      list_of (
          record_of (
            ("id", str "runner")
            ∷ ("where", str "the runner")
            ∷ ("models", texts ("small" ∷ []))
            ∷ ("rationale", str "cheap")
            ∷ ("decided", str "2026-07-01")
            ∷ [])
          ∷ []),
    )
    ∷ (
      "change_class",
      record_of (
          (
            "dependency-update",
            record_of (
                ("surface", str "runner")
                ∷ ("models", texts ("small" ∷ []))
                ∷ ("rationale", str "mechanical")
                ∷ ("decided", str "2026-07-02")
                ∷ []),
          )
          ∷ []),
    )
    ∷ ("no_llm", record_of (("items", list nil) ∷ []))
    ∷ [])

abbrev updates_row : RoutingRow
updates_row = record {
  id = "dependency-update";
  models = "small" ∷ [];
  model_ids = "model-1" ∷ [];
  rationale = "mechanical";
  decided = "2026-07-02";
}

abbrev surface_row : RoutingRow
surface_row = record {
  id = "runner";
  models = "small" ∷ [];
  model_ids = "model-1" ∷ [];
  rationale = "cheap";
  decided = "2026-07-01";
}

abbrev policy : RoutingPolicy
policy = record {
  version = 1;
  models = ("small", "model-1") ∷ [];
  surfaces = ("runner", surface_row) ∷ [];
  change_classes = ("dependency-update", updates_row) ∷ [];
  no_llm = [];
}

loads : load_policy (document routing) ≡ ok policy
unfolding load_policy routing
loads = refl

resolve_change_class-declared_example : IsSoundRow policy.models ("dependency-update", updates_row)
unfolding resolve_change_class
resolve_change_class-declared_example =
    resolve_change_class-declared (document routing) policy "dependency-update" updates_row loads
      refl

unfoldable pinned : Checkout
unfolding codes
pinned = record {
  lines = λ file. if file == "requirements.txt" then some (codes "fastapi==0.110.0" ∷ []) else none;
  toml = λ file. none;
  json = λ file. none;
  show = λ v. "?";
}

-- A tree is moved or is not.
unfoldable pub shell : Shell
unfolding codes
shell = record {
  Tree = Bool;
  fetched = true;
  head = some "c0ffee";
  remote = some "c0ffee";
  is_dirty = some false;
  clone = some false;
  run = λ command moved. some true;
  diff_names = λ moved. if moved then "requirements.txt" ∷ [] else [];
  diff = λ moved. if moved then codes "+fastapi==0.111.0" else [];
  is_wide = λ c. false;
}

unfoldable desk : Desk
unfolding pinned shell routing
desk = record {
  home = "/home/dev";
  expand = λ p. p;
  after_slash = λ s. "r";
  lower = λ s. if s == "AC-001" then "ac-001" else s;
  digits = λ n. "1";
  checkout = λ p. if p == "/home/dev/Projects/r" then some pinned else none;
  shell = λ p. shell;
  intake_at = λ p. none;
  conformance_claim = λ p. done end;
  enrichment = done none;
  routing_policy = document routing;
}

abbrev ask : Ask
ask = record {
  revision = "rev-1";
  ac = "AC-001";
  target_repo = "o/r";
  repo_path = "";
  tooling = "pip";
  bump = record { pkg = "fastapi"; old = "0.110.0"; new = "0.111.0" };
  unit_key = "";
  rationale = "";
  intake_file = "";
  submit = true;
  no_execute = false;
  assume_checkout_current = false;
}

-- The run gets as far as the post.
decomposes : (decompose service desk ask fresh).0 ≡ done 0
unfolding decompose resume handled lifted service desk fresh
decomposes = refl

decompose-Guarded_example :
    Guarded service desk ask fresh.requests (decompose service desk ask fresh).1.requests
decompose-Guarded_example = decompose-Guarded service desk ask fresh

abbrev sites : List PinSite
sites =
    record {
      file = "requirements.txt";
      label = "requirements.txt";
      current_version = codes "0.110.0";
    }
    ∷ []

abbrev nothing_made : Commands
nothing_made = record { mutations = []; verifiers = [] }

unfoldable built : Proposal
unfolding build_proposal intake pinned codes
built = elim (build_proposal ask "r-ac-001" intake end sites pinned none) [
  | ok p ↦ p
  | _ ↦ record {
    key = "";
    rationale = "";
    unit_key = "";
    title = "";
    outcome = "";
    authority = end;
    commands = nothing_made;
    enrichment = none;
    mapped = str "";
    retained = [];
    retained_rationale = "";
  }
]

builds : build_proposal ask "r-ac-001" intake end sites pinned none ≡ ok built
unfolding build_proposal intake pinned codes built
builds = refl

build_proposal-whole_example :
    (uuids : Uuids) × (criteria_uuid_map intake ≡ ok uuids)
    × (uuid_of "AC-001" uuids ≡ ok built.mapped)
    × Perm (built.mapped ∷ built.retained) (uuids_in uuids)
    × (envelope_commands pinned ask.tooling ask.bump sites ≡ ok built.commands)
    × (unsafe_field_errors (str "fastapi") (str "0.110.0") (str "0.111.0") ≡ [])
    × (built.commands.mutations ≢ [])
build_proposal-whole_example =
    build_proposal-whole ask "r-ac-001" intake end sites pinned none built builds

abbrev commands : List String
commands = "sed -i 's/^fastapi==0.110.0$/fastapi==0.111.0/' requirements.txt" ∷ []

possible : prove_possible shell pinned "pip" commands sites ≡ ok tt
unfolding prove_possible shell pinned mem
possible = refl

prove_possible-IsPossible_example : IsPossible shell pinned "pip" commands sites
prove_possible-IsPossible_example =
    prove_possible-IsPossible shell pinned "pip" commands sites possible

assert_runner_honest-IsHonest_example :
    (assert_runner_honest shell commands ≡ ok tt) ↔ All (IsHonest shell) commands
assert_runner_honest-IsHonest_example = assert_runner_honest-IsHonest shell commands

-- The name of a tool is refused wherever it stands as a word, also as the package of a bump.
refuses_pytest : is_denied shell "sed -i 's/^pytest==8.0.0$/pytest==8.1.0/' requirements.txt" ≡ true
unfolding is_denied shell codes
refuses_pytest = refl
