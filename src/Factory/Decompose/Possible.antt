-- ===== src/Factory/Decompose/Possible.antt =====
-- src/intent_packages/factory/decompose.py: the checks that call no service.
use intent_packages.Prelude.{
  String, not, Option, none, some, List, [], ◌∷◌, all, mem, if◌then◌else◌,
}
use intent_packages.Value.{Value, dict, Entries, is_text}
use intent_packages.Value.Dict.{get}
use intent_packages.Outcome.{Outcome, Exn, ok, raised, decompose_error, ◌>>=◌, ◌>>◌, raise_if}
use intent_packages.Routing.{
  PolicyFile, RoutingPolicy, RoutingRow, load_policy, resolve_change_class,
}
use intent_packages.Profiles.Dependency.Pins.{Checkout, PinSite}
use intent_packages.Profiles.Dependency.Commands.{
  tooling_named, discover_pin_sites, commands_deferred_to_coding,
}
use intent_packages.Factory.Validations.{Shell, dry_run_mutation, assert_pin_sites_moved}

unfoldable pub found : {A : Type 0} → Option A → Exn → Outcome A
found none e = raised e
found (some a) e = ok a

some_sites : List PinSite → Outcome (List PinSite)
some_sites [] = raised (decompose_error "no pin site")
some_sites (site ∷ sites) = ok (site ∷ sites)

-- `sites = tooling_profiles[tooling].discover_pin_sites(…)`, which must find some.
unfoldable pub sites_of : String → Checkout → String → Outcome (List PinSite)
unfolding tooling_named found discover_pin_sites some_sites
sites_of tooling repo pkg = do
  t ← found (tooling_named tooling) (decompose_error "unknown tooling")
  sites ← discover_pin_sites t repo pkg
  some_sites sites

-- `_intake_from_file` of what the file holds, `none` where it cannot be read.
unfoldable pub intake_from_file : String → Option Value → Outcome Entries
unfolding get
intake_from_file revision (some (dict d)) =
    if is_text (get d "id") revision
    then ok d
    else raised (decompose_error "intake file is not the revision")
intake_from_file revision none = raised (decompose_error "intake file is unreadable")
intake_from_file revision (some v) = raised (decompose_error "intake file is not the revision")

-- The commands that are run now: those of the envelope that are not deferred, in order.
unfoldable pub admission : List String → List String → List String
unfolding mem
admission deferred [] = []
admission deferred (c ∷ cs) =
    let rest = admission deferred cs in if mem c deferred then rest else c ∷ rest

unfoldable pub some_command : List String → Outcome (List String)
some_command [] = raised (decompose_error "every envelope command is deferred")
some_command (c ∷ cs) = ok (c ∷ cs)

-- `_prove_the_bump_is_possible`
unfoldable pub prove_possible :
    Shell → Checkout → String → List String → List PinSite → Outcome (Unit {0})
unfolding all mem commands_deferred_to_coding admission some_command dry_run_mutation
    assert_pin_sites_moved
prove_possible S repo tooling allowed sites = do
  deferred ← commands_deferred_to_coding repo tooling
  raise_if (not (all (λ c. mem c allowed) deferred))
      (decompose_error "deferred commands are not in the envelope")
  admitted ← some_command (admission deferred allowed)
  changed ← dry_run_mutation S admitted
  assert_pin_sites_moved changed sites

-- The row of the change class, in the policy on file.
unfoldable pub routed : PolicyFile → String → Outcome (RoutingPolicy × RoutingRow)
unfolding load_policy resolve_change_class
routed file change_class = do
  policy ← load_policy file
  row ← resolve_change_class policy change_class
  ok (policy, row)
