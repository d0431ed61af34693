-- ===== src/Profiles/Dependency/Envelope.antt =====
-- `build_envelope` of src/intent_packages/profiles/dependency_update.py: the authority under which a
-- unit of work may run, and the list of the commands that its agent may run at all.
use intent_packages.Prelude.{String, Option, none, some, List, [], ◌∷◌, ◌++◌}
use intent_packages.Value.{Value, int, pos, str, list, dict, Entries, strings}
use intent_packages.Value.Dict.{of_pairs}
use intent_packages.Outcome.{Outcome, ok, raised, profile_error, ◌>>=◌, ◌>>◌}
use intent_packages.Outcome.Report.{Issues}
use intent_packages.Profiles.Dependency.{unsafe_field_errors}
use intent_packages.Profiles.Dependency.Pins.{Checkout, PinSite}
use intent_packages.Profiles.Dependency.Commands.{
  Bump, Tooling, tooling_named, mutation_commands, verifier_commands,
}

abbrev pub budgets : Entries
budgets = of_pairs (("max_attempts", int (pos 3)) ∷ ("max_llm_calls", int (pos 360)) ∷ [])

abbrev allowed : Value
allowed = str "allowed"

abbrev pub capabilities : Entries
capabilities = of_pairs (
    ("command.run", allowed)
    ∷ ("github.pr.create", allowed)
    ∷ ("github.pr.merge", allowed)
    ∷ ("orchestrator.claim", allowed)
    ∷ ("orchestrator.evidence.write", allowed)
    ∷ ("repo.edit", allowed)
    ∷ ("repo.read", allowed)
    ∷ [])

-- The commands of an envelope: those that change the checkout, then those that verify the change.
pub record Commands : Type 0 where
  pub mutations : List String
  pub verifiers : List String

-- `constraints["allowed_commands"]`
abbrev pub allowed_commands : Commands → List String
allowed_commands c = c.mutations ++ c.verifiers

abbrev with_verifiers : List String → List (String × Value)
with_verifiers [] = []
with_verifiers (v ∷ vs) = ("verify_commands", list (strings (v ∷ vs))) ∷ []

unfoldable pub envelope_of : String → Entries → Commands → Entries
unfolding of_pairs strings
envelope_of target_repo conformance c = of_pairs (
    ("budgets", dict budgets)
    ∷ ("capabilities", dict capabilities)
    ∷ ("change_class", str "dependency-update")
    ∷ ("conformance", dict conformance)
    ∷ (
      "constraints",
      dict (
          of_pairs (
            ("allowed_commands", list (strings (allowed_commands c)))
            ∷ ("mutation_commands", list (strings c.mutations))
            ∷ ("target_repository", str target_repo)
            ∷ with_verifiers c.verifiers)),
    )
    ∷ [])

unfoldable pub some_mutation : List String → Outcome (List String)
some_mutation [] = raised (profile_error "no mutation commands")
some_mutation (c ∷ cs) = ok (c ∷ cs)

unfoldable pub refuse_unsafe : Issues → Outcome (Unit {0})
refuse_unsafe [] = ok tt
refuse_unsafe (e ∷ es) = raised (profile_error "an unsafe field")

unfoldable pub known_tooling : Option Tooling → Outcome Tooling
known_tooling none = raised (profile_error "unknown tooling")
known_tooling (some t) = ok t

-- The commands of `build_envelope`, with its refusals.
unfoldable pub envelope_commands : Checkout → String → Bump → List PinSite → Outcome Commands
unfolding tooling_named known_tooling refuse_unsafe unsafe_field_errors mutation_commands
    some_mutation verifier_commands
envelope_commands repo tooling b sites = do
  t ← known_tooling (tooling_named tooling)
  refuse_unsafe (unsafe_field_errors (str b.pkg) (str b.old) (str b.new))
  found ← mutation_commands t repo b sites
  mutations ← some_mutation found
  verifiers ← verifier_commands t repo b sites
  ok (record { mutations = mutations; verifiers = verifiers })
