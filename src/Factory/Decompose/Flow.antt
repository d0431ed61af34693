-- ===== src/Factory/Decompose/Flow.antt =====
-- `run` of src/intent_packages/factory/decompose.py: what is checked, in which order, before a
-- proposal is written and submitted.
use intent_packages.Prelude.{
  ℕ, String, ◌<>◌, Bool, true, false, not, ◌&&◌, ◌||◌, Option, List, [], ◌∷◌, ◌++◌, ◌==◌,
  if◌then◌else◌,
}
use intent_packages.Value.{Value, Entries}
use intent_packages.Outcome.{
  decompose_error, credential_error, validation_error, profile_error, routing_error,
}
use intent_packages.Routing.{PolicyFile, RoutingPolicy, RoutingRow}
use intent_packages.Profiles.Dependency.Pins.{Checkout, PinSite}
use intent_packages.Profiles.Dependency.Envelope.{allowed_commands}
use intent_packages.Factory.Session.{
  Backend, Verb, Session, Answer, done, failed, Fault, api, cli, other, err, ◌>>=◌, ◌>>◌, pure,
  lift, print, exit, give_up,
}
use intent_packages.Factory.Api.{get_intake, propose_decomposition}
use intent_packages.Factory.Validations.{Shell, assert_checkout_current, assert_runner_honest}
use intent_packages.Factory.Decompose.Possible.{
  found, sites_of, intake_from_file, prove_possible, routed,
}
use intent_packages.Factory.Decompose.Proposal.{Ask, Proposal, build_proposal, proposal_body}

-- What `run` reaches beside the orchestrator: the home folder and how a path is expanded, the part
-- of a text after its first slash, `str.lower` and `str` of a number, the directories and their git,
-- files with an intake, the orchestrator's command line, the brains, and the routing policy on file.
pub record Desk : Type 1 where
  pub home : String
  pub expand : String → String
  pub after_slash : String → String
  pub lower : String → String
  pub digits : ℕ → String
  pub checkout : String → Option Checkout
  pub shell : String → Shell
  pub intake_at : String → Option Value
  pub conformance_claim : String → Answer Entries
  pub enrichment : Answer (Option Entries)
  pub routing_policy : PolicyFile

-- `_flag_refusal`: whether there is a refusal.
unfoldable pub flags_refused : Ask → Bool
flags_refused a = (a.no_execute && a.submit) || (a.assume_checkout_current && not a.no_execute)

-- What another program answered.
abbrev pub given : {A : Type 0} → Answer A → Verb A
given answer = λ s. (answer, s)

-- The exceptions that `run` reports; any other goes through.
unfoldable pub is_reported : Fault → Bool
is_reported (api e) = true
is_reported (cli why) = true
is_reported (other (decompose_error why)) = true
is_reported (other (credential_error why)) = true
is_reported (other (validation_error why)) = true
is_reported (other (profile_error why)) = true
is_reported (other (routing_error why)) = true
is_reported (other e) = false

unfoldable pub reported : Answer ℕ × Session → Answer ℕ × Session
unfolding is_reported
reported (done n, s) = (done n, s)
reported (failed e, s) = if is_reported e then give_up "decompose failed" 1 s else (failed e, s)

-- `"/".join(models)`
unfoldable pub slashed : List String → String
slashed [] = ""
slashed (m ∷ []) = m
slashed (m ∷ n ∷ ms) = m <> "/" <> slashed (n ∷ ms)

module _ (B : Backend) (D : Desk) where
  -- `_resolve_repo_path`
  unfoldable pub local_repo : Ask → String
  local_repo a =
      if a.repo_path == ""
      then D.home <> "/Projects/" <> D.after_slash a.target_repo
      else D.expand a.repo_path

  unfoldable pub settled_key : Ask → String
  settled_key a =
      if a.unit_key == "" then D.after_slash a.target_repo <> "-" <> D.lower a.ac else a.unit_key

  unfoldable pub read_intake : Ask → Verb Entries
  unfolding get_intake intake_from_file
  read_intake a =
      if a.intake_file == ""
      then get_intake B a.revision
      else lift (intake_from_file a.revision (D.intake_at a.intake_file))

  -- The rationale gets the routing row, and says so where nothing was run.
  unfoldable pub annotated : Ask → RoutingPolicy × RoutingRow → Proposal → Proposal
  unfolding slashed
  annotated a (policy, row) p = record p {
    rationale =
        p.rationale
        <> " routing: "
        <> slashed row.models
        <> " per routing-policy v"
        <> D.digits policy.version
        <> "."
        <> (if a.no_execute then " built without a local run (no-execute)." else "");
  }

  unfoldable pub write_out : Proposal → Verb (Unit {0})
  unfolding proposal_body
  write_out p s = (done tt, record s { written = s.written ++ proposal_body p ∷ [] })

  unfoldable pub submit : Ask → Proposal → Verb ℕ
  unfolding propose_decomposition proposal_body
  submit a p = do
    _result ← propose_decomposition B a.revision (proposal_body p)
    print (err "submitted")
    exit 0

  -- The checks of a proposal that was built, then what is done with it.
  unfoldable pub conclude : Ask → Shell → Checkout → List PinSite → Proposal → Verb ℕ
  unfolding assert_runner_honest prove_possible annotated routed write_out submit
  conclude a S repo sites p = do
    row ← lift (routed D.routing_policy "dependency-update")
    lift (assert_runner_honest S (allowed_commands p.commands))
    if a.no_execute
        then pure tt
        else lift (prove_possible S repo a.tooling (allowed_commands p.commands) sites)
    write_out (annotated a row p)
    if a.submit then submit a (annotated a row p) else exit 0

  unfoldable pub propose : Ask → Shell → Checkout → Verb ℕ
  unfolding assert_checkout_current sites_of read_intake build_proposal settled_key conclude
      local_repo
  propose a S repo = do
    if a.assume_checkout_current then pure tt else lift (assert_checkout_current S)
    sites ← lift (sites_of a.tooling repo a.bump.pkg)
    intake ← read_intake a
    conformance ← given (D.conformance_claim (local_repo a))
    enrichment ← given D.enrichment
    p ← lift (build_proposal a (settled_key a) intake conformance sites repo enrichment)
    conclude a S repo sites p

  unfoldable pub attempt : Ask → Verb ℕ
  unfolding local_repo found propose
  attempt a = do
    repo ← lift (found (D.checkout (local_repo a)) (decompose_error "target checkout not found"))
    propose a (D.shell (local_repo a)) repo

  unfoldable pub decompose : Ask → Verb ℕ
  unfolding flags_refused attempt reported
  decompose a s = if flags_refused a then give_up "decompose failed" 1 s else reported (attempt a s)
