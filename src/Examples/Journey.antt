-- ===== src/Examples/Journey.antt =====
-- Runs of the verbs of src/intent_packages/factory/journey.py: an approved package is staged, and the
-- screen of the revision is shown until the deadline.
use intent_packages.Prelude.{
  ◌≡◌, refl, ◌⊎◌, true, false, none, some, [], ◌∷◌, ◌==◌, mem, if◌then◌else◌,
}
use intent_packages.Value.{str}
use intent_packages.Value.Dict.{of_pairs}
use intent_packages.Host.{Host}
use intent_packages.Factory.Session.{
  done, failed, cli, resume, handled, lifted, Route, Backend, replied, Response, out,
}
use intent_packages.Factory.Api.Quiet.{writes}
use intent_packages.Factory.Journey.{Gate, Submission, submit}
use intent_packages.Factory.Journey.Status.{status, poll, interrupt}
use intent_packages.Factory.Journey.Staged.{Staged, submit-Staged}
use intent_packages.Examples.{host, directory, record_of, list_of}
use intent_packages.Examples.Package.{package_in, ledger_in, approval_entry}
use intent_packages.Examples.Service.{service, fresh}

unfoldable approved_host : Host
unfolding host package_in ledger_in approval_entry
approved_host = host (package_in "approved") (ledger_in "approved" (approval_entry ∷ [])) none none

unfoldable gate : Gate
unfolding of_pairs
gate = record {
  base_url = "https://factory.example/";
  intake_payload = λ path source key.
      if key == "factory-submit-docs-canary-r?-h1"
      then done (of_pairs (("key", str key) ∷ []))
      else failed (cli "no");
  clipboard_works = true;
}

unfoldable submission : Submission
unfolding directory
submission = record {
  dir = directory;
  path = "packages/docs-canary";
  source_repository = "o/r";
  open_browser = true;
  print_payload = false;
  idempotency_key = "";
}

unfoldable staging_service : Backend
unfolding record_of service
staging_service = record service {
  answer = λ log r. replied 200 "" (
      some (
        record_of
          (("state", str "staged") ∷ ("review_path", str "/review/staged-intakes/9") ∷ [])));
}

submits : (submit approved_host staging_service gate submission fresh).0 ≡ done 0
unfolding submit resume handled lifted approved_host staging_service gate submission fresh
submits = refl

opens :
    (submit approved_host staging_service gate submission fresh).1.opened
    ≡ "https://factory.example/review/staged-intakes/9" ∷ []
unfolding submit resume handled lifted approved_host staging_service gate submission fresh
opens = refl

submit-Staged_example :
    (writes (submit approved_host staging_service gate submission fresh).1.requests
      ≡ writes fresh.requests)
    ⊎ Staged approved_host staging_service gate submission fresh.requests
        (submit approved_host staging_service gate submission fresh).1.requests
submit-Staged_example = submit-Staged approved_host staging_service gate submission fresh

-- The service with one proposal that is not decided.
abbrev proposals_or : Route → Response → Response
proposals_or (Route.decomposition_proposals r) response =
    replied 200 ""
      (some (list_of (record_of (("id", str "p1") ∷ ("state", str "proposed") ∷ []) ∷ [])))
proposals_or _ response = response

unfoldable revision_service : Backend
unfolding list_of record_of service
revision_service = record service { answer = λ log r. proposals_or r.route (service.answer log r) }

interrupts :
    (status revision_service "https://factory.example" "rev-1"
      (some (poll ∷ interrupt ∷ []))
      fresh).0
    ≡ done 130
unfolding status resume handled lifted revision_service service fresh mem
interrupts = refl

shows :
    (status revision_service "https://factory.example" "rev-1" none fresh).1.lines
    ≡ out "intake"
      ∷ out "  status_at_intake"
      ∷ out "proposals:"
      ∷ out "  p1: proposed -- https://factory.example/review/decomposition-proposals/p1"
      ∷ out "units:"
      ∷ out "  r-ac-001 [ready] -- no authority approval recorded"
      ∷ out "    next: ready to dispatch: factory dispatch --revision rev-1 --unit-key r-ac-001"
      ∷ out "    dispatch: latest ordinal"
      ∷ []
unfolding status resume handled lifted revision_service service fresh mem
shows = refl
