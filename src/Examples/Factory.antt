-- ===== src/Examples/Factory.antt =====
-- Runs of the verbs of src/intent_packages/factory against the service of the examples.
use intent_packages.Prelude.{String, ◌≡◌, refl, true, false, ◌⊎◌, List, [], ◌∷◌, all}
use intent_packages.Value.{pos, str, is_str, truthy}
use intent_packages.Outcome.{ok}
use intent_packages.Factory.Session.{Session, done, err, resume, handled, lifted, ApiError}
use intent_packages.Factory.Api.{local_error}
use intent_packages.Factory.Views.{scan_history, dispatch_events, DispatchEvent, listed}
use intent_packages.Factory.Views.Order.{◌≤ℤ◌}
use intent_packages.Prelude.{All, mem}
use intent_packages.Factory.Views.Laws.{IsCovered, IsRecorded, IsAttained, scan_history-IsCovered}
use intent_packages.Factory.Reads.{scan_dispatch_events}
use intent_packages.Factory.Execution.{
  Target, dispatch, dispatch_failed, landed_line, unlanded_line,
}
use intent_packages.Factory.Execution.Writes.{OneDispatch, dispatch-OneDispatch}
use intent_packages.Factory.Execution.Laws.{Landed, dispatch-Landed}
use intent_packages.Factory.Execution.Verdict.{Says, warned, dispatch_failed-Says}
use intent_packages.Factory.Verify.{Claim, verify}
use intent_packages.Factory.Verify.Laws.{Verified, verify-Verified}
use intent_packages.Examples.Service.{service, fresh, events, unit_row}

unfoldable dispatched : Session
unfolding dispatch resume handled lifted service fresh
dispatched = (dispatch service "rev-1" "r-ac-001" fresh).1

dispatches : dispatch service "rev-1" "r-ac-001" fresh ≡ (done 0, dispatched)
unfolding dispatched dispatch resume handled lifted service fresh
dispatches = refl

dispatch-OneDispatch_example :
    OneDispatch service fresh.requests (dispatch service "rev-1" "r-ac-001" fresh).1.requests
dispatch-OneDispatch_example = dispatch-OneDispatch service "rev-1" "r-ac-001" fresh

dispatch-Landed_example : Landed service dispatched
dispatch-Landed_example = dispatch-Landed service "rev-1" "r-ac-001" fresh dispatched dispatches

-- The unit before its first dispatch, so that the one of the history is new.
unfoldable target : Target
unfolding unit_row
target = record { unit_id = str "u1"; snapshot = unit_row; prior = [] }

abbrev timeout : ApiError
timeout = local_error "api_timeout"

unfoldable rescanned : Session
unfolding scan_dispatch_events resume handled lifted service fresh
rescanned = (scan_dispatch_events service (str "u1") (warned service fresh)).1

rescans :
    scan_dispatch_events service (str "u1") (warned service fresh)
    ≡ (done (pos 1, str "d1" ∷ []), rescanned)
unfolding rescanned scan_dispatch_events resume handled lifted service fresh events
rescans = refl

dispatch_failed-Says_example :
    (all (λ v. listed v []) (str "d1" ∷ []) ≡ true
      → Says service fresh
          (err "dispatch failed" ∷ unlanded_line ∷ [])
          (dispatch_failed service target timeout fresh))
    × (all (λ v. listed v []) (str "d1" ∷ []) ≡ false
        → all is_str (str "d1" ∷ []) ≡ true
        → Says service fresh
            (err "dispatch failed" ∷ landed_line ∷ [])
            (dispatch_failed service target timeout fresh))
unfolding target truthy
dispatch_failed-Says_example =
    dispatch_failed-Says service target timeout fresh rescanned (pos 1) (str "d1" ∷ []) refl rescans

abbrev claim : Claim
claim = record { ac_id = "AC-001"; check_name = "ci"; expected_conclusion = "success" }

unfoldable verified : Session
unfolding verify resume handled lifted service fresh
verified = (verify service "rev-1" "r-ac-001" claim fresh).1

verifies : verify service "rev-1" "r-ac-001" claim fresh ≡ (done 0, verified)
unfolding verified verify resume handled lifted service fresh mem
verifies = refl

verify-Verified_example : (r : String) × Verified service r claim fresh verified
verify-Verified_example = verify-Verified service "rev-1" "r-ac-001" claim fresh verified verifies

scan_history-IsCovered_example :
    (es : List DispatchEvent) × (dispatch_events events ≡ ok es)
    × (pos 0 ≤ℤ pos 1)
    × All (IsCovered service (pos 1) (str "d1" ∷ [])) es
    × All (IsRecorded es) (str "d1" ∷ [])
    × ((pos 1 ≡ pos 0) ⊎ IsAttained service (pos 1) es)
unfolding scan_history service events
scan_history-IsCovered_example = scan_history-IsCovered service events (pos 1) (str "d1" ∷ []) refl
