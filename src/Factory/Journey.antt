-- ===== src/Factory/Journey.antt =====
-- src/intent_packages/factory/journey.py: the verb `submit`, which stages an approved package for a
-- person to confirm.
pub mod Links
pub mod Key
pub mod Actions
pub mod Status
pub mod Quiet
pub mod Staged
use intent_packages.Prelude.{
  ℕ, String, Bool, true, false, not, ◌&&◌, ◌||◌, Option, none, some, List, [], ◌∷◌, ◌++◌, ◌==◌,
  if◌then◌else◌,
}
use intent_packages.Value.{Value, Entries, is_text, truthy}
use intent_packages.Value.Dict.{get}
use intent_packages.Outcome.{Outcome, Exn, ok, raised, load_error, key_error, canonical_error}
use intent_packages.Host.{Host, PackageDir}
use intent_packages.Factory.Session.{
  Backend, Verb, Session, Answer, done, failed, Fault, cli, other, ApiError, Line, out, err, ◌>>=◌,
  ◌>>◌, pure, fail, print, catch, exit, give_up,
}
use intent_packages.Factory.Api.{shown, stage_intake}
use intent_packages.Factory.Journey.Links.{staged_intake, intake_new}
use intent_packages.Factory.Journey.Key.{loaded, key_of}

-- What `submit` reaches beside the orchestrator's interface: its address, its command line, which
-- answers a payload for a path, a source repository and a key, and whether the clipboard works.
pub record Gate : Type 0 where
  pub base_url : String
  pub intake_payload : String → String → String → Answer Entries
  pub clipboard_works : Bool

-- What the command line gives; the directory is that of `path`, or the one that `path` stands in.
pub record Submission : Type 0 where
  pub dir : PackageDir
  pub path : String
  pub source_repository : String
  pub open_browser : Bool
  pub print_payload : Bool
  pub idempotency_key : String

-- `webbrowser.open`
unfoldable pub open_page : Bool → String → Verb (Unit {0})
open_page false link s = (done tt, s)
open_page true link s = (done tt, record s { opened = s.opened ++ link ∷ [] })

-- A refusal that is said.
abbrev refused : String → Verb (Option Entries)
refused why = print (err why) >> pure none

-- The client's answer. An error of its own is said; another exception goes through.
unfoldable pub received_payload : Answer Entries → Verb (Option Entries)
received_payload (done payload) = pure (some payload)
received_payload (failed (cli why)) = refused "submit failed"
received_payload (failed e) = fail e

-- `status == "approved" and current_state == "approved"`
unfoldable pub is_approved : Entries × Entries → Bool
unfolding get
is_approved (pkg, lineage) =
    is_text (get pkg "status") "approved" && is_text (get lineage "current_state") "approved"

abbrev paste_line : Bool → Line
paste_line true = out "Intake payload copied to your clipboard for the paste form"
paste_line false = out "Intake payload printed above for the paste form"

-- What is said of a post that was refused.
unfoldable pub stage_refused : ApiError → Verb (Option Entries)
unfolding truthy
stage_refused e = do
  print (err "submit refused")
  if truthy e.recovery then print (err "recovery") else pure tt
  if e.code == "idempotency_conflict" then print (err "this key is already held") else pure tt
  pure none

abbrev is_incomplete : Entries → Bool
is_incomplete staged =
    (is_text (get staged "state") "registered"
      && not (truthy (get staged "registered_revision_id")))
    || not (truthy (get staged "review_path"))

module _ (H : Host) (B : Backend) (G : Gate) where
  unfoldable pub with_key : Submission → Outcome String → Verb (Option Entries)
  unfolding received_payload
  with_key a (ok key) = received_payload (G.intake_payload a.path a.source_repository key)
  with_key a (raised (key_error k)) = refused "submit failed: cannot derive the staging key"
  with_key a (raised (canonical_error why)) = refused "submit failed: cannot derive the staging key"
  with_key a (raised e) = fail (other e)

  unfoldable pub when_loaded : Submission → Outcome (Entries × Entries) → Verb (Option Entries)
  unfolding is_approved key_of with_key
  when_loaded a (ok both) =
      if is_approved both
      then with_key a (key_of H B a.idempotency_key both.0)
      else print (err "submit: not approved") >> refused "intent_packages approve"
  when_loaded a (raised (load_error why)) = refused "submit: the package does not load"
  when_loaded a (raised e) = fail (other e)

  -- `_emit_payload`
  unfoldable pub emit_payload : Submission → Verb (Option Entries)
  unfolding loaded when_loaded
  emit_payload a = when_loaded a (loaded H a.dir)

  -- `_copy_to_clipboard`
  unfoldable pub copy_to_clipboard : Entries → Verb Bool
  copy_to_clipboard payload s =
      if G.clipboard_works then (done true, record s { copied = s.copied ++ payload ∷ [] }) else (
        done false,
        record s { lines = s.lines ++ err "warning: could not copy the intake payload" ∷ [] },
      )

  -- `_hand_off_paste`
  unfoldable pub hand_off_paste : Submission → Entries → Verb ℕ
  unfolding copy_to_clipboard intake_new open_page
  hand_off_paste a payload = do
    copied ← copy_to_clipboard payload
    open_page a.open_browser (intake_new G.base_url)
    print (paste_line copied)
    print (out "This is a human gate")
    exit 0

  unfoldable pub staged_for_decision : Submission → Value → Verb ℕ
  unfolding staged_intake shown open_page
  staged_for_decision a review_path = do
    open_page a.open_browser (staged_intake G.base_url (shown B review_path))
    print (out "Intake staged for your decision")
    exit 0

  unfoldable pub report_staged : Submission → Entries → Verb ℕ
  unfolding staged_for_decision truthy get
  report_staged a staged =
      if is_incomplete staged
      then give_up "submit failed: the staged intake is incomplete" 1
      else (if is_text (get staged "state") "registered"
          then print (out "submit: this intake is already registered") >> exit 0
          else (if is_text (get staged "state") "staged"
              then staged_for_decision a (get staged "review_path")
              else give_up "submit refused: the staged intake can never be confirmed" 1))

  abbrev report_reply : Submission → Option Entries → Verb ℕ
  report_reply a none = exit 1
  report_reply a (some staged) = report_staged a staged

  unfoldable pub post_staging : Entries → Verb (Option Entries)
  unfolding stage_intake
  post_staging payload = do staged ← stage_intake B payload; pure (some staged)

  -- `_stage`
  unfoldable pub stage : Submission → Entries → Verb ℕ
  unfolding post_staging stage_refused report_staged
  stage a payload = do reply ← catch (post_staging payload) stage_refused; report_reply a reply

  abbrev with_payload : Submission → Option Entries → Verb ℕ
  with_payload a none = exit 1
  with_payload a (some payload) =
      if a.print_payload then hand_off_paste a payload else stage a payload

  unfoldable pub submit : Submission → Verb ℕ
  unfolding emit_payload hand_off_paste stage
  submit a = do payload ← emit_payload a; with_payload a payload
