-- ===== src/App/Requests.antt =====
-- src/app.rs: the request window, and the request that it shows.
use secretd.Prelude.Map.{get, insert, remove, TextMap}
use secretd.Controller.{is_temporary}
use secretd.Prelude.{
  Bool, true, false, Option, none, some, List, [], leb, if◌then◌else◌, find, first, not, any,
}
use secretd.Prelude.Result.{Result, ok, err, Failure}
use secretd.Controller.{
  PendingAwsCredentialRequest, PendingRequest, AppSnapshot, Controller, ApprovalDecision, respond,
  snapshot, deny, respond_aws, dismiss_aws_request,
}
use secretd.Controller.Reachable.{Event, handle_all}
use secretd.Process.{ProcessIdentity, is_launchd_process, same_process}
use secretd.Prelude.Text.{Text}
use secretd.Prelude.Map.{TextMap, insert, remove}
use secretd.Aws.{AwsAccessLevel}
use secretd.Grants.{default_grant_seconds}

-- the test whether the oldest request is one for credentials
unfoldable pub aws_is_older : Option PendingAwsCredentialRequest → Option PendingRequest → Bool
aws_is_older (some aws) (some secret) = leb aws.requested_at secret.requested_at
aws_is_older (some aws) none = true
aws_is_older none _ = false

-- What the window shows: the request for credentials, or else the one for a secret, if there is one.
pub data Shown : Type 0 where
  nothing : Shown
  shown_secret : PendingRequest → Shown
  shown_aws : PendingAwsCredentialRequest → Shown

abbrev pub shown_of_secret : Option PendingRequest → Shown
shown_of_secret none = nothing
shown_of_secret (some request) = shown_secret request

abbrev pub shown_of_aws : Option PendingAwsCredentialRequest → Shown
shown_of_aws none = nothing
shown_of_aws (some request) = shown_aws request

unfoldable pub shown_request : AppSnapshot → Shown
unfolding aws_is_older
shown_request snapshot =
    if aws_is_older (first snapshot.pending_aws) (first snapshot.pending)
    then shown_of_aws (first snapshot.pending_aws)
    else shown_of_secret (first snapshot.pending)

unfoldable pub dismiss : Shown → Controller → Controller
dismiss nothing c = c
dismiss (shown_secret request) c = (respond request.id deny none none c).1
dismiss (shown_aws request) c = (dismiss_aws_request request.id c).1

-- `others` is what other threads do between the snapshot and the denial.
unfoldable pub dismiss_oldest_request : List Event → Controller → Controller
unfolding shown_request dismiss
dismiss_oldest_request others c =
    let (snap, taken) = snapshot c in dismiss (shown_request snap) (handle_all others taken)

unfoldable pub default_grant_process : List ProcessIdentity → Option ProcessIdentity
default_grant_process process_tree =
    elim (find (λ process. not (is_launchd_process process)) process_tree) [
      | some process ↦ some process
      | none ↦ first process_tree
    ]

-- The state of the window: the error that it shows and the processes that were chosen.
pub record RequestView : Type 0 where
  pub error : Option Failure
  pub grant_process_choices : TextMap ProcessIdentity

abbrev pub new_request_view : RequestView
new_request_view = record { error = none; grant_process_choices = [] }

unfoldable pub select_grant_process : Text → ProcessIdentity → RequestView → RequestView
select_grant_process request_id process view = record view {
  grant_process_choices = insert request_id process view.grant_process_choices;
}

-- a choice that is in the tree
unfoldable pub in_tree : List ProcessIdentity → Option ProcessIdentity → Option ProcessIdentity
in_tree process_tree none = none
in_tree process_tree (some selected) =
    if any (same_process selected) process_tree then some selected else none

unfoldable pub grant_process : Text → List ProcessIdentity → RequestView → Option ProcessIdentity
unfolding in_tree default_grant_process
grant_process request_id process_tree view =
    elim (in_tree process_tree (get request_id view.grant_process_choices)) [
      | some selected ↦ some selected
      | none ↦ default_grant_process process_tree
    ]

-- the window after an answer
answered_view : Text → Result (Unit {0}) → RequestView → RequestView
answered_view id (ok u) view = record {
  error = none;
  grant_process_choices = remove id view.grant_process_choices;
}
answered_view id (err e) view = record view { error = some e }

unfoldable pub respond_secret :
    Text
    → ApprovalDecision
    → Option ProcessIdentity
    → RequestView × Controller
    → RequestView × Controller
unfolding answered_view
respond_secret id decision process (view, c) =
    let seconds = if is_temporary decision then some default_grant_seconds else none in
    let (result, c') = respond id decision seconds process c in (answered_view id result view, c')

unfoldable pub respond_to_aws :
    Text
    → Option AwsAccessLevel
    → Option ProcessIdentity
    → RequestView × Controller
    → RequestView × Controller
unfolding answered_view
respond_to_aws id level process (view, c) =
    let (result, c') = respond_aws id level process (some default_grant_seconds) c in
    (answered_view id result view, c')
