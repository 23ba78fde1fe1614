-- ===== src/Server/AwsAnswers.antt =====
-- When the server hands out credentials of AWS.
use secretd.Prelude.{ℕ, ◌≡◌, refl, Bool, Option, none, some, List, ◌⊎◌, inl, inr, arith}
use secretd.Prelude.Text.{Text}
use secretd.Prelude.Exec.{continue-ok}
use secretd.Prelude.Result.{ok}
use secretd.Process.{ProcessIdentity}
use secretd.Server.Secrets.{Peer, request_process}
use secretd.Server.Credentials.{finish_wait, await_level, handle_aws_request}
use secretd.Server.Shared.{Server, with_lock, receive_aws, notify, message_for, meanwhile}
use secretd.Controller.{AwsRequestResolution, AwsRequestOutcome, begin_aws_request}
use secretd.Aws.{AwsCredentialProcessOutput, AwsAccessLevel}
use secretd.Controller.AwsAnswers.{IsDecided, begin_aws_request-IsDecided}

-- The state in which the request waits: queued, and the windows told.
abbrev queued_aws_in : Text → List ProcessIdentity → Bool → Server → Server
queued_aws_in profile tree verified s =
    (notify (with_lock (begin_aws_request profile tree verified) s).1).1

-- A process that was inspected, and a level that is decided already or that the owner has approved
-- by the end of the wait.
pub record IsPermitted (profile : Text) (pid : ℕ) (connection : Peer) (s : Server) : Type 0 where
  pub verified : Bool
  pub tree : List ProcessIdentity
  pub inspected : request_process pid connection s ≡ ok (verified, tree)
  pub level : AwsAccessLevel
  pub permitted :
      IsDecided profile tree verified (meanwhile s).controller level
      ⊎ ((id : Text) × ((with_lock (begin_aws_request profile tree verified) s).0
            ≡ ok (AwsRequestOutcome.pending id))
          × (message_for id (meanwhile (queued_aws_in profile tree verified s)).controller.sent_aws
              ≡ some (AwsRequestResolution.approved level)))

finish_wait-approved :
    (id : Text) (resolution : Option AwsRequestResolution) (level : AwsAccessLevel) (s t : Server)
    → finish_wait id resolution s ≡ (ok level, t)
    → resolution ≡ some (AwsRequestResolution.approved level)
unfolding finish_wait with_lock
finish_wait-approved id none level s t e = absurd (ground arith)
finish_wait-approved id (some (AwsRequestResolution.approved l)) level s t e = ground arith
finish_wait-approved id (some AwsRequestResolution.denied) level s t e = absurd (ground arith)

await_level-permitted :
    (outcome : AwsRequestOutcome) (level : AwsAccessLevel) (s t : Server)
    → await_level outcome s ≡ (ok level, t)
    → (outcome ≡ AwsRequestOutcome.immediate level)
      ⊎ ((id : Text) × (outcome ≡ AwsRequestOutcome.pending id)
          × (message_for id (meanwhile (notify s).1).controller.sent_aws
              ≡ some (AwsRequestResolution.approved level)))
unfolding await_level receive_aws
await_level-permitted (AwsRequestOutcome.immediate l) level s t e = inl (ground arith)
await_level-permitted AwsRequestOutcome.denied level s t e = absurd (ground arith)
await_level-permitted (AwsRequestOutcome.pending id) level s t e =
    let waiting = (notify s).1 in
    inr (
      id,
      refl,
      finish_wait-approved id (message_for id (meanwhile waiting).controller.sent_aws) level
          (meanwhile waiting) t e,
    )

-- A client is given credentials only if its process could be inspected, and either a decision for
-- it holds, with all the conditions of a release without a question, when the server has the
-- controller, or its request was queued and the owner's approval came before the wait ended.
pub handle_aws_request-IsPermitted :
    (fuel : ℕ) (encode : AwsCredentialProcessOutput → Option Text) (profile : Text) (pid : ℕ)
    (connection : Peer) (value : Text) (s t : Server)
    → handle_aws_request fuel encode profile pid connection s ≡ (ok value, t)
    → IsPermitted profile pid connection s
unfolding handle_aws_request with_lock
handle_aws_request-IsPermitted fuel encode profile pid connection value s t e =
    let ((verified, tree), inspected, e1) = continue-ok _ (request_process pid connection s, s) e in
    let step = with_lock (begin_aws_request profile tree verified) s in
    let (outcome, begun, e2) = continue-ok _ step e1 in
    let (level, allowed, e3) = continue-ok _ (await_level outcome step.1) e2 in
    record {
      verified = verified;
      tree = tree;
      inspected = inspected;
      level = level;
      permitted =
          elim (await_level-permitted outcome level step.1 (await_level outcome step.1).1
            (ground (arith, allowed))) [
              | inl now ↦ inl (
                  begin_aws_request-IsDecided profile tree verified (meanwhile s).controller
                    (begin_aws_request profile tree verified (meanwhile s).controller).1 level
                    (ground (arith, begun, now)))
              | inr (id, waits, told) ↦ inr (id, ground (arith, begun, waits), told)
            ];
    }
