-- ===== src/Server/Answers.antt =====
-- When the server hands out a secret, and to whom.
use secretd.Prelude.{ℕ, ◌≡◌, refl, Bool, Option, none, some, List, ◌⊎◌, inl, inr, arith}
use secretd.Prelude.Text.{Text}
use secretd.Prelude.Result.{ok, Result-cases}
use secretd.Process.{ProcessIdentity}
use secretd.Server.Shared.{Server, notify, message_for, with_lock, receive, meanwhile}
use secretd.Server.Secrets.{
  Peer, finish_secret, after_begin, handle_secret_request, request_process,
}
use secretd.Controller.{begin_request, release_after_approval, RequestOutcome, RequestResolution}
use secretd.Controller.Release.{IsReleased, begin_request-IsReleased}
use secretd.Vault.{reveal}

-- The state in which the request waits: queued, and the windows told.
abbrev queued_in : Text → List ProcessIdentity → Bool → Server → Server
queued_in secret tree verified s = (notify (with_lock (begin_request secret tree verified) s).1).1

-- The owner's approval has come by the end of the wait, and the vault revealed the value after it.
pub record IsApproved (secret id value : Text) (waiting : Server) : Type 0 where
  pub told : message_for id (meanwhile waiting).controller.sent ≡ some RequestResolution.approved
  pub revealed : reveal secret (meanwhile (meanwhile waiting)).controller.vault ≡ ok value

-- A process that was inspected, and a release at once or after an approval.
pub record IsAllowed (secret : Text) (pid : ℕ) (connection : Peer) (value : Text) (s : Server)
    : Type 0 where
  pub verified : Bool
  pub tree : List ProcessIdentity
  pub inspected : request_process pid connection s ≡ ok (verified, tree)
  pub released :
      IsReleased secret tree verified (meanwhile s).controller value
      ⊎ ((id : Text) × ((with_lock (begin_request secret tree verified) s).0
            ≡ ok (RequestOutcome.pending id))
          × IsApproved secret id value (queued_in secret tree verified s))

finish_secret-approved :
    (secret id value : Text) (resolution : Option RequestResolution) (s t : Server)
    → finish_secret secret id resolution s ≡ (ok value, t)
    → (resolution ≡ some RequestResolution.approved)
      × (reveal secret (meanwhile s).controller.vault ≡ ok value)
unfolding finish_secret with_lock release_after_approval
finish_secret-approved secret id value none s t e = absurd (ground arith)
finish_secret-approved secret id value (some RequestResolution.approved) s t e =
    (refl, ground arith)
finish_secret-approved secret id value (some RequestResolution.denied) s t e = absurd (ground arith)
finish_secret-approved secret id value (some (RequestResolution.failed f)) s t e =
    absurd (ground arith)

after_begin-released :
    (secret value : Text) (outcome : RequestOutcome) (s t : Server)
    → after_begin secret outcome s ≡ (ok value, t)
    → (outcome ≡ RequestOutcome.immediate value)
      ⊎ ((id : Text) × (outcome ≡ RequestOutcome.pending id)
          × IsApproved secret id value (notify s).1)
unfolding after_begin receive
after_begin-released secret value (RequestOutcome.immediate v) s t e = inl (ground arith)
after_begin-released secret value (RequestOutcome.pending id) s t e =
    let waiting = (notify s).1 in
    let parts =
      finish_secret-approved secret id value (message_for id (meanwhile waiting).controller.sent)
        (meanwhile waiting) t e in
    inr (id, refl, record { told = parts.0; revealed = parts.1 })

-- A client is given a secret only if its process could be inspected, and either the conditions of
-- an immediate release hold when the server has the controller, or the request was queued, the
-- owner's approval of it came before the wait ended, whatever else happened meanwhile, and the
-- vault, asked once more after that, revealed the value.
pub handle_secret_request-IsAllowed :
    (secret : Text) (pid : ℕ) (connection : Peer) (value : Text) (s t : Server)
    → handle_secret_request secret pid connection s ≡ (ok value, t)
    → IsAllowed secret pid connection value s
unfolding handle_secret_request with_lock
handle_secret_request-IsAllowed secret pid connection value s t e =
    elim (Result-cases (request_process pid connection s)) [
      | inr (f, unseen) ↦ absurd (ground arith)
      | inl ((verified, tree), inspected) ↦
          let begun = begin_request secret tree verified (meanwhile s).controller in
          let after = (with_lock (begin_request secret tree verified) s).1 in
          elim (Result-cases begun.0) [
            | inr (f, refused) ↦ absurd (ground arith)
            | inl (outcome, started) ↦
                let rest : after_begin secret outcome after ≡ (ok value, t) = ground arith in
                record {
                  verified = verified;
                  tree = tree;
                  inspected = inspected;
                  released = elim (after_begin-released secret value outcome after t rest) [
                    | inl now ↦ inl (
                        begin_request-IsReleased secret tree verified (meanwhile s).controller
                          begun.1 value (ground arith))
                    | inr (id, waits, approved) ↦ inr (id, ground arith, approved)
                  ];
                }
          ]
    ]
