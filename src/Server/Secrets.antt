-- ===== src/Server/Secrets.antt =====
-- src/ipc/server.rs: a client's request for a secret.
use secretd.Prelude.{ℕ, Bool, Option, none, some, List, [], ◌∷◌}
use secretd.Prelude.Exec.{Exec, pure, throw, lift, modify, attempt, ◌>>=◌, ◌>>◌}
use secretd.Prelude.Result.{Result, ok, err, process_unreadable, request_denied}
use secretd.Process.{ProcessIdentity, verify_connection_owner, inspect_process_tree}
use secretd.Server.Shared.{with_lock, receive, Server, notify}
use secretd.Controller.{
  release_after_approval, begin_request, timeout_request, RequestOutcome, RequestResolution,
}
use secretd.Prelude.Text.{Text}

-- What the connection tells: the ports of its ends, where they are known.
pub record Peer : Type 0 where
  pub local : Option ℕ
  pub peer : Option ℕ

found_process : Bool → Result (List ProcessIdentity) → Result (Bool × List ProcessIdentity)
found_process verified (err f) = err f
found_process verified (ok []) = err process_unreadable
found_process verified (ok (process ∷ tree)) = ok (verified, process ∷ tree)

unfoldable pub request_process : ℕ → Peer → Server → Result (Bool × List ProcessIdentity)
unfolding found_process verify_connection_owner inspect_process_tree
request_process pid connection s =
    found_process (verify_connection_owner s.sockets pid connection.local connection.peer)
      (inspect_process_tree s.controller.world.processes pid 12)

-- what follows the end of the wait
unfoldable pub finish_secret : Text → Text → Option RequestResolution → Exec Server Text
unfolding with_lock release_after_approval timeout_request
finish_secret secret id (some RequestResolution.approved) = do
  value ← attempt (with_lock (λ c. (release_after_approval secret c, c)))
  notify
  lift value
finish_secret secret id (some RequestResolution.denied) = do notify; throw request_denied
finish_secret secret id (some (RequestResolution.failed error)) = do notify; throw error
finish_secret secret id none = do
  with_lock (modify (timeout_request id))
  notify
  throw request_denied

unfoldable pub after_begin : Text → RequestOutcome → Exec Server Text
unfolding finish_secret receive
after_begin secret (RequestOutcome.immediate value) = pure value
after_begin secret (RequestOutcome.pending id) = do
  notify
  resolution ← receive id
  finish_secret secret id resolution

unfoldable pub handle_secret_request : Text → ℕ → Peer → Exec Server Text
unfolding request_process with_lock begin_request after_begin
handle_secret_request secret pid connection = do
  process ← λ s. (request_process pid connection s, s)
  outcome ← with_lock (begin_request secret process.1 process.0)
  after_begin secret outcome
