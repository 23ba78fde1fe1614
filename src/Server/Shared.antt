-- ===== src/Server/Shared.antt =====
-- What a thread of the server shares with the others: the controller behind its lock, the broker
-- and the calls of `notify`.
use secretd.Prelude.{ℕ, suc, Option, none, some, List, [], ◌∷◌, if◌then◌else◌}
use secretd.Prelude.Text.{Text, same_text}
use secretd.Prelude.Result.{ok, Result}
use secretd.Prelude.Exec.{Exec}
use secretd.Controller.{Controller, RequestResolution, AwsRequestResolution}
use secretd.Controller.Reachable.{handle_all, Event}
use secretd.Vault.{Host, Platform}
use secretd.Aws.{AwsSettings, Session, Service, Call, Surroundings}
use secretd.Process.{SocketTable}

-- `others` is what the other threads do with the controller before each time that this one gets the
-- lock or a message. The n-th write of the vault meets the n-th host.
pub record Server : Type 0 where
  pub controller : Controller
  pub others : List (List Event)
  pub notified : ℕ
  pub platform : Platform
  pub hosts : ℕ → Host
  pub writes : ℕ
  pub service : Service
  pub log : List Call
  pub seconds : ℕ → ℕ
  pub reads : ℕ
  pub around : Surroundings
  -- the error of the start of a thread, if it fails, and how many logins were started
  pub spawn_error : Option Text
  pub logins : ℕ
  pub sockets : SocketTable

-- The other threads run until this one goes on.
unfoldable pub meanwhile : Server → Server
meanwhile s = elim s.others [
  | [] ↦ s
  | events ∷ later ↦ record s { controller = handle_all events s.controller; others = later }
]

-- `controller.lock()` and what is done with the controller
unfoldable pub with_lock : {A : Type 0} → Exec Controller A → Exec Server A
unfolding meanwhile
with_lock m s =
    let t = meanwhile s in
    let (r, controller) = m t.controller in (r, record t { controller = controller })

abbrev pub notify : Exec Server (Unit {0})
notify s = (ok tt, record s { notified = suc s.notified })

-- a host for the next write
abbrev pub next_host : Exec Server Host
next_host s = (ok (s.hosts s.writes), record s { writes = suc s.writes })

-- the first message for the ID
unfoldable pub message_for : {R : Type 0} → Text → List (Text × R) → Option R
message_for id [] = none
message_for id ((j, r) ∷ messages) =
    let rest = message_for id messages in if same_text j id then some r else rest

-- `recv_timeout`: the message that has come by the end of the wait, if one has
unfoldable pub receive : Text → Exec Server (Option RequestResolution)
unfolding meanwhile message_for
receive id s = let t = meanwhile s in (ok (message_for id t.controller.sent), t)

unfoldable pub receive_aws : Text → Exec Server (Option AwsRequestResolution)
unfolding meanwhile message_for
receive_aws id s = let t = meanwhile s in (ok (message_for id t.controller.sent_aws), t)

-- An operation of the broker on the settings, which are left as the operation has them also where
-- it fails.
unfoldable pub with_broker :
    {A : Type 0} → AwsSettings → Exec Session A → Exec Server (Result A × AwsSettings)
with_broker settings m s =
    let session : Session = record {
      settings = settings;
      service = s.service;
      log = s.log;
      seconds = s.seconds;
      reads = s.reads;
    } in
    let (r, t) = m session in (ok (r, t.settings), record s { log = t.log; reads = t.reads })
