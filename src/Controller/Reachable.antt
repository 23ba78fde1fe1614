-- ===== src/Controller/Reachable.antt =====
-- The states that the requests, the answers, the timeouts and the owner's commands lead to.
use secretd.Prelude.{ℕ, none, Option, List, [], ◌∷◌, Bool, inl, inr, refl, arith, false, ◌≡◌}
use secretd.Prelude.Text.{Text}
use secretd.Prelude.Map.{get, keys}
use secretd.Prelude.Result.{Result-cases, Result, Failure}
use secretd.Process.{ProcessIdentity}
use secretd.Grants.{Grant}
use secretd.Aws.{AwsAccessLevel}
use secretd.Aws.{AwsConfiguration, AwsSettings}
use secretd.Aws.LoginStatus.{AwsLoginStatus}
use secretd.Vault.{reveal, Disk, unlock, Platform, Host}
use secretd.Vault
use secretd.Controller.State.{
  Controller, World, new_controller, ApprovalDecision, deny, AwsRequestResolution,
}
use secretd.Controller.Requests.{
  begin_request, respond, timeout_request, revoke_grant, extend_grant, prepare_waiting_requests,
}
use secretd.Controller.AwsRequests.{begin_aws_request, respond_aws_with_denial, timeout_aws_request}
use secretd.Controller.Vaulted.{
  snapshot, forget_expired, unlock_vault, lock_all, revoke_all, revoke_each, listed, deny_each,
  deny_each_aws, create_vault, save_controller_secret, delete_secret, change_master_password,
}
use secretd.Controller.Consistent.{
  Heard-none, IsConsistent, respond-IsConsistent, begin_request-IsConsistent,
}
use secretd.Controller.ConsistentAws.{
  other_fields, respond_aws-IsConsistent, timeout_aws-IsConsistent, begin_aws-IsConsistent,
}
use secretd.Controller.Requested.{prepare_each-keeps, revoke_grant-keeps, timed_out-keeps}
use secretd.Controller.ConsistentOwner.{
  create_vault-Keeps, save_controller_secret-Keeps, delete_secret-Keeps,
  change_master_password-Keeps, save_aws_configuration-Keeps, save_aws_connection-Keeps,
  persist_aws_session-Keeps, prepare_aws_login-Keeps, complete_aws_login-keeps,
  complete_aws_discovery_failure-keeps, revoke_aws_denial-keeps, revoke_aws_grant-keeps,
  set_aws_grant_level-Keeps,
}
use secretd.Controller.Session.{
  save_aws_configuration, save_aws_connection, persist_aws_settings, prepare_aws_login,
  set_aws_login_status, complete_aws_login, complete_aws_discovery_failure,
}
use secretd.Controller.AwsGrants.{
  revoke_aws_denial, revoke_aws_grant, set_aws_grant_level, extend_aws_grant,
}
use secretd.Controller.Audit.{send_aws}

-- What happens to the controller: requests of clients, answers and commands of the owner, and the
-- end of the time for an answer.
pub data Event : Type 0 where
  asked : Text → List ProcessIdentity → Bool → Event
  answered : Text → ApprovalDecision → Option ℕ → Option ProcessIdentity → Event
  expired : Text → Event
  asked_aws : Text → List ProcessIdentity → Bool → Event
  answered_aws : Text → Option AwsAccessLevel → Option ProcessIdentity → Option ℕ → Bool → Event
  expired_aws : Text → Event
  revoked : Text → Event
  extended : Text → Event
  shown : Event
  unlocked_with : Platform → Host → Text → Event
  locked : Event
  created : Platform → Host → Text → Event
  saved : Platform → Host → Host → Text → Text → Option Text → Event
  deleted : Platform → Host → Text → Event
  password_changed : Platform → Host → Text → Event
  aws_configured : Platform → Host → AwsConfiguration → Event
  aws_connected : Platform → Host → Text → Text → Event
  aws_persisted : Platform → Host → AwsSettings → Event
  login_prepared : Event
  login_became : AwsLoginStatus → Event
  login_completed : Platform → Host → Result AwsSettings → Event
  discovery_failed_with : Platform → Host → AwsSettings → Failure → Event
  denial_lifted : Text → Event
  aws_revoked : Text → Event
  aws_level_set : Text → AwsAccessLevel → Event
  aws_extended : Text → Event

abbrev pub handle : Event → Controller → Controller
handle (asked input tree verified) c = (begin_request input tree verified c).1
handle (answered id decision ttl selected) c = (respond id decision ttl selected c).1
handle (expired id) c = timeout_request id c
handle (asked_aws input tree verified) c = (begin_aws_request input tree verified c).1
handle (answered_aws id level selected ttl remembered) c =
    (respond_aws_with_denial id level selected ttl remembered c).1
handle (expired_aws id) c = timeout_aws_request id c
handle (revoked id) c = revoke_grant id c
handle (extended id) c = extend_grant id c
handle shown c = (snapshot c).1
handle (unlocked_with p host password) c = (unlock_vault p host password c).1
handle locked c = lock_all c
handle (created p host password) c = (create_vault p host password c).1
handle (saved p renaming saving name value previous) c =
    (save_controller_secret p renaming saving name value previous c).1
handle (deleted p host name) c = (delete_secret p host name c).1
handle (password_changed p host password) c = (change_master_password p host password c).1
handle (aws_configured p host configuration) c = (save_aws_configuration p host configuration c).1
handle (aws_connected p host start_url sso_region) c =
    (save_aws_connection p host start_url sso_region c).1
handle (aws_persisted p host settings) c = (persist_aws_settings p host settings c).1
handle login_prepared c = (prepare_aws_login c).1
handle (login_became status) c = set_aws_login_status status c
handle (login_completed p host result) c = complete_aws_login p host result c
handle (discovery_failed_with p host settings error) c =
    complete_aws_discovery_failure p host settings error c
handle (denial_lifted id) c = revoke_aws_denial id c
handle (aws_revoked id) c = revoke_aws_grant id c
handle (aws_level_set id level) c = (set_aws_grant_level id level c).1
handle (aws_extended id) c = extend_aws_grant id c

abbrev pub handle_all : List Event → Controller → Controller
handle_all [] c = c
handle_all (event ∷ events) c = handle_all events (handle event c)

unlock_vault-keeps :
    (p : Platform) (host : Host) (password : Text) (c : Controller)
    → IsConsistent c
    → IsConsistent (unlock_vault p host password c).1
unfolding unlock_vault prepare_waiting_requests
unlock_vault-keeps p host password c h = elim (Result-cases (unlock p host password c.vault).0) [
  | inl (u, opened) ↦ rw opened (
      prepare_each-keeps (keys c.waiting_for_unlock) _
        (other_fields c _ refl refl refl refl refl h))
  | inr (f, refused) ↦ rw refused (other_fields c _ refl refl refl refl refl h)
]

pub revoke_each-keeps :
    (grants : List Grant) (c : Controller) → IsConsistent c → IsConsistent (revoke_each grants c)
unfolding revoke_each
revoke_each-keeps [] c h = h
revoke_each-keeps (g ∷ grants) c h = revoke_each-keeps grants _ (revoke_grant-keeps g.id c h)

deny_each-keeps :
    (ids : List Text) (c : Controller) → IsConsistent c → IsConsistent (deny_each ids c)
unfolding deny_each
deny_each-keeps [] c h = h
deny_each-keeps (id ∷ ids) c h = deny_each-keeps ids _ (respond-IsConsistent id deny none none c h)

-- The denials to the clients of AWS leave what is pending to the caller.
deny_each_aws_lem :
    (ids : List Text) (c : Controller)
    → ((deny_each_aws ids c).audit ≡ c.audit)
      × ((deny_each_aws ids c).pending ≡ c.pending)
      × ((deny_each_aws ids c).pending_resolutions ≡ c.pending_resolutions)
unfolding deny_each_aws send_aws
deny_each_aws_lem [] c = (refl, refl, refl)
deny_each_aws_lem (id ∷ ids) c =
    let ih = deny_each_aws_lem ids (send_aws id AwsRequestResolution.denied c) in ground (arith, ih)

lock_all-keeps : (c : Controller) → IsConsistent c → IsConsistent (lock_all c)
unfolding lock_all revoke_all listed
lock_all-keeps c h =
    let locked = record c { vault = Vault.lock c.vault } in
    let (grants, d) = listed locked in
    let revoked = revoke_each grants d in
    let before = revoke_each-keeps grants d (other_fields c d refl refl refl refl refl h) in
    let answered = deny_each (keys revoked.pending) revoked in
    let before_told = deny_each-keeps (keys revoked.pending) revoked before in
    let told = deny_each_aws_lem (keys answered.pending_aws_resolutions) answered in
    record {
      short = rw told.0 before_told.short;
      keyed = rw told.1 before_told.keyed;
      keyed_aws = tt;
      heard = rw (told.1, told.2) before_told.heard;
      heard_aws = Heard-none _ _;
    }

handle-keeps : (event : Event) (c : Controller) → IsConsistent c → IsConsistent (handle event c)
unfolding timeout_request extend_grant snapshot forget_expired persist_aws_settings
    secretd.Controller.Session.persist_aws_session set_aws_login_status extend_aws_grant
handle-keeps (asked input tree verified) c h = begin_request-IsConsistent input tree verified c h
handle-keeps (answered id decision ttl selected) c h =
    respond-IsConsistent id decision ttl selected c h
handle-keeps (expired id) c h = timed_out-keeps id (get id c.pending) c h
handle-keeps (asked_aws input tree verified) c h = begin_aws-IsConsistent input tree verified c h
handle-keeps (answered_aws id level selected ttl remembered) c h =
    respond_aws-IsConsistent id level selected ttl remembered c h
handle-keeps (expired_aws id) c h = timeout_aws-IsConsistent id c h
handle-keeps (revoked id) c h = revoke_grant-keeps id c h
handle-keeps (extended id) c h = other_fields c (extend_grant id c) refl refl refl refl refl h
handle-keeps shown c h = other_fields c (snapshot c).1 refl refl refl refl refl h
handle-keeps (unlocked_with p host password) c h = unlock_vault-keeps p host password c h
handle-keeps locked c h = lock_all-keeps c h
handle-keeps (created p host password) c h = create_vault-Keeps p host password c h
handle-keeps (saved p renaming saving name value previous) c h =
    save_controller_secret-Keeps p renaming saving name value previous c h
handle-keeps (deleted p host name) c h = delete_secret-Keeps p host name c h
handle-keeps (password_changed p host password) c h =
    change_master_password-Keeps p host password c h
handle-keeps (aws_configured p host configuration) c h =
    save_aws_configuration-Keeps p host configuration c h
handle-keeps (aws_connected p host start_url sso_region) c h =
    save_aws_connection-Keeps p host start_url sso_region c h
handle-keeps (aws_persisted p host settings) c h =
    persist_aws_session-Keeps p host settings false c h
handle-keeps login_prepared c h = prepare_aws_login-Keeps c h
handle-keeps (login_became status) c h =
    other_fields c (set_aws_login_status status c) refl refl refl refl refl h
handle-keeps (login_completed p host result) c h = complete_aws_login-keeps p host result c h
handle-keeps (discovery_failed_with p host settings error) c h =
    complete_aws_discovery_failure-keeps p host settings error c h
handle-keeps (denial_lifted id) c h = revoke_aws_denial-keeps id c h
handle-keeps (aws_revoked id) c h = revoke_aws_grant-keeps id c h
handle-keeps (aws_level_set id level) c h = set_aws_grant_level-Keeps id level c h
handle-keeps (aws_extended id) c h =
    other_fields c (extend_aws_grant id c) refl refl refl refl refl h

handle_all-keeps :
    (events : List Event) (c : Controller) → IsConsistent c → IsConsistent (handle_all events c)
handle_all-keeps [] c h = h
handle_all-keeps (event ∷ events) c h =
    handle_all-keeps events (handle event c) (handle-keeps event c h)

-- From a new controller, whatever requests of clients, answers, timeouts, commands of the owner on
-- the vault, the grants, the denials and the AWS settings, and steps of a login follow, in whatever
-- order, the history has at most 500 entries, each pending request stands under its own ID, once,
-- and for each a client still listens.
pub handle_all-IsConsistent :
    (disk : Disk) (world : World) (events : List Event)
    → IsConsistent (handle_all events (new_controller disk world))
unfolding new_controller get
handle_all-IsConsistent disk world events =
    handle_all-keeps events (new_controller disk world) (record {
      short = omega arith;
      keyed = tt;
      keyed_aws = tt;
      heard = λ id p. p;
      heard_aws = λ id p. p;
    })
