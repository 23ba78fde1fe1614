-- ===== src/Controller/Tests.antt =====
-- The controller at concrete inputs.
use secretd.Controller.Answered.{handle_all-Told, lock_all_tells}
use secretd.Prelude.{
  is_some, ℕ, suc, ◌≡◌, ◌≤◌, ◌<◌, refl, true, false, some, none, Option, List, [], ◌∷◌, ◌++◌,
  length, arith, if◌then◌else◌, Bool, any, map, find, ◌+◌,
}
use secretd.Prelude.Text.{Text, codes, same_text}
use secretd.Prelude.Map.{get, member}
use secretd.Prelude.Keyed.{IsKeyed}
use secretd.Prelude.Result.{ok, err, request_not_pending}
use secretd.Process.{ProcessIdentity}
use secretd.Process.Tests.{shell, client, two_processes}
use secretd.Grants.Tests.{one_grant}
use secretd.Aws.{AwsAccessLevel, read_only, admin}
use secretd.Aws.Tests.{saved}
use secretd.Vault.{VaultStore}
use secretd.Vault.Tests.{open_store, plaintext_npm, empty_disk, working, password}
use secretd.Vault.Sample.{sample}
use secretd.Controller.{
  ApprovalDecision, temporary, once, deny, RequestResolution, AuditAction, AuditEntry,
  PendingRequest, RequestOutcome, AwsRequestOutcome, World, Controller, new_controller,
  AwsCredentialGrant, begin_request, respond, boundary_of, resolution_of, lock_all, record_audit,
  max_audit_entries, now_millis, begin_aws_request, remember_aws_denial, remember_aws_grant,
  set_aws_grant_level, prune_exited_aws_grants, find_decision, denies, has_grant_id,
}
use secretd.Controller.Release.{IsReleased, begin_request-IsReleased}
use secretd.Controller.Respond.{respond_refused}
use secretd.Controller.Covered.{respond_pending, request_id, covered_by, unless}
use secretd.Controller.Locking.{IsLocked, lock_all-IsLocked}
use secretd.Controller.AwsAnswers.{IsDecided, begin_aws_request-IsDecided}
use secretd.Controller.AwsMemory.{begin-remember_aws_denial}
use secretd.Controller.History.{record_audit_lem, Kept}
use secretd.Controller.Consistent.{IsConsistent}
use secretd.Controller.Reachable.{Event, handle_all, handle_all-IsConsistent}
use secretd.Controller.Told.{Told}

abbrev pub world : World
world = record {
  clock = λ n. 2000 + n;
  seconds = λ n. 2;
  reads = 0;
  uuid = λ n. (b'a' + n) ∷ [];
  draws = 0;
  processes = two_processes;
}

-- a request for the secret `npm` that waits for an answer
abbrev pub waiting : PendingRequest
waiting = record {
  id = codes "r1";
  secret = codes "npm";
  verified = true;
  process_tree = shell ∷ [];
  origin = shell;
  requested_at = 1500;
}

-- the shell as the files of /proc show it
abbrev running_shell : ProcessIdentity
running_shell = record shell { command = codes "/bin/sh" }

abbrev read_only_grant : AwsCredentialGrant
read_only_grant = record {
  id = codes "d1";
  profile = codes "production";
  level = read_only;
  process = running_shell;
  created_at = 1000;
  expires_at = 900_000;
}

abbrev vault : VaultStore
vault = record open_store { plaintext = some (record plaintext_npm { aws = some saved }) }

-- an unlocked vault, a grant and an AWS decision for the shell, and a request
abbrev pub ready : Controller
ready = record (new_controller empty_disk world) {
  vault = vault;
  grants = one_grant;
  pending = (codes "r1", waiting) ∷ [];
  pending_resolutions = (codes "r1", tt) ∷ [];
  aws_process_decisions = read_only_grant ∷ [];
}

abbrev pub tree : List ProcessIdentity
tree = client ∷ shell ∷ []

abbrev released : Controller
released = (begin_request (codes "npm") tree true ready).1

releases :
    begin_request (codes "npm") tree true ready
    ≡ (ok (RequestOutcome.immediate (codes "v1")), released)
unfolding begin_request secretd.Vault.normalize_secret_name secretd.Prelude.Text.slashes
    secretd.Prelude.Text.trim any secretd.Prelude.Text.is_control secretd.Prelude.Text.split
    same_text secretd.Process.omit_secretd_client_processes secretd.Prelude.skip_while
    secretd.Process.is_secretd_client_process secretd.Prelude.Text.to_ascii_lowercase
    secretd.Prelude.Text.last_piece secretd.Prelude.Text.split_whitespace secretd.Vault.unlocked
    secretd.Vault.reveal secretd.Vault.require_data record_audit secretd.Controller.begin_unlocked
    secretd.Controller.has_grant secretd.Controller.queue_request secretd.Grants.cleanup
    secretd.Grants.find_grant secretd.Grants.find_in_tree secretd.Prelude.find_last
    secretd.Prelude.retain get secretd.Prelude.Map.insert secretd.Prelude.Map.remove
    secretd.Prelude.Text.contains secretd.Prelude.Text.end_at secretd.Prelude.Text.is_whitespace
    secretd.Prelude.Text.split_where secretd.Prelude.Text.starts_with secretd.Prelude.Text.trim_end
    secretd.Prelude.Text.trim_start secretd.Process.same_process secretd.Vault.validate_name
    secretd.Vault.validate_segments new_controller
releases = refl

begin_request_example : IsReleased (codes "npm") tree true ready (codes "v1")
begin_request_example =
    begin_request-IsReleased (codes "npm") tree true ready released (codes "v1") releases

abbrev decided : Controller
decided = (begin_aws_request (codes "production") tree true ready).1

decides :
    begin_aws_request (codes "production") tree true ready
    ≡ (ok (AwsRequestOutcome.immediate read_only), decided)
unfolding begin_aws_request secretd.Controller.normalize_aws_profile
    secretd.Aws.validate_aws_profile secretd.Prelude.Text.trim secretd.Prelude.Text.byte_len
    secretd.Prelude.all secretd.Prelude.Text.is_ascii_alphanumeric
    secretd.Process.omit_secretd_client_processes secretd.Prelude.skip_while
    secretd.Process.is_secretd_client_process same_text secretd.Prelude.Text.to_ascii_lowercase
    secretd.Prelude.Text.last_piece secretd.Prelude.Text.slashes
    secretd.Prelude.Text.split_whitespace any secretd.Controller.prune_denials secretd.Aws.target
    record_audit secretd.Controller.answer_aws secretd.Controller.configured_settings find_decision
    secretd.Controller.find_target prune_exited_aws_grants secretd.Controller.queue_aws_request
    secretd.Controller.queued find secretd.Prelude.find_last secretd.Prelude.retain
    secretd.Prelude.Map.insert secretd.Prelude.Map.remove secretd.Prelude.Text.after_last
    secretd.Prelude.Text.contains secretd.Prelude.Text.end_at secretd.Prelude.Text.is_ascii_digit
    secretd.Prelude.Text.is_whitespace secretd.Prelude.Text.split secretd.Prelude.Text.split_where
    secretd.Prelude.Text.starts_with secretd.Prelude.Text.trim_end secretd.Prelude.Text.trim_start
    secretd.Process.inspect_process secretd.Process.inspect_read secretd.Process.inspect_stat
    secretd.Process.parse_u32 secretd.Process.process_is_alive secretd.Process.same_process
    secretd.Process.stat_fields secretd.Vault.aws_settings secretd.Vault.require_data
    secretd.Vault.unlocked new_controller
decides = refl

begin_aws_request_example : IsDecided (codes "production") tree true ready read_only
begin_aws_request_example =
    begin_aws_request-IsDecided (codes "production") tree true ready decided read_only decides

lock_all_example : IsLocked (lock_all ready)
lock_all_example = lock_all-IsLocked ready

abbrev answered : Controller
answered = (respond (codes "r1") temporary (some 60) none ready).1

answers : respond (codes "r1") temporary (some 60) none ready ≡ (ok tt, answered)
unfolding respond get same_text new_controller secretd.Controller.validated_grant_process
    secretd.Process.is_launchd_process secretd.Prelude.Text.to_ascii_lowercase
    secretd.Prelude.Text.last_piece secretd.Prelude.Text.slashes
    secretd.Prelude.Text.split_whitespace secretd.Prelude.Text.trim find
    secretd.Process.same_process secretd.Controller.validated_grant_seconds secretd.Grants.add_grant
answers = refl

ready-IsKeyed : IsKeyed request_id ready.pending
unfolding get
ready-IsKeyed = (refl, refl, tt)

respond_pending_example :
    (request : PendingRequest) × (boundary : Option ProcessIdentity) × (get
        (codes "r1")
        ready.pending
      ≡ some request)
    × (boundary_of temporary request none ≡ ok boundary)
    × (get (codes "r2") answered.pending ≡ (
        if same_text (codes "r1") (codes "r2")
        then none
        else unless (covered_by request.secret boundary) (get (codes "r2") ready.pending)))
respond_pending_example =
    respond_pending (codes "r1") temporary (some 60) none ready answered (codes "r2") ready-IsKeyed
      answers

abbrev unanswered : Controller
unanswered = (respond (codes "r9") once none none ready).1

refuses : respond (codes "r9") once none none ready ≡ (err request_not_pending, unanswered)
unfolding respond get same_text
refuses = refl

respond_refused_example : unanswered ≡ ready
respond_refused_example =
    respond_refused (codes "r9") once none none ready unanswered request_not_pending refuses

begin_denied_example :
    (begin_aws_request
      (codes "production")
      tree
      true
      (remember_aws_denial (codes "production") shell ready)).0
    ≡ ok AwsRequestOutcome.denied
unfolding secretd.Controller.normalize_aws_profile secretd.Aws.validate_aws_profile
    secretd.Prelude.Text.trim secretd.Prelude.Text.byte_len secretd.Prelude.all
    secretd.Prelude.Text.is_ascii_alphanumeric secretd.Process.omit_secretd_client_processes
    secretd.Prelude.skip_while secretd.Process.is_secretd_client_process same_text
    secretd.Prelude.Text.to_ascii_lowercase secretd.Prelude.Text.last_piece
    secretd.Prelude.Text.slashes secretd.Prelude.Text.split_whitespace any
    secretd.Process.same_process remember_aws_denial new_controller secretd.Prelude.retain
    secretd.Prelude.Text.contains secretd.Prelude.Text.end_at secretd.Prelude.Text.is_ascii_digit
    secretd.Prelude.Text.is_whitespace secretd.Prelude.Text.split secretd.Prelude.Text.split_where
    secretd.Prelude.Text.starts_with secretd.Prelude.Text.trim_end secretd.Prelude.Text.trim_start
    secretd.Vault.new_store
begin_denied_example =
    begin-remember_aws_denial (codes "production") (codes "production") shell shell tree ready refl
      refl refl (omega arith)

abbrev switched : Controller
switched = (set_aws_grant_level (codes "d1") admin ready).1

record_audit_example :
    let after = record_audit AuditAction.revoked (codes "npm") none shell ready in
    (entry : AuditEntry) × (entry.action ≡ AuditAction.revoked)
    × (entry.secret ≡ codes "npm")
    × (entry.ttl_seconds ≡ none)
    × (entry.process ≡ shell)
    × (entry.occurred_at ≡ now_millis ready)
    × (kept : List AuditEntry) × (after.audit ≡ kept ++ entry ∷ [])
    × Kept ready.audit kept
record_audit_example = record_audit_lem AuditAction.revoked (codes "npm") none shell ready

abbrev events : List Event
events =
    Event.asked (codes "npm") tree true
    ∷ Event.unlocked_with sample working password
    ∷ Event.answered (codes "a") once none none
    ∷ Event.asked_aws (codes "production") tree true
    ∷ Event.locked
    ∷ []

handle_all_example : IsConsistent (handle_all events (new_controller empty_disk world))
handle_all_example = handle_all-IsConsistent empty_disk world events

-- a request that is queued, and then answered
abbrev asked : List Event
asked = Event.asked (codes "npm") tree true ∷ []

abbrev told_state : Controller
told_state =
    (respond (codes "a") deny none none (handle_all asked (new_controller empty_disk world))).1

tells :
    respond (codes "a") deny none none (handle_all asked (new_controller empty_disk world))
    ≡ (ok tt, told_state)
unfolding begin_request secretd.Vault.normalize_secret_name secretd.Prelude.Text.slashes
    secretd.Prelude.Text.trim any secretd.Prelude.Text.is_control secretd.Prelude.Text.split
    same_text secretd.Process.omit_secretd_client_processes secretd.Prelude.skip_while
    secretd.Process.is_secretd_client_process secretd.Prelude.Text.to_ascii_lowercase
    secretd.Prelude.Text.last_piece secretd.Prelude.Text.split_whitespace secretd.Vault.unlocked
    secretd.Vault.reveal secretd.Vault.require_data record_audit secretd.Controller.begin_unlocked
    secretd.Controller.has_grant secretd.Controller.queue_request secretd.Grants.cleanup
    secretd.Grants.find_grant secretd.Grants.find_in_tree secretd.Prelude.find_last
    secretd.Prelude.retain get secretd.Prelude.Map.insert secretd.Prelude.Map.remove
    secretd.Prelude.Text.contains secretd.Prelude.Text.end_at secretd.Prelude.Text.is_whitespace
    secretd.Prelude.Text.split_where secretd.Prelude.Text.starts_with secretd.Prelude.Text.trim_end
    secretd.Prelude.Text.trim_start secretd.Process.same_process secretd.Vault.validate_name
    secretd.Vault.validate_segments new_controller respond
    secretd.Controller.validated_grant_process secretd.Process.is_launchd_process find
    secretd.Controller.validated_grant_seconds secretd.Grants.add_grant secretd.Vault.new_store
    secretd.Controller.send secretd.Controller.approve_covered
tells = refl

handle_all-Told_example : Told (codes "a") RequestResolution.denied told_state
handle_all-Told_example =
    handle_all-Told empty_disk world asked (codes "a") deny none none told_state tells

waits :
    is_some (get (codes "a") (handle_all asked (new_controller empty_disk world)).pending) ≡ true
unfolding begin_request secretd.Vault.normalize_secret_name secretd.Prelude.Text.slashes
    secretd.Prelude.Text.trim any secretd.Prelude.Text.is_control secretd.Prelude.Text.split
    same_text secretd.Process.omit_secretd_client_processes secretd.Prelude.skip_while
    secretd.Process.is_secretd_client_process secretd.Prelude.Text.to_ascii_lowercase
    secretd.Prelude.Text.last_piece secretd.Prelude.Text.split_whitespace secretd.Vault.unlocked
    secretd.Vault.reveal secretd.Vault.require_data record_audit secretd.Controller.begin_unlocked
    secretd.Controller.has_grant secretd.Controller.queue_request secretd.Grants.cleanup
    secretd.Grants.find_grant secretd.Grants.find_in_tree secretd.Prelude.find_last
    secretd.Prelude.retain get secretd.Prelude.Map.insert secretd.Prelude.Map.remove
    secretd.Prelude.Text.contains secretd.Prelude.Text.end_at secretd.Prelude.Text.is_whitespace
    secretd.Prelude.Text.split_where secretd.Prelude.Text.starts_with secretd.Prelude.Text.trim_end
    secretd.Prelude.Text.trim_start secretd.Process.same_process secretd.Vault.validate_name
    secretd.Vault.validate_segments new_controller respond
    secretd.Controller.validated_grant_process secretd.Process.is_launchd_process find
    secretd.Controller.validated_grant_seconds secretd.Grants.add_grant secretd.Vault.new_store
    secretd.Controller.send secretd.Controller.approve_covered
waits = refl

lock_all_tells_example :
    Told
      (codes "a")
      RequestResolution.denied
      (lock_all (handle_all asked (new_controller empty_disk world)))
lock_all_tells_example = lock_all_tells empty_disk world asked (codes "a") waits
