-- ===== src/Server/Tests.antt =====
-- The server at concrete inputs.
use secretd.Vault.Tests.{open_store, plaintext_npm}
use secretd.Aws.{read_only, AwsCredentialProcessOutput}
use secretd.Prelude.{
  ℕ, ◌≡◌, ◌≤◌, ◌↔◌, refl, true, false, none, some, Option, List, [], ◌∷◌, ◌++◌, ◌⊎◌, arith,
}
use secretd.Prelude.Text.{Text, codes}
use secretd.Prelude.Result.{ok, err, Failure}
use secretd.Vault.Tests.{working}
use secretd.Vault.Sample.{sample}
use secretd.Aws.BrokerTests.{service, with_session}
use secretd.Controller.Tests.{ready}
use secretd.Server.Protocol.{ClientRequest, EndpointFile, Json, ClientResponse}
use secretd.Aws.{Surroundings}
use secretd.Controller.Reachable.{Event}
use secretd.Server.Secrets.{Peer, handle_secret_request}
use secretd.Server.Shared.{Server}
use secretd.Server.Answers.{IsAllowed, handle_secret_request-IsAllowed}
use secretd.Server.Token.{constant_time_equal}
use secretd.Server.Limits.{Active, Arrival, connected, arrive_all, ended}
use secretd.Server.LimitLaws.{IsLimited, arrive_all-IsLimited}
use secretd.Vault.{Host}
use secretd.Server.Endpoint.{RuntimeFiles, write_endpoint}
use secretd.Controller.{Controller, once}
use secretd.Server.Handler.{handle_connection}
use secretd.Server.TokenLaws.{constant_time_equal_iff}
use secretd.Server.EndpointLaws.{write_endpoint_atomic}
use secretd.Server.Authentic.{IsAuthentic, handle_connection-IsAuthentic}
use secretd.Server.Credentials.{handle_aws_request}
use secretd.Server.AwsAnswers.{IsPermitted, handle_aws_request-IsPermitted}

-- Nothing works but what a line of JSON needs: every value is the same line.
abbrev pub fixed_json : ClientRequest → ClientResponse → EndpointFile → Json
fixed_json request response endpoint = record {
  endpoint_bytes = λ e. some (1 ∷ []);
  read_endpoint = λ bytes. some endpoint;
  request_bytes = λ r. some (2 ∷ []);
  read_request = λ bytes. some request;
  response_bytes = λ r. some (3 ∷ []);
  read_response = λ bytes. some response;
}

abbrev no_browser : Surroundings
no_browser = record {
  urls = record {
    scheme_and_host = λ url. none;
    append_pairs = λ url pairs. url;
    join = λ url target. none;
  };
  challenge = λ verifier. verifier;
  browser = err Failure.authorization_url;
  connections = [];
}

-- a server beside threads that do the events before each time that it gets the lock
abbrev pub server : List (List Event) → Controller → Server
server others controller = record {
  controller = controller;
  others = others;
  notified = 0;
  platform = record sample { plaintext_to_json = λ plaintext. some (1 ∷ []) };
  hosts = λ n. working;
  writes = 0;
  service = service;
  log = [];
  seconds = λ n. 1000;
  reads = 0;
  around = no_browser;
  spawn_error = none;
  logins = 0;
  sockets = record { tcp = none; descriptors = λ pid. none };
}

abbrev pub nowhere : Peer
nowhere = record { local = none; peer = none }

-- the owner approves the request while the client waits
abbrev pub approving : Server
approving = server ([] ∷ (Event.answered (codes "a") once none none ∷ []) ∷ [] ∷ []) ready

abbrev pub approved : Server
approved = (handle_secret_request (codes "npm") 9 nowhere approving).1

pub approves : handle_secret_request (codes "npm") 9 nowhere approving ≡ (ok (codes "v1"), approved)
unfolding handle_secret_request secretd.Controller.begin_request secretd.Vault.normalize_secret_name
    secretd.Prelude.Text.slashes secretd.Prelude.Text.trim secretd.Prelude.any
    secretd.Prelude.Text.is_control secretd.Prelude.Text.split secretd.Prelude.Text.same_text
    secretd.Process.omit_secretd_client_processes secretd.Prelude.skip_while
    secretd.Process.is_secretd_client_process secretd.Prelude.Text.to_ascii_lowercase
    secretd.Prelude.Text.last_piece secretd.Prelude.Text.split_whitespace secretd.Vault.unlocked
    secretd.Vault.reveal secretd.Vault.require_data secretd.Controller.record_audit
    secretd.Controller.begin_unlocked secretd.Controller.has_grant secretd.Controller.queue_request
    secretd.Grants.cleanup secretd.Grants.find_grant secretd.Grants.find_in_tree
    secretd.Prelude.find_last secretd.Prelude.retain secretd.Prelude.Map.get
    secretd.Prelude.Map.insert secretd.Prelude.Map.remove secretd.Prelude.Text.contains
    secretd.Prelude.Text.end_at secretd.Prelude.Text.is_whitespace secretd.Prelude.Text.split_where
    secretd.Prelude.Text.starts_with secretd.Prelude.Text.trim_end secretd.Prelude.Text.trim_start
    secretd.Process.same_process secretd.Vault.validate_name secretd.Vault.validate_segments
    secretd.Controller.new_controller secretd.Controller.respond
    secretd.Controller.validated_grant_process secretd.Process.is_launchd_process
    secretd.Prelude.find secretd.Controller.validated_grant_seconds secretd.Grants.add_grant
    secretd.Vault.new_store secretd.Controller.send secretd.Controller.approve_covered
    secretd.Controller.begin_aws_request secretd.Controller.normalize_aws_profile
    secretd.Aws.validate_aws_profile secretd.Prelude.Text.byte_len secretd.Prelude.all
    secretd.Prelude.Text.is_ascii_alphanumeric secretd.Controller.prune_denials secretd.Aws.target
    secretd.Controller.answer_aws secretd.Controller.configured_settings
    secretd.Controller.find_decision secretd.Controller.find_target
    secretd.Controller.prune_exited_aws_grants secretd.Controller.queue_aws_request
    secretd.Controller.queued secretd.Prelude.Text.after_last secretd.Prelude.Text.is_ascii_digit
    secretd.Process.inspect_process secretd.Process.inspect_read secretd.Process.inspect_stat
    secretd.Process.parse_u32 secretd.Process.process_is_alive secretd.Process.stat_fields
    secretd.Vault.aws_settings secretd.Process.inspect_process_tree
    secretd.Process.inspect_ancestors secretd.Server.request_process secretd.Server.after_begin
    secretd.Server.finish_secret secretd.Server.with_lock secretd.Server.meanwhile
    secretd.Server.receive secretd.Server.message_for secretd.Process.verify_connection_owner
    secretd.Process.verify_connection_tuple secretd.Controller.release_after_approval
approves = refl

handle_secret_request_example : IsAllowed (codes "npm") 9 nowhere (codes "v1") approving
handle_secret_request_example =
    handle_secret_request-IsAllowed (codes "npm") 9 nowhere (codes "v1") approving approved approves

abbrev asks : ClientRequest
asks = record {
  version = 1;
  token = codes "T";
  action = codes "get";
  secret = some (codes "npm");
  profile = none;
  pid = 9;
}

abbrev endpoint : EndpointFile
endpoint = record { version = 1; host = codes "127.0.0.1"; port = 4000; token = codes "T" }

abbrev json : Json
json = fixed_json asks (record { ok = true; value = none; error = none }) endpoint

handle_connection_example :
    ((f : Failure) × (handle_connection json 3
          (λ output. none)
          (codes "T")
          (some (2 ∷ 10 ∷ []))
          nowhere
          approving
        ≡ (err f, approving)))
    ⊎ IsAuthentic json (codes "T") (some (2 ∷ 10 ∷ []))
handle_connection_example =
    handle_connection-IsAuthentic json 3 (λ output. none) (codes "T") (some (2 ∷ 10 ∷ [])) nowhere
      approving

constant_time_equal_example :
    (constant_time_equal (codes "ab") (codes "ac") ≡ true) ↔ (codes "ab" ≡ codes "ac")
constant_time_equal_example = constant_time_equal_iff (codes "ab") (codes "ac")

abbrev idle : Active
idle = record { counter = 0; threads = 0; refused = 0 }

abbrev arrivals : List Arrival
arrivals = connected true ∷ connected false ∷ ended ∷ ended ∷ []

idle-IsLimited : IsLimited idle
idle-IsLimited = record { counted = omega arith; served = omega arith }

arrive_all_example : IsLimited (arrive_all arrivals idle)
arrive_all_example = arrive_all-IsLimited arrivals idle idle-IsLimited

abbrev broken : Host
broken = record working { renaming = err (Failure.io_error (codes "busy")) }

abbrev before : RuntimeFiles
before = record { runtime = some (7 ∷ []); temporary = [] }

write_endpoint_example :
    ((bytes : List ℕ) × (json.endpoint_bytes endpoint ≡ some bytes)
      × (write_endpoint json broken endpoint before
          ≡ (ok tt, record before { runtime = some (bytes ++ 10 ∷ []) })))
    ⊎ ((f : Failure) × ((write_endpoint json broken endpoint before).0 ≡ err f)
        × ((write_endpoint json broken endpoint before).1.runtime ≡ before.runtime)
        × ((broken.removable ≡ false)
            ⊎ ((write_endpoint json broken endpoint before).1.temporary ≡ before.temporary)))
write_endpoint_example = write_endpoint_atomic json broken endpoint before

-- settings with a token, no decision, and the owner's approval of the level while the client waits
abbrev permitting : Server
permitting =
    server ([] ∷ (Event.answered_aws (codes "a") (some read_only) none none false ∷ []) ∷ [])
      (record ready {
        vault = record open_store {
          plaintext = some (record plaintext_npm { aws = some (with_session 5000) });
        };
        aws_process_decisions = [];
      })

abbrev encode : AwsCredentialProcessOutput → Option Text
encode output = some output.session_token

abbrev permitted : Server
permitted = (handle_aws_request 3 encode (codes "production") 9 nowhere permitting).1

permits :
    handle_aws_request 3 encode (codes "production") 9 nowhere permitting
    ≡ (ok (codes "session"), permitted)
unfolding secretd.Server.handle_aws_request secretd.Server.await_level secretd.Server.finish_wait
    secretd.Server.receive_aws secretd.Server.retry_expired secretd.Server.with_broker
    secretd.Controller.aws_credential_context secretd.Controller.persist_aws_session
    secretd.Controller.persist_aws_settings secretd.Controller.respond_aws_with_denial
    secretd.Controller.answer_request secretd.Controller.approve_aws secretd.Controller.send_aws
    secretd.Aws.credentials secretd.Aws.credentials_answer secretd.Aws.output_of secretd.Aws.role
    secretd.Vault.save_aws_settings secretd.Server.Secrets.handle_secret_request
    secretd.Controller.begin_request secretd.Vault.normalize_secret_name
    secretd.Prelude.Text.slashes secretd.Prelude.Text.trim secretd.Prelude.any
    secretd.Prelude.Text.is_control secretd.Prelude.Text.split secretd.Prelude.Text.same_text
    secretd.Process.omit_secretd_client_processes secretd.Prelude.skip_while
    secretd.Process.is_secretd_client_process secretd.Prelude.Text.to_ascii_lowercase
    secretd.Prelude.Text.last_piece secretd.Prelude.Text.split_whitespace secretd.Vault.unlocked
    secretd.Vault.reveal secretd.Vault.require_data secretd.Controller.record_audit
    secretd.Controller.begin_unlocked secretd.Controller.has_grant secretd.Controller.queue_request
    secretd.Grants.cleanup secretd.Grants.find_grant secretd.Grants.find_in_tree
    secretd.Prelude.find_last secretd.Prelude.retain secretd.Prelude.Map.get
    secretd.Prelude.Map.insert secretd.Prelude.Map.remove secretd.Prelude.Text.contains
    secretd.Prelude.Text.end_at secretd.Prelude.Text.is_whitespace secretd.Prelude.Text.split_where
    secretd.Prelude.Text.starts_with secretd.Prelude.Text.trim_end secretd.Prelude.Text.trim_start
    secretd.Process.same_process secretd.Vault.validate_name secretd.Vault.validate_segments
    secretd.Controller.new_controller secretd.Controller.respond
    secretd.Controller.validated_grant_process secretd.Process.is_launchd_process
    secretd.Prelude.find secretd.Controller.validated_grant_seconds secretd.Grants.add_grant
    secretd.Vault.new_store secretd.Controller.send secretd.Controller.approve_covered
    secretd.Controller.begin_aws_request secretd.Controller.normalize_aws_profile
    secretd.Aws.validate_aws_profile secretd.Prelude.Text.byte_len secretd.Prelude.all
    secretd.Prelude.Text.is_ascii_alphanumeric secretd.Controller.prune_denials secretd.Aws.target
    secretd.Controller.answer_aws secretd.Controller.configured_settings
    secretd.Controller.find_decision secretd.Controller.find_target
    secretd.Controller.prune_exited_aws_grants secretd.Controller.queue_aws_request
    secretd.Controller.queued secretd.Prelude.Text.after_last secretd.Prelude.Text.is_ascii_digit
    secretd.Process.inspect_process secretd.Process.inspect_read secretd.Process.inspect_stat
    secretd.Process.parse_u32 secretd.Process.process_is_alive secretd.Process.stat_fields
    secretd.Vault.aws_settings secretd.Process.inspect_process_tree
    secretd.Process.inspect_ancestors secretd.Server.request_process secretd.Server.after_begin
    secretd.Server.finish_secret secretd.Server.with_lock secretd.Server.meanwhile
    secretd.Server.receive secretd.Server.message_for secretd.Process.verify_connection_owner
    secretd.Process.verify_connection_tuple secretd.Controller.release_after_approval
    secretd.Aws.refresh_access_token secretd.Aws.token_expired secretd.Aws.refresh_token_error
    secretd.Aws.parse_callback secretd.Aws.discover_accounts secretd.Aws.validate_identifier
    secretd.Aws.validate_targets secretd.Prelude.Text.contains_text secretd.Aws.validate_accounts
    secretd.Aws.validate_discovered secretd.Prelude.Text.text_lt secretd.Aws.validate
    secretd.Aws.validate_assignments secretd.Aws.validate_role_names secretd.Aws.validate_roles
    secretd.Aws.dedup secretd.Aws.dedup_after secretd.Aws.fetch_accounts secretd.Aws.fetch_roles
    secretd.Aws.first_of_each secretd.Aws.list_account_roles secretd.Aws.pages
    secretd.Aws.sso_failure secretd.Aws.with_accounts secretd.Aws.with_roles
    secretd.Aws.aws_error_message secretd.Aws.current_registration secretd.Aws.ends_registration
    secretd.Aws.ends_session secretd.Aws.finish_renewal secretd.Aws.forget_rejected
    secretd.Aws.fresh_access_token secretd.Aws.fresh_token secretd.Aws.or_else secretd.Aws.positive
    secretd.Aws.previous_refresh secretd.Aws.renew_access_token secretd.Aws.renew_unless
    secretd.Aws.required secretd.Aws.token_from_output secretd.Aws.with_sources
    secretd.Prelude.Sort.insert_by secretd.Prelude.Sort.sort_by secretd.Prelude.Text.ends_with
    secretd.Vault.save_secret secretd.Vault.save secretd.Vault.save_with
    secretd.Vault.Sample.write_plaintext secretd.Vault.Sample.fill secretd.Vault.Sample.write_file
    secretd.Vault.additional_data secretd.Vault.insert_sorted secretd.Vault.create
    secretd.Vault.validate_password secretd.Vault.exists secretd.Vault.derive_key
    secretd.Vault.change_password secretd.Controller.set_aws_grant_level
permits = refl

handle_aws_request_example : IsPermitted (codes "production") 9 nowhere permitting
handle_aws_request_example =
    handle_aws_request-IsPermitted 3 encode (codes "production") 9 nowhere (codes "session")
      permitting permitted permits
