-- ===== src/Client/Tests.antt =====
-- The command line at concrete inputs.
use secretd.Client.Mode.{Mode}
use secretd.Client.Request.{request}
use secretd.Client.RoundTrip.{told}
use secretd.Server.Tests.{approving, approves}
use secretd.Prelude.{ap, ◌≡◌, refl, true, false, none, some, Option, [], ◌∷◌, arith}
use secretd.Prelude.Text.{Text, codes, same_text}
use secretd.Prelude.Result.{ok, Failure}
use secretd.Server.Tests.{nowhere, fixed_json}
use secretd.Server.{
  EndpointFile, ClientRequest, ClientResponse, Json, write_response, dispatch, max_request_bytes,
  response_of, handle_connection,
}
use secretd.Client.Request.{ClientHost, max_response_bytes}
use secretd.Aws.{AwsCredentialProcessOutput}
use secretd.Client.RoundTrip.{IsCarried, told, IsConnected, request-dispatch}
use secretd.Client.Mode.{mode, launch_arguments}
use secretd.Client.ModeLaws.{mode-launch_arguments}

abbrev message : Failure → Text
message f = codes "no"

abbrev endpoint : EndpointFile
endpoint = record { version = 1; host = codes "127.0.0.1"; port = 4000; token = codes "T" }

-- a request that the owner approves while the client waits
abbrev asked : ClientRequest
asked = record {
  version = 1;
  token = codes "T";
  action = codes "get";
  secret = some (codes "npm");
  profile = none;
  pid = 9;
}

abbrev answer : ClientResponse
answer = record { ok = true; value = some (codes "v1"); error = none }

abbrev json : Json
json = fixed_json asked answer endpoint

abbrev host : ClientHost
host = record {
  runtime_file = some (1 ∷ []);
  connecting = none;
  timeouts = ok tt;
  sending = none;
  exchange = λ line. ok (3 ∷ 10 ∷ []);
  process_id = 9;
}

abbrev no_output : AwsCredentialProcessOutput → Option Text
no_output output = none

connected :
    IsConnected json message host endpoint
      (λ received. (handle_connection json 3 no_output endpoint.token received nowhere approving).0)
unfolding write_response same_text
connected = record {
  contents = 1 ∷ [];
  there = refl;
  parsed = refl;
  usable = refl;
  connects = refl;
  timed = refl;
  sends = refl;
  named = λ e. absurd (omega (arith, e));
  exchanged = λ line answered e. ground (arith, e);
}

asked-IsCarried : IsCarried max_request_bytes json.request_bytes json.read_request asked
asked-IsCarried = record {
  bytes = 2 ∷ [];
  written = refl;
  one_line = (λ e. absurd (omega (arith, e)), tt);
  fits = omega arith;
  read_back = refl;
}

gets : (dispatch 3 no_output asked nowhere approving).0 ≡ ok (codes "v1")
unfolding dispatch secretd.Server.present same_text
gets = ap (λ r. r.0) approves

answer-IsCarried :
    IsCarried max_response_bytes json.response_bytes json.read_response
      (response_of message (dispatch 3 no_output asked nowhere approving).0)
unfolding response_of
answer-IsCarried = record {
  bytes = 3 ∷ [];
  written = refl;
  one_line = (λ e. absurd (omega (arith, e)), tt);
  fits = omega arith;
  read_back = rw gets refl;
}

request_example :
    request json host (codes "get") (some (codes "npm")) none
    ≡ told message (dispatch 3 no_output asked nowhere approving).0
request_example =
    request-dispatch json message 3 no_output nowhere approving host endpoint (codes "get")
      (some (codes "npm")) none connected asked-IsCarried answer-IsCarried

mode_example :
    mode (launch_arguments (codes "desktop" ∷ codes "--show" ∷ [])) ≡ some (Mode.desktop false)
mode_example = mode-launch_arguments (codes "desktop" ∷ codes "--show" ∷ [])
