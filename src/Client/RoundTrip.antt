-- ===== src/Client/RoundTrip.antt =====
-- A request of the client and the answer of the server, from end to end.
use secretd.Server.TokenLaws.{constant_time_equal_iff}
use secretd.Client.Request.{request, is_usable}
use secretd.Prelude.{
  ap, ℕ, zero, suc, ◌≡◌, ◌≢◌, ◌≤◌, ◌+◌, refl, true, false, none, Option, some, List, [], ◌∷◌, ◌++◌,
  inl, inr, arith, All, length, Bool-cases, ltb→lt, ◌==◌, ==_iff, ltb,
}
use secretd.Prelude.Text.{Text}
use secretd.Prelude.Result.{Result, ok, err, Failure, remote}
use secretd.Server.{
  read_line, read_request, Json, response_of, ClientRequest, max_request_bytes, ClientResponse,
  handle_connection, EndpointFile, write_response, Peer, Server, dispatch, constant_time_equal,
  as_bytes,
}
use secretd.Client.Request.{parse_response, answer_of, max_response_bytes, ClientHost, request}
use secretd.Aws.{AwsCredentialProcessOutput}

-- A line that fits is read as it was written, with its newline.
read_line-line :
    (room : ℕ) (bytes : List ℕ)
    → All (λ b. b ≢ 10) bytes
    → length bytes + 1 ≤ room
    → read_line room (bytes ++ 10 ∷ []) ≡ bytes ++ 10 ∷ []
unfolding read_line
read_line-line zero bytes h fits = absurd (omega (arith, fits))
read_line-line (suc room) [] h fits = ground arith
read_line-line (suc room) (b ∷ bytes) h fits =
    let ih = read_line-line room bytes h.1 (ground arith) in
    elim (Bool-cases (b == 10)) [
      | inl newline ↦ absurd (h.0 ((==_iff b 10).0 newline))
      | inr other ↦ ground (arith, ih)
    ]

length-newline : (bytes : List ℕ) → length (bytes ++ 10 ∷ []) ≡ length bytes + 1
length-newline [] = refl
length-newline (b ∷ bytes) = ground (arith, length-newline bytes)

-- A value that a line of JSON carries: it is written without a newline, fits, and is read back.
pub record IsCarried {A : Type 0} (limit : ℕ) (write : A → Option (List ℕ))
    (parse : List ℕ → Option A) (a : A) : Type 0 where
  pub bytes : List ℕ
  pub written : write a ≡ some bytes
  pub one_line : All (λ b. b ≢ 10) bytes
  pub fits : length bytes + 1 ≤ limit
  pub read_back : parse (bytes ++ 10 ∷ []) ≡ some a

-- what the client is told: the value, or the message of the error
abbrev pub told : (Failure → Text) → Result Text → Result Text
told message (ok value) = ok value
told message (err e) = err (remote (message e))

small :
    (bytes : List ℕ)
    → length bytes ≤ max_request_bytes
    → ltb max_request_bytes (length bytes) ≡ false
small bytes h = elim (Bool-cases (ltb max_request_bytes (length bytes))) [
  | inl over ↦
      let more = ltb→lt max_request_bytes (length bytes) over in absurd (omega (arith, more, h))
  | inr under ↦ under
]

read_request-carried :
    (json : Json) (r : ClientRequest)
    → (c : IsCarried max_request_bytes json.request_bytes json.read_request r)
    → read_request json (some (c.bytes ++ 10 ∷ [])) ≡ ok r
unfolding read_request
read_request-carried json r c =
    let line = read_line-line (max_request_bytes + 1) c.bytes c.one_line (omega (arith, c.fits)) in
    rw (line, small (c.bytes ++ 10 ∷ []) (rw length-newline c.fits), c.read_back) refl

parse_response-line :
    (json : Json) (bytes : List ℕ) (response : ClientResponse)
    → json.read_response (bytes ++ 10 ∷ []) ≡ some response
    → parse_response json (bytes ++ 10 ∷ []) ≡ answer_of response
unfolding parse_response
parse_response-line json [] response e = rw e refl
parse_response-line json (b ∷ bytes) response e = rw e refl

answer_of-response_of :
    (message : Failure → Text) (result : Result Text)
    → answer_of (response_of message result) ≡ told message result
unfolding answer_of response_of
answer_of-response_of message (ok value) = refl
answer_of-response_of message (err e) = refl

parse_response-carried :
    (json : Json) (message : Failure → Text) (result : Result Text)
    → (c : IsCarried max_response_bytes json.response_bytes json.read_response
        (response_of message result))
    → parse_response json (read_line max_response_bytes (c.bytes ++ 10 ∷ [])) ≡ told message result
parse_response-carried json message result c =
    rw
      (
        read_line-line max_response_bytes c.bytes c.one_line c.fits,
        parse_response-line json c.bytes (response_of message result) c.read_back,
      )
      (answer_of-response_of message result)

handled_as :
    (json : Json) (fuel : ℕ) (encode : AwsCredentialProcessOutput → Option Text) (token : Text)
    (peer : Peer) (s : Server) (asked : ClientRequest) (line : List ℕ)
    → read_request json (some line) ≡ ok asked
    → asked.token ≡ token
    → asked.version ≡ 1
    → asked.pid ≢ 0
    → (handle_connection json fuel encode token (some line) peer s).0
      ≡ (dispatch fuel encode asked peer s).0
unfolding handle_connection
handled_as json fuel encode token peer s asked line e same first named =
    let equal : constant_time_equal (as_bytes asked.token) (as_bytes token) ≡ true =
      (constant_time_equal_iff (as_bytes asked.token) (as_bytes token)).1 (ap as_bytes same) in
    let one : (asked.version == 1) ≡ true = (==_iff asked.version 1).1 first in
    elim (Bool-cases (asked.pid == 0)) [
      | inl nobody ↦ absurd (named ((==_iff asked.pid 0).0 nobody))
      | inr process ↦ rw (e, equal, one, process) refl
    ]

-- The request that the client makes.
abbrev pub made : EndpointFile → ClientHost → Text → Option Text → Option Text → ClientRequest
made endpoint host action secret profile = record {
  version = 1;
  token = endpoint.token;
  action = action;
  secret = secret;
  profile = profile;
  pid = host.process_id;
}

-- A client beside a server that runs: the file of the endpoint names the server's token, the
-- connection works, and what comes back for a line is what the server answers to it.
pub record IsConnected (json : Json) (message : Failure → Text) (host : ClientHost)
    (endpoint : EndpointFile) (answer : Option (List ℕ) → Result Text) : Type 0 where
  pub contents : List ℕ
  pub there : host.runtime_file ≡ some contents
  pub parsed : json.read_endpoint contents ≡ some endpoint
  pub usable : is_usable endpoint ≡ true
  pub connects : host.connecting ≡ none
  pub timed : host.timeouts ≡ ok tt
  pub sends : host.sending ≡ none
  pub named : host.process_id ≢ 0
  pub exchanged :
      (line answered : List ℕ)
      → write_response json (response_of message (answer (some line))) ≡ some answered
      → host.exchange line ≡ ok answered

-- A command of the client, whose request and answer are carried by a line each, gives its user
-- exactly what the server's handler for the action returned: the value, or the message of the
-- error. Nothing is lost, and none of the checks of the connection refuses it.
pub request-dispatch :
    (json : Json) (message : Failure → Text) (fuel : ℕ)
    (encode : AwsCredentialProcessOutput → Option Text) (peer : Peer) (s : Server)
    (host : ClientHost) (endpoint : EndpointFile) (action : Text) (secret profile : Option Text)
    → IsConnected json message host endpoint
        (λ received. (handle_connection json fuel encode endpoint.token received peer s).0)
    → IsCarried max_request_bytes json.request_bytes json.read_request
        (made endpoint host action secret profile)
    → IsCarried max_response_bytes json.response_bytes json.read_response (
        response_of message
          (dispatch fuel encode (made endpoint host action secret profile) peer s).0)
    → request json host action secret profile
      ≡ told message (dispatch fuel encode (made endpoint host action secret profile) peer s).0
unfolding request write_response
request-dispatch json message fuel encode peer s host endpoint action secret profile h q a =
    let asked = made endpoint host action secret profile in
    let result = (dispatch fuel encode asked peer s).0 in
    let handled =
      handled_as json fuel encode endpoint.token peer s asked (q.bytes ++ 10 ∷ [])
        (read_request-carried json asked q) refl refl h.named in
    let back =
      h.exchanged (q.bytes ++ 10 ∷ []) (a.bytes ++ 10 ∷ []) (rw (handled, a.written) refl) in
    rw (h.there, h.parsed, h.usable, h.connects, h.timed, q.written, h.sends, back)
      (parse_response-carried json message result a)
