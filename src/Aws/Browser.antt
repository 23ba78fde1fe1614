-- ===== src/Aws/Browser.antt =====
-- src/aws/browser.rs: the address of the sign-in and the callback of the browser. The listener, the
-- random texts, SHA-256, base64 and the crate url are parameters.
use secretd.Prelude.Result.{Result, ok, err, Failure, fail_if, ok_or, ◌>>=◌, ◌>>◌}
use secretd.Prelude.{
  Option, none, some, List, [], ◌∷◌, if◌then◌else◌, Bool, not, false, is_some, ◌&&◌, ◌||◌,
}
use secretd.Prelude.Text.{
  Text, split_whitespace, codes, starts_with, same_text, same_option, is_empty,
}
use secretd.Prelude.Result.{Result, err, login_timed_out, login_declined, ok}

-- What the crate url gives: of an address its scheme and host, and with pairs put at the end of its
-- query; and of the target of a request, joined to an address, the path and the pairs.
pub record UrlCrate : Type 0 where
  pub scheme_and_host : Text → Option (Text × Option Text)
  pub append_pairs : Text → List (Text × Text) → Text
  pub join : Text → Text → Option (Text × List (Text × Text))

pub record BrowserLogin : Type 0 where
  pub redirect_uri : Text
  pub verifier : Text
  pub state : Text

abbrev pub sso_scope : Text
sso_scope = codes "sso:account:access"

-- `code_challenge`, the digest of the verifier, is the argument `challenge`.
unfoldable pub authorization_url :
    UrlCrate → (Text → Text) → BrowserLogin → Text → Text → Result Text
authorization_url urls challenge browser endpoint client_id = do
  parsed ← ok_or (urls.scheme_and_host endpoint) Failure.authorization_url
  fail_if (not (same_text parsed.0 (codes "https")) || not (is_some parsed.1))
      Failure.authorization_url
  ok (
      urls.append_pairs endpoint (
        (codes "response_type", codes "code")
        ∷ (codes "client_id", client_id)
        ∷ (codes "redirect_uri", browser.redirect_uri)
        ∷ (codes "state", browser.state)
        ∷ (codes "code_challenge_method", codes "S256")
        ∷ (codes "code_challenge", challenge browser.verifier)
        ∷ (codes "scopes", sso_scope)
        ∷ []))

-- the three slots of `parse_callback`
pub record CallbackQuery : Type 0 where
  pub state : Option Text
  pub code : Option Text
  pub error : Option Text

-- A pair in its slot; none, where the slot is taken. Other keys are passed over.
unfoldable pub fill_slot : Text → Text → CallbackQuery → Option CallbackQuery
fill_slot key value query =
    if same_text key (codes "state")
    then (if is_some query.state then none else some (record query { state = some value }))
    else if same_text key (codes "code")
    then (if is_some query.code then none else some (record query { code = some value }))
    else if same_text key (codes "error")
    then (if is_some query.error then none else some (record query { error = some value }))
    else some query

unfoldable pub fill_slots : List (Text × Text) → CallbackQuery → Option CallbackQuery
unfolding fill_slot
fill_slots [] query = some query
fill_slots ((key, value) ∷ pairs) query = elim (fill_slot key value query) [
  | none ↦ none
  | some filled ↦ fill_slots pairs filled
]

abbrev pub empty_query : CallbackQuery
empty_query = record { state = none; code = none; error = none }

-- what the pairs say, behind the loop
unfoldable pub callback_result : Text → CallbackQuery → Option (Result Text)
callback_result expected_state query =
    if not (same_option query.state (some expected_state))
    then none
    else if is_some query.error
    then some (err login_declined)
    else elim query.code [
      | none ↦ none
      | some code ↦ if is_empty code then none else some (ok code)
    ]

-- a target under the path of the callback
unfoldable pub target_result : UrlCrate → Text → Text → Text → Option (Result Text)
unfolding fill_slots callback_result
target_result urls redirect_uri expected_state target = elim (urls.join redirect_uri target) [
  | none ↦ none
  | some (path, pairs) ↦
      if same_text path (codes "/oauth/callback")
      then elim (fill_slots pairs empty_query) [
        | none ↦ none
        | some query ↦ callback_result expected_state query
      ]
      else none
]

unfoldable pub parse_callback : UrlCrate → Text → Text → Text → Option (Result Text)
unfolding target_result split_whitespace starts_with
parse_callback urls request redirect_uri expected_state = elim (split_whitespace request) [
  | [] ↦ none
  | method ∷ [] ↦ none
  | method ∷ target ∷ rest ↦
      if same_text method (codes "GET") && starts_with target (codes "/oauth/callback?")
      then target_result urls redirect_uri expected_state target
      else none
]

-- A connection of the listener: its lines, and whether it was all received in two seconds.
pub record Connection : Type 0 where
  pub lines : List Text
  pub in_time : Bool

-- the empty line that ends the headers
ends_headers : List Text → Bool
ends_headers [] = false
ends_headers (line ∷ lines) = same_text line (codes "\r\n") || ends_headers lines

-- the loop over the headers, which ends before an answer where the stream does
unfoldable pub read_callback : UrlCrate → BrowserLogin → List Text → Option (Result Text)
unfolding parse_callback ends_headers
read_callback urls browser [] = none
read_callback urls browser (line ∷ headers) =
    if ends_headers headers
    then parse_callback urls line browser.redirect_uri browser.state
    else none

-- The connections until the timeout, in order; the first that answers the sign-in ends the wait.
unfoldable pub wait_for_code : UrlCrate → BrowserLogin → List Connection → Result Text
unfolding read_callback
wait_for_code urls browser [] = err login_timed_out
wait_for_code urls browser (connection ∷ connections) =
    let rest = wait_for_code urls browser connections in
    if connection.in_time
    then elim (read_callback urls browser connection.lines) [ none ↦ rest | some result ↦ result ]
    else rest
