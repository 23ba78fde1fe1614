-- ===== src/Aws/Renewal.antt =====
-- What a renewal of the token leaves of the saved session.
use secretd.Prelude.{
  ◌≡◌, ◌≢◌, Option, none, some, ◌⊎◌, inl, inr, arith, Option-cases, Bool-cases, length, true, ◌++◌,
  false, refl, ◌∷◌, [], ◌∙◌, ap, subst, sym,
}
use secretd.Prelude.Text.{Text, codes}
use secretd.Prelude.Result.{err, Failure, session_expired, Result-cases}
use secretd.Aws.Token.{
  token_from_output, finish_renewal, renew_access_token, ends_session, required, positive,
  forget_rejected, current_registration, refresh_token_error, previous_refresh,
  refresh_access_token, renew_unless, create_token, fresh_token,
}
use secretd.Aws.Sdk.{
  Session, TokenOutput, Answer, TokenError, answered, refused, TokenRequest, refresh_token_grant,
  now_seconds, invalid_grant, SdkError, expired_token, invalid_token_request, creates_token,
  invalid_client, unauthorized_client, other_error,
}
use secretd.Prelude.Int.{ℤ}
use secretd.Aws.Check.{token_expired}
use secretd.Aws.Defs.{AwsOidcRegistration}

required-failed :
    (value : Option Text) (label : Text) (f : Failure)
    → required value label ≡ err f
    → f ≢ session_expired
unfolding required
required-failed none label f e same = absurd (ground arith)
required-failed (some text) label f e same = absurd (ground arith)

positive-failed : (n : ℤ) (f : Failure) → positive n ≡ err f → f ≢ session_expired
unfolding positive
positive-failed n f e same = absurd (ground arith)

token_from_output-failed :
    (output : TokenOutput) (fallback : Option Text) (s t : Session) (f : Failure)
    → token_from_output output fallback s ≡ (err f, t)
    → (f ≢ session_expired) × (t.settings ≡ s.settings) × (t.log ≡ s.log)
unfolding token_from_output
token_from_output-failed output fallback s t f e =
    let label = codes "SSO access token" in
    elim (Result-cases (required output.access_token label)) [
      | inr (g, missing) ↦
          (required-failed output.access_token label f (ground arith), ground arith, ground arith)
      | inl (access, there) ↦ elim (Result-cases (positive output.expires_in)) [
        | inr (g, past) ↦
            (positive-failed output.expires_in f (ground arith), ground arith, ground arith)
        | inl (seconds, later) ↦ absurd (ground arith)
      ]
    ]

-- The errors by which the service rejects the session: an invalid request only without a reason.
pub data Rejects : TokenError → Type 0 where
  bad_grant : Rejects invalid_grant
  out_of_date : Rejects expired_token
  bad_client : Rejects invalid_client
  unauthorized : Rejects unauthorized_client
  without_reason : Rejects (invalid_token_request none)

abbrev pub IsRejection : Answer TokenError TokenOutput → Type 0
IsRejection answer =
    (error : SdkError TokenError) × (kind : TokenError) × (answer ≡ refused error)
    × (error.service ≡ some kind)
    × Rejects kind

Rejects-ends : (kind : TokenError) → Rejects kind → ends_session (some kind) ≡ true
unfolding ends_session
Rejects-ends _ bad_grant = refl
Rejects-ends _ out_of_date = refl
Rejects-ends _ bad_client = refl
Rejects-ends _ unauthorized = refl
Rejects-ends _ without_reason = refl

ends-Rejects :
    (service : Option TokenError)
    → ends_session service ≡ true
    → (kind : TokenError) × (service ≡ some kind) × Rejects kind
unfolding ends_session
ends-Rejects none e = cc
ends-Rejects (some invalid_grant) e = (invalid_grant, refl, bad_grant)
ends-Rejects (some expired_token) e = (expired_token, refl, out_of_date)
ends-Rejects (some invalid_client) e = (invalid_client, refl, bad_client)
ends-Rejects (some unauthorized_client) e = (unauthorized_client, refl, unauthorized)
ends-Rejects (some other_error) e = cc
ends-Rejects (some (invalid_token_request none)) e =
    (invalid_token_request none, refl, without_reason)
ends-Rejects (some (invalid_token_request (some reason))) e = cc

goes_on-accepted :
    (error : SdkError TokenError)
    → ends_session error.service ≡ false
    → ¬ IsRejection (refused error)
goes_on-accepted error e (other, kind, same, service, rejects) =
    let ends = Rejects-ends kind rejects in ground (arith, ends)

finish_renewal-failed :
    (previous : Text) (answer : Answer TokenError TokenOutput) (s t : Session) (f : Failure)
    → finish_renewal previous answer s ≡ (err f, t)
    → (t.log ≡ s.log)
      × ((IsRejection answer × (f ≡ session_expired) × (t.settings.token ≡ none))
          ⊎ ((¬ IsRejection answer) × (f ≢ session_expired) × (t.settings ≡ s.settings)))
unfolding finish_renewal forget_rejected refresh_token_error
finish_renewal-failed previous (answered output) s t f e =
    elim (Result-cases (token_from_output output (some previous) s).0) [
      | inl (token, made) ↦ absurd (ground arith)
      | inr (g, bad) ↦
          let (other, kept, silent) =
            token_from_output-failed output (some previous) s t f (ground arith) in
          (silent, inr (λ (error, kind, same, _, _). cc (same), other, kept))
    ]
finish_renewal-failed previous (refused error) s t f e =
    elim (Bool-cases (ends_session error.service)) [
      | inl ends ↦
          let (kind, service, rejects) = ends-Rejects error.service ends in
          (ground arith, inl ((error, kind, refl, service, rejects), ground arith, ground arith))
      | inr goes_on ↦ (
        ground arith,
        inr (goes_on-accepted error goes_on, λ same. absurd (ground arith), ground arith),
      )
    ]

-- What a failed renewal has done: it has not called the service, or it has sent one request, whose
-- answer was a rejection of the session or anything else.
pub data Failed (f : Failure) (s t : Session) : Type 0 where
  unsent : f ≡ session_expired → t.settings ≡ s.settings → t.log ≡ s.log → Failed f s t
  rejected :
      (request : TokenRequest)
      → t.log ≡ s.log ++ creates_token request ∷ []
      → IsRejection (s.service.create_token (length s.log) request)
      → f ≡ session_expired
      → t.settings.token ≡ none
      → Failed f s t
  unrejected :
      (request : TokenRequest)
      → t.log ≡ s.log ++ creates_token request ∷ []
      → ¬ IsRejection (s.service.create_token (length s.log) request)
      → f ≢ session_expired
      → t.settings ≡ s.settings
      → Failed f s t

-- what a read of the clock leaves
record IsSame (s t : Session) : Type 0 where
  settings : t.settings ≡ s.settings
  service : t.service ≡ s.service
  log : t.log ≡ s.log

current_registration-IsSame :
    (registration : Option AwsOidcRegistration) (s : Session)
    → IsSame s (current_registration registration s).1
unfolding current_registration
current_registration-IsSame none s = record { settings = refl; service = refl; log = refl }
current_registration-IsSame (some registration) s = record {
  settings = refl;
  service = refl;
  log = refl;
}

current_registration-ok :
    (registration : Option AwsOidcRegistration) (s : Session) (g : Failure)
    → ¬ ((current_registration registration s).0 ≡ err g)
unfolding current_registration
current_registration-ok none s g e = cc
current_registration-ok (some registration) s g e = cc

renew_access_token-Failed :
    (s t : Session) (f : Failure) → renew_access_token s ≡ (err f, t) → Failed f s t
unfolding renew_access_token
renew_access_token-Failed s t f e =
    let looked = current_registration s.settings.registration s in
    let same = current_registration-IsSame s.settings.registration s in
    elim (Result-cases looked.0) [
      | inr (g, bad) ↦ absurd (current_registration-ok s.settings.registration s g bad)
      | inl (current, read) ↦ elim (Option-cases current) [
        | inl gone ↦
            unsent (ground arith) (ground (arith, same.settings)) (ground (arith, same.log))
        | inr (registration, there) ↦ elim (Option-cases (previous_refresh s.settings.token)) [
          | inl unknown ↦
              unsent (ground arith) (ground (arith, same.settings)) (ground (arith, same.log))
          | inr (previous, known) ↦
              let request : TokenRequest = record {
                region = s.settings.sso_region;
                client_id = registration.client_id;
                client_secret = registration.client_secret;
                grant = refresh_token_grant previous;
              } in
              let asked = (create_token request looked.1).1 in
              let answer = looked.1.service.create_token (length looked.1.log) request in
              let rest : finish_renewal previous answer asked ≡ (err f, t) = ground arith in
              let (silent, outcome) = finish_renewal-failed previous answer asked t f rest in
              let sent : t.log ≡ s.log ++ creates_token request ∷ [] =
                silent ∙ ap (λ log. log ++ creates_token request ∷ []) same.log in
              let given : answer ≡ s.service.create_token (length s.log) request =
                rw (same.service, same.log) refl in
              elim outcome [
                | inl (rejection, expired, gone) ↦
                    rejected request sent (subst IsRejection given rejection) expired gone
                | inr (accepted, other, kept) ↦
                    unrejected request sent
                      (λ rejection. accepted (subst IsRejection (sym given) rejection)) other
                      (kept ∙ same.settings)
              ]
        ]
      ]
    ]

-- A renewal that fails has done one of three things. It has not called the service: then it says
-- that the session has expired, and the saved settings are as they were. Or it has sent one request
-- and the service's answer to it rejects the session (an invalid grant, an expired token, an invalid
-- or unauthorized client, or an invalid request without a reason): then it says that the session has
-- expired and leaves no token. Or it has sent one request with any other answer, an error of the
-- network among them: then it says something else and the saved settings are as they were, the
-- refresh token with them.
pub refresh_access_token-Failed :
    (s t : Session) (f : Failure) → refresh_access_token s ≡ (err f, t) → Failed f s t
unfolding refresh_access_token renew_unless fresh_token
refresh_access_token-Failed s t f e = elim (Option-cases s.settings.token) [
  | inl missing ↦ renew_access_token-Failed s t f (ground arith)
  | inr (token, there) ↦ elim (Bool-cases (token_expired (s.seconds s.reads) token)) [
    | inr current ↦ absurd (ground arith)
    | inl expired ↦
        let read = (now_seconds s).1 in
        elim (renew_access_token-Failed read t f (ground arith)) [
          | unsent expired kept silent ↦ unsent expired kept silent
          | rejected request sent rejection expired gone ↦
              rejected request sent rejection expired gone
          | unrejected request sent accepted other kept ↦
              unrejected request sent accepted other kept
        ]
  ]
]

-- Without a token there is nothing to renew: the next attempt fails at once, without a call.
pub refresh_access_token_missing :
    (s : Session)
    → s.settings.token ≡ none
    → ((refresh_access_token s).0 ≡ err session_expired) × ((refresh_access_token s).1.log ≡ s.log)
unfolding refresh_access_token renew_unless fresh_token renew_access_token current_registration
    previous_refresh
refresh_access_token_missing s gone = elim (Option-cases s.settings.registration) [
  | inl none_is ↦ (ground arith, ground arith)
  | inr (registration, there) ↦ (ground arith, ground arith)
]
