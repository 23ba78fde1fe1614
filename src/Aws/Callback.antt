-- ===== src/Aws/Callback.antt =====
-- Which callbacks of a browser complete a sign-in.
use secretd.Prelude.{
  ◌≡◌, ◌≢◌, refl, true, false, Option, none, some, List, [], ◌∷◌, ◌++◌, inl, inr, arith,
  Option-cases, Bool-cases, if◌then◌else◌,
}
use secretd.Prelude.Text.{Text, codes, same_text, same_text_iff, starts_with, split_whitespace}
use secretd.Prelude.Result.{ok}
use secretd.Aws.Browser.{
  CallbackQuery, fill_slots, fill_slot, UrlCrate, callback_result, parse_callback, target_result,
  empty_query,
}

-- the values of a key, in their order
unfoldable pub values_of : Text → List (Text × Text) → List Text
values_of key [] = []
values_of key ((k, v) ∷ pairs) =
    let rest = values_of key pairs in if same_text k key then v ∷ rest else rest

abbrev slot : Option Text → List Text
slot none = []
slot (some v) = v ∷ []

abbrev state_key : Text
state_key = codes "state"

abbrev code_key : Text
code_key = codes "code"

abbrev error_key : Text
error_key = codes "error"

-- What the loop has put in the slots is all that the pairs have for their keys.
record IsFilled (pairs : List (Text × Text)) (query filled : CallbackQuery) : Type 0 where
  states : slot query.state ++ values_of state_key pairs ≡ slot filled.state
  codes_of : slot query.code ++ values_of code_key pairs ≡ slot filled.code
  errors : slot query.error ++ values_of error_key pairs ≡ slot filled.error

distinct_keys :
    (same_text state_key code_key ≡ false)
    × (same_text state_key error_key ≡ false)
    × (same_text code_key error_key ≡ false)
unfolding same_text
distinct_keys = (refl, refl, refl)

-- one pair and what the rest has
fill_slot-IsFilled :
    (k v : Text) (pairs : List (Text × Text)) (query next filled : CallbackQuery)
    → fill_slot k v query ≡ some next
    → IsFilled pairs next filled
    → IsFilled ((k, v) ∷ pairs) query filled
unfolding fill_slot values_of
fill_slot-IsFilled k v pairs query next filled put ih =
    let states = ih.states in
    let codes_of = ih.codes_of in
    let errors = ih.errors in
    let distinct = distinct_keys in
    elim (Bool-cases (same_text k state_key)) [
      | inl is_state ↦ elim (Option-cases query.state) [
        | inr (old, taken) ↦ absurd (ground arith)
        | inl free ↦
            let is : k ≡ state_key = (same_text_iff k state_key).0 is_state in
            record {
              states = ground (arith, states);
              codes_of = ground (arith, codes_of, distinct, is);
              errors = ground (arith, errors, distinct, is);
            }
      ]
      | inr no_state ↦ elim (Bool-cases (same_text k code_key)) [
        | inl is_code ↦ elim (Option-cases query.code) [
          | inr (old, taken) ↦ absurd (ground arith)
          | inl free ↦
              let is : k ≡ code_key = (same_text_iff k code_key).0 is_code in
              record {
                states = ground (arith, states);
                codes_of = ground (arith, codes_of);
                errors = ground (arith, errors, distinct, is);
              }
        ]
        | inr no_code ↦ elim (Bool-cases (same_text k error_key)) [
          | inl is_error ↦ elim (Option-cases query.error) [
            | inr (old, taken) ↦ absurd (ground arith)
            | inl free ↦ record {
              states = ground (arith, states);
              codes_of = ground (arith, codes_of);
              errors = ground (arith, errors);
            }
          ]
          | inr other ↦ record {
            states = ground (arith, states);
            codes_of = ground (arith, codes_of);
            errors = ground (arith, errors);
          }
        ]
      ]
    ]

fill_slots-IsFilled :
    (pairs : List (Text × Text)) (query filled : CallbackQuery)
    → fill_slots pairs query ≡ some filled
    → IsFilled pairs query filled
unfolding fill_slots values_of
fill_slots-IsFilled [] query filled e = record {
  states = ground arith;
  codes_of = ground arith;
  errors = ground arith;
}
fill_slots-IsFilled ((k, v) ∷ pairs) query filled e = elim (Option-cases (fill_slot k v query)) [
  | inl taken ↦ absurd (ground arith)
  | inr (next, put) ↦
      fill_slot-IsFilled k v pairs query next filled put
        (fill_slots-IsFilled pairs next filled (ground arith))
]

-- The request that completes the sign-in: for the path of the callback, with one state, which is the
-- expected one, one code, which is not empty, and no error.
pub record IsCompleted (urls : UrlCrate) (request redirect_uri expected_state code : Text)
    : Type 0 where
  pub target : Text
  pub rest : List Text
  pub words : split_whitespace request ≡ codes "GET" ∷ target ∷ rest
  pub under : starts_with target (codes "/oauth/callback?") ≡ true
  pub pairs : List (Text × Text)
  pub joined : urls.join redirect_uri target ≡ some (codes "/oauth/callback", pairs)
  pub states : values_of state_key pairs ≡ expected_state ∷ []
  pub codes_of : values_of code_key pairs ≡ code ∷ []
  pub errors : values_of error_key pairs ≡ []
  pub filled : code ≢ []

callback_result-ok :
    (expected_state code : Text) (query : CallbackQuery)
    → callback_result expected_state query ≡ some (ok code)
    → (query.state ≡ some expected_state)
      × (query.code ≡ some code)
      × (query.error ≡ none)
      × (code ≢ [])
unfolding callback_result
callback_result-ok expected_state code query e = elim (Option-cases query.state) [
  | inl unstated ↦ absurd (ground arith)
  | inr (state, stated) ↦ elim (Option-cases query.error) [
    | inr (error, declined) ↦ absurd (ground arith)
    | inl fine ↦ elim (Option-cases query.code) [
      | inl uncoded ↦ absurd (ground arith)
      | inr (c, coded) ↦ (
        ground (arith, same_text_iff state expected_state),
        ground arith,
        fine,
        λ empty. absurd (ground arith),
      )
    ]
  ]
]

-- A callback is taken for a successful sign-in only if it is a GET for the path of the callback
-- whose query has the state of this very attempt, a single code, which is not empty, and no error:
-- neither another attempt's callback nor one with a doubled parameter passes.
pub parse_callback-IsCompleted :
    (urls : UrlCrate) (request redirect_uri expected_state code : Text)
    → parse_callback urls request redirect_uri expected_state ≡ some (ok code)
    → IsCompleted urls request redirect_uri expected_state code
unfolding parse_callback target_result
parse_callback-IsCompleted urls request redirect_uri expected_state code e =
    words_of (split_whitespace request) refl
  where
    words_of :
        (words : List Text)
        → split_whitespace request ≡ words
        → IsCompleted urls request redirect_uri expected_state code
    words_of [] w = absurd (ground arith)
    words_of (method ∷ []) w = absurd (ground arith)
    words_of (method ∷ target ∷ rest) w = elim (Bool-cases (same_text method (codes "GET"))) [
      | inr other ↦ absurd (ground arith)
      | inl get ↦ elim (Bool-cases (starts_with target (codes "/oauth/callback?"))) [
        | inr elsewhere ↦ absurd (ground arith)
        | inl under ↦ elim (Option-cases (urls.join redirect_uri target)) [
          | inl unjoined ↦ absurd (ground arith)
          | inr ((path, pairs), joined) ↦
              elim (Bool-cases (same_text path (codes "/oauth/callback"))) [
                | inr moved ↦ absurd (ground arith)
                | inl there ↦ elim (Option-cases (fill_slots pairs empty_query)) [
                  | inl doubled ↦ absurd (ground arith)
                  | inr (query, filled) ↦
                      let f = fill_slots-IsFilled pairs empty_query query filled in
                      let r = callback_result-ok expected_state code query (ground arith) in
                      let state_is = f.states in
                      let code_is = f.codes_of in
                      let error_is = f.errors in
                      record {
                        target = target;
                        rest = rest;
                        words = ground (arith, w, same_text_iff method (codes "GET"));
                        under = under;
                        pairs = pairs;
                        joined = ground (arith, same_text_iff path (codes "/oauth/callback"));
                        states = ground (arith, state_is, r);
                        codes_of = ground (arith, code_is, r);
                        errors = ground (arith, error_is, r);
                        filled = r.3;
                      }
                ]
              ]
        ]
      ]
    ]
