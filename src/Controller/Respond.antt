-- ===== src/Controller/Respond.antt =====
-- Answers that are refused, and what an answer needs to be accepted.
use secretd.Prelude.{◌≡◌, inl, inr, Option, some, none, arith, Option-cases, ℕ}
use secretd.Prelude.Text.{Text}
use secretd.Prelude.Map.{get}
use secretd.Prelude.Result.{err, Failure, Result-cases}
use secretd.Process.{ProcessIdentity}
use secretd.Grants.{add_grant}
use secretd.Controller.State.{Controller, ApprovalDecision}
use secretd.Controller.Requests.{respond, respond_guards, boundary_of, store_grant}

store_grant_refused :
    (secret : Text) (boundary : Option ProcessIdentity) (ttl : Option ℕ) (c c' : Controller)
    (f : Failure)
    → store_grant secret boundary ttl c ≡ (err f, c')
    → c' ≡ c
unfolding store_grant add_grant
store_grant_refused secret none ttl c c' f e = ground arith
store_grant_refused secret (some process) ttl c c' f e = ground arith

-- An answer that is refused, for whatever reason, leaves the controller as it was: the request
-- stays pending, no grant is made and nobody is told anything.
pub respond_refused :
    (id : Text) (decision : ApprovalDecision) (ttl : Option ℕ) (selected : Option ProcessIdentity)
    (c c' : Controller) (f : Failure)
    → respond id decision ttl selected c ≡ (err f, c')
    → c' ≡ c
unfolding respond
respond_refused id decision ttl selected c c' f e = elim (Option-cases (get id c.pending)) [
  | inl gone ↦ ground arith
  | inr (request, there) ↦ elim (Result-cases (respond_guards id decision request c)) [
    | inr (g, guarded) ↦ ground arith
    | inl (u, passed) ↦ elim (Result-cases (boundary_of decision request selected)) [
      | inr (g, outside) ↦ ground arith
      | inl (boundary, inside) ↦ elim (Result-cases (store_grant request.secret boundary ttl c).0) [
        | inl (v, stored) ↦ absurd (ground arith)
        | inr (g, refused) ↦
            let same =
              store_grant_refused request.secret boundary ttl c
                (store_grant request.secret boundary ttl c).1 g
                (λ i. (refused i, (store_grant request.secret boundary ttl c).1)) in
            ground (arith, same)
      ]
    ]
  ]
]
