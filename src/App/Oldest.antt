-- ===== src/App/Oldest.antt =====
-- The request that the window shows.
use secretd.App.Requests.{nothing, shown_secret, shown_aws}
use secretd.Prelude.{
  ℕ, ◌≡◌, ◌≤◌, refl, List, [], ◌∷◌, arith, All, inl, inr, Bool-cases, leb, first, if◌then◌else◌,
  Any,
}
use secretd.App.Requests.{
  Shown, aws_is_older, shown_request, shown_secret, shown_aws, shown_of_aws, shown_of_secret,
}
use secretd.Controller.{
  PendingRequest, snapshot, PendingAwsCredentialRequest, Controller, forget_expired,
}
use secretd.Prelude.Sort.{
  IsSortedByKey, sort_by_key-IsSortedByKey, sort_by_key, sort_by_key-All, sort_by_key-Any,
}
use secretd.Prelude.Map.{values}

-- No waiting request of either kind is older than the given time.
abbrev pub AllLater : ℕ → List PendingRequest → List PendingAwsCredentialRequest → Type 0
AllLater time pending pending_aws =
    All (λ (r : PendingRequest). time ≤ r.requested_at) pending
    × All (λ (r : PendingAwsCredentialRequest). time ≤ r.requested_at) pending_aws

-- The request that is shown is one of those that wait, and the oldest of all; nothing is shown only
-- where none waits.
abbrev pub IsOldest : Shown → List PendingRequest → List PendingAwsCredentialRequest → Type 0
IsOldest nothing pending pending_aws = (pending ≡ []) × (pending_aws ≡ [])
IsOldest (shown_secret request) pending pending_aws =
    Any (λ (r : PendingRequest). r ≡ request) pending
    × AllLater request.requested_at pending pending_aws
IsOldest (shown_aws request) pending pending_aws =
    Any (λ (r : PendingAwsCredentialRequest). r ≡ request) pending_aws
    × AllLater request.requested_at pending pending_aws

later :
    {A : Type 0} (time : A → ℕ) (m n : ℕ) (xs : List A)
    → m ≤ n
    → All (λ x. n ≤ time x) xs
    → All (λ x. m ≤ time x) xs
later time m n [] h all = tt
later time m n (x ∷ xs) h all = (omega (arith, h, all.0), later time m n xs h all.1)

choice-IsOldest :
    (pending : List PendingRequest) (pending_aws : List PendingAwsCredentialRequest)
    → IsSortedByKey (λ (r : PendingRequest). r.requested_at) pending
    → IsSortedByKey (λ (r : PendingAwsCredentialRequest). r.requested_at) pending_aws
    → IsOldest
        (if aws_is_older (first pending_aws) (first pending)
          then shown_of_aws (first pending_aws)
          else shown_of_secret (first pending))
        pending
        pending_aws
unfolding aws_is_older
choice-IsOldest [] [] h k = (refl, refl)
choice-IsOldest (r ∷ pending) [] h k = (inl refl, ((omega arith, h.0), tt))
choice-IsOldest [] (a ∷ pending_aws) h k = (inl refl, (tt, (omega arith, k.0)))
choice-IsOldest (r ∷ pending) (a ∷ pending_aws) h k =
    elim (Bool-cases (leb a.requested_at r.requested_at)) [
      | inl older ↦
          let le : a.requested_at ≤ r.requested_at = ground arith in
          rw older (
            inl refl,
            (
              (
                le,
                later (λ (x : PendingRequest). x.requested_at) a.requested_at r.requested_at pending
                    le h.0,
              ),
              (omega arith, k.0),
            ),
          )
      | inr newer ↦
          let le : r.requested_at ≤ a.requested_at = ground arith in
          rw newer (
            inl refl,
            (
              (omega arith, h.0),
              (
                le,
                later (λ (x : PendingAwsCredentialRequest). x.requested_at) r.requested_at
                    a.requested_at pending_aws le k.0,
              ),
            ),
          )
    ]

abbrev secret_time : PendingRequest → ℕ
secret_time r = r.requested_at

abbrev aws_time : PendingAwsCredentialRequest → ℕ
aws_time r = r.requested_at

AllLater-unsorted :
    (time : ℕ) (pending : List PendingRequest) (pending_aws : List PendingAwsCredentialRequest)
    → AllLater time (sort_by_key secret_time pending) (sort_by_key aws_time pending_aws)
    → AllLater time pending pending_aws
AllLater-unsorted time pending pending_aws h =
    (sort_by_key-All secret_time _ pending h.0, sort_by_key-All aws_time _ pending_aws h.1)

sort_by_key-empty : {A : Type 0} (key : A → ℕ) (xs : List A) → sort_by_key key xs ≡ [] → xs ≡ []
sort_by_key-empty key [] e = refl
sort_by_key-empty key (x ∷ xs) e = absurd (sort_by_key-All key (λ y. ⊥) (x ∷ xs) (rw e tt)).0

IsOldest-unsorted :
    (shown : Shown) (pending : List PendingRequest) (pending_aws : List PendingAwsCredentialRequest)
    → IsOldest shown (sort_by_key secret_time pending) (sort_by_key aws_time pending_aws)
    → IsOldest shown pending pending_aws
IsOldest-unsorted nothing pending pending_aws h =
    (sort_by_key-empty secret_time pending h.0, sort_by_key-empty aws_time pending_aws h.1)
IsOldest-unsorted (shown_secret request) pending pending_aws h =
    (sort_by_key-Any secret_time _ pending h.0, AllLater-unsorted _ pending pending_aws h.1)
IsOldest-unsorted (shown_aws request) pending pending_aws h =
    (sort_by_key-Any aws_time _ pending_aws h.0, AllLater-unsorted _ pending pending_aws h.1)

-- The window shows the oldest of all requests of both kinds that wait in the controller, whatever
-- the order of its maps, and nothing only where no request waits.
pub shown_request-IsOldest :
    (c : Controller)
    → IsOldest (shown_request (snapshot c).0) (values c.pending) (values c.pending_aws)
unfolding shown_request snapshot forget_expired
shown_request-IsOldest c =
    IsOldest-unsorted (shown_request (snapshot c).0) (values c.pending) (values c.pending_aws) (
      choice-IsOldest _ _ (sort_by_key-IsSortedByKey secret_time (values c.pending))
        (sort_by_key-IsSortedByKey aws_time (values c.pending_aws)))
