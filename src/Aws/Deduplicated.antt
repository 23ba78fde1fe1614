-- ===== src/Aws/Deduplicated.antt =====
-- The accounts and the targets that a discovery keeps: one account of each ID, and the targets whose
-- account is there with both roles.
use secretd.Prelude.{
  ◌≡◌, ◌≢◌, refl, true, Bool, List, [], ◌∷◌, arith, All, Any, inl, inr, any, retain, find,
  Bool-cases, sym, ◌||◌, All-retain, All-find, ◌∙◌, subst, All-map,
}
use secretd.Prelude.Text.{Text, same_text_iff, same_text_refl, contains_text}
use secretd.Aws.Defs.{AwsDiscoveredAccount, AwsTarget}
use secretd.Aws.Check.{is_account, offers_roles}
use secretd.Aws.Discovery.{first_of_each, is_assigned}
use secretd.Aws.Valid.{DistinctBy, IsAssigned}
use secretd.Aws.Accepted.{Unseen, Unseen-iff}

abbrev pub IsFoundIn : List AwsDiscoveredAccount → AwsDiscoveredAccount → Type 0
IsFoundIn found account = Any (λ other. other ≡ account) found

pub found_self : (found : List AwsDiscoveredAccount) → All (IsFoundIn found) found
found_self [] = tt
found_self (x ∷ xs) =
    (inl refl, All-map (IsFoundIn xs) (IsFoundIn (x ∷ xs)) xs (λ y h. inr h) (found_self xs))

abbrev account_key : AwsDiscoveredAccount → Text
account_key account = account.account_id

pub All-first_of_each :
    (P : AwsDiscoveredAccount → Type 0) (seen : List Text) (accounts : List AwsDiscoveredAccount)
    → All P accounts
    → All P (first_of_each seen accounts)
unfolding first_of_each
All-first_of_each P seen [] h = tt
All-first_of_each P seen (account ∷ accounts) h =
    elim (Bool-cases (contains_text account.account_id seen)) [
      | inl there ↦ rw there (All-first_of_each P seen accounts h.1)
      | inr new ↦ rw new (h.0, All-first_of_each P (account.account_id ∷ seen) accounts h.1)
    ]

first_of_each-Unseen :
    (seen : List Text) (accounts : List AwsDiscoveredAccount)
    → Unseen account_key seen (first_of_each seen accounts)
      × DistinctBy account_key (first_of_each seen accounts)
unfolding first_of_each
first_of_each-Unseen seen [] = (tt, tt)
first_of_each-Unseen seen (account ∷ accounts) =
    elim (Bool-cases (contains_text account.account_id seen)) [
      | inl there ↦ rw there (first_of_each-Unseen seen accounts)
      | inr new ↦
          let ih = first_of_each-Unseen (account.account_id ∷ seen) accounts in
          let apart =
            (Unseen-iff account_key account.account_id seen
                (first_of_each (account.account_id ∷ seen) accounts)).0
              ih.0 in
          rw new ((new, apart.0), (apart.1, ih.1))
    ]

pub first_of_each-DistinctBy :
    (accounts : List AwsDiscoveredAccount) → DistinctBy account_key (first_of_each [] accounts)
first_of_each-DistinctBy accounts = (first_of_each-Unseen [] accounts).1

-- an account whose ID was seen before, or is there once
abbrev IsKept : List Text → List AwsDiscoveredAccount → AwsDiscoveredAccount → Type 0
IsKept seen kept account =
    (contains_text account.account_id seen || any (is_account account.account_id) kept) ≡ true

first_of_each-IsKept :
    (seen : List Text) (accounts : List AwsDiscoveredAccount)
    → All (IsKept seen (first_of_each seen accounts)) accounts
unfolding first_of_each contains_text any
first_of_each-IsKept seen [] = tt
first_of_each-IsKept seen (account ∷ accounts) =
    elim (Bool-cases (contains_text account.account_id seen)) [
      | inl there ↦
          let dropped : first_of_each seen accounts ≡ first_of_each seen (account ∷ accounts) =
            rw there refl in
          subst (λ kept. All (IsKept seen kept) (account ∷ accounts)) dropped
            (ground arith, first_of_each-IsKept seen accounts)
      | inr new ↦
          let rest = first_of_each (account.account_id ∷ seen) accounts in
          let ih = first_of_each-IsKept (account.account_id ∷ seen) accounts in
          let taken : account ∷ rest ≡ first_of_each seen (account ∷ accounts) = rw new refl in
          subst (λ kept. All (IsKept seen kept) (account ∷ accounts)) taken
            (
              ground (arith, same_text_refl account.account_id),
              All-map (IsKept (account.account_id ∷ seen) rest) (IsKept seen (account ∷ rest))
                  accounts (λ x h. ground arith) ih,
            )
    ]

pub first_of_each-kept :
    (accounts : List AwsDiscoveredAccount)
    → All
        (λ account. any (is_account account.account_id) (first_of_each [] accounts) ≡ true)
        accounts
unfolding contains_text
first_of_each-kept accounts = first_of_each-IsKept [] accounts

pub DistinctBy-retain :
    {A : Type 0} (key : A → Text) (test : A → Bool) (xs : List A)
    → DistinctBy key xs
    → DistinctBy key (retain test xs)
unfolding retain
DistinctBy-retain key test [] h = tt
DistinctBy-retain key test (x ∷ xs) h = elim (Bool-cases (test x)) [
  | inl t ↦ rw t (All-retain (λ y. key y ≢ key x) test xs h.0, DistinctBy-retain key test xs h.1)
  | inr f ↦ rw f (DistinctBy-retain key test xs h.1)
]

-- Where each ID is there once, the account that is found under a target's is the one with its roles.
is_assigned-IsAssigned :
    (accounts : List AwsDiscoveredAccount) (target : AwsTarget)
    → DistinctBy account_key accounts
    → is_assigned accounts target ≡ true
    → IsAssigned accounts target
unfolding any find
is_assigned-IsAssigned [] target h e = cc
is_assigned-IsAssigned (account ∷ accounts) target h e =
    let same = same_text_iff account.account_id target.account_id in
    elim (Bool-cases (is_account target.account_id account)) [
      | inl here ↦ elim (Bool-cases (offers_roles target account)) [
        | inl offers ↦ (account, rw here refl, same.0 here, offers)
        | inr lacks ↦
            let (other, f, number, _) = is_assigned-IsAssigned accounts target h.1 (ground arith) in
            let apart =
              All-find (λ (y : AwsDiscoveredAccount). y.account_id ≢ account.account_id)
                (is_account target.account_id) accounts other h.0 f in
            absurd (apart.0 (number ∙ sym (same.0 here)))
      ]
      | inr elsewhere ↦
          let (other, f, number, offers) =
            is_assigned-IsAssigned accounts target h.1 (ground arith) in
          (other, rw elsewhere f, number, offers)
    ]

pub retain-IsAssigned :
    (accounts : List AwsDiscoveredAccount) (targets : List AwsTarget)
    → DistinctBy account_key accounts
    → All (IsAssigned accounts) (retain (is_assigned accounts) targets)
unfolding retain
retain-IsAssigned accounts [] h = tt
retain-IsAssigned accounts (target ∷ targets) h = elim (Bool-cases (is_assigned accounts target)) [
  | inl t ↦ rw t (is_assigned-IsAssigned accounts target h t, retain-IsAssigned accounts targets h)
  | inr f ↦ rw f (retain-IsAssigned accounts targets h)
]
