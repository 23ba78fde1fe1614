-- ===== src/App/AliasLaws.antt =====
-- The aliases that the form suggests.
use secretd.Prelude.{
  ℕ, zero, suc, ◌≡◌, ◌≤◌, refl, true, false, Bool, List, [], ◌∷◌, arith, inl, inr, Bool-cases, all,
  all_iff, All, drop, map, not, ◌==◌, All-append, All-drop, All-retain, ◌<◌, ltb, some, ◌⊎◌, suc,
  ◌++◌,
}
use secretd.Prelude.Text.{
  Text, codes, is_empty, byte_len, is_ascii_alphanumeric, is_ascii_digit, split, split_where,
  onto_first, slice_from,
}
use secretd.Prelude.Result.{ok}
use secretd.Aws.{is_profile_byte, validate_aws_profile, is_account_id}
use secretd.App.Aliases.{join_dashes, suggested_alias, alias_character, without_empty}

alias_character-IsAllowed : (c : ℕ) → is_profile_byte (alias_character c) ≡ true
unfolding is_ascii_alphanumeric is_ascii_digit
alias_character-IsAllowed c = ground arith

mapped-All : (s : Text) → All (λ c. is_profile_byte c ≡ true) (map alias_character s)
mapped-All [] = tt
mapped-All (c ∷ s) = (alias_character-IsAllowed c, mapped-All s)

onto_first-All :
    (c : ℕ) (pieces : List Text)
    → is_profile_byte c ≡ true
    → All (λ piece. All (λ c. is_profile_byte c ≡ true) piece) pieces
    → All (λ piece. All (λ c. is_profile_byte c ≡ true) piece) (onto_first c pieces)
onto_first-All c [] h k = ((h, tt), tt)
onto_first-All c (piece ∷ pieces) h k = ((h, k.0), k.1)

split_where-All :
    (test : ℕ → Bool) (s : Text)
    → All (λ c. is_profile_byte c ≡ true) s
    → All (λ piece. All (λ c. is_profile_byte c ≡ true) piece) (split_where test s)
unfolding split_where
split_where-All test [] h = (tt, tt)
split_where-All test (c ∷ s) h =
    let ih = split_where-All test s h.1 in
    elim (Bool-cases (test c)) [
      | inl cut ↦ rw cut (tt, ih)
      | inr kept ↦ rw kept (onto_first-All c (split_where test s) h.0 ih)
    ]

join_dashes-All :
    (pieces : List Text)
    → All (λ piece. All (λ c. is_profile_byte c ≡ true) piece) pieces
    → All (λ c. is_profile_byte c ≡ true) (join_dashes pieces)
unfolding join_dashes is_ascii_alphanumeric
join_dashes-All [] h = tt
join_dashes-All (piece ∷ []) h = h.0
join_dashes-All (piece ∷ next ∷ pieces) h =
    All-append (λ c. is_profile_byte c ≡ true) piece (b'-' ∷ join_dashes (next ∷ pieces)) h.0
      (refl, join_dashes-All (next ∷ pieces) h.1)

digits-All : (id : Text) → all is_ascii_digit id ≡ true → All (λ c. is_profile_byte c ≡ true) id
unfolding all is_ascii_alphanumeric
digits-All [] h = tt
digits-All (c ∷ id) h = (ground arith, digits-All id (ground arith))

accepted :
    (profile : Text)
    → is_empty profile ≡ false
    → byte_len profile ≤ 128
    → All (λ c. is_profile_byte c ≡ true) profile
    → validate_aws_profile profile ≡ ok tt
unfolding validate_aws_profile
accepted profile filled fits h =
    let bytes = (all_iff is_profile_byte profile).1 h in ground (arith, bytes, fits, filled)

account_dash : All (λ c. is_profile_byte c ≡ true) (codes "account-")
unfolding is_ascii_alphanumeric is_ascii_digit all
account_dash = (all_iff is_profile_byte (codes "account-")).0 refl

slice_from-digits :
    (n : ℕ) (id : Text)
    → all is_ascii_digit id ≡ true
    → n ≤ byte_len id
    → slice_from n id ≡ some (drop n id)
unfolding slice_from byte_len is_ascii_digit all
slice_from-digits zero id h k = refl
slice_from-digits (suc n) [] h k = absurd (omega (arith, k))
slice_from-digits (suc n) (c ∷ id) h k =
    ground (arith, slice_from-digits n id (ground arith) (ground arith))

-- A name that is not too long, or one that is too long and nothing else is wrong with.
abbrev pub IsAccepted : Text → Type 0
IsAccepted alias = (128 < byte_len alias) ⊎ (validate_aws_profile alias ≡ ok tt)

IsAccepted-plain :
    (alias : Text)
    → is_empty alias ≡ false
    → All (λ c. is_profile_byte c ≡ true) alias
    → IsAccepted alias
IsAccepted-plain alias filled plain = elim (Bool-cases (ltb 128 (byte_len alias))) [
  | inl long ↦ inl (ground arith)
  | inr short ↦ inr (accepted alias filled (ground arith) plain)
]

-- For an account whose ID is one of twelve digits, whatever its name is, an empty one or one of
-- other scripts too, the form suggests an alias, without a panic, and the alias is longer than 128
-- bytes or a valid name of a profile.
pub suggested_alias-IsAccepted :
    (account_name account_id : Text)
    → is_account_id account_id ≡ true
    → (alias : Text) × (suggested_alias account_name account_id ≡ some alias) × IsAccepted alias
unfolding suggested_alias split
suggested_alias-IsAccepted account_name account_id twelve =
    let digits : all is_ascii_digit account_id ≡ true = ground arith in
    let pieces = split b'-' (map alias_character account_name) in
    let alias = join_dashes (without_empty pieces) in
    let made : All (λ c. is_profile_byte c ≡ true) alias = join_dashes-All (without_empty pieces) (
      All-retain _ (λ part. not (is_empty part)) pieces
        (split_where-All (λ c. c == b'-') (map alias_character account_name)
          (mapped-All account_name))) in
    let end : All (λ c. is_profile_byte c ≡ true) (drop 8 account_id) =
      All-drop _ 8 account_id (digits-All account_id digits) in
    let cut = slice_from-digits 8 account_id digits (ground arith) in
    elim (Bool-cases (is_empty alias)) [
      | inl nameless ↦ (
        codes "account-" ++ drop 8 account_id,
        rw (nameless, cut) refl,
        IsAccepted-plain (codes "account-" ++ drop 8 account_id) refl (
            All-append (λ c. is_profile_byte c ≡ true) (codes "account-") (drop 8 account_id)
              account_dash end),
      )
      | inr filled ↦ (alias, rw filled refl, IsAccepted-plain alias filled made)
    ]
