-- ===== src/Aws/Accepted.antt =====
-- The loops of `AwsSettings::validate` against the predicate of `Aws.Valid`.
use secretd.Prelude.{
  subst, ◌≡◌, ◌≢◌, refl, sym, ◌↔◌, ◌⊎◌, inl, inr, Bool, true, false, ◌||◌, not, some, List, [], ◌∷◌,
  arith, All, any, find, any-false_iff, Bool-cases, Option-cases,
}
use secretd.Prelude.Text.{
  Text, codes, same_text, same_text_iff, is_control, starts_with, contains_text,
}
use secretd.Prelude.Result.{
  ok, ok_or, portal_url, profile_duplicated, discovery_account, discovery_metadata, role_unassigned,
}
use secretd.Aws.Defs.{AwsTarget, AwsDiscoveredAccount, AwsSettings}
use secretd.Aws.Check.{
  is_account_id, validate_targets, validate_accounts, validate_assignments, validate_discovered,
  validate, is_account, offers_roles,
}
use secretd.Aws.Valid.{
  IsTarget, IsAccount, DistinctBy, IsAssigned, IsValid, validate_identifier_iff, is_account_id_iff,
  then_iff, roles_iff, fail_if_iff, not_iff, IsTarget-iff,
}

abbrev pub Unseen : {A : Type 0} → (A → Text) → List Text → List A → Type 0
Unseen key seen = All (λ x. contains_text (key x) seen ≡ false)

unseen_one :
    (s t : Text) (seen : List Text)
    → (contains_text s (t ∷ seen) ≡ false) ↔ ((contains_text s seen ≡ false) × (s ≢ t))
unfolding contains_text
unseen_one s t seen =
    let e = same_text_iff t s in
    (
      λ h. (ground arith, λ p. ground (arith, e.1 (sym p))),
      λ h. elim (Bool-cases (same_text t s)) [
        | inl q ↦ absurd (h.1 (sym (e.0 q)))
        | inr q ↦ rw q h.0
      ],
    )

pub Unseen-iff :
    {A : Type 0} (key : A → Text) (t : Text) (seen : List Text) (xs : List A)
    → Unseen key (t ∷ seen) xs ↔ (Unseen key seen xs × All (λ y. key y ≢ t) xs)
Unseen-iff key t seen [] = (λ h. (tt, tt), λ h. tt)
Unseen-iff key t seen (x ∷ xs) =
    let here = unseen_one (key x) t seen in
    let ih = Unseen-iff key t seen xs in
    (
      λ h. let a = here.0 h.0 in let b = ih.0 h.1 in ((a.0, b.0), (a.1, b.1)),
      λ h. (here.1 (h.0.0, h.1.0), ih.1 (h.0.1, h.1.1)),
    )

-- the loop's facts about one target and about those behind it
targets_iff :
    (seen : List Text) (targets : List AwsTarget)
    → (validate_targets seen targets ≡ ok tt) ↔ (
        All IsTarget targets
        × Unseen (λ target. target.profile) seen targets
        × DistinctBy (λ target. target.profile) targets)
unfolding validate_targets
targets_iff seen [] = (λ e. (tt, tt, tt), λ h. refl)
targets_iff seen (target ∷ targets) =
    let one = IsTarget-iff target in
    let new = fail_if_iff (contains_text target.profile seen) (profile_duplicated target.profile) in
    let ih = targets_iff (target.profile ∷ seen) targets in
    let unseen = Unseen-iff (λ (t : AwsTarget). t.profile) target.profile seen targets in
    (
      λ e.
          let first = (then_iff _ _).0 e in
          let second = (then_iff _ _).0 first.1 in
          let third = (then_iff _ _).0 second.1 in
          let rest = ih.0 third.1 in
          let apart = unseen.0 rest.1 in
          ((one.0 (first.0, third.0), rest.0), (new.0 second.0, apart.0), (apart.1, rest.2)),
      λ h.
          let parts = one.1 h.0.0 in
          (then_iff _ _).1 (
            parts.0,
            (then_iff _ _).1 (
              new.1 h.1.0,
              (then_iff _ _).1 (parts.1, ih.1 (h.0.1, unseen.1 (h.1.1, h.2.0), h.2.1)),
            ),
          ),
    )

or_false_iff : (a b : Bool) → ((a || b) ≡ false) ↔ ((a ≡ false) × (b ≡ false))
or_false_iff a b = ground arith

accounts_iff :
    (seen : List Text) (accounts : List AwsDiscoveredAccount)
    → (validate_accounts seen accounts ≡ ok tt) ↔ (
        All IsAccount accounts
        × Unseen (λ account. account.account_id) seen accounts
        × DistinctBy (λ account. account.account_id) accounts)
unfolding validate_accounts
accounts_iff seen [] = (λ e. (tt, tt, tt), λ h. refl)
accounts_iff seen (account ∷ accounts) =
    let id = account.account_id in
    let number = is_account_id_iff id in
    let flip = not_iff (is_account_id id) in
    let known = fail_if_iff (not (is_account_id id) || contains_text id seen) discovery_account in
    let known_or = or_false_iff (not (is_account_id id)) (contains_text id seen) in
    let plain =
      fail_if_iff (any is_control account.account_name || any is_control account.email_address)
        discovery_metadata in
    let plain_or =
      or_false_iff (any is_control account.account_name) (any is_control account.email_address) in
    let name = any-false_iff is_control account.account_name in
    let email = any-false_iff is_control account.email_address in
    let roles = roles_iff account.roles in
    let ih = accounts_iff (id ∷ seen) accounts in
    let unseen = Unseen-iff (λ (a : AwsDiscoveredAccount). a.account_id) id seen accounts in
    (
      λ e.
          let first = (then_iff _ _).0 e in
          let second = (then_iff _ _).0 first.1 in
          let third = (then_iff _ _).0 second.1 in
          let k = known_or.0 (known.0 first.0) in
          let p = plain_or.0 (plain.0 second.0) in
          let rest = ih.0 third.1 in
          let apart = unseen.0 rest.1 in
          (
            (
              record {
                id = number.0 (flip.0 k.0);
                name = name.0 p.0;
                email = email.0 p.1;
                roles = roles.0 third.0;
              },
              rest.0,
            ),
            (k.1, apart.0),
            (apart.1, rest.2),
          ),
      λ h.
          let a = h.0.0 in
          (then_iff _ _).1 (
            known.1 (known_or.1 (flip.1 (number.1 a.id), h.1.0)),
            (then_iff _ _).1 (
              plain.1 (plain_or.1 (name.1 a.name, email.1 a.email)),
              (then_iff _ _).1 (roles.1 a.roles, ih.1 (h.0.1, unseen.1 (h.1.1, h.2.0), h.2.1)),
            ),
          ),
    )

find-is_account :
    (id : Text) (accounts : List AwsDiscoveredAccount) (account : AwsDiscoveredAccount)
    → find (is_account id) accounts ≡ some account
    → account.account_id ≡ id
unfolding find
find-is_account id [] account e = cc
find-is_account id (a ∷ accounts) account e = elim (Bool-cases (is_account id a)) [
  | inl t ↦
      let same : a ≡ account = ground arith in rw (← same) ((same_text_iff a.account_id id).0 t)
  | inr t ↦ find-is_account id accounts account (ground arith)
]

assignments_iff :
    (accounts : List AwsDiscoveredAccount) (targets : List AwsTarget)
    → (validate_assignments accounts targets ≡ ok tt) ↔ All (IsAssigned accounts) targets
unfolding validate_assignments
assignments_iff accounts [] = (λ e. tt, λ h. refl)
assignments_iff accounts (target ∷ targets) =
    let ih = assignments_iff accounts targets in
    elim (Option-cases (find (is_account target.account_id) accounts)) [
      | inl missing ↦ rw missing (λ e. cc, λ h. cc (h.0.1))
      | inr (account, found) ↦
          let same = find-is_account target.account_id accounts account found in
          let offers =
            fail_if_iff (not (offers_roles target account)) (role_unassigned target.profile) in
          let flip = not_iff (offers_roles target account) in
          (
            λ e.
                let parts = (then_iff _ _).0 (rw (found, ok_or) at e) in
                ((account, found, same, flip.0 (offers.0 parts.0)), ih.0 parts.1),
            λ h.
                let the_same : h.0.0 ≡ account = cc (found, h.0.1) in
                let both = subst (λ a. offers_roles target a ≡ true) the_same h.0.3 in
                rw (found, ok_or) ((then_iff _ _).1 (offers.1 (flip.1 both), ih.1 h.1)),
          )
    ]

discovered_iff :
    (accounts : List AwsDiscoveredAccount) (targets : List AwsTarget)
    → (validate_discovered accounts targets ≡ ok tt)
      ↔ ((accounts ≡ []) ⊎ All (IsAssigned accounts) targets)
unfolding validate_discovered
discovered_iff [] targets = (λ e. inl refl, λ h. refl)
discovered_iff (account ∷ accounts) targets =
    let all = assignments_iff (account ∷ accounts) targets in
    (λ e. inr (all.0 e), λ h. elim h [ inl z ↦ cc | inr a ↦ all.1 a ])

nothing_seen : {A : Type 0} (key : A → Text) (xs : List A) → Unseen key [] xs
unfolding contains_text
nothing_seen key [] = tt
nothing_seen key (x ∷ xs) = (refl, nothing_seen key xs)

-- The settings are accepted exactly when the portal is an HTTPS address without control
-- characters, the region is an identifier, the targets and the discovered accounts are well formed
-- with distinct profiles and distinct numbers, and, once there has been a discovery, every target
-- names a discovered account that offers both of its roles.
pub validate_iff : (settings : AwsSettings) → (validate settings ≡ ok tt) ↔ IsValid settings
unfolding validate
validate_iff settings =
    let url = settings.start_url in
    let https = starts_with url (codes "https://") in
    let portal = fail_if_iff (not https || any is_control url) portal_url in
    let portal_or = or_false_iff (not https) (any is_control url) in
    let secure = not_iff https in
    let prints = any-false_iff is_control url in
    let region = validate_identifier_iff settings.sso_region (codes "SSO region") in
    let targets = targets_iff [] settings.targets in
    let accounts = accounts_iff [] settings.discovered_accounts in
    let assigned = discovered_iff settings.discovered_accounts settings.targets in
    (
      λ e.
          let first = (then_iff _ _).0 e in
          let second = (then_iff _ _).0 first.1 in
          let third = (then_iff _ _).0 second.1 in
          let fourth = (then_iff _ _).0 third.1 in
          let p = portal_or.0 (portal.0 first.0) in
          let t = targets.0 third.0 in
          let a = accounts.0 fourth.0 in
          record {
            https = secure.0 p.0;
            printable = prints.0 p.1;
            region = region.0 second.0;
            targets = t.0;
            profiles = t.2;
            accounts = a.0;
            account_ids = a.2;
            assigned = assigned.0 fourth.1;
          },
      λ h. (then_iff _ _).1 (
        portal.1 (portal_or.1 (secure.1 h.https, prints.1 h.printable)),
        (then_iff _ _).1 (
          region.1 h.region,
          (then_iff _ _).1 (
            targets.1 (
              h.targets,
              nothing_seen (λ (t : AwsTarget). t.profile) settings.targets,
              h.profiles,
            ),
            (then_iff _ _).1 (
              accounts.1 (
                h.accounts,
                nothing_seen (λ (a : AwsDiscoveredAccount). a.account_id)
                    settings.discovered_accounts,
                h.account_ids,
              ),
              assigned.1 h.assigned,
            ),
          ),
        ),
      ),
    )
