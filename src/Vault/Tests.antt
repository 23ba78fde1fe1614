-- ===== src/Vault/Tests.antt =====
-- The vault at concrete inputs.
use secretd.Prelude.{
  ℕ, ◌≡◌, ◌≤◌, ◌↔◌, ◌⊎◌, refl, true, false, some, none, Option, List, [], ◌∷◌, ◌++◌, length, arith,
  if◌then◌else◌, Bool, leb, subst, Bool-cases, inl, inr,
}
use secretd.Prelude.Text.{Text, codes, same_text, trim, slashes}
use secretd.Prelude.Result.{ok, err, Failure, io_error}
use secretd.Vault.{
  Bytes, Disk, missing, regular, Host, Platform, IsPlatform, VaultFile, VaultPlaintext, VaultStore,
  new_store, create, unlock, lock, save_secret, reveal, delete, change_password,
  normalize_secret_name, save_with, seal, require_data, pbkdf2_iterations, VaultEntry,
  vault_version, open_with, PathState, max_vault_bytes, rename,
}
use secretd.Vault.NameLaws.{normalize_secret_name_iff, IsSecretName}
use secretd.Vault.Atomic.{save_with_atomic}
use secretd.Vault.Reopened.{
  IsOpenedWith, unlock_lem, unlock-save_secret, unlock-create, unlock-change_password,
}
use secretd.Vault.Entries.{IsSorted}
use secretd.Vault.Refinement.{reveal-apply_all}
use secretd.Vault.Specification.{Secrets, updated, Represents, observed, specified_all}
use secretd.Vault.Ordered.{IsOrdered, Edit, saves, renames, deletes, apply_all, apply_all-IsOrdered}
use secretd.Vault.Failures.{change_password_failed, save_secret_failed, unwritten}
use secretd.Vault.Reopen.{Fits}
use secretd.Vault.Sample.{sample, sample-IsPlatform}
use secretd.Vault.Defs.{PathState, max_vault_bytes}

abbrev pub nonce : Bytes
nonce = 1 ∷ 2 ∷ 3 ∷ 4 ∷ 5 ∷ 6 ∷ 7 ∷ 8 ∷ 9 ∷ 10 ∷ 11 ∷ 12 ∷ []

abbrev salt_bytes : Bytes
salt_bytes = nonce ++ (13 ∷ 14 ∷ 15 ∷ 16 ∷ [])

-- a system on which every call succeeds, and one whose disk is full
abbrev pub working : Host
working = record {
  salt = ok salt_bytes;
  iv = ok nonce;
  now = codes "2025-01-01T00:00:00.000Z";
  reading = ok tt;
  parent = ok tt;
  directory = ok tt;
  opening = ok tt;
  writing = ok tt;
  renaming = ok tt;
  partial = [];
  removable = true;
}

abbrev full_disk : Host
full_disk = record working { writing = err (io_error (codes "no space")); partial = 1 ∷ [] }

abbrev pub empty_disk : Disk
empty_disk = record { vault = missing; temporary = [] }

abbrev pub password : Text
password = codes "correct horse battery"

abbrev new_password : Text
new_password = codes "staple horse battery"

abbrev npm_entry : VaultEntry
npm_entry = record { value = codes "v1"; created_at = codes "t0"; updated_at = codes "t0" }

abbrev pub plaintext_npm : VaultPlaintext
plaintext_npm = record {
  version = vault_version;
  revision = 1;
  secrets = (codes "npm", npm_entry) ∷ [];
  aws = none;
}

abbrev key_bytes : Bytes
key_bytes = sample.derive password salt_bytes pbkdf2_iterations

abbrev pub open_store : VaultStore
open_store = open_with key_bytes salt_bytes pbkdf2_iterations plaintext_npm (new_store empty_disk)

is_open : IsOpenedWith sample password open_store
unfolding secretd.Vault.derive_key secretd.Vault.validate_plaintext normalize_secret_name slashes
    trim secretd.Prelude.any secretd.Prelude.Text.is_control secretd.Prelude.Text.split same_text
    secretd.Vault.validate_password
is_open = record {
  key = key_bytes;
  salt = salt_bytes;
  plaintext = plaintext_npm;
  has_key = refl;
  has_salt = refl;
  has_plaintext = refl;
  derived = refl;
  long = omega arith;
  valid = refl;
  usable = refl;
}

named : normalize_secret_name (codes " npm ") ≡ ok (codes "npm")
unfolding normalize_secret_name slashes trim secretd.Prelude.any secretd.Prelude.Text.is_control
    secretd.Prelude.Text.split same_text
named = refl

opened : require_data open_store ≡ ok plaintext_npm
unfolding require_data
opened = refl

normalize_secret_name_example :
    (normalize_secret_name (codes " npm ") ≡ ok (codes "npm"))
    ↔ ((slashes (trim (codes " npm ")) ≡ codes "npm") × IsSecretName (codes "npm"))
normalize_secret_name_example = normalize_secret_name_iff (codes " npm ") (codes "npm")

save_with_example :
    let outcome =
      save_with sample full_disk plaintext_npm key_bytes salt_bytes pbkdf2_iterations empty_disk in
    ((contents : Bytes) × (seal sample full_disk plaintext_npm key_bytes salt_bytes
          pbkdf2_iterations
        ≡ ok contents)
      × (outcome ≡ (ok tt, record empty_disk { vault = regular contents })))
    ⊎ ((f : Failure) × (outcome.0 ≡ err f) × (outcome.1.vault ≡ empty_disk.vault))
save_with_example =
    save_with_atomic sample full_disk plaintext_npm key_bytes salt_bytes pbkdf2_iterations
      empty_disk

abbrev saved_store : VaultStore
saved_store = (save_secret sample working (codes " npm ") (codes "v2") open_store).1

saved : save_secret sample working (codes " npm ") (codes "v2") open_store ≡ (ok tt, saved_store)
unfolding save_secret normalize_secret_name slashes trim secretd.Prelude.any
    secretd.Prelude.Text.is_control secretd.Prelude.Text.split same_text require_data
    secretd.Vault.save save_with secretd.Vault.Sample.write_plaintext secretd.Vault.Sample.fill
    secretd.Vault.Sample.write_file
saved = refl

abbrev contents_of : PathState → Bytes
contents_of (regular contents) = contents
contents_of _ = []

fits :
    (store : VaultStore)
    → leb (length (contents_of store.disk.vault)) max_vault_bytes ≡ true
    → Fits store
fits store h contents e =
    let small : leb (length contents) max_vault_bytes ≡ true =
      subst (λ x. leb (length (contents_of x)) max_vault_bytes ≡ true) e h in
    ground arith

saved-small : leb (length (contents_of saved_store.disk.vault)) max_vault_bytes ≡ true
unfolding save_secret normalize_secret_name slashes trim secretd.Prelude.any
    secretd.Prelude.Text.is_control secretd.Prelude.Text.split same_text require_data
    secretd.Vault.save save_with secretd.Vault.Sample.write_plaintext secretd.Vault.Sample.fill
    secretd.Vault.Sample.write_file secretd.Vault.additional_data secretd.Vault.insert_sorted
    secretd.Prelude.Map.get secretd.Prelude.Text.text_lt
saved-small = refl

unlock-save_secret_example :
    let again = unlock sample working password (lock saved_store) in
    (again.0 ≡ ok tt) × (reveal (codes " npm ") again.1 ≡ ok (codes "v2"))
unlock-save_secret_example =
    unlock-save_secret sample working working password (codes " npm ") (codes "npm") (codes "v2")
      open_store saved_store sample-IsPlatform is_open named (λ iv e. ground arith) refl
      (fits saved_store saved-small) saved

abbrev created_store : VaultStore
created_store = (create sample working password (new_store empty_disk)).1

created : create sample working password (new_store empty_disk) ≡ (ok tt, created_store)
unfolding create secretd.Vault.validate_password secretd.Vault.exists new_store
    secretd.Vault.derive_key save_with secretd.Vault.Sample.write_plaintext
    secretd.Vault.Sample.fill secretd.Vault.Sample.write_file
created = refl

created-small : leb (length (contents_of created_store.disk.vault)) max_vault_bytes ≡ true
unfolding create secretd.Vault.validate_password secretd.Vault.exists new_store
    secretd.Vault.derive_key save_with secretd.Vault.Sample.write_plaintext
    secretd.Vault.Sample.fill secretd.Vault.Sample.write_file secretd.Vault.additional_data
created-small = refl

salts_are_drawn : (salt : Bytes) → working.salt ≡ ok salt → length salt ≡ 16
salts_are_drawn salt e = subst (λ x. length x ≡ 16) {x = salt_bytes} {y = salt} (ground arith) refl

unlock-create_example : unlock sample working password (lock created_store) ≡ (ok tt, created_store)
unlock-create_example =
    unlock-create sample working working password (new_store empty_disk) created_store
      sample-IsPlatform (λ iv e. ground arith) salts_are_drawn refl
      (fits created_store created-small) created

unlock_example :
    ((unlock sample working password (lock created_store)).0 ≡ ok tt)
      × IsOpenedWith sample password (unlock sample working password (lock created_store)).1
    ⊎ ((f : Failure) × (unlock sample working password (lock created_store)
          ≡ (err f, lock created_store)))
unlock_example = unlock_lem sample working password (lock created_store)

abbrev changed_store : VaultStore
changed_store = (change_password sample working new_password open_store).1

changed : change_password sample working new_password open_store ≡ (ok tt, changed_store)
unfolding change_password secretd.Vault.validate_password secretd.Vault.derive_key require_data
    save_with secretd.Vault.Sample.write_plaintext secretd.Vault.Sample.fill
    secretd.Vault.Sample.write_file
changed = refl

changed-small : leb (length (contents_of changed_store.disk.vault)) max_vault_bytes ≡ true
unfolding change_password secretd.Vault.validate_password secretd.Vault.derive_key require_data
    save_with secretd.Vault.Sample.write_plaintext secretd.Vault.Sample.fill
    secretd.Vault.Sample.write_file secretd.Vault.additional_data
changed-small = refl

unlock-change_password_example :
    (unlock sample working new_password (lock changed_store) ≡ (ok tt, changed_store))
    × (changed_store.plaintext ≡ open_store.plaintext)
unlock-change_password_example =
    unlock-change_password sample working working password new_password open_store changed_store
      sample-IsPlatform is_open (λ iv e. ground arith) salts_are_drawn refl
      (fits changed_store changed-small) changed

abbrev unchanged_store : VaultStore
unchanged_store = (change_password sample full_disk new_password open_store).1

change_fails :
    change_password sample full_disk new_password open_store
    ≡ (err (io_error (codes "no space")), unchanged_store)
unfolding change_password secretd.Vault.validate_password secretd.Vault.derive_key require_data
    save_with secretd.Vault.Sample.write_plaintext secretd.Vault.Sample.fill
    secretd.Vault.Sample.write_file
change_fails = refl

change_password_failed_example :
    (unchanged_store ≡ record open_store { disk = unchanged_store.disk })
    × (unchanged_store.disk.vault ≡ open_store.disk.vault)
change_password_failed_example =
    change_password_failed sample full_disk new_password open_store unchanged_store
      (io_error (codes "no space")) change_fails

save_secret_failed_example :
    let after = (save_secret sample full_disk (codes " npm ") (codes "v2") open_store).1 in
    ((f : Failure) × ((save_secret sample full_disk (codes " npm ") (codes "v2") open_store).0
        ≡ err f))
    × (after.disk.vault ≡ open_store.disk.vault)
    × (reveal (codes " npm ") after ≡ ok (codes "v2"))
save_secret_failed_example =
    save_secret_failed sample full_disk (codes " npm ") (codes "npm") (codes "v2") open_store
      plaintext_npm named opened (unwritten (io_error (codes "no space")) refl)

open_store-IsOrdered : IsOrdered open_store
open_store-IsOrdered = record {
  ordered = λ plaintext e.
      subst (λ (x : VaultPlaintext). IsSorted x.secrets) {x = plaintext_npm} {y = plaintext}
        (ground arith) (tt, tt);
}

abbrev some_edits : List Edit
some_edits =
    saves working (codes "pypi") (codes "v2")
    ∷ renames full_disk (codes "npm") (codes "zsh")
    ∷ deletes working (codes "pypi")
    ∷ []

apply_all_example : IsOrdered (apply_all sample some_edits open_store)
apply_all_example = apply_all-IsOrdered sample some_edits open_store open_store-IsOrdered

abbrev npm_only : Secrets
npm_only = updated (codes "npm") (some (codes "v1")) (λ name. none)

npm_only-Represents : Represents open_store (some npm_only)
unfolding secretd.Vault.require_data secretd.Vault.unlocked secretd.Prelude.Map.get same_text
npm_only-Represents = (
  plaintext_npm,
  refl,
  λ name. elim (Bool-cases (same_text (codes "npm") name)) [
    | inl same ↦ rw same refl
    | inr other ↦ rw other refl
  ],
)

named_zsh : normalize_secret_name (codes "zsh") ≡ ok (codes "zsh")
unfolding normalize_secret_name slashes trim secretd.Prelude.any secretd.Prelude.Text.is_control
    secretd.Prelude.Text.split same_text
named_zsh = refl

reveal-apply_all_example :
    reveal (codes "zsh") (apply_all sample some_edits open_store)
    ≡ observed (specified_all some_edits (some npm_only)) (codes "zsh")
reveal-apply_all_example =
    reveal-apply_all sample some_edits open_store (some npm_only) (codes "zsh") (codes "zsh")
      npm_only-Represents named_zsh
