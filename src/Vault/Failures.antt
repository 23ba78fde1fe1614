-- ===== src/Vault/Failures.antt =====
-- What the vault refuses, and what a refusal leaves.
use secretd.Prelude.{◌≡◌, refl, arith, inl, inr, false, Option-cases, ◌∙◌, ℕ}
use secretd.Prelude.Text.{Text, same_text_refl}
use secretd.Prelude.Result.{Result, ok, err, Result-cases, Failure, vault_locked}
use secretd.Prelude.Exec.{Exec, lift, ◌>>=◌}
use secretd.Aws.{AwsSettings, validate}
use secretd.Vault.Defs.{Host, Platform, VaultStore, pbkdf2_iterations, VaultPlaintext, Bytes, Disk}
use secretd.Vault.Store.{
  unlocked, change_password, lock, require_data, save_secret, rename, delete, reveal, list,
  aws_settings, save_aws_settings, save, set_plaintext, with_secret,
}
use secretd.Vault.Names.{normalize_secret_name, validate_password}
use secretd.Vault.File.{derive_key, atomic_write, save_with, write_and_rename, seal, tidy}
use secretd.Vault.Atomic.{save_with_atomic}
use secretd.Vault.Secrets.{reveal-save_secret}

-- The outcome is a failure, and the state is the one before.
abbrev pub Refused : {A : Type 0} → VaultStore → Result A × VaultStore → Type 0
Refused store outcome = (f : Failure) × (outcome ≡ (err f, store))

-- The operations of a locked vault on its secrets are refused, and change nothing.
pub record RefusesAll (store : VaultStore) : Type 0 where
  pub listing : list store ≡ err vault_locked
  pub revealing : (name value : Text) → ¬ (reveal name store ≡ ok value)
  pub saving :
      (p : Platform) (host : Host) (name value : Text)
      → Refused store (save_secret p host name value store)
  pub renaming :
      (p : Platform) (host : Host) (old new : Text) → Refused store (rename p host old new store)
  pub deleting :
      (p : Platform) (host : Host) (name : Text) → Refused store (delete p host name store)
  pub rekeying :
      (p : Platform) (host : Host) (password : Text)
      → Refused store (change_password p host password store)
  pub reading_aws : aws_settings store ≡ err vault_locked
  pub saving_aws :
      (p : Platform) (host : Host) (settings : AwsSettings)
      → Refused store (save_aws_settings p host settings store)

refused :
    {A B : Type 0} (first : Result A) (run : A → Exec VaultStore B) (store : VaultStore)
    → ((a : A) → Refused store (run a store))
    → Refused store ((lift first >>= run) store)
refused first run store h = elim (Result-cases first) [
  | inl (a, e) ↦ rw e (h a)
  | inr (f, e) ↦ rw e (f, refl)
]

locked-data : (store : VaultStore) → unlocked store ≡ false → require_data store ≡ err vault_locked
unfolding require_data
locked-data store h = ground arith

pub lock-RefusesAll : (store : VaultStore) → RefusesAll (lock store)
unfolding lock list reveal save_secret rename delete change_password aws_settings save_aws_settings
    unlocked require_data
lock-RefusesAll store = record {
  listing = refl;
  revealing = λ name value e. ground arith;
  saving =
      λ p host name value. refused (normalize_secret_name name) _ _ (λ n. (vault_locked, refl));
  renaming = λ p host old new.
      refused (normalize_secret_name old) _ _
        (λ m. refused (normalize_secret_name new) _ _ (λ n. (vault_locked, refl)));
  deleting = λ p host name. refused (normalize_secret_name name) _ _ (λ n. (vault_locked, refl));
  rekeying = λ p host password. refused (validate_password password) _ _ (λ u.
      refused host.salt _ _ (λ salt.
        refused (derive_key p password salt pbkdf2_iterations) _ _ (λ k. (vault_locked, refl))));
  reading_aws = refl;
  saving_aws = λ p host settings. refused (validate settings) _ _ (λ u. (vault_locked, refl));
}

-- A change of the password that fails keeps the secrets, the key and the old file.
pub change_password_failed :
    (p : Platform) (host : Host) (password : Text) (store store' : VaultStore) (f : Failure)
    → change_password p host password store ≡ (err f, store')
    → (store' ≡ record store { disk = store'.disk }) × (store'.disk.vault ≡ store.disk.vault)
unfolding change_password
change_password_failed p host password store store' f e =
    elim (Result-cases (validate_password password)) [
      | inr (g, bad) ↦ (ground arith, ground arith)
      | inl (u, v) ↦ elim (Result-cases host.salt) [
        | inr (g, bad) ↦ (ground arith, ground arith)
        | inl (salt, drawn) ↦ elim (Result-cases (derive_key p password salt pbkdf2_iterations)) [
          | inr (g, bad) ↦ (ground arith, ground arith)
          | inl (key, derived) ↦ elim (Result-cases (require_data store)) [
            | inr (g, bad) ↦ (ground arith, ground arith)
            | inl (plaintext, opened) ↦
                elim (save_with_atomic p host plaintext key salt pbkdf2_iterations store.disk) [
                  | inl (contents, sealed, written) ↦ absurd (ground arith)
                  | inr (g, failed, kept) ↦ (ground arith, ground arith)
                ]
          ]
        ]
      ]
    ]

save_failed :
    (p : Platform) (host : Host) (store : VaultStore) (f : Failure)
    → (save p host store).0 ≡ err f
    → (save p host store).1.disk.vault ≡ store.disk.vault
unfolding save require_data unlocked
save_failed p host store f e = elim (Option-cases store.key) [
  | inl none ↦ ground arith
  | inr (key, k) ↦ elim (Option-cases store.salt) [
    | inl none ↦ ground arith
    | inr (salt, s) ↦ elim (Option-cases store.plaintext) [
      | inl none ↦ ground arith
      | inr (plaintext, o) ↦
          elim (save_with_atomic p host plaintext key salt store.iterations store.disk) [
            | inl (contents, sealed, written) ↦ absurd (ground arith)
            | inr (g, failed, kept) ↦ ground arith
          ]
    ]
  ]
]

-- A system call of the writing fails: the drawing of the nonce, the check of the path's parent, the
-- making of the directory, or the opening, the writing or the renaming of the temporary file.
pub data CannotWrite (host : Host) : Type 0 where
  undrawn : (f : Failure) → host.iv ≡ err f → CannotWrite host
  orphaned : (f : Failure) → host.parent ≡ err f → CannotWrite host
  unmade : (f : Failure) → host.directory ≡ err f → CannotWrite host
  unopened : (f : Failure) → host.opening ≡ err f → CannotWrite host
  unwritten : (f : Failure) → host.writing ≡ err f → CannotWrite host
  unrenamed : (f : Failure) → host.renaming ≡ err f → CannotWrite host

atomic_write-ok :
    (host : Host) (contents : Bytes) (disk : Disk)
    → (atomic_write host contents disk).0 ≡ ok tt
    → (host.parent ≡ ok tt)
      × (host.directory ≡ ok tt)
      × (host.opening ≡ ok tt)
      × (host.writing ≡ ok tt)
      × (host.renaming ≡ ok tt)
unfolding atomic_write write_and_rename tidy
atomic_write-ok host contents disk e =
    (ground arith, ground arith, ground arith, ground arith, ground arith)

save_with-unwritten :
    (p : Platform) (host : Host) (plaintext : VaultPlaintext) (key salt : Bytes) (iterations : ℕ)
    (disk : Disk)
    → CannotWrite host
    → ¬ ((save_with p host plaintext key salt iterations disk).0 ≡ ok tt)
unfolding save_with seal
save_with-unwritten p host plaintext key salt iterations disk h e =
    elim (Result-cases (seal p host plaintext key salt iterations)) [
      | inr (f, bad) ↦ ground arith
      | inl (contents, sealed) ↦
          let written : (atomic_write host contents disk).0 ≡ ok tt = ground arith in
          let o = atomic_write-ok host contents disk written in
          elim h [
            | undrawn f denied ↦ ground arith
            | orphaned f denied ↦ ground (arith, o)
            | unmade f denied ↦ ground (arith, o)
            | unopened f denied ↦ ground (arith, o)
            | unwritten f denied ↦ ground (arith, o)
            | unrenamed f denied ↦ ground (arith, o)
          ]
    ]

save_unwritten :
    (p : Platform) (host : Host) (store : VaultStore)
    → CannotWrite host
    → (f : Failure) × ((save p host store).0 ≡ err f)
unfolding save require_data unlocked
save_unwritten p host store h = elim (Result-cases (save p host store).0) [
  | inr bad ↦ bad
  | inl (u, good) ↦ elim (Option-cases store.key) [
    | inl none ↦ absurd (ground arith)
    | inr (key, k) ↦ elim (Option-cases store.salt) [
      | inl none ↦ absurd (ground arith)
      | inr (salt, s) ↦ elim (Option-cases store.plaintext) [
        | inl none ↦ absurd (ground arith)
        | inr (plaintext, o) ↦
            let never =
              save_with-unwritten p host plaintext key salt store.iterations store.disk h in
            absurd (never (ground arith))
      ]
    ]
  ]
]

-- In an unlocked vault, where a system call of the writing fails, the saving of a secret under a
-- valid name is reported as a failure and the file stays as it was; the vault in memory reveals
-- the new value all the same.
pub save_secret_failed :
    (p : Platform) (host : Host) (name n value : Text) (store : VaultStore)
    (plaintext : VaultPlaintext)
    → normalize_secret_name name ≡ ok n
    → require_data store ≡ ok plaintext
    → CannotWrite host
    → let after = (save_secret p host name value store).1 in
      ((f : Failure) × ((save_secret p host name value store).0 ≡ err f))
      × (after.disk.vault ≡ store.disk.vault)
      × (reveal name after ≡ ok value)
unfolding save_secret
save_secret_failed p host name n value store plaintext named opened h =
    let changed = set_plaintext (with_secret n value host.now plaintext) store in
    let same : save_secret p host name value store ≡ save p host changed =
      rw (named, opened) refl in
    let (f, failed) = save_unwritten p host changed h in
    (
      rw same (f, failed),
      rw same (save_failed p host changed f failed),
      reveal-save_secret p host name n store plaintext named opened value name n named
          ∙ ground (arith, same_text_refl n),
    )
