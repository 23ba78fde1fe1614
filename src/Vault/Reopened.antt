-- ===== src/Vault/Reopened.antt =====
-- What was saved is there when the vault is unlocked again.
use secretd.Prelude.{
  false, ◌≡◌, ◌≤◌, refl, arith, ℕ, true, some, length, [], ◌∷◌, inl, inr, ◌⊎◌, ◌∙◌, subst, ap,
}
use secretd.Prelude.Text.{Text, same_text_refl}
use secretd.Prelude.Map.{TextMap, keys}
use secretd.Prelude.Result.{Result, ok, err, Result-cases, Failure}
use secretd.Vault.Defs.{
  Bytes, Host, Platform, IsPlatform, VaultPlaintext, VaultStore, pbkdf2_iterations, VaultFile,
}
use secretd.Vault.Names.{validate_password, normalize_secret_name}
use secretd.Vault.NameLaws.{normalize_secret_name_idem}
use secretd.Vault.Entries.{insert_sorted}
use secretd.Vault.File.{validate_plaintext, validate_names, derive_key, save_with, read_vault_file}
use secretd.Vault.Store.{
  unlocked, unlock, open_file, create, change_password, lock, require_data, exists, empty_plaintext,
  open_with, save, save_secret, with_secret, unlocked, set_plaintext, reveal, new_entry,
}
use secretd.Vault.Reopen.{Fits, unlock-save_with}
use secretd.Vault.Secrets.{reveal-save_secret}

-- The system gives nonces of 12 bytes.
abbrev pub DrawsNonces : Host → Type 0
DrawsNonces host = (iv : Bytes) → host.iv ≡ ok iv → length iv ≡ 12

-- An unlocked vault whose key is the one of the password.
pub record IsOpenedWith (p : Platform) (password : Text) (store : VaultStore) : Type 0 where
  pub key : Bytes
  pub salt : Bytes
  pub plaintext : VaultPlaintext
  pub has_key : store.key ≡ some key
  pub has_salt : store.salt ≡ some salt
  pub has_plaintext : store.plaintext ≡ some plaintext
  pub derived : derive_key p password salt store.iterations ≡ ok key
  pub long : 16 ≤ length salt
  pub valid : validate_plaintext plaintext ≡ ok tt
  pub usable : validate_password password ≡ ok tt

-- what a file that was opened has shown
record Opens (p : Platform) (password : Text) (opened : Bytes × Bytes × ℕ × VaultPlaintext)
    : Type 0 where
  derived : derive_key p password opened.1 opened.2 ≡ ok opened.0
  long : 16 ≤ length opened.1
  valid : validate_plaintext opened.3 ≡ ok tt

open_file-Opens :
    (p : Platform) (password : Text) (file : VaultFile)
    (opened : Bytes × Bytes × ℕ × VaultPlaintext)
    → open_file p password file ≡ ok opened
    → Opens p password opened
unfolding open_file
open_file-Opens p password file (key, salt, iterations, plaintext) e = record {
  derived = ground arith;
  long = ground arith;
  valid = ground arith;
}

-- Unlocking either succeeds and leaves the vault open, with the key that belongs to the password,
-- a salt of at least 16 bytes and valid names, or fails and leaves the store as it was.
pub unlock_lem :
    (p : Platform) (host : Host) (password : Text) (store : VaultStore)
    → let outcome = unlock p host password store in
      ((outcome.0 ≡ ok tt) × IsOpenedWith p password outcome.1)
      ⊎ ((f : Failure) × (outcome ≡ (err f, store)))
unfolding unlock
unlock_lem p host password store = elim (Result-cases (validate_password password)) [
  | inr (f, e) ↦ inr (f, rw e refl)
  | inl (u, v) ↦ elim (Result-cases (read_vault_file p host store.disk.vault)) [
    | inr (f, e) ↦ inr (f, rw (v, e) refl)
    | inl (file, r) ↦ elim (Result-cases (open_file p password file)) [
      | inr (f, e) ↦ inr (f, rw (v, r) (rw e refl))
      | inl (opened, e) ↦
          let o = open_file-Opens p password file opened e in
          inl (
            rw (v, r) (rw e refl),
            rw (v, r)
                (rw e (record {
                  key = opened.0;
                  salt = opened.1;
                  plaintext = opened.3;
                  has_key = refl;
                  has_salt = refl;
                  has_plaintext = refl;
                  derived = o.derived;
                  long = o.long;
                  valid = o.valid;
                  usable = v;
                })),
          )
    ]
  ]
]

-- A vault that was saved, locked and unlocked with its password is the one that was saved.
pub unlock-save :
    (p : Platform) (host reader : Host) (password : Text) (store store' : VaultStore)
    → IsPlatform p
    → IsOpenedWith p password store
    → DrawsNonces host
    → reader.reading ≡ ok tt
    → Fits store'
    → save p host store ≡ (ok tt, store')
    → unlock p reader password (lock store') ≡ (ok tt, store')
unfolding save lock require_data unlocked
unlock-save p host reader password store store' laws o nonces reads fits e =
    let saved = save_with p host o.plaintext o.key o.salt store.iterations store.disk in
    let same : save p host store ≡ (saved.0, record store { disk = saved.1 }) =
      ground (arith, o.has_key, o.has_salt, o.has_plaintext) in
    let left : store' ≡ record store { disk = saved.1 } = ground arith in
    let worked : saved ≡ (ok tt, store'.disk) = ground arith in
    unlock-save_with p host reader password o.plaintext o.key o.salt store.iterations store.disk
      store'.disk (lock store') laws o.usable o.derived o.long o.valid nonces fits reads refl worked
    ∙ ground (arith, left, o.has_key, o.has_salt, o.has_plaintext)

-- The empty vault that `create` has written, and locked since, opens with its password to the
-- state that `create` left, for nonces of 12 and salts of 16 bytes, a file that can be read and
-- is not too large, and libraries that keep what they promise.
pub unlock-create :
    (p : Platform) (host reader : Host) (password : Text) (store store' : VaultStore)
    → IsPlatform p
    → DrawsNonces host
    → ((salt : Bytes) → host.salt ≡ ok salt → length salt ≡ 16)
    → reader.reading ≡ ok tt
    → Fits store'
    → create p host password store ≡ (ok tt, store')
    → unlock p reader password (lock store') ≡ (ok tt, store')
unfolding create lock validate_plaintext
unlock-create p host reader password store store' laws nonces salts reads fits e =
    elim (Result-cases (validate_password password)) [
      | inr (f, bad) ↦ absurd (ground arith)
      | inl (u, v) ↦ elim (Result-cases (exists store)) [
        | inr (f, bad) ↦ absurd (ground arith)
        | inl (true, there) ↦ absurd (ground arith)
        | inl (false, there) ↦ elim (Result-cases host.salt) [
          | inr (f, bad) ↦ absurd (ground arith)
          | inl (salt, drawn) ↦ elim (Result-cases (derive_key p password salt pbkdf2_iterations)) [
            | inr (f, bad) ↦ absurd (ground arith)
            | inl (key, derived) ↦
                let saved =
                  save_with p host empty_plaintext key salt pbkdf2_iterations store.disk in
                elim (Result-cases saved.0) [
                  | inr (f, bad) ↦ absurd (ground arith)
                  | inl (w, worked) ↦
                      let left : store'
                          ≡ open_with key salt pbkdf2_iterations empty_plaintext
                              (record store { disk = saved.1 }) =
                        ground arith in
                      let disks : saved ≡ (ok tt, store'.disk) = ground arith in
                      unlock-save_with p host reader password empty_plaintext key salt
                        pbkdf2_iterations store.disk store'.disk (lock store') laws v derived
                        (ground (arith, salts salt drawn)) refl nonces fits reads refl disks
                      ∙ ground (arith, left)
                ]
          ]
        ]
      ]
    ]

-- Where a vault is open under its old password and the password was changed successfully, the
-- locked vault opens with the new password, and the secrets are the same, for nonces of 12 and
-- salts of 16 bytes, a file that can be read and is not too large, and libraries that keep what
-- they promise.
pub unlock-change_password :
    (p : Platform) (host reader : Host) (old new : Text) (store store' : VaultStore)
    → IsPlatform p
    → IsOpenedWith p old store
    → DrawsNonces host
    → ((salt : Bytes) → host.salt ≡ ok salt → length salt ≡ 16)
    → reader.reading ≡ ok tt
    → Fits store'
    → change_password p host new store ≡ (ok tt, store')
    → (unlock p reader new (lock store') ≡ (ok tt, store')) × (store'.plaintext ≡ store.plaintext)
unfolding change_password lock require_data unlocked
unlock-change_password p host reader old new store store' laws o nonces salts reads fits e =
    let opened : require_data store ≡ ok o.plaintext =
      ground (arith, o.has_key, o.has_salt, o.has_plaintext) in
    elim (Result-cases (validate_password new)) [
      | inr (f, bad) ↦ absurd (ground arith)
      | inl (u, v) ↦ elim (Result-cases host.salt) [
        | inr (f, bad) ↦ absurd (ground arith)
        | inl (salt, drawn) ↦ elim (Result-cases (derive_key p new salt pbkdf2_iterations)) [
          | inr (f, bad) ↦ absurd (ground arith)
          | inl (key, derived) ↦
              let saved = save_with p host o.plaintext key salt pbkdf2_iterations store.disk in
              elim (Result-cases saved.0) [
                | inr (f, bad) ↦ absurd (ground (arith, opened))
                | inl (w, worked) ↦
                    let left : store' ≡ record store {
                      disk = saved.1;
                      key = some key;
                      salt = some salt;
                      iterations = pbkdf2_iterations;
                    } =
                      ground (arith, opened) in
                    let disks : saved ≡ (ok tt, store'.disk) = ground arith in
                    (
                      unlock-save_with p host reader new o.plaintext key salt pbkdf2_iterations
                            store.disk store'.disk (lock store') laws v derived
                            (ground (arith, salts salt drawn)) o.valid nonces fits reads refl disks
                          ∙ ground (arith, left, o.has_plaintext),
                      ground (arith, left),
                    )
              ]
        ]
      ]
    ]

validate_names-insert_sorted :
    {V : Type 0} (k : Text) (v : V) (m : TextMap V)
    → normalize_secret_name k ≡ ok k
    → validate_names (keys m) ≡ ok tt
    → validate_names (keys (insert_sorted k v m)) ≡ ok tt
unfolding validate_names insert_sorted
validate_names-insert_sorted k v [] h e = ground (arith, h)
validate_names-insert_sorted k v ((j, w) ∷ m) h e = elim (Result-cases (normalize_secret_name j)) [
  | inr (f, bad) ↦ absurd (ground arith)
  | inl (n, good) ↦
      let rest : validate_names (keys m) ≡ ok tt = ground arith in
      ground (arith, h, validate_names-insert_sorted k v m h rest)
]

-- A new secret keeps a vault open under its password.
save_secret-IsOpenedWith :
    (p : Platform) (host : Host) (password name n value : Text) (store : VaultStore)
    (o : IsOpenedWith p password store)
    → normalize_secret_name name ≡ ok n
    → IsOpenedWith p password (set_plaintext (with_secret n value host.now o.plaintext) store)
unfolding validate_plaintext
save_secret-IsOpenedWith p host password name n value store o named = record {
  key = o.key;
  salt = o.salt;
  has_key = o.has_key;
  has_salt = o.has_salt;
  derived = o.derived;
  long = o.long;
  usable = o.usable;
  plaintext = with_secret n value host.now o.plaintext;
  has_plaintext = refl;
  valid = ground (
    arith,
    o.valid,
    validate_names-insert_sorted n (new_entry n value host.now o.plaintext) o.plaintext.secrets
        (normalize_secret_name_idem name n named),
  );
}

-- In a vault that is open under its password, a secret that was saved successfully under a valid
-- name is revealed with its value after the vault was locked and unlocked with the password,
-- provided that the nonces have 12 bytes, the file can be read and is not larger than a vault may
-- be, and the libraries keep what they promise.
pub unlock-save_secret :
    (p : Platform) (host reader : Host) (password name n value : Text) (store store' : VaultStore)
    → IsPlatform p
    → IsOpenedWith p password store
    → normalize_secret_name name ≡ ok n
    → DrawsNonces host
    → reader.reading ≡ ok tt
    → Fits store'
    → save_secret p host name value store ≡ (ok tt, store')
    → let again = unlock p reader password (lock store') in
      (again.0 ≡ ok tt) × (reveal name again.1 ≡ ok value)
unfolding save_secret require_data unlocked
unlock-save_secret p host reader password name n value store store' laws o named nonces reads fits
      e =
    let opened : require_data store ≡ ok o.plaintext =
      ground (arith, o.has_key, o.has_salt, o.has_plaintext) in
    let saved : save p host (set_plaintext (with_secret n value host.now o.plaintext) store)
        ≡ (ok tt, store') =
      ground (arith, named, opened) in
    let again =
      unlock-save p host reader password
        (set_plaintext (with_secret n value host.now o.plaintext) store) store' laws
        (save_secret-IsOpenedWith p host password name n value store o named) nonces reads fits
        saved in
    let shown : reveal name store' ≡ ok value =
      subst (λ x. reveal name x ≡ ok value) (ap (λ (x : Result (Unit {0}) × VaultStore). x.1) e)
        (reveal-save_secret p host name n store o.plaintext named opened value name n named
          ∙ ground (arith, same_text_refl n)) in
    rw again (refl, shown)
