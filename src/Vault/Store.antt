-- ===== src/Vault/Store.antt =====
-- src/vault.rs: the methods of `VaultStore`.
use secretd.Prelude.{
  ℕ, Bool, true, false, ◌&&◌, not, Option, none, some, List, [], map, ltb, ◌==◌, if◌then◌else◌,
  length, is_some,
}
use secretd.Prelude.Text.{Text, same_text}
use secretd.Prelude.Map.{get, remove}
use secretd.Prelude.Result.{
  Result, ok, err, fail_if, ok_or, vault_locked, vault_exists, secret_not_found, name_taken,
  salt_invalid, iv_invalid, ciphertext_invalid, key_invalid, bad_password, plaintext_invalid,
  io_error,
}
use secretd.Prelude.Result
use secretd.Prelude.Exec.{Exec, throw, lift, modify, ◌>>=◌, ◌>>◌}
use secretd.Prelude.Word.{saturating_add}
use secretd.Aws.{AwsSettings, validate}
use secretd.Vault.Defs.{
  Bytes, vault_version, pbkdf2_iterations, SecretSummary, VaultEntry, VaultPlaintext, VaultFile,
  PathState, missing, not_file, unreadable, regular, Disk, VaultStore, Platform, Host,
}
use secretd.Vault.Names.{normalize_secret_name, validate_password}
use secretd.Vault.Entries.{insert_sorted}
use secretd.Vault.File.{
  derive_key, validate_header, validate_plaintext, additional_data, read_vault_file, save_with,
}

unfoldable pub new_store : Disk → VaultStore
new_store disk = record {
  key = none;
  salt = none;
  iterations = pbkdf2_iterations;
  plaintext = none;
  disk = disk;
}

unfoldable pub unlocked : VaultStore → Bool
unlocked store = is_some store.key && is_some store.salt && is_some store.plaintext

exists_at : PathState → Result Bool
exists_at missing = ok false
exists_at not_file = ok false
exists_at (unreadable message) = err (io_error message)
exists_at (regular contents) = ok true

unfoldable pub exists : VaultStore → Result Bool
unfolding exists_at
exists store = exists_at store.disk.vault

-- an action on the files, as one on the store
abbrev pub on_disk : {A : Type 0} → Exec Disk A → Exec VaultStore A
on_disk m store = let (r, disk) = m store.disk in (r, record store { disk = disk })

-- the four fields that `create` and `unlock` set last
abbrev pub open_with : Bytes → Bytes → ℕ → VaultPlaintext → VaultStore → VaultStore
open_with key salt iterations plaintext store = record store {
  key = some key;
  salt = some salt;
  iterations = iterations;
  plaintext = some plaintext;
}

abbrev pub empty_plaintext : VaultPlaintext
empty_plaintext = record { version = vault_version; revision = 0; secrets = []; aws = none }

unfoldable pub create : Platform → Host → Text → Exec VaultStore (Unit {0})
create p host password = do
  lift (validate_password password)
  existing ← λ store. (exists store, store)
  lift (fail_if existing vault_exists)
  salt ← lift host.salt
  key ← lift (derive_key p password salt pbkdf2_iterations)
  on_disk (save_with p host empty_plaintext key salt pbkdf2_iterations)
  modify (open_with key salt pbkdf2_iterations empty_plaintext)

-- What `unlock` reads from a file with a password: the key, the salt, the iterations, the secrets.
unfoldable pub open_file : Platform → Text → VaultFile → Result (Bytes × Bytes × ℕ × VaultPlaintext)
open_file p password file = Result.◌>>=◌ (validate_header file) λ _.
    Result.◌>>=◌ (ok_or (p.decode64 file.kdf.salt) salt_invalid) λ salt.
      Result.◌>>=◌ (fail_if (ltb (length salt) 16) salt_invalid) λ _.
        Result.◌>>=◌ (ok_or (p.decode64 file.cipher.iv) iv_invalid) λ iv.
          Result.◌>>=◌ (fail_if (not (length iv == 12)) iv_invalid) λ _.
            Result.◌>>=◌ (ok_or (p.decode64 file.ciphertext) ciphertext_invalid) λ ciphertext.
              Result.◌>>=◌ (derive_key p password salt file.kdf.iterations) λ key.
                Result.◌>>=◌ (fail_if (not (length key == 32)) key_invalid) λ _.
                  Result.◌>>=◌
                    (ok_or (p.decrypt key iv (additional_data file) ciphertext) bad_password)
                    λ json.
                      Result.◌>>=◌ (ok_or (p.plaintext_of_json json) plaintext_invalid) λ plaintext.
                        Result.◌>>=◌ (validate_plaintext plaintext)
                          λ _. ok (key, salt, file.kdf.iterations, plaintext)

unfoldable pub unlock : Platform → Host → Text → Exec VaultStore (Unit {0})
unlock p host password = do
  lift (validate_password password)
  file ← λ store. (read_vault_file p host store.disk.vault, store)
  opened ← lift (open_file p password file)
  modify (open_with opened.0 opened.1 opened.2 opened.3)

unfoldable pub lock : VaultStore → VaultStore
lock store = record store {
  key = none;
  salt = none;
  iterations = pbkdf2_iterations;
  plaintext = none;
}

-- The plaintext of an unlocked vault; an unlocked vault has one, so that `expect` cannot fail.
unfoldable pub require_data : VaultStore → Result VaultPlaintext
unfolding unlocked
require_data store = if unlocked store then ok_or store.plaintext vault_locked else err vault_locked

unfoldable pub list : VaultStore → Result (List SecretSummary)
list store = Result.◌>>=◌ (require_data store) λ plaintext. ok (
    map (λ e. record { name = e.0; created_at = e.1.created_at; updated_at = e.1.updated_at })
      plaintext.secrets)

unfoldable pub reveal : Text → VaultStore → Result Text
reveal name store = Result.◌>>=◌ (normalize_secret_name name) λ normalized.
    Result.◌>>=◌ (require_data store) λ plaintext.
      Result.◌>>=◌ (ok_or (get normalized plaintext.secrets) secret_not_found)
        λ entry. ok entry.value

-- the key and the salt of an unlocked vault, for `save`
save_opened :
    Platform → Host → Option Bytes → Option Bytes → ℕ → VaultPlaintext → Exec Disk (Unit {0})
save_opened p host (some key) (some salt) iterations plaintext =
    save_with p host plaintext key salt iterations
save_opened p host _ _ iterations plaintext = throw vault_locked

unfoldable pub save : Platform → Host → Exec VaultStore (Unit {0})
unfolding save_opened
save p host = do
  plaintext ← λ store. (require_data store, store)
  λ store. on_disk (save_opened p host store.key store.salt store.iterations plaintext) store

abbrev pub set_plaintext : VaultPlaintext → VaultStore → VaultStore
set_plaintext plaintext store = record store { plaintext = some plaintext }

-- a new secret is created now; a known one keeps its time of creation
abbrev pub created_since : Text → Option VaultEntry → Text
created_since now none = now
created_since now (some entry) = entry.created_at

abbrev pub new_entry : Text → Text → Text → VaultPlaintext → VaultEntry
new_entry name value now plaintext = record {
  value = value;
  created_at = created_since now (get name plaintext.secrets);
  updated_at = now;
}

abbrev pub with_secret : Text → Text → Text → VaultPlaintext → VaultPlaintext
with_secret name value now plaintext = record plaintext {
  secrets = insert_sorted name (new_entry name value now plaintext) plaintext.secrets;
  revision = saturating_add plaintext.revision 1;
}

unfoldable pub save_secret : Platform → Host → Text → Text → Exec VaultStore (Unit {0})
save_secret p host name value = do
  normalized ← lift (normalize_secret_name name)
  plaintext ← λ store. (require_data store, store)
  modify (set_plaintext (with_secret normalized value host.now plaintext))
  save p host

abbrev pub with_renamed : Text → Text → Text → VaultEntry → VaultPlaintext → VaultPlaintext
with_renamed old new now entry plaintext = record plaintext {
  secrets = insert_sorted new (record entry { updated_at = now }) (remove old plaintext.secrets);
  revision = saturating_add plaintext.revision 1;
}

unfoldable pub rename : Platform → Host → Text → Text → Exec VaultStore (Unit {0})
rename p host old_name new_name = do
  old ← lift (normalize_secret_name old_name)
  new ← lift (normalize_secret_name new_name)
  plaintext ← λ store. (require_data store, store)
  lift (fail_if (not (same_text old new) && is_some (get new plaintext.secrets)) name_taken)
  entry ← lift (ok_or (get old plaintext.secrets) secret_not_found)
  modify (set_plaintext (with_renamed old new host.now entry plaintext))
  save p host

abbrev pub without_secret : Text → VaultPlaintext → VaultPlaintext
without_secret name plaintext = record plaintext {
  secrets = remove name plaintext.secrets;
  revision = saturating_add plaintext.revision 1;
}

unfoldable pub delete : Platform → Host → Text → Exec VaultStore (Unit {0})
delete p host name = do
  normalized ← lift (normalize_secret_name name)
  plaintext ← λ store. (require_data store, store)
  lift (fail_if (not (is_some (get normalized plaintext.secrets))) secret_not_found)
  modify (set_plaintext (without_secret normalized plaintext))
  save p host

abbrev pub set_key : Bytes → Bytes → VaultStore → VaultStore
set_key key salt store = record store {
  key = some key;
  salt = some salt;
  iterations = pbkdf2_iterations;
}

unfoldable pub change_password : Platform → Host → Text → Exec VaultStore (Unit {0})
change_password p host password = do
  lift (validate_password password)
  salt ← lift host.salt
  key ← lift (derive_key p password salt pbkdf2_iterations)
  plaintext ← λ store. (require_data store, store)
  on_disk (save_with p host plaintext key salt pbkdf2_iterations)
  modify (set_key key salt)

unfoldable pub aws_settings : VaultStore → Result (Option AwsSettings)
aws_settings store = Result.◌>>=◌ (require_data store) λ plaintext. ok plaintext.aws

abbrev pub with_aws : AwsSettings → VaultPlaintext → VaultPlaintext
with_aws settings plaintext = record plaintext {
  aws = some settings;
  revision = saturating_add plaintext.revision 1;
}

unfoldable pub save_aws_settings : Platform → Host → AwsSettings → Exec VaultStore (Unit {0})
save_aws_settings p host settings = do
  lift (validate settings)
  plaintext ← λ store. (require_data store, store)
  modify (set_plaintext (with_aws settings plaintext))
  save p host
