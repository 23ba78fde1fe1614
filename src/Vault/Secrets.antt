-- ===== src/Vault/Secrets.antt =====
-- The secrets of an unlocked vault after each operation on them.
use secretd.Prelude.{none, ◌≡◌, arith, some, true, Option, if◌then◌else◌, refl}
use secretd.Prelude.Result.{ok, Result, err, secret_not_found}
use secretd.Vault.Defs.{VaultPlaintext, VaultStore, Platform, Host, Disk, VaultEntry}
use secretd.Vault.Store.{
  unlocked, require_data, save, reveal, save_secret, delete, with_secret, without_secret,
  set_plaintext, new_entry,
}
use secretd.Prelude.Text.{Text, same_text, same_text_refl}
use secretd.Vault.Names.{normalize_secret_name}
use secretd.Prelude.Map.{get, get-remove}
use secretd.Vault.Entries.{get-insert_sorted}

-- The plaintext of an unlocked vault.
pub require_data-unlocked :
    (store : VaultStore) (plaintext : VaultPlaintext)
    → require_data store ≡ ok plaintext
    → (unlocked store ≡ true) × (store.plaintext ≡ some plaintext)
unfolding require_data
require_data-unlocked store plaintext e = (ground arith, ground arith)

-- Saving changes nothing but the disk.
pub save-memory :
    (p : Platform) (host : Host) (store : VaultStore)
    → (save p host store).1 ≡ record store { disk = (save p host store).1.disk }
unfolding save
save-memory p host store = ground arith

-- what `reveal` answers for the entry that it finds
abbrev pub found : Option VaultEntry → Result Text
found none = err secret_not_found
found (some entry) = ok entry.value

pub reveal-found :
    (name n : Text) (store : VaultStore) (plaintext : VaultPlaintext)
    → normalize_secret_name name ≡ ok n
    → require_data store ≡ ok plaintext
    → reveal name store ≡ found (get n plaintext.secrets)
unfolding reveal
reveal-found name n store plaintext e d = rw (e, d) (ground arith)

-- a store with other secrets and another disk, but the same key
pub require_data-changed :
    (store : VaultStore) (before after : VaultPlaintext) (disk : Disk)
    → require_data store ≡ ok before
    → require_data (record store { plaintext = some after; disk = disk }) ≡ ok after
unfolding require_data unlocked
require_data-changed store before after disk e = ground arith

module _ (p : Platform) (host : Host) (name n : Text) (store : VaultStore)
    (plaintext : VaultPlaintext) (named : normalize_secret_name name ≡ ok n)
    (opened : require_data store ≡ ok plaintext) where
  -- Whether the file could be written or not, the vault in memory has the new secret.
  pub save_secret-memory :
      (value : Text)
      → require_data (save_secret p host name value store).1
        ≡ ok (with_secret n value host.now plaintext)
  unfolding save_secret
  save_secret-memory value =
      let changed = with_secret n value host.now plaintext in
      let s = set_plaintext changed store in
      rw (named, opened)
        (rw (save-memory p host s)
          (require_data-changed store plaintext changed (save p host s).1.disk opened))

  -- In an unlocked vault, after `save_secret` under a valid name, whether or not the file could
  -- be written, the vault reveals the new value under every spelling of the name, and for every
  -- other valid name what it revealed before.
  pub reveal-save_secret :
      (value other m : Text)
      → normalize_secret_name other ≡ ok m
      → reveal other (save_secret p host name value store).1
        ≡ (if same_text n m then ok value else reveal other store)
  reveal-save_secret value other m e =
      rw
        (
          reveal-found other m (save_secret p host name value store).1
              (with_secret n value host.now plaintext) e (save_secret-memory value),
          reveal-found other m store plaintext e opened,
        )
        (ground
          (arith, get-insert_sorted n m (new_entry n value host.now plaintext) plaintext.secrets))

  -- The time of creation of a secret that was there stays, and the revision grows by one.
  pub save_secret_entry :
      (value : Text) (entry : VaultEntry)
      → get n plaintext.secrets ≡ some entry
      → get n (with_secret n value host.now plaintext).secrets
        ≡ some (record entry { value = value; updated_at = host.now })
  save_secret_entry value entry e =
      rw
        (
          get-insert_sorted n n (new_entry n value host.now plaintext) plaintext.secrets,
          same_text_refl n,
          e,
        )
        refl

  pub delete-memory :
      (entry : VaultEntry)
      → get n plaintext.secrets ≡ some entry
      → require_data (delete p host name store).1 ≡ ok (without_secret n plaintext)
  unfolding delete
  delete-memory entry e =
      let changed = without_secret n plaintext in
      let s = set_plaintext changed store in
      rw (named, opened)
        (rw e (
          rw (save-memory p host s)
            (require_data-changed store plaintext changed (save p host s).1.disk opened)))

  -- In an unlocked vault, a secret that was there and was deleted, whether or not the file could
  -- be written, is not found any more, under any spelling of its name; every other valid name
  -- reveals what it did.
  pub reveal-delete :
      (entry : VaultEntry) (other m : Text)
      → get n plaintext.secrets ≡ some entry
      → normalize_secret_name other ≡ ok m
      → reveal other (delete p host name store).1
        ≡ (if same_text n m then err secret_not_found else reveal other store)
  reveal-delete entry other m e q =
      rw
        (
          reveal-found other m (delete p host name store).1 (without_secret n plaintext) q
              (delete-memory entry e),
          reveal-found other m store plaintext q opened,
        )
        (ground (arith, get-remove n m plaintext.secrets))
