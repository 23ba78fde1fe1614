-- ===== src/Vault/Renaming.antt =====
-- What a rename leaves.
use secretd.Prelude.{◌≡◌, none, some, arith, if◌then◌else◌}
use secretd.Prelude.Text.{Text, same_text}
use secretd.Prelude.Map.{get, remove, get-remove}
use secretd.Prelude.Result.{ok, err, secret_not_found}
use secretd.Vault.Defs.{VaultPlaintext, VaultStore, Platform, Host, VaultEntry}
use secretd.Vault.Names.{normalize_secret_name}
use secretd.Vault.Entries.{get-insert_sorted}
use secretd.Vault.Store.{require_data, save, reveal, rename, with_renamed, set_plaintext}
use secretd.Vault.Secrets.{save-memory, require_data-changed, reveal-found}

module _ (p : Platform) (host : Host) (old_name new_name old new : Text) (store : VaultStore)
    (plaintext : VaultPlaintext) (entry : VaultEntry)
    (before : normalize_secret_name old_name ≡ ok old)
    (after : normalize_secret_name new_name ≡ ok new) (opened : require_data store ≡ ok plaintext)
    (free : get new plaintext.secrets ≡ none) (there : get old plaintext.secrets ≡ some entry) where
  rename-memory :
      require_data (rename p host old_name new_name store).1
      ≡ ok (with_renamed old new host.now entry plaintext)
  unfolding rename
  rename-memory =
      let changed = with_renamed old new host.now entry plaintext in
      let s = set_plaintext changed store in
      let same : (rename p host old_name new_name store).1 ≡ (save p host s).1 =
        ground (arith, before, after, opened, free, there) in
      rw same (
        rw (save-memory p host s)
          (require_data-changed store plaintext changed (save p host s).1.disk opened))

  -- In an unlocked vault, after a rename of a secret that is there to a valid name that is not
  -- taken, whether or not the file could be written, the new name reveals the value, the old one is
  -- not found, and every other valid name reveals what it did.
  pub reveal-rename :
      (other m : Text)
      → normalize_secret_name other ≡ ok m
      → reveal other (rename p host old_name new_name store).1 ≡ (
          if same_text new m
          then ok entry.value
          else if same_text old m
          then err secret_not_found
          else reveal other store)
  reveal-rename other m e =
      rw
        (
          reveal-found other m (rename p host old_name new_name store).1
              (with_renamed old new host.now entry plaintext) e rename-memory,
          reveal-found other m store plaintext e opened,
        )
        (ground (
          arith,
          get-insert_sorted new m (record entry { updated_at = host.now })
              (remove old plaintext.secrets),
          get-remove old m plaintext.secrets,
        ))
