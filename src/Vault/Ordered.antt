-- ===== src/Vault/Ordered.antt =====
-- The secrets in memory stay in the order of their names.
use secretd.Prelude.{
  [], ◌∷◌, ◌≡◌, arith, some, Option-cases, inl, inr, subst, Bool-cases, not, ◌&&◌, is_some, List,
  ◌∷◌,
}
use secretd.Prelude.Text.{Text, same_text}
use secretd.Prelude.Map.{get, remove}
use secretd.Prelude.Result.{ok, Result-cases}
use secretd.Vault.Defs.{VaultPlaintext, VaultStore, Platform, Host}
use secretd.Vault.Names.{normalize_secret_name}
use secretd.Vault.Entries.{IsSorted, insert_sorted-IsSorted, remove-IsSorted}
use secretd.Vault.Store.{
  require_data, save, save_secret, rename, delete, set_plaintext, with_secret, with_renamed,
  without_secret, new_entry, lock,
}
use secretd.Vault.Secrets.{save-memory, require_data-unlocked}

-- The secrets of an unlocked vault stand in the order of their names, none twice.
pub record IsOrdered (store : VaultStore) : Type 0 where
  pub ordered :
      (plaintext : VaultPlaintext) → store.plaintext ≡ some plaintext → IsSorted plaintext.secrets

set_plaintext-IsOrdered :
    (plaintext : VaultPlaintext) (store : VaultStore)
    → IsSorted plaintext.secrets
    → IsOrdered (set_plaintext plaintext store)
set_plaintext-IsOrdered plaintext store h = record {
  ordered = λ other e.
      subst (λ (x : VaultPlaintext). IsSorted x.secrets) {x = plaintext} {y = other} (ground arith)
        h;
}

save-IsOrdered :
    (p : Platform) (host : Host) (store : VaultStore)
    → IsOrdered store
    → IsOrdered (save p host store).1
save-IsOrdered p host store h = record {
  ordered = λ plaintext e. h.ordered plaintext (ground (arith, save-memory p host store));
}

opened-IsSorted :
    (store : VaultStore) (plaintext : VaultPlaintext)
    → IsOrdered store
    → require_data store ≡ ok plaintext
    → IsSorted plaintext.secrets
opened-IsSorted store plaintext h e =
    h.ordered plaintext (require_data-unlocked store plaintext e).1

save_secret-IsOrdered :
    (p : Platform) (host : Host) (name value : Text) (store : VaultStore)
    → IsOrdered store
    → IsOrdered (save_secret p host name value store).1
unfolding save_secret
save_secret-IsOrdered p host name value store h = elim (Result-cases (normalize_secret_name name)) [
  | inr (f, bad) ↦ rw bad h
  | inl (n, named) ↦ elim (Result-cases (require_data store)) [
    | inr (f, locked) ↦ rw (named, locked) h
    | inl (plaintext, opened) ↦
        rw (named, opened)
          (save-IsOrdered p host (set_plaintext (with_secret n value host.now plaintext) store) (
            set_plaintext-IsOrdered (with_secret n value host.now plaintext) store (
              insert_sorted-IsSorted n (new_entry n value host.now plaintext) plaintext.secrets
                (opened-IsSorted store plaintext h opened))))
  ]
]

delete-IsOrdered :
    (p : Platform) (host : Host) (name : Text) (store : VaultStore)
    → IsOrdered store
    → IsOrdered (delete p host name store).1
unfolding delete
delete-IsOrdered p host name store h = elim (Result-cases (normalize_secret_name name)) [
  | inr (f, bad) ↦ rw bad h
  | inl (n, named) ↦ elim (Result-cases (require_data store)) [
    | inr (f, locked) ↦ rw (named, locked) h
    | inl (plaintext, opened) ↦ elim (Option-cases (get n plaintext.secrets)) [
      | inl gone ↦ rw (named, opened) (rw gone h)
      | inr (entry, there) ↦
          rw (named, opened)
            (rw there (
              save-IsOrdered p host (set_plaintext (without_secret n plaintext) store) (
                set_plaintext-IsOrdered (without_secret n plaintext) store (
                  remove-IsSorted n plaintext.secrets (opened-IsSorted store plaintext h opened)))))
    ]
  ]
]

rename-IsOrdered :
    (p : Platform) (host : Host) (old_name new_name : Text) (store : VaultStore)
    → IsOrdered store
    → IsOrdered (rename p host old_name new_name store).1
unfolding rename
rename-IsOrdered p host old_name new_name store h =
    elim (Result-cases (normalize_secret_name old_name)) [
      | inr (f, bad) ↦ rw bad h
      | inl (old, before) ↦ elim (Result-cases (normalize_secret_name new_name)) [
        | inr (f, bad) ↦ rw before (rw bad h)
        | inl (new, after) ↦ elim (Result-cases (require_data store)) [
          | inr (f, locked) ↦ rw before (rw after (rw locked h))
          | inl (plaintext, opened) ↦
              elim (Bool-cases (not (same_text old new) && is_some (get new plaintext.secrets))) [
                | inl taken ↦ rw before (rw after (rw opened (rw taken h)))
                | inr free ↦ elim (Option-cases (get old plaintext.secrets)) [
                  | inl gone ↦ rw before (rw after (rw opened (rw free (rw gone h))))
                  | inr (entry, there) ↦ rw before (
                      rw after (
                        rw opened (
                          rw free (
                            rw there (
                              save-IsOrdered p host
                                (set_plaintext (with_renamed old new host.now entry plaintext)
                                  store)
                                (set_plaintext-IsOrdered
                                  (with_renamed old new host.now entry plaintext) store
                                  (insert_sorted-IsSorted new
                                    (record entry { updated_at = host.now })
                                    (remove old plaintext.secrets)
                                    (remove-IsSorted old plaintext.secrets
                                      (opened-IsSorted store plaintext h opened)))))))))
                ]
              ]
        ]
      ]
    ]

-- The operations on the secrets of a vault, each with its arguments and its system calls.
pub data Edit : Type 0 where
  saves : Host → Text → Text → Edit
  renames : Host → Text → Text → Edit
  deletes : Host → Text → Edit
  locks : Edit

abbrev pub apply : Platform → Edit → VaultStore → VaultStore
apply p (saves host name value) store = (save_secret p host name value store).1
apply p (renames host old new) store = (rename p host old new store).1
apply p (deletes host name) store = (delete p host name store).1
apply p locks store = lock store

abbrev pub apply_all : Platform → List Edit → VaultStore → VaultStore
apply_all p [] store = store
apply_all p (edit ∷ edits) store = apply_all p edits (apply p edit store)

apply-IsOrdered :
    (p : Platform) (edit : Edit) (store : VaultStore)
    → IsOrdered store
    → IsOrdered (apply p edit store)
unfolding lock
apply-IsOrdered p (saves host name value) store h = save_secret-IsOrdered p host name value store h
apply-IsOrdered p (renames host old new) store h = rename-IsOrdered p host old new store h
apply-IsOrdered p (deletes host name) store h = delete-IsOrdered p host name store h
apply-IsOrdered p locks store h = record { ordered = λ plaintext e. absurd (ground arith) }

-- Whatever secrets are saved, renamed and deleted, and whether or not each succeeds, the secrets in
-- memory stay in the order of their names, none twice, if they were at the start.
pub apply_all-IsOrdered :
    (p : Platform) (edits : List Edit) (store : VaultStore)
    → IsOrdered store
    → IsOrdered (apply_all p edits store)
apply_all-IsOrdered p [] store h = h
apply_all-IsOrdered p (edit ∷ edits) store h =
    apply_all-IsOrdered p edits (apply p edit store) (apply-IsOrdered p edit store h)
