-- ===== src/Vault/Refinement.antt =====
-- The vault in memory implements the abstract one.
use secretd.Vault.Specification.{
  Secrets, updated, specified_rename, specified_names, specified_name, specified, specified_all,
  value_of, Represents, observed,
}
use secretd.Prelude.{
  subst, ◌⊎◌, ◌≡◌, Option, none, some, List, [], ◌∷◌, inl, inr, arith, is_some, not, ◌&&◌,
  Option-cases, Bool-cases, false, refl, sym,
}
use secretd.Prelude.Text.{Text, same_text, same_text_iff}
use secretd.Prelude.Map.{get, get-remove, remove}
use secretd.Prelude.Result.{Failure, Result, ok, err, vault_locked, Result-cases}
use secretd.Vault.Ordered.{Edit, saves, renames, deletes, locks, apply_all, apply}
use secretd.Vault.Names.{normalize_secret_name}
use secretd.Vault.Defs.{VaultEntry, VaultStore, Platform, Host, VaultPlaintext}
use secretd.Vault.Store.{
  require_data, save_secret, with_secret, new_entry, delete, rename, without_secret, with_renamed,
  lock, reveal, set_plaintext, unlocked, save,
}
use secretd.Vault.Secrets.{
  save_secret-memory, delete-memory, reveal-found, save-memory, require_data-changed,
}
use secretd.Vault.Entries.{get-insert_sorted}

module _ (p : Platform) (host : Host) (store : VaultStore) where
  save_secret-Represents :
      (name value : Text) (secrets : Secrets)
      → Represents store (some secrets)
      → Represents
          (save_secret p host name value store).1
          (specified (saves host name value) (some secrets))
  unfolding save_secret specified specified_name
  save_secret-Represents name value secrets (plaintext, opened, same) =
      elim (Result-cases (normalize_secret_name name)) [
        | inr (f, bad) ↦ rw bad (plaintext, opened, same)
        | inl (n, named) ↦
            let memory = save_secret-memory p host name n store plaintext named opened value in
            rw named (
              with_secret n value host.now plaintext,
              ground (arith, memory, named),
              λ other.
                  let old = same other in
                  ground (
                    arith,
                    old,
                    get-insert_sorted n other (new_entry n value host.now plaintext)
                        plaintext.secrets,
                  ),
            )
      ]

  delete-Represents :
      (name : Text) (secrets : Secrets)
      → Represents store (some secrets)
      → Represents (delete p host name store).1 (specified (deletes host name) (some secrets))
  unfolding delete specified specified_name
  delete-Represents name secrets (plaintext, opened, same) =
      elim (Result-cases (normalize_secret_name name)) [
        | inr (f, bad) ↦ rw bad (plaintext, opened, same)
        | inl (n, named) ↦ elim (Option-cases (get n plaintext.secrets)) [
          | inl gone ↦
              rw (named, opened)
                (rw gone (
                  plaintext,
                  opened,
                  λ other.
                      let old = same other in
                      elim (Bool-cases (same_text n other)) [
                        | inr differs ↦ rw differs old
                        | inl is ↦ rw is (ground (arith, gone, (same_text_iff n other).0 is))
                      ],
                ))
          | inr (entry, there) ↦
              let memory = delete-memory p host name n store plaintext named opened entry there in
              rw named (
                without_secret n plaintext,
                ground (arith, memory, named),
                λ other.
                    let old = same other in
                    ground (arith, old, get-remove n other plaintext.secrets),
              )
        ]
      ]

  module _ (old_name new_name old new : Text) (secrets : Secrets) (plaintext : VaultPlaintext)
      (before : normalize_secret_name old_name ≡ ok old)
      (after : normalize_secret_name new_name ≡ ok new) (opened : require_data store ≡ ok plaintext)
      (same : (name : Text) → value_of (get name plaintext.secrets) ≡ secrets name) where
    -- a rename that is refused, since the name is taken or there is no such secret
    rename_refused :
        (rename p host old_name new_name store).1 ≡ store
        → specified_rename old new secrets ≡ secrets
        → Represents
            (rename p host old_name new_name store).1
            (some (specified_rename old new secrets))
    rename_refused kept unspecified = rw (kept, unspecified) (plaintext, opened, same)

    rename_done :
        (entry : VaultEntry)
        → (not (same_text old new) && is_some (get new plaintext.secrets)) ≡ false
        → get old plaintext.secrets ≡ some entry
        → require_data (rename p host old_name new_name store).1
          ≡ ok (with_renamed old new host.now entry plaintext)
    unfolding rename
    rename_done entry free there =
        let changed = with_renamed old new host.now entry plaintext in
        let s = set_plaintext changed store in
        let done : (rename p host old_name new_name store).1 ≡ (save p host s).1 =
          ground (arith, before, after, opened, free, there) in
        rw done (
          rw (save-memory p host s)
            (require_data-changed store plaintext changed (save p host s).1.disk opened))

    rename_named-Represents :
        Represents
          (rename p host old_name new_name store).1
          (some (specified_rename old new secrets))
    unfolding rename specified_rename
    rename_named-Represents =
        let of_new = same new in
        let of_old = same old in
        elim (Bool-cases (not (same_text old new) && is_some (get new plaintext.secrets))) [
          | inl taken ↦
              rename_refused (ground (arith, before, after, opened)) (ground (arith, of_new, taken))
          | inr free ↦ elim (Option-cases (get old plaintext.secrets)) [
            | inl gone ↦
                rename_refused (ground (arith, before, after, opened))
                  (ground (arith, of_old, gone))
            | inr (entry, there) ↦
                let specified_as : specified_rename old new secrets
                    ≡ updated new (some entry.value) (updated old none secrets) =
                  ground (arith, of_new, of_old, free, there) in
                rw specified_as (
                  with_renamed old new host.now entry plaintext,
                  rename_done entry free there,
                  λ other.
                      let value = same other in
                      ground (
                        arith,
                        value,
                        get-insert_sorted new other (record entry { updated_at = host.now })
                            (remove old plaintext.secrets),
                        get-remove old other plaintext.secrets,
                      ),
                )
          ]
        ]

  specified_valid :
      (h : Host) (old_name new_name old new : Text) (secrets : Secrets)
      → normalize_secret_name old_name ≡ ok old
      → normalize_secret_name new_name ≡ ok new
      → specified (renames h old_name new_name) (some secrets)
        ≡ some (specified_rename old new secrets)
  unfolding specified specified_names
  specified_valid h old_name new_name old new secrets before after = rw (before, after) refl

  -- a rename from or to what is no name
  rename_invalid :
      (old_name new_name : Text) (secrets : Secrets) (old new : Result Text)
      → normalize_secret_name old_name ≡ old
      → normalize_secret_name new_name ≡ new
      → ((f : Failure) × (old ≡ err f)) ⊎ ((f : Failure) × (new ≡ err f))
      → ((rename p host old_name new_name store).1 ≡ store)
        × (specified (renames host old_name new_name) (some secrets) ≡ some secrets)
  unfolding rename specified specified_names
  rename_invalid old_name new_name secrets (ok old) (ok new) before after (inl (f, bad)) =
      absurd (ground arith)
  rename_invalid old_name new_name secrets (ok old) (ok new) before after (inr (f, bad)) =
      absurd (ground arith)
  rename_invalid old_name new_name secrets (err g) new before after bad = rw before (refl, refl)
  rename_invalid old_name new_name secrets (ok old) (err g) before after bad =
      rw (before, after) (refl, refl)

  rename-Represents :
      (old_name new_name : Text) (secrets : Secrets)
      → Represents store (some secrets)
      → Represents
          (rename p host old_name new_name store).1
          (specified (renames host old_name new_name) (some secrets))
  rename-Represents old_name new_name secrets h =
      let invalid =
        rename_invalid old_name new_name secrets (normalize_secret_name old_name)
          (normalize_secret_name new_name) refl refl in
      elim (Result-cases (normalize_secret_name old_name)) [
        | inr bad ↦ let kept = invalid (inl bad) in rw (kept.0, kept.1) h
        | inl (old, before) ↦ elim (Result-cases (normalize_secret_name new_name)) [
          | inr bad ↦ let kept = invalid (inr bad) in rw (kept.0, kept.1) h
          | inl (new, after) ↦
              subst (Represents (rename p host old_name new_name store).1)
                (sym (specified_valid host old_name new_name old new secrets before after))
                (rename_named-Represents old_name new_name old new secrets h.0 before after h.1 h.2)
        ]
      ]

locked-Represents :
    (p : Platform) (edit : Edit) (store : VaultStore)
    → require_data store ≡ err vault_locked
    → require_data (apply p edit store) ≡ err vault_locked
unfolding save_secret rename delete lock require_data unlocked
locked-Represents p (saves host name value) store locked = ground arith
locked-Represents p (renames host old new) store locked = ground arith
locked-Represents p (deletes host name) store locked = ground arith
locked-Represents p locks store locked = ground arith

apply-Represents :
    (p : Platform) (edit : Edit) (store : VaultStore) (abstract : Option Secrets)
    → Represents store abstract
    → Represents (apply p edit store) (specified edit abstract)
unfolding specified lock require_data unlocked
apply-Represents p edit store none h = locked-Represents p edit store h
apply-Represents p (saves host name value) store (some secrets) h =
    save_secret-Represents p host store name value secrets h
apply-Represents p (renames host old new) store (some secrets) h =
    rename-Represents p host store old new secrets h
apply-Represents p (deletes host name) store (some secrets) h =
    delete-Represents p host store name secrets h
apply-Represents p locks store (some secrets) h = refl

apply_all-Represents :
    (p : Platform) (edits : List Edit) (store : VaultStore) (abstract : Option Secrets)
    → Represents store abstract
    → Represents (apply_all p edits store) (specified_all edits abstract)
unfolding specified_all
apply_all-Represents p [] store abstract h = h
apply_all-Represents p (edit ∷ edits) store abstract h =
    apply_all-Represents p edits (apply p edit store) (specified edit abstract)
      (apply-Represents p edit store abstract h)

reveal-observed :
    (name n : Text) (store : VaultStore) (abstract : Option Secrets)
    → Represents store abstract
    → normalize_secret_name name ≡ ok n
    → reveal name store ≡ observed abstract n
unfolding reveal
reveal-observed name n store none h e = rw (e, h) refl
reveal-observed name n store (some secrets) (plaintext, opened, same) e =
    let value = same n in rw (reveal-found name n store plaintext e opened) (ground (arith, value))

-- Whatever secrets are saved, renamed and deleted and whenever the vault is locked, and whether or
-- not each edit is accepted and its file can be written, the vault in memory reveals under every
-- spelling of a name what a plain function from names to values would give that the same edits
-- have changed; locked, it reveals nothing.
pub reveal-apply_all :
    (p : Platform) (edits : List Edit) (store : VaultStore) (abstract : Option Secrets)
    (name n : Text)
    → Represents store abstract
    → normalize_secret_name name ≡ ok n
    → reveal name (apply_all p edits store) ≡ observed (specified_all edits abstract) n
reveal-apply_all p edits store abstract name n h e =
    reveal-observed name n (apply_all p edits store) (specified_all edits abstract)
      (apply_all-Represents p edits store abstract h) e
