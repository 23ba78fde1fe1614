-- ===== src/Vault/Reopen.antt =====
-- A vault that was saved, opened again with its password.
use secretd.Prelude.{
  ◌≡◌, ◌≤◌, refl, arith, ℕ, true, some, length, [], ◌∷◌, ◌++◌, Option-cases, inl, inr, subst, sym,
}
use secretd.Prelude.Result.{ok, Result-cases}
use secretd.Vault.Defs.{
  Bytes, Host, Platform, IsPlatform, VaultPlaintext, VaultFile, Disk, VaultStore, max_vault_bytes,
  regular,
}
use secretd.Vault.File.{
  seal, unsealed_file, iterations_allowed, validate_plaintext, validate_header, additional_data,
  derive_key, read_vault_file, save_with,
}
use secretd.Vault.Store.{open_file, unlock, open_with}
use secretd.Prelude.Text.{Text, same_text}
use secretd.Vault.Names.{validate_password}
use secretd.Vault.Atomic.{save_with_atomic}

-- What a sealed vault consists of.
record Sealed (p : Platform) (host : Host) (plaintext : VaultPlaintext) (key salt : Bytes)
    (iterations : ℕ) (contents : Bytes) : Type 0 where
  iv : Bytes
  json : Bytes
  ciphertext : Bytes
  file_json : Bytes
  drawn : host.iv ≡ ok iv
  written : p.plaintext_to_json plaintext ≡ some json
  encrypted :
      p.encrypt key iv (additional_data (unsealed_file p salt iterations iv)) json ≡ some ciphertext
  filed :
      p.file_to_json
        (record (unsealed_file p salt iterations iv) { ciphertext = p.encode64 ciphertext })
      ≡ some file_json
  whole : contents ≡ file_json ++ 10 ∷ []

seal-Sealed :
    (p : Platform) (host : Host) (plaintext : VaultPlaintext) (key salt : Bytes) (iterations : ℕ)
    (contents : Bytes)
    → length key ≡ 32
    → seal p host plaintext key salt iterations ≡ ok contents
    → Sealed p host plaintext key salt iterations contents
unfolding seal
seal-Sealed p host plaintext key salt iterations contents h e = elim (Result-cases host.iv) [
  | inr (f, no_iv) ↦ absurd (ground arith)
  | inl (iv, drawn) ↦ elim (Option-cases (p.plaintext_to_json plaintext)) [
    | inl none ↦ absurd (ground arith)
    | inr (json, written) ↦
        elim (Option-cases
          (p.encrypt key iv (additional_data (unsealed_file p salt iterations iv)) json)) [
            | inl none ↦ absurd (ground arith)
            | inr (ciphertext, encrypted) ↦
                let file = record (unsealed_file p salt iterations iv) {
                  ciphertext = p.encode64 ciphertext;
                } in
                elim (Option-cases (p.file_to_json file)) [
                  | inl none ↦ absurd (ground arith)
                  | inr (file_json, filed) ↦ record {
                    iv = iv;
                    json = json;
                    ciphertext = ciphertext;
                    file_json = file_json;
                    drawn = drawn;
                    written = written;
                    encrypted = encrypted;
                    filed = filed;
                    whole = ground arith;
                  }
                ]
          ]
  ]
]

-- the header that `save_with` writes is one that `unlock` takes
sealed-header :
    (p : Platform) (salt iv ciphertext : Bytes) (iterations : ℕ)
    → iterations_allowed iterations ≡ true
    → validate_header (record (unsealed_file p salt iterations iv) { ciphertext = ciphertext })
      ≡ ok tt
unfolding validate_header same_text
sealed-header p salt iv ciphertext iterations h = rw h refl

sealed-data :
    (p : Platform) (salt iv ciphertext : Bytes) (iterations : ℕ)
    → additional_data (record (unsealed_file p salt iterations iv) { ciphertext = ciphertext })
      ≡ additional_data (unsealed_file p salt iterations iv)
unfolding additional_data
sealed-data p salt iv ciphertext iterations = refl

-- What `unlock` does with the file of a sealed vault.
open_file-sealed :
    (p : Platform) (host : Host) (password : Text) (plaintext : VaultPlaintext) (key salt : Bytes)
    (iterations : ℕ) (contents : Bytes)
    → IsPlatform p
    → derive_key p password salt iterations ≡ ok key
    → 16 ≤ length salt
    → validate_plaintext plaintext ≡ ok tt
    → ((iv : Bytes) → host.iv ≡ ok iv → length iv ≡ 12)
    → seal p host plaintext key salt iterations ≡ ok contents
    → (file : VaultFile) × (p.file_of_json contents ≡ some file)
      × (open_file p password file ≡ ok (key, salt, iterations, plaintext))
unfolding open_file derive_key
open_file-sealed p host password plaintext key salt iterations contents laws k long valid nonce e =
    let allowed : iterations_allowed iterations ≡ true = ground arith in
    let derived : p.derive password salt iterations ≡ key = ground arith in
    let key_length : length key ≡ 32 =
      subst (λ x. length x ≡ 32) derived (laws.key_length password salt iterations) in
    let s = seal-Sealed p host plaintext key salt iterations contents key_length e in
    let file = record (unsealed_file p salt iterations s.iv) {
      ciphertext = p.encode64 s.ciphertext;
    } in
    (
      file,
      subst (λ x. p.file_of_json x ≡ some file) (sym s.whole)
          (laws.reads_file file s.file_json s.filed),
      ground (
        arith,
        sealed-header p salt s.iv (p.encode64 s.ciphertext) iterations allowed,
        sealed-data p salt s.iv (p.encode64 s.ciphertext) iterations,
        laws.decodes salt,
        laws.decodes s.iv,
        laws.decodes s.ciphertext,
        nonce s.iv s.drawn,
        laws.decrypts key s.iv (additional_data (unsealed_file p salt iterations s.iv)) s.json
            s.ciphertext s.encrypted,
        laws.reads_plaintext plaintext s.json s.written,
        key_length,
      ),
    )

-- The file on the disk is not too large to be read again.
abbrev pub Fits : VaultStore → Type 0
Fits store =
    (contents : Bytes) → store.disk.vault ≡ regular contents → length contents ≤ max_vault_bytes

-- The last step of every saving, followed by the reading of the file with the password.
pub unlock-save_with :
    (p : Platform) (host reader : Host) (password : Text) (plaintext : VaultPlaintext)
    (key salt : Bytes) (iterations : ℕ) (disk disk' : Disk) (store : VaultStore)
    → IsPlatform p
    → validate_password password ≡ ok tt
    → derive_key p password salt iterations ≡ ok key
    → 16 ≤ length salt
    → validate_plaintext plaintext ≡ ok tt
    → ((iv : Bytes) → host.iv ≡ ok iv → length iv ≡ 12)
    → Fits store
    → reader.reading ≡ ok tt
    → store.disk ≡ disk'
    → save_with p host plaintext key salt iterations disk ≡ (ok tt, disk')
    → unlock p reader password store ≡ (ok tt, open_with key salt iterations plaintext store)
unfolding unlock read_vault_file
unlock-save_with p host reader password plaintext key salt iterations disk disk' store laws v k long
      valid nonce small reads same e =
    elim (save_with_atomic p host plaintext key salt iterations disk) [
      | inr (f, failed, _) ↦ absurd (ground arith)
      | inl (contents, sealed, saved) ↦
          let (file, parsed, opened) =
            open_file-sealed p host password plaintext key salt iterations contents laws k long
              valid nonce sealed in
          let there : store.disk.vault ≡ regular contents = ground arith in
          ground (arith, v, there, small contents there, reads, parsed, opened)
    ]
