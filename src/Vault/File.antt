-- ===== src/Vault/File.antt =====
-- src/vault.rs: the file format, the key, and the atomic write.
use secretd.Prelude.{
  ℕ, zero, suc, ◌+◌, ◌/◌, ◌%◌, Bool, ◌&&◌, ◌||◌, not, List, [], ◌∷◌, ◌++◌, ltb, leb, ◌==◌,
  if◌then◌else◌, length,
}
use secretd.Prelude.Text.{Text, codes, same_text}
use secretd.Prelude.Map.{keys}
use secretd.Prelude.Result.{
  Result, ok, err, ◌>>=◌, ◌>>◌, fail_if, ok_or, kdf_invalid, unsupported_format,
  unsupported_plaintext, vault_missing, vault_file_invalid, vault_not_json, io_error, encode_failed,
  encrypt_failed, key_invalid,
}
use secretd.Prelude.Exec.{Exec, lift}
use secretd.Prelude.Exec
use secretd.Vault.Defs.{
  Bytes, vault_version, max_vault_bytes, VaultPlaintext, VaultFile, PathState, missing, not_file,
  unreadable, regular, Disk, Platform, Host,
}
use secretd.Vault.Names.{normalize_secret_name}

abbrev pub iterations_allowed : ℕ → Bool
iterations_allowed n = leb 100_000 n && leb n 10_000_000

unfoldable pub derive_key : Platform → Text → Bytes → ℕ → Result Bytes
derive_key p password salt iterations = do
  fail_if (not (iterations_allowed iterations)) kdf_invalid
  ok (p.derive password salt iterations)

unfoldable pub validate_header : VaultFile → Result (Unit {0})
validate_header file =
    fail_if
      (not (file.version == vault_version)
        || not (same_text file.kdf.name (codes "PBKDF2"))
        || not (same_text file.kdf.hash (codes "SHA-256"))
        || not (iterations_allowed file.kdf.iterations)
        || not (same_text file.cipher.name (codes "AES-GCM")))
      unsupported_format

unfoldable pub validate_names : List Text → Result (Unit {0})
validate_names [] = ok tt
validate_names (name ∷ names) = do _ ← normalize_secret_name name; validate_names names

unfoldable pub validate_plaintext : VaultPlaintext → Result (Unit {0})
unfolding validate_names
validate_plaintext plaintext = do
  fail_if (not (plaintext.version == vault_version)) unsupported_plaintext
  validate_names (keys plaintext.secrets)

-- `{}` of a number, with as many digits as the fuel allows; ten are enough for 32 bits.
unfoldable pub decimal : ℕ → ℕ → Text
decimal zero n = []
decimal (suc fuel) n =
    let front = decimal fuel (n / 10) in
    if ltb n 10 then (b'0' + n) ∷ [] else front ++ (b'0' + n % 10) ∷ []

abbrev colon : Text
colon = codes ":"

unfoldable pub additional_data : VaultFile → Text
unfolding decimal
additional_data file =
    codes "secretd:"
    ++ (decimal 10 file.version
        ++ (colon
            ++ (file.kdf.name
                ++ (colon
                    ++ (file.kdf.hash
                        ++ (colon
                            ++ (decimal 10 file.kdf.iterations ++ (colon ++ file.kdf.salt))))))))

read_regular : Platform → Host → Bytes → Result VaultFile
read_regular p host contents = do
  fail_if (ltb max_vault_bytes (length contents)) vault_file_invalid
  host.reading
  ok_or (p.file_of_json contents) vault_not_json

unfoldable pub read_vault_file : Platform → Host → PathState → Result VaultFile
unfolding read_regular
read_vault_file p host missing = err vault_missing
read_vault_file p host not_file = err vault_file_invalid
read_vault_file p host (unreadable message) = err (io_error message)
read_vault_file p host (regular contents) = read_regular p host contents

-- The closure of `atomic_write`: open a temporary file of a new name, write it, rename it over the
-- vault.
unfoldable pub write_and_rename : Host → Bytes → Exec Disk (Unit {0})
write_and_rename host contents disk = elim host.opening [
  | err e ↦ (err e, disk)
  | ok _ ↦ elim host.writing [
    | err e ↦ (err e, record disk { temporary = host.partial ∷ disk.temporary })
    | ok _ ↦ elim host.renaming [
      | err e ↦ (err e, record disk { temporary = contents ∷ disk.temporary })
      | ok _ ↦ (ok tt, record disk { vault = regular contents })
    ]
  ]
]

-- After a failure the write's own temporary file is removed, if the system lets it be; `before` are
-- those of earlier writes.
unfoldable pub tidy : Host → List Bytes → Result (Unit {0}) × Disk → Result (Unit {0}) × Disk
tidy host before (ok u, disk) = (ok u, disk)
tidy host before (err e, disk) =
    (err e, if host.removable then record disk { temporary = before } else disk)

unfoldable pub atomic_write : Host → Bytes → Exec Disk (Unit {0})
unfolding write_and_rename tidy
atomic_write host contents disk = elim host.parent [
  | err e ↦ (err e, disk)
  | ok _ ↦ elim host.directory [
    | err e ↦ (err e, disk)
    | ok _ ↦ tidy host disk.temporary (write_and_rename host contents disk)
  ]
]

-- the file before its ciphertext is known
abbrev pub unsealed_file : Platform → Bytes → ℕ → Bytes → VaultFile
unsealed_file p salt iterations iv = record {
  version = vault_version;
  kdf = record {
    name = codes "PBKDF2";
    hash = codes "SHA-256";
    iterations = iterations;
    salt = p.encode64 salt;
  };
  cipher = record { name = codes "AES-GCM"; iv = p.encode64 iv };
  ciphertext = [];
}

-- The bytes that `save_with` writes.
unfoldable pub seal : Platform → Host → VaultPlaintext → Bytes → Bytes → ℕ → Result Bytes
seal p host plaintext key salt iterations = do
  iv ← host.iv
  json ← ok_or (p.plaintext_to_json plaintext) encode_failed
  fail_if (not (length key == 32)) key_invalid
  ciphertext ←
      ok_or (p.encrypt key iv (additional_data (unsealed_file p salt iterations iv)) json)
        encrypt_failed
  let file = record (unsealed_file p salt iterations iv) { ciphertext = p.encode64 ciphertext }
  contents ← ok_or (p.file_to_json file) encode_failed
  ok (contents ++ 10 ∷ [])

unfoldable pub save_with :
    Platform → Host → VaultPlaintext → Bytes → Bytes → ℕ → Exec Disk (Unit {0})
unfolding seal atomic_write
save_with p host plaintext key salt iterations =
    Exec.◌>>=◌ (lift (seal p host plaintext key salt iterations)) (atomic_write host)
