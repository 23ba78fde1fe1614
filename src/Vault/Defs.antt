-- ===== src/Vault/Defs.antt =====
-- src/vault.rs: the data of the vault, and what the program takes from libraries and the system.
use secretd.Prelude.{ℕ, ◌*◌, ◌≡◌, Bool, Option, some, List, [], ◌∷◌, ◌++◌, length}
use secretd.Prelude.Text.{Text}
use secretd.Prelude.Map.{TextMap}
use secretd.Prelude.Result.{Result}
use secretd.Aws.{AwsSettings}

abbrev pub Bytes : Type 0
Bytes = List ℕ

abbrev pub vault_version : ℕ
vault_version = 1

abbrev pub pbkdf2_iterations : ℕ
pbkdf2_iterations = 600_000

abbrev pub max_vault_bytes : ℕ
max_vault_bytes = 32 * 1024 * 1024

pub record SecretSummary : Type 0 where
  pub name : Text
  pub created_at : Text
  pub updated_at : Text

pub record VaultEntry : Type 0 where
  pub value : Text
  pub created_at : Text
  pub updated_at : Text

pub record VaultPlaintext : Type 0 where
  pub version : ℕ
  pub revision : ℕ
  pub secrets : TextMap VaultEntry
  pub aws : Option AwsSettings

pub record KdfHeader : Type 0 where
  pub name : Text
  pub hash : Text
  pub iterations : ℕ
  pub salt : Text

pub record CipherHeader : Type 0 where
  pub name : Text
  pub iv : Text

pub record VaultFile : Type 0 where
  pub version : ℕ
  pub kdf : KdfHeader
  pub cipher : CipherHeader
  pub ciphertext : Text

-- What stands under the path of the vault.
pub data PathState : Type 0 where
  missing not_file : PathState
  unreadable : Text → PathState
  regular : Bytes → PathState

-- The file of the vault, and the temporary files beside it that writes have left, the newest first.
pub record Disk : Type 0 where
  pub vault : PathState
  pub temporary : List Bytes

pub record VaultStore : Type 0 where
  pub key : Option Bytes
  pub salt : Option Bytes
  pub iterations : ℕ
  pub plaintext : Option VaultPlaintext
  pub disk : Disk

-- PBKDF2-HMAC-SHA-256, AES-256-GCM, base64 and serde_json.
pub record Platform : Type 0 where
  pub derive : Text → Bytes → ℕ → Bytes
  pub encrypt : Bytes → Bytes → Text → Bytes → Option Bytes
  pub decrypt : Bytes → Bytes → Text → Bytes → Option Bytes
  pub encode64 : Bytes → Text
  pub decode64 : Text → Option Bytes
  pub plaintext_to_json : VaultPlaintext → Option Bytes
  pub plaintext_of_json : Bytes → Option VaultPlaintext
  pub file_to_json : VaultFile → Option Bytes
  pub file_of_json : Bytes → Option VaultFile

-- What the documentation of these libraries promises: a key of 32 bytes, decryption under the key,
-- the nonce and the associated data of the encryption, and decoding of what was encoded. A JSON
-- text may end with a line feed.
pub record IsPlatform (p : Platform) : Type 0 where
  pub key_length :
      (password : Text) (salt : Bytes) (rounds : ℕ) → length (p.derive password salt rounds) ≡ 32
  pub decrypts :
      (key nonce : Bytes) (aad : Text) (message ciphertext : Bytes)
      → p.encrypt key nonce aad message ≡ some ciphertext
      → p.decrypt key nonce aad ciphertext ≡ some message
  pub decodes : (bytes : Bytes) → p.decode64 (p.encode64 bytes) ≡ some bytes
  pub reads_plaintext :
      (plaintext : VaultPlaintext) (json : Bytes)
      → p.plaintext_to_json plaintext ≡ some json
      → p.plaintext_of_json json ≡ some plaintext
  pub reads_file :
      (file : VaultFile) (json : Bytes)
      → p.file_to_json file ≡ some json
      → p.file_of_json (json ++ 10 ∷ []) ≡ some file

-- The results of the system calls that one operation makes, in its order: random bytes for the
-- salt and for the nonce, the time, the reading of the file, and the steps of the atomic write;
-- `partial` is what a write that fails has left in the temporary file.
pub record Host : Type 0 where
  pub salt : Result Bytes
  pub iv : Result Bytes
  pub now : Text
  pub reading : Result (Unit {0})
  pub parent : Result (Unit {0})
  pub directory : Result (Unit {0})
  pub opening : Result (Unit {0})
  pub writing : Result (Unit {0})
  pub renaming : Result (Unit {0})
  pub partial : Bytes
  pub removable : Bool
