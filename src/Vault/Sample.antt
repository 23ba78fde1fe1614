-- ===== src/Vault/Sample.antt =====
-- Functions in the place of the libraries that the vault uses, for tests: they keep what the
-- documentation promises, and nothing secret.
use secretd.Prelude.{
  ℕ, zero, suc, ◌≡◌, ◌∙◌, refl, Option, none, some, [], ◌∷◌, length, arith, ◌++◌, if◌then◌else◌,
  subst, ◌&&◌,
}
use secretd.Prelude.Text.{Text, same_text_refl, same_text}
use secretd.Prelude.Map.{TextMap}
use secretd.Vault.Defs.{Bytes, VaultFile, VaultPlaintext, VaultEntry, Platform, IsPlatform}

-- a text, and what follows it
unfoldable pub frame : Text → Bytes → Bytes
frame [] rest = 0 ∷ rest
frame (c ∷ text) rest = suc c ∷ frame text rest

unfoldable pub prepend : ℕ → Option (Text × Bytes) → Option (Text × Bytes)
prepend c none = none
prepend c (some (text, rest)) = some (c ∷ text, rest)

unfoldable pub unframe : Bytes → Option (Text × Bytes)
unfolding prepend
unframe [] = none
unframe (zero ∷ rest) = some ([], rest)
unframe (suc c ∷ rest) = prepend c (unframe rest)

unframe-frame : (text : Text) (rest : Bytes) → unframe (frame text rest) ≡ some (text, rest)
unfolding unframe frame
unframe-frame [] rest = refl
unframe-frame (c ∷ text) rest = rw (unframe-frame text rest) refl

unfoldable pub also : {A B : Type 0} → Option (A × Bytes) → (A → Bytes → Option B) → Option B
also none next = none
also (some (a, rest)) next = next a rest

unframe-also :
    {B : Type 0} (text : Text) (rest : Bytes) (next : Text → Bytes → Option B)
    → also (unframe (frame text rest)) next ≡ next text rest
unfolding also
unframe-also text rest next = rw (unframe-frame text rest) refl

unfoldable pub write_entries : TextMap VaultEntry → Bytes
unfolding frame
write_entries [] = []
write_entries ((name, e) ∷ m) =
    frame name (frame e.value (frame e.created_at (frame e.updated_at (write_entries m))))

unfoldable pub add_entry :
    Text × VaultEntry → Option (TextMap VaultEntry) → Option (TextMap VaultEntry)
add_entry e none = none
add_entry e (some m) = some (e ∷ m)

unfoldable pub read_entries : ℕ → Bytes → Option (TextMap VaultEntry)
unfolding also unframe add_entry
read_entries zero bytes = some []
read_entries (suc n) bytes = also (unframe bytes) λ name r. also (unframe r) λ value s.
    also (unframe s) λ created t. also (unframe t) λ updated u.
      add_entry (name, record { value = value; created_at = created; updated_at = updated })
        (read_entries n u)

read-write_entries : (m : TextMap VaultEntry) → read_entries (length m) (write_entries m) ≡ some m
unfolding read_entries write_entries add_entry
read-write_entries [] = refl
read-write_entries ((name, e) ∷ m) =
    unframe-also name _ _
    ∙ unframe-also e.value _ _
    ∙ unframe-also e.created_at _ _
    ∙ unframe-also e.updated_at _ _
    ∙ rw (read-write_entries m) refl

unfoldable pub write_plaintext : VaultPlaintext → Option Bytes
unfolding write_entries
write_plaintext p = elim p.aws [
  | none ↦ some (p.version ∷ p.revision ∷ length p.secrets ∷ write_entries p.secrets)
  | some settings ↦ none
]

unfoldable pub with_header : ℕ → ℕ → Option (TextMap VaultEntry) → Option VaultPlaintext
with_header version revision none = none
with_header version revision (some secrets) =
    some (record { version = version; revision = revision; secrets = secrets; aws = none })

unfoldable pub read_plaintext : Bytes → Option VaultPlaintext
unfolding with_header read_entries
read_plaintext (version ∷ revision ∷ n ∷ rest) = with_header version revision (read_entries n rest)
read_plaintext _ = none

read-write_plaintext :
    (p : VaultPlaintext) (json : Bytes)
    → write_plaintext p ≡ some json
    → read_plaintext json ≡ some p
unfolding write_plaintext read_plaintext with_header
read-write_plaintext p json e = ground (arith, read-write_entries p.secrets)

unfoldable pub fields : VaultFile → Bytes
unfolding frame
fields f = frame f.kdf.name (
    frame f.kdf.hash
      (frame f.kdf.salt (frame f.cipher.name (frame f.cipher.iv (frame f.ciphertext [])))))

unfoldable pub write_file : VaultFile → Option Bytes
unfolding fields
write_file f = some (f.version ∷ f.kdf.iterations ∷ fields f)

-- What is behind the file, such as its line feed, is not read.
unfoldable pub read_file : Bytes → Option VaultFile
unfolding also unframe
read_file (version ∷ iterations ∷ rest) = also (unframe rest) λ name a. also (unframe a) λ hash b.
    also (unframe b) λ salt c. also (unframe c) λ cipher d. also (unframe d) λ iv e.
      also (unframe e) λ ciphertext g. some (record {
        version = version;
        kdf = record { name = name; hash = hash; iterations = iterations; salt = salt };
        cipher = record { name = cipher; iv = iv };
        ciphertext = ciphertext;
      })
read_file _ = none

frame-append :
    (text : Text) (rest more : Bytes) → frame text rest ++ more ≡ frame text (rest ++ more)
unfolding frame
frame-append [] rest more = refl
frame-append (c ∷ text) rest more = ground (arith, frame-append text rest more)

read-write_file :
    (f : VaultFile) (json : Bytes) → write_file f ≡ some json → read_file (json ++ 10 ∷ []) ≡ some f
unfolding write_file read_file fields
read-write_file f json e =
    subst (λ x. read_file (x ++ 10 ∷ []) ≡ some f) {x = f.version ∷ f.kdf.iterations ∷ fields f}
      {y = json} (ground arith)
      (rw
        (
          frame-append f.kdf.name,
          frame-append f.kdf.hash,
          frame-append f.kdf.salt,
          frame-append f.cipher.name,
          frame-append f.cipher.iv,
          frame-append f.ciphertext,
        )
        (unframe-also f.kdf.name _ _
          ∙ unframe-also f.kdf.hash _ _
          ∙ unframe-also f.kdf.salt _ _
          ∙ unframe-also f.cipher.name _ _
          ∙ unframe-also f.cipher.iv _ _
          ∙ unframe-also f.ciphertext _ _))

-- The text under its key and its associated data, which have to be the same again.
unfoldable pub open_frames : Bytes → Text → Bytes → Option Bytes
unfolding also unframe
open_frames key aad ciphertext = also (unframe ciphertext) λ written r.
    also (unframe r) λ associated message.
      if same_text written key && same_text associated aad then some message else none

open-frames :
    (key : Bytes) (aad : Text) (message : Bytes)
    → open_frames key aad (frame key (frame aad message)) ≡ some message
unfolding open_frames
open-frames key aad message =
    unframe-also key _ _ ∙ unframe-also aad _ _ ∙ rw (same_text_refl key, same_text_refl aad) refl

-- the first bytes of a text, filled up with zeros
unfoldable pub fill : ℕ → Text → Bytes
fill zero text = []
fill (suc n) [] = 0 ∷ fill n []
fill (suc n) (c ∷ text) = c ∷ fill n text

length-fill : (n : ℕ) (text : Text) → length (fill n text) ≡ n
unfolding fill
length-fill zero text = refl
length-fill (suc n) [] = ground (arith, length-fill n [])
length-fill (suc n) (c ∷ text) = ground (arith, length-fill n text)

abbrev pub sample : Platform
sample = record {
  derive = λ password salt rounds. fill 32 password;
  encrypt = λ key nonce aad message. some (frame key (frame aad message));
  decrypt = λ key nonce aad ciphertext. open_frames key aad ciphertext;
  encode64 = λ bytes. bytes;
  decode64 = λ text. some text;
  plaintext_to_json = write_plaintext;
  plaintext_of_json = read_plaintext;
  file_to_json = write_file;
  file_of_json = read_file;
}

pub sample-IsPlatform : IsPlatform sample
sample-IsPlatform = record {
  key_length = λ password salt rounds. length-fill 32 password;
  decrypts = λ key nonce aad message ciphertext e.
      subst (λ x. open_frames key aad x ≡ some message) {x = frame key (frame aad message)}
        {y = ciphertext} (ground arith) (open-frames key aad message);
  decodes = λ bytes. refl;
  reads_plaintext = read-write_plaintext;
  reads_file = read-write_file;
}
