-- ===== src/Vault/Specification.antt =====
-- An abstract vault: a function from normalized names to values, or none while it is locked, and
-- what each edit does to it.
use secretd.Prelude.{◌≡◌, Option, none, some, List, [], ◌∷◌, if◌then◌else◌, is_some, not, ◌&&◌}
use secretd.Prelude.Text.{Text, same_text}
use secretd.Prelude.Map.{get}
use secretd.Prelude.Result.{Result, ok, err, vault_locked, secret_not_found}
use secretd.Vault.Ordered.{Edit, saves, renames, deletes, locks}
use secretd.Vault.Names.{normalize_secret_name}
use secretd.Vault.Defs.{VaultEntry, VaultStore, VaultPlaintext}
use secretd.Vault.Store.{require_data}

abbrev pub Secrets : Type 0
Secrets = Text → Option Text

abbrev pub updated : Text → Option Text → Secrets → Secrets
updated name value secrets = λ other. if same_text name other then value else secrets other

-- what an edit of an unlocked vault does to the names and values; an edit that is refused, nothing
unfoldable pub specified_rename : Text → Text → Secrets → Secrets
specified_rename old new secrets =
    if not (same_text old new) && is_some (secrets new) then secrets else elim (secrets old) [
      | none ↦ secrets
      | some value ↦ updated new (some value) (updated old none secrets)
    ]

unfoldable pub specified_names : Result Text → Result Text → Secrets → Secrets
unfolding specified_rename
specified_names (ok old) (ok new) secrets = specified_rename old new secrets
specified_names _ _ secrets = secrets

unfoldable pub specified_name : Result Text → Option Text → Secrets → Secrets
specified_name (ok name) value secrets = updated name value secrets
specified_name (err f) value secrets = secrets

unfoldable pub specified : Edit → Option Secrets → Option Secrets
unfolding specified_name specified_names
specified edit none = none
specified (saves host name value) (some secrets) =
    some (specified_name (normalize_secret_name name) (some value) secrets)
specified (renames host old new) (some secrets) =
    some (specified_names (normalize_secret_name old) (normalize_secret_name new) secrets)
specified (deletes host name) (some secrets) =
    some (specified_name (normalize_secret_name name) none secrets)
specified locks (some secrets) = none

unfoldable pub specified_all : List Edit → Option Secrets → Option Secrets
unfolding specified
specified_all [] abstract = abstract
specified_all (edit ∷ edits) abstract = specified_all edits (specified edit abstract)

abbrev pub value_of : Option VaultEntry → Option Text
value_of none = none
value_of (some entry) = some entry.value

-- The abstract vault that a store stands for.
abbrev pub Represents : VaultStore → Option Secrets → Type 0
Represents store none = require_data store ≡ err vault_locked
Represents store (some secrets) =
    (plaintext : VaultPlaintext) × (require_data store ≡ ok plaintext)
    × ((name : Text) → value_of (get name plaintext.secrets) ≡ secrets name)

-- What an abstract vault answers for a normalized name.
abbrev pub answered : Option Text → Result Text
answered none = err secret_not_found
answered (some value) = ok value

abbrev pub observed : Option Secrets → Text → Result Text
observed none name = err vault_locked
observed (some secrets) name = answered (secrets name)
