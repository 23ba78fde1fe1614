-- ===== src/Vault/Names.antt =====
-- src/vault.rs: `normalize_secret_name` and `validate_password`.
use secretd.Prelude.{ℕ, Bool, ◌||◌, List, [], ◌∷◌, ltb, any, length}
use secretd.Prelude.Text.{Text, codes, same_text, trim, slashes, split, is_control, is_empty}
use secretd.Prelude.Result.{
  Result, ok, ◌>>◌, fail_if, name_invalid, name_control, name_segment, name_reserved,
  password_too_short,
}

abbrev pub is_dots : Text → Bool
is_dots segment =
    is_empty segment || same_text segment (codes ".") || same_text segment (codes "..")

abbrev pub is_reserved : Text → Bool
is_reserved segment =
    same_text segment (codes "__proto__")
    || same_text segment (codes "prototype")
    || same_text segment (codes "constructor")

unfoldable pub validate_segments : List Text → Result (Unit {0})
validate_segments [] = ok tt
validate_segments (segment ∷ segments) = do
  fail_if (is_dots segment) name_segment
  fail_if (is_reserved segment) name_reserved
  validate_segments segments

-- the tests on the trimmed name
unfoldable pub validate_name : Text → Result Text
unfolding validate_segments
validate_name normalized = do
  fail_if (is_empty normalized || ltb 256 (length normalized)) name_invalid
  fail_if (any is_control normalized) name_control
  validate_segments (split b'/' normalized)
  ok normalized

unfoldable pub normalize_secret_name : Text → Result Text
unfolding validate_name
normalize_secret_name name = validate_name (slashes (trim name))

abbrev pub min_master_password_length : ℕ
min_master_password_length = 7

unfoldable pub validate_password : Text → Result (Unit {0})
validate_password password =
    fail_if (ltb (length password) min_master_password_length) password_too_short
