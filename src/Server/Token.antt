-- ===== src/Server/Token.antt =====
-- src/ipc/server.rs: `constant_time_equal`, over the bytes of the two tokens.
use Prim.Native.Nat.{bit_or, bit_xor}
use secretd.Prelude.Text.{Text}
use secretd.Prelude.{ltb, ◌++◌, ◌+◌, ◌/◌, ◌%◌, if◌then◌else◌, ℕ, Bool, List, [], ◌∷◌, length, ◌==◌}

-- the loop over the indices, where a text that has ended gives zeros
unfoldable pub differences : ℕ → List ℕ → List ℕ → ℕ
differences difference [] [] = difference
differences difference [] (b ∷ right) = differences (bit_or difference (bit_xor 0 b)) [] right
differences difference (a ∷ left) [] = differences (bit_or difference (bit_xor a 0)) left []
differences difference (a ∷ left) (b ∷ right) =
    differences (bit_or difference (bit_xor a b)) left right

unfoldable pub constant_time_equal : List ℕ → List ℕ → Bool
unfolding differences
constant_time_equal left right = differences (bit_xor (length left) (length right)) left right == 0

-- the UTF-8 bytes of a character, and of a text, as `as_bytes` gives them
utf8_char : ℕ → List ℕ
utf8_char c =
    if ltb c 0x80
    then c ∷ []
    else if ltb c 0x800
    then (0xc0 + c / 64) ∷ (0x80 + c % 64) ∷ []
    else if ltb c 0x10000
    then (0xe0 + c / 4096) ∷ (0x80 + c / 64 % 64) ∷ (0x80 + c % 64) ∷ []
    else (0xf0 + c / 262144) ∷ (0x80 + c / 4096 % 64) ∷ (0x80 + c / 64 % 64) ∷ (0x80 + c % 64) ∷ []

unfoldable pub as_bytes : Text → List ℕ
unfolding utf8_char
as_bytes [] = []
as_bytes (c ∷ s) = utf8_char c ++ as_bytes s
