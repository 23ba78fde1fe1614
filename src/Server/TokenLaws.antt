-- ===== src/Server/TokenLaws.antt =====
-- The comparison of the tokens.
use secretd.Prelude.{ℕ, ◌≡◌, ◌↔◌, true, List, [], ◌∷◌, length, refl, sym, ap, ==_iff, arith}
use secretd.Prelude.Bits.{bit_xor_iff, bit_or_iff}
use secretd.Server.Token.{differences, constant_time_equal}
use Prim.Native.Nat.{bit_or, bit_xor}

differences_start : (d : ℕ) (left right : List ℕ) → differences d left right ≡ 0 → d ≡ 0
unfolding differences
differences_start d [] [] e = e
differences_start d [] (b ∷ right) e =
    ((bit_or_iff d (bit_xor 0 b)).0 (differences_start (bit_or d (bit_xor 0 b)) [] right e)).0
differences_start d (a ∷ left) [] e =
    ((bit_or_iff d (bit_xor a 0)).0 (differences_start (bit_or d (bit_xor a 0)) left [] e)).0
differences_start d (a ∷ left) (b ∷ right) e =
    ((bit_or_iff d (bit_xor a b)).0 (differences_start (bit_or d (bit_xor a b)) left right e)).0

same_length :
    (d : ℕ) (left right : List ℕ)
    → length left ≡ length right
    → differences d left right ≡ 0
    → left ≡ right
unfolding differences
same_length d [] [] n e = refl
same_length d [] (b ∷ right) n e = absurd (ground arith)
same_length d (a ∷ left) [] n e = absurd (ground arith)
same_length d (a ∷ left) (b ∷ right) n e =
    let first =
      ((bit_or_iff d (bit_xor a b)).0
        (differences_start (bit_or d (bit_xor a b)) left right e)).1 in
    let same = (bit_xor_iff a b).0 first in
    let rest = same_length (bit_or d (bit_xor a b)) left right (ground arith) e in cc

no_difference : (texts : List ℕ) → differences 0 texts texts ≡ 0
unfolding differences
no_difference [] = refl
no_difference (a ∷ texts) =
    let same = (bit_xor_iff a a).1 refl in
    let none = (bit_or_iff 0 (bit_xor a a)).1 (refl, same) in rw none (no_difference texts)

-- The comparison of two tokens, as lists of bytes, accepts exactly two that are the same, in their
-- length too.
pub constant_time_equal_iff :
    (left right : List ℕ) → (constant_time_equal left right ≡ true) ↔ (left ≡ right)
unfolding constant_time_equal
constant_time_equal_iff left right =
    let start = bit_xor (length left) (length right) in
    let zero_is = ==_iff (differences start left right) 0 in
    (
      λ e.
          let none = zero_is.0 e in
          let n =
            (bit_xor_iff (length left) (length right)).0
              (differences_start start left right none) in
          same_length start left right n none,
      λ e.
          let n = (bit_xor_iff (length left) (length right)).1 (ap length e) in
          zero_is.1 (rw (n, sym e) (no_difference left)),
    )
