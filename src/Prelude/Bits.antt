-- ===== src/Prelude/Bits.antt =====
-- When the exclusive or, and the or, of two numbers are zero.
use Prim.Native.Nat.{
  ℕ, zero, suc, ◌≤◌, ◌/◌, ◌%◌, max, bit_or, bit_or-bitwise, bit_xor, bit_xor-bitwise, digits,
  differ,
}
use mathlib.Core.Path.{◌≡◌, refl, sym, subst}
use mathlib.Core.Logic.{◌↔◌}
use native.Mathlib.Omega.{arith}

differ_iff : (x y : ℕ) → (differ x y ≡ 0) ↔ (x ≡ y)
differ_iff zero y = (λ e. sym e, λ e. sym e)
differ_iff (suc x) zero = (λ e. absurd (omega (arith, e)), λ e. absurd (omega (arith, e)))
differ_iff (suc x) (suc y) =
    let ih = differ_iff x y in (λ e. omega (arith, ih.0 e), λ e. ih.1 (omega (arith, e)))

halves : (a b : ℕ) → a / 2 ≡ b / 2 → a % 2 ≡ b % 2 → a ≡ b
halves a b q r = omega (arith, q, r)

differences_iff : (n a b : ℕ) → a ≤ n → (digits (λ d. d) differ n a b ≡ 0) ↔ (a ≡ b)
differences_iff zero a b h = let none : a ≡ 0 = omega (arith, h) in rw none (λ e. sym e, λ e. sym e)
differences_iff (suc n) zero b h = (λ e. sym e, λ e. sym e)
differences_iff (suc n) (suc a) b h =
    let ih = differences_iff n (suc a / 2) (b / 2) (omega (arith, h)) in
    let last = differ_iff (suc a % 2) (b % 2) in
    (
      λ e. halves (suc a) b (ih.0 (omega (arith, e))) (last.0 (omega (arith, e))),
      λ e.
          let q : suc a / 2 ≡ b / 2 = omega (arith, e) in
          let r : suc a % 2 ≡ b % 2 = omega (arith, e) in
          let x = ih.1 q in let y = last.1 r in omega (arith, x, y),
    )

pub bit_xor_iff : (a b : ℕ) → (bit_xor a b ≡ 0) ↔ (a ≡ b)
bit_xor_iff a b =
    subst (λ x. (x ≡ 0) ↔ (a ≡ b)) (sym (λ i. bit_xor-bitwise a b i))
      (differences_iff a a b (omega arith))

unions_iff : (n a b : ℕ) → a ≤ n → (digits (λ d. d) max n a b ≡ 0) ↔ ((a ≡ 0) × (b ≡ 0))
unions_iff zero a b h = let none : a ≡ 0 = omega (arith, h) in rw none (λ e. (refl, e), λ e. e.1)
unions_iff (suc n) zero b h = (λ e. (refl, e), λ e. e.1)
unions_iff (suc n) (suc a) b h =
    let ih = unions_iff n (suc a / 2) (b / 2) (omega (arith, h)) in
    (
      λ e.
          let q = ih.0 (omega (arith, e)) in
          let r : max (suc a % 2) (b % 2) ≡ 0 = omega (arith, e) in
          (omega (arith, q.0, r), omega (arith, q.1, r)),
      λ e. absurd (omega (arith, e.0)),
    )

pub bit_or_iff : (a b : ℕ) → (bit_or a b ≡ 0) ↔ ((a ≡ 0) × (b ≡ 0))
bit_or_iff a b =
    subst (λ x. (x ≡ 0) ↔ ((a ≡ 0) × (b ≡ 0))) (sym (λ i. bit_or-bitwise a b i))
      (unions_iff a a b (omega arith))
