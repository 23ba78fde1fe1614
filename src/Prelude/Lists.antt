-- ===== src/Prelude/Lists.antt =====
-- Lists over the native numbers, with Boolean tests in place of decisions.
use Prim.Native.Nat.{ℕ, zero, suc, ◌+◌, ◌-◌}
use mathlib.Core.Path.{◌≡◌, refl, subst}
use mathlib.Core.Bool.{Bool, true, false, ◌&&◌, ◌||◌}
use mathlib.Core.List.{List, [], ◌∷◌, ◌++◌}
use mathlib.Core.Option.{Option, none, some}
use mathlib.Core.Logic.{◌⊎◌, ◌↔◌, inl, inr}
use native.Mathlib.Omega.{arith}
use secretd.Prelude.Tests.{if◌then◌else◌, Bool-cases}

module _ {ℓ} {A : Type ℓ} where
  abbrev pub length : List A → ℕ
  length [] = 0
  length (x ∷ xs) = suc (length xs)

  abbrev pub drop : ℕ → List A → List A
  drop zero xs = xs
  drop (suc n) [] = []
  drop (suc n) (x ∷ xs) = drop n xs

  pub length-append : (xs ys : List A) → length (xs ++ ys) ≡ length xs + length ys
  length-append [] ys = omega arith
  length-append (x ∷ xs) ys = omega (arith, length-append xs ys)

  pub length-drop : (n : ℕ) (xs : List A) → length (drop n xs) ≡ length xs - n
  length-drop zero xs = omega arith
  length-drop (suc n) [] = omega arith
  length-drop (suc n) (x ∷ xs) = omega (arith, length-drop n xs)

  -- `Vec::retain`, `Iterator::filter`: one structural call.
  unfoldable pub retain : (A → Bool) → List A → List A
  retain keep [] = []
  retain keep (x ∷ xs) = let rest = retain keep xs in if keep x then x ∷ rest else rest

  -- `Iterator::find`
  unfoldable pub find : (A → Bool) → List A → Option A
  find test [] = none
  find test (x ∷ xs) = let rest = find test xs in if test x then some x else rest

  -- `iter().rev().find()`: the last element that passes.
  unfoldable pub find_last : (A → Bool) → List A → Option A
  find_last test [] = none
  find_last test (x ∷ xs) = elim (find_last test xs) [
    | some y ↦ some y
    | none ↦ if test x then some x else none
  ]

  -- `Iterator::any` and `Iterator::all`
  unfoldable pub any : (A → Bool) → List A → Bool
  any test [] = false
  any test (x ∷ xs) = test x || any test xs

  unfoldable pub all : (A → Bool) → List A → Bool
  all test [] = true
  all test (x ∷ xs) = test x && all test xs

  -- `position` and then `remove`: drops the first element that passes.
  unfoldable pub remove_first : (A → Bool) → List A → List A
  remove_first test [] = []
  remove_first test (x ∷ xs) = let rest = remove_first test xs in if test x then xs else x ∷ rest

  -- `iter_mut().find()`: changes the first element that passes.
  unfoldable pub update_first : (A → Bool) → (A → A) → List A → List A
  update_first test f [] = []
  update_first test f (x ∷ xs) =
      let rest = update_first test f xs in if test x then f x ∷ xs else x ∷ rest

  -- `Iterator::skip_while`
  unfoldable pub skip_while : (A → Bool) → List A → List A
  skip_while test [] = []
  skip_while test (x ∷ xs) = let rest = skip_while test xs in if test x then rest else x ∷ xs

  abbrev pub first : List A → Option A
  first [] = none
  first (x ∷ xs) = some x

  -- every element satisfies the predicate
  abbrev pub All {κ} : (A → Type κ) → List A → Type κ
  All P [] = Unit
  All P (x ∷ xs) = P x × All P xs

  -- some element satisfies the predicate
  abbrev pub Any : (A → Type 0) → List A → Type 0
  Any P [] = ⊥
  Any P (x ∷ xs) = P x ⊎ Any P xs

pub All-map :
    {A : Type 0} (P Q : A → Type 0) (xs : List A) → ((x : A) → P x → Q x) → All P xs → All Q xs
All-map P Q [] f h = tt
All-map P Q (x ∷ xs) f h = (f x h.0, All-map P Q xs f h.1)

module _ {ℓ} {A : Type ℓ} (P : A → Type 0) where
  pub All-append : (xs ys : List A) → All P xs → All P ys → All P (xs ++ ys)
  All-append [] ys h k = k
  All-append (x ∷ xs) ys h k = (h.0, All-append xs ys h.1 k)

  pub All-drop : (n : ℕ) (xs : List A) → All P xs → All P (drop n xs)
  All-drop zero xs h = h
  All-drop (suc n) [] h = h
  All-drop (suc n) (x ∷ xs) h = All-drop n xs h.1

  pub All-retain : (keep : A → Bool) (xs : List A) → All P xs → All P (retain keep xs)
  unfolding retain
  All-retain keep [] h = h
  All-retain keep (x ∷ xs) h = ground (arith, All-retain keep xs h.1)

  pub All-remove_first : (test : A → Bool) (xs : List A) → All P xs → All P (remove_first test xs)
  unfolding remove_first
  All-remove_first test [] h = h
  All-remove_first test (x ∷ xs) h = ground (arith, All-remove_first test xs h.1)

  pub All-update_first :
      (test : A → Bool) (f : A → A) (xs : List A)
      → ((x : A) → P x → P (f x))
      → All P xs
      → All P (update_first test f xs)
  unfolding update_first
  All-update_first test f [] k h = h
  All-update_first test f (x ∷ xs) k h = ground (arith, All-update_first test f xs k h.1, k x)

  -- what `find` returns passes the test, and satisfies what the whole list does
  pub All-find :
      (test : A → Bool) (xs : List A) (x : A)
      → All P xs
      → find test xs ≡ some x
      → P x × (test x ≡ true)
  unfolding find
  All-find test [] x h e = cc
  All-find test (y ∷ xs) x h e = ground (arith, All-find test xs x h.1)

  pub All-find_last :
      (test : A → Bool) (xs : List A) (x : A)
      → All P xs
      → find_last test xs ≡ some x
      → P x × (test x ≡ true)
  unfolding find_last
  All-find_last test [] x h e = cc
  All-find_last test (y ∷ xs) x h e = ground (arith, All-find_last test xs x h.1)

module _ {ℓ} {A : Type ℓ} where
  pub any-false_iff :
      (test : A → Bool) (xs : List A) → (any test xs ≡ false) ↔ All (λ x. test x ≡ false) xs
  unfolding any
  any-false_iff test [] = (λ e. tt, λ h. refl)
  any-false_iff test (x ∷ xs) =
      let ih = any-false_iff test xs in
      (λ e. (ground arith, ih.0 (ground arith)), λ h. ground (arith, ih.1 h.1))

  pub any-true_iff :
      (test : A → Bool) (xs : List A) → (any test xs ≡ true) ↔ Any (λ x. test x ≡ true) xs
  unfolding any
  any-true_iff test [] = (λ e. cc, λ h. absurd h)
  any-true_iff test (x ∷ xs) =
      let ih = any-true_iff test xs in (λ e. ground (arith, ih), λ h. ground (arith, ih))

  pub all_iff : (test : A → Bool) (xs : List A) → (all test xs ≡ true) ↔ All (λ x. test x ≡ true) xs
  unfolding all
  all_iff test [] = (λ e. tt, λ h. refl)
  all_iff test (x ∷ xs) =
      let ih = all_iff test xs in
      (λ e. (ground arith, ih.0 (ground arith)), λ h. ground (arith, ih.1 h.1))

-- what `find` returns passes the test, and where it returns nothing no element does
pub find-passes :
    {A : Type 0} (test : A → Bool) (xs : List A) (x : A) → find test xs ≡ some x → test x ≡ true
unfolding find
find-passes test [] x e = absurd (ground arith)
find-passes test (y ∷ xs) x e = elim (Bool-cases (test y)) [
  | inl passes ↦ let same : y ≡ x = ground arith in subst (λ z. test z ≡ true) same passes
  | inr fails ↦ find-passes test xs x (ground arith)
]

pub find-none :
    {A : Type 0} (test : A → Bool) (xs : List A)
    → find test xs ≡ none
    → All (λ x. test x ≡ false) xs
unfolding find
find-none test [] e = tt
find-none test (y ∷ xs) e = elim (Bool-cases (test y)) [
  | inl passes ↦ absurd (ground arith)
  | inr fails ↦ (fails, find-none test xs (ground arith))
]
