-- ===== src/Prelude/Sort.antt =====
-- `sort_by_key`, the stable sort of the standard library, as an insertion sort.
use Prim.Native.Nat.{ℕ, ◌≤◌}
use mathlib.Core.Bool.{Bool}
use mathlib.Core.Logic.{inl, inr, ◌⊎◌}
use mathlib.Core.List.{List, [], ◌∷◌, Perm}
use mathlib.Core.List.Perm
use native.Mathlib.Omega.{arith}
use secretd.Prelude.Tests.{leb, if◌then◌else◌, Bool-cases}
use secretd.Prelude.Lists.{All, Any}

module _ {A : Type 0} (key : A → ℕ) where
  -- before the first element whose key is not smaller
  unfoldable pub insert_by_key : A → List A → List A
  insert_by_key x [] = x ∷ []
  insert_by_key x (y ∷ ys) =
      let rest = insert_by_key x ys in if leb (key x) (key y) then x ∷ y ∷ ys else y ∷ rest

  unfoldable pub sort_by_key : List A → List A
  unfolding insert_by_key
  sort_by_key [] = []
  sort_by_key (x ∷ xs) = insert_by_key x (sort_by_key xs)

  -- every key is at most those behind it
  abbrev pub IsSortedByKey : List A → Type 0
  IsSortedByKey [] = Unit
  IsSortedByKey (x ∷ xs) = All (λ y. key x ≤ key y) xs × IsSortedByKey xs

  All-insert_by_key :
      (n : ℕ) (x : A) (xs : List A)
      → n ≤ key x
      → All (λ y. n ≤ key y) xs
      → All (λ y. n ≤ key y) (insert_by_key x xs)
  unfolding insert_by_key
  All-insert_by_key n x [] h k = (h, tt)
  All-insert_by_key n x (y ∷ ys) h k = elim (Bool-cases (leb (key x) (key y))) [
    | inl t ↦ rw t (h, k)
    | inr t ↦ rw t (k.0, All-insert_by_key n x ys h k.1)
  ]

  All-le_trans : (m n : ℕ) (xs : List A) → m ≤ n → All (λ y. n ≤ key y) xs → All (λ y. m ≤ key y) xs
  All-le_trans m n [] h k = tt
  All-le_trans m n (x ∷ xs) h k = (omega (arith, h, k.0), All-le_trans m n xs h k.1)

  insert_by_key-IsSortedByKey :
      (x : A) (xs : List A) → IsSortedByKey xs → IsSortedByKey (insert_by_key x xs)
  unfolding insert_by_key
  insert_by_key-IsSortedByKey x [] h = (tt, tt)
  insert_by_key-IsSortedByKey x (y ∷ ys) h = elim (Bool-cases (leb (key x) (key y))) [
    | inl t ↦
        let le : key x ≤ key y = ground arith in
        rw t ((le, All-le_trans (key x) (key y) ys le h.0), h)
    | inr t ↦
        rw t
          (All-insert_by_key (key y) x ys (ground arith) h.0, insert_by_key-IsSortedByKey x ys h.1)
  ]

  pub sort_by_key-IsSortedByKey : (xs : List A) → IsSortedByKey (sort_by_key xs)
  unfolding sort_by_key
  sort_by_key-IsSortedByKey [] = tt
  sort_by_key-IsSortedByKey (x ∷ xs) =
      insert_by_key-IsSortedByKey x (sort_by_key xs) (sort_by_key-IsSortedByKey xs)

  insert_by_key-perm : (x : A) (xs : List A) → Perm (insert_by_key x xs) (x ∷ xs)
  unfolding insert_by_key
  insert_by_key-perm x [] = Perm.rfl
  insert_by_key-perm x (y ∷ ys) = elim (Bool-cases (leb (key x) (key y))) [
    | inl t ↦ rw t Perm.rfl
    | inr t ↦ rw t (Perm.trans (Perm.cons y (insert_by_key-perm x ys)) (Perm.swap x y ys))
  ]

  pub sort_by_key-perm : (xs : List A) → Perm (sort_by_key xs) xs
  unfolding sort_by_key
  sort_by_key-perm [] = Perm.rfl
  sort_by_key-perm (x ∷ xs) =
      Perm.trans (insert_by_key-perm x (sort_by_key xs)) (Perm.cons x (sort_by_key-perm xs))

  -- What the sorted elements all satisfy, or one of them, the elements did before.
  insert_by_key-All :
      (P : A → Type 0) (x : A) (xs : List A) → All P (insert_by_key x xs) → P x × All P xs
  unfolding insert_by_key
  insert_by_key-All P x [] h = h
  insert_by_key-All P x (y ∷ ys) h = elim (Bool-cases (leb (key x) (key y))) [
    | inl t ↦ let k : All P (x ∷ y ∷ ys) = rw t at h in k
    | inr t ↦
        let k : All P (y ∷ insert_by_key x ys) = rw t at h in
        let ih = insert_by_key-All P x ys k.1 in (ih.0, (k.0, ih.1))
  ]

  pub sort_by_key-All : (P : A → Type 0) (xs : List A) → All P (sort_by_key xs) → All P xs
  unfolding sort_by_key
  sort_by_key-All P [] h = h
  sort_by_key-All P (x ∷ xs) h =
      let k = insert_by_key-All P x (sort_by_key xs) h in (k.0, sort_by_key-All P xs k.1)

  insert_by_key-Any :
      (P : A → Type 0) (x : A) (xs : List A) → Any P (insert_by_key x xs) → P x ⊎ Any P xs
  unfolding insert_by_key
  insert_by_key-Any P x [] h = h
  insert_by_key-Any P x (y ∷ ys) h = elim (Bool-cases (leb (key x) (key y))) [
    | inl t ↦ let k : Any P (x ∷ y ∷ ys) = rw t at h in k
    | inr t ↦
        let k : Any P (y ∷ insert_by_key x ys) = rw t at h in
        elim k [
          | inl here ↦ inr (inl here)
          | inr there ↦ elim (insert_by_key-Any P x ys there) [
            | inl p ↦ inl p
            | inr q ↦ inr (inr q)
          ]
        ]
  ]

  pub sort_by_key-Any : (P : A → Type 0) (xs : List A) → Any P (sort_by_key xs) → Any P xs
  unfolding sort_by_key
  sort_by_key-Any P [] h = h
  sort_by_key-Any P (x ∷ xs) h = elim (insert_by_key-Any P x (sort_by_key xs) h) [
    | inl here ↦ inl here
    | inr there ↦ inr (sort_by_key-Any P xs there)
  ]

-- `sort_by`, the same way, by a test whether an element may stand before another.
module _ {A : Type 0} (before : A → A → Bool) where
  unfoldable pub insert_by : A → List A → List A
  insert_by x [] = x ∷ []
  insert_by x (y ∷ ys) = let rest = insert_by x ys in if before x y then x ∷ y ∷ ys else y ∷ rest

  unfoldable pub sort_by : List A → List A
  unfolding insert_by
  sort_by [] = []
  sort_by (x ∷ xs) = insert_by x (sort_by xs)

  -- What the elements all satisfy, the sorted ones do, and the other way round.
  All-insert_by : (P : A → Type 0) (x : A) (xs : List A) → P x → All P xs → All P (insert_by x xs)
  unfolding insert_by
  All-insert_by P x [] h k = (h, tt)
  All-insert_by P x (y ∷ ys) h k = elim (Bool-cases (before x y)) [
    | inl t ↦ rw t (h, k)
    | inr t ↦ rw t (k.0, All-insert_by P x ys h k.1)
  ]

  pub All-sort_by : (P : A → Type 0) (xs : List A) → All P xs → All P (sort_by xs)
  unfolding sort_by
  All-sort_by P [] h = tt
  All-sort_by P (x ∷ xs) h = All-insert_by P x (sort_by xs) h.0 (All-sort_by P xs h.1)

  insert_by-All : (P : A → Type 0) (x : A) (xs : List A) → All P (insert_by x xs) → P x × All P xs
  unfolding insert_by
  insert_by-All P x [] h = h
  insert_by-All P x (y ∷ ys) h = elim (Bool-cases (before x y)) [
    | inl t ↦ let k : All P (x ∷ y ∷ ys) = rw t at h in k
    | inr t ↦
        let k : All P (y ∷ insert_by x ys) = rw t at h in
        let ih = insert_by-All P x ys k.1 in (ih.0, (k.0, ih.1))
  ]

  pub sort_by-All : (P : A → Type 0) (xs : List A) → All P (sort_by xs) → All P xs
  unfolding sort_by
  sort_by-All P [] h = h
  sort_by-All P (x ∷ xs) h = let k = insert_by-All P x (sort_by xs) h in (k.0, sort_by-All P xs k.1)
