-- ===== src/Vault/Entries.antt =====
-- The `BTreeMap` of the secrets: the list of its entries, in the order of the names.
use secretd.Prelude.{
  ◌≡◌, refl, inl, inr, true, false, some, [], ◌∷◌, arith, All, if◌then◌else◌, Bool-cases, subst,
}
use secretd.Prelude.Text.{Text, same_text, same_text_iff, text_lt}
use secretd.Prelude.Map.{TextMap, get, remove}

module _ {V : Type 0} where
  unfoldable pub insert_sorted : Text → V → TextMap V → TextMap V
  insert_sorted k v [] = (k, v) ∷ []
  insert_sorted k v ((j, w) ∷ m) =
      let rest = insert_sorted k v m in
      if same_text j k
      then (k, v) ∷ m
      else if text_lt k j
      then (k, v) ∷ (j, w) ∷ m
      else (j, w) ∷ rest

  pub get-insert_sorted :
      (k j : Text) (v : V) (m : TextMap V)
      → get j (insert_sorted k v m) ≡ (if same_text k j then some v else get j m)
  unfolding get insert_sorted
  get-insert_sorted k j v [] = refl
  get-insert_sorted k j v ((i, w) ∷ m) =
      ground
        (arith, get-insert_sorted k j v m, same_text_iff i k, same_text_iff i j, same_text_iff k j)

  -- every name comes before those behind it
  abbrev pub IsSorted : TextMap V → Type 0
  IsSorted [] = Unit
  IsSorted ((k, v) ∷ m) = All (λ e. text_lt k e.0 ≡ true) m × IsSorted m

text_lt_trans : (r s t : Text) → text_lt r s ≡ true → text_lt s t ≡ true → text_lt r t ≡ true
unfolding text_lt
text_lt_trans r s [] h k = cc
text_lt_trans r [] (c ∷ t) h k = cc
text_lt_trans [] (b ∷ s) (c ∷ t) h k = refl
text_lt_trans (a ∷ r) (b ∷ s) (c ∷ t) h k = ground (arith, text_lt_trans r s t)

text_lt-total : (s t : Text) → same_text t s ≡ false → text_lt s t ≡ false → text_lt t s ≡ true
unfolding text_lt same_text
text_lt-total [] [] d h = cc
text_lt-total [] (c ∷ t) d h = cc
text_lt-total (b ∷ s) [] d h = refl
text_lt-total (b ∷ s) (c ∷ t) d h = ground (arith, text_lt-total s t)

module _ {V : Type 0} where
  Above : Text → TextMap V → Type 0
  Above k = All (λ e. text_lt k e.0 ≡ true)

  Above-trans : (k j : Text) (m : TextMap V) → text_lt k j ≡ true → Above j m → Above k m
  unfolding Above
  Above-trans k j [] h a = tt
  Above-trans k j (e ∷ m) h a = (text_lt_trans k j e.0 h a.0, Above-trans k j m h a.1)

  Above-insert_sorted :
      (j k : Text) (v : V) (m : TextMap V)
      → text_lt j k ≡ true
      → Above j m
      → Above j (insert_sorted k v m)
  unfolding Above insert_sorted
  Above-insert_sorted j k v [] h a = (h, tt)
  Above-insert_sorted j k v ((i, w) ∷ m) h a = elim (Bool-cases (same_text i k)) [
    | inl t ↦ rw t (h, a.1)
    | inr t ↦ elim (Bool-cases (text_lt k i)) [
      | inl u ↦ rw (t, u) (h, a)
      | inr u ↦ rw (t, u) (a.0, Above-insert_sorted j k v m h a.1)
    ]
  ]

  pub insert_sorted-IsSorted :
      (k : Text) (v : V) (m : TextMap V) → IsSorted m → IsSorted (insert_sorted k v m)
  unfolding insert_sorted Above
  insert_sorted-IsSorted k v [] s = (tt, tt)
  insert_sorted-IsSorted k v ((j, w) ∷ m) s = elim (Bool-cases (same_text j k)) [
    | inl t ↦ rw t (subst (λ i. Above i m) ((same_text_iff j k).0 t) s.0, s.1)
    | inr t ↦ elim (Bool-cases (text_lt k j)) [
      | inl u ↦ rw (t, u) ((u, Above-trans k j m u s.0), s)
      | inr u ↦
          rw (t, u)
            (
              Above-insert_sorted j k v m (text_lt-total k j t u) s.0,
              insert_sorted-IsSorted k v m s.1,
            )
    ]
  ]

  Above-remove : (j k : Text) (m : TextMap V) → Above j m → Above j (remove k m)
  unfolding Above remove
  Above-remove j k [] a = tt
  Above-remove j k ((i, w) ∷ m) a = elim (Bool-cases (same_text i k)) [
    | inl t ↦ rw t (Above-remove j k m a.1)
    | inr t ↦ rw t (a.0, Above-remove j k m a.1)
  ]

  pub remove-IsSorted : (k : Text) (m : TextMap V) → IsSorted m → IsSorted (remove k m)
  unfolding remove Above
  remove-IsSorted k [] s = tt
  remove-IsSorted k ((i, w) ∷ m) s = elim (Bool-cases (same_text i k)) [
    | inl t ↦ rw t (remove-IsSorted k m s.1)
    | inr t ↦ rw t (Above-remove i k m s.0, remove-IsSorted k m s.1)
  ]
