-- ===== src/Prelude/Keyed.antt =====
-- Maps of records under the IDs that the records carry, and what an iteration over the values of
-- such a map removes.
use secretd.Prelude.Tests.{Bool-cases}
use secretd.Prelude.Lists.{retain, any}
use secretd.Prelude.Text.{Text, same_text, same_text_iff, same_text_refl}
use secretd.Prelude.Map.{TextMap, get, insert, remove, values, get-remove}
use mathlib.Core.Path.{subst, ◌≡◌, refl}
use mathlib.Core.Logic.{inl, inr}
use mathlib.Core.Bool.{Bool, true, false}
use mathlib.Core.Option.{Option, none, some}
use mathlib.Core.List.{[], ◌∷◌}
use native.Mathlib.Omega.{arith}

module _ {V : Type 0} (id : V → Text) where
  -- each record stands under its own ID, and no ID twice
  abbrev pub IsKeyed : TextMap V → Type 0
  IsKeyed [] = Unit
  IsKeyed ((k, v) ∷ m) = (id v ≡ k) × (get k m ≡ none) × IsKeyed m

  pub IsKeyed-remove : (k : Text) (m : TextMap V) → IsKeyed m → IsKeyed (remove k m)
  unfolding remove
  IsKeyed-remove k [] h = tt
  IsKeyed-remove k ((j, v) ∷ m) h = elim (Bool-cases (same_text j k)) [
    | inl t ↦ rw t (IsKeyed-remove k m h.2)
    | inr t ↦ rw t (h.0, ground (arith, get-remove k j m, h.1), IsKeyed-remove k m h.2)
  ]

  pub IsKeyed-insert : (v : V) (m : TextMap V) → IsKeyed m → IsKeyed (insert (id v) v m)
  unfolding insert
  IsKeyed-insert v m h = (
    refl,
    ground (arith, get-remove (id v) (id v) m, same_text_refl (id v)),
    IsKeyed-remove (id v) m h,
  )

  pub get-IsKeyed : (k : Text) (v : V) (m : TextMap V) → IsKeyed m → get k m ≡ some v → id v ≡ k
  unfolding get
  get-IsKeyed k v [] h e = ground arith
  get-IsKeyed k v ((j, w) ∷ m) h e = ground (arith, get-IsKeyed k v m h.2, same_text_iff j k)

  abbrev pub passes : (V → Bool) → Option V → Bool
  passes test none = false
  passes test (some v) = test v

  abbrev pub has_id : Text → V → Bool
  has_id k v = same_text (id v) k

  -- Among the values that pass a test there is one of an ID exactly if the one of that ID passes.
  pub any-retain-values :
      (test : V → Bool) (k : Text) (m : TextMap V)
      → IsKeyed m
      → any (has_id k) (retain test (values m)) ≡ passes test (get k m)
  unfolding any retain get
  any-retain-values test k [] h = refl
  any-retain-values test k ((j, v) ∷ m) h =
      let ih = any-retain-values test k m h.2 in
      elim (Bool-cases (same_text j k)) [
        | inl t ↦
            let gone : get k m ≡ none = subst (λ x. get x m ≡ none) ((same_text_iff j k).0 t) h.1 in
            let own : same_text (id v) k ≡ true = rw h.0 t in ground (arith, ih, gone, own, t)
        | inr t ↦ ground (arith, ih, h.0, t)
      ]
