-- ===== src/Prelude/Map.antt =====
-- `HashMap<String, V>`, as the list of its entries. The source iterates over such maps in an order
-- that is not specified; a statement about every list of entries is one about every order.
use mathlib.Core.Path.{◌≡◌}
use mathlib.Core.Bool.{Bool}
use mathlib.Core.Option.{Option, none, some}
use mathlib.Core.List.{List, [], ◌∷◌, map}
use native.Mathlib.Omega.{arith}
use secretd.Prelude.Tests.{if◌then◌else◌, is_some}
use secretd.Prelude.Text.{Text, same_text, same_text_iff}

abbrev pub TextMap {ℓ} : Type ℓ → Type ℓ
TextMap V = List (Text × V)

module _ {ℓ} {V : Type ℓ} where
  unfoldable pub get : Text → TextMap V → Option V
  get k [] = none
  get k ((j, v) ∷ m) = if same_text j k then some v else get k m

  -- every entry of the key, so that no shadowed one comes back
  unfoldable pub remove : Text → TextMap V → TextMap V
  remove k [] = []
  remove k ((j, v) ∷ m) = let rest = remove k m in if same_text j k then rest else (j, v) ∷ rest

  unfoldable pub insert : Text → V → TextMap V → TextMap V
  unfolding remove
  insert k v m = (k, v) ∷ remove k m

  abbrev pub values : TextMap V → List V
  values = map (λ e. e.1)

  abbrev pub keys : TextMap V → List Text
  keys = map (λ e. e.0)

  pub get-remove :
      (k j : Text) (m : TextMap V) → get j (remove k m) ≡ (if same_text k j then none else get j m)
  unfolding get remove
  get-remove k j [] = ground arith
  get-remove k j ((i, v) ∷ m) =
      ground (arith, get-remove k j m, same_text_iff i k, same_text_iff i j, same_text_iff k j)

  pub get-insert :
      (k j : Text) (v : V) (m : TextMap V)
      → get j (insert k v m) ≡ (if same_text k j then some v else get j m)
  unfolding get insert
  get-insert k j v m = ground (arith, get-remove k j m)

-- `HashSet<String>`, the same way.
abbrev pub TextSet : Type 0
TextSet = TextMap (Unit {0})

abbrev pub member : Text → TextSet → Bool
member k s = is_some (get k s)

pub ruleset map_laws = (get-remove, get-insert)
