-- ===== src/Vault/Trim.antt =====
-- Trimming and replacing backslashes, which `normalize_secret_name` does first, are each done once
-- for all: doing them again changes nothing.
use secretd.Prelude.{ℕ, ◌≡◌, refl, ap, ◌∙◌, false, [], ◌∷◌, arith, inl, inr, Bool-cases}
use secretd.Prelude.Text.{Text, is_whitespace, trim_start, trim_end, trim, slash, slashes, end_at}

abbrev StartsSolid : Text → Type 0
StartsSolid [] = Unit
StartsSolid (c ∷ s) = is_whitespace c ≡ false

trim_start-StartsSolid : (s : Text) → StartsSolid (trim_start s)
unfolding trim_start
trim_start-StartsSolid [] = tt
trim_start-StartsSolid (c ∷ s) = elim (Bool-cases (is_whitespace c)) [
  | inl t ↦ rw t (trim_start-StartsSolid s)
  | inr t ↦ rw t t
]

trim_start_solid : (s : Text) → StartsSolid s → trim_start s ≡ s
unfolding trim_start
trim_start_solid [] h = refl
trim_start_solid (c ∷ s) h = rw h

end_at-StartsSolid : (c : ℕ) (s : Text) → is_whitespace c ≡ false → StartsSolid (end_at c s)
unfolding end_at
end_at-StartsSolid c [] h = rw h h
end_at-StartsSolid c (d ∷ s) h = h

trim_end-StartsSolid : (s : Text) → StartsSolid s → StartsSolid (trim_end s)
unfolding trim_end
trim_end-StartsSolid [] h = tt
trim_end-StartsSolid (c ∷ s) h = end_at-StartsSolid c (trim_end s) h

end_at_idem : (c : ℕ) (s : Text) → trim_end s ≡ s → trim_end (end_at c s) ≡ end_at c s
unfolding trim_end end_at
end_at_idem c [] h = elim (Bool-cases (is_whitespace c)) [
  | inl t ↦ rw t
  | inr t ↦ rw (t, end_at) (rw t)
]
end_at_idem c (d ∷ s) h = ap (end_at c) h

trim_end_idem : (s : Text) → trim_end (trim_end s) ≡ trim_end s
unfolding trim_end
trim_end_idem [] = refl
trim_end_idem (c ∷ s) = end_at_idem c (trim_end s) (trim_end_idem s)

pub trim_idem : (s : Text) → trim (trim s) ≡ trim s
unfolding trim
trim_idem s =
    ap trim_end (
      trim_start_solid (trim_end (trim_start s))
        (trim_end-StartsSolid (trim_start s) (trim_start-StartsSolid s)))
    ∙ trim_end_idem (trim_start s)

slash-is_whitespace : (c : ℕ) → is_whitespace (slash c) ≡ is_whitespace c
unfolding is_whitespace
slash-is_whitespace c = ground arith

trim_start-slashes : (s : Text) → trim_start (slashes s) ≡ slashes (trim_start s)
unfolding trim_start slashes
trim_start-slashes [] = refl
trim_start-slashes (c ∷ s) = elim (Bool-cases (is_whitespace c)) [
  | inl t ↦ rw (slash-is_whitespace c, t) (trim_start-slashes s)
  | inr t ↦ rw (slash-is_whitespace c, t)
]

end_at-slashes : (c : ℕ) (s : Text) → end_at (slash c) (slashes s) ≡ slashes (end_at c s)
unfolding end_at slashes
end_at-slashes c [] = elim (Bool-cases (is_whitespace c)) [
  | inl t ↦ rw (slash-is_whitespace c, t)
  | inr t ↦ rw (slash-is_whitespace c, t)
]
end_at-slashes c (d ∷ s) = refl

trim_end-slashes : (s : Text) → trim_end (slashes s) ≡ slashes (trim_end s)
unfolding trim_end slashes
trim_end-slashes [] = refl
trim_end-slashes (c ∷ s) =
    ap (end_at (slash c)) (trim_end-slashes s) ∙ end_at-slashes c (trim_end s)

pub trim-slashes : (s : Text) → trim (slashes s) ≡ slashes (trim s)
unfolding trim
trim-slashes s = ap trim_end (trim_start-slashes s) ∙ trim_end-slashes (trim_start s)

pub slashes_idem : (s : Text) → slashes (slashes s) ≡ slashes s
unfolding slashes
slashes_idem [] = refl
slashes_idem (c ∷ s) = ground (arith, slashes_idem s)
