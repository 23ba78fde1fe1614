-- ===== src/Prelude/Text.antt =====
-- Rust's `str` as the list of its code points, with the operations of the standard library that
-- the program calls: `trim`, `replace`, `split`, `rsplit`, `split_whitespace`, `contains`, `len`
-- (in bytes of UTF-8), `to_ascii_lowercase` and the comparison of two texts.
use Prim.Native.Nat.{suc, zero, ℕ, ◌+◌, ◌-◌}
use Prim.Native.Char.{code}
use Prim.Native.String.{String}
use mathlib.Core.Path.{◌≡◌, refl}
use mathlib.Core.Logic.{◌↔◌}
use mathlib.Core.Bool.{Bool, true, false, ◌&&◌, ◌||◌}
use mathlib.Core.List.{List, [], ◌∷◌, map}
use mathlib.Core.Option.{Option, none, some}
use native.Mathlib.Omega.{arith}
use secretd.Prelude.Tests.{ltb, leb, ◌==◌, if◌then◌else◌}

abbrev pub Text : Type 0
Text = List ℕ

-- A literal of the source.
abbrev pub codes : String → Text
codes String.[] = []
codes (String.◌∷◌ c s) = code c ∷ codes s

unfoldable pub same_text : Text → Text → Bool
same_text [] [] = true
same_text [] (d ∷ t) = false
same_text (c ∷ s) [] = false
same_text (c ∷ s) (d ∷ t) = (c == d) && same_text s t

pub same_text_iff : (s t : Text) → (same_text s t ≡ true) ↔ (s ≡ t)
unfolding same_text
same_text_iff [] [] = (λ _. refl, λ _. refl)
same_text_iff [] (d ∷ t) = (λ e. cc, λ e. cc)
same_text_iff (c ∷ s) [] = (λ e. cc, λ e. cc)
same_text_iff (c ∷ s) (d ∷ t) =
    let ih = same_text_iff s t in (λ e. ground (arith, ih), λ e. ground (arith, ih))

pub same_text_refl : (s : Text) → same_text s s ≡ true
same_text_refl s = (same_text_iff s s).1 refl

-- The order of two texts, that of their UTF-8 bytes too: a proper prefix comes first.
unfoldable pub text_lt : Text → Text → Bool
text_lt s [] = false
text_lt [] (d ∷ t) = true
text_lt (c ∷ s) (d ∷ t) = ltb c d || ((c == d) && text_lt s t)

-- `char::is_control`: the general category Cc.
unfoldable pub is_control : ℕ → Bool
is_control c = leb c 0x1f || (leb 0x7f c && leb c 0x9f)

-- `char::is_whitespace`: the property White_Space.
unfoldable pub is_whitespace : ℕ → Bool
is_whitespace c =
    (leb 9 c && leb c 13)
    || (c == 0x20)
    || (c == 0x85)
    || (c == 0xa0)
    || (c == 0x1680)
    || (leb 0x2000 c && leb c 0x200a)
    || (c == 0x2028)
    || (c == 0x2029)
    || (c == 0x202f)
    || (c == 0x205f)
    || (c == 0x3000)

unfoldable pub is_ascii_digit : ℕ → Bool
is_ascii_digit c = leb b'0' c && leb c b'9'

unfoldable pub is_ascii_alphanumeric : ℕ → Bool
unfolding is_ascii_digit
is_ascii_alphanumeric c =
    is_ascii_digit c || (leb b'A' c && leb c b'Z') || (leb b'a' c && leb c b'z')

-- the number of bytes in UTF-8
utf8_width : ℕ → ℕ
utf8_width c = if ltb c 0x80 then 1 else if ltb c 0x800 then 2 else if ltb c 0x10000 then 3 else 4

unfoldable pub byte_len : Text → ℕ
unfolding utf8_width
byte_len [] = 0
byte_len (c ∷ s) = utf8_width c + byte_len s

-- `&text[n..]`, the text from byte n on; `none` where that panics, past the end or inside a character
unfoldable pub slice_from : ℕ → Text → Option Text
unfolding utf8_width
slice_from zero s = some s
slice_from (suc n) [] = none
slice_from (suc n) (c ∷ s) =
    let rest = slice_from (suc n - utf8_width c) s in
    if ltb (suc n) (utf8_width c) then none else rest

unfoldable pub trim_start : Text → Text
trim_start [] = []
trim_start (c ∷ s) = let rest = trim_start s in if is_whitespace c then rest else c ∷ s

-- a character before what is left of the text behind it
unfoldable pub end_at : ℕ → Text → Text
end_at c [] = if is_whitespace c then [] else c ∷ []
end_at c (d ∷ s) = c ∷ d ∷ s

unfoldable pub trim_end : Text → Text
unfolding end_at
trim_end [] = []
trim_end (c ∷ s) = end_at c (trim_end s)

unfoldable pub trim : Text → Text
unfolding trim_start trim_end is_whitespace
trim s = trim_end (trim_start s)

-- `replace('\\', "/")`
abbrev pub slash : ℕ → ℕ
slash c = if c == 92 then 47 else c

unfoldable pub slashes : Text → Text
slashes = map slash

unfoldable pub to_ascii_lowercase : Text → Text
to_ascii_lowercase = map (λ c. if leb b'A' c && leb c b'Z' then c + 32 else c)

-- a character before the first of some pieces
abbrev pub onto_first : ℕ → List Text → List Text
onto_first c [] = (c ∷ []) ∷ []
onto_first c (piece ∷ pieces) = (c ∷ piece) ∷ pieces

-- `split(pattern)`, where the pattern is a test on characters: at least one piece.
unfoldable pub split_where : (ℕ → Bool) → Text → List Text
split_where test [] = [] ∷ []
split_where test (c ∷ s) =
    let rest = split_where test s in if test c then [] ∷ rest else onto_first c rest

unfoldable pub split : ℕ → Text → List Text
unfolding split_where
split separator = split_where (λ c. c == separator)

-- the last piece, which is the first of `rsplit`
abbrev pub last_or : Text → List Text → Text
last_or piece [] = piece
last_or piece (next ∷ pieces) = last_or next pieces

unfoldable pub last_piece : ℕ → Text → Text
unfolding split
last_piece separator s = last_or [] (split separator s)

-- the texts that are not empty
not_empty : List Text → List Text
not_empty [] = []
not_empty ([] ∷ pieces) = not_empty pieces
not_empty ((c ∷ s) ∷ pieces) = (c ∷ s) ∷ not_empty pieces

unfoldable pub split_whitespace : Text → List Text
unfolding split_where not_empty is_whitespace
split_whitespace s = not_empty (split_where is_whitespace s)

-- `split_whitespace().next().unwrap_or_default()`
abbrev pub first_or_empty : List Text → Text
first_or_empty [] = []
first_or_empty (word ∷ words) = word

unfoldable pub starts_with : Text → Text → Bool
starts_with s [] = true
starts_with [] (d ∷ t) = false
starts_with (c ∷ s) (d ∷ t) = (c == d) && starts_with s t

unfoldable pub contains : Text → Text → Bool
unfolding starts_with
contains [] t = starts_with [] t
contains (c ∷ s) t = starts_with (c ∷ s) t || contains s t

-- `Vec<String>::contains`
unfoldable pub contains_text : Text → List Text → Bool
contains_text t [] = false
contains_text t (s ∷ ss) = same_text s t || contains_text t ss

-- what stands behind the last `mark`, as `rfind` finds it
unfoldable pub after_last : ℕ → Text → Option Text
after_last mark [] = none
after_last mark (c ∷ s) = elim (after_last mark s) [
  | some rest ↦ some rest
  | none ↦ if c == mark then some s else none
]

abbrev pub is_empty : Text → Bool
is_empty [] = true
is_empty (c ∷ s) = false

unfoldable pub ends_with : Text → Text → Bool
ends_with [] t = same_text [] t
ends_with (c ∷ s) t = same_text (c ∷ s) t || ends_with s t

-- a character before what is left of the text behind it, unless it is a mark at the end
unfoldable pub keep_before : ℕ → ℕ → Text → Text
keep_before mark c [] = if c == mark then [] else c ∷ []
keep_before mark c (d ∷ s) = c ∷ d ∷ s

-- `trim_end_matches(mark)`
unfoldable pub trim_end_matches : ℕ → Text → Text
unfolding keep_before
trim_end_matches mark [] = []
trim_end_matches mark (c ∷ s) = keep_before mark c (trim_end_matches mark s)

-- `text.is_none_or(str::is_empty)`
abbrev pub none_or_empty : Option Text → Bool
none_or_empty none = true
none_or_empty (some s) = is_empty s

abbrev pub same_option : Option Text → Option Text → Bool
same_option none none = true
same_option (some s) (some t) = same_text s t
same_option _ _ = false
