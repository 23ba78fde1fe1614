-- ===== src/Vault/NameLaws.antt =====
-- Which names `normalize_secret_name` accepts, and what it returns for them.
use secretd.Prelude.{
  ◌≤◌, ◌≡◌, ◌≢◌, refl, ap, ◌∙◌, ◌↔◌, subst, false, List, [], ◌∷◌, arith, All, length, any-false_iff,
  inl, inr, ltb, Bool-cases,
}
use secretd.Prelude.Text.{
  Text, codes, same_text, same_text_iff, trim, slashes, split, is_control, is_empty,
}
use secretd.Prelude.Result.{ok}
use secretd.Vault.Names.{
  is_dots, is_reserved, validate_segments, validate_name, normalize_secret_name,
}
use secretd.Vault.Trim.{trim_idem, trim-slashes, slashes_idem}

-- A piece of the path, which the Deno implementation reads as a key of an object.
pub record IsSegment (segment : Text) : Type 0 where
  pub not_empty : segment ≢ []
  pub not_here : segment ≢ codes "."
  pub not_parent : segment ≢ codes ".."
  pub not_proto : segment ≢ codes "__proto__"
  pub not_prototype : segment ≢ codes "prototype"
  pub not_constructor : segment ≢ codes "constructor"

pub record IsSecretName (name : Text) : Type 0 where
  pub trimmed : trim name ≡ name
  pub no_backslash : slashes name ≡ name
  pub not_empty : name ≢ []
  pub short : length name ≤ 256
  pub printable : All (λ c. is_control c ≡ false) name
  pub segments : All IsSegment (split b'/' name)

is_dots_iff : (s : Text) → (is_dots s ≡ false) ↔ ((s ≢ []) × (s ≢ codes ".") × (s ≢ codes ".."))
is_dots_iff [] = (λ e. cc, λ h. absurd (h.0 refl))
is_dots_iff (c ∷ s) =
    let here = same_text_iff (c ∷ s) (codes ".") in
    let parent = same_text_iff (c ∷ s) (codes "..") in
    (
      λ e. (λ p. cc, λ p. ground (arith, here.1 p), λ p. ground (arith, parent.1 p)),
      λ h. elim (Bool-cases (same_text (c ∷ s) (codes "."))) [
        | inl t ↦ absurd (h.1 (here.0 t))
        | inr t ↦ elim (Bool-cases (same_text (c ∷ s) (codes ".."))) [
          | inl u ↦ absurd (h.2 (parent.0 u))
          | inr u ↦ rw (t, u) refl
        ]
      ],
    )

is_reserved_iff :
    (s : Text)
    → (is_reserved s ≡ false)
      ↔ ((s ≢ codes "__proto__") × (s ≢ codes "prototype") × (s ≢ codes "constructor"))
is_reserved_iff s =
    let proto = same_text_iff s (codes "__proto__") in
    let prototype = same_text_iff s (codes "prototype") in
    let constructor = same_text_iff s (codes "constructor") in
    (
      λ e. (
        λ p. ground (arith, proto.1 p),
        λ p. ground (arith, prototype.1 p),
        λ p. ground (arith, constructor.1 p),
      ),
      λ h. elim (Bool-cases (same_text s (codes "__proto__"))) [
        | inl t ↦ absurd (h.0 (proto.0 t))
        | inr t ↦ elim (Bool-cases (same_text s (codes "prototype"))) [
          | inl u ↦ absurd (h.1 (prototype.0 u))
          | inr u ↦ elim (Bool-cases (same_text s (codes "constructor"))) [
            | inl v ↦ absurd (h.2 (constructor.0 v))
            | inr v ↦ rw (t, u, v) refl
          ]
        ]
      ],
    )

validate_segments_iff :
    (segments : List Text) → (validate_segments segments ≡ ok tt) ↔ All IsSegment segments
unfolding validate_segments
validate_segments_iff [] = (λ e. tt, λ h. refl)
validate_segments_iff (s ∷ segments) =
    let dots = is_dots_iff s in
    let reserved = is_reserved_iff s in
    let ih = validate_segments_iff segments in
    (
      λ e.
          let d = dots.0 (ground arith) in
          let r = reserved.0 (ground arith) in
          (
            record {
              not_empty = d.0;
              not_here = d.1;
              not_parent = d.2;
              not_proto = r.0;
              not_prototype = r.1;
              not_constructor = r.2;
            },
            ih.0 (ground arith),
          ),
      λ h.
          rw
            (
              dots.1 (h.0.not_empty, h.0.not_here, h.0.not_parent),
              reserved.1 (h.0.not_proto, h.0.not_prototype, h.0.not_constructor),
            )
            (ih.1 h.1),
    )

-- the tests of `validate_name`, apart from the two steps before it
Passes : Text → Type 0
Passes s =
    (s ≢ []) × (length s ≤ 256) × All (λ c. is_control c ≡ false) s × All IsSegment (split b'/' s)

not_empty_iff : (s : Text) → (is_empty s ≡ false) ↔ (s ≢ [])
not_empty_iff [] = (λ e. cc, λ h. absurd (h refl))
not_empty_iff (c ∷ s) = (λ e p. cc, λ h. refl)

validate_name-Passes : (s t : Text) → validate_name s ≡ ok t → (s ≡ t) × Passes s
unfolding validate_name Passes
validate_name-Passes s t e = (
  ground arith,
  (
    (not_empty_iff s).0 (ground arith),
    ground arith,
    (any-false_iff is_control s).0 (ground arith),
    (validate_segments_iff (split b'/' s)).0 (ground arith),
  ),
)

Passes-validate_name : (s : Text) → Passes s → validate_name s ≡ ok s
unfolding validate_name Passes
Passes-validate_name s h =
    let long : ltb 256 (length s) ≡ false = ground (arith, h.1) in
    rw
      (
        (not_empty_iff s).1 h.0,
        long,
        (any-false_iff is_control s).1 h.2,
        (validate_segments_iff (split b'/' s)).1 h.3,
      )
      refl

-- A name is accepted exactly when the trimmed name, with slashes for backslashes, is a secret
-- name: trimmed, without a backslash or a control character, of 1 to 256 characters, and with no
-- piece between slashes that is empty, a dot, two dots or a reserved word. It is then the result.
pub normalize_secret_name_iff :
    (name s : Text)
    → (normalize_secret_name name ≡ ok s) ↔ ((slashes (trim name) ≡ s) × IsSecretName s)
unfolding normalize_secret_name Passes
normalize_secret_name_iff name s = (
  λ e.
      let (same, p) = validate_name-Passes (slashes (trim name)) s e in
      (
        same,
        subst IsSecretName same (record {
          trimmed = trim-slashes (trim name) ∙ ap slashes (trim_idem name);
          no_backslash = slashes_idem (trim name);
          not_empty = p.0;
          short = p.1;
          printable = p.2;
          segments = p.3;
        }),
      ),
  λ h. rw (h.0) (Passes-validate_name s (h.1.not_empty, h.1.short, h.1.printable, h.1.segments)),
)

-- What has been normalized is left as it is by another normalization.
pub normalize_secret_name_idem :
    (name s : Text) → normalize_secret_name name ≡ ok s → normalize_secret_name s ≡ ok s
normalize_secret_name_idem name s e =
    let n = ((normalize_secret_name_iff name s).0 e).1 in
    (normalize_secret_name_iff s s).1 (ap slashes n.trimmed ∙ n.no_backslash, n)
