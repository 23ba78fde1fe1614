-- ===== src/Aws/Pages.antt =====
-- The loop over the pages of an answer, against the pages that the service serves.
use secretd.Prelude.{
  ℕ, zero, suc, ◌≡◌, ◌≤◌, ◌↔◌, ◌⊎◌, inl, inr, refl, true, Option, none, some, List, [], ◌∷◌, ◌++◌,
  arith, Bool-cases, ap, subst,
}
use secretd.Prelude.Text.{Text, same_text_iff}
use secretd.Prelude.Exec.{Exec}
use secretd.Prelude.Result.{ok, Result-cases}
use secretd.Aws.Sdk.{Session}
use secretd.Aws.Discovery.{is_last_page, pages}

-- No page follows: there is no token, or an empty one, or the one that was just asked with.
abbrev pub IsLast : Option Text → Option Text → Type 0
IsLast requested next = (next ≡ none) ⊎ (next ≡ some []) ⊎ (next ≡ requested)

is_last_page_iff :
    (requested next : Option Text) → (is_last_page requested next ≡ true) ↔ IsLast requested next
is_last_page_iff requested none = (λ e. inl refl, λ h. refl)
is_last_page_iff requested (some []) = (λ e. inr (inl refl), λ h. refl)
is_last_page_iff none (some (c ∷ token)) =
    (λ e. cc, λ h. elim h [ inl a ↦ cc | inr (inl b) ↦ cc | inr (inr d) ↦ cc ])
is_last_page_iff (some asked) (some (c ∷ token)) =
    let same = same_text_iff (c ∷ token) asked in
    (
      λ e. inr (inr (ap some (same.0 e))),
      λ h. elim h [ inl a ↦ cc | inr (inl b) ↦ cc | inr (inr d) ↦ same.1 (cc) ],
    )

-- The pages from a token to the last one, as a number of fetches with all their items in order.
module _ {A : Type 0} (fetch : Option Text → Exec Session (List A × Option Text)) where
  pub data Served : ℕ → Option Text → Session → List A → Session → Type 0 where
    last :
        (requested next : Option Text) (items : List A) (s t : Session)
        → fetch requested s ≡ (ok (items, next), t)
        → IsLast requested next
        → Served 1 requested s items t
    more :
        (n : ℕ) (requested next : Option Text) (items rest : List A) (s t u : Session)
        → fetch requested s ≡ (ok (items, next), t)
        → ¬ IsLast requested next
        → Served n next t rest u
        → Served (suc n) requested s (items ++ rest) u

  served :
      (fuel n : ℕ) (requested : Option Text) (s u : Session) (items : List A)
      → Served n requested s items u
      → n ≤ fuel
      → pages fuel fetch requested s ≡ (ok items, u)
  unfolding pages
  served zero _ _ _ _ _ (last r next i s t e l) h = absurd (omega (arith, h))
  served zero _ _ _ _ _ (more m r next i rest s t u e l c) h = absurd (omega (arith, h))
  served (suc fuel) _ _ _ _ _ (last r next i s t e l) h =
      let is_last = (is_last_page_iff r next).1 l in ground (arith, e, is_last)
  served (suc fuel) _ _ _ _ _ (more m r next i rest s t u e l c) h =
      let ih = served fuel m next t u rest c (omega (arith, h)) in
      elim (Bool-cases (is_last_page r next)) [
        | inl is_last ↦ absurd (l ((is_last_page_iff r next).0 is_last))
        | inr goes_on ↦ ground (arith, ih, e, goes_on)
      ]

  read :
      (fuel : ℕ) (requested : Option Text) (s u : Session) (items : List A)
      → pages fuel fetch requested s ≡ (ok items, u)
      → (n : ℕ) × (n ≤ fuel) × Served n requested s items u
  unfolding pages
  read zero requested s u items e = absurd (ground arith)
  read (suc fuel) requested s u items e = elim (Result-cases (fetch requested s).0) [
    | inr (f, bad) ↦ absurd (ground arith)
    | inl ((page, next), got) ↦ elim (Bool-cases (is_last_page requested next)) [
      | inl is_last ↦
          let fetched : fetch requested s ≡ (ok (page, next), u) = ground arith in
          let whole : page ≡ items = ground arith in
          (
            1,
            omega arith,
            subst (λ x. Served 1 requested s x u) whole
                (last requested next page s u fetched
                  ((is_last_page_iff requested next).0 is_last)),
          )
      | inr goes_on ↦
          let t = (fetch requested s).1 in
          let fetched : fetch requested s ≡ (ok (page, next), t) = ground arith in
          elim (Result-cases (pages fuel fetch next t).0) [
            | inr (f, bad) ↦ absurd (ground arith)
            | inl (rest, r) ↦
                let (n, few, pages_of) = read fuel next t u rest (ground arith) in
                let whole : page ++ rest ≡ items = ground arith in
                let follows : ¬ IsLast requested next =
                  λ l. let stops = (is_last_page_iff requested next).1 l in ground (arith, stops) in
                (
                  suc n,
                  omega (arith, few),
                  subst (λ x. Served (suc n) requested s x u) whole
                      (more n requested next page rest s t u fetched follows pages_of),
                )
          ]
    ]
  ]

  -- With fuel for so many rounds, the loop returns some items exactly if the service ends its pages
  -- within these rounds and the items are those of all its pages, in their order; a page is the last
  -- one if no token follows, an empty one, or the one that was asked with.
  pub pages_complete :
      (fuel : ℕ) (requested : Option Text) (s u : Session) (items : List A)
      → (pages fuel fetch requested s ≡ (ok items, u))
        ↔ ((n : ℕ) × (n ≤ fuel) × Served n requested s items u)
  pages_complete fuel requested s u items = (
    read fuel requested s u items,
    λ (n, few, pages_of). served fuel n requested s u items pages_of few,
  )
