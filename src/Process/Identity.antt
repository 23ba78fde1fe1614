-- ===== src/Process/Identity.antt =====
-- What `same_process` compares, and which processes `omit_secretd_client_processes` drops.
use secretd.Prelude.{
  ◌≡◌, refl, ap, ◌↔◌, Bool, true, false, List, [], ◌∷◌, ◌++◌, arith, skip_while, All, Bool-cases,
  inl, inr,
}
use secretd.Prelude.Text.{same_text_iff}
use secretd.Process.Defs.{
  ProcessIdentity, same_process, is_secretd_client_process, omit_secretd_client_processes,
}

-- Two identities are the same process exactly when the process ID, the start time and the
-- executable agree; the parent and the command line do not count.
pub same_process_iff :
    (left right : ProcessIdentity)
    → (same_process left right ≡ true) ↔ (
        (left.pid ≡ right.pid)
        × (left.started_at ≡ right.started_at)
        × (left.executable ≡ right.executable))
unfolding same_process
same_process_iff left right =
    let starts = same_text_iff left.started_at right.started_at in
    let paths = same_text_iff left.executable right.executable in
    (λ e. ground (arith, starts, paths), λ e. ground (arith, starts, paths))

pub same_process_refl : (process : ProcessIdentity) → same_process process process ≡ true
same_process_refl process = (same_process_iff process process).1 (refl, refl, refl)

pub same_process_sym :
    (left right : ProcessIdentity) → same_process left right ≡ same_process right left
same_process_sym left right =
    let ahead = same_process_iff left right in
    let back = same_process_iff right left in
    elim (Bool-cases (same_process left right)) [
      | inl e ↦ ground (arith, ahead, back)
      | inr e ↦ ground (arith, ahead, back)
    ]

-- the first process of a tree, if any, is no client of secretd
abbrev pub StartsOutside : List ProcessIdentity → Type 0
StartsOutside [] = Unit
StartsOutside (process ∷ tree) = is_secretd_client_process process ≡ false

-- What `skip_while` drops passes the test, and what it keeps begins with one that does not.
pub skip_while-split {ℓ} :
    {A : Type ℓ} (test : A → Bool) (xs : List A)
    → (dropped : List A) × (xs ≡ dropped ++ skip_while test xs) × All (λ x. test x ≡ true) dropped
unfolding skip_while
skip_while-split test [] = ([], refl, tt)
skip_while-split test (x ∷ xs) =
    let (dropped, e, h) = skip_while-split test xs in
    elim (Bool-cases (test x)) [
      | inl t ↦ (x ∷ dropped, rw (t, skip_while) (ap (λ l. x ∷ l) e), (t, h))
      | inr t ↦ ([], rw (t, skip_while) refl, tt)
    ]

skip_while-outside :
    (tree : List ProcessIdentity) → StartsOutside (skip_while is_secretd_client_process tree)
unfolding skip_while
skip_while-outside [] = tt
skip_while-outside (process ∷ tree) = elim (Bool-cases (is_secretd_client_process process)) [
  | inl t ↦ rw t (skip_while-outside tree)
  | inr t ↦ rw t t
]

-- The tree that is left is a suffix of the given one; all that was dropped before it are client
-- processes of secretd, and its first process is none.
pub omit_secretd_client_processes_lem :
    (tree : List ProcessIdentity)
    → ((dropped : List ProcessIdentity) × (tree ≡ dropped ++ omit_secretd_client_processes tree)
        × All (λ process. is_secretd_client_process process ≡ true) dropped)
      × StartsOutside (omit_secretd_client_processes tree)
unfolding omit_secretd_client_processes
omit_secretd_client_processes_lem tree =
    (skip_while-split is_secretd_client_process tree, skip_while-outside tree)
