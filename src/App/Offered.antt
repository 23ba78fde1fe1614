-- ===== src/App/Offered.antt =====
-- The process that the window offers for a grant.
use secretd.Prelude.Map.{get}
use secretd.Prelude.{
  ◌≡◌, refl, true, false, Option, none, some, List, [], ◌∷◌, arith, inl, inr, Bool-cases,
  Option-cases, first, any, find, not, Bool, All, ◌⊎◌, find-passes, find-none,
}
use secretd.Prelude.Text.{Text}
use secretd.Prelude.Result.{ok}
use secretd.Process.{ProcessIdentity, same_process, is_launchd_process}
use secretd.App.Requests.{in_tree, grant_process, default_grant_process, RequestView}
use secretd.Controller.{validated_grant_process}
use secretd.Process.Identity.{same_process_refl, same_process_sym}

first-IsIn :
    (tree : List ProcessIdentity) (process : ProcessIdentity)
    → first tree ≡ some process
    → any (same_process process) tree ≡ true
unfolding any
first-IsIn [] process e = absurd (ground arith)
first-IsIn (p ∷ tree) process e = ground (arith, same_process_refl process)

find-IsIn :
    (test : ProcessIdentity → Bool) (tree : List ProcessIdentity) (process : ProcessIdentity)
    → find test tree ≡ some process
    → any (same_process process) tree ≡ true
unfolding any find
find-IsIn test [] process e = absurd (ground arith)
find-IsIn test (p ∷ tree) process e = elim (Bool-cases (test p)) [
  | inl found ↦ ground (arith, same_process_refl process)
  | inr other ↦ let ih = find-IsIn test tree process (ground arith) in ground (arith, ih)
]

in_tree-IsIn :
    (tree : List ProcessIdentity) (choice : Option ProcessIdentity) (process : ProcessIdentity)
    → in_tree tree choice ≡ some process
    → any (same_process process) tree ≡ true
unfolding in_tree
in_tree-IsIn tree none process e = absurd (ground arith)
in_tree-IsIn tree (some selected) process e = elim (Bool-cases (any (same_process selected) tree)) [
  | inr outside ↦ absurd (ground arith)
  | inl inside ↦ ground arith
]

grant_process-IsIn :
    (id : Text) (tree : List ProcessIdentity) (view : RequestView) (process : ProcessIdentity)
    → grant_process id tree view ≡ some process
    → any (same_process process) tree ≡ true
unfolding grant_process default_grant_process
grant_process-IsIn id tree view process e =
    elim (Option-cases (in_tree tree (get id view.grant_process_choices))) [
      | inr (selected, chosen) ↦
          in_tree-IsIn tree (get id view.grant_process_choices) process (ground arith)
      | inl unchosen ↦
          elim (Option-cases (find (λ process. not (is_launchd_process process)) tree)) [
            | inr (p, found) ↦
                find-IsIn (λ process. not (is_launchd_process process)) tree process (ground arith)
            | inl nothing ↦ first-IsIn tree process (ground arith)
          ]
    ]

find_same :
    (tree : List ProcessIdentity) (process : ProcessIdentity)
    → any (same_process process) tree ≡ true
    → (found : ProcessIdentity) × (find (λ ancestor. same_process ancestor process) tree
        ≡ some found)
      × (same_process found process ≡ true)
unfolding any find
find_same [] process e = absurd (ground arith)
find_same (p ∷ tree) process e = elim (Bool-cases (same_process p process)) [
  | inl same ↦ (p, ground arith, same)
  | inr other ↦
      let (found, e, same) = find_same tree process (ground (arith, same_process_sym p process)) in
      (found, ground arith, same)
]

-- Where launchd is offered, the owner has chosen it earlier, or the tree has nothing else.
abbrev pub MayBeLaunchd : Text → List ProcessIdentity → RequestView → ProcessIdentity → Type 0
MayBeLaunchd id tree view process =
    (get id view.grant_process_choices ≡ some process)
    ⊎ All (λ p. not (is_launchd_process p) ≡ false) tree

grant_process-MayBeLaunchd :
    (id : Text) (tree : List ProcessIdentity) (view : RequestView) (process : ProcessIdentity)
    → grant_process id tree view ≡ some process
    → is_launchd_process process ≡ true
    → MayBeLaunchd id tree view process
unfolding grant_process default_grant_process in_tree
grant_process-MayBeLaunchd id tree view process e launchd =
    elim (Option-cases (in_tree tree (get id view.grant_process_choices))) [
      | inr (selected, chosen) ↦ elim (Option-cases (get id view.grant_process_choices)) [
        | inl missing ↦ absurd (ground arith)
        | inr (choice, there) ↦ inl (ground arith)
      ]
      | inl unchosen ↦
          elim (Option-cases (find (λ process. not (is_launchd_process process)) tree)) [
            | inr (p, found) ↦
                let other =
                  find-passes (λ process. not (is_launchd_process process)) tree p found in
                absurd (ground arith)
            | inl nothing ↦
                inr (find-none (λ process. not (is_launchd_process process)) tree nothing)
          ]
    ]

-- The process that the window offers for a temporary grant, chosen by the owner earlier or by
-- default, is always one of the request's own tree. The controller accepts it, with the same
-- process of the tree as the boundary of the grant, unless it is launchd; and launchd is offered
-- only where the owner has chosen it earlier or where the tree has nothing else.
pub grant_process_accepted :
    (id : Text) (tree : List ProcessIdentity) (view : RequestView)
    (process origin : ProcessIdentity)
    → grant_process id tree view ≡ some process
    → (any (same_process process) tree ≡ true)
      × (((is_launchd_process process ≡ true) × MayBeLaunchd id tree view process)
          ⊎ ((boundary : ProcessIdentity) × (same_process boundary process ≡ true)
              × (validated_grant_process tree origin (some process) ≡ ok boundary)))
unfolding validated_grant_process
grant_process_accepted id tree view process origin e =
    let inside = grant_process-IsIn id tree view process e in
    (
      inside,
      elim (Bool-cases (is_launchd_process process)) [
        | inl launchd ↦ inl (launchd, grant_process-MayBeLaunchd id tree view process e launchd)
        | inr outside ↦
            let (found, f, same) = find_same tree process inside in
            inr (found, same, rw (outside, f) refl)
      ],
    )
