-- ===== src/Grants/Lookup.antt =====
-- When a grant covers a request.
use secretd.Prelude.{
  ℕ, ◌≤◌, ◌<◌, ◌≡◌, refl, ◌↔◌, inl, inr, Bool, true, false, ◌&&◌, List, [], ◌∷◌, ◌++◌, arith, Any,
  retain, find_last, is_some, ltb, ◌==◌, ◌||◌,
}
use secretd.Prelude.Text.{Text, same_text_iff}
use secretd.Prelude.Word.{saturating_add, saturating_mul}
use secretd.Process.{ProcessIdentity, same_process}
use secretd.Process.Identity.{same_process_refl}
use secretd.Grants.Defs.{
  Grant, GrantStore, max_grant_seconds, add_grant, cleanup, find_grant, find_in_tree, is_live,
  grants_access,
}

-- A grant for the secret, not yet expired, for the process.
abbrev pub Covers : ℕ → Text → ProcessIdentity → Grant → Type 0
Covers now secret process grant =
    (now < grant.expires_at)
    × (grant.resource ≡ secret)
    × (same_process grant.process process ≡ true)

Covers-iff :
    (now : ℕ) (secret : Text) (process : ProcessIdentity) (grant : Grant)
    → ((is_live now grant && grants_access secret process grant) ≡ true)
      ↔ Covers now secret process grant
Covers-iff now secret process grant =
    let e = same_text_iff grant.resource secret in (λ h. ground (arith, e), λ h. ground (arith, e))

find_last-retain :
    {A : Type 0} (P : A → Type 0) (keep test : A → Bool)
    → ((x : A) → ((keep x && test x) ≡ true) ↔ P x)
    → (xs : List A) → (is_some (find_last test (retain keep xs)) ≡ true) ↔ Any P xs
unfolding find_last retain
find_last-retain P keep test h [] = (λ e. cc, λ z. absurd z)
find_last-retain P keep test h (x ∷ xs) =
    let ih = find_last-retain P keep test h xs in
    (λ e. ground (arith, ih, h x), λ e. ground (arith, ih, h x))

find_in_tree_iff :
    (now : ℕ) (secret : Text) (store : GrantStore) (tree : List ProcessIdentity)
    → (is_some (find_in_tree (cleanup now store).grants secret tree) ≡ true)
      ↔ Any (λ process. Any (Covers now secret process) store.grants) tree
unfolding find_in_tree cleanup
find_in_tree_iff now secret store [] = (λ e. cc, λ z. absurd z)
find_in_tree_iff now secret store (process ∷ tree) =
    let here =
      find_last-retain (Covers now secret process) (is_live now) (grants_access secret process)
        (Covers-iff now secret process) store.grants in
    let ih = find_in_tree_iff now secret store tree in
    (λ e. ground (arith, here, ih), λ e. ground (arith, here, ih))

-- `find` returns a grant exactly when some process of the tree has a grant for the secret that
-- has not expired.
pub find_grant_iff :
    (now : ℕ) (secret : Text) (tree : List ProcessIdentity) (store : GrantStore)
    → (is_some (find_grant now secret tree store).0 ≡ true)
      ↔ Any (λ process. Any (Covers now secret process) store.grants) tree
unfolding find_grant
find_grant_iff now secret tree store = find_in_tree_iff now secret store tree

Any-append_right : {A : Type 0} (P : A → Type 0) (xs ys : List A) → Any P ys → Any P (xs ++ ys)
Any-append_right P [] ys h = h
Any-append_right P (x ∷ xs) ys h = inr (Any-append_right P xs ys h)

Any-mem : {A : Type 0} (P : A → Type 0) (xs : List A) (x : A) → Any (λ y. y ≡ x) xs → P x → Any P xs
Any-mem P [] x h p = absurd h
Any-mem P (y ∷ ys) x (inl e) p = inl (rw e p)
Any-mem P (y ∷ ys) x (inr h) p = inr (Any-mem P ys x h p)

add_grant-Covers :
    (resource : Text) (process : ProcessIdentity) (seconds now later : ℕ) (id : Text)
    (store : GrantStore)
    → 0 < seconds
    → seconds ≤ max_grant_seconds
    → later < saturating_add now (saturating_mul seconds 1000)
    → Any (Covers later resource process) (add_grant resource process seconds now id store).1.grants
unfolding add_grant
add_grant-Covers resource process seconds now later id store pos short early =
    let test : ((seconds == 0) || ltb max_grant_seconds seconds) ≡ false = ground arith in
    rw test (
      Any-append_right (Covers later resource process) store.grants _
        (inl (early, refl, same_process_refl process)))

-- A grant of an admissible duration that has just been added covers every request of its process
-- and of the processes below it, until it expires.
pub find_grant-add_grant :
    (resource : Text) (process : ProcessIdentity) (seconds now later : ℕ) (id : Text)
    (tree : List ProcessIdentity) (store : GrantStore)
    → 0 < seconds
    → seconds ≤ max_grant_seconds
    → later < saturating_add now (saturating_mul seconds 1000)
    → Any (λ ancestor. ancestor ≡ process) tree
    → is_some (find_grant later resource tree (add_grant resource process seconds now id store).1).0
      ≡ true
find_grant-add_grant resource process seconds now later id tree store pos short early inside =
    (find_grant_iff later resource tree (add_grant resource process seconds now id store).1).1 (
      Any-mem
        (λ p.
          Any (Covers later resource p) (add_grant resource process seconds now id store).1.grants)
        tree process inside
        (add_grant-Covers resource process seconds now later id store pos short early))
