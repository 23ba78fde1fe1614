-- ===== src/Grants/Listing.antt =====
-- What `list` returns.
use mathlib.Core.List.{Perm}
use secretd.Prelude.{ℕ, retain}
use secretd.Prelude.Sort.{IsSortedByKey, sort_by_key-IsSortedByKey, sort_by_key-perm}
use secretd.Grants.Defs.{Grant, GrantStore, is_live, list_grants}

-- The list holds each grant that has not expired, as often as the store does, and the grants that
-- end first stand first.
pub list_grants_lem :
    (now : ℕ) (store : GrantStore)
    → IsSortedByKey (λ (grant : Grant). grant.expires_at) (list_grants now store).0
      × Perm (list_grants now store).0 (retain (is_live now) store.grants)
unfolding list_grants
list_grants_lem now store =
    let live = retain (is_live now) store.grants in
    (
      sort_by_key-IsSortedByKey (λ grant. grant.expires_at) live,
      sort_by_key-perm (λ grant. grant.expires_at) live,
    )
