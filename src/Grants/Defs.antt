-- ===== src/Grants/Defs.antt =====
-- src/grants.rs: `Grant` and `GrantStore`. Each reading of the clock and each new ID is an argument,
-- in the order of the reads; times are milliseconds in a `u64`.
use secretd.Prelude.{
  ℕ, ◌*◌, Bool, ◌&&◌, ◌||◌, Option, none, some, List, [], ◌∷◌, ◌++◌, min, ltb, ◌==◌, if◌then◌else◌,
  retain, find, find_last, remove_first, update_first,
}
use secretd.Prelude.Text.{Text, same_text}
use secretd.Prelude.Result.{ok, err, grant_duration}
use secretd.Prelude.Exec.{Exec}
use secretd.Prelude.Word.{saturating_add, saturating_mul}
use secretd.Prelude.Sort.{sort_by_key}
use secretd.Process.{ProcessIdentity, same_process}

abbrev pub max_grant_seconds : ℕ
max_grant_seconds = 60 * 60

abbrev pub default_grant_seconds : ℕ
default_grant_seconds = 30 * 60

abbrev pub grant_extension_seconds : ℕ
grant_extension_seconds = 15 * 60

pub record Grant : Type 0 where
  pub id : Text
  pub resource : Text
  pub process : ProcessIdentity
  pub created_at : ℕ
  pub expires_at : ℕ

pub record GrantStore : Type 0 where
  pub grants : List Grant

-- The name of each method below is the source's, in a module of its own where it is a common word.
unfoldable pub add_grant : Text → ProcessIdentity → ℕ → ℕ → Text → Exec GrantStore Grant
add_grant resource process seconds now id store =
    let grant : Grant = record {
      id = id;
      resource = resource;
      process = process;
      created_at = now;
      expires_at = saturating_add now (saturating_mul seconds 1000);
    } in
    if (seconds == 0) || ltb max_grant_seconds seconds
    then (err grant_duration, store)
    else (ok grant, record store { grants = store.grants ++ grant ∷ [] })

abbrev pub is_live : ℕ → Grant → Bool
is_live now grant = ltb now grant.expires_at

unfoldable pub cleanup : ℕ → GrantStore → GrantStore
cleanup now store = record store { grants = retain (is_live now) store.grants }

abbrev pub grants_access : Text → ProcessIdentity → Grant → Bool
grants_access secret process grant =
    same_text grant.resource secret && same_process grant.process process

-- The newest grant of the nearest process that has one.
unfoldable pub find_in_tree : List Grant → Text → List ProcessIdentity → Option Grant
find_in_tree grants secret [] = none
find_in_tree grants secret (process ∷ tree) =
    elim (find_last (grants_access secret process) grants) [
      | some grant ↦ some grant
      | none ↦ find_in_tree grants secret tree
    ]

unfoldable pub find_grant : ℕ → Text → List ProcessIdentity → GrantStore → Option Grant × GrantStore
unfolding find_in_tree cleanup
find_grant now secret process_tree store =
    let live = cleanup now store in (find_in_tree live.grants secret process_tree, live)

unfoldable pub list_grants : ℕ → GrantStore → List Grant × GrantStore
unfolding cleanup
list_grants now store =
    let live = cleanup now store in (sort_by_key (λ grant. grant.expires_at) live.grants, live)

abbrev pub has_id : Text → Grant → Bool
has_id id grant = same_text grant.id id

unfoldable pub revoke : Text → GrantStore → Option Grant × GrantStore
revoke id store =
    (find (has_id id) store.grants, record store { grants = remove_first (has_id id) store.grants })

-- The new expiry: fifteen minutes more, and at most an hour from now.
abbrev pub extended : ℕ → ℕ → ℕ
extended now expires_at =
    min (saturating_add expires_at (saturating_mul grant_extension_seconds 1000))
      (saturating_add now (saturating_mul max_grant_seconds 1000))

abbrev pub extend_one : ℕ → Grant → Grant
extend_one now grant = record grant { expires_at = extended now grant.expires_at }

-- `cleaned` is the reading of the clock by `cleanup`, `now` the one after it.
unfoldable pub extend : ℕ → ℕ → Text → GrantStore → Option Grant × GrantStore
unfolding cleanup
extend cleaned now id store =
    let live = cleanup cleaned store in
    let changed = update_first (has_id id) (extend_one now) live.grants in
    (find (has_id id) changed, record store { grants = changed })
