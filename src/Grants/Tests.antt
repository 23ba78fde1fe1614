-- ===== src/Grants/Tests.antt =====
-- The grants at concrete inputs.
use secretd.Prelude.{ℕ, ◌≡◌, true, List, [], ◌∷◌, is_some, Any, arith, ◌↔◌}
use secretd.Prelude.Text.{codes}
use secretd.Process.Tests.{shell, client}
use secretd.Grants.{Grant, GrantStore, find_grant}
use secretd.Grants.Bounds.{Call, IsBounded, run, run-IsBounded}
use secretd.Grants.Lookup.{Covers, find_grant_iff}

abbrev pub npm_grant : Grant
npm_grant = record {
  id = codes "g1";
  resource = codes "npm";
  process = shell;
  created_at = 1000;
  expires_at = 1_801_000;
}

abbrev pub one_grant : GrantStore
one_grant = record { grants = npm_grant ∷ [] }

abbrev some_calls : List (ℕ × Call)
some_calls =
    (0, Call.adds (codes "npm") shell 60 (codes "g2"))
    ∷ (500, Call.extends (codes "g1") 3)
    ∷ (500, Call.lists)
    ∷ (7, Call.revokes (codes "g1"))
    ∷ []

run-IsBounded_example :
    IsBounded (run 2000 some_calls one_grant).1 (run 2000 some_calls one_grant).0
run-IsBounded_example = run-IsBounded 2000 some_calls one_grant (omega arith, tt)

find_grant_iff_example :
    (is_some (find_grant 2000 (codes "npm") (client ∷ shell ∷ []) one_grant).0 ≡ true)
    ↔ Any
        (λ process. Any (Covers 2000 (codes "npm") process) one_grant.grants)
        (client ∷ shell ∷ [])
find_grant_iff_example = find_grant_iff 2000 (codes "npm") (client ∷ shell ∷ []) one_grant
