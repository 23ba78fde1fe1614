-- ===== src/App/Tests.antt =====
-- The windows at concrete inputs.
use secretd.Prelude.{
  ℕ, ◌≡◌, ◌≤◌, refl, true, false, none, some, Option, List, [], ◌∷◌, arith, all, any, ◌⊎◌,
}
use secretd.Prelude.Text.{Text, codes, byte_len, is_ascii_digit}
use secretd.Prelude.Result.{ok}
use secretd.Process.Tests.{shell, client}
use secretd.Controller.Tests.{ready}
use secretd.App.Oldest.{IsOldest, shown_request-IsOldest}
use secretd.App.Requests.{RequestView, grant_process, shown_request}
use secretd.Process.{is_launchd_process, ProcessIdentity, same_process}
use secretd.Aws.{is_account_id}
use secretd.Controller.{validated_grant_process, snapshot}
use secretd.App.Aliases.{suggested_alias}
use secretd.App.Offered.{grant_process_accepted, MayBeLaunchd}
use secretd.App.AliasLaws.{suggested_alias-IsAccepted, IsAccepted}
use secretd.Prelude.Map.{values}

shown_request_example :
    IsOldest (shown_request (snapshot ready).0) (values ready.pending) (values ready.pending_aws)
shown_request_example = shown_request-IsOldest ready

abbrev choosing : RequestView
choosing = record { error = none; grant_process_choices = (codes "r1", shell) ∷ [] }

offers : grant_process (codes "r1") (client ∷ shell ∷ []) choosing ≡ some shell
unfolding grant_process secretd.Prelude.Map.get secretd.Prelude.Text.same_text secretd.Prelude.any
    secretd.Process.same_process
offers = refl

grant_process_example :
    let tree = client ∷ shell ∷ [] in
    (any (same_process shell) tree ≡ true)
    × (((is_launchd_process shell ≡ true) × MayBeLaunchd (codes "r1") tree choosing shell)
        ⊎ ((boundary : ProcessIdentity) × (same_process boundary shell ≡ true)
            × (validated_grant_process tree client (some shell) ≡ ok boundary)))
grant_process_example =
    grant_process_accepted (codes "r1") (client ∷ shell ∷ []) choosing shell client offers

twelve : is_account_id (codes "123456789012") ≡ true
unfolding all is_ascii_digit byte_len
twelve = refl

suggested_alias_example :
    (alias : Text) × (suggested_alias (codes "Main Account") (codes "123456789012") ≡ some alias)
    × IsAccepted alias
suggested_alias_example =
    suggested_alias-IsAccepted (codes "Main Account") (codes "123456789012") twelve
