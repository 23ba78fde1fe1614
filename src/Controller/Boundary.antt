-- ===== src/Controller/Boundary.antt =====
-- src/controller.rs: the process and the duration that a decision is for.
use secretd.Prelude.{ℕ, ◌||◌, Option, List, find, ltb, ◌==◌, unwrap_or}
use secretd.Prelude.Result.{
  Result, ok, ◌>>◌, fail_if, ok_or, launchd_boundary, process_not_in_tree, grant_duration,
}
use secretd.Process.{ProcessIdentity, same_process, is_launchd_process}
use secretd.Grants.{max_grant_seconds, default_grant_seconds}

unfoldable pub validated_grant_process :
    List ProcessIdentity → ProcessIdentity → Option ProcessIdentity → Result ProcessIdentity
validated_grant_process process_tree origin selection =
    let selected = unwrap_or selection origin in
    do
      fail_if (is_launchd_process selected) launchd_boundary
      ok_or (find (λ process. same_process process selected) process_tree) process_not_in_tree

unfoldable pub validated_grant_seconds : Option ℕ → Result ℕ
validated_grant_seconds requested =
    let seconds = unwrap_or requested default_grant_seconds in
    do fail_if ((seconds == 0) || ltb max_grant_seconds seconds) grant_duration; ok seconds
