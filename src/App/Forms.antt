-- ===== src/App/Forms.antt =====
-- src/app.rs: the forms of the main window, with the texts of their inputs.
use mathlib.Core.Option
use secretd.Prelude.{
  ℕ, suc, Bool, true, false, not, ◌&&◌, Option, none, some, List, [], ◌∷◌, if◌then◌else◌, ltb, ◌-◌,
}
use secretd.Prelude.Result.{Result, ok, err, Failure, passwords_differ, connection_gone, no_alias}
use secretd.Prelude.Exec.{Exec}
use secretd.Prelude.Text.{Text, same_text}
use secretd.Controller.{
  Controller, snapshot, lock_all, prune_exited_aws_grants, reveal_secret, save_controller_secret,
  delete_secret, change_master_password, save_aws_configuration, extend_aws_grant, create_vault,
  revoke_aws_grant, unlock_vault, extend_grant, revoke_grant,
}
use secretd.App.Aliases.{AwsAliasInputs, alias_inputs, targets_from}
use secretd.Vault.{Platform, Host}
use secretd.Aws.{AwsSettingsSummary, AwsTarget}

pub data View : Type 0 where
  secrets aws grants activity : View

pub data Modal : Type 0 where
  secret_modal : Option Text → Modal
  password_modal aws_connection_modal aws_aliases_modal : Modal
  delete_modal : Text → Modal

-- The state of the window. A toast is the error that it shows, or none for a success.
pub record MainView : Type 0 where
  pub view : View
  pub last_grant_process_check : Option ℕ
  pub auth_password : Text
  pub auth_confirmation : Text
  pub secret_name : Text
  pub secret_value : Text
  pub new_password : Text
  pub password_confirmation : Text
  pub aws_start_url : Text
  pub aws_region : Text
  pub aws_aliases : List AwsAliasInputs
  pub modal : Option Modal
  pub auth_error : Option Failure
  pub form_error : Option Failure
  pub revealed : Option (Text × Text)
  pub toast : Option (Option Failure)

-- The window beside the controller that it locks, and the calls of `signal`.
pub record Desk : Type 0 where
  pub main : MainView
  pub controller : Controller
  pub signals : ℕ

abbrev on_main : (MainView → MainView) → Desk → Desk
on_main f d = record d { main = f d.main }

abbrev signal : Desk → Desk
signal d = record d { signals = suc d.signals }

-- What an operation of the controller returned is handed on, with the controller that it left.
finish : {A : Type 0} → (A → Desk → Desk) → (Failure → Desk → Desk) → Result A → Desk → Desk
finish done failed (ok a) d = done a d
finish done failed (err e) d = failed e d

unfoldable pub run :
    {A : Type 0} → Exec Controller A → (A → Desk → Desk) → (Failure → Desk → Desk) → Desk → Desk
unfolding finish
run m done failed d =
    let (r, c) = m d.controller in finish done failed r (record d { controller = c })

abbrev auth_failed : Failure → Desk → Desk
auth_failed e = on_main (λ m. record m { auth_error = some e })

abbrev form_failed : Failure → Desk → Desk
form_failed e = on_main (λ m. record m { form_error = some e })

abbrev toasted : Option Failure → MainView → MainView
toasted message m = record m { toast = some message }

abbrev toast_failed : Failure → Desk → Desk
toast_failed e = on_main (toasted (some e))

abbrev without_login : MainView → MainView
without_login m = record m { auth_password = []; auth_confirmation = [] }

-- `create_vault` or `unlock`, as the snapshot says whether there is a vault
unfoldable pub submit_auth_form : Platform → Host → Desk → Desk
unfolding run snapshot create_vault unlock_vault
submit_auth_form p host d =
    let (snap, c) = snapshot d.controller in
    let creating = not snap.vault_exists in
    let ready = record d { controller = c; main = record d.main { auth_error = none } } in
    let password = d.main.auth_password in
    let done : Unit {0} → Desk → Desk = λ _ e. signal (on_main without_login e) in
    if creating && not (same_text password d.main.auth_confirmation)
    then auth_failed passwords_differ ready
    else if creating
    then run (create_vault p host password) done auth_failed ready
    else run (unlock_vault p host password) done auth_failed ready

unfoldable pub clear_sensitive : MainView → MainView
clear_sensitive m = record m {
  auth_password = [];
  auth_confirmation = [];
  secret_name = [];
  secret_value = [];
  new_password = [];
  password_confirmation = [];
  aws_aliases = [];
  modal = none;
  revealed = none;
  form_error = none;
  auth_error = none;
}

unfoldable pub lock_vault : Desk → Desk
unfolding clear_sensitive lock_all
lock_vault d =
    signal (record d { main = clear_sensitive d.main; controller = lock_all d.controller })

is_grants : View → Bool
is_grants grants = true
is_grants _ = false

unfoldable pub switch_view : View → MainView → MainView
unfolding is_grants
switch_view view m = record m {
  view = view;
  last_grant_process_check =
      if is_grants view && not (is_grants m.view) then none else m.last_grant_process_check;
}

checked_lately : ℕ → Option ℕ → Bool
checked_lately now none = false
checked_lately now (some last) = ltb (now - last) 1000

-- the clock of the window, in milliseconds
unfoldable pub refresh_grant_liveness : ℕ → Desk → Desk
unfolding is_grants checked_lately prune_exited_aws_grants
refresh_grant_liveness now d =
    if not (is_grants d.main.view)
    then d
    else if checked_lately now d.main.last_grant_process_check
    then d
    else record d {
      controller = prune_exited_aws_grants d.controller;
      main = record d.main { last_grant_process_check = some now };
    }

abbrev secret_form : Option Text → Text → Text → MainView → MainView
secret_form original_name name value m = record m {
  secret_name = name;
  secret_value = value;
  form_error = none;
  modal = some (secret_modal original_name);
}

unfoldable pub open_secret : Option Text → Desk → Desk
unfolding run reveal_secret
open_secret none d = on_main (secret_form none [] []) d
open_secret (some name) d =
    run (λ c. (reveal_secret name c, c)) (λ value. on_main (secret_form (some name) name value))
      toast_failed d

abbrev after_save : MainView → MainView
after_save m = toasted none (record m {
  secret_name = [];
  secret_value = [];
  modal = none;
  revealed = none;
  form_error = none;
})

-- nothing where another form is open
unfoldable pub save_secret_form : Platform → Host → Host → Desk → Desk
unfolding run save_controller_secret
save_secret_form p renaming saving d = elim d.main.modal [
  | some (secret_modal original_name) ↦
      run
        (save_controller_secret p renaming saving d.main.secret_name d.main.secret_value
          original_name)
        (λ _ e. signal (on_main after_save e)) form_failed d
  | _ ↦ d
]

is_revealed : Text → Option (Text × Text) → Bool
is_revealed name none = false
is_revealed name (some (revealed, value)) = same_text revealed name

unfoldable pub toggle_secret : Text → Desk → Desk
unfolding run is_revealed reveal_secret
toggle_secret name d =
    if is_revealed name d.main.revealed
    then on_main (λ m. record m { revealed = none }) d
    else run (λ c. (reveal_secret name c, c))
        (λ value. on_main (λ m. record m { revealed = some (name, value) })) toast_failed d

unfoldable pub delete_secret_form : Platform → Host → Text → Desk → Desk
unfolding run delete_secret
delete_secret_form p host name d =
    run (delete_secret p host name)
      (λ _ e. signal (on_main (λ m. toasted none (record m { modal = none; revealed = none })) e))
      toast_failed d

unfoldable pub save_password : Platform → Host → Desk → Desk
unfolding run change_master_password
save_password p host d =
    if not (same_text d.main.new_password d.main.password_confirmation)
    then form_failed passwords_differ d
    else run (change_master_password p host d.main.new_password)
        (λ _ e.
          on_main
            (λ m. toasted none (record m {
              new_password = [];
              password_confirmation = [];
              modal = none;
              form_error = none;
            }))
            e)
        form_failed d

is_secret_modal : Option Modal → Bool
is_secret_modal (some (secret_modal original_name)) = true
is_secret_modal _ = false

is_password_modal : Option Modal → Bool
is_password_modal (some password_modal) = true
is_password_modal _ = false

unfoldable pub close_modal : MainView → MainView
unfolding is_secret_modal is_password_modal
close_modal m = record m {
  secret_name = if is_secret_modal m.modal then [] else m.secret_name;
  secret_value = if is_secret_modal m.modal then [] else m.secret_value;
  new_password = if is_password_modal m.modal then [] else m.new_password;
  password_confirmation = if is_password_modal m.modal then [] else m.password_confirmation;
  aws_aliases = [];
  modal = none;
  form_error = none;
}

-- The accounts of the snapshot, as the form shows them; nothing changes where there is no connection,
-- and `none` is a panic, for an account's ID of less than eight bytes.
unfoldable pub open_aws_aliases : Desk → Option Desk
unfolding snapshot alias_inputs
open_aws_aliases d =
    let (snap, c) = snapshot d.controller in
    elim snap.aws [
      | none ↦ some (record d { controller = c })
      | some summary ↦
          Option.map
            (λ inputs. record d {
              controller = c;
              main = record d.main {
                aws_aliases = inputs;
                form_error = none;
                modal = some aws_aliases_modal;
              };
            })
            (alias_inputs summary.configuration.targets [] summary.discovered_accounts)
    ]

with_targets : Platform → Host → AwsSettingsSummary → Result (List AwsTarget) → Desk → Desk
unfolding run save_aws_configuration
with_targets p host summary (err e) d = form_failed e d
with_targets p host summary (ok []) d = form_failed no_alias d
with_targets p host summary (ok (target ∷ targets)) d =
    run
      (save_aws_configuration p host (record {
        start_url = summary.configuration.start_url;
        sso_region = summary.configuration.sso_region;
        targets = target ∷ targets;
      }))
      (λ _ e. signal (
        on_main (λ m. toasted none (record m { aws_aliases = []; modal = none; form_error = none }))
          e))
      form_failed d

unfoldable pub save_aws_aliases : Platform → Host → Desk → Desk
unfolding snapshot with_targets targets_from
save_aws_aliases p host d =
    let (snap, c) = snapshot d.controller in
    let ready = record d { controller = c } in
    elim snap.aws [
      | none ↦ form_failed connection_gone ready
      | some summary ↦ with_targets p host summary (targets_from d.main.aws_aliases) ready
    ]

-- `mutate_grant`
unfoldable pub mutate_grant : Text → Bool → Bool → Desk → Desk
unfolding extend_aws_grant revoke_aws_grant extend_grant revoke_grant
mutate_grant id true true d = signal (record d { controller = extend_aws_grant id d.controller })
mutate_grant id false true d = signal (record d { controller = revoke_aws_grant id d.controller })
mutate_grant id true false d = signal (record d { controller = extend_grant id d.controller })
mutate_grant id false false d = signal (record d { controller = revoke_grant id d.controller })
