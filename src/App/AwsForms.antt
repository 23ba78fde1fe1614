-- ===== src/App/AwsForms.antt =====
-- src/app.rs: the forms of the AWS connection and of the password, and the buttons of the grants of
-- AWS.
use secretd.Prelude.{none, some, [], Option, suc}
use secretd.Prelude.Exec.{Exec}
use secretd.App.Forms.{MainView, run, password_modal, aws_connection_modal, Desk}
use secretd.Aws.{AwsConfiguration, AwsSettingsSummary, AwsAccessLevel}
use secretd.Controller.{
  snapshot, Controller, revoke_aws_denial, set_aws_grant_level, save_aws_connection,
}
use secretd.Prelude.Result.{Result, ok, err}
use secretd.Prelude.Text.{Text, trim}
use secretd.Vault.{Platform, Host}

unfoldable pub open_password : MainView → MainView
open_password m = record m {
  new_password = [];
  password_confirmation = [];
  form_error = none;
  modal = some password_modal;
}

abbrev connection_form : AwsConfiguration → MainView → MainView
connection_form connection m = record m {
  aws_start_url = connection.start_url;
  aws_region = connection.sso_region;
  form_error = none;
  modal = some aws_connection_modal;
}

abbrev no_connection : AwsConfiguration
no_connection = record { start_url = []; sso_region = []; targets = [] }

connection_of : Option AwsSettingsSummary → AwsConfiguration
connection_of none = no_connection
connection_of (some summary) = summary.configuration

unfoldable pub open_aws_connection : Desk → Desk
unfolding snapshot connection_of
open_aws_connection d =
    let (snap, c) = snapshot d.controller in
    record d { controller = c; main = connection_form (connection_of snap.aws) d.main }

-- What the window shows of a result.
result_toast : Result (Unit {0}) → MainView → MainView
result_toast (ok u) m = record m { toast = some none }
result_toast (err e) m = record m { toast = some (some e) }

-- `begin` is `begin_aws_login` beside the other threads, as one step of the controller.
unfoldable pub save_aws_connection_form : Platform → Host → Exec Controller (Unit {0}) → Desk → Desk
unfolding run save_aws_connection result_toast trim
save_aws_connection_form p host begin d =
    run (save_aws_connection p host (trim d.main.aws_start_url) (trim d.main.aws_region))
      (λ _ e.
        let (started, c) = begin e.controller in
        record e {
          main = result_toast started (record e.main { modal = none; form_error = none });
          controller = c;
          signals = suc e.signals;
        })
      (λ f e. record e { main = record e.main { form_error = some f } }) d

unfoldable pub begin_aws_refresh : Exec Controller (Unit {0}) → Desk → Desk
unfolding result_toast
begin_aws_refresh begin d =
    let (started, c) = begin d.controller in
    record d { main = result_toast started d.main; controller = c }

unfoldable pub unblock_aws_denial : Text → Desk → Desk
unfolding revoke_aws_denial
unblock_aws_denial id d = record d {
  controller = revoke_aws_denial id d.controller;
  signals = suc d.signals;
}

unfoldable pub switch_aws_grant : Text → AwsAccessLevel → Desk → Desk
unfolding set_aws_grant_level result_toast
switch_aws_grant id level d =
    let (switched, c) = set_aws_grant_level id level d.controller in
    record d { main = result_toast switched d.main; controller = c; signals = suc d.signals }
