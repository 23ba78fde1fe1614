-- ===== src/App/Windows.antt =====
-- src/runtime.rs: which windows are open, and when they open and close.
use secretd.Prelude.{
  ℕ, Bool, true, false, Option, none, some, List, [], ◌==◌, if◌then◌else◌, ◌&&◌, not, ◌∷◌, ◌||◌,
  is_some,
}
use secretd.Prelude.Text.{Text, same_option}
use secretd.Controller.{AppSnapshot}
use secretd.Aws.LoginStatus.{AwsLoginStatus, awaiting_user}

pub data RequestWindowAction : Type 0 where
  open_window close_window no_action : RequestWindowAction

unfoldable pub request_window_action : Bool → Bool → RequestWindowAction
request_window_action true false = open_window
request_window_action false true = close_window
request_window_action _ _ = no_action

-- The IDs of the open windows; `opened_aws_login_url` is the address that the browser was sent to.
pub record Windows : Type 0 where
  pub main : Option ℕ
  pub request : Option ℕ
  pub closing_request : Bool
  pub opened_aws_login_url : Option Text

abbrev has_window : Option ℕ → ℕ → Bool
has_window none id = false
has_window (some window) id = window == id

-- `open_request`; `opened` is the new window, where the system gives one.
unfoldable pub open_request : Option ℕ → Windows → Windows
open_request opened windows = elim windows.request [
  | some window ↦ windows
  | none ↦ record windows { request = opened }
]

-- `close_request`; `removed` says whether the system still knew the window.
unfoldable pub close_request : Bool → Windows → Windows
close_request removed windows = elim windows.request [
  | none ↦ windows
  | some window ↦
      if removed
      then record windows { closing_request = true }
      else record windows { request = none; closing_request = false }
]

-- `on_window_closed`, with whether the oldest request is dismissed
unfoldable pub window_closed : ℕ → Windows → Bool × Windows
window_closed id windows =
    let was_main = has_window windows.main id in
    let was_request = has_window windows.request id in
    let without_main = if was_main then record windows { main = none } else windows in
    (
      was_request && not windows.closing_request,
      if was_request
          then record without_main { request = none; closing_request = false }
          else without_main,
    )

abbrev is_filled : {A : Type 0} → List A → Bool
is_filled [] = false
is_filled (a ∷ rest) = true

unfoldable pub reconcile_windows : Option ℕ → Bool → AppSnapshot → Windows → Windows
unfolding request_window_action open_request close_request
reconcile_windows opened removed snapshot windows =
    let has_requests = is_filled snapshot.pending || is_filled snapshot.pending_aws in
    elim (request_window_action has_requests (is_some windows.request)) [
      | open_window ↦ open_request opened windows
      | close_window ↦ close_request removed windows
      | no_action ↦ windows
    ]

-- The part of `dispatch` on a change of the state: the address that is opened, where one is.
unfoldable pub login_changed : AwsLoginStatus → Windows → Option Text × Windows
login_changed (awaiting_user authorization) windows =
    if same_option windows.opened_aws_login_url (some authorization.url)
    then (none, windows)
    else (some authorization.url, record windows { opened_aws_login_url = some authorization.url })
login_changed _ windows = (none, record windows { opened_aws_login_url = none })
