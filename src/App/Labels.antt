-- ===== src/App/Labels.antt =====
-- src/app.rs: the texts that the windows and the tray show.
use secretd.Aws.{read_only, admin}
use secretd.Prelude.{
  ℕ, Bool, List, [], ◌∷◌, ◌++◌, ◌+◌, if◌then◌else◌, ltb, ◌-◌, length, ◌/◌, leb, ◌==◌, ◌||◌,
}
use secretd.Prelude.Text.{Text, last_piece, trim, codes, is_empty, split_whitespace, same_text}
use secretd.Process.{ProcessIdentity}
use secretd.Controller.{AuditAction, AppSnapshot}
use secretd.Vault.{decimal}

-- what stands behind the last slash
abbrev file_name : Text → Text
file_name = last_piece b'/'

abbrev or_else_text : Text → Text → Text
or_else_text text other = if is_empty text then other else text

-- the loop over at most two arguments; `more` says whether there are others
unfoldable pub with_arguments : Text → Bool → List Text → Text
with_arguments label more [] = if more then label ++ codes " …" else label
with_arguments label more (argument ∷ arguments) =
    let name = file_name argument in
    let rest = with_arguments (label ++ b' ' ∷ name) more arguments in
    if ltb 42 (length label + length name + 1) then label ++ codes " …" else rest

-- `take(2)`
abbrev first_two : List Text → List Text
first_two (a ∷ b ∷ arguments) = a ∷ b ∷ []
first_two arguments = arguments

abbrev program_label : Text → List Text → Text
program_label executable arguments =
    with_arguments (or_else_text (file_name executable) executable) (ltb 2 (length arguments))
      (first_two arguments)

unfoldable pub compact_process_label : ProcessIdentity → Text
unfolding with_arguments
compact_process_label process =
    let source = or_else_text (trim process.command) (trim process.executable) in
    elim (split_whitespace source) [
      | [] ↦ program_label source []
      | executable ∷ arguments ↦ program_label executable arguments
    ]

unfoldable pub process_details : ProcessIdentity → Text
process_details process =
    if is_empty (trim process.command) || same_text process.command process.executable
    then process.executable
    else process.executable ++ 10 ∷ process.command

abbrev div_ceil : ℕ → ℕ → ℕ
div_ceil n d = (n + d - 1) / d

-- `format!("{n}")` of 64 bits, which twenty digits are enough for
abbrev number : ℕ → Text
number n = decimal 20 n

unfoldable pub remaining : ℕ → Text
remaining seconds =
    if leb 60 seconds
    then number (div_ceil seconds 60) ++ b'm' ∷ []
    else number seconds ++ b's' ∷ []

unfoldable pub duration_until : ℕ → ℕ → Text
unfolding remaining
duration_until now_millis timestamp = remaining (div_ceil (timestamp - now_millis) 1000)

unfoldable pub duration_until_seconds : ℕ → ℕ → Text
unfolding remaining
duration_until_seconds now_seconds timestamp = remaining (timestamp - now_seconds)

unfoldable pub duration_since : ℕ → ℕ → Text
duration_since now_millis timestamp =
    let seconds = div_ceil (now_millis - timestamp) 1000 in
    if ltb seconds 10
    then codes "just now"
    else if ltb seconds 60
    then number seconds ++ codes "s ago"
    else number (seconds / 60) ++ codes "m ago"

unfoldable pub audit_label : AuditAction → Text
audit_label AuditAction.allowed_once = codes "Allowed once"
audit_label AuditAction.granted_temporarily = codes "Access granted"
audit_label AuditAction.auto_granted = codes "Automatically released"
audit_label AuditAction.denied = codes "Request denied"
audit_label AuditAction.timed_out = codes "Request timed out"
audit_label AuditAction.revoked = codes "Access revoked"
audit_label AuditAction.unblocked = codes "Block removed"
audit_label (AuditAction.aws_access_changed admin) = codes "Switched to admin"
audit_label (AuditAction.aws_access_changed read_only) = codes "Switched to read-only"

pub data TrayStatus : Type 0 where
  tray_locked tray_unlocked : TrayStatus

unfoldable pub tray_status : AppSnapshot → TrayStatus
tray_status snapshot = if snapshot.unlocked then tray_unlocked else tray_locked

-- the tooltip of `refresh_tray`
unfoldable pub tooltip : AppSnapshot → Text
tooltip snapshot =
    let pending_count = length snapshot.pending + length snapshot.pending_aws in
    if ltb 0 pending_count
    then codes "secretd — "
      ++ (number pending_count
          ++ (codes " request"
              ++ ((if pending_count == 1 then [] else codes "s") ++ codes " pending")))
    else if snapshot.unlocked
    then codes "secretd — unlocked · " ++ (number (length snapshot.secrets) ++ codes " credentials")
    else codes "secretd — locked"
