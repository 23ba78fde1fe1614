-- ===== src/Client/Mode.antt =====
-- src/bin/secretd.rs: the mode that the arguments choose, and what each mode does.
use secretd.Prelude.{
  Bool, true, false, ◌&&◌, ◌||◌, Option, none, some, List, [], ◌∷◌, ◌++◌, if◌then◌else◌,
}
use secretd.Prelude.Result.{Result, ok, ◌>>=◌}
use secretd.Prelude.Text.{Text, same_text, codes, contains_text}
use secretd.Client.Request.{get_secret, get_aws_credentials, start_aws_login, ClientHost}
use secretd.Client.Paths.{Environment, cli_runtime_path}
use secretd.Server.{Json}

pub data Mode : Type 0 where
  desktop : Bool → Mode
  get : Text → Mode
  aws_credentials : Text → Mode
  aws_login help : Mode

abbrev when : Bool → Mode → Option Mode
when test chosen = if test then some chosen else none

one_argument : Text → Option Mode
one_argument a =
    if same_text a (codes "--show") || same_text a (codes "desktop")
    then some (Mode.desktop true)
    else when
        (same_text a (codes "--help") || same_text a (codes "-h") || same_text a (codes "help"))
        Mode.help

two_arguments : Text → Text → Option Mode
two_arguments a b =
    if same_text a (codes "desktop") && same_text b (codes "--show")
    then some (Mode.desktop true)
    else if same_text a (codes "desktop") && same_text b (codes "--foreground")
    then some (Mode.desktop false)
    else if same_text a (codes "get")
    then some (Mode.get b)
    else when (same_text a (codes "aws") && same_text b (codes "login")) Mode.aws_login

three_arguments : Text → Text → Text → Option Mode
three_arguments a b c =
    if same_text a (codes "desktop")
      && same_text b (codes "--foreground")
      && same_text c (codes "--show")
    then some (Mode.desktop false)
    else when (same_text a (codes "aws") && same_text b (codes "credentials"))
        (Mode.aws_credentials c)

-- None stands for the error, which prints the usage.
unfoldable pub mode : List Text → Option Mode
unfolding one_argument two_arguments three_arguments
mode [] = some (Mode.desktop true)
mode (a ∷ []) = one_argument a
mode (a ∷ b ∷ []) = two_arguments a b
mode (a ∷ b ∷ c ∷ []) = three_arguments a b c
mode _ = none

-- `launch_desktop`: the arguments of the process that goes on in the background
unfoldable pub launch_arguments : List Text → List Text
launch_arguments arguments =
    let always = codes "desktop" ∷ codes "--foreground" ∷ [] in
    if contains_text (codes "--show") arguments then always ++ codes "--show" ∷ [] else always

-- What a command prints, where it succeeds: the value, and a newline behind all but a secret.
unfoldable pub get_command : Environment → Json → ClientHost → Text → Result Text
unfolding get_secret
get_command environment json host secret = do
  _ ← cli_runtime_path environment
  get_secret json host secret

unfoldable pub aws_credentials_command : Environment → Json → ClientHost → Text → Result Text
unfolding get_aws_credentials
aws_credentials_command environment json host profile = do
  _ ← cli_runtime_path environment
  value ← get_aws_credentials json host profile
  ok (value ++ 10 ∷ [])

unfoldable pub aws_login_command : Environment → Json → ClientHost → Result Text
unfolding start_aws_login
aws_login_command environment json host = do
  _ ← cli_runtime_path environment
  message ← start_aws_login json host
  ok (message ++ 10 ∷ [])
