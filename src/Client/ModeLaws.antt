-- ===== src/Client/ModeLaws.antt =====
-- Which mode the arguments choose.
use secretd.Client.Mode.{Mode}
use secretd.Prelude.{◌≡◌, refl, false, some, List, inl, inr, Bool-cases}
use secretd.Prelude.Text.{Text, codes, contains_text, same_text}
use secretd.Client.Mode.{mode, launch_arguments}

-- The process that a start in the background launches runs in the foreground, whatever the
-- arguments were: it does not launch another one.
pub mode-launch_arguments :
    (arguments : List Text) → mode (launch_arguments arguments) ≡ some (Mode.desktop false)
unfolding mode launch_arguments same_text
mode-launch_arguments arguments = elim (Bool-cases (contains_text (codes "--show") arguments)) [
  | inl shows ↦ rw shows refl
  | inr hides ↦ rw hides refl
]
