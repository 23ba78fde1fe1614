-- ===== src/Process/Tests.antt =====
-- The functions on processes at concrete inputs.
use secretd.Prelude.{
  ℕ, ◌≡◌, ◌≤◌, refl, true, some, none, List, [], ◌∷◌, ◌++◌, length, All, ◌==◌, if◌then◌else◌, ◌↔◌,
}
use secretd.Prelude.Text.{Text, codes}
use secretd.Prelude.Result.{ok}
use secretd.Process.{
  ProcessIdentity, ProcFs, contents, absent, same_process, omit_secretd_client_processes,
  inspect_process_tree, is_secretd_client_process,
}
use secretd.Process.Ancestors.{inspect_process_tree_lem, Linked, DistinctPids}

abbrev pub shell : ProcessIdentity
shell = record {
  pid = 7;
  ppid = 1;
  started_at = codes "12";
  executable = codes "/bin/sh";
  command = codes "sh";
}

abbrev pub client : ProcessIdentity
client = record {
  pid = 9;
  ppid = 7;
  started_at = codes "34";
  executable = codes "/usr/bin/secretd";
  command = codes "secretd get";
}

-- two processes: the client 9, whose parent is the shell 7, a child of 1, which cannot be read
abbrev pub two_processes : ProcFs
two_processes = record {
  stat = λ pid.
      if pid == 9
      then contents (codes "9 (secretd) S 7 9 9 0 0 0 0 0 0 0 0 0 0 0 20 0 1 0 34 0")
      else if pid == 7
      then contents (codes "7 (sh) S 1 7 7 0 0 0 0 0 0 0 0 0 0 0 20 0 1 0 12 0")
      else absent;
  exe = λ pid. if pid == 9 then some (codes "/usr/bin/secretd") else some (codes "/bin/sh");
  cmdline = λ pid. none;
}

tree_of_two :
    inspect_process_tree two_processes 9 64
    ≡ ok (
        record client { command = codes "/usr/bin/secretd" }
        ∷ record shell { command = codes "/bin/sh" }
        ∷ [])
unfolding inspect_process_tree secretd.Process.inspect_ancestors secretd.Prelude.any
    secretd.Process.inspect_process secretd.Prelude.Text.after_last
    secretd.Prelude.Text.split_whitespace secretd.Process.parse_u32
    secretd.Prelude.Text.is_ascii_digit
tree_of_two = refl

abbrev found_tree : List ProcessIdentity
found_tree =
    record client { command = codes "/usr/bin/secretd" }
    ∷ record shell { command = codes "/bin/sh" }
    ∷ []

inspect_process_tree_example :
    (length found_tree ≤ 64) × Linked 9 found_tree × DistinctPids found_tree
inspect_process_tree_example = inspect_process_tree_lem two_processes 9 64 found_tree tree_of_two
