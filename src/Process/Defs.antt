-- ===== src/Process/Defs.antt =====
-- src/process.rs: `ProcessIdentity` and the functions over it.
use secretd.Prelude.{
  ℕ, zero, suc, ◌*◌, ◌+◌, ◌-◌, ◌^◌, Bool, false, ◌&&◌, ◌||◌, Option, none, some, List, [], ◌∷◌, map,
  leb, ◌==◌, if◌then◌else◌, skip_while, any, drop, first,
}
use secretd.Prelude.Text.{
  Text, codes, same_text, slashes, last_piece, to_ascii_lowercase, trim, split_whitespace, contains,
  after_last, first_or_empty, is_ascii_digit,
}
use secretd.Prelude.Result.{Result, ok, err, io_error, invalid_pid, ◌>>=◌}

pub record ProcessIdentity : Type 0 where
  pub pid : ℕ
  pub ppid : ℕ
  pub started_at : Text
  pub executable : Text
  pub command : Text

unfoldable pub same_process : ProcessIdentity → ProcessIdentity → Bool
same_process left right =
    (left.pid == right.pid)
    && same_text left.started_at right.started_at
    && same_text left.executable right.executable

abbrev base_name : Text → Text
base_name path = to_ascii_lowercase (last_piece b'/' path)

unfoldable pub is_launchd_process : ProcessIdentity → Bool
is_launchd_process process =
    let executable = base_name (slashes process.executable) in
    let invoked = base_name (first_or_empty (split_whitespace (slashes (trim process.command)))) in
    same_text executable (codes "launchd") || same_text invoked (codes "launchd")

unfoldable pub is_secretd_client_process : ProcessIdentity → Bool
is_secretd_client_process process =
    let command = to_ascii_lowercase (slashes (trim process.command)) in
    let executable = base_name (slashes process.executable) in
    let invoked = last_piece b'/' (first_or_empty (split_whitespace command)) in
    (same_text executable (codes "secretd") || same_text invoked (codes "secretd"))
    || (same_text executable (codes "deno")
        && (contains command (codes "deno task cli") || contains command (codes "src/cli/main.ts")))

unfoldable pub omit_secretd_client_processes : List ProcessIdentity → List ProcessIdentity
omit_secretd_client_processes tree = skip_while is_secretd_client_process tree

-- What reading /proc/<pid>/stat gives: `absent` also stands for a denied permission.
pub data StatRead : Type 0 where
  contents : Text → StatRead
  absent : StatRead
  failed : Text → StatRead

-- The files of /proc, at the moment of an inspection, as the lossy conversion to text gives them.
pub record ProcFs : Type 0 where
  pub stat : ℕ → StatRead
  pub exe : ℕ → Option Text
  pub cmdline : ℕ → Option Text

abbrev get : ℕ → List Text → Option Text
get n texts = first (drop n texts)

abbrev pub u32_max : ℕ
u32_max = 2 ^ 32 - 1

parse_digits : ℕ → Text → Option ℕ
parse_digits n [] = some n
parse_digits n (c ∷ s) =
    let rest = parse_digits (n * 10 + (c - b'0')) s in
    if is_ascii_digit c then (if leb (n * 10 + (c - b'0')) u32_max then rest else none) else none

parse_some_digits : Text → Option ℕ
unfolding parse_digits
parse_some_digits [] = none
parse_some_digits (c ∷ s) = parse_digits 0 (c ∷ s)

-- `str::parse::<u32>`: a plus sign may stand before the digits.
unfoldable pub parse_u32 : Text → Option ℕ
unfolding parse_some_digits
parse_u32 [] = none
parse_u32 (c ∷ s) = if c == b'+' then parse_some_digits s else parse_some_digits (c ∷ s)

-- `replace('\0', " ")`
abbrev spaces : Text → Text
spaces = map (λ c. if c == 0 then 32 else c)

-- The parsed fields of /proc/<pid>/stat, `none` where the function returns early.
unfoldable pub stat_fields : Text → Option (ℕ × Text)
stat_fields stat = elim (after_last b')' stat) [
  | none ↦ none
  | some rest ↦ elim (get 1 (split_whitespace rest)) [
    | none ↦ none
    | some ppid ↦ elim (get 19 (split_whitespace rest)) [
      | none ↦ none
      | some started_at ↦ elim (parse_u32 ppid) [ none ↦ none | some n ↦ some (n, started_at) ]
    ]
  ]
]

-- the part of `inspect_process` behind the reading of `stat`
unfoldable pub inspect_stat : ProcFs → ℕ → Option (ℕ × Text) → Option ProcessIdentity
inspect_stat files pid none = none
inspect_stat files pid (some (ppid, started_at)) = elim (files.exe pid) [
  | none ↦ none
  | some executable ↦ some (record {
    pid = pid;
    ppid = ppid;
    started_at = started_at;
    executable = executable;
    command = elim (files.cmdline pid) [ some bytes ↦ trim (spaces bytes) | none ↦ executable ];
  })
]

unfoldable pub inspect_read : ProcFs → ℕ → StatRead → Result (Option ProcessIdentity)
unfolding stat_fields inspect_stat
inspect_read files pid (contents stat) = ok (inspect_stat files pid (stat_fields stat))
inspect_read files pid absent = ok none
inspect_read files pid (failed message) = err (io_error message)

-- `inspect_process` of Linux
unfoldable pub inspect_process : ProcFs → ℕ → Result (Option ProcessIdentity)
unfolding inspect_read
inspect_process files pid = inspect_read files pid (files.stat pid)

-- One round of the loop behind the inspection; `next` runs the rounds that follow.
unfoldable pub inspect_parent :
    ℕ → (ℕ → Result (List ProcessIdentity)) → Option ProcessIdentity → Result (List ProcessIdentity)
inspect_parent current next none = ok []
inspect_parent current next (some identity) =
    if (identity.ppid == 0) || (identity.ppid == current)
    then ok (identity ∷ [])
    else do rest ← next identity.ppid; ok (identity ∷ rest)

-- The loop of `inspect_process_tree`, on the number of identities that the limit still allows.
unfoldable pub inspect_ancestors : ProcFs → ℕ → List ℕ → ℕ → Result (List ProcessIdentity)
unfolding inspect_parent
inspect_ancestors files zero visited current = ok []
inspect_ancestors files (suc room) visited current =
    if (current == 0) || any (λ p. p == current) visited then ok [] else do
      found ← inspect_process files current
      inspect_parent current (inspect_ancestors files room (current ∷ visited)) found

unfoldable pub inspect_process_tree : ProcFs → ℕ → ℕ → Result (List ProcessIdentity)
inspect_process_tree files pid limit =
    if pid == 0 then err invalid_pid else inspect_ancestors files limit [] pid

abbrev pub alive_if : ProcessIdentity → Result (Option ProcessIdentity) → Bool
alive_if process (ok (some current)) = same_process current process
alive_if process (ok none) = false
alive_if process (err e) = false

unfoldable pub process_is_alive : ProcFs → ProcessIdentity → Bool
process_is_alive files process = alive_if process (inspect_process files process.pid)
