-- ===== src/Server/Endpoint.antt =====
-- src/ipc/server.rs: `write_endpoint` and `close`, over the runtime file and the
-- temporary files, which have a new name each; the newest stands first.
use secretd.Prelude.{ℕ, Option, none, some, List, [], ◌∷◌, ◌++◌, if◌then◌else◌}
use secretd.Prelude.Exec.{Exec}
use secretd.Prelude.Result.{Result, ok, err, request_unencoded}
use secretd.Vault.{Host}
use secretd.Server.Protocol.{Json, EndpointFile}

pub record RuntimeFiles : Type 0 where
  pub runtime : Option (List ℕ)
  pub temporary : List (List ℕ)

-- a temporary file that was written
abbrev add_temporary : List ℕ → RuntimeFiles → RuntimeFiles
add_temporary contents files = record files { temporary = contents ∷ files.temporary }

-- the renaming of a temporary file that was written
unfoldable pub rename_over : Host → List ℕ → Exec RuntimeFiles (Unit {0})
rename_over host contents files = elim host.renaming [
  | err e ↦ (err e, add_temporary contents files)
  | ok _ ↦ (ok tt, record files { runtime = some contents })
]

-- The closure of `write_endpoint`. The file is open before the JSON is made.
unfoldable pub write_runtime : Json → Host → EndpointFile → Exec RuntimeFiles (Unit {0})
unfolding rename_over
write_runtime json host endpoint files = elim host.opening [
  | err e ↦ (err e, files)
  | ok _ ↦ elim (json.endpoint_bytes endpoint) [
    | none ↦ (err request_unencoded, add_temporary [] files)
    | some bytes ↦ elim host.writing [
      | err e ↦ (err e, add_temporary host.partial files)
      | ok _ ↦ rename_over host (bytes ++ 10 ∷ []) files
    ]
  ]
]

-- `before` are the temporary files of earlier writes.
unfoldable pub tidy_runtime :
    Host → List (List ℕ) → Result (Unit {0}) × RuntimeFiles → Result (Unit {0}) × RuntimeFiles
tidy_runtime host before (ok u, files) = (ok u, files)
tidy_runtime host before (err e, files) =
    (err e, if host.removable then record files { temporary = before } else files)

unfoldable pub write_endpoint : Json → Host → EndpointFile → Exec RuntimeFiles (Unit {0})
unfolding write_runtime tidy_runtime
write_endpoint json host endpoint files = elim host.parent [
  | err e ↦ (err e, files)
  | ok _ ↦ elim host.directory [
    | err e ↦ (err e, files)
    | ok _ ↦ tidy_runtime host files.temporary (write_runtime json host endpoint files)
  ]
]

-- the removal of the runtime file in `close`
unfoldable pub close_runtime : Host → RuntimeFiles → RuntimeFiles
close_runtime host files = if host.removable then record files { runtime = none } else files
