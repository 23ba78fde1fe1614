-- ===== src/Server/EndpointLaws.antt =====
-- What a failed write of the runtime file leaves.
use secretd.Prelude.{
  ℕ, ◌≡◌, some, List, [], ◌∷◌, ◌++◌, ◌⊎◌, inl, inr, arith, Option-cases, false, Bool-cases,
}
use secretd.Prelude.Result.{ok, err, Result-cases, Failure, request_unencoded}
use secretd.Server.Endpoint.{write_endpoint, write_runtime, rename_over, tidy_runtime, RuntimeFiles}
use secretd.Server.Protocol.{Json, EndpointFile}
use secretd.Vault.{Host}

write_endpoint_tidy :
    (json : Json) (host : Host) (endpoint : EndpointFile) (files : RuntimeFiles)
    → (host.removable ≡ false)
      ⊎ ((write_endpoint json host endpoint files).1.temporary ≡ files.temporary)
unfolding write_endpoint write_runtime rename_over tidy_runtime
write_endpoint_tidy json host endpoint files = elim (Bool-cases host.removable) [
  | inl removable ↦ inr (ground arith)
  | inr stays ↦ inl stays
]

-- Writing the endpoint either makes the runtime file the JSON of the endpoint and a newline, and
-- leaves no new temporary file, or fails and leaves the runtime file as it was, and no new
-- temporary file unless the system does not let it be removed.
pub write_endpoint_atomic :
    (json : Json) (host : Host) (endpoint : EndpointFile) (files : RuntimeFiles)
    → ((bytes : List ℕ) × (json.endpoint_bytes endpoint ≡ some bytes)
        × (write_endpoint json host endpoint files
            ≡ (ok tt, record files { runtime = some (bytes ++ 10 ∷ []) })))
      ⊎ ((f : Failure) × ((write_endpoint json host endpoint files).0 ≡ err f)
          × ((write_endpoint json host endpoint files).1.runtime ≡ files.runtime)
          × ((host.removable ≡ false)
              ⊎ ((write_endpoint json host endpoint files).1.temporary ≡ files.temporary)))
unfolding write_endpoint write_runtime rename_over tidy_runtime
write_endpoint_atomic json host endpoint files =
    let tidy = write_endpoint_tidy json host endpoint files in
    elim (Result-cases host.parent) [
      | inr (f, a) ↦ inr (f, ground arith, ground arith, tidy)
      | inl (u, a) ↦ elim (Result-cases host.directory) [
        | inr (f, b) ↦ inr (f, ground arith, ground arith, tidy)
        | inl (v, b) ↦ elim (Result-cases host.opening) [
          | inr (f, c) ↦ inr (f, ground arith, ground arith, tidy)
          | inl (w, c) ↦ elim (Option-cases (json.endpoint_bytes endpoint)) [
            | inl d ↦ inr (request_unencoded, ground arith, ground arith, tidy)
            | inr (bytes, d) ↦ elim (Result-cases host.writing) [
              | inr (f, g) ↦ inr (f, ground arith, ground arith, tidy)
              | inl (x, g) ↦ elim (Result-cases host.renaming) [
                | inr (f, i) ↦ inr (f, ground arith, ground arith, tidy)
                | inl (y, i) ↦ inl (bytes, d, ground arith)
              ]
            ]
          ]
        ]
      ]
    ]
