-- ===== src/Server/Protocol.antt =====
-- src/ipc/protocol.rs: what the client and the server exchange.
use secretd.Prelude.{ℕ, Bool, Option, List}
use secretd.Prelude.Text.{Text}

pub record EndpointFile : Type 0 where
  pub version : ℕ
  pub host : Text
  pub port : ℕ
  pub token : Text

pub record ClientRequest : Type 0 where
  pub version : ℕ
  pub token : Text
  pub action : Text
  pub secret : Option Text
  pub profile : Option Text
  pub pid : ℕ

pub record ClientResponse : Type 0 where
  pub ok : Bool
  pub value : Option Text
  pub error : Option Text

-- The crate serde_json on the three types.
pub record Json : Type 0 where
  pub endpoint_bytes : EndpointFile → Option (List ℕ)
  pub read_endpoint : List ℕ → Option EndpointFile
  pub request_bytes : ClientRequest → Option (List ℕ)
  pub read_request : List ℕ → Option ClientRequest
  pub response_bytes : ClientResponse → Option (List ℕ)
  pub read_response : List ℕ → Option ClientResponse
