-- ===== src/Process/Connection.antt =====
-- src/process.rs: `verify_connection_tuple` of Linux, over /proc/net/tcp and /proc/<pid>/fd.
use secretd.Prelude.{
  ℕ, ◌+◌, ◌-◌, ◌/◌, ◌%◌, Bool, false, ◌&&◌, Option, none, some, List, [], ◌∷◌, ◌++◌, ltb,
  if◌then◌else◌, any, drop,
}
use secretd.Prelude.Text.{Text, codes, same_text, split_whitespace, split}

hex_digit : ℕ → ℕ
hex_digit n = if ltb n 10 then b'0' + n else b'A' + n - 10

-- `{:04X}` of a 16-bit port
unfoldable pub port_hex : ℕ → Text
unfolding hex_digit
port_hex port =
    hex_digit (port / 4096 % 16)
    ∷ hex_digit (port / 256 % 16)
    ∷ hex_digit (port / 16 % 16)
    ∷ hex_digit (port % 16)
    ∷ []

-- What the two reads of the connection table and of the file descriptors give.
pub record SocketTable : Type 0 where
  pub tcp : Option Text
  pub descriptors : ℕ → Option (List Text)

-- a row's inode, if the row is the established connection
unfoldable pub row_inode : Text → Text → List Text → Option Text
row_inode local remote fields = elim (drop 9 fields) [
  | [] ↦ none
  | inode ∷ _ ↦ elim fields [
    | _ ∷ address ∷ peer ∷ state ∷ _ ↦
        if same_text address local && same_text peer remote && same_text state (codes "01")
        then some inode
        else none
    | _ ↦ none
  ]
]

unfoldable pub find_inode : Text → Text → List Text → Option Text
find_inode local remote [] = none
find_inode local remote (line ∷ lines) = elim (row_inode local remote (split_whitespace line)) [
  | some inode ↦ some inode
  | none ↦ find_inode local remote lines
]

-- `any` over the links of the descriptors
owns_socket : Option (List Text) → Text → Bool
owns_socket none inode = false
owns_socket (some links) inode =
    any (λ target. same_text target (codes "socket:[" ++ inode ++ codes "]")) links

unfoldable pub verify_connection_tuple : SocketTable → ℕ → ℕ → ℕ → Bool
unfolding owns_socket
verify_connection_tuple table pid client_port server_port = elim table.tcp [
  | none ↦ false
  | some rows ↦
      elim (find_inode (codes "0100007F:" ++ port_hex client_port)
        (codes "0100007F:" ++ port_hex server_port) (drop 1 (split 10 rows))) [
          | none ↦ false
          | some inode ↦ owns_socket (table.descriptors pid) inode
        ]
]

-- The ports of the two ends of the stream, where they are known.
unfoldable pub verify_connection_owner : SocketTable → ℕ → Option ℕ → Option ℕ → Bool
unfolding verify_connection_tuple
verify_connection_owner table pid (some local) (some peer) =
    verify_connection_tuple table pid peer local
verify_connection_owner table pid _ _ = false
