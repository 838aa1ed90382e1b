-- ===== src/Negotiation/Support.antt =====
-- src/negotiation.rs: the capabilities, the tables of support and the hello of a client; the
-- messages are those of src/protocol.rs.
use astra_shell.Prelude.{ℕ, String, List, [], ◌∷◌, map, Bool, false, leb, Option, none, some}
use astra_shell.Map.{Map}
use astra_shell.Map

abbrev pub legacy_client_hello_version : ℕ
legacy_client_hello_version = 1

abbrev pub minimum_protocol_version : ℕ
minimum_protocol_version = 1

abbrev pub protocol_version : ℕ
protocol_version = 2

abbrev pub max_capabilities : ℕ
max_capabilities = 64

abbrev pub max_capability_name_bytes : ℕ
max_capability_name_bytes = 64

abbrev pub capability_legacy_ansi_snapshot : String
capability_legacy_ansi_snapshot = "terminal.legacy_ansi_snapshot"

abbrev pub capability_semantic_state : String
capability_semantic_state = "terminal.semantic_state"

abbrev pub capability_history_paging : String
capability_history_paging = "terminal.history_paging"

abbrev pub capability_datagram_state : String
capability_datagram_state = "terminal.datagram_state"

abbrev pub capability_state_ack : String
capability_state_ack = "terminal.state_ack"

abbrev pub capability_semantic_diff : String
capability_semantic_diff = "terminal.semantic_diff"

abbrev pub capability_clipboard_write : String
capability_clipboard_write = "terminal.clipboard_write"

abbrev pub capability_session_objects : String
capability_session_objects = "session.objects"

abbrev pub capability_input_resume : String
capability_input_resume = "terminal.input_resume"

abbrev pub capability_input_lease : String
capability_input_lease = "terminal.input_lease"

abbrev pub capability_payload_zstd : String
capability_payload_zstd = "payload.zstd"

abbrev pub capability_tcp_forward : String
capability_tcp_forward = "forward.tcp"

abbrev pub capability_stream_channels : String
capability_stream_channels = "transport.stream_channels"

pub record CapabilityRange : Type 0 where
  pub name : String
  pub minimum_version : ℕ
  pub maximum_version : ℕ

abbrev range : String → ℕ → ℕ → CapabilityRange
range name lo hi = record { name = name; minimum_version = lo; maximum_version = hi }

pub record ProtocolSupport : Type 0 where
  pub minimum_version : ℕ
  pub maximum_version : ℕ
  pub capabilities : List CapabilityRange

-- `ProtocolSupport::runtime` and `rust_semantic_client`.
abbrev pub runtime : ProtocolSupport
runtime = record {
  minimum_version = minimum_protocol_version;
  maximum_version = protocol_version;
  capabilities =
      range capability_tcp_forward 1 1
      ∷ range capability_stream_channels 1 1
      ∷ range capability_payload_zstd 1 1
      ∷ range capability_legacy_ansi_snapshot 1 1
      ∷ range capability_semantic_state 2 2
      ∷ range capability_history_paging 1 1
      ∷ range capability_state_ack 1 1
      ∷ range capability_semantic_diff 1 1
      ∷ range capability_datagram_state 2 2
      ∷ range capability_clipboard_write 1 1
      ∷ range capability_session_objects 1 1
      ∷ range capability_input_resume 2 2
      ∷ range capability_input_lease 1 1
      ∷ [];
}

abbrev pub command_line_client : ProtocolSupport
command_line_client = record {
  minimum_version = minimum_protocol_version;
  maximum_version = protocol_version;
  capabilities =
      range capability_tcp_forward 1 1
      ∷ range capability_stream_channels 1 1
      ∷ range capability_legacy_ansi_snapshot 1 1
      ∷ range capability_payload_zstd 1 1
      ∷ [];
}

pub record CapabilityOffer : Type 0 where
  pub name : String
  pub minimum_version : ℕ
  pub maximum_version : ℕ

pub record CapabilitySelection : Type 0 where
  pub name : String
  pub version : ℕ

pub record ClientHello : Type 0 where
  pub protocol_version : ℕ
  pub username : String
  pub minimum_protocol_version : ℕ
  pub maximum_protocol_version : ℕ
  pub capabilities : List CapabilityOffer

pub record ServerHello : Type 0 where
  pub protocol_version : ℕ
  pub challenge : List ℕ
  pub server_instance : String
  pub capabilities : List CapabilitySelection

pub record NegotiatedProtocol : Type 0 where
  pub version : ℕ
  pub capabilities : Map ℕ

abbrev at_least : ℕ → Option ℕ → Bool
at_least minimum none = false
at_least minimum (some version) = leb minimum version

-- `NegotiatedProtocol::has`.
unfoldable pub has : NegotiatedProtocol → String → ℕ → Bool
has n name minimum_version = at_least minimum_version (Map.get name n.capabilities)

abbrev offer_of : CapabilityRange → CapabilityOffer
offer_of c = record {
  name = c.name;
  minimum_version = c.minimum_version;
  maximum_version = c.maximum_version;
}

unfoldable pub client_hello : String → ProtocolSupport → ClientHello
client_hello username support = record {
  protocol_version = legacy_client_hello_version;
  username = username;
  minimum_protocol_version = support.minimum_version;
  maximum_protocol_version = support.maximum_version;
  capabilities = map offer_of support.capabilities;
}
