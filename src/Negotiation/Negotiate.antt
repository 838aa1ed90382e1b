-- ===== src/Negotiation/Negotiate.antt =====
-- src/negotiation.rs: the selection by the server, and the checks of it by the client and the worker.
use astra_shell.Prelude.{
  ℕ, String, List, [], ◌∷◌, Bool, not, ◌&&◌, ◌||◌, ltb, leb, if◌then◌else◌, Option, none, some,
  length, map, min, max,
}
use astra_shell.Prelude.Result.{Result, ok, ◌>>=◌, ◌>>◌, ensure, ok_or}
use astra_shell.Map.{Map}
use astra_shell.Map
use astra_shell.Negotiation.Support.{
  CapabilityRange, CapabilitySelection, ClientHello, ServerHello, ProtocolSupport,
  NegotiatedProtocol, max_capabilities, capability_history_paging, capability_datagram_state,
  capability_state_ack, capability_semantic_diff, capability_clipboard_write,
  capability_session_objects, capability_input_resume, capability_input_lease,
  capability_tcp_forward, capability_stream_channels,
}
use astra_shell.Negotiation.Checks.{
  NegotiationError, ranges_do_not_overlap, worker_version_unsupported, worker_selected_too_many,
  worker_selected_unknown, worker_capability_version_unsupported, worker_selected_twice,
  server_version_outside_range, server_selected_too_many, selected_version_zero,
  server_selected_unoffered, server_version_unsupported, server_selected_twice, in_range,
  hello_version_range, validate_capability_name, validate_support, validate_offers, semantic_v2,
  validate_capability_dependencies,
}

-- What one round of the loop of `negotiate_client_hello` adds.
unfoldable pub select_one : CapabilityRange → Option (ℕ × ℕ) → Map ℕ → Map ℕ
select_one supported none m = m
select_one supported (some (low, high)) m =
    if leb (max low supported.minimum_version) (min high supported.maximum_version)
    then Map.insert supported.name (min high supported.maximum_version) m
    else m

unfoldable pub select_all : Map (ℕ × ℕ) → List CapabilityRange → Map ℕ → Map ℕ
unfolding select_one
select_all offers [] m = m
select_all offers (c ∷ rest) m = select_all offers rest (select_one c (Map.get c.name offers) m)

-- `if capabilities.contains_key(name) && unmet { capabilities.remove(name); }`.
unfoldable pub drop_if : String → Bool → Map ℕ → Map ℕ
drop_if name unmet m = if Map.contains_key name m && unmet then Map.remove name m else m

-- `if !capabilities.contains_key(needed) { capabilities.remove(name); }`.
unfoldable pub drop_without : String → String → Map ℕ → Map ℕ
drop_without needed name m = if not (Map.contains_key needed m) then Map.remove name m else m

-- The removals at the end of `negotiate_client_hello`, in the order of the source.
unfoldable pub drop_unmet : Map ℕ → Map ℕ
drop_unmet m =
    let m1 : Map ℕ = drop_if capability_clipboard_write (not (semantic_v2 m)) m in
    let m2 : Map ℕ = drop_if capability_history_paging (not (semantic_v2 m1)) m1 in
    let m3 : Map ℕ = drop_if capability_state_ack (not (semantic_v2 m2)) m2 in
    let m4 : Map ℕ =
      drop_if capability_semantic_diff
        (not (Map.contains_key capability_state_ack m3) || not (semantic_v2 m3)) m3 in
    let m5 : Map ℕ =
      drop_if capability_datagram_state
        (not (Map.contains_key capability_state_ack m4)
          || not (Map.contains_key capability_session_objects m4)
          || not (semantic_v2 m4))
        m4 in
    let m6 : Map ℕ =
      drop_if capability_input_lease (not (Map.contains_key capability_session_objects m5)) m5 in
    let m7 : Map ℕ = drop_without capability_input_lease capability_input_resume m6 in
    drop_without capability_stream_channels capability_tcp_forward m7

unfoldable pub negotiate_client_hello :
    ClientHello → ProtocolSupport → Result NegotiationError NegotiatedProtocol
negotiate_client_hello hello server = do
  validate_support server
  (client_minimum, client_maximum) ← hello_version_range hello
  ensure
      (leb (max client_minimum server.minimum_version) (min client_maximum server.maximum_version))
      ranges_do_not_overlap
  offers ← validate_offers hello.capabilities
  ok (record {
    version = min client_maximum server.maximum_version;
    capabilities = drop_unmet (select_all offers server.capabilities []);
  })

abbrev pub selection_of : String × ℕ → CapabilitySelection
selection_of (name, version) = record { name = name; version = version }

unfoldable pub selections : NegotiatedProtocol → List CapabilitySelection
selections n = map selection_of n.capabilities

-- The map of the supported ranges by name, of `validate_worker_selection`.
unfoldable pub ranges_by_name : Map CapabilityRange → List CapabilityRange → Map CapabilityRange
ranges_by_name m [] = m
ranges_by_name m (c ∷ rest) = ranges_by_name (Map.insert c.name c m) rest

unfoldable pub check_worker_selected :
    Map CapabilityRange → List CapabilitySelection → Map ℕ → Result NegotiationError (Map ℕ)
check_worker_selected supported [] m = ok m
check_worker_selected supported (s ∷ rest) m = do
  validate_capability_name s.name
  capability ← ok_or (Map.get s.name supported) worker_selected_unknown
  ensure (in_range capability.minimum_version capability.maximum_version s.version)
      worker_capability_version_unsupported
  ensure (not (Map.contains_key s.name m)) worker_selected_twice
  check_worker_selected supported rest (Map.insert s.name s.version m)

unfoldable pub validate_worker_selection :
    ℕ → List CapabilitySelection → ProtocolSupport → Result NegotiationError NegotiatedProtocol
validate_worker_selection version selected support = do
  validate_support support
  ensure (in_range support.minimum_version support.maximum_version version)
      worker_version_unsupported
  ensure (leb (length selected) max_capabilities) worker_selected_too_many
  capabilities ← check_worker_selected (ranges_by_name [] support.capabilities) selected []
  validate_capability_dependencies capabilities
  ok (record { version = version; capabilities = capabilities })

unfoldable pub check_server_selected :
    Map (ℕ × ℕ) → List CapabilitySelection → Map ℕ → Result NegotiationError (Map ℕ)
check_server_selected offers [] m = ok m
check_server_selected offers (s ∷ rest) m = do
  validate_capability_name s.name
  ensure (ltb 0 s.version) selected_version_zero
  (low, high) ← ok_or (Map.get s.name offers) server_selected_unoffered
  ensure (in_range low high s.version) server_version_unsupported
  ensure (not (Map.contains_key s.name m)) server_selected_twice
  check_server_selected offers rest (Map.insert s.name s.version m)

unfoldable pub validate_server_hello :
    ClientHello → ServerHello → Result NegotiationError NegotiatedProtocol
validate_server_hello client server = do
  (minimum, maximum) ← hello_version_range client
  ensure (in_range minimum maximum server.protocol_version) server_version_outside_range
  offers ← validate_offers client.capabilities
  ensure (leb (length server.capabilities) max_capabilities) server_selected_too_many
  capabilities ← check_server_selected offers server.capabilities []
  validate_capability_dependencies capabilities
  ok (record { version = server.protocol_version; capabilities = capabilities })
