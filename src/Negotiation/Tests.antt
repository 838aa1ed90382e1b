-- ===== src/Negotiation/Tests.antt =====
-- Runs of the negotiation, and its theorems at real hellos.
use astra_shell.Prelude.{ℕ, ◌≡◌, refl, [], ◌∷◌, some}
use astra_shell.Prelude.Result.{ok, err}
use astra_shell.Map.{Map}
use astra_shell.Map
use astra_shell.Negotiation.Support.{NegotiatedProtocol, ClientHello, CapabilityRange, runtime}
use astra_shell.Negotiation.Checks.{
  ranges_do_not_overlap, hint_outside_range, hello_version_range, validate_support, validate_offers,
  collect_offers, validate_ranges, validate_capability_name, validate_capability_dependencies,
}
use astra_shell.Negotiation.Negotiate.{
  negotiate_client_hello, select_all, drop_unmet, drop_if, drop_without, ranges_by_name, selections,
  validate_server_hello, validate_worker_selection,
}
use astra_shell.Negotiation.Dependencies.{drop_unmet-dependencies}
use astra_shell.Negotiation.Agreement.{
  negotiate-validate_server_hello, negotiate-validate_worker_selection,
}
use astra_shell.Negotiation.Greatest.{IsGreatestCommon, negotiate-capability}

-- The hello of the command-line client, with an offer of clipboard writes and no semantic state.
abbrev hello : ClientHello
hello = record {
  protocol_version = 1;
  username = "mimi";
  minimum_protocol_version = 1;
  maximum_protocol_version = 2;
  capabilities =
      record { name = "transport.stream_channels"; minimum_version = 1; maximum_version = 3 }
      ∷ record { name = "terminal.clipboard_write"; minimum_version = 1; maximum_version = 1 }
      ∷ record { name = "forward.tcp"; minimum_version = 1; maximum_version = 1 }
      ∷ [];
}

abbrev agreed : NegotiatedProtocol
agreed = record {
  version = 2;
  capabilities = ("forward.tcp", 1) ∷ ("transport.stream_channels", 1) ∷ [];
}

negotiates : negotiate_client_hello hello runtime ≡ ok agreed
unfolding negotiate_client_hello validate_support validate_ranges validate_capability_name
    hello_version_range validate_offers collect_offers select_all drop_unmet drop_if drop_without
    Map.get Map.contains_key Map.insert Map.remove
negotiates = refl

no_overlap :
    negotiate_client_hello
      (record hello {
        minimum_protocol_version = 3;
        maximum_protocol_version = 4;
        protocol_version = 3;
      })
      runtime
    ≡ err ranges_do_not_overlap
unfolding negotiate_client_hello validate_support validate_ranges validate_capability_name
    hello_version_range Map.get Map.contains_key Map.insert
no_overlap = refl

-- The hint of a new client is outside a range that leaves version 1 behind.
bad_hint :
    hello_version_range (record hello { minimum_protocol_version = 2 }) ≡ err hint_outside_range
unfolding hello_version_range
bad_hint = refl

answers :
    validate_server_hello hello (record {
      protocol_version = 2;
      challenge = 7 ∷ 9 ∷ [];
      server_instance = "unit";
      capabilities = selections agreed;
    })
    ≡ ok agreed
answers = negotiate-validate_server_hello hello runtime agreed (7 ∷ 9 ∷ []) "unit" negotiates

worker_answers : validate_worker_selection 2 (selections agreed) runtime ≡ ok agreed
worker_answers = negotiate-validate_worker_selection hello runtime agreed negotiates

dependencies_example :
    validate_capability_dependencies
      (drop_unmet (("terminal.clipboard_write", 1) ∷ ("terminal.state_ack", 1) ∷ []))
    ≡ ok tt
dependencies_example =
    drop_unmet-dependencies (("terminal.clipboard_write", 1) ∷ ("terminal.state_ack", 1) ∷ [])

capability_example :
    (offers : Map (ℕ × ℕ)) × (low : ℕ) × (high : ℕ) × (range : CapabilityRange) × (validate_offers
        hello.capabilities
      ≡ ok offers)
    × (Map.get "forward.tcp" offers ≡ some (low, high))
    × (Map.get "forward.tcp" (ranges_by_name [] runtime.capabilities) ≡ some range)
    × IsGreatestCommon 1 low high range.minimum_version range.maximum_version
unfolding Map.get
capability_example = negotiate-capability hello runtime agreed "forward.tcp" 1 negotiates refl
