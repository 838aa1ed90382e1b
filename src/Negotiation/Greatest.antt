-- ===== src/Negotiation/Greatest.antt =====
-- src/negotiation.rs: the versions of the capabilities that are selected.
use astra_shell.Prelude.{ℕ, ◌≤◌, ◌≡◌, String, true, arith, [], some}
use astra_shell.Prelude.Result.{ok}
use astra_shell.Map.{Map}
use astra_shell.Map
use astra_shell.Map.Entries.{AllEntries-get}
use astra_shell.Negotiation.Support.{
  CapabilityRange, ClientHello, ProtocolSupport, NegotiatedProtocol,
}
use astra_shell.Negotiation.Checks.{in_range, hello_version_range, validate_offers}
use astra_shell.Negotiation.Negotiate.{negotiate_client_hello, ranges_by_name}
use astra_shell.Negotiation.Entries.{IsSelected}
use astra_shell.Negotiation.Outcome.{negotiate-Negotiated, Negotiated-IsSelection}

-- The number is in both ranges, and no greater number is.
pub record IsGreatestCommon (v low high low' high' : ℕ) : Type 0 where
  pub in_first : (low ≤ v) × (v ≤ high)
  pub in_second : (low' ≤ v) × (v ≤ high')
  pub greatest : (w : ℕ) → w ≤ high → w ≤ high' → w ≤ v

-- The version that is negotiated is the greatest in the client's range and the server's.
pub negotiate-version :
    (hello : ClientHello) (server : ProtocolSupport) (n : NegotiatedProtocol) (low high : ℕ)
    → negotiate_client_hello hello server ≡ ok n
    → hello_version_range hello ≡ ok (low, high)
    → IsGreatestCommon n.version low high server.minimum_version server.maximum_version
negotiate-version hello server n low high h e =
    let d = negotiate-Negotiated hello server n h in
    let same : (d.low ≡ low) × (d.high ≡ high) = ground (arith, d.range) in
    record {
      in_first = omega (arith, same, d.overlap, d.version);
      in_second = omega (arith, same, d.overlap, d.version);
      greatest = λ w a b. omega (arith, same, d.version);
    }

in_range_bounds : (low high v : ℕ) → in_range low high v ≡ true → (low ≤ v) × (v ≤ high)
in_range_bounds low high v h = ground arith

-- A capability that is negotiated was offered by the client and is supported by the server, under
-- that name, and its version is the greatest in both ranges.
pub negotiate-capability :
    (hello : ClientHello) (server : ProtocolSupport) (n : NegotiatedProtocol) (name : String)
    (v : ℕ)
    → negotiate_client_hello hello server ≡ ok n
    → Map.get name n.capabilities ≡ some v
    → (offers : Map (ℕ × ℕ)) × (low : ℕ) × (high : ℕ) × (range : CapabilityRange) × (validate_offers
          hello.capabilities
        ≡ ok offers)
      × (Map.get name offers ≡ some (low, high))
      × (Map.get name (ranges_by_name [] server.capabilities) ≡ some range)
      × IsGreatestCommon v low high range.minimum_version range.maximum_version
negotiate-capability hello server n name v h e =
    let d = negotiate-Negotiated hello server n h in
    let i = Negotiated-IsSelection hello server n d in
    let s =
      AllEntries-get (IsSelected d.offers (ranges_by_name [] server.capabilities)) name v
        n.capabilities i.selected e in
    (
      d.offers,
      s.low,
      s.high,
      s.range,
      d.offered,
      s.offered,
      s.supported,
      record {
        in_first = in_range_bounds s.low s.high v s.in_offer;
        in_second = in_range_bounds s.range.minimum_version s.range.maximum_version v s.in_support;
        greatest = λ w a b. omega (arith, s.greatest);
      },
    )
