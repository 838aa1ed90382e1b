-- ===== src/Negotiation/Outcome.antt =====
-- src/negotiation.rs: what a successful `negotiate_client_hello` has checked and returns.
use astra_shell.Prelude.{Bool, ℕ, ◌≤◌, ◌≡◌, sym, ap, true, arith, [], length, min, max, leb, leb→le}
use astra_shell.Prelude.Result.{Result, ok, chain_parts, ensure}
use astra_shell.Map.{Map}
use astra_shell.Negotiation.Support.{
  ClientHello, ProtocolSupport, NegotiatedProtocol, max_capabilities,
}
use astra_shell.Negotiation.Checks.{
  NegotiationError, ranges_do_not_overlap, hello_version_range, validate_support, validate_ranges,
  validate_offers,
}
use astra_shell.Negotiation.Negotiate.{select_all, drop_unmet, negotiate_client_hello}
use astra_shell.Negotiation.Entries.{IsSelection, negotiated-IsSelection}

pub record Negotiated (hello : ClientHello) (server : ProtocolSupport) (n : NegotiatedProtocol)
    : Type 0 where
  pub valid : validate_support server ≡ ok tt
  pub low : ℕ
  pub high : ℕ
  pub range : hello_version_range hello ≡ ok (low, high)
  pub overlap : max low server.minimum_version ≤ min high server.maximum_version
  pub offers : Map (ℕ × ℕ)
  pub offered : validate_offers hello.capabilities ≡ ok offers
  pub version : n.version ≡ min high server.maximum_version
  pub capabilities : n.capabilities ≡ drop_unmet (select_all offers server.capabilities [])

ok-injective :
    {p q : NegotiatedProtocol}
    → ◌≡◌ {A = Result NegotiationError NegotiatedProtocol} (ok p) (ok q)
    → p ≡ q
ok-injective e = cc

ensure_ok : {E : Type 0} (b : Bool) (e : E) (u : Unit {0}) → ensure b e ≡ ok u → b ≡ true
ensure_ok b e u h = ground arith

pub negotiate-Negotiated :
    (hello : ClientHello) (server : ProtocolSupport) (n : NegotiatedProtocol)
    → negotiate_client_hello hello server ≡ ok n
    → Negotiated hello server n
unfolding negotiate_client_hello
negotiate-Negotiated hello server n h =
    let (u, valid, h1) = chain_parts (validate_support server) _ h in
    let (r, range, h2) = chain_parts (hello_version_range hello) _ h1 in
    let test : Bool = leb (max r.0 server.minimum_version) (min r.1 server.maximum_version) in
    let (w, fits, h3) = chain_parts (ensure test ranges_do_not_overlap) _ h2 in
    let (offers, offered, h4) = chain_parts (validate_offers hello.capabilities) _ h3 in
    record {
      valid = valid;
      low = r.0;
      high = r.1;
      range = range;
      overlap =
          leb→le (max r.0 server.minimum_version) (min r.1 server.maximum_version)
            (ensure_ok test ranges_do_not_overlap w fits);
      offers = offers;
      offered = offered;
      version = sym (ap (λ (p : NegotiatedProtocol). p.version) (ok-injective h4));
      capabilities = sym (ap (λ (p : NegotiatedProtocol). p.capabilities) (ok-injective h4));
    }

support_ok :
    (s : ProtocolSupport)
    → validate_support s ≡ ok tt
    → (length s.capabilities ≤ max_capabilities) × (validate_ranges [] s.capabilities ≡ ok tt)
unfolding validate_support
support_ok s h = ground arith

module _ (hello : ClientHello) (server : ProtocolSupport) (n : NegotiatedProtocol)
    (d : Negotiated hello server n) where
  pub Negotiated-IsSelection : IsSelection d.offers server.capabilities n.capabilities
  Negotiated-IsSelection =
      rw d.capabilities
        (negotiated-IsSelection d.offers server.capabilities (support_ok server d.valid).1)

  pub Negotiated-bounded : length n.capabilities ≤ max_capabilities
  Negotiated-bounded =
      omega (arith, IsSelection.bounded Negotiated-IsSelection, support_ok server d.valid)
