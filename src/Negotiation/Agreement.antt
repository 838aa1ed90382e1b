-- ===== src/Negotiation/Agreement.antt =====
-- src/negotiation.rs: what the server negotiates, as the client and the worker check it.
use mathlib.Core.List.{append_assoc, append-nil}
use astra_shell.Prelude.{
  suc, ℕ, ◌≤◌, ◌<◌, ◌≡◌, refl, sym, ap, subst, ◌∙◌, String, true, false, arith, List, [], ◌∷◌, ◌++◌,
  length, map, ltb, leb, le→leb,
}
use astra_shell.Prelude.Result.{ok}
use astra_shell.Map.{Map}
use astra_shell.Map
use astra_shell.Map.Sorted.{IsSorted, insert_last}
use astra_shell.Map.Entries.{AllEntries, get-behind}
use astra_shell.Negotiation.Support.{
  CapabilityRange, ClientHello, ProtocolSupport, NegotiatedProtocol, max_capabilities,
}
use astra_shell.Negotiation.Checks.{in_range, validate_capability_dependencies}
use astra_shell.Negotiation.Negotiate.{
  select_all, negotiate_client_hello, selection_of, selections, ranges_by_name,
  check_server_selected, check_worker_selected, validate_server_hello, validate_worker_selection,
}
use astra_shell.Negotiation.Entries.{IsSelected}
use astra_shell.Negotiation.Dependencies.{drop_unmet-dependencies}
use astra_shell.Negotiation.Outcome.{
  Negotiated, negotiate-Negotiated, Negotiated-IsSelection, Negotiated-bounded,
}

lt→ltb : (a b : ℕ) → a < b → ltb a b ≡ true
lt→ltb a b h = ground arith

contains-behind :
    (k : String) (v : ℕ) (acc rest : Map ℕ)
    → IsSorted (acc ++ (k, v) ∷ rest)
    → Map.contains_key k acc ≡ false
unfolding Map.contains_key
contains-behind k v acc rest s = rw (get-behind k v acc rest s)

module _ (offers : Map (ℕ × ℕ)) (all : Map CapabilityRange) where
  -- One round of each loop, at an entry that was selected.
  server_round :
      (k : String) (v : ℕ) (acc rest : Map ℕ)
      → IsSorted (acc ++ (k, v) ∷ rest)
      → IsSelected offers all k v
      → check_server_selected offers (map selection_of ((k, v) ∷ rest)) acc
        ≡ check_server_selected offers (map selection_of rest) (acc ++ (k, v) ∷ [])
  unfolding check_server_selected
  server_round k v acc rest s i = simp (
    i.name,
    lt→ltb 0 v i.positive,
    i.offered,
    i.in_offer,
    contains-behind k v acc rest s,
    insert_last k v acc rest s,
  )

  worker_round :
      (k : String) (v : ℕ) (acc rest : Map ℕ)
      → IsSorted (acc ++ (k, v) ∷ rest)
      → IsSelected offers all k v
      → check_worker_selected all (map selection_of ((k, v) ∷ rest)) acc
        ≡ check_worker_selected all (map selection_of rest) (acc ++ (k, v) ∷ [])
  unfolding check_worker_selected
  worker_round k v acc rest s i = simp (
    i.name,
    i.supported,
    i.in_support,
    contains-behind k v acc rest s,
    insert_last k v acc rest s,
  )

  check_server-entries :
      (acc rest : Map ℕ)
      → IsSorted (acc ++ rest)
      → AllEntries (IsSelected offers all) rest
      → check_server_selected offers (map selection_of rest) acc ≡ ok (acc ++ rest)
  check_server-entries acc [] s a = unfold check_server_selected in ap ok (sym (append-nil acc))
  check_server-entries acc ((k, v) ∷ rest) s (i, a) =
      let e = append_assoc acc ((k, v) ∷ []) rest in
      server_round k v acc rest s i
      ∙ check_server-entries (acc ++ (k, v) ∷ []) rest (subst IsSorted (sym e) s) a
      ∙ ap ok e

  check_worker-entries :
      (acc rest : Map ℕ)
      → IsSorted (acc ++ rest)
      → AllEntries (IsSelected offers all) rest
      → check_worker_selected all (map selection_of rest) acc ≡ ok (acc ++ rest)
  check_worker-entries acc [] s a = unfold check_worker_selected in ap ok (sym (append-nil acc))
  check_worker-entries acc ((k, v) ∷ rest) s (i, a) =
      let e = append_assoc acc ((k, v) ∷ []) rest in
      worker_round k v acc rest s i
      ∙ check_worker-entries (acc ++ (k, v) ∷ []) rest (subst IsSorted (sym e) s) a
      ∙ ap ok e

length-selections : (m : Map ℕ) → length (map selection_of m) ≡ length m
length-selections [] = refl
length-selections ((k, v) ∷ m) = ap suc (length-selections m)

in_range_of : (low high v : ℕ) → low ≤ v → v ≤ high → in_range low high v ≡ true
in_range_of low high v h k = ground arith

module _ (hello : ClientHello) (server : ProtocolSupport) (n : NegotiatedProtocol)
    (d : Negotiated hello server n) where
  few : leb (length (selections n)) max_capabilities ≡ true
  unfolding selections
  few =
      le→leb (length (selections n)) max_capabilities
        (omega (arith, Negotiated-bounded hello server n d, length-selections n.capabilities))

  dependencies : validate_capability_dependencies n.capabilities ≡ ok tt
  dependencies =
      rw d.capabilities (drop_unmet-dependencies (select_all d.offers server.capabilities []))

  client_version : in_range d.low d.high n.version ≡ true
  client_version =
      in_range_of d.low d.high n.version (omega (arith, d.overlap, d.version))
        (omega (arith, d.version))

  server_version : in_range server.minimum_version server.maximum_version n.version ≡ true
  server_version =
      in_range_of server.minimum_version server.maximum_version n.version
        (omega (arith, d.overlap, d.version)) (omega (arith, d.version))

  client_reads :
      (challenge : List ℕ) (instance_name : String)
      → validate_server_hello hello (record {
        protocol_version = n.version;
        challenge = challenge;
        server_instance = instance_name;
        capabilities = selections n;
      })
        ≡ ok n
  unfolding validate_server_hello selections
  client_reads challenge instance_name =
      let i = Negotiated-IsSelection hello server n d in
      simp (
        d.range,
        client_version,
        d.offered,
        few,
        check_server-entries d.offers (ranges_by_name [] server.capabilities) [] n.capabilities
            i.sorted i.selected,
        dependencies,
      )

  worker_reads : validate_worker_selection n.version (selections n) server ≡ ok n
  unfolding validate_worker_selection selections
  worker_reads =
      let i = Negotiated-IsSelection hello server n d in
      simp (
        d.valid,
        server_version,
        few,
        check_worker-entries d.offers (ranges_by_name [] server.capabilities) [] n.capabilities
            i.sorted i.selected,
        dependencies,
      )

-- The client that sent the hello accepts the server's answer, whatever challenge and instance name
-- it carries, and reads from it exactly the protocol that the server negotiated.
pub negotiate-validate_server_hello :
    (hello : ClientHello) (server : ProtocolSupport) (n : NegotiatedProtocol) (challenge : List ℕ)
    (instance_name : String)
    → negotiate_client_hello hello server ≡ ok n
    → validate_server_hello hello (record {
      protocol_version = n.version;
      challenge = challenge;
      server_instance = instance_name;
      capabilities = selections n;
    })
      ≡ ok n
negotiate-validate_server_hello hello server n challenge instance_name h =
    client_reads hello server n (negotiate-Negotiated hello server n h) challenge instance_name

-- A worker with the same table of support accepts the gateway's selection, and reads from it exactly
-- the protocol that the gateway negotiated.
pub negotiate-validate_worker_selection :
    (hello : ClientHello) (server : ProtocolSupport) (n : NegotiatedProtocol)
    → negotiate_client_hello hello server ≡ ok n
    → validate_worker_selection n.version (selections n) server ≡ ok n
negotiate-validate_worker_selection hello server n h =
    worker_reads hello server n (negotiate-Negotiated hello server n h)
