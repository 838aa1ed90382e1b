-- ===== src/Negotiation/Dependencies.antt =====
-- src/negotiation.rs: the dependencies of the capabilities that are selected.
use astra_shell.Prelude.{
  ℕ, String, ◌≡◌, Bool, true, not, ◌&&◌, ◌||◌, if◌then◌else◌, str_eq, str_eq_iff, arith, none,
}
use astra_shell.Prelude.Result.{ok}
use astra_shell.Map.{Map}
use astra_shell.Map
use astra_shell.Map.Laws.{get-remove}
use astra_shell.Negotiation.Support.{
  capability_tcp_forward, capability_stream_channels, capability_clipboard_write,
  capability_history_paging, capability_state_ack, capability_semantic_diff,
  capability_datagram_state, capability_session_objects, capability_input_lease,
  capability_input_resume,
}
use astra_shell.Negotiation.Checks.{semantic_v2, validate_capability_dependencies}
use astra_shell.Negotiation.Negotiate.{drop_if, drop_without, drop_unmet}

pub get-drop_if :
    (k j : String) (unmet : Bool) (m : Map ℕ)
    → Map.get j (drop_if k unmet m) ≡ (if str_eq k j && unmet then none else Map.get j m)
unfolding drop_if Map.contains_key
get-drop_if k j unmet m = ground (arith, get-remove k j m, str_eq_iff k j)

pub get-drop_without :
    (needed k j : String) (m : Map ℕ)
    → Map.get j (drop_without needed k m)
      ≡ (if str_eq k j && not (Map.contains_key needed m) then none else Map.get j m)
unfolding drop_without
get-drop_without needed k j m = ground (arith, get-remove k j m)

pub ruleset drop_laws = (get-drop_if, get-drop_without)

-- One dependency at a time.
module _ (m : Map ℕ) where
  abbrev d : Map ℕ
  d = drop_unmet m

  forward_met :
      (not (Map.contains_key capability_tcp_forward d)
        || Map.contains_key capability_stream_channels d)
      ≡ true
  unfolding drop_unmet Map.contains_key
  forward_met = simp drop_laws (ground arith)

  clipboard_met : (not (Map.contains_key capability_clipboard_write d) || semantic_v2 d) ≡ true
  unfolding drop_unmet Map.contains_key
  clipboard_met = simp drop_laws (ground arith)

  paging_met : (not (Map.contains_key capability_history_paging d) || semantic_v2 d) ≡ true
  unfolding drop_unmet Map.contains_key
  paging_met = simp drop_laws (ground arith)

  ack_met : (not (Map.contains_key capability_state_ack d) || semantic_v2 d) ≡ true
  unfolding drop_unmet Map.contains_key
  ack_met = simp drop_laws (ground arith)

  diff_met :
      (not (Map.contains_key capability_semantic_diff d)
        || (Map.contains_key capability_state_ack d && semantic_v2 d))
      ≡ true
  unfolding drop_unmet Map.contains_key
  diff_met = simp drop_laws (ground arith)

  datagram_met :
      (not (Map.contains_key capability_datagram_state d)
        || (Map.contains_key capability_state_ack d
            && Map.contains_key capability_session_objects d
            && semantic_v2 d))
      ≡ true
  unfolding drop_unmet Map.contains_key
  datagram_met = simp drop_laws (ground arith)

  lease_met :
      (not (Map.contains_key capability_input_lease d)
        || Map.contains_key capability_session_objects d)
      ≡ true
  unfolding drop_unmet Map.contains_key
  lease_met = simp drop_laws (ground arith)

  resume_met :
      (not (Map.contains_key capability_input_resume d)
        || Map.contains_key capability_input_lease d)
      ≡ true
  unfolding drop_unmet Map.contains_key
  resume_met = simp drop_laws (ground arith)

-- What the removals leave meets every dependency that the client and the worker check.
pub drop_unmet-dependencies : (m : Map ℕ) → validate_capability_dependencies (drop_unmet m) ≡ ok tt
unfolding validate_capability_dependencies
drop_unmet-dependencies m = simp (
  forward_met m,
  clipboard_met m,
  paging_met m,
  ack_met m,
  diff_met m,
  datagram_met m,
  lease_met m,
  resume_met m,
)
