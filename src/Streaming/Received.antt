-- ===== src/Streaming/Received.antt =====
-- src/terminal_streaming.rs: what a replica does with an update that the window has sent.
use astra_shell.Prelude.{
  ℕ, String, ◌≡◌, ◌≢◌, ◌<◌, refl, sym, subst, ap, ◌∙◌, inl, inr, List, [], Bool, true, false, not,
  ltb, ◌&&◌, Option, none, some, arith, if◌then◌else◌, str_eq, str_eq_iff,
}
use astra_shell.Prelude.Result.{ok, chain_parts, ensure}
use astra_shell.Prelude.Bytes.{bytes_eq, bytes_eq→eq}
use astra_shell.Terminal.State.{State}
use astra_shell.Terminal.Checks.{Libraries}
use astra_shell.Datagram.Message.{TerminalViewportDatagram, TerminalViewportRowPatch, Formats}
use astra_shell.Streaming.Errors.{route_empty, generation_invalid, no_primary, no_alternate}
use astra_shell.Streaming.Delta.{
  screen_patches, compact_diff, viewport_delta, compact_viewport_datagram,
  apply_compact_viewport_delta,
}
use astra_shell.Streaming.RoundTrip.{
  IsViewport, compact_viewport_datagram-apply_compact_viewport_delta,
}
use astra_shell.Streaming.Generations.{States, get}
use astra_shell.Streaming.Window.{
  StreamingUpdate, reliable_keyframe, datagram_delta, fragmented_delta,
}
use astra_shell.Streaming.Replica.{
  StreamingReplica, applied, stale, missing_base, Applying, has_by, differs_in_epoch, moved_to,
  apply_keyframe, apply_to_base, diff_checked, apply_datagram,
}
use astra_shell.Streaming.Network.{apply}
use astra_shell.Streaming.Stale.{
  Covers, IsLate, has_by-Covers, has_by-newer, differs_in_epoch-IsElsewhere, differs_in_epoch-here,
  in_time,
}
use astra_shell.Streaming.Kept.{IfSome, AllKept, get-AllKept, remember_retained-AllKept}
use astra_shell.Streaming.Sent.{IsSent}

-- A difference that was made, and the conditions under which it is made.
record Made (terminal_id attachment_id : String) (base target : State)
    (d : TerminalViewportDatagram) : Type 0 where
  has_terminal : terminal_id ≢ ""
  has_attachment : attachment_id ≢ ""
  same_epoch : base.epoch ≡ target.epoch
  newer : base.generation < target.generation
  ps : List TerminalViewportRowPatch
  qs : List TerminalViewportRowPatch
  is_made : viewport_delta terminal_id attachment_id base target ps qs ≡ d

compact_viewport_datagram-Made :
    (terminal_id attachment_id : String) (base target : State) (d : TerminalViewportDatagram)
    → compact_viewport_datagram terminal_id attachment_id base target ≡ ok d
    → Made terminal_id attachment_id base target d
unfolding compact_viewport_datagram
compact_viewport_datagram-Made terminal_id attachment_id base target d h =
    let (u, named, h1) =
      chain_parts
        (ensure (not (str_eq terminal_id "") && not (str_eq attachment_id "")) route_empty) _ h in
    let (v, later, h2) =
      chain_parts
        (ensure (bytes_eq base.epoch target.epoch && ltb base.generation target.generation)
          generation_invalid)
        _ h1 in
    let (ps, p_made, h3) =
      chain_parts (screen_patches base.primary target.primary no_primary) _ h2 in
    let (qs, q_made, h4) =
      chain_parts (screen_patches base.alternate target.alternate no_alternate) _ h3 in
    let epochs : bytes_eq base.epoch target.epoch ≡ true = ground arith in
    record {
      has_terminal = λ e. ground (arith, (str_eq_iff terminal_id "").1 e);
      has_attachment = λ e. ground (arith, (str_eq_iff attachment_id "").1 e);
      same_epoch = bytes_eq→eq base.epoch target.epoch epochs;
      newer = ground arith;
      ps = ps;
      qs = qs;
      is_made = cc;
    }

module _ (terminal_id attachment_id : String) where
  -- What an update comes to at a replica that shows `r.current`. A keyframe is shown unless the current
  -- state covers it, and then it is stale. A difference is stale if the current state is of another epoch
  -- than its target or covers it; else its target is shown if its base is retained, and else the base is
  -- reported as missing. What is stale or lacks its base changes nothing.
  pub data Received (r : StreamingReplica) : StreamingUpdate → Applying → Type 0 where
    shows_keyframe :
        (s : State) (r' : StreamingReplica)
        → ¬ Covers r.current s
        → r'.current ≡ some s
        → Received r (reliable_keyframe s) (ok applied, r')
    keyframe_is_stale :
        (s : State) → Covers r.current s → Received r (reliable_keyframe s) (ok stale, r)
    shows_target :
        (d : TerminalViewportDatagram) (base target : State) (r' : StreamingReplica)
        → compact_viewport_datagram terminal_id attachment_id base target ≡ ok d
        → ¬ IsLate r.current target
        → get base.generation r.retained ≡ some base
        → r'.current ≡ some target
        → Received r (datagram_delta d) (ok applied, r')
    delta_is_stale :
        (d : TerminalViewportDatagram) (base target : State)
        → compact_viewport_datagram terminal_id attachment_id base target ≡ ok d
        → IsLate r.current target
        → Received r (datagram_delta d) (ok stale, r)
    lacks_base :
        (d : TerminalViewportDatagram) (base target : State)
        → compact_viewport_datagram terminal_id attachment_id base target ≡ ok d
        → ¬ IsLate r.current target
        → get base.generation r.retained ≢ some base
        → Received r (datagram_delta d) (ok missing_base, r)

module _ (terminal_id attachment_id : String) (K : State → Type 0) where
  pub record IsReplica (r : StreamingReplica) : Type 0 where
    pub its_terminal : r.terminal_id ≡ terminal_id
    pub its_attachment : r.attachment_id ≡ attachment_id
    pub kept_current : IfSome K r.current
    pub kept_retained : AllKept K r.retained

  -- The outcome, with a replica that is kept.
  abbrev pub Takes : StreamingReplica → StreamingUpdate → Applying → Type 0
  Takes r u a = Received terminal_id attachment_id r u a × IsReplica a.1

  if_Takes :
      (b : Bool) (r : StreamingReplica) (u : StreamingUpdate) (x y : Applying)
      → (b ≡ true → Takes r u x)
      → (b ≡ false → Takes r u y)
      → Takes r u (if b then x else y)
  if_Takes true r u x y one other = one refl
  if_Takes false r u x y one other = other refl

  moved_to-IsReplica :
      (s : State) (pinned : ℕ) (retained : States) (r : StreamingReplica)
      → K s
      → AllKept K retained
      → IsReplica r
      → IsReplica (moved_to s pinned retained r)
  moved_to-IsReplica s pinned retained r k all inv = record {
    its_terminal = inv.its_terminal;
    its_attachment = inv.its_attachment;
    kept_current = k;
    kept_retained =
        remember_retained-AllKept K s (some pinned) r.retained_generations retained k all;
  }

  if_AllKept :
      (b : Bool) (states : States) → AllKept K states → AllKept K (if b then [] else states)
  if_AllKept true states all = tt
  if_AllKept false states all = all

  module _ (lib : Libraries) (valid : (s : State) → K s → IsViewport lib s) where
    apply_keyframe-Takes :
        (s : State) (r : StreamingReplica)
        → K s
        → IsReplica r
        → Takes r (reliable_keyframe s) (apply_keyframe lib s r)
    unfolding apply_keyframe
    apply_keyframe-Takes s r k inv = rw (valid s k) (
        if_Takes _ r _ (ok stale, r) _
          (λ covered. (keyframe_is_stale s (has_by-Covers r.current s covered), inv))
          (λ newer. (
            shows_keyframe s _ (has_by-newer r.current s newer) refl,
            moved_to-IsReplica s s.generation _ r k (if_AllKept _ r.retained inv.kept_retained) inv,
          )))

    module _
        (unique : (s t : State)
          → K s
          → K t
          → s.epoch ≡ t.epoch
          → s.generation ≡ t.generation
          → s ≡ t)
        (base target : State) (kept_base : K base) (kept_target : K target)
        (rows : target.rows ≡ base.rows) (cols : target.cols ≡ base.cols)
        (d : TerminalViewportDatagram)
        (made : compact_viewport_datagram terminal_id attachment_id base target ≡ ok d)
        (parts : Made terminal_id attachment_id base target d) where
      back : apply_compact_viewport_delta lib base d ≡ ok target
      back =
          let (d', made', there) =
            compact_viewport_datagram-apply_compact_viewport_delta lib base target
              (valid base kept_base) (valid target kept_target) parts.same_epoch parts.newer rows
              cols terminal_id attachment_id parts.has_terminal parts.has_attachment in
          let d'_d : d' ≡ d = cc in
          subst (λ x. apply_compact_viewport_delta lib base x ≡ ok target) d'_d there

      to_base :
          (r : StreamingReplica) (found : Option State)
          → IsReplica r
          → ¬ IsLate r.current target
          → get base.generation r.retained ≡ found
          → Takes r (datagram_delta d) (apply_to_base lib d (compact_diff base target) r found)
      to_base r none inv early h = (lacks_base d base target made early (λ e. cc), inv)
      to_base r (some b) inv early h =
          if_Takes (not (bytes_eq b.epoch target.epoch)) r _ (ok missing_base, r) _
            (λ differs. (
              lacks_base d base target made early (λ e.
                  let b_base : b ≡ base = cc in
                  differs_in_epoch-IsElsewhere (some b) target differs
                    (ap State.epoch b_base ∙ parts.same_epoch)),
              inv,
            ))
            (λ same.
              let (numbered, k) = get-AllKept K base.generation r.retained b inv.kept_retained h in
              let epochs : bytes_eq b.epoch target.epoch ≡ true = ground arith in
              let b_base : b ≡ base =
                unique b base k kept_base
                  (bytes_eq→eq b.epoch target.epoch epochs ∙ sym parts.same_epoch) numbered in
              let there : apply_compact_viewport_delta lib b d ≡ ok target = rw b_base back in
              rw (there, valid target kept_target)
                (
                  shows_target d base target _ made early (h ∙ ap some b_base) refl,
                  moved_to-IsReplica target base.generation r.retained r kept_target
                      inv.kept_retained inv,
                ))

      is_routed :
          (r : StreamingReplica)
          → IsReplica r
          → (str_eq d.terminal_id r.terminal_id && str_eq d.attachment_id r.attachment_id) ≡ true
      is_routed r inv =
          let terminals : d.terminal_id ≡ r.terminal_id =
            sym (ap TerminalViewportDatagram.terminal_id parts.is_made) ∙ sym inv.its_terminal in
          let attachments : d.attachment_id ≡ r.attachment_id =
            sym (ap TerminalViewportDatagram.attachment_id parts.is_made)
            ∙ sym inv.its_attachment in
          rw
            (
              (str_eq_iff d.terminal_id r.terminal_id).1 terminals,
              (str_eq_iff d.attachment_id r.attachment_id).1 attachments,
            )
            refl

      apply_datagram-Takes :
          (r : StreamingReplica) → IsReplica r → Takes r (datagram_delta d) (apply_datagram lib d r)
      unfolding apply_datagram
      apply_datagram-Takes r inv =
          let whole : d.fragment ≡ none =
            sym (ap TerminalViewportDatagram.fragment parts.is_made) in
          let its_diff : d.diff ≡ some (compact_diff base target) =
            sym (ap TerminalViewportDatagram.diff parts.is_made) in
          let late : IsLate r.current target → Takes r (datagram_delta d) (ok stale, r) =
            λ l. (delta_is_stale d base target made l, inv) in
          let checked : Takes r (datagram_delta d)
              (diff_checked lib d r (ok (compact_diff base target))) =
            if_Takes (differs_in_epoch target.epoch r.current) r _ (ok stale, r) _
              (λ differs. late (inl (differs_in_epoch-IsElsewhere r.current target differs)))
              (λ same.
                if_Takes (has_by target.epoch target.generation r.current) r _ (ok stale, r) _
                  (λ covered. late (inr (has_by-Covers r.current target covered)))
                  (λ newer.
                    to_base r (get base.generation r.retained) inv
                      (in_time r.current target (differs_in_epoch-here r.current target same)
                        (has_by-newer r.current target newer))
                      refl)) in
          simp (whole, is_routed r inv, its_diff) checked

    pub apply-Takes :
        (f : Formats)
        → ((s t : State) → K s → K t → s.epoch ≡ t.epoch → s.generation ≡ t.generation → s ≡ t)
        → (u : StreamingUpdate) (r : StreamingReplica) → IsSent terminal_id attachment_id K u
        → IsReplica r
        → Takes r u (apply lib f u r)
    unfolding apply
    apply-Takes f unique (reliable_keyframe s) r k inv = apply_keyframe-Takes s r k inv
    apply-Takes f unique (datagram_delta d) r k inv =
        apply_datagram-Takes unique k.base k.target k.kept_base k.kept_target k.rows k.cols d k.made
          (compact_viewport_datagram-Made terminal_id attachment_id k.base k.target d k.made) r inv
    apply-Takes f unique (fragmented_delta t) r k inv = absurd k
