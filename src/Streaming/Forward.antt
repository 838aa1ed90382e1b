-- ===== src/Streaming/Forward.antt =====
-- src/terminal_streaming.rs: what a replica shows before and after it receives an update.
use astra_shell.Prelude.{
  ◌≡◌, ◌<◌, ◌⊎◌, refl, ap, ◌∙◌, Bool, true, false, leb, ◌&&◌, Option, none, some, arith,
  Option-cases, inl, inr, if◌then◌else◌,
}
use astra_shell.Prelude.Result.{Result, ok, err, panic, ◌>>=◌, ◌>>◌, Result-cases, chain_parts}
use astra_shell.Prelude.Bytes.{bytes_eq, bytes_eq→eq, bytes_eq_refl}
use astra_shell.Terminal.State.{State}
use astra_shell.Terminal.Checks.{Libraries}
use astra_shell.Terminal.Diff.{TerminalStateDiff, apply_terminal_state_diff}
use astra_shell.Datagram.Message.{TerminalViewportDatagram, Formats}
use astra_shell.Streaming.Errors.{StreamingError}
use astra_shell.Streaming.Delta.{
  validate_viewport_state, with_inherited, apply_sparse_delta, apply_full_delta,
  apply_compact_viewport_delta,
}
use astra_shell.Streaming.Generations.{get}
use astra_shell.Streaming.Window.{
  StreamingUpdate, reliable_keyframe, datagram_delta, fragmented_delta,
}
use astra_shell.Streaming.Network.{apply}
use astra_shell.Streaming.Replica.{
  StreamingReplica, Applying, stale, missing_base, has_by, differs_in_epoch, target_applied,
  apply_to_base, diff_checked, apply_keyframe, apply_datagram,
}

-- A state with the epoch and generation that a difference announces.
abbrev IsTarget : TerminalStateDiff → State → Type 0
IsTarget diff t = (bytes_eq t.epoch diff.epoch ≡ true) × (t.generation ≡ diff.target_generation)

module _ (lib : Libraries) (base : State) where
  apply_terminal_state_diff-IsTarget :
      (diff : TerminalStateDiff) (t : State)
      → apply_terminal_state_diff lib base diff ≡ ok t
      → IsTarget diff t
  unfolding apply_terminal_state_diff
  apply_terminal_state_diff-IsTarget diff t h = ground arith

  apply_sparse_delta-IsTarget :
      (delta : TerminalViewportDatagram) (diff : TerminalStateDiff) (m t : State)
      → apply_sparse_delta lib base delta diff m ≡ ok t
      → IsTarget diff t
  unfolding apply_sparse_delta
  apply_sparse_delta-IsTarget delta diff m t h = ground arith

  apply_full_delta-IsTarget :
      (delta : TerminalViewportDatagram) (diff : TerminalStateDiff) (m t : State)
      → apply_full_delta lib base delta diff m ≡ ok t
      → IsTarget diff t
  apply_full_delta-IsTarget delta diff m t h =
      ground
        (arith, apply_terminal_state_diff-IsTarget (record diff { target_metadata = some m }) t)

  apply_compact_viewport_delta-IsTarget :
      (delta : TerminalViewportDatagram) (diff : TerminalStateDiff) (t : State)
      → delta.diff ≡ some diff
      → apply_compact_viewport_delta lib base delta ≡ ok t
      → IsTarget diff t
  unfolding apply_compact_viewport_delta
  apply_compact_viewport_delta-IsTarget delta diff t its_diff h =
      elim (Option-cases diff.target_metadata) [
        | inl missing ↦ absurd (ground arith)
        | inr (own, has_own) ↦
            elim (Result-cases (with_inherited base delta.inherited_fields own)) [
              | inl (m, inherits) ↦ ground (
                arith,
                apply_sparse_delta-IsTarget delta diff m t,
                apply_full_delta-IsTarget delta diff m t,
              )
              | inr (inl (e, refused)) ↦ absurd (ground arith)
              | inr (inr broken) ↦ absurd (ground arith)
            ]
      ]

-- The current state stays, or gives way to one of another epoch or of a later generation.
abbrev pub IsForward : Option State → Option State → Type 0
IsForward before after =
    (after ≡ before)
    ⊎ ((t : State) × (after ≡ some t)
        × ((s : State) → before ≡ some s → s.epoch ≡ t.epoch → s.generation < t.generation))

abbrev Moves : StreamingReplica → Applying → Type 0
Moves r a = IsForward r.current a.1.current

if_Moves :
    (b : Bool) (r : StreamingReplica) (x y : Applying)
    → Moves r x
    → (b ≡ false → Moves r y)
    → Moves r (if b then x else y)
if_Moves true r x y one other = one
if_Moves false r x y one other = other refl

-- Against a current state that does not cover it, a state of its epoch is newer.
newer_than :
    (current : Option State) (s t : State)
    → has_by t.epoch t.generation current ≡ false
    → current ≡ some s
    → s.epoch ≡ t.epoch
    → s.generation < t.generation
newer_than current s t behind is_s same =
    let epochs : bytes_eq s.epoch t.epoch ≡ true = rw same (bytes_eq_refl t.epoch) in
    let not_by : (bytes_eq s.epoch t.epoch && leb t.generation s.generation) ≡ false =
      (rw is_s at behind) in
    ground arith

module _ (lib : Libraries) where
  apply_keyframe-Moves : (s : State) (r : StreamingReplica) → Moves r (apply_keyframe lib s r)
  unfolding apply_keyframe
  apply_keyframe-Moves s r = elim (Result-cases (validate_viewport_state lib s)) [
    | inl (u, valid) ↦ rw valid (
        if_Moves (has_by s.epoch s.generation r.current) r (ok stale, r) _ (inl refl)
          (λ behind. inr (s, refl, λ c is_c same. newer_than r.current c s behind is_c same)))
    | inr (inl (e, refused)) ↦ rw refused (inl refl)
    | inr (inr broken) ↦ rw broken (inl refl)
  ]

  module _ (delta : TerminalViewportDatagram) (diff : TerminalStateDiff) (r : StreamingReplica)
      (its_diff : delta.diff ≡ some diff)
      (behind : has_by diff.epoch diff.target_generation r.current ≡ false) where
    target_applied-Moves :
        (target : Result StreamingError State)
        → ((t : State) → target ≡ ok t → IsTarget diff t)
        → Moves r (target_applied lib diff r target)
    target_applied-Moves (ok t) is_target =
        let (epochs, generations) = is_target t refl in
        let behind_t : has_by t.epoch t.generation r.current ≡ false =
          rw (bytes_eq→eq t.epoch diff.epoch epochs, generations) behind in
        inr (t, refl, λ c is_c same. newer_than r.current c t behind_t is_c same)
    target_applied-Moves (err e) is_target = inl refl
    target_applied-Moves panic is_target = inl refl

    checked_target :
        (base t : State) (r' : Result StreamingError State)
        → apply_compact_viewport_delta lib base delta ≡ r'
        → (r' >>= λ target. (validate_viewport_state lib target >> ok target)) ≡ ok t
        → IsTarget diff t
    checked_target base t (ok target) made h =
        let (u, valid, same) = chain_parts (validate_viewport_state lib target) _ h in
        let target_t : target ≡ t = cc in
        apply_compact_viewport_delta-IsTarget lib base delta diff t its_diff (made ∙ ap ok target_t)
    checked_target base t (err e) made h = cc
    checked_target base t panic made h = cc

    apply_to_base-Moves : (base : Option State) → Moves r (apply_to_base lib delta diff r base)
    apply_to_base-Moves none = inl refl
    apply_to_base-Moves (some base) =
        if_Moves _ r (ok missing_base, r) _ (inl refl)
          (λ same. target_applied-Moves _ (λ t h. checked_target base t _ refl h))

  diff_checked-Moves :
      (delta : TerminalViewportDatagram) (r : StreamingReplica)
      (checked : Result StreamingError TerminalStateDiff)
      → ((diff : TerminalStateDiff) → checked ≡ ok diff → delta.diff ≡ some diff)
      → Moves r (diff_checked lib delta r checked)
  diff_checked-Moves delta r (err e) its_diff = inl refl
  diff_checked-Moves delta r panic its_diff = inl refl
  diff_checked-Moves delta r (ok diff) its_diff =
      if_Moves (differs_in_epoch diff.epoch r.current) r (ok stale, r) _ (inl refl)
        (λ here.
          if_Moves (has_by diff.epoch diff.target_generation r.current) r (ok stale, r) _ (inl refl)
            (λ behind.
              apply_to_base-Moves delta diff r (its_diff diff refl) behind
                (get diff.base_generation r.retained)))

  apply_datagram-Moves :
      (delta : TerminalViewportDatagram) (r : StreamingReplica)
      → Moves r (apply_datagram lib delta r)
  unfolding apply_datagram
  apply_datagram-Moves delta r = diff_checked-Moves delta r _ (λ diff h. ground arith)

  -- Whatever a replica receives, also from a broken or hostile sender, the state that it shows stays, or gives
  -- way to a state of another epoch or of a later generation.
  pub apply-IsForward :
      (f : Formats) (u : StreamingUpdate) (r : StreamingReplica)
      → IsForward r.current (apply lib f u r).1.current
  unfolding apply
  apply-IsForward f (reliable_keyframe s) r = apply_keyframe-Moves s r
  apply-IsForward f (datagram_delta d) r = apply_datagram-Moves d r
  apply-IsForward f (fragmented_delta t) r = inl refl
