-- ===== src/Session/Attachments.antt =====
-- src/session.rs: the registry of attachments and the changes of their state and role; the messages are
-- those of src/protocol.rs. A state is stored as the number of its variant, which is never negative.
use astra_shell.Prelude.{◌==◌, if◌then◌else◌, ℕ, String, Bool, true, false, Option, none, some}
use astra_shell.Prelude.Result.{Result, ok, ◌>>=◌, ◌>>◌, ensure, ok_or}
use astra_shell.Map.{Map}
use astra_shell.Map
use astra_shell.Session.Catalog.{
  SessionError, attachment_inactive, attachment_state_invalid, transition_invalid,
}

pub data AttachmentRole : Type 0 where
  unspecified_role viewer controller : AttachmentRole

pub data AttachmentState : Type 0 where
  unspecified_state subscribing snapshotting live : AttachmentState

pub record AttachmentInfo : Type 0 where
  pub id : String
  pub connection_id : String
  pub workspace_id : String
  pub terminal_id : String
  pub role : ℕ
  pub state : ℕ
  pub created_at_unix_ms : ℕ

-- `role as i32` and `state as i32`.
unfoldable pub role_code : AttachmentRole → ℕ
role_code unspecified_role = 0
role_code viewer = 1
role_code controller = 2

unfoldable pub state_code : AttachmentState → ℕ
state_code unspecified_state = 0
state_code subscribing = 1
state_code snapshotting = 2
state_code live = 3

-- `AttachmentState::try_from`.
unfoldable pub state_of : ℕ → Option AttachmentState
state_of n =
    if n == 0
    then some unspecified_state
    else if n == 1
    then some subscribing
    else if n == 2
    then some snapshotting
    else if n == 3
    then some live
    else none

-- The `matches!` of `set_attachment_state`.
unfoldable pub may_change : AttachmentState → AttachmentState → Bool
may_change subscribing snapshotting = true
may_change snapshotting live = true
may_change live snapshotting = true
may_change _ _ = false

unfoldable pub set_attachment_state :
    String → AttachmentState → Map AttachmentInfo → Result SessionError (Map AttachmentInfo)
set_attachment_state id state m = do
  attachment ← ok_or (Map.get id m) attachment_inactive
  current ← ok_or (state_of attachment.state) attachment_state_invalid
  ensure (may_change current state) transition_invalid
  ok (Map.insert id (record attachment { state = state_code state }) m)

unfoldable pub set_attachment_role :
    String → AttachmentRole → Map AttachmentInfo → Result SessionError (Map AttachmentInfo)
set_attachment_role id role m = do
  attachment ← ok_or (Map.get id m) attachment_inactive
  ok (Map.insert id (record attachment { role = role_code role }) m)

-- The removal by the drop of an `ActiveAttachment`.
unfoldable pub drop_attachment : String → Map AttachmentInfo → Map AttachmentInfo
drop_attachment id m = Map.remove id m
