-- ===== src/Stream/Channel.antt =====
-- src/stream_channels.rs: the channel that a request needs, and the hello that opens its stream. The encoded
-- length of a hello in its envelope (prost) is a parameter.
use Prim.Native.String.{len}
use astra_shell.Prelude.{
  ℕ, String, List, [], ◌∷◌, Bool, true, false, not, ◌&&◌, ◌||◌, leb, ◌==◌, str_eq,
}
use astra_shell.Prelude.Int.{ℤ, pos, negsuc, variant, int_eq}
use astra_shell.Prelude.Result.{Result, ok, ◌>>=◌, ◌>>◌, ensure, ok_or}
use astra_shell.Stream.Request.{Command, Request}

abbrev pub max_stream_hello_size : ℕ
max_stream_hello_size = 1024

abbrev pub max_stream_id_bytes : ℕ
max_stream_id_bytes = 128

-- `StreamChannelKind` of src/protocol.rs.
pub data StreamChannelKind : Type 0 where
  unspecified control terminal file forward : StreamChannelKind

abbrev pub channel_kinds : List StreamChannelKind
channel_kinds = unspecified ∷ control ∷ terminal ∷ file ∷ forward ∷ []

abbrev pub kind_code : StreamChannelKind → ℤ
kind_code unspecified = pos 0
kind_code control = pos 1
kind_code terminal = pos 2
kind_code file = pos 3
kind_code forward = pos 4

unfoldable pub priority : StreamChannelKind → ℤ
priority control = pos 20
priority terminal = pos 10
priority file = negsuc 9
priority forward = negsuc 9
priority unspecified = pos 0

pub record StreamHello : Type 0 where
  pub version : ℕ
  pub channel_kind : ℤ
  pub handle : String
  pub epoch : ℕ
  pub request_id : String

-- The messages of the errors.
pub data StreamError : Type 0 where
  no_command version_unsupported epoch_mismatch kind_unknown kind_unspecified : StreamError
  request_id_length handle_length handle_missing control_has_handle hello_oversized : StreamError
  hello_differs : StreamError

abbrev pub Channel : Type 0
Channel = StreamChannelKind × String

unfoldable pub command_channel : Command → Channel
command_channel (Command.open_tcp_forward open_) = (forward, open_.mapping_id)
command_channel (Command.attach attach) = (terminal, attach.terminal_id)
command_channel (Command.begin_upload upload) = (file, upload.transfer_id)
command_channel (Command.write_file_chunk chunk) = (file, chunk.transfer_id)
command_channel (Command.query_upload upload) = (file, upload.transfer_id)
command_channel (Command.commit_upload upload) = (file, upload.transfer_id)
command_channel (Command.abort_upload upload) = (file, upload.transfer_id)
command_channel (Command.file_capabilities _) = (file, "")
command_channel (Command.file_stat _) = (file, "")
command_channel (Command.file_list _) = (file, "")
command_channel (Command.begin_download _) = (file, "")
command_channel (Command.read_file_chunk _) = (file, "")
command_channel (Command.make_directory _) = (file, "")
command_channel (Command.remove_file _) = (file, "")
command_channel (Command.rename_file _) = (file, "")
command_channel (Command.git_status _) = (file, "")
command_channel (Command.watch_files _) = (file, "")
command_channel (Command.list _) = (control, "")
command_channel (Command.spawn _) = (control, "")
command_channel (Command.close _) = (control, "")
command_channel (Command.rename_terminal _) = (control, "")
command_channel (Command.list_workspaces _) = (control, "")
command_channel (Command.create_workspace _) = (control, "")
command_channel (Command.rename_workspace _) = (control, "")
command_channel (Command.delete_workspace _) = (control, "")
command_channel (Command.list_terminals _) = (control, "")
command_channel (Command.list_attachments _) = (control, "")

unfoldable pub request_channel : Request → Result StreamError Channel
request_channel request = do
  command ← ok_or request.command no_command
  ok (command_channel command)

abbrev pub is_unspecified_kind : StreamChannelKind → Bool
is_unspecified_kind unspecified = true
is_unspecified_kind _ = false

abbrev pub is_control_kind : StreamChannelKind → Bool
is_control_kind control = true
is_control_kind _ = false

-- `matches!(kind, Terminal | Forward)`.
abbrev pub needs_handle : StreamChannelKind → Bool
needs_handle terminal = true
needs_handle forward = true
needs_handle _ = false

-- The derived equality of `StreamHello`.
unfoldable pub hello_eq : StreamHello → StreamHello → Bool
hello_eq a b =
    a.version == b.version
    && int_eq a.channel_kind b.channel_kind
    && str_eq a.handle b.handle
    && a.epoch == b.epoch
    && str_eq a.request_id b.request_id

abbrev pub hello_of : Channel → Request → ℕ → StreamHello
hello_of channel request epoch = record {
  version = 1;
  channel_kind = kind_code channel.0;
  handle = channel.1;
  epoch = epoch;
  request_id = request.request_id;
}

module _ (encoded_len : StreamHello → ℕ) where
  unfoldable pub validate_hello : StreamHello → ℕ → Result StreamError StreamChannelKind
  validate_hello hello expected_epoch = do
    ensure (hello.version == 1) version_unsupported
    ensure (not (expected_epoch == 0) && hello.epoch == expected_epoch) epoch_mismatch
    kind ← ok_or (variant channel_kinds hello.channel_kind) kind_unknown
    ensure (not (is_unspecified_kind kind)) kind_unspecified
    ensure (not (str_eq hello.request_id "") && leb (len hello.request_id) max_stream_id_bytes)
        request_id_length
    ensure (leb (len hello.handle) max_stream_id_bytes) handle_length
    ensure (not (needs_handle kind) || not (str_eq hello.handle "")) handle_missing
    ensure (not (is_control_kind kind) || str_eq hello.handle "") control_has_handle
    ensure (leb (encoded_len hello) max_stream_hello_size) hello_oversized
    ok kind

  unfoldable pub hello_for_request : Request → ℕ → Result StreamError StreamHello
  hello_for_request request epoch = do
    channel ← request_channel request
    let hello = hello_of channel request epoch
    kind ← validate_hello hello epoch
    ok hello

  unfoldable pub validate_request : StreamHello → Request → ℕ → Result StreamError Unit
  validate_request hello request epoch = do
    kind ← validate_hello hello epoch
    expected ← hello_for_request request epoch
    ensure (hello_eq hello expected) hello_differs
