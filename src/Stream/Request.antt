-- ===== src/Stream/Request.antt =====
-- src/protocol.rs: the requests that open a stream.
use astra_shell.Prelude.{ℕ, String, List, Bool, Option}
use astra_shell.Payload.Files.{WriteFileChunkRequest}

pub record EnvironmentVariable : Type 0 where
  pub name : String
  pub value : String

pub record ListRequest : Type 0 where

pub record SpawnRequest : Type 0 where
  pub name : String
  pub argv : List String
  pub cwd : String
  pub rows : ℕ
  pub cols : ℕ
  pub term : String
  pub environment : List EnvironmentVariable
  pub workspace_id : String

pub record AttachRequest : Type 0 where
  pub client_instance_id : String
  pub terminal_id : String
  pub read_only : Bool
  pub takeover : Bool
  pub resume_token : String
  pub workspace_id : String

pub record CloseRequest : Type 0 where
  pub terminal_id : String
  pub workspace_id : String

pub record RenameTerminalRequest : Type 0 where
  pub terminal_id : String
  pub name : String
  pub workspace_id : String

pub record ListWorkspacesRequest : Type 0 where

pub record CreateWorkspaceRequest : Type 0 where
  pub name : String

pub record RenameWorkspaceRequest : Type 0 where
  pub workspace_id : String
  pub name : String

pub record DeleteWorkspaceRequest : Type 0 where
  pub workspace_id : String

pub record ListTerminalsRequest : Type 0 where
  pub workspace_id : String
  pub include_exited : Bool

pub record ListAttachmentsRequest : Type 0 where
  pub workspace_id : String
  pub terminal_id : String

pub record FileCapabilitiesRequest : Type 0 where

pub record FileStatRequest : Type 0 where
  pub path : List ℕ
  pub follow_symlinks : Bool

pub record FileListRequest : Type 0 where
  pub path : List ℕ
  pub cursor : List ℕ
  pub limit : ℕ

pub record BeginUploadRequest : Type 0 where
  pub transfer_id : String
  pub path : List ℕ
  pub size : ℕ
  pub sha256 : List ℕ
  pub overwrite : Bool
  pub mode : ℕ

pub record QueryUploadRequest : Type 0 where
  pub transfer_id : String

pub record CommitUploadRequest : Type 0 where
  pub transfer_id : String

pub record AbortUploadRequest : Type 0 where
  pub transfer_id : String

pub record BeginDownloadRequest : Type 0 where
  pub path : List ℕ
  pub want_sha256 : Bool

pub record ReadFileChunkRequest : Type 0 where
  pub path : List ℕ
  pub snapshot : List ℕ
  pub offset : ℕ
  pub length : ℕ

pub record MakeDirectoryRequest : Type 0 where
  pub path : List ℕ

pub record RemoveFileRequest : Type 0 where
  pub path : List ℕ

pub record RenameFileRequest : Type 0 where
  pub source : List ℕ
  pub destination : List ℕ
  pub overwrite : Bool

pub record GitStatusRequest : Type 0 where
  pub path : List ℕ

pub record WatchFilesRequest : Type 0 where
  pub paths : List (List ℕ)
  pub recursive : Bool

pub record OpenTcpForwardRequest : Type 0 where
  pub mapping_id : String
  pub host : String
  pub port : ℕ

pub data Command : Type 0 where
  list : ListRequest → Command
  spawn : SpawnRequest → Command
  attach : AttachRequest → Command
  close : CloseRequest → Command
  file_capabilities : FileCapabilitiesRequest → Command
  file_stat : FileStatRequest → Command
  file_list : FileListRequest → Command
  begin_upload : BeginUploadRequest → Command
  write_file_chunk : WriteFileChunkRequest → Command
  query_upload : QueryUploadRequest → Command
  commit_upload : CommitUploadRequest → Command
  abort_upload : AbortUploadRequest → Command
  begin_download : BeginDownloadRequest → Command
  read_file_chunk : ReadFileChunkRequest → Command
  make_directory : MakeDirectoryRequest → Command
  remove_file : RemoveFileRequest → Command
  rename_file : RenameFileRequest → Command
  git_status : GitStatusRequest → Command
  watch_files : WatchFilesRequest → Command
  rename_terminal : RenameTerminalRequest → Command
  list_workspaces : ListWorkspacesRequest → Command
  create_workspace : CreateWorkspaceRequest → Command
  rename_workspace : RenameWorkspaceRequest → Command
  delete_workspace : DeleteWorkspaceRequest → Command
  list_terminals : ListTerminalsRequest → Command
  list_attachments : ListAttachmentsRequest → Command
  open_tcp_forward : OpenTcpForwardRequest → Command

pub record Request : Type 0 where
  pub request_id : String
  pub command : Option Command
