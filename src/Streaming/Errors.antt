-- ===== src/Streaming/Errors.antt =====
-- src/terminal_streaming.rs: the messages of the errors of viewport differences, windows and replicas.
use astra_shell.Prelude.Result.{Result, ok, err, panic}
use astra_shell.Terminal.Checks.{StateError}
use astra_shell.Terminal.Diff.{SyncError}
use astra_shell.Datagram.Prepare.{DatagramError}

pub data StreamingError : Type 0 where
  of_state : StateError → StreamingError
  of_sync : SyncError → StreamingError
  of_datagram : DatagramError → StreamingError
  no_primary no_alternate has_scrollback not_one_viewport : StreamingError
  route_empty generation_invalid geometry_changed : StreamingError
  too_many_patches index_invalid base_index_invalid splice_overflow splice_exceeds : StreamingError
  row_metadata_missing row_metadata_has_cells : StreamingError
  unknown_inherited no_diff no_metadata styles_encoded hyperlinks_encoded modes_encoded
        title_encoded directory_encoded palette_encoded :
      StreamingError
  patches_without_flag mixed_encodings diff_base_invalid diff_metadata_invalid screen_missing
        metadata_contains_rows base_screen_missing :
      StreamingError
  version_unsupported no_retained keyframe_in_flight : StreamingError
  repair_epoch_invalid repair_base_zero repair_reversed repair_epoch_changed repair_future :
      StreamingError
  ack_epoch_invalid ack_generation_zero ack_epoch_changed ack_future : StreamingError
  wrong_attachment fragment_unassembled : StreamingError

-- `?` on a result whose errors are those of another component.
abbrev pub lift : {E A : Type 0} → (E → StreamingError) → Result E A → Result StreamingError A
lift wrap (ok a) = ok a
lift wrap (err e) = err (wrap e)
lift wrap panic = panic
