-- ===== src/Grpc/Handler.antt =====
-- `Http2Handler` of src/grpc/qgrpchttp2channel.cpp: one RPC over an HTTP/2 stream. This file has its
-- state and how it ends; `Send` has the outgoing queue, `Receive` the data and `Headers` the headers
-- that arrive. Signals to the operation context are recorded in order, the newest first. The HTTP/2
-- stream is Qt Network's, and comes as a parameter, like the compression.
pub mod Send
pub mod Receive
pub mod Headers
pub mod Once
use qtgrpc.Prelude.{
  ℕ, ltb, if◌then◌else◌, Bool, true, false, not, Option, none, some, List, [], ◌∷◌, ◌&&◌,
}
use qtgrpc.Grpc.Status.{StatusCode, http2_error_to_status_code}
use qtgrpc.Grpc.DataParser.{GrpcDataParser}

abbrev pub Bytes : Type 0
Bytes = List ℕ

-- `QGrpcStatus`. A message text of the channel's own is not modelled, and stands as `none`.
pub record Status : Type 0 where
  pub code : StatusCode
  pub message : Option Bytes

pub data State : Type 0 where
  idle request_headers_sent active cancelled finished : State

-- `m_state >= State::Cancelled`, which is `m_state > State::Active`.
unfoldable pub is_over : State → Bool
is_over cancelled = true
is_over finished = true
is_over _ = false

-- Header names and values, in order.
abbrev pub Headers : Type 0
Headers = List (Bytes × Bytes)

pub data CompressionAlgorithm : Type 0 where
  identity deflate gzip : CompressionAlgorithm

-- What the handler tells the context.
pub data Signal : Type 0 where
  emits_finished : Status → Signal
  message_received : Bytes → Signal
  message_written : Signal
  bytes_to_write : ℕ → Signal
  initial_metadata trailing_metadata : Headers → Signal

-- What the handler asks of QHttp2Stream. `send_data` says whether the stream took the data and
-- whether it reported `uploadFinished` before it returned.
pub record Http2Stream : Type 1 where
  pub Stream : Type 0
  pub send_headers : Stream → Bool × Stream
  pub send_data : Stream → Bytes → Bool → Bool × Bool × Stream
  pub is_uploading_data : Stream → Bool
  pub is_closed_for_sending : Stream → Bool
  pub is_idle : Stream → Bool
  pub send_rst_stream : Stream → Bool × Stream

pub record Handler (Stream : Type 0) : Type 0 where
  pub has_context : Bool
  pub queue : List Bytes
  pub stream : Option Stream
  pub parser : GrpcDataParser
  pub negotiated_encoding : Option CompressionAlgorithm
  pub has_decompressor : Bool
  pub state : State
  pub end_stream_at_first_data : Bool
  pub writes_done_sent : Bool
  pub draining_queue : Bool
  pub in_flight_user_write : Bool
  pub queued_bytes : ℕ
  pub bytes_to_write : ℕ
  pub filter_server_metadata : Bool
  pub deadline_running : Bool
  pub request_encoding : CompressionAlgorithm
  -- How many deferred `messageWritten` calls have been scheduled.
  pub pending_written : ℕ
  pub delete_later : Bool
  pub signals : List Signal

module _ (api : Http2Stream) where
  open api use {Stream, is_idle, send_rst_stream, is_closed_for_sending}

  abbrev pub Rpc : Type 0
  Rpc = Handler Stream

  abbrev pub emit : Signal → Rpc → Rpc
  emit signal h = record h { signals = signal ∷ h.signals }

  -- `handleContextExpired`, where it returns true.
  abbrev pub expire : Rpc → Rpc
  expire h = record h { state = cancelled; delete_later = true }

  -- `if (m_state != State::Cancelled) m_state = State::Finished;`
  unfoldable pub end_state : State → State
  end_state cancelled = cancelled
  end_state _ = finished

  finish_from : State → Status → Rpc → Rpc
  unfolding end_state
  finish_from finished status h = h
  finish_from s status h =
      emit (emits_finished status)
        (record h { state = end_state s; deadline_running = false; delete_later = true })

  unfoldable pub finish : Status → Rpc → Rpc
  unfolding finish_from
  finish status h = if h.has_context then finish_from h.state status h else expire h

  pub reset_stream : Option Stream → Option Stream
  reset_stream none = none
  reset_stream (some s) = if is_idle s then some s else some (send_rst_stream s).1

  unfoldable pub cancel_with_status : Status → Rpc → Rpc
  unfolding reset_stream
  cancel_with_status status h =
      if is_over h.state
      then h
      else finish status (record h { state = cancelled; stream = reset_stream h.stream })

  unfoldable pub is_stream_closed_for_sending : Option Stream → Bool
  is_stream_closed_for_sending none = false
  is_stream_closed_for_sending (some s) = is_closed_for_sending s

  -- The timer and the user's cancellation.
  unfoldable pub cancel : Rpc → Rpc
  unfolding cancel_with_status
  cancel = cancel_with_status (record { code = StatusCode.cancelled; message = none })

  unfoldable pub deadline_timeout : Rpc → Rpc
  unfolding cancel_with_status
  deadline_timeout =
      cancel_with_status (record { code = StatusCode.deadline_exceeded; message = none })

  -- The slot of `QHttp2Stream::errorOccurred`.
  unfoldable pub error_occurred : ℕ → Rpc → Rpc
  unfolding finish
  error_occurred error = finish (record { code = http2_error_to_status_code error; message = none })

  -- The deferred call of `scheduleMessageWritten`, when the event loop runs it.
  unfoldable pub deliver_message_written : Rpc → Rpc
  deliver_message_written h =
      if h.has_context && not (is_over h.state) then emit message_written h else h
