-- ===== src/Grpc/Handler/Receive.antt =====
-- The slot of `QHttp2Stream::dataReceived` in src/grpc/qgrpchttp2channel.cpp: frames out of the data,
-- their decompression, and the end of the stream.
use qtgrpc.Prelude.{
  ℕ, zero, suc, ◌+◌, ltb, ◌==◌, if◌then◌else◌, Bool, true, false, Option, none, some, List, [], ◌∷◌,
  ◌++◌, length,
}
use qtgrpc.Grpc.Status.{StatusCode, ok, internal, resource_exhausted, data_loss}
use qtgrpc.Grpc.DataParser.{
  Frame, Parsed, frame, need_more_data, oversize, GrpcDataParser, parse_next_frame, feed,
  bytes_available,
}
use qtgrpc.Grpc.Handler.{
  Bytes, Http2Stream, message_received, CompressionAlgorithm, State, cancelled, Rpc, emit, finish,
}

-- What QDecompressHelper gives for one compressed message: the chunks that are read, or a failure.
pub data Read : Type 0 where
  chunk : Bytes → Read
  failed : Read

abbrev pub Decompress : Type 0
Decompress = CompressionAlgorithm → Bytes → List Read

pub data Payload : Type 0 where
  payload : Bytes → Payload
  refused : StatusCode → Payload

-- The loop `while (m_decompressor->hasData())`.
unfoldable pub read_chunks : ℕ → Bytes → List Read → Payload
read_chunks limit final_payload [] = payload final_payload
read_chunks limit final_payload (failed ∷ reads) = refused internal
read_chunks limit final_payload (chunk bytes ∷ reads) =
    let rest = read_chunks limit (final_payload ++ bytes) reads in
    if ltb limit (length final_payload + length bytes) then refused resource_exhausted else rest

decode_with : Decompress → ℕ → Bool → Option CompressionAlgorithm → Bytes → Payload
unfolding read_chunks
decode_with decompress limit true (some encoding) bytes =
    read_chunks limit [] (decompress encoding bytes)
decode_with decompress limit _ _ bytes = refused internal

-- The payload of one frame.
unfoldable pub final_payload : Decompress → ℕ → Bool → Option CompressionAlgorithm → Frame → Payload
unfolding decode_with
final_payload decompress limit has_decompressor encoding f =
    if f.is_compressed
    then decode_with decompress limit has_decompressor encoding f.payload
    else payload f.payload

module _ (api : Http2Stream) (decompress : Decompress) where
  -- What one turn of the loop over frames does: the slot returns, the loop breaks, or it goes on.
  pub data Turn : Type 0 where
    returns breaks goes_on : Rpc api → Turn

  unfoldable pub deliver : Payload → Rpc api → Turn
  deliver (refused code) h = returns (finish api (record { code = code; message = none }) h)
  deliver (payload bytes) h = goes_on (emit api (message_received bytes) h)

  unfoldable pub turn : Parsed × GrpcDataParser → Rpc api → Turn
  unfolding deliver
  turn (need_more_data, p) h = breaks (record h { parser = p })
  turn (oversize size, p) h =
      returns (
        finish api (record { code = resource_exhausted; message = none }) (record h { parser = p }))
  turn (frame f, p) h =
      deliver
        (final_payload decompress p.max_receive_size h.has_decompressor h.negotiated_encoding f)
        (record h { parser = p })

  -- `while (true)`. A frame takes five bytes at least, so a turn for each byte, and one, is enough.
  unfoldable pub frame_loop : ℕ → Rpc api → Turn
  unfolding turn
  frame_loop zero h = breaks h
  frame_loop (suc turns) h = elim (turn (parse_next_frame h.parser) h) [
    | returns h' ↦ returns h'
    | breaks h' ↦ breaks h'
    | goes_on h' ↦ frame_loop turns h'
  ]

  unfoldable pub end_of_stream : Rpc api → Rpc api
  end_of_stream h =
      if bytes_available h.parser == 0
      then finish api (record { code = ok; message = none }) h
      else finish api (record { code = data_loss; message = none }) h

  unfoldable pub after_frames : Bool → Turn → Rpc api
  unfolding end_of_stream
  after_frames end_stream (returns h) = h
  after_frames false (breaks h) = h
  after_frames true (breaks h) = end_of_stream h
  after_frames end_stream (goes_on h) = h

  unfoldable pub receive : State → Bytes → Bool → Rpc api → Rpc api
  unfolding after_frames
  receive cancelled bytes end_stream h = h
  receive _ bytes end_stream h = after_frames end_stream (
      frame_loop (bytes_available (feed h.parser bytes) + 1)
        (record h { parser = feed h.parser bytes }))

  -- The slot has the context as its receiver: without one it does not run.
  unfoldable pub data_received : Bytes → Bool → Rpc api → Rpc api
  unfolding receive
  data_received bytes end_stream h = if h.has_context then receive h.state bytes end_stream h else h
