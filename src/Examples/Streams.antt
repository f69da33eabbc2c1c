-- ===== src/Examples/Streams.antt =====
-- Runs of the write stream and of the datanode failover.
use hdfs.Prelude.{
  ◌<◌, ◌≡◌, ◌↔◌, refl, inl, true, false, none, some, List, [], ◌∷◌, ◌++◌, Bytes, length, replicate,
  arith, if◌then◌else◌,
}
use hdfs.Prelude.Errors.{Error}
use hdfs.Prelude.Int.{pos, negsuc}
use hdfs.Rpc.WriteStream.{
  Environment, WriteStream, OutboundPacket, make_packet, next_packet_length, write_packet,
  write_parts, chunk_checksums, chunk_count, header_bytes, packet_header, new_block_write_stream,
  get_ack_error,
}
use hdfs.Rpc.WriteStream.Flush.{
  AckRead, ack, ack_packets, write, finish, finish_body, flush, flush_loop, send_packet,
  reply_error, last_packet,
}
use hdfs.Rpc.WriteStream.Acks.{Acknowledges, ack_packets_iff}
use hdfs.Rpc.WriteStream.Sending.{Sends, write_lem}
use hdfs.Rpc.WriteStream.Finishing.{Finishes, finish_lem}
use hdfs.Rpc.WriteStream.Interleaving.{
  Shared, Phase, Reach, started, start, next, send, receive, fail, view, get_ack_error_silent,
}
use hdfs.Rpc.Failover.{Failures, Failover}
use hdfs.Rpc.Failover.Choice.{Takes, next_lem}
use text.Mathlib.Text.{◌==◌ as str_eq}

-- A connection that takes everything, and a checksum that is the length.
abbrev quiet : Environment
quiet = record {
  marshal_header = λ h. inl (1 ∷ 2 ∷ []);
  crc = λ b. length b;
  conn_write = λ written b. none;
}

fresh : WriteStream
unfolding new_block_write_stream
fresh = new_block_write_stream 500

abbrev bytes : Bytes
bytes = replicate 600 7

write_lem_example :
    ((write quiet fresh bytes).1 ≡ length bytes)
    × Sends quiet (record fresh { buf = fresh.buf ++ bytes }) (write quiet fresh bytes).0
    × ((write quiet fresh bytes).2 ≡ none → length (write quiet fresh bytes).0.buf < 65536)
unfolding fresh get_ack_error
write_lem_example = write_lem quiet fresh bytes refl refl

abbrev buffered : WriteStream
buffered = record {
  written = [];
  buf = 1 ∷ 2 ∷ 3 ∷ [];
  offset = 500;
  closed = false;
  packets = [];
  seqno = 1;
  ack_error = none;
  acks_done = false;
}

abbrev two_acks : List AckRead
two_acks = ack (pos 1) (true ∷ []) ∷ ack (negsuc 0) [] ∷ ack (pos 2) (true ∷ []) ∷ []

abbrev finished : WriteStream
finished = (finish quiet two_acks buffered).0

finish_runs : finish quiet two_acks buffered ≡ (finished, none)
unfolding finish finish_body flush flush_loop send_packet make_packet next_packet_length
    write_packet write_parts get_ack_error ack_packets reply_error chunk_checksums chunk_count
    header_bytes packet_header last_packet
finish_runs = refl

finish_lem_example : Finishes quiet two_acks buffered finished
finish_lem_example = finish_lem quiet two_acks buffered refl refl finish_runs

abbrev packet : OutboundPacket
packet = record { seqno = 1; offset = 0; last = false; checksums = []; payload = 1 ∷ [] }

-- The ack loop has failed on the first packet, and the channel is open.
abbrev failed : Shared
failed = record {
  queue = [];
  channel_closed = false;
  phase = Phase.draining;
  ack_error = some Error.invalid_seqno;
  acks_done = false;
}

failed_reached : Reach failed
failed_reached =
    next
      (next (next start (send started packet refl (omega arith))) (receive _ packet [] refl refl))
      (fail _ packet Error.invalid_seqno refl)

get_ack_error_silent_example : get_ack_error (view failed buffered) ≡ none
get_ack_error_silent_example = get_ack_error_silent failed buffered failed_reached refl

ack_packets_iff_example :
    (ack_packets (packet ∷ []) (ack (pos 1) (true ∷ []) ∷ []) ≡ none)
    ↔ Acknowledges (packet ∷ []) (ack (pos 1) (true ∷ []) ∷ [])
ack_packets_iff_example = ack_packets_iff (packet ∷ []) (ack (pos 1) (true ∷ []) ∷ [])

abbrev failures : Failures
failures address =
    if str_eq address "a" then some 9 else if str_eq address "b" then some 4 else some 6

abbrev three : Failover
three = record { datanodes = "a" ∷ "b" ∷ "c" ∷ []; current_datanode = ""; last_err = none }

next_lem_example : Takes failures three
next_lem_example = next_lem failures three (λ e. cc) ((λ e. cc), ((λ e. cc), ((λ e. cc), tt)))
