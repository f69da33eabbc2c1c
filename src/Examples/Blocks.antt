-- ===== src/Examples/Blocks.antt =====
-- Runs of the reader of a block.
use hdfs.Prelude.{inl, ◌+◌, ap, ◌∙◌, ℕ, ◌≡◌, refl, true, false, none, some, [], ◌∷◌, length, arith}
use hdfs.Prelude.Errors.{Error, ok}
use hdfs.Rpc.ReadStream.{
  new_block_read_stream, read_packet_header, start_packet, Codec, ReadStream, read, read_packet,
  read_chunks, read_amount, validate_chunks, chunks_read,
}
use hdfs.Rpc.Reading.{addresses, read_block_op_response, ReadProtocol, ChecksumType, Datanodes}
use hdfs.Rpc.Datatransfer.{get_datanode_address, LocatedBlock}
use hdfs.Rpc.Failover.{num_remaining, new_datanode_failover, next, pick, remove_at, record_failure}
use hdfs.Rpc.Framing.{
  write_block_op_request, make_prefixed_message, read_body, read_full, read_message_after,
  read_prefixed_message,
}
use hdfs.Rpc.BlockWriter.{error_or}
use hdfs.Rpc.Varint.{put_uvarint, uvarint}
use hdfs.Client.Reader.{FileReader, block_at}
use hdfs.Client.Reader.Contents.{file_unfinished, read_file}
use hdfs.Client.Reader.Contents.Rounds.{FileEnds}
use hdfs.Client.Reader.Contents.Alignment.{read_file-FileEnds}
use hdfs.Client.Reader.Contents.Stuck.{new_reader, EndsAtOnce, read_file_stuck}
use hdfs.Examples.Files.{namenode, options, start, status_of, same}
use hdfs.Rpc.BlockReader.{
  read_loop, read_round, connect_round, use_connection, connect_to, request_stream,
  block_read_request, codec_for, discard, read_stream, skip, fail_datanode, BlockReader, OpenStream,
  returned, read_block,
}
use hdfs.Rpc.BlockReader.Connecting.{IsUsable}
use hdfs.Rpc.BlockReader.Corrupt.{read_block_corrupt}
use hdfs.Examples.Network.{reading, two_locs, no_failures}

-- The checksum is the length.
abbrev lengths : Codec
lengths = record { crc = λ b. length b; unmarshal = λ b. (0, true) }

-- In a packet of two chunks, whose checksums are `a` and `b`.
abbrev stream_of : ℕ → ℕ → ReadStream
stream_of a b = record {
  incoming = 1 ∷ 2 ∷ 3 ∷ 4 ∷ [];
  chunk_size = 2;
  checksums = 0 ∷ 0 ∷ 0 ∷ a ∷ 0 ∷ 0 ∷ 0 ∷ b ∷ [];
  chunk = [];
  packet_length = 4;
  chunk_index = 0;
  num_chunks = 2;
  last_packet = true;
}

reading-IsUsable : IsUsable reading
reading-IsUsable = record { chunks = λ m. omega arith; room = λ d k. omega arith }

abbrev block_reader : BlockReader
block_reader = record {
  client_name = "me";
  block = two_locs;
  offset = 0;
  use_datanode_hostname = false;
  datanodes = none;
  stream = none;
  closed = false;
}

abbrev open_stream : OpenStream
open_stream = record { codec = lengths; reader = stream_of 9 2 }

abbrev connected_reader : BlockReader
connected_reader = record block_reader { stream = some open_stream }

read_block_corrupt_example :
    (br' : BlockReader) × (net' : Datanodes) × (read_block reading connected_reader no_failures
        (0 ∷ 0 ∷ [])
      ≡ returned br' net' (1 ∷ 2 ∷ []) 2 none)
    × (br'.offset ≡ 2)
    × (br'.stream ≡ none)
read_block_corrupt_example =
    read_block_corrupt reading connected_reader no_failures open_stream (1 ∷ 2 ∷ []) (3 ∷ 4 ∷ [])
      (0 ∷ 0 ∷ []) refl (omega arith) refl
      (record {
        arriving = refl;
        whole = refl;
        nothing = refl;
        more = omega arith;
        in_packet = omega arith;
        has_sum = refl;
      })
      refl (omega arith) (λ k. absurd (omega arith))

-- A datanode whose streams are at their end with the first packet.
abbrev ending : ReadProtocol
ending = record reading {
  protocol = record reading.protocol {
    dial = λ dials address. ok (record {
      deadline_error = none;
      conn_write = λ written b. none;
      incoming = 4 ∷ 1 ∷ 1 ∷ 1 ∷ 1 ∷ 0 ∷ 0 ∷ 0 ∷ 0 ∷ 0 ∷ 0 ∷ [];
      got = 5;
      acks = [];
    });
  };
  read_info =
      λ m. record { checksum_type = ChecksumType.crc32; bytes_per_checksum = 1; chunk_offset = 0 };
}

abbrev one_loc : LocatedBlock
one_loc = record two_locs {
  locs = record { ip_addr = "10.0.0.1"; host_name = "dn"; xfer_port = 50010 } ∷ [];
}

abbrev opened_file : FileReader
opened_file = record {
  name = "/a";
  info = status_of false;
  blocks = one_loc ∷ [];
  block_reader = none;
  offset = 0;
  readdir_last = "";
  closed = false;
}

abbrev ended_reader : BlockReader
ended_reader = record (new_reader ending (namenode none) options same 0 one_loc) {
  datanodes =
      some (record { datanodes = []; current_datanode = "10.0.0.1:50010"; last_err = none });
  stream = some (record {
    codec = record { crc = λ b. length b; unmarshal = λ b. (0, true) };
    reader = record {
      incoming = [];
      chunk_size = 1;
      checksums = [];
      chunk = [];
      packet_length = 0;
      chunk_index = 0;
      num_chunks = 0;
      last_packet = true;
    };
  });
}

-- The failures are none.
abbrev NoFailures : Datanodes → Type 0
NoFailures net = (n : ℕ) × (net ≡ record no_failures { dials = n })

ending_run :
    (n : ℕ)
    → read_block ending
        (new_reader ending (namenode none) options same 0 one_loc)
        (record no_failures { dials = n })
        (0 ∷ [])
      ≡ returned ended_reader (record no_failures { dials = n + 1 }) (0 ∷ []) 0 (some Error.eof)
unfolding read_block read_loop read_round connect_round use_connection connect_to request_stream
    block_read_request codec_for discard read_stream skip fail_datanode num_remaining
    new_datanode_failover next pick remove_at record_failure addresses read_block_op_response
    write_block_op_request make_prefixed_message read_body read_full read_message_after
    read_prefixed_message error_or get_datanode_address new_block_read_stream read_packet_header
    start_packet put_uvarint uvarint read read_packet read_chunks read_amount validate_chunks
    chunks_read
ending_run n = refl

ending-EndsAtOnce :
    EndsAtOnce ending (namenode none) options same opened_file one_loc (0 ∷ []) NoFailures
unfolding block_at
ending-EndsAtOnce = record {
  here = refl;
  at_once = λ net (n, e). (
    ended_reader,
    record no_failures { dials = n + 1 },
    ap
          (λ (net : Datanodes).
            read_block ending (new_reader ending (namenode none) options same 0 one_loc) net
              (0 ∷ []))
          e
        ∙ ending_run n,
    (n + 1, refl),
  );
}

read_file_stuck_example :
    read_file ending (namenode none) options same 1000 opened_file start no_failures (0 ∷ [])
    ≡ file_unfinished
read_file_stuck_example =
    read_file_stuck ending (namenode none) options same opened_file one_loc (0 ∷ []) NoFailures
      ending-EndsAtOnce 1000 start no_failures refl refl refl (omega arith) refl (0, refl)

read_file-FileEnds_example :
    FileEnds reading
      (namenode none)
      options
      same
      0
      (read_file reading (namenode none) options same 10 opened_file start no_failures (0 ∷ []))
read_file-FileEnds_example =
    read_file-FileEnds reading (namenode none) options same reading-IsUsable (λ n. ground arith) 10
      opened_file start no_failures (0 ∷ []) (λ a. ground arith) (inl refl) (omega arith)
