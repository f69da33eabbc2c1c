-- ===== src/Rpc/BlockReader/Corrupt.antt =====
-- Reading a chunk whose checksum is wrong.
use hdfs.Prelude.{
  ◌+◌, ◌-◌, ◌*◌, ◌/◌, ◌<◌, ◌≡◌, ◌≢◌, refl, ap, ◌∙◌, false, none, some, ◌++◌, Bytes, length, take,
  drop, arith, leb, if◌then◌else◌, append-nil, drop_all, take_all, length-append, take_front,
  drop_front,
}
use hdfs.Prelude.Errors.{Error, ok}
use hdfs.Rpc.Failover.{Failover, new_datanode_failover}
use hdfs.Rpc.ReadStream.{
  Codec, ReadStream, from_big_endian, read_full_error, validate_chunks, chunks_read, read_amount,
  read_chunks, read_packet, read,
}
use hdfs.Rpc.ReadStream.Small.{validate_bad, current_sum, IsBefore}
use hdfs.Rpc.Reading.{ReadProtocol, Datanodes, addresses}
use hdfs.Rpc.BlockReader.{
  BlockReader, OpenStream, returned, fail_datanode, read_stream, read_round, read_loop, read_block,
}
use native.Mathlib.Nat.{div_self}

module _ (C : Codec) (s : ReadStream) (content rest b : Bytes) where
  abbrev passed : ReadStream
  passed = record s { incoming = rest }

  validate_wrong :
      IsBefore C s content rest b
      → from_big_endian 0 (current_sum C s) ≢ C.crc content
      → validate_chunks C 1 passed 0 content ≡ ok (passed, some Error.invalid_checksum)
  unfolding validate_chunks
  validate_wrong p wrong =
      let end =
        if leb (length content) (0 + s.chunk_size) then length content else 0 + s.chunk_size in
      let all : take (end - 0) content ≡ content =
        take_all (end - 0) content (let l = p.whole in ground arith) in
      let bad = validate_bad C passed content p.has_sum wrong in rw (validate_chunks, all, bad) refl

  read_amount_wrong :
      IsBefore C s content rest b
      → length b ≡ s.chunk_size
      → from_big_endian 0 (current_sum C s) ≢ C.crc content
      → read_amount C s 1 s.chunk_size b
        ≡ ok (passed, content, length content, some Error.invalid_checksum)
  unfolding read_amount chunks_read
  read_amount_wrong p fits wrong =
      let got : take s.chunk_size s.incoming ≡ content =
        rw (← p.whole, p.arriving) (take_front content rest) in
      let behind : drop s.chunk_size s.incoming ≡ rest =
        rw (← p.whole, p.arriving) (drop_front content rest) in
      let l = ap length p.arriving in
      let w = p.whole in
      let whole : read_full_error s.chunk_size s.incoming ≡ none =
        ground (arith, length-append content rest) in
      let filled : content ++ drop (length content) b ≡ content =
        rw (drop_all (length content) b (omega arith)) (append-nil content) in
      rw (read_amount, whole, got, behind, filled, validate_wrong p wrong, ← p.whole) refl

  read_wrong :
      IsBefore C s content rest b
      → length b ≡ s.chunk_size
      → 0 < s.chunk_size
      → from_big_endian 0 (current_sum C s) ≢ C.crc content
      → read C s b ≡ ok (passed, content, length content, some Error.invalid_checksum)
  unfolding read read_packet read_chunks
  read_wrong p fits positive wrong =
      let one : length b / s.chunk_size ≡ 1 = rw fits (div_self positive) in
      let size : length b / s.chunk_size * s.chunk_size ≡ s.chunk_size = rw one (omega arith) in
      let room = p.in_packet in
      let more = p.more in
      let nothing = p.nothing in
      let same : read C s b
          ≡ read_amount C s (length b / s.chunk_size) (length b / s.chunk_size * s.chunk_size) b =
        ground arith in
      same ∙ rw (size, one) (read_amount_wrong p fits wrong)

-- A `Read` of a block, with an open stream, into a buffer of the size of the chunk that comes next: if
-- the checksum of this chunk is wrong, the chunk is handed out all the same, without an error. Only
-- the stream is dropped.
pub read_block_corrupt :
    (R : ReadProtocol) (br : BlockReader) (net : Datanodes) (os : OpenStream)
    (content rest b : Bytes)
    → br.closed ≡ false
    → br.offset < br.block.b.num_bytes
    → br.stream ≡ some os
    → IsBefore os.codec os.reader content rest b
    → length b ≡ os.reader.chunk_size
    → 0 < os.reader.chunk_size
    → from_big_endian 0 (current_sum os.codec os.reader) ≢ os.codec.crc content
    → (br' : BlockReader) × (net' : Datanodes) × (read_block R br net b
        ≡ returned br' net' content (length content) none)
      × (br'.offset ≡ br.offset + length content)
      × (br'.stream ≡ none)
unfolding read_block read_loop read_round read_stream fail_datanode
read_block_corrupt R br net os content rest b open_reader inside has_stream p fits positive wrong =
    let df : Failover = elim br.datanodes [
      | none ↦ new_datanode_failover (addresses R br.block br.use_datanode_hostname)
      | some df ↦ df
    ] in
    let result = read_wrong os.codec os.reader content rest b p fits positive wrong in
    let w = p.whole in
    let br1 : BlockReader = record br {
      datanodes = some df;
      offset = br.offset + length content;
      stream = none;
    } in
    let failed = fail_datanode R Error.invalid_checksum br1 net df in
    (failed.0, failed.1, ground arith, refl, refl)
