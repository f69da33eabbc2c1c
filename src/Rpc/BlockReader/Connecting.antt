-- ===== src/Rpc/BlockReader/Connecting.antt =====
-- Connecting to a datanode, with the copy that seeks forward.
use hdfs.Prelude.{
  subst, ℕ, zero, suc, ◌+◌, ◌-◌, ◌<◌, ◌≡◌, ◌≢◌, sym, ap, ◌∙◌, ◌⊎◌, inl, inr, Option, none, some, [],
  Bytes, length, take, String, arith, ◌==◌, if◌then◌else◌, Bool-cases, Option-cases, length-take,
}
use hdfs.Prelude.Errors.{is_eof, Error, ok, err, Result-cases}
use hdfs.Rpc.Datatransfer.{Conn}
use hdfs.Rpc.BlockWriter.{error_or}
use hdfs.Rpc.ReadStream.{Codec, ReadStream, new_block_read_stream, read}
use hdfs.Rpc.Reading.{ReadProtocol, read_block_op_response}
use hdfs.Rpc.BlockReader.{
  BlockReader, OpenStream, Discarded, discarded, copy_panicked, discard, discard_error,
  discard_fuel, connect_unfinished, codec_for, block_read_request, request_stream, skip, connect_to,
}
use hdfs.Rpc.BlockReader.Progress.{IsSound, measure, new-IsSound, read-Progresses}

module _ (C : Codec) (buffer : ℕ → Bytes) (h : (k : ℕ) → 0 < length (buffer k)) where
  abbrev DiscardEnds : Discarded → Type 0
  DiscardEnds r =
      (r ≡ copy_panicked)
      ⊎ ((s : ReadStream) × (left : ℕ) × (e : Option Error) × (r ≡ discarded s left e))

  discard-Ends :
      (fuel reads : ℕ) (s : ReadStream) (left : ℕ)
      → IsSound s
      → measure s < fuel
      → DiscardEnds (discard C buffer fuel reads s left)
  unfolding discard
  discard-Ends zero reads s left sound enough = absurd (omega arith)
  discard-Ends (suc fuel) reads s left sound enough =
      let b = take left (buffer reads) in
      elim (Bool-cases (left == 0)) [
        | inl done ↦ inr (s, 0, none, ground arith)
        | inr more ↦ elim (Result-cases (read C s b)) [
          | inr (inr k) ↦ inl (ground arith)
          | inr (inl (e, k)) ↦ inl (ground arith)
          | inl (r, k) ↦
              let (s', b', n, o) = r in
              elim (Option-cases o) [
                | inr (x, l) ↦ inr (s', left - n, (if is_eof x then none else some x), ground arith)
                | inl l ↦
                    let room = h reads in
                    let len = length-take left (buffer reads) in
                    let left_some : 0 < left = ground arith in
                    let (sound', less) =
                      read-Progresses C s s' b b' n sound (omega arith)
                        (k ∙ ap (λ o. ok (s', b', n, o)) l) in
                    let rest = discard-Ends fuel (reads + 1) s' (left - n) sound' (omega arith) in
                    let same : discard C buffer (suc fuel) reads s left
                        ≡ discard C buffer fuel (reads + 1) s' (left - n) =
                      ground arith in
                    subst DiscardEnds (sym same) rest
              ]
        ]
      ]

-- What the libraries are to do: a stream has a chunk size, and a buffer has room.
pub record IsUsable (R : ReadProtocol) : Type 0 where
  pub chunks : (m : R.protocol.proto.Message) → 0 < (R.read_info m).bytes_per_checksum
  pub room : (dials reads : ℕ) → 0 < length (R.pooled dials reads)

module _ (R : ReadProtocol) (u : IsUsable R) where
  skip-ends :
      (dials : ℕ) (conn : Conn) (os : OpenStream) (amount : ℕ)
      → IsSound os.reader
      → measure os.reader < discard_fuel os.reader
      → skip R dials conn os amount ≢ connect_unfinished
  unfolding skip
  skip-ends dials conn os amount sound enough k =
      elim (discard-Ends os.codec (R.pooled dials) (u.room dials) (discard_fuel os.reader) 0
        os.reader amount sound enough) [
          | inl l ↦ absurd (ground arith)
          | inr (s, left, e, l) ↦ elim (Option-cases (discard_error left e)) [
            | inl m ↦ absurd (ground arith)
            | inr (x, m) ↦ absurd (ground arith)
          ]
        ]

  -- A stream that was asked for has read nothing yet.
  request_stream-new :
      (br : BlockReader) (conn : Conn) (os : OpenStream) (chunk_offset : ℕ)
      → request_stream R br conn ≡ ok (os, chunk_offset)
      → (rest : Bytes) × (m : R.protocol.proto.Message) × (os.reader
          ≡ new_block_read_stream rest (R.read_info m).bytes_per_checksum)
  unfolding request_stream
  request_stream-new br conn os chunk_offset h = elim (Result-cases (block_read_request R br)) [
    | inr (inl (e, k)) ↦ absurd (ground arith)
    | inr (inr k) ↦ absurd (ground arith)
    | inl (request, k) ↦
        elim (Result-cases
          (error_or (conn.conn_write [] request) (read_block_op_response R conn))) [
            | inr (inl (e, l)) ↦ absurd (ground arith)
            | inr (inr l) ↦ absurd (ground arith)
            | inl (p, l) ↦
                let (resp, rest) = p in
                let codec =
                  if R.protocol.is_success resp
                  then codec_for R (R.read_info resp).checksum_type
                  else err Error.read_failed in
                elim (Result-cases codec) [
                  | inr (inl (e, m)) ↦ absurd (ground arith)
                  | inr (inr m) ↦ absurd (ground arith)
                  | inl (c, m) ↦ (rest, resp, ground arith)
                ]
          ]
  ]

  -- An attempt to connect ends.
  pub connect_to-ends :
      (br : BlockReader) (dials : ℕ) (address : String)
      → connect_to R br dials address ≢ connect_unfinished
  unfolding connect_to new_block_read_stream
  connect_to-ends br dials address h = elim (Result-cases (R.protocol.dial dials address)) [
    | inr (inl (e, k)) ↦ absurd (ground arith)
    | inr (inr k) ↦ absurd (ground arith)
    | inl (conn, k) ↦ elim (Result-cases (request_stream R br conn)) [
      | inr (inl (e, l)) ↦ absurd (ground arith)
      | inr (inr l) ↦ absurd (ground arith)
      | inl (p, l) ↦
          let (os, chunk_offset) = p in
          let (rest, m, new) = request_stream-new br conn os chunk_offset l in
          let b = (R.read_info m).bytes_per_checksum in
          skip-ends dials conn os (br.offset - chunk_offset)
            (rw new (new-IsSound rest b (u.chunks m))) (rw new (omega arith)) (ground arith)
    ]
  ]
