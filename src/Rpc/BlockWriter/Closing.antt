-- ===== src/Rpc/BlockWriter/Closing.antt =====
-- Closing a block writer leaves its block, its offset and what it has taken as they are.
use hdfs.Prelude.{◌≡◌, refl, Option, none, some}
use hdfs.Rpc.Datatransfer.{Conn, Protocol, stream_environment}
use hdfs.Rpc.WriteStream.{WriteStream}
use hdfs.Rpc.WriteStream.Finishing.{finish_taken}
use hdfs.Rpc.BlockWriter.{BlockWriter, close}
use hdfs.Rpc.BlockWriter.Contents.{IsOpen, contents}

module _ (P : Protocol) where
  pub record Closes (bw bw' : BlockWriter) : Type 0 where
    pub same_block : bw'.block ≡ bw.block
    pub same_offset : bw'.offset ≡ bw.offset
    pub same_content : contents bw' ≡ contents bw

  Closes-stream :
      (bw : BlockWriter) (stream : Option (Conn × WriteStream))
      → IsOpen stream
      → Closes (record bw { stream = stream }) (close P (record bw { stream = stream })).0
  unfolding close
  Closes-stream bw none o = record { same_block = refl; same_offset = refl; same_content = refl }
  Closes-stream bw (some (conn, s)) (is_open, running) = record {
    same_block = refl;
    same_offset = refl;
    same_content = finish_taken (stream_environment P conn) conn.acks s is_open running;
  }

  pub close_lem : (bw : BlockWriter) → IsOpen bw.stream → Closes bw (close P bw).0
  close_lem bw o = Closes-stream bw bw.stream o
