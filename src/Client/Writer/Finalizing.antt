-- ===== src/Client/Writer/Finalizing.antt =====
-- Starting a new block of a file: what the blocks hold stays, and a finalized block has its length.
use hdfs.Prelude.{
  Sum-cases, ℕ, ◌≡◌, refl, sym, ap, ◌∙◌, inl, inr, false, Option, none, some, List, [], ◌∷◌, ◌++◌,
  Bytes, arith, append-nil, append_assoc, Option-cases, All, length,
}
use hdfs.Rpc.Datatransfer.{ExtendedBlock, LocatedBlock, Conn, Protocol}
use hdfs.Rpc.WriteStream.{WriteStream}
use hdfs.Rpc.WriteStream.Packets.{taken}
use hdfs.Rpc.BlockWriter
use hdfs.Rpc.BlockWriter.{BlockWriter}
use hdfs.Rpc.BlockWriter.Contents.{IsOpen, contents}
use hdfs.Rpc.BlockWriter.Closing.{Closes, close_lem}
use hdfs.Client.Requests.{Request, Namenode, World}
use hdfs.Client.Writer.{FileWriter, Options, new_block_writer}
use hdfs.Client.Writer.Blocks.{finalized, hang_up, finalize_block, add_block, start_new_block}

-- The bytes that closed streams have taken, in the order in which they were closed.
abbrev pub sent_bytes : List (Conn × WriteStream) → Bytes
sent_bytes [] = []
sent_bytes ((conn, s) ∷ ts) = taken s ++ sent_bytes ts

sent_bytes-append :
    (ts us : List (Conn × WriteStream)) → sent_bytes (ts ++ us) ≡ sent_bytes ts ++ sent_bytes us
sent_bytes-append [] us = refl
sent_bytes-append ((conn, s) ∷ ts) us =
    rw (sent_bytes-append ts us) (sym (append_assoc (taken s) (sent_bytes ts) (sent_bytes us)))

abbrev pub current : Option BlockWriter → Bytes
current none = []
current (some bw) = contents bw

-- All bytes that have gone into blocks, and into the block that is being written.
abbrev pub stored : FileWriter → World → Bytes
stored f w = sent_bytes w.transcripts ++ current f.block_writer

hang_up_stream :
    (bw : BlockWriter) (stream : Option (Conn × WriteStream)) (w : World)
    → let bw' : BlockWriter = record bw { stream = stream } in
      (sent_bytes (hang_up bw' w).transcripts ≡ sent_bytes w.transcripts ++ contents bw')
      × ((hang_up bw' w).history ≡ w.history)
unfolding hang_up
hang_up_stream bw none w = (sym (append-nil (sent_bytes w.transcripts)), refl)
hang_up_stream bw (some (conn, s)) w = (
  sent_bytes-append w.transcripts ((conn, s) ∷ [])
      ∙ ap (λ (b : Bytes). sent_bytes w.transcripts ++ b) (append-nil (taken s)),
  refl,
)

-- The requests of a file's writing that finalize a block give it this length.
abbrev pub IsFull : ℕ → Request → Type 0
IsFull size (Request.update_block_for_pipeline block) = block.num_bytes ≡ size
IsFull size _ = Unit

module _ (P : Protocol) (N : Namenode) (o : Options) where
  -- A block that could be finalized: its bytes are among the closed streams, and the namenode has
  -- been told its length.
  pub record Finalizes (f : FileWriter) (bw : BlockWriter) (w : World) (f' : FileWriter)
      (w' : World) : Type 0 where
    pub ended : f'.block_writer ≡ none
    pub same_size : f'.block_size ≡ f.block_size
    pub same_closed : f'.closed ≡ f.closed
    pub same_name : f'.name ≡ f.name
    pub bytes : sent_bytes w'.transcripts ≡ sent_bytes w.transcripts ++ contents bw
    pub told :
        (block : ExtendedBlock) × (w'.history ≡ Request.update_block_for_pipeline block ∷ w.history)
        × (block.num_bytes ≡ bw.offset)
    pub told_block : told.0 ≡ finalized bw

  -- The state behind a block that could be finalized.
  finalized_world :
      (f : FileWriter) (bw : BlockWriter) (w : World) {f' : FileWriter} {w' : World}
      → finalize_block P N o f bw w ≡ (f', w', none)
      → let bw' : BlockWriter = (BlockWriter.close P bw).0 in
        (w'.transcripts ≡ (hang_up bw' w).transcripts)
        × (w'.history ≡ Request.update_block_for_pipeline (finalized bw') ∷ (hang_up bw' w).history)
        × (f' ≡ record f { block_writer = none })
  unfolding finalize_block
  finalized_world f bw w h = ground arith

  pub finalize_block_lem :
      (f : FileWriter) (bw : BlockWriter) (w : World) {f' : FileWriter} {w' : World}
      → IsOpen bw.stream
      → finalize_block P N o f bw w ≡ (f', w', none)
      → Finalizes f bw w f' w'
  finalize_block_lem f bw w is_open h =
      let bw' : BlockWriter = (BlockWriter.close P bw).0 in
      let c : Closes P bw bw' = close_lem P bw is_open in
      let (bytes, history) = hang_up_stream bw' bw'.stream w in
      let (transcripts, calls, file) = finalized_world f bw w h in
      record {
        ended = ap (λ (g : FileWriter). g.block_writer) file;
        same_size = ap (λ (g : FileWriter). g.block_size) file;
        same_closed = ap (λ (g : FileWriter). g.closed) file;
        same_name = ap (λ (g : FileWriter). g.name) file;
        bytes =
            ap sent_bytes transcripts
            ∙ bytes
            ∙ ap (λ (b : Bytes). sent_bytes w.transcripts ++ b) c.same_content;
        told = (
          finalized bw',
          calls
              ∙ ap (λ (h : List Request). Request.update_block_for_pipeline (finalized bw') ∷ h)
                  history,
          c.same_offset,
        );
        told_block =
            ap (λ (b : LocatedBlock). record (b.b) { num_bytes = bw'.offset }) c.same_block
            ∙ ap (λ (n : ℕ). record (bw.block.b) { num_bytes = n }) c.same_offset;
      }

  -- A new block after `f`'s last, with nothing in it. The calls that it takes finalize at most the
  -- block before, with its length.
  pub record Starts (f : FileWriter) (w : World) (f' : FileWriter) (w' : World) : Type 0 where
    pub block : LocatedBlock
    pub fresh : f'.block_writer ≡ some (new_block_writer o block f.block_size 0 false)
    pub same_size : f'.block_size ≡ f.block_size
    pub same_closed : f'.closed ≡ f.closed
    pub content : stored f' w' ≡ stored f w
    pub requests : List Request
    pub recorded : w'.history ≡ requests ++ w.history
    pub lengths :
        (size : ℕ)
        → ((bw : BlockWriter) → f.block_writer ≡ some bw → bw.offset ≡ size)
        → All (IsFull size) requests

  -- A new block writer holds nothing.
  stored_fresh :
      (f : FileWriter) (w : World) (f' : FileWriter) (w' : World) (block : LocatedBlock) (size : ℕ)
      → sent_bytes w'.transcripts ≡ stored f w
      → f'.block_writer ≡ some (new_block_writer o block size 0 false)
      → stored f' w' ≡ stored f w
  unfolding new_block_writer
  stored_fresh f w f' w' block size h fresh =
      ap (λ (b : Option BlockWriter). sent_bytes w'.transcripts ++ current b) fresh
      ∙ append-nil (sent_bytes w'.transcripts)
      ∙ h

  added :
      (f : FileWriter) (previous : Option ExtendedBlock) (w : World) {f' : FileWriter} {w' : World}
      → add_block P N o f previous w ≡ (f', w', none)
      → (w'.transcripts ≡ w.transcripts)
        × (w'.history ≡ Request.add_block f.name previous ∷ w.history)
        × ((block : LocatedBlock) × (f'
              ≡ record f { block_writer = some (new_block_writer o block f.block_size 0 false) }))
  unfolding add_block
  added f previous w h =
      elim (Sum-cases (N.on_add_block (Request.add_block f.name previous ∷ w.history))) [
        | inl (block, e) ↦ (ground arith, ground arith, (block, ground arith))
        | inr (x, e) ↦ absurd (ground arith)
      ]

  -- The ways in which a new block is started.
  started_first :
      (f : FileWriter) (w : World) {f' : FileWriter} {w' : World}
      → f.block_writer ≡ none
      → start_new_block P N o f w ≡ (f', w', none)
      → add_block P N o f none w ≡ (f', w', none)
  unfolding start_new_block
  started_first f w e h = ground arith

  started_next :
      (f : FileWriter) (bw : BlockWriter) (w : World) {f' : FileWriter} {w' : World}
      → f.block_writer ≡ some bw
      → start_new_block P N o f w ≡ (f', w', none)
      → (finalize_block P N o f bw w
          ≡ ((finalize_block P N o f bw w).0, (finalize_block P N o f bw w).1, none))
        × (add_block P N o
              (finalize_block P N o f bw w).0
              (some (finalized bw))
              (finalize_block P N o f bw w).1
            ≡ (f', w', none))
  unfolding start_new_block
  started_next f bw w e h = ground arith

  -- A block whose offset is the size is full when it is finalized.
  pub start_new_block_lem :
      (f : FileWriter) (w : World) {f' : FileWriter} {w' : World}
      → ((bw : BlockWriter) → f.block_writer ≡ some bw → IsOpen bw.stream)
      → start_new_block P N o f w ≡ (f', w', none)
      → Starts f w f' w'
  start_new_block_lem f w {f'} {w'} is_open h = elim (Option-cases f.block_writer) [
    | inl e ↦
        let (transcripts, history, (block, file)) = added f none w (started_first f w e h) in
        record {
          block = block;
          fresh = ap (λ (g : FileWriter). g.block_writer) file;
          same_size = ap (λ (g : FileWriter). g.block_size) file;
          same_closed = ap (λ (g : FileWriter). g.closed) file;
          content =
              stored_fresh f w f' w' block f.block_size
                (ap sent_bytes transcripts
                  ∙ sym (append-nil (sent_bytes w.transcripts))
                  ∙ ap (λ (b : Option BlockWriter). sent_bytes w.transcripts ++ current b) (sym e))
                (ap (λ (g : FileWriter). g.block_writer) file);
          requests = Request.add_block f.name none ∷ [];
          recorded = history;
          lengths = λ size at. (tt, tt);
        }
    | inr (bw, e) ↦
        let (first, second) = started_next f bw w e h in
        let d : Finalizes f bw w _ _ = finalize_block_lem f bw w (is_open bw e) first in
        let (transcripts, history, (block, file)) = added _ _ _ second in
        let (told_block, calls, length) = d.told in
        let fresh =
          ap (λ (g : FileWriter). g.block_writer) file
          ∙ ap (λ (n : ℕ). some (new_block_writer o block n 0 false)) d.same_size in
        record {
          block = block;
          fresh = fresh;
          same_size = ap (λ (g : FileWriter). g.block_size) file ∙ d.same_size;
          same_closed = ap (λ (g : FileWriter). g.closed) file ∙ d.same_closed;
          content =
              stored_fresh f w f' w' block f.block_size
                (ap sent_bytes transcripts
                  ∙ d.bytes
                  ∙ ap (λ (b : Option BlockWriter). sent_bytes w.transcripts ++ current b) (sym e))
                fresh;
          requests =
              Request.add_block (finalize_block P N o f bw w).0.name (some (finalized bw))
              ∷ Request.update_block_for_pipeline told_block
              ∷ [];
          recorded =
              history
              ∙ ap
                  (λ (h : List Request).
                    Request.add_block (finalize_block P N o f bw w).0.name (some (finalized bw))
                    ∷ h)
                  calls;
          lengths = λ size at. (tt, (length ∙ at bw e, tt));
        }
  ]
