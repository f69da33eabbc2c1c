-- ===== src/Client/Writer/Closing.antt =====
-- What `FileWriter.Close` tells the namenode.
use hdfs.Prelude.{
  ◌≡◌, refl, inl, inr, true, false, Option, none, some, List, [], ◌∷◌, ◌++◌, arith, Sum-cases,
  Option-cases, sym, ap, ◌∙◌, append-nil,
}
use hdfs.Rpc.Datatransfer.{ExtendedBlock, Protocol}
use hdfs.Rpc.BlockWriter.{BlockWriter}
use hdfs.Rpc.BlockWriter.Contents.{IsOpen}
use hdfs.Client.Requests.{Request, Namenode, World}
use hdfs.Client.Writer.{FileWriter, Options, remove_file}
use hdfs.Client.Writer.Blocks.{finalized, finalize_block, complete, close}
use hdfs.Client.Writer.Finalizing.{sent_bytes, current, stored, Finalizes, finalize_block_lem}

-- The calls of a file's closing, the latest first.
abbrev pub closing_calls : FileWriter → List Request
closing_calls f = elim f.block_writer [
  | none ↦ Request.complete f.name none ∷ []
  | some bw ↦
      Request.complete f.name (some (finalized bw))
      ∷ Request.update_block_for_pipeline (finalized bw)
      ∷ []
]

module _ (P : Protocol) (N : Namenode) (o : Options) where
  -- The file as it is while it is being closed.
  abbrev closing : FileWriter → FileWriter
  closing f = record f { closed = true }

  completed :
      (f : FileWriter) (last : Option ExtendedBlock) (w : World) {f' : FileWriter} {w' : World}
      → complete P N o f last w ≡ (f', w', none)
      → (f' ≡ f)
        × (w'.transcripts ≡ w.transcripts)
        × (w'.history ≡ Request.complete f.name last ∷ w.history)
  unfolding complete
  completed f last w h =
      elim (Sum-cases (N.on_complete (Request.complete f.name last ∷ w.history))) [
        | inl (u, e) ↦ (ground arith, ground arith, ground arith)
        | inr (x, e) ↦ absurd (ground arith)
      ]

  close_first :
      (f : FileWriter) (w : World) {f' : FileWriter} {w' : World}
      → f.closed ≡ false
      → f.block_writer ≡ none
      → close P N o f w ≡ (f', w', none)
      → complete P N o (closing f) none (remove_file w) ≡ (f', w', none)
  unfolding close
  close_first f w c e h = ground arith

  close_next :
      (f : FileWriter) (bw : BlockWriter) (w : World) {f' : FileWriter} {w' : World}
      → f.closed ≡ false
      → f.block_writer ≡ some bw
      → close P N o f w ≡ (f', w', none)
      → let r = finalize_block P N o (closing f) bw (remove_file w) in
        (r ≡ (r.0, r.1, none)) × (complete P N o r.0 (some (finalized bw)) r.1 ≡ (f', w', none))
  unfolding close
  close_next f bw w c e h = ground arith

  -- When `Close` of an open file, whose block's stream has not been finished, reports no error, the
  -- file is closed and has no block writer, all bytes of its blocks are those of closed streams, and
  -- the namenode has been asked, in this order, to update the last block with the length that has
  -- been written and to complete the file with this same block; without a block, only to complete it.
  pub close_completes :
      (f : FileWriter) (w : World) (f' : FileWriter) (w' : World)
      → f.closed ≡ false
      → ((bw : BlockWriter) → f.block_writer ≡ some bw → IsOpen bw.stream)
      → close P N o f w ≡ (f', w', none)
      → (f'.closed ≡ true)
        × (f'.block_writer ≡ none)
        × (sent_bytes w'.transcripts ≡ stored f w)
        × (w'.history ≡ closing_calls f ++ w.history)
  unfolding remove_file
  close_completes f w f' w' c is_open h = elim (Option-cases f.block_writer) [
    | inl e ↦
        let (file, transcripts, history) =
          completed (closing f) none (remove_file w) (close_first f w c e h) in
        (
          ap (λ (g : FileWriter). g.closed) file,
          ap (λ (g : FileWriter). g.block_writer) file ∙ e,
          ap sent_bytes transcripts
              ∙ sym (append-nil (sent_bytes w.transcripts))
              ∙ ap (λ (b : Option BlockWriter). sent_bytes w.transcripts ++ current b) (sym e),
          history ∙ rw e refl,
        )
    | inr (bw, e) ↦
        let (first, second) = close_next f bw w c e h in
        let d : Finalizes P N o (closing f) bw (remove_file w) _ _ =
          finalize_block_lem P N o (closing f) bw (remove_file w) (is_open bw e) first in
        let (file, transcripts, history) = completed _ _ _ second in
        let (told, calls, length) = d.told in
        (
          ap (λ (g : FileWriter). g.closed) file ∙ d.same_closed,
          ap (λ (g : FileWriter). g.block_writer) file ∙ d.ended,
          ap sent_bytes transcripts
              ∙ d.bytes
              ∙ ap (λ (b : Option BlockWriter). sent_bytes w.transcripts ++ current b) (sym e),
          history ∙ rw (d.same_name, calls, d.told_block, e) refl,
        )
  ]
