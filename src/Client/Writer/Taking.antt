-- ===== src/Client/Writer/Taking.antt =====
-- What a write leaves in the blocks of a file, put together from its parts.
use hdfs.Prelude.{
  subst, All-append, take-append-drop, take_all, ℕ, ◌≤◌, ◌<◌, ◌≡◌, refl, sym, ap, ◌∙◌, Option, none,
  some, List, [], ◌++◌, Bytes, arith, append-nil, append_assoc, All, take, drop,
}
use hdfs.Rpc.Datatransfer.{Protocol}
use hdfs.Rpc.BlockWriter.{BlockWriter, end_of_block}
use hdfs.Rpc.BlockWriter.Contents.{IsOpen, contents, Wrote}
use hdfs.Client.Requests.{Request, Namenode, World}
use hdfs.Client.Writer.{new_block_writer, FileWriter, Options}
use hdfs.Client.Writer.Finalizing.{current, stored, sent_bytes, IsFull, Starts}

-- A block writer that goes on with a block of the file.
pub record IsReady (f : FileWriter) (bw : BlockWriter) : Type 0 where
  pub current : f.block_writer ≡ some bw
  pub is_open : IsOpen bw.stream
  pub within : bw.offset ≤ bw.block_size
  pub size : bw.block_size ≡ f.block_size

-- All of `b` was taken: it stands behind what the blocks held before, every block that was finalized
-- on the way was full, and the file can be written again.
pub record Took (f : FileWriter) (w : World) (b : Bytes) (f' : FileWriter) (w' : World)
    : Type 0 where
  pub content : stored f' w' ≡ stored f w ++ b
  pub requests : List Request
  pub recorded : w'.history ≡ requests ++ w.history
  pub full : All (IsFull f.block_size) requests
  pub same_size : f'.block_size ≡ f.block_size
  pub block_writer : BlockWriter
  pub ready : IsReady f' block_writer

abbrev pub after : FileWriter → BlockWriter → FileWriter
after f bw = record f { block_writer = some bw }

abbrev pub dialled : World → ℕ → World
dialled w d = record w { dials = d }

module _ (P : Protocol) (N : Namenode) (o : Options) where
  -- A write that took all of `b` in one block.
  pub Took-one :
      (f : FileWriter) (w : World) (b : Bytes) (bw bw' : BlockWriter) (d n : ℕ)
      → IsReady f bw
      → Wrote P bw b bw' n none
      → Took f w b (after f bw') (dialled w d)
  Took-one f w b bw bw' d n r t = record {
    content =
        ap (λ (c : Bytes). sent_bytes w.transcripts ++ c)
          (t.content
            ∙ ap (λ (c : Bytes). contents bw ++ c) (take_all n b (omega (arith, t.complete refl))))
        ∙ sym (append_assoc (sent_bytes w.transcripts) (contents bw) b)
        ∙ ap (λ (c : Option BlockWriter). (sent_bytes w.transcripts ++ current c) ++ b)
            (sym r.current);
    requests = [];
    recorded = refl;
    full = tt;
    same_size = refl;
    block_writer = bw';
    ready = record {
      current = refl;
      is_open = t.still_open;
      within = t.no_overrun;
      size = t.same_size ∙ r.size;
    };
  }

  -- A write that filled the block, the start of the next one, and a write of the rest.
  pub Took-next :
      (f : FileWriter) (w : World) (b : Bytes) (bw bw' : BlockWriter) (d n : ℕ) {f1 f2 : FileWriter}
      {w1 w2 : World}
      → IsReady f bw
      → Wrote P bw b bw' n (some end_of_block)
      → Starts P N o (after f bw') (dialled w d) f1 w1
      → Took f1 w1 (drop n b) f2 w2
      → Took f w b f2 w2
  Took-next f w b bw bw' d n {f1} {f2} {w1} {w2} r t s u = record {
    content =
        u.content
        ∙ ap (λ (c : Bytes). c ++ drop n b) (s.content ∙ front)
        ∙ append_assoc (stored f w) (take n b) (drop n b)
        ∙ ap (λ (c : Bytes). stored f w ++ c) (take-append-drop n b);
    requests = u.requests ++ s.requests;
    recorded =
        u.recorded
        ∙ ap (λ (h : List Request). u.requests ++ h) s.recorded
        ∙ sym (append_assoc u.requests s.requests w.history);
    full =
        All-append (IsFull f.block_size) u.requests s.requests
          (subst (λ (m : ℕ). All (IsFull m) u.requests) s.same_size u.full)
          (s.lengths f.block_size at_size);
    same_size = u.same_size ∙ s.same_size;
    block_writer = u.block_writer;
    ready = u.ready;
  }
    where
      front : stored (after f bw') (dialled w d) ≡ stored f w ++ take n b
      front =
          ap (λ (c : Bytes). sent_bytes w.transcripts ++ c) t.content
          ∙ sym (append_assoc (sent_bytes w.transcripts) (contents bw) (take n b))
          ∙ ap (λ (c : Option BlockWriter). (sent_bytes w.transcripts ++ current c) ++ take n b)
              (sym r.current)

      at_size : (bw'' : BlockWriter) → some bw' ≡ some bw'' → bw''.offset ≡ f.block_size
      at_size bw'' e =
          (let same : bw'' ≡ bw' = cc in ap (λ (c : BlockWriter). c.offset) same)
          ∙ t.at_end refl
          ∙ t.same_size
          ∙ r.size

  pub Took-nothing :
      (f : FileWriter) (w : World) (bw : BlockWriter) → IsReady f bw → Took f w [] f w
  Took-nothing f w bw r = record {
    content = sym (append-nil (stored f w));
    requests = [];
    recorded = refl;
    full = tt;
    same_size = refl;
    block_writer = bw;
    ready = r;
  }

  -- A started block is ready, and has room.
  pub IsReady-fresh :
      {f f' : FileWriter} {w w' : World}
      → 0 < f.block_size
      → Starts P N o f w f' w'
      → (bw : BlockWriter) × IsReady f' bw × (bw.offset < bw.block_size)
  unfolding new_block_writer
  IsReady-fresh positive s = (
    _,
    record { current = s.fresh; is_open = tt; within = omega arith; size = sym s.same_size },
    positive,
  )

  pub Took-first :
      (f : FileWriter) (w : World) (b : Bytes) {f1 f2 : FileWriter} {w1 w2 : World}
      → f.block_writer ≡ none
      → Starts P N o f w f1 w1
      → Took f1 w1 b f2 w2
      → Took f w b f2 w2
  Took-first f w b e s u = record {
    content = u.content ∙ ap (λ (c : Bytes). c ++ b) s.content;
    requests = u.requests ++ s.requests;
    recorded =
        u.recorded
        ∙ ap (λ (h : List Request). u.requests ++ h) s.recorded
        ∙ sym (append_assoc u.requests s.requests w.history);
    full =
        All-append (IsFull f.block_size) u.requests s.requests
          (subst (λ (m : ℕ). All (IsFull m) u.requests) s.same_size u.full)
          (s.lengths f.block_size (λ bw h. absurd (ground arith)));
    same_size = u.same_size ∙ s.same_size;
    block_writer = u.block_writer;
    ready = u.ready;
  }
