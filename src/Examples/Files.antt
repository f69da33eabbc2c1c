-- ===== src/Examples/Files.antt =====
-- Runs of the client: a file written over two blocks, operations on the namespace, and reads.
use hdfs.Prelude.{
  subst, ◌++◌, ℕ, ◌+◌, ◌≤◌, ◌<◌, ◌≡◌, ◌≢◌, refl, ◌⊎◌, inl, inr, Bool, true, false, Option, none,
  some, List, [], ◌∷◌, Bytes, length, arith, String, ◌↔◌,
}
use hdfs.Prelude.Int.{pos, negsuc}
use hdfs.Prelude.Errors.{Error, ok}
use hdfs.Rpc.Datatransfer.{LocatedBlock, Conn, Protocol}
use hdfs.Rpc.BlockWriter.{BlockWriter}
use hdfs.Rpc.BlockWriter.Contents.{IsOpen, Ends, write-Ends}
use hdfs.Rpc.ReadStream
use hdfs.Rpc.ReadStream.{Codec, ReadStream, from_big_endian}
use hdfs.Rpc.ReadStream.Small.{buffered, read_small_lem}
use hdfs.Rpc.ReadStream.Chunks.{read_whole_lem}
use hdfs.Client.Requests.{Request, FileStatus, Namenode, World}
use hdfs.Client.Writer.{remove_file, get_file_info, FileWriter, Options, done}
use hdfs.Client.Writer.Blocks
use hdfs.Client.Writer.Closing.{closing_calls, close_completes}
use hdfs.Client.Writer.Finalizing.{sent_bytes, stored}
use hdfs.Client.Writer.Blocks.{finalized, finalize_block, hang_up, complete}
use hdfs.Rpc.BlockWriter
use hdfs.Client.Writer.Rounds.{LoopEnds}
use hdfs.Client.Writer.Contents.{write_takes}
use hdfs.Client.Namespace.{make_dir, delete}
use hdfs.Client.Namespace.Outcomes.{info, make_dir_lem, delete_iff}
use hdfs.Client.Exceptions.{is_not_exist, interpret_exception}
use hdfs.Rpc.BlockReader.{BlockReader}
use hdfs.Client.Reader.{FileReader, seek, get_new_block_reader, readdir}
use hdfs.Client.Reader.Targets.{IsTarget}
use hdfs.Client.Reader.Positions.{seek_lem, IsIn, get_new_block_reader_lem}
use hdfs.Client.Reader.Listing.{readdir_lem}

-- Messages are their own bytes, and a datanode answers with a message of five bytes.
abbrev accepting : Conn
accepting = record {
  deadline_error = none;
  conn_write = λ written b. none;
  incoming = 5 ∷ 0 ∷ 0 ∷ 0 ∷ 0 ∷ 0 ∷ [];
  got = 5;
  acks = [];
}

abbrev network : Protocol
network = record {
  proto = record { Message = Bytes; marshal = λ m. ok m; unmarshal = λ t b. ok b };
  op_write_block = λ o. 1 ∷ [];
  new_response = [];
  is_success = λ m. true;
  marshal_header = λ h. inl (1 ∷ 2 ∷ []);
  crc = λ b. length b;
  dial = λ dials address. ok accepting;
  sprint = λ n. "50010";
}

abbrev block_of : ℕ → ℕ → LocatedBlock
block_of offset num_bytes = record {
  b = record { block_id = 7; generation_stamp = 1; num_bytes = num_bytes };
  offset = offset;
  locs = record { ip_addr = "10.0.0.1"; host_name = "dn"; xfer_port = 50010 } ∷ [];
  block_token = 0;
}

abbrev pub status_of : Bool → FileStatus
status_of is_dir = record { path = "a"; is_dir = is_dir; len = 10 }

-- Every call succeeds; `status` is what a path has.
abbrev pub namenode : Option FileStatus → Namenode
namenode status = record {
  on_get_file_info = λ h. inl status;
  on_create = λ h. inl tt;
  on_append = λ h. inl (none, 3, 4);
  on_get_server_defaults = λ h. inl (3, 4);
  on_add_block = λ h. inl (block_of 0 0);
  on_update_block_for_pipeline = λ h. inl tt;
  on_complete = λ h. inl tt;
  on_renew_lease = λ h. inl tt;
  on_delete = λ h. inl (some false);
  on_rename2 = λ h. inl tt;
  on_mkdirs = λ h. inl false;
  on_get_listing = λ h. inl (some (status_of false ∷ status_of true ∷ [], 0));
  on_get_block_locations = λ h. inl [];
  on_set_permission = λ h. inl tt;
  on_set_owner = λ h. inl tt;
  on_set_times = λ h. inl tt;
  on_get_content_summary = λ h. inr Error.eof;
  on_get_fs_stats = λ h. inr Error.eof;
}

abbrev pub options : Options
options = record { client_name = "go-hdfs"; use_datanode_hostname = false }

abbrev pub start : World
start = record { history = []; dials = 0; transcripts = []; files_w_open = 1; defaults = none }

abbrev new_file : FileWriter
new_file = record {
  name = "/a";
  replication = 3;
  block_size = 4;
  block_writer = none;
  closed = false;
}

abbrev six : Bytes
six = 1 ∷ 2 ∷ 3 ∷ 4 ∷ 5 ∷ 6 ∷ []

write_takes_example :
    LoopEnds network
      (namenode none)
      options
      new_file
      start
      0
      six
      (Blocks.write network (namenode none) options new_file start six)
write_takes_example =
    write_takes network (namenode none) options new_file start six refl (omega arith) (inl refl)

abbrev block_writer : BlockWriter
block_writer = record {
  client_name = "go-hdfs";
  block = block_of 0 0;
  block_size = 4;
  offset = 1;
  append = true;
  use_datanode_hostname = false;
  stream = none;
  closed = false;
}

write-Ends_example : Ends network block_writer 0 six
write-Ends_example = write-Ends network block_writer 0 six tt (omega arith)

-- A file with a block of one byte, of which the stream is not open yet.
abbrev appended : FileWriter
appended = record new_file { block_writer = some block_writer }

abbrev closed_file : FileWriter
closed_file = record new_file { closed = true }

abbrev closed_world : World
closed_world = record {
  history =
      Request.complete "/a" (some (finalized block_writer))
      ∷ Request.update_block_for_pipeline (finalized block_writer)
      ∷ [];
  dials = 0;
  transcripts = [];
  files_w_open = 0;
  defaults = none;
}

close_completes_example :
    (closed_file.closed ≡ true)
    × (closed_file.block_writer ≡ none)
    × (sent_bytes closed_world.transcripts ≡ stored appended start)
    × (closed_world.history ≡ closing_calls appended ++ [])
unfolding Blocks.close finalize_block hang_up complete remove_file BlockWriter.close
close_completes_example =
    close_completes network (namenode none) options appended start closed_file closed_world refl
      (λ bw e.
        let same : block_writer ≡ bw = cc in subst (λ (b : BlockWriter). IsOpen b.stream) same tt)
      refl

-- Paths are clean.
abbrev pub same : String → String
same name = name

make_dir_lem_example :
    let asked = Request.get_file_info "/a" ∷ [] in
    let made = Request.mkdirs "/a" 493 true ∷ asked in
    ((e : Error) × (info (namenode none) options same "/a" start ≡ inr e)
      × (is_not_exist (interpret_exception e) ≡ true)
      × ((result : Bool) × ((namenode none).on_mkdirs made ≡ inl result))
      × ((make_dir (namenode none) options same "/a" 493 true start).1.history ≡ made))
    ⊎ ((status : FileStatus) × (info (namenode none) options same "/a" start ≡ inl status)
        × (status.is_dir ≡ true)
        × (true ≡ true)
        × ((make_dir (namenode none) options same "/a" 493 true start).1.history ≡ asked))
unfolding make_dir get_file_info is_not_exist interpret_exception
make_dir_lem_example = make_dir_lem (namenode none) options same "/a" 493 true start refl

delete_iff_example :
    ((delete (namenode (some (status_of false))) options same "/a" true start).0 ≡ none) ↔ (
      ((status : FileStatus) × (info (namenode (some (status_of false))) options same "/a" start
          ≡ inl status))
      × ((deleted : Bool) × ((namenode none).on_delete
              (Request.delete "/a" true ∷ Request.get_file_info "/a" ∷ [])
            ≡ inl (some deleted))))
delete_iff_example = delete_iff (namenode (some (status_of false))) options same "/a" true start

abbrev reader : FileReader
reader = record {
  name = "/a";
  info = status_of true;
  blocks = block_of 0 6 ∷ block_of 6 4 ∷ [];
  block_reader = none;
  offset = 7;
  readdir_last = "";
  closed = false;
}

seek_lem_example :
    let (f', n, e) = seek reader (negsuc 2) (pos 2) in
    ((false ≡ true) × (f' ≡ reader) × (n ≡ 0) × (e ≡ some Error.closed_pipe))
    ⊎ (((false ≡ false)
          × (e ≡ none)
          × IsTarget reader (negsuc 2) (pos 2) n
          × (n ≤ 10)
          × (f'.offset ≡ n)
          × (n ≡ 7 → f' ≡ reader)
          × (n ≢ 7 → f' ≡ record reader { offset = n; block_reader = none }))
        ⊎ (((false ≡ false)
              × (f' ≡ reader)
              × (n ≡ 7)
              × (e ≡ some Error.invalid_whence)
              × (pos 2 ≢ pos 0)
              × (pos 2 ≢ pos 1)
              × (pos 2 ≢ pos 2))
            ⊎ ((false ≡ false)
                × (f' ≡ reader)
                × (n ≡ 7)
                × (e ≡ some Error.invalid_offset)
                × ((pos 2 ≡ pos 0) ⊎ ((pos 2 ≡ pos 1) ⊎ (pos 2 ≡ pos 2)))
                × ((k : ℕ) → IsTarget reader (negsuc 2) (pos 2) k → 10 < k))))
seek_lem_example =
    seek_lem reader (negsuc 2) (pos 2) (omega arith) (omega arith) (omega arith, omega arith)

get_new_block_reader_lem_example :
    let (f', e) = get_new_block_reader (namenode none) options same reader in
    (e ≡ none)
    × ((br : BlockReader) × (f'.block_reader ≡ some br)
        × IsIn reader.blocks br.block
        × (br.block.offset + br.offset ≡ 7)
        × (br.offset < br.block.b.num_bytes))
get_new_block_reader_lem_example =
    get_new_block_reader_lem (namenode none) options same reader (refl, (refl, refl)) (omega arith)
      (omega arith)

abbrev digest : Bytes
digest = 0 ∷ 1 ∷ 2 ∷ 3 ∷ 4 ∷ 5 ∷ 6 ∷ 7 ∷ 8 ∷ 9 ∷ 10 ∷ 11 ∷ 12 ∷ 13 ∷ 14 ∷ 15 ∷ []

readdir_lem_example :
    (r : FileReader × World × (List FileStatus ⊎ Error)) × (readdir
        (namenode none)
        options
        same
        1
        reader
        start
        (pos 1)
      ≡ done r)
    × ((res : List FileStatus) → r.2 ≡ inl res → (0 < length res) × (length res ≤ 1))
readdir_lem_example =
    readdir_lem (namenode none) options same reader start (pos 1) (λ h remaining e. ground arith)
      (omega arith)

-- The checksum of a chunk is its length.
abbrev lengths : Codec
lengths = record { crc = λ b. length b; unmarshal = λ b. (4, false) }

-- A packet of one chunk, with the checksum 5.
abbrev in_packet : ReadStream
in_packet = record {
  incoming = 1 ∷ 2 ∷ 3 ∷ 4 ∷ [];
  chunk_size = 4;
  checksums = 0 ∷ 0 ∷ 0 ∷ 5 ∷ [];
  chunk = [];
  packet_length = 4;
  chunk_index = 0;
  num_chunks = 1;
  last_packet = false;
}

abbrev four : Bytes
four = 1 ∷ 2 ∷ 3 ∷ 4 ∷ []

read_small_lem_example :
    let s = buffered lengths in_packet four [] (0 ∷ 0 ∷ []) in
    (from_big_endian 0 (5 ∷ []) ≡ 4
      → ReadStream.read lengths in_packet (0 ∷ 0 ∷ [])
        ≡ ok (record s { chunk = 3 ∷ 4 ∷ []; chunk_index = 1 }, 1 ∷ 2 ∷ [], 2, none))
    × (from_big_endian 0 (5 ∷ []) ≢ 4
        → (ReadStream.read lengths in_packet (0 ∷ 0 ∷ []) ≡ ok (s, 0 ∷ 0 ∷ [], 0, none))
          × (ReadStream.read lengths s (0 ∷ 0 ∷ [])
              ≡ ok (record s { chunk = 3 ∷ 4 ∷ [] }, 1 ∷ 2 ∷ [], 2, none)))
read_small_lem_example =
    read_small_lem lengths in_packet four [] (0 ∷ 0 ∷ [])
      (record {
        arriving = refl;
        whole = refl;
        nothing = refl;
        more = omega arith;
        in_packet = omega arith;
        has_sum = refl;
      })
      (omega arith)

-- A packet of three chunks with the checksum 2.
abbrev three_chunks : ReadStream
three_chunks = record {
  incoming = 1 ∷ 2 ∷ 3 ∷ 4 ∷ 5 ∷ 6 ∷ [];
  chunk_size = 2;
  checksums = 0 ∷ 0 ∷ 0 ∷ 2 ∷ 0 ∷ 0 ∷ 0 ∷ 2 ∷ 0 ∷ 0 ∷ 0 ∷ 2 ∷ [];
  chunk = [];
  packet_length = 6;
  chunk_index = 0;
  num_chunks = 3;
  last_packet = true;
}

read_whole_lem_example :
    let s' : ReadStream = record three_chunks { incoming = 5 ∷ 6 ∷ []; chunk_index = 2 } in
    ReadStream.read lengths three_chunks (0 ∷ 0 ∷ 0 ∷ 0 ∷ 7 ∷ [])
    ≡ ok (s', 1 ∷ 2 ∷ 3 ∷ 4 ∷ 7 ∷ [], 4, none)
read_whole_lem_example =
    read_whole_lem lengths three_chunks ((1 ∷ 2 ∷ []) ∷ (3 ∷ 4 ∷ []) ∷ []) (5 ∷ 6 ∷ [])
      (0 ∷ 0 ∷ 0 ∷ 0 ∷ 7 ∷ [])
      (record {
        arriving = refl;
        nothing = refl;
        more = omega arith;
        in_packet = omega arith;
        no_less = omega arith;
        fitting = refl;
        matching = (refl, refl, refl, (refl, refl, refl, tt));
      })
