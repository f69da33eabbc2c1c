-- ===== src/Examples/Listings.antt =====
-- Runs of the commands that list a directory.
use hdfs.Command.Changing.{rm}
use hdfs.Command.Listing.{
  Output, ls, du_dir, du_entries, each_page, classify, print_dots, print_files, name_line,
}
use hdfs.Client.Namespace.{stat, remove_all, delete}
use hdfs.Client.Reader.{readdir, readdir_loop, read_batch, cut}
use hdfs.Client.Writer.{out_of_fuel}
use hdfs.Prelude.Errors.{Error}
use hdfs.Command.Complete.{Command, command_of}
use hdfs.Command.Changing.{owner_of}
use hdfs.Command.Main.Cached.{get_client_again}
use hdfs.Command.Listing.Pages.{print_dir_lem, visible, dots}
use hdfs.Command.Listing.{print_dir}
use hdfs.Client.Requests.{World, Namenode, FileStatus, Request}
use hdfs.Client.Reader.Paging.{Lists}
use hdfs.Client.Reader.{last_name, open_file}
use hdfs.Client.Writer.{done, get_file_info}
use hdfs.Command.Main.{
  Environment, Clients, get_client, options_for, with_user, make_client, cached_client,
}
use hdfs.Client.Connecting.{ClientOptions, new_client, refuse_options, client_options_from_conf}
use hdfs.Hadoopconf.{namenodes, collect}
use hdfs.Prelude.Errors.{ok}
use hdfs.Prelude.{
  ◌+◌, ◌⊎◌, length, ◌≢◌, Bool-cases, append-nil, arith, sym, ℕ, String, List, [], ◌∷◌, ◌++◌, Option,
  some, none, inl, inr, refl, if◌then◌else◌, true, false, ◌≡◌,
}
use text.Mathlib.Text.{◌==◌ as str_eq}
use hdfs.Examples.Trees.{paths}
use hdfs.Examples.Files.{namenode, options, start, status_of}

-- A directory with one entry.
abbrev entries : String → List FileStatus
entries last = if str_eq last "" then status_of false ∷ [] else []

abbrev listing : List Request → Option (List FileStatus × ℕ)
listing (Request.get_listing name last ∷ h) = some (entries last, 0)
listing h = none

abbrev listed : Namenode
listed = record (namenode (some (status_of true))) { on_get_listing = λ h. inl (listing h) }

entries_move :
    (last : String) (xs ys : List FileStatus)
    → entries last ≡ xs ++ ys
    → entries (last_name listed options paths.base last xs) ≡ ys
entries_move last [] ys h = h
entries_move last (x ∷ xs) ys h = elim (Bool-cases (str_eq last "")) [
  | inr other ↦ absurd (ground arith)
  | inl first ↦
      let same : x ≡ status_of false = ground arith in
      let last_one : xs ++ ys ≡ [] = ground arith in entries_end x same xs ys last_one
]
  where
    entries_end :
        (x : FileStatus)
        → x ≡ status_of false
        → (xs ys : List FileStatus) → xs ++ ys ≡ []
        → entries (last_name listed options paths.base last (x ∷ xs)) ≡ ys
    entries_end x same [] ys e = rw same (sym e)
    entries_end x same (y ∷ xs) ys e = absurd (ground arith)

listed-Lists : Lists listed options paths.base "/d" entries
listed-Lists = record {
  moves = entries_move;
  batch = λ h last. entries last;
  rest = λ h last. [];
  parts = λ h last. sym (append-nil (entries last));
  answers = λ h last. refl;
  advances = λ h last e. refl;
}

print_dir_lem_example :
    (w' : World) × (print_dir paths listed options 2 2 false true "/d" start
      ≡ done (dots true ++ visible paths.base true (entries ""), w', none))
unfolding open_file get_file_info
print_dir_lem_example =
    print_dir_lem paths listed options true "/d" (status_of true) entries 2 2 start refl refl
      listed-Lists (omega arith) (omega arith)

-- The environment names a namenode, and connections are numbered.
abbrev environment : Environment ℕ
environment = record {
  getenv = λ name. if str_eq name "HADOOP_NAMENODE" then "nn" else "me";
  load = inl [];
  current_user = inl "me";
  get_kerberos_client = inl true;
  host_of = λ value. some value;
  sort = λ xs. xs;
  lower = λ s. s;
  connect = λ tried options. inl (length tried);
}

abbrev options_of_nn : ClientOptions
options_of_nn = record {
  addresses = some ("nn" ∷ []);
  user = "me";
  use_datanode_hostname = false;
  kerberos_client = none;
  kerberos_service_principle_name = "";
}

abbrev no_clients : Clients ℕ
no_clients = record { cached = []; tried = [] }

abbrev one_client : Clients ℕ
one_client = record { cached = ("nn", 0) ∷ []; tried = options_of_nn ∷ [] }

abbrev no_name : String
no_name = ""

get_client_again_example :
    ((no_name ≢ "") ⊎ (environment.getenv "HADOOP_NAMENODE" ≡ "")
      → get_client environment "" one_client ≡ ok (one_client, inl 0))
    × (no_name ≡ ""
        → environment.getenv "HADOOP_NAMENODE" ≢ ""
        → cached_client "" no_clients.cached ≡ none
        → (s'' : Clients ℕ) (c' : ℕ) → get_client environment "" one_client ≡ ok (s'', inl c')
        → length s''.tried ≡ length one_client.tried + 1)
unfolding get_client options_for with_user make_client new_client refuse_options
    client_options_from_conf namenodes collect
get_client_again_example = get_client_again environment "" no_clients one_client 0 refl

both_dispatched : command_of "tail" ≡ Command.print_section true
unfolding command_of
both_dispatched = refl

owner_only : owner_of (λ arg. arg ∷ []) "me" ≡ some ("me", "me")
unfolding owner_of
owner_only = refl

-- A directory is not removed, and its name printed with an error.
rm_keeps : rm paths listed options false true ("/d" ∷ []) ([], 0) start ≡ (
  (Error.path_error "remove" "/d" Error.is_directory ∷ [], 1),
  (get_file_info listed options "/d" start).1,
  none,
)
unfolding rm stat get_file_info remove_all delete
rm_keeps = refl

-- On this namenode each path is a directory, so that `du` goes down as deep as it may.
du_deeper : du_dir paths listed options 2 2 1 "/d" [] start ≡ out_of_fuel
unfolding du_dir du_entries each_page readdir readdir_loop read_batch cut open_file stat
    get_file_info
du_deeper = refl

-- `ls -a` of this directory.
ls_all :
    (r : Output) × (ls paths listed options 2 2 "me" ("/d" ∷ []) false true start ≡ done r)
    × (r.0 ≡ name_line "." ∷ name_line ".." ∷ name_line "a" ∷ [])
unfolding ls classify print_dir print_dots print_files each_page readdir readdir_loop read_batch cut
    open_file stat get_file_info
ls_all = (_, refl, refl)
