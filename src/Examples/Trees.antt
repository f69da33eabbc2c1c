-- ===== src/Examples/Trees.antt =====
-- Runs over a tree of files: a directory with two files.
use hdfs.Command.Globs.Stuck.{expand_globs_stuck}
use hdfs.Command.Globs.Found.{expand_paths-Expands, Expands}
use hdfs.Command.Globs.{user_dir, expand_globs, expand_paths, cut_at_glob, PathPackage}
use hdfs.Client.Walk.Order.{walk-run}
use hdfs.Client.Writer.{out_of_fuel, get_file_info, done}
use hdfs.Client.Reader.{cut, read_batch, readdir_loop, readdir, readdirnames, open_file}
use hdfs.Client.Walk.{walk}
use hdfs.Client.Walk.Trees.{
  end, depth, leaf, child, visits, lift, run, node, Tree, Serves, Callback,
}
use hdfs.Client.Requests.{World, Request, FileStatus, Namenode}
use hdfs.Command.Globs.{split_at, has_glob, expand_loop, expand_entries, expand_entry}
use hdfs.Client.Queries.{read_dir}
use hdfs.Client.Namespace.{stat}
use hdfs.Prelude.{◌≡◌, String, List, [], ◌∷◌, some, none, inl, refl, true}
use hdfs.Examples.Files.{namenode, options, start, status_of, same}
use Prim.Native.String.{len, slice, ◌++◌ as ◌<>◌}
use text.Mathlib.Text.{◌==◌ as str_eq}

-- "/d" is the directory, which lists "b" and then "a"; every other path is a file.
abbrev status_at : String → FileStatus
status_at path = record { path = path; is_dir = str_eq path "/d"; len = 10 }

abbrev asked_for : List Request → String
asked_for (Request.get_file_info path ∷ h) = path
asked_for h = ""

abbrev directory : Namenode
directory = record (namenode none) {
  on_get_file_info = λ h. inl (some (status_at (asked_for h)));
  on_get_listing = λ h. inl (some (status_at "b" ∷ status_at "a" ∷ [], 0));
}

abbrev below : String → String → String
below dir name = dir <> "/" <> name

abbrev turned : List String → List String
turned (x ∷ y ∷ xs) = y ∷ x ∷ xs
turned xs = xs

-- It notes the paths, the last one first, and skips nothing.
abbrev noting : Callback (List String)
noting s path info error = (path ∷ s, error)

abbrev tree : Tree
tree =
    node (status_at "/d")
      (child "a" (leaf (status_at "/d/a")) (child "b" (leaf (status_at "/d/b")) end))

tree-Serves : Serves directory options same below turned 1 tree "/d"
unfolding Serves open_file get_file_info readdirnames readdir readdir_loop read_batch cut
tree-Serves = (
  λ w. refl,
  refl,
  ("b" ∷ "a" ∷ [], refl, λ w. (_, _, refl)),
  ((λ w. refl, refl), ((λ w. refl, refl), tt)),
)

walk-run_example :
    (w' : World) × (walk directory options same below turned
        (lift noting)
        1
        (depth tree)
        "/d"
        []
        start
      ≡ let r = run noting 0 (visits below tree "/d") [] in done (r.0, w', r.1))
walk-run_example =
    walk-run directory options same below turned 1 noting tree "/d" [] start tree-Serves

visited : (run noting 0 (visits below tree "/d") []).0 ≡ "/d/b" ∷ "/d/a" ∷ "/d" ∷ []
unfolding run visits
visited = refl

-- Paths of one part below the root.
abbrev pub glued : List String → String
glued [] = ""
glued (x ∷ xs) = x <> glued xs

abbrev pub paths : PathPackage
paths = record {
  clean = same;
  base = same;
  join = glued;
  is_abs = λ path. true;
  match = λ glob name. str_eq glob "*";
  split = λ path. "" ∷ slice path 1 (len path) ∷ [];
}

-- The root lists these.
abbrev root_lists : List FileStatus → Namenode
root_lists statuses = record (namenode (some (status_of true))) {
  on_get_listing = λ h. inl (some (statuses, 0));
}

expand_paths-Expands_example :
    Expands paths
      (root_lists (status_at "a" ∷ []))
      options
      (user_dir paths "me")
      1
      1
      ("/*" ∷ "/x" ∷ [])
      ("/a" ∷ "/x" ∷ [])
unfolding expand_paths expand_loop expand_globs expand_entries expand_entry stat cut_at_glob
    split_at has_glob read_dir open_file get_file_info readdir readdir_loop read_batch cut
expand_paths-Expands_example =
    expand_paths-Expands paths (root_lists (status_at "a" ∷ [])) options 1 1 "me" ("/*" ∷ "/x" ∷ [])
      start _ ("/a" ∷ "/x" ∷ []) refl

-- A directory with the name of the glob.
abbrev star : FileStatus
star = record { path = "*"; is_dir = true; len = 0 }

abbrev root_is_directory : Namenode
root_is_directory = record (root_lists (star ∷ [])) { on_get_file_info = λ h. inl (some star) }

expand_globs_stuck_example :
    expand_globs paths root_is_directory options 1 5 "/*" start ≡ out_of_fuel
unfolding cut_at_glob split_at has_glob read_dir open_file get_file_info readdir readdir_loop
    read_batch cut
expand_globs_stuck_example =
    expand_globs_stuck paths root_is_directory options 1 "/*"
      (record { base = "/"; glob = "*"; next = ""; remainder = "" }) star refl refl refl refl refl
      (λ w. (_, _, refl)) 5 start
