-- ===== src/Examples/Commands.antt =====
-- Runs of the commands.
use hdfs.Prelude.{
  List, Option, not, ◌&&◌, refl, inl, String, true, false, ℕ, ◌+◌, ◌<◌, ◌≡◌, ◌⊎◌, some, [], ◌∷◌,
  ◌++◌, Bytes, drop, arith,
}
use hdfs.Prelude.Errors.{panic, Error, ok}
use hdfs.Client.Requests.{Request, Namenode}
use hdfs.Client.Writer.{get_file_info}
use hdfs.Client.Namespace.{stat}
use hdfs.Hadoopconf.{Conf, member, namenodes}
use hdfs.Hadoopconf.Namenodes.{
  listed, names, names_cluster, is_invalid, some_property, namenodes_lem,
}
use hdfs.Command.Paths.{Url, normalize_paths}
use hdfs.Command.Paths.Hosts.{Normalized, normalize_paths-Normalized}
use hdfs.Command.Move.{move_to}
use hdfs.Command.Move.Overwriting.{move_to_keeps}
use hdfs.Examples.Files.{namenode, options, start, status_of, same}
use hdfs.Command.Cat.{head_lines, tail_lines}
use hdfs.Command.Cat.Tail.{Found, inner_newlines, tail_lines_lem}
use hdfs.Command.Cat.Head.{IsHead, head_lines-IsHead, head_lines-tail_lines}

-- Three lines, the last of them ended.
abbrev three_lines : Bytes
three_lines = 97 ∷ 10 ∷ 98 ∷ 10 ∷ 99 ∷ 10 ∷ []

tail_lines_lem_example :
    (offset : ℕ) × (tail_lines 2 three_lines ≡ some (ok (drop offset three_lines)))
    × Found 2 three_lines offset
tail_lines_lem_example = tail_lines_lem 2 three_lines (omega arith)

head_lines-IsHead_example : IsHead 2 three_lines (head_lines 2 three_lines)
head_lines-IsHead_example = head_lines-IsHead 2 three_lines

head_lines-tail_lines_example :
    (before : ℕ) × (out : Bytes) × (tail_lines 2 three_lines ≡ some (ok out))
    × (head_lines before three_lines ++ out ≡ three_lines)
    × ((inner_newlines out + 1 ≡ 2) ⊎ ((before ≡ 0) × (inner_newlines out < 2)))
head_lines-tail_lines_example = head_lines-tail_lines 2 three_lines (omega arith) (omega arith)

-- Urls that are paths on one host.
abbrev on_one_host : String → Url ⊎ Error
on_one_host raw = inl (record { host = "nn"; path = raw })

normalize_paths-Normalized_example :
    Normalized on_one_host same ""
      ("/a" ∷ "/b" ∷ [])
      []
      (normalize_paths on_one_host same ("/a" ∷ "/b" ∷ []))
normalize_paths-Normalized_example = normalize_paths-Normalized on_one_host same ("/a" ∷ "/b" ∷ [])

-- A namenode on which every path is a file.
abbrev files : Namenode
files = namenode (some (status_of false))

move_to_keeps_example :
    let r = move_to files options same same (λ a b. b) "/a" "/b" false start in
    ((e : Error) × (r.0 ≡ some e))
    × ((r.1.history ≡ Request.get_file_info "/a" ∷ [])
        ⊎ (r.1.history ≡ Request.get_file_info "/b" ∷ Request.get_file_info "/a" ∷ []))
unfolding stat get_file_info
move_to_keeps_example =
    move_to_keeps files options same same (λ a b. b) "/a" "/b" start (status_of false) refl

abbrev one_property : Conf
one_property = ("fs.defaultFS", "nn") ∷ []

abbrev whole : String → Option String
whole value = some value

abbrev unsorted : List String → List String
unsorted xs = xs

namenodes_lem_example :
    ((namenodes whole unsorted one_property ≡ panic)
      × (some_property whole unsorted (is_invalid whole unsorted) one_property ≡ true))
    ⊎ ((r : Option (List String)) × (namenodes whole unsorted one_property ≡ ok r)
        × (some_property whole unsorted (is_invalid whole unsorted) one_property ≡ false)
        × ((x : String)
            → member x (listed whole unsorted r) ≡ (
                some_property whole unsorted (names whole unsorted x) one_property
                && not
                    (some_property whole unsorted (names_cluster whole unsorted x) one_property))))
namenodes_lem_example = namenodes_lem whole unsorted (λ x xs. refl) one_property
