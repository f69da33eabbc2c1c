-- ===== src/Command/Cat.antt =====
-- cmd/hdfs/cat.go: the commands `cat`, `head` and `tail`, on files whose contents can be read: a read
-- that fails ends the program. A flag of -1, which is its default, is `none`; other negative numbers of
-- lines or bytes are left out.
pub mod Tail
pub mod Head
use hdfs.Prelude.{
  ℕ, zero, suc, ◌+◌, ◌-◌, min, Bool, true, false, not, Option, none, some, List, [], ◌∷◌, ◌++◌,
  Bytes, length, take, drop, get_elem?, ltb, leb, ◌==◌, ◌&&◌, if◌then◌else◌,
}
use hdfs.Prelude.Errors.{Error, Result, ok, err, panic, ◌>>=◌}

abbrev pub newline : ℕ
newline = 10

abbrev pub tail_search_size : ℕ
tail_search_size = 16384

-- The loop of `headLines`, with the newlines that are missing: how much is to be printed, `none` for
-- all.
unfoldable pub head_offset : ℕ → Bytes → Option ℕ
head_offset zero rest = some 0
head_offset (suc missing) [] = none
head_offset (suc missing) (b ∷ rest) =
    let more = head_offset (if b == newline then missing else suc missing) rest in
    elim more [ none ↦ none | some offset ↦ some (offset + 1) ]

-- `headLines`: what it prints of the file.
unfoldable pub head_lines : ℕ → Bytes → Bytes
head_lines num_lines file = elim (head_offset num_lines file) [
  | none ↦ file
  | some offset ↦ take offset file
]

-- The places of the newlines of a section that stands at `off`, but for one that ends the file.
unfoldable pub newline_offsets : ℕ → ℕ → Bytes → List ℕ
newline_offsets file_size off [] = []
newline_offsets file_size off (b ∷ section) =
    let rest = newline_offsets file_size (off + 1) section in
    if (b == newline) && not (off + 1 == file_size) then off ∷ rest else rest

-- `newlines[foundNewlines-numLines] + 1`, in or out of range.
abbrev pub print_offset_at : List ℕ → ℕ → Result ℕ
print_offset_at newlines i = elim (get_elem? newlines i) [ none ↦ panic | some off ↦ ok (off + 1) ]

-- The loop of `tailLines` from a search point that is not negative: where to print from, `none` when
-- the fuel is used up.
unfoldable pub tail_search : ℕ → Bytes → ℕ → ℕ → ℕ → Option (Result ℕ)
tail_search zero file read_size num_lines search_point = none
tail_search (suc fuel) file read_size num_lines search_point =
    let newlines =
      newline_offsets (length file) search_point (take read_size (drop search_point file)) in
    let next =
      tail_search fuel file read_size (num_lines - length newlines)
        (search_point - tail_search_size) in
    if leb num_lines (length newlines)
    then some (print_offset_at newlines (length newlines - num_lines))
    else if ltb search_point tail_search_size
    then some (ok 0)
    else next

-- `tailLines`: what it prints of the file. There are not more rounds than bytes, but for one.
unfoldable pub tail_lines : ℕ → Bytes → Option (Result Bytes)
tail_lines num_lines file =
    elim (tail_search (length file + 1) file (min tail_search_size (length file)) num_lines
      (length file - tail_search_size)) [
        | none ↦ none
        | some r ↦ some (r >>= λ offset. ok (drop offset file))
      ]

-- The bytes that `printSection` prints for a number of bytes. A section that starts before the file
-- cannot be read, and the error of the copy is not looked at.
unfoldable pub print_bytes : Bool → ℕ → Bytes → Bytes
print_bytes false num_bytes file = take num_bytes file
print_bytes true num_bytes file =
    if ltb (length file) num_bytes then [] else take num_bytes (drop (length file - num_bytes) file)

-- What `printSection` prints of one file, with its flags: an error for both of them.
unfoldable pub section_of : Option ℕ → Option ℕ → Bool → Bytes → Option (Result Bytes)
section_of (some n) (some c) from_end file = some (err Error.invalid_offset)
section_of none (some c) from_end file = some (ok (print_bytes from_end c file))
section_of (some n) none true file = tail_lines n file
section_of (some n) none false file = some (ok (head_lines n file))
section_of none none true file = tail_lines 10 file
section_of none none false file = some (ok (head_lines 10 file))

-- How `Open` of a path ends, as far as `cat` looks at it.
pub data Opened : Type 0 where
  contents : Bytes → Opened
  directory : Opened
  refused : Error → Opened

-- `cat` of the paths: the bytes, or the first error, before which nothing is printed.
unfoldable pub cat : List Opened → Result Bytes
cat [] = ok []
cat (contents b ∷ files) = cat files >>= λ rest. ok (b ++ rest)
cat (directory ∷ files) = err Error.is_directory
cat (refused e ∷ files) = err e
