-- ===== src/Command/Cat/Tail.antt =====
-- What `tail` prints.
use hdfs.Prelude.{
  leb→le, ltb→lt, ℕ, zero, suc, ◌+◌, ◌-◌, min, ◌≤◌, ◌<◌, ◌≡◌, refl, sym, ap, ◌∙◌, ◌⊎◌, inl, inr,
  some, List, [], ◌∷◌, Bytes, length, take, drop, get_elem?, ltb, leb, ◌==◌, ◌&&◌, if◌then◌else◌,
  arith, Bool-cases, drop-drop, length-drop, drop_all,
}
use hdfs.Prelude.Errors.{ok}
use hdfs.Command.Cat.{
  newline, tail_search_size, newline_offsets, print_offset_at, tail_search, tail_lines,
}

-- The newlines of the end of a file, but for one that ends it.
abbrev pub inner_newlines : Bytes → ℕ
inner_newlines [] = 0
inner_newlines (b ∷ rest) =
    (if (b == newline) && ltb 0 (length rest) then 1 else 0) + inner_newlines rest

newline_offsets_count :
    (off r : ℕ) (s : Bytes)
    → length (newline_offsets (off + length s) off (take r s)) + inner_newlines (drop r s)
      ≡ inner_newlines s
unfolding newline_offsets
newline_offsets_count off zero s = omega arith
newline_offsets_count off (suc r) [] = omega arith
newline_offsets_count off (suc r) (b ∷ s) =
    let rest = newline_offsets_count (off + 1) r s in
    let same : off + 1 + length s ≡ off + suc (length s) = omega arith in
    let k = rw same at rest in ground arith

-- The place of a newline of a section, with what follows it.
newline_offsets_elem :
    (off r i : ℕ) (s : Bytes)
    → i < length (newline_offsets (off + length s) off (take r s))
    → (k : ℕ) × (get_elem? (newline_offsets (off + length s) off (take r s)) i ≡ some (off + k))
      × (get_elem? s k ≡ some newline)
      × (k + 1 < length s)
      × (inner_newlines (drop (suc k) s) + (i + 1) ≡ inner_newlines s)
unfolding newline_offsets
newline_offsets_elem off zero i s h = absurd (omega arith)
newline_offsets_elem off (suc r) i [] h = absurd (omega arith)
newline_offsets_elem off (suc r) zero (b ∷ s) h =
    elim (Bool-cases ((b == newline) && ltb 0 (length s))) [
      | inl found ↦ (0, ground arith, ground arith, ground arith, ground arith)
      | inr other ↦
          let same : off + 1 + length s ≡ off + suc (length s) = omega arith in
          let (k, at, is, more, count) =
            newline_offsets_elem (off + 1) r 0 s (rw same (ground arith)) in
          let at' = rw same at at in
          let eq : off + 1 + k ≡ off + suc k = omega arith in
          (suc k, ground arith, is, omega arith, ground arith)
    ]
newline_offsets_elem off (suc r) (suc j) (b ∷ s) h =
    let same : off + 1 + length s ≡ off + suc (length s) = omega arith in
    elim (Bool-cases ((b == newline) && ltb 0 (length s))) [
      | inl found ↦
          let (k, at, is, more, count) =
            newline_offsets_elem (off + 1) r j s (rw same (ground arith)) in
          let at' = rw same at at in
          let eq : off + 1 + k ≡ off + suc k = omega arith in
          (suc k, ground arith, is, omega arith, ground arith)
      | inr other ↦
          let (k, at, is, more, count) =
            newline_offsets_elem (off + 1) r (suc j) s (rw same (ground arith)) in
          let at' = rw same at at in
          let eq : off + 1 + k ≡ off + suc k = omega arith in
          (suc k, ground arith, is, omega arith, ground arith)
    ]

get_elem?-drop : (n k : ℕ) (s : Bytes) → get_elem? (drop n s) k ≡ get_elem? s (n + k)
get_elem?-drop zero k s = ap (get_elem? s) (omega arith)
get_elem?-drop (suc n) k [] = refl
get_elem?-drop (suc n) k (b ∷ s) =
    let e : suc n + k ≡ suc (n + k) = omega arith in rw e (get_elem?-drop n k s)

-- What stands behind a newline in the file, with a number of newlines that do not end the file; or
-- the start of the file, when less of them stand behind the last search point, which is below a
-- window's size, and 0 in a file of one window.
abbrev pub Found : ℕ → Bytes → ℕ → Type 0
Found num_lines file offset =
    ((k : ℕ) × (offset ≡ k + 1)
      × (get_elem? file k ≡ some newline)
      × (offset < length file)
      × (inner_newlines (drop offset file) + 1 ≡ num_lines))
    ⊎ ((offset ≡ 0)
        × ((search_point : ℕ) × (search_point < tail_search_size)
            × (length file ≤ tail_search_size → search_point ≡ 0)
            × (inner_newlines (drop search_point file) < num_lines)))

print_offset_in_range :
    (newlines : List ℕ) (i off : ℕ)
    → get_elem? newlines i ≡ some off
    → print_offset_at newlines i ≡ ok (off + 1)
print_offset_in_range newlines i off h = rw (print_offset_at, h) refl

module _ (file : Bytes) (read_size num_lines : ℕ) where
  abbrev section_offsets : ℕ → List ℕ
  section_offsets search_point =
      newline_offsets (length file) search_point (take read_size (drop search_point file))

  -- A window in which enough newlines stand.
  window-Found :
      (search_point wanted : ℕ)
      → search_point ≤ length file
      → 0 < wanted
      → wanted ≤ length (section_offsets search_point)
      → wanted + inner_newlines (drop (search_point + read_size) file) ≡ num_lines
      → (offset : ℕ) × (print_offset_at
            (section_offsets search_point)
            (length (section_offsets search_point) - wanted)
          ≡ ok offset)
        × Found num_lines file offset
  window-Found sp wanted fits some_wanted enough count =
      let s : Bytes = drop sp file in
      let size : sp + length s ≡ length file = omega (arith, length-drop sp file) in
      let all = newline_offsets_count sp read_size s in
      let (k, at, is, more, behind) =
        newline_offsets_elem sp read_size (length (section_offsets sp) - wanted) s
          (rw size (omega arith)) in
      let at' = rw size at at in
      let all' = rw (size, drop-drop read_size sp file) at all in
      let place : sp + suc k ≡ sp + k + 1 = omega arith in
      let behind' = rw (drop-drop (suc k) sp file, place) at behind in
      (
        sp + k + 1,
        print_offset_in_range (section_offsets sp) _ (sp + k) at',
        inl (sp + k, refl, sym (get_elem?-drop sp k file) ∙ is, omega arith, omega arith),
      )

  module _ (fuel : ℕ) (search_point wanted : ℕ) where
    search_found :
        wanted ≤ length (section_offsets search_point)
        → tail_search (suc fuel) file read_size wanted search_point
          ≡ some (
              print_offset_at
                (section_offsets search_point)
                (length (section_offsets search_point) - wanted))
    unfolding tail_search
    search_found h = ground arith

    search_ends :
        length (section_offsets search_point) < wanted
        → search_point < tail_search_size
        → tail_search (suc fuel) file read_size wanted search_point ≡ some (ok 0)
    unfolding tail_search
    search_ends h k = ground arith

    search_goes_on :
        length (section_offsets search_point) < wanted
        → tail_search_size ≤ search_point
        → tail_search (suc fuel) file read_size wanted search_point
          ≡ tail_search fuel file read_size
              (wanted - length (section_offsets search_point))
              (search_point - tail_search_size)
    unfolding tail_search
    search_goes_on h k = ground arith

  tail_search-Found :
      (fuel search_point wanted : ℕ)
      → search_point < fuel
      → read_size ≡ min tail_search_size (length file)
      → search_point + read_size ≤ length file
      → 0 < wanted
      → wanted + inner_newlines (drop (search_point + read_size) file) ≡ num_lines
      → (offset : ℕ) × (tail_search fuel file read_size wanted search_point ≡ some (ok offset))
        × Found num_lines file offset
  tail_search-Found zero sp wanted enough window fits some_wanted count = absurd (omega arith)
  tail_search-Found (suc fuel) sp wanted enough window fits some_wanted count =
      elim (Bool-cases (leb wanted (length (section_offsets sp)))) [
        | inl here ↦
            let (offset, at, found) =
              window-Found sp wanted (omega arith) some_wanted (leb→le _ _ here) count in
            (offset, search_found fuel sp wanted (leb→le _ _ here) ∙ ap some at, found)
        | inr missing ↦
            let few : length (section_offsets sp) < wanted = ground arith in
            let s : Bytes = drop sp file in
            let size : sp + length s ≡ length file = omega (arith, length-drop sp file) in
            let all =
              rw (size, drop-drop read_size sp file) at (newline_offsets_count sp read_size s) in
            elim (Bool-cases (ltb sp tail_search_size)) [
              | inl last ↦ (
                0,
                search_ends fuel sp wanted few (ltb→lt _ _ last),
                inr (refl, (sp, ltb→lt _ _ last, (λ small. omega arith), omega arith)),
              )
              | inr more ↦
                  let back : tail_search_size ≤ sp = ground arith in
                  let next : sp - tail_search_size + read_size ≡ sp = omega arith in
                  let (offset, at, found) =
                    tail_search-Found fuel (sp - tail_search_size)
                      (wanted - length (section_offsets sp)) (omega arith) window (omega arith)
                      (omega arith) (rw next (omega arith)) in
                  (offset, search_goes_on fuel sp wanted few back ∙ at, found)
            ]
      ]

-- `tail` of one line or more returns, and prints an end of the file: the whole file, if fewer newlines
-- than lines stand behind some search point below 16384, which is 0 for files of up to 16384 bytes; or
-- what stands behind a newline that does not end the file, such that with it as many newlines that do
-- not end the file are left as lines are asked for.
pub tail_lines_lem :
    (num_lines : ℕ) (file : Bytes)
    → 0 < num_lines
    → (offset : ℕ) × (tail_lines num_lines file ≡ some (ok (drop offset file)))
      × Found num_lines file offset
unfolding tail_lines
tail_lines_lem num_lines file h =
    let read_size = min tail_search_size (length file) in
    let (offset, at, found) =
      tail_search-Found file read_size num_lines (length file + 1) (length file - tail_search_size)
        num_lines (omega arith) refl (omega arith) h
        (rw (drop_all (length file - tail_search_size + read_size) file (omega arith))
          (omega arith)) in
    (offset, rw (tail_lines, at) refl, found)
