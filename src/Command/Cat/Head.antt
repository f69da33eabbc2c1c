-- ===== src/Command/Cat/Head.antt =====
-- What `head` prints, and how it fits what `tail` prints.
use hdfs.Prelude.{
  ℕ, zero, suc, ◌+◌, ◌-◌, min, ◌≤◌, ◌<◌, ◌≡◌, refl, sym, ap, ◌∙◌, ◌⊎◌, inl, inr, true, false, none,
  some, [], ◌∷◌, ◌++◌, Bytes, length, take, drop, get_elem?, ◌==◌, if◌then◌else◌, arith, Bool-cases,
  take-append-drop,
}
use hdfs.Prelude.Errors.{ok}
use hdfs.Command.Cat.{newline, tail_search_size, head_offset, head_lines, tail_lines}
use hdfs.Command.Cat.Tail.{inner_newlines, tail_lines_lem}

-- The first lines of a file, byte by byte.
abbrev pub first_lines : ℕ → Bytes → Bytes
first_lines zero s = []
first_lines (suc n) [] = []
first_lines (suc n) (b ∷ s) = b ∷ first_lines (if b == newline then n else suc n) s

abbrev pub newlines_of : Bytes → ℕ
newlines_of [] = 0
newlines_of (b ∷ s) = (if b == newline then 1 else 0) + newlines_of s

head_offset_lem :
    (n : ℕ) (s : Bytes)
    → ((head_offset n s ≡ none) × (first_lines n s ≡ s))
      ⊎ ((offset : ℕ) × (head_offset n s ≡ some offset) × (first_lines n s ≡ take offset s))
unfolding head_offset
head_offset_lem zero s = inr (0, refl, refl)
head_offset_lem (suc n) [] = inl (refl, refl)
head_offset_lem (suc n) (b ∷ s) = elim (head_offset_lem (if b == newline then n else suc n) s) [
  | inl (h, k) ↦ inl (rw (head_offset, h) refl, ap (λ t. b ∷ t) k)
  | inr (offset, h, k) ↦
      let e : offset + 1 ≡ suc offset = omega arith in
      inr (suc offset, rw (head_offset, h, e) refl, ap (λ t. b ∷ t) k)
]

head_lines-first_lines : (n : ℕ) (file : Bytes) → head_lines n file ≡ first_lines n file
unfolding head_lines
head_lines-first_lines n file = elim (head_offset_lem n file) [
  | inl (h, k) ↦ rw (head_lines, h) (sym k)
  | inr (offset, h, k) ↦ rw (head_lines, h) (sym k)
]

-- The bytes end with a newline.
abbrev pub EndsLine : Bytes → Type 0
EndsLine [] = ⊥
EndsLine (b ∷ []) = b ≡ newline
EndsLine (b ∷ c ∷ s) = EndsLine (c ∷ s)

-- A front of a file with as many newlines as asked for, or with all of the file; it is empty when no
-- lines are asked for, and ends with a newline when there are enough.
pub record IsHead (num_lines : ℕ) (file out : Bytes) : Type 0 where
  pub rest : Bytes
  pub front : out ++ rest ≡ file
  pub lines : newlines_of out ≡ min num_lines (newlines_of file)
  pub empty : num_lines ≡ 0 → out ≡ []
  pub whole : newlines_of file < num_lines → rest ≡ []
  pub ends : 0 < num_lines → num_lines ≤ newlines_of file → EndsLine out

EndsLine-cons : (b : ℕ) (s : Bytes) → EndsLine s → EndsLine (b ∷ s)
EndsLine-cons b [] h = absurd h
EndsLine-cons b (c ∷ s) h = h

module _ (n b : ℕ) (s out : Bytes) where
  IsHead-newline : (b == newline) ≡ true → IsHead n s out → IsHead (suc n) (b ∷ s) (b ∷ out)
  IsHead-newline same r = record {
    rest = r.rest;
    front = ap (λ t. b ∷ t) r.front;
    lines = let k = r.lines in ground arith;
    empty = λ h. absurd (omega arith);
    whole = λ h. r.whole (ground arith);
    ends = λ h k. elim (Bool-cases (n == 0)) [
      | inl zero_left ↦ rw (r.empty (ground arith)) (ground arith)
      | inr more ↦ EndsLine-cons b out (r.ends (ground arith) (ground arith))
    ];
  }

  IsHead-other : (b == newline) ≡ false → IsHead (suc n) s out → IsHead (suc n) (b ∷ s) (b ∷ out)
  IsHead-other other r = record {
    rest = r.rest;
    front = ap (λ t. b ∷ t) r.front;
    lines = let k = r.lines in ground arith;
    empty = λ h. absurd (omega arith);
    whole = λ h. r.whole (ground arith);
    ends = λ h k. EndsLine-cons b out (r.ends (omega arith) (ground arith));
  }

first_lines-IsHead : (n : ℕ) (s : Bytes) → IsHead n s (first_lines n s)
first_lines-IsHead zero s = record {
  rest = s;
  front = refl;
  lines = omega arith;
  empty = λ h. refl;
  whole = λ h. absurd (omega arith);
  ends = λ h k. absurd (omega arith);
}
first_lines-IsHead (suc n) [] = record {
  rest = [];
  front = refl;
  lines = omega arith;
  empty = λ h. refl;
  whole = λ h. refl;
  ends = λ h k. absurd (omega arith);
}
first_lines-IsHead (suc n) (b ∷ s) = elim (Bool-cases (b == newline)) [
  | inl same ↦ rw same (IsHead-newline n b s (first_lines n s) same (first_lines-IsHead n s))
  | inr other ↦
      rw other (IsHead-other n b s (first_lines (suc n) s) other (first_lines-IsHead (suc n) s))
]

-- `head` prints a front of the file with as many newlines as lines are asked for, or with all that
-- there are. It prints nothing for no lines, all of a file with fewer newlines, and else ends with
-- a newline.
pub head_lines-IsHead :
    (num_lines : ℕ) (file : Bytes) → IsHead num_lines file (head_lines num_lines file)
head_lines-IsHead num_lines file =
    rw (head_lines-first_lines num_lines file) (first_lines-IsHead num_lines file)

newline_counts :
    (k : ℕ) (s : Bytes) → get_elem? s k ≡ some newline → 0 < newlines_of (take (suc k) s)
newline_counts k [] h = absurd (ground arith)
newline_counts zero (b ∷ s) h = ground arith
newline_counts (suc k) (b ∷ s) h = omega (arith, newline_counts k s h)

module _ (m n b : ℕ) (s : Bytes) (more : m ≡ suc n) where
  first_lines-newline : (b == newline) ≡ true → first_lines m (b ∷ s) ≡ b ∷ first_lines n s
  first_lines-newline same = rw (more, same) refl

  first_lines_other : (b == newline) ≡ false → first_lines m (b ∷ s) ≡ b ∷ first_lines m s
  first_lines_other other = rw (more, other) refl

-- Up to a newline, a file is its first lines.
first_lines_up_to :
    (k : ℕ) (s : Bytes)
    → get_elem? s k ≡ some newline
    → first_lines (newlines_of (take (suc k) s)) s ≡ take (suc k) s
first_lines_up_to k [] h = absurd (ground arith)
first_lines_up_to zero (b ∷ s) h =
    first_lines-newline (newlines_of (b ∷ [])) 0 b s (ground arith) (ground arith)
first_lines_up_to (suc k) (b ∷ s) h =
    let m = newlines_of (take (suc k) s) in
    let some_newline = newline_counts k s h in
    let rest = ap (λ t. b ∷ t) (first_lines_up_to k s h) in
    elim (Bool-cases (b == newline)) [
      | inl same ↦
          first_lines-newline (newlines_of (b ∷ take (suc k) s)) m b s (ground arith) same ∙ rest
      | inr other ↦
          let none_here : newlines_of (b ∷ take (suc k) s) ≡ m = ground arith in
          ap (λ c. first_lines c (b ∷ s)) none_here
          ∙ first_lines_other m (m - 1) b s (omega arith) other
          ∙ rest
    ]

-- What `tail` prints of a file of up to 16384 bytes are the last lines of it, or all if there are not
-- so many, and `head`, for some number of lines, prints just what stands before them.
pub head_lines-tail_lines :
    (num_lines : ℕ) (file : Bytes)
    → 0 < num_lines
    → length file ≤ tail_search_size
    → (before : ℕ) × (out : Bytes) × (tail_lines num_lines file ≡ some (ok out))
      × (head_lines before file ++ out ≡ file)
      × ((inner_newlines out + 1 ≡ num_lines) ⊎ ((before ≡ 0) × (inner_newlines out < num_lines)))
head_lines-tail_lines num_lines file h small =
    let (offset, at, found) = tail_lines_lem num_lines file h in
    elim found [
      | inl (k, is, line, inside, count) ↦ (
        newlines_of (take (suc k) file),
        drop offset file,
        at,
        (let e : offset ≡ suc k = omega arith in
            rw
              (
                head_lines-first_lines (newlines_of (take (suc k) file)) file,
                first_lines_up_to k file line,
                e,
              )
              (take-append-drop (suc k) file)),
        inl count,
      )
      | inr (start, (sp, low, single, count)) ↦ (
        0,
        file,
        (let e : drop offset file ≡ file = rw start refl in at ∙ ap (λ t. some (ok t)) e),
        rw (head_lines-first_lines 0 file) refl,
        inr (refl, rw (single small) at count),
      )
    ]
