-- ===== src/Client/Reader/Targets.antt =====
-- The position that `Seek` of a file reader is asked for.
use hdfs.Prelude.{
  ◌∙◌, ap, leb, ℕ, suc, ◌+◌, ◌-◌, ◌^◌, ◌≤◌, ◌<◌, ◌≡◌, ◌≢◌, refl, ◌⊎◌, inl, inr, none, some, arith,
  Bool-cases,
}
use hdfs.Prelude.Int.{==ℤ→eq, ℤ, pos, negsuc, pos_part, neg_part, ◌+ℤ◌, ◌==ℤ◌}
use hdfs.Client.Reader.{size, ltb, FileReader, seek_target, int64}

-- The position that is asked for: from the start, from where the file stands, or from its end.
abbrev pub IsTarget : FileReader → ℤ → ℤ → ℕ → Type 0
IsTarget f offset whence n =
    ((whence ≡ pos 0) × (offset ≡ pos n))
    ⊎ (((whence ≡ pos 1) × (n + neg_part offset ≡ f.offset + pos_part offset))
        ⊎ ((whence ≡ pos 2) × (n + neg_part offset ≡ f.info.len + pos_part offset)))

-- A signed number of 64 bits.
abbrev pub IsInt64 : ℤ → Type 0
IsInt64 x = (pos_part x < 2 ^ 63) × (neg_part x ≤ 2 ^ 63)

-- A sum that wraps around becomes negative.
int64-+ :
    (a : ℕ) (x : ℤ)
    → a < 2 ^ 63
    → IsInt64 x
    → ((n : ℕ) × (int64 (pos a +ℤ x) ≡ pos n) × (n + neg_part x ≡ a + pos_part x))
      ⊎ ((n : ℕ) × (int64 (pos a +ℤ x) ≡ negsuc n)
          × ((k : ℕ) → k + neg_part x ≡ a + pos_part x → 2 ^ 63 ≤ k))
unfolding ◌+ℤ◌
int64-+ a (pos m) h (from, to) = elim (Bool-cases (ltb (a + m) (2 ^ 63))) [
  | inl small ↦ inl (a + m, ground arith, omega arith)
  | inr large ↦ inr (2 ^ 64 - 1 - (a + m), ground arith, λ k e. ground arith)
]
int64-+ a (negsuc m) h (from, to) = elim (Bool-cases (leb (suc m) a)) [
  | inl small ↦ inl (a - suc m, ground arith, ground arith)
  | inr large ↦ inr (suc m - a - 1, ground arith, λ k e. ground arith)
]

-- What `seek_target` gives is the position that is asked for; a negative one stands for none that lies
-- in the file.
abbrev pub Aims : FileReader → ℤ → ℤ → Type 0
Aims f offset whence =
    ((n : ℕ) × (seek_target f offset whence ≡ some (pos n))
      × ((whence ≡ pos 0) ⊎ ((whence ≡ pos 1) ⊎ (whence ≡ pos 2)))
      × IsTarget f offset whence n
      × ((k : ℕ) → IsTarget f offset whence k → k ≡ n))
    ⊎ (((n : ℕ) × (seek_target f offset whence ≡ some (negsuc n))
          × ((whence ≡ pos 0) ⊎ ((whence ≡ pos 1) ⊎ (whence ≡ pos 2)))
          × ((k : ℕ) → IsTarget f offset whence k → f.info.len < k))
        ⊎ ((seek_target f offset whence ≡ none)
            × (whence ≢ pos 0)
            × (whence ≢ pos 1)
            × (whence ≢ pos 2)))

-- A whence has one kind of target.
module _ (f : FileReader) (offset : ℤ) (k : ℕ) where
  from_start : IsTarget f offset (pos 0) k → offset ≡ pos k
  from_start (inl (e, t)) = t
  from_start (inr (inl (e, t))) = absurd (ground arith)
  from_start (inr (inr (e, t))) = absurd (ground arith)

  from_here : IsTarget f offset (pos 1) k → k + neg_part offset ≡ f.offset + pos_part offset
  from_here (inl (e, t)) = absurd (ground arith)
  from_here (inr (inl (e, t))) = t
  from_here (inr (inr (e, t))) = absurd (ground arith)

  from_end : IsTarget f offset (pos 2) k → k + neg_part offset ≡ f.info.len + pos_part offset
  from_end (inl (e, t)) = absurd (ground arith)
  from_end (inr (inl (e, t))) = absurd (ground arith)
  from_end (inr (inr (e, t))) = t

module _ (f : FileReader) (within : f.offset ≤ f.info.len) (small : f.info.len < 2 ^ 63) where
  start-Aims : (offset : ℤ) → Aims f offset (pos 0)
  unfolding seek_target
  start-Aims (pos n) =
      inl (
        n,
        refl,
        inl refl,
        inl (refl, refl),
        λ k t. let e = from_start f (pos n) k t in ground arith,
      )
  start-Aims (negsuc n) =
      inr (
        inl
          (n, refl, inl refl, λ k t. let e = from_start f (negsuc n) k t in absurd (ground arith)))

  here-Aims : (offset : ℤ) → IsInt64 offset → Aims f offset (pos 1)
  unfolding seek_target
  here-Aims offset whole = elim (int64-+ f.offset offset (omega arith) whole) [
    | inl (n, e, sum) ↦ inl (
      n,
      ap (λ x. some x) e,
      inr (inl refl),
      inr (inl (refl, sum)),
      λ k t. let l = from_here f offset k t in omega arith,
    )
    | inr (n, e, beyond) ↦ inr (
        inl (
          n,
          ap (λ x. some x) e,
          inr (inl refl),
          λ k t. let l = beyond k (from_here f offset k t) in omega arith,
        ))
  ]

  end-Aims : (offset : ℤ) → IsInt64 offset → Aims f offset (pos 2)
  unfolding seek_target
  end-Aims offset whole =
      let s : size f ≡ pos f.info.len = ground arith in
      elim (int64-+ f.info.len offset small whole) [
        | inl (n, e, sum) ↦ inl (
          n,
          ap (λ x. some (int64 (x +ℤ offset))) s ∙ ap (λ x. some x) e,
          inr (inr refl),
          inr (inr (refl, sum)),
          λ k t. let l = from_end f offset k t in omega arith,
        )
        | inr (n, e, beyond) ↦ inr (
            inl (
              n,
              ap (λ x. some (int64 (x +ℤ offset))) s ∙ ap (λ x. some x) e,
              inr (inr refl),
              λ k t. let l = beyond k (from_end f offset k t) in omega arith,
            ))
      ]

  pub seek_target-Aims : (offset whence : ℤ) → IsInt64 offset → Aims f offset whence
  unfolding seek_target
  seek_target-Aims offset whence whole = elim (Bool-cases (whence ==ℤ pos 0)) [
    | inl k ↦ rw (==ℤ→eq whence (pos 0) k) (start-Aims offset)
    | inr l ↦ elim (Bool-cases (whence ==ℤ pos 1)) [
      | inl k ↦ rw (==ℤ→eq whence (pos 1) k) (here-Aims offset whole)
      | inr m ↦ elim (Bool-cases (whence ==ℤ pos 2)) [
        | inl k ↦ rw (==ℤ→eq whence (pos 2) k) (end-Aims offset whole)
        | inr n ↦
            inr (inr (ground arith, (λ e. ground arith), (λ e. ground arith), λ e. ground arith))
      ]
    ]
  ]
