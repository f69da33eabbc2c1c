-- ===== src/Rpc/Varint.antt =====
-- The variable-length integers of Go's encoding/binary, which internal/rpc/rpc.go calls.
use hdfs.Prelude.{
  ℕ, zero, suc, ◌+◌, ◌*◌, ◌/◌, ◌%◌, ◌^◌, ◌≤◌, ◌<◌, ◌≡◌, refl, ap, ◌∙◌, Option, none, some, [], ◌∷◌,
  ◌++◌, Bytes, length, arith, ltb, ◌==◌, ◌||◌, ◌&&◌, if◌then◌else◌,
}
use native.Mathlib.Nat.{div-add-mod}
use native.Mathlib.Numerals.{towards_suc}

-- `PutUvarint` for a value below 128 ^ (k + 1): seven bits a byte, the lowest first.
put_uvarint_loop : ℕ → ℕ → Bytes
put_uvarint_loop zero v = v ∷ []
put_uvarint_loop (suc k) v =
    let rest = put_uvarint_loop k (v / 128) in if ltb v 128 then v ∷ [] else (v % 128 + 128) ∷ rest

-- Nine bytes with the top bit and one without it hold every uint64.
unfoldable pub put_uvarint : ℕ → Bytes
unfolding put_uvarint_loop
put_uvarint v = put_uvarint_loop 9 v

-- `Uvarint`: the value and the number of bytes taken, `none` where Go answers a number of bytes
-- that is not positive (the input ends too soon, or the value does not fit 64 bits).
uvarint_loop : Bytes → ℕ → ℕ → ℕ → Option (ℕ × ℕ)
uvarint_loop [] i m x = none
uvarint_loop (b ∷ bs) i m x =
    let rest = uvarint_loop bs (i + 1) (m * 128) ((x + b % 128 * m) % 2 ^ 64) in
    if ltb b 128
    then if ltb 9 i || (i == 9 && ltb 1 b) then none else some ((x + b * m) % 2 ^ 64, i + 1)
    else rest

unfoldable pub uvarint : Bytes → Option (ℕ × ℕ)
unfolding uvarint_loop
uvarint b = uvarint_loop b 0 1 0

split_low : (v m : ℕ) → v * m ≡ v % 128 * m + v / 128 * (m * 128)
split_low v m = omega (arith, ap (λ (t : ℕ). t * m) (div-add-mod v 128))

pow_step : (i : ℕ) → 128 ^ i * 128 ≡ 128 ^ (i + 1)
pow_step i = simp towards_suc (omega arith)

last_group :
    (v i m x : ℕ) (rest : Bytes)
    → v < 128
    → i ≤ 9
    → m ≡ 128 ^ i
    → x + v * m < 2 ^ 64
    → uvarint_loop (v ∷ rest) i m x ≡ some (x + v * m, i + 1)
unfolding uvarint_loop
last_group v i m x rest hv hi hm fits = ground (arith, at_nine)
  where
    at_nine : i ≡ 9 → m ≡ 2 ^ 63
    at_nine e = hm ∙ rw e

inner_group :
    (g i m x : ℕ) (rest : Bytes)
    → g < 128
    → x + g * m < 2 ^ 64
    → uvarint_loop ((g + 128) ∷ rest) i m x ≡ uvarint_loop rest (i + 1) (m * 128) (x + g * m)
unfolding uvarint_loop
inner_group g i m x rest hg fits = ground arith

uvarint_loop-put :
    (k v i m x : ℕ) (rest : Bytes)
    → v < 128 ^ suc k
    → i + k ≤ 9
    → m ≡ 128 ^ i
    → x + v * m < 2 ^ 64
    → uvarint_loop (put_uvarint_loop k v ++ rest) i m x
      ≡ some (x + v * m, i + length (put_uvarint_loop k v))
unfolding put_uvarint_loop
uvarint_loop-put zero v i m x rest hv hi hm fits =
    last_group v i m x rest (omega arith) (omega arith) hm fits
uvarint_loop-put (suc k) v i m x rest hv hi hm fits = ground (
  arith,
  last_group v i m x rest,
  split_low v m,
  inner_group (v % 128) i m x (put_uvarint_loop k (v / 128) ++ rest),
  uvarint_loop-put k (v / 128) (i + 1) (m * 128) (x + v % 128 * m) rest (omega arith),
  pow_step i,
)

-- A uint64 that was written is read back, and so is its number of bytes.
pub uvarint-put_uvarint :
    (v : ℕ) (rest : Bytes)
    → v < 2 ^ 64
    → uvarint (put_uvarint v ++ rest) ≡ some (v, length (put_uvarint v))
unfolding uvarint put_uvarint
uvarint-put_uvarint v rest h = ground (arith, uvarint_loop-put 9 v 0 1 0 rest)

length-put_uvarint_loop : (k v : ℕ) → 1 ≤ length (put_uvarint_loop k v)
unfolding put_uvarint_loop
length-put_uvarint_loop zero v = omega arith
length-put_uvarint_loop (suc k) v = ground arith

pub length-put_uvarint : (v : ℕ) → 1 ≤ length (put_uvarint v)
unfolding put_uvarint
length-put_uvarint v = length-put_uvarint_loop 9 v

length-put_uvarint_loop-le :
    (k j v : ℕ) → j ≤ k → v < 128 ^ suc j → length (put_uvarint_loop k v) ≤ suc j
unfolding put_uvarint_loop
length-put_uvarint_loop-le zero j v hj h = omega arith
length-put_uvarint_loop-le (suc k) zero v hj h = ground arith
length-put_uvarint_loop-le (suc k) (suc j) v hj h =
    ground (arith, length-put_uvarint_loop-le k j (v / 128) (omega arith) (omega arith))

-- Five bytes hold a value below 2 ^ 35.
pub length-put_uvarint-le_five : (v : ℕ) → v < 2 ^ 35 → length (put_uvarint v) ≤ 5
unfolding put_uvarint
length-put_uvarint-le_five v h = length-put_uvarint_loop-le 9 4 v (omega arith) (omega arith)

-- A length below 128 takes one byte.
pub put_uvarint_small : (v : ℕ) → v < 128 → put_uvarint v ≡ v ∷ []
unfolding put_uvarint
put_uvarint_small v h = ground arith

pub uvarint_small : (v : ℕ) (rest : Bytes) → v < 128 → uvarint (v ∷ rest) ≡ some (v, 1)
unfolding uvarint
uvarint_small v rest h = ground arith

sample : put_uvarint 300 ≡ 0xac ∷ 0x02 ∷ []
unfolding put_uvarint
sample = refl
