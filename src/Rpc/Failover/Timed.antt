-- ===== src/Rpc/Failover/Timed.antt =====
-- Failures that carry a time, and the addresses that `next` takes.
use hdfs.Prelude.{
  ℕ, ◌≡◌, ◌≢◌, refl, ◌⊎◌, inl, inr, some, List, [], ◌∷◌, ◌++◌, String, arith, Bool-cases,
}
use hdfs.Prelude.Errors.{Error}
use hdfs.Rpc.Failover.{Failures, Failover, record_failure}
use hdfs.Rpc.Failover.Choice.{IsTimed}
use text.Mathlib.Text.{◌==◌ as str_eq}

-- One of the addresses.
abbrev pub IsAmong : String → List String → Type 0
IsAmong a [] = ⊥
IsAmong a (x ∷ xs) = (a ≡ x) ⊎ IsAmong a xs

pub IsAmong-middle :
    (a b : String) (xs ys : List String) → IsAmong a (xs ++ ys) → IsAmong a (xs ++ (b ∷ ys))
IsAmong-middle a b [] ys h = inr h
IsAmong-middle a b (x ∷ xs) ys (inl e) = inl e
IsAmong-middle a b (x ∷ xs) ys (inr h) = inr (IsAmong-middle a b xs ys h)

pub IsAmong-here : (a : String) (xs ys : List String) → IsAmong a (xs ++ (a ∷ ys))
IsAmong-here a [] ys = inl refl
IsAmong-here a (x ∷ xs) ys = inr (IsAmong-here a xs ys)

-- No failure carries the zero time.
abbrev pub AreTimed : Failures → Type 0
AreTimed failures = (a : String) → failures a ≢ some 0

pub IsTimed-all : (failures : Failures) (xs : List String) → AreTimed failures → IsTimed failures xs
IsTimed-all failures [] h = tt
IsTimed-all failures (x ∷ xs) h = (h x, IsTimed-all failures xs h)

pub AreTimed-record_failure :
    (now : ℕ) (e : Error) (failures : Failures) (df : Failover)
    → now ≢ 0
    → AreTimed failures
    → AreTimed (record_failure now e (failures, df)).0
unfolding record_failure
AreTimed-record_failure now e failures df h timed a =
    elim (Bool-cases (str_eq a df.current_datanode)) [
      | inl same ↦ λ k. h (ground arith)
      | inr other ↦ λ k. timed a (ground arith)
    ]
