-- ===== src/Rpc/Failover.antt =====
-- internal/rpc/datanode_failover.go: which datanode of a block is tried next. The global map of
-- failures is a function from addresses to the time of the last failure; times are numbers, and 0 is
-- Go's zero time.
pub mod Choice
pub mod Timed
use hdfs.Prelude.{
  ℕ, suc, ◌+◌, Option, none, some, List, [], ◌∷◌, ◌++◌, length, take, drop, get_elem?, String, ltb,
  ◌==◌, ◌||◌, if◌then◌else◌,
}
use hdfs.Prelude.Errors.{Error, Result, ok, panic}
use text.Mathlib.Text.{◌==◌ as str_eq}

abbrev pub Failures : Type 0
Failures = String → Option ℕ

pub record Failover : Type 0 where
  pub datanodes : List String
  pub current_datanode : String
  pub last_err : Option Error

unfoldable pub new_datanode_failover : List String → Failover
new_datanode_failover datanodes = record {
  datanodes = datanodes;
  current_datanode = "";
  last_err = none;
}

-- The failure is recorded for the current datanode, at the time `now`.
unfoldable pub record_failure : ℕ → Error → Failures × Failover → Failures × Failover
record_failure now e (failures, df) = (
  λ address. if str_eq address df.current_datanode then some now else failures address,
  record df { last_err = some e },
)

-- The loop of `next` over the addresses from index `i` on. `picked` is `none` for -1. A datanode
-- with no failure ends it.
unfoldable pub pick : Failures → List String → ℕ → Option ℕ → ℕ → Option ℕ
pick failures [] i picked oldest = picked
pick failures (address ∷ rest) i picked oldest = elim (failures address) [
  | none ↦ some i
  | some failed_at ↦
      pick failures rest (i + 1) (if oldest == 0 || ltb failed_at oldest then some i else picked)
        (if oldest == 0 || ltb failed_at oldest then failed_at else oldest)
]

unfoldable pub num_remaining : Failover → ℕ
num_remaining df = length df.datanodes

unfoldable pub last_error : Failover → Option Error
last_error df = df.last_err

-- `datanodes[picked]`, and the list without it. An index out of range panics.
unfoldable pub remove_at : Failover → ℕ → Result (String × Failover)
remove_at df i = elim (get_elem? df.datanodes i) [
  | none ↦ panic
  | some address ↦ ok (
    address,
    record df {
      datanodes = take i df.datanodes ++ drop (i + 1) df.datanodes;
      current_datanode = address;
    },
  )
]

-- An index of -1 panics as well.
unfoldable pub next : Failures → Failover → Result (String × Failover)
next failures df =
    if num_remaining df == 0
    then ok ("", df)
    else elim (pick failures df.datanodes 0 none 0) [ some i ↦ remove_at df i | none ↦ panic ]
