-- ===== src/Hadoopconf.antt =====
-- hadoopconf/hadoopconf.go: the namenodes that a configuration names. A configuration is the list of its
-- properties, in the order in which the loop comes by them, which may be any.
pub mod Namenodes
use hdfs.Prelude.{
  ◌⊎◌, inl, inr, Bool, true, false, not, Option, none, some, List, [], ◌∷◌, ◌++◌, String, ◌||◌,
  if◌then◌else◌,
}
use hdfs.Prelude.Errors.{Result, ok, err, panic, ◌>>=◌}
use Prim.Native.String.{len, slice}
use text.Mathlib.Text.{◌==◌ as str_eq, starts_with, find?}

abbrev pub rpc_address_prefix : String
rpc_address_prefix = "dfs.namenode.rpc-address."

abbrev pub ha_prefix : String
ha_prefix = "dfs.ha.namenodes."

abbrev pub Conf : Type 0
Conf = List (String × String)

-- The sets of the source, as lists without duplicates.
abbrev pub member : String → List String → Bool
member x [] = false
member x (y ∷ ys) = str_eq x y || member x ys

abbrev pub insert : String → List String → List String
insert x xs = if member x xs then xs else x ∷ xs

abbrev pub remove_all : List String → List String → List String
remove_all clusters [] = []
remove_all clusters (x ∷ xs) =
    let rest = remove_all clusters xs in if member x clusters then rest else x ∷ rest

-- `strings.Contains`
abbrev pub contains : String → String → Bool
contains s part = elim (find? s part) [ none ↦ false | some i ↦ true ]

-- What a property says: it names a host or a cluster, or nothing, or it has a value that is no url.
pub data Entry : Type 0 where
  host cluster : String → Entry
  invalid other : Entry

-- `host_of` is the host of what `url.Parse` gives, if it gives anything; `sort` is `sort.Strings`.
module _ (host_of : String → Option String) (sort : List String → List String) where
  unfoldable pub entry_of : String → String → Entry
  entry_of key value =
      if contains key "fs.default"
      then (elim (host_of value) [ none ↦ Entry.invalid | some h ↦ Entry.host h ])
      else if starts_with key rpc_address_prefix
      then Entry.host value
      else if starts_with key ha_prefix
      then Entry.cluster (slice key (len ha_prefix) (len key))
      else Entry.other

  -- The loop of `Namenodes`: the hosts, and the names of clusters. A value that is no url makes it panic.
  unfoldable pub collect : Conf → List String → List String → Result (List String × List String)
  collect [] hosts clusters = ok (hosts, clusters)
  collect ((key, value) ∷ conf) hosts clusters = elim (entry_of key value) [
    | Entry.host h ↦ collect conf (insert h hosts) clusters
    | Entry.cluster c ↦ collect conf hosts (c ∷ clusters)
    | Entry.other ↦ collect conf hosts clusters
    | Entry.invalid ↦ panic
  ]

  -- nil if there are none.
  abbrev pub sorted : List String → Option (List String)
  sorted [] = none
  sorted (x ∷ xs) = some (sort (x ∷ xs))

  -- `Namenodes`
  unfoldable pub namenodes : Conf → Result (Option (List String))
  namenodes conf = collect conf [] [] >>= λ r. ok (sorted (remove_all r.1 r.0))
