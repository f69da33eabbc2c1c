-- ===== src/Client/Connecting.antt =====
-- client.go: the options of a client, and its making.
use hdfs.Prelude.Errors.{ok, ◌>>=◌, Result, Error}
use hdfs.Hadoopconf.{namenodes, Conf}
use hdfs.Prelude.{
  ◌⊎◌, Bool, false, List, [], ◌∷◌, String, Option, none, some, inr, if◌then◌else◌, not,
}
use Prim.Native.String.{slice}
use text.Mathlib.Text.{◌==◌ as str_eq, find?}

-- `Addresses` is none where it is nil, and `kerberos_client` says of a client whether it has credentials.
-- The two functions that dial are left out.
pub record ClientOptions : Type 0 where
  pub addresses : Option (List String)
  pub user : String
  pub use_datanode_hostname : Bool
  pub kerberos_client : Option Bool
  pub kerberos_service_principle_name : String

-- The value of a property, which is empty if it is missing.
abbrev pub property : String → Conf → String
property key [] = ""
property key ((name, value) ∷ conf) =
    let rest = property key conf in if str_eq key name then value else rest

-- `strings.Split(principal, "@")[0]`
abbrev pub without_realm : String → String
without_realm principal = elim (find? principal "@") [
  | none ↦ principal
  | some at ↦ slice principal 0 at
]

-- `host_of` and `sort` are those of `namenodes`, and `lower` is `strings.ToLower`.
unfoldable pub client_options_from_conf :
    (String → Option String)
    → (List String → List String)
    → (String → String)
    → Conf
    → Result ClientOptions
client_options_from_conf host_of sort lower conf = namenodes host_of sort conf >>= λ addresses.
    ok (record {
      addresses = addresses;
      user = "";
      use_datanode_hostname = str_eq (property "dfs.client.use.datanode.hostname" conf) "true";
      kerberos_client =
          if str_eq (lower (property "hadoop.security.authentication" conf)) "kerberos"
          then some false
          else none;
      kerberos_service_principle_name =
          without_realm (property "dfs.namenode.kerberos.principal" conf);
    })

-- What `NewClient` has against options.
unfoldable pub refuse_options : ClientOptions → Option Error
refuse_options options = elim options.kerberos_client [
  | none ↦ none
  | some has_credentials ↦
      if not has_credentials
      then some Error.missing_credentials
      else if str_eq options.kerberos_service_principle_name ""
      then some Error.missing_principal
      else none
]

-- `NewClient`. `connect` makes the connection to the namenode, and is given the options that connections
-- were made with before.
unfoldable pub new_client :
    {C : Type 0}
    → (List ClientOptions → ClientOptions → C ⊎ Error)
    → ClientOptions
    → List ClientOptions
    → (C ⊎ Error) × List ClientOptions
new_client connect options tried = elim (refuse_options options) [
  | some e ↦ (inr e, tried)
  | none ↦ (connect tried options, options ∷ tried)
]
