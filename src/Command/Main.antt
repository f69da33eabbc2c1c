-- ===== src/Command/Main.antt =====
-- cmd/hdfs/main.go and cmd/hdfs/complete.go: the client of a command, which command runs, and what is
-- completed.
pub mod Cached
use hdfs.Hadoopconf.{Conf}
use hdfs.Prelude.Errors.{◌>>=◌, ok, Error, Result}
use hdfs.Client.Connecting.{new_client, client_options_from_conf, ClientOptions}
use hdfs.Prelude.{
  ◌⊎◌, Bool, true, false, List, [], ◌∷◌, String, Option, none, some, inl, inr, if◌then◌else◌, not,
  ◌++◌,
}
use text.Mathlib.Text.{◌==◌ as str_eq, starts_with}

-- `cachedClients`, and the options that clients were made with.
pub record Clients (C : Type 0) : Type 0 where
  pub cached : List (String × C)
  pub tried : List ClientOptions

abbrev pub cached_client : {C : Type 0} → String → List (String × C) → Option C
cached_client host [] = none
cached_client host ((name, c) ∷ clients) =
    let rest = cached_client host clients in if str_eq host name then some c else rest

-- What the command finds around it: `os.Getenv`, `hadoopconf.LoadFromEnvironment`, `user.Current`,
-- `getKerberosClient`, and the making of a connection.
pub record Environment (C : Type 0) : Type 0 where
  pub getenv : String → String
  pub load : Conf ⊎ Error
  pub current_user : String ⊎ Error
  pub get_kerberos_client : Bool ⊎ Error
  pub host_of : String → Option String
  pub sort : List String → List String
  pub lower : String → String
  pub connect : List ClientOptions → ClientOptions → C ⊎ Error

module _ {C : Type 0} (env : Environment C) where
  open env use {getenv, load, current_user, get_kerberos_client, host_of, sort, lower, connect}

  -- The namenode that `getClient` connects to, under which it keeps the client.
  abbrev pub named : String → String
  named namenode = if str_eq namenode "" then getenv "HADOOP_NAMENODE" else namenode

  -- The user of the options, or the client for Kerberos.
  unfoldable pub with_user : ClientOptions → ClientOptions ⊎ Error
  with_user options =
      let name = getenv "HADOOP_USER_NAME" in
      elim options.kerberos_client [
        | some _ ↦ elim get_kerberos_client [
          | inr e ↦ inr e
          | inl has_credentials ↦ inl (record options { kerberos_client = some has_credentials })
        ]
        | none ↦
            if not (str_eq name "")
            then inl (record options { user = name })
            else elim current_user [ inr e ↦ inr e | inl u ↦ inl (record options { user = u }) ]
      ]

  -- The options for a namenode that may be named.
  unfoldable pub options_for : String → Conf → Result (ClientOptions ⊎ Error)
  options_for namenode conf = client_options_from_conf host_of sort lower conf >>= λ options.
      let chosen : ClientOptions =
        if str_eq namenode ""
        then options
        else record options { addresses = some (namenode ∷ []) } in
      ok (elim chosen.addresses [ none ↦ inr Error.no_namenodes | some _ ↦ with_user chosen ])

  -- The end of `getClient`: a client that is made is kept.
  unfoldable pub make_client : String → ClientOptions → Clients C → Clients C × (C ⊎ Error)
  make_client namenode options s =
      let (answer, tried) = new_client connect options s.tried in
      elim answer [
        | inr e ↦ (record s { tried = tried }, inr e)
        | inl c ↦ (record { cached = (namenode, c) ∷ s.cached; tried = tried }, inl c)
      ]

  unfoldable pub get_client : String → Clients C → Result (Clients C × (C ⊎ Error))
  get_client namenode s = elim (cached_client namenode s.cached) [
    | some c ↦ ok (s, inl c)
    | none ↦ elim load [
      | inr e ↦ ok (s, inr e)
      | inl conf ↦ options_for (named namenode) conf >>= λ options. elim options [
        | inr e ↦ ok (s, inr e)
        | inl chosen ↦ ok (make_client (named namenode) chosen s)
      ]
    ]
  ]
