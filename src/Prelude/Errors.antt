-- ===== src/Prelude/Errors.antt =====
-- The error values of the client, and the three ways a Go call of the model can end.
use Prim.Native.Nat.{ℕ}
use mathlib.Core.Bool.{Bool, true, false}
use Prim.Native.String.{String}
use mathlib.Core.Path.{◌≡◌, refl}
use mathlib.Core.Logic.{◌⊎◌, inl, inr}

-- `remote` is an error of the namenode with its java exception class, `transport` any other error
-- of the network or of a library, numbered. The rest are the named values of the sources and of
-- the standard library.
pub data Error : Type 0 where
  eof unexpected_eof closed_pipe : Error
  not_exist exist permission not_empty : Error
  invalid_seqno invalid_checksum malformed_rpc_message : Error
  invalid_whence invalid_offset is_directory not_a_directory negative_offset : Error
  no_datanodes no_namenodes unexpected_sequence empty_response skip_dir : Error
  write_failed read_failed unsupported_checksum : Error
  missing_credentials missing_principal kerberos_not_supported unexpected_sasl_state : Error
  user_not_specified multiple_namenode_urls replaces_directory many_sources : Error
  remote : String → Error
  -- The datanode at this place of the pipeline answered something other than SUCCESS.
  ack_failed : ℕ → Error
  transport : ℕ → Error
  -- `&os.PathError{op, path, err}`
  path_error : String → String → Error → Error

abbrev pub is_eof : Error → Bool
is_eof Error.eof = true
is_eof e = false

-- A call that returns a value or an error, or that panics.
pub data Result {ℓ} (A : Type ℓ) : Type ℓ where
  ok : A → Result A
  err : Error → Result A
  panic : Result A

infixl 5 ◌>>=◌
abbrev pub ◌>>=◌ {ℓ κ} : {A : Type ℓ} {B : Type κ} → Result A → (A → Result B) → Result B
ok a >>= f = f a
err e >>= f = err e
panic >>= f = panic

pub Result-cases {ℓ} :
    {A : Type ℓ} (r : Result A)
    → ((a : A) × (r ≡ ok a)) ⊎ (((e : Error) × (r ≡ err e)) ⊎ (r ≡ panic))
Result-cases (ok a) = inl (a, refl)
Result-cases (err e) = inr (inl (e, refl))
Result-cases panic = inr (inr refl)

-- If a call and what is done with its value come to a value, so does the call.
pub chain_of_ok {ℓ κ} :
    {First : Type ℓ} {Then : Type κ} (call : Result First) (go_on : First → Result Then)
    {end : Then}
    → call >>= go_on ≡ ok end
    → (value : First) × (call ≡ ok value) × (go_on value ≡ ok end)
chain_of_ok panic go_on came = cc
chain_of_ok (err why) go_on came = cc
chain_of_ok (ok value) go_on came = (value, refl, came)
