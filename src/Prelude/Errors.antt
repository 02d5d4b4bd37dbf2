-- ===== src/Prelude/Errors.antt =====
-- What a call of a Go function comes to: a value, an error or a run-time panic. The
-- binds serve `do` blocks of plain results.
use mathlib.Core.Path.{◌≡◌, refl}
use mathlib.Core.Bool.{Bool, true, false}

-- The errors of the program, one constructor for each `fmt.Errorf` and for each foreign error.
pub data Error : Type 0 where
  private_key_size public_key_size chain_key_size message_key_size : Error
  rand_failed x25519_failed cipher_key_size : Error
  block_size not_aligned padding_length padding_suffix : Error
  ciphertext_short ciphertext_unaligned hmac_differs : Error
  header_range header_short : Error
  key_not_cached number_not_cached skip_limit : Error
  peer_key_size spk_signature : Error
  bad_affixes unsupported_type bad_base64 payload_short close_payload unseal_invalid : Error
  unexpected_type peer_refused already_active not_active : Error
  gob_failed json_failed : Error
  not_exist file_failed weak_permissions : Error
  identity_failed input_failed : Error
  self_chat bad_key_id lookup_failed post_failed salty_failed parse_failed : Error

pub data Result {i} (A : Type i) : Type i where
  panic : Result A
  ok : A → Result A
  err : Error → Result A

infixl 5 ◌>>◌ ◌>>=◌
-- An error or a panic skips what follows.
abbrev pub ◌>>=◌ {i j} : {A : Type i} {B : Type j} → Result A → (A → Result B) → Result B
panic >>= next = panic
err why >>= next = err why
ok value >>= next = next value

abbrev pub ◌>>◌ {j} : {B : Type j} → Result (Unit {0}) → Result B → Result B
checked >> rest = checked >>= λ done. rest

-- `if bad { return error }`
abbrev pub fail_if : Bool → Error → Result (Unit {0})
fail_if false why = ok tt
fail_if true why = err why

-- A chain of calls that succeeds has a first call that succeeds.
pub >>=-eq-ok {i j} :
    {A : Type i} {B : Type j} (r : Result A) (next : A → Result B) {end : B}
    → (r >>= next) ≡ ok end
    → (value : A) × (r ≡ ok value) × (next value ≡ ok end)
>>=-eq-ok (ok value) next h = (value, refl, h)
>>=-eq-ok panic next h = cc
>>=-eq-ok (err why) next h = cc
