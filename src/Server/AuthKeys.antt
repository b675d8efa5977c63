-- ===== src/Server/AuthKeys.antt =====
-- internal/server/authkey: the keys of the users, encrypted in the table, and internal/signing: the
-- text that is signed. The cryptographic libraries are a parameter.
pub mod Kept
pub mod Signed
use oblak.Prelude.{
  ltb, if◌then◌else◌, length, take, drop, Result, err, ok, ◌>>=◌, ◌>>◌, or_err, guard, ℕ, ◌≡◌, Bool,
  true, Option, none, some, List, ◌∷◌, ◌++◌,
}
use oblak.Text.{Bytes}
use oblak.Sql.{DbError, unreachable, Uuid, find, insert}

-- crypto/aes, crypto/cipher, crypto/sha256, crypto/hmac, encoding/hex and encoding/base64, with what
-- their documentation promises: a key of 32 bytes is accepted, Open undoes Seal, and decoding undoes
-- encoding. `seal` is what Seal appends to its first argument.
pub record Crypto : Type 0 where
  pub sha256 : Bytes → Bytes
  pub hmac : Bytes → Bytes → Bytes
  pub hex : Bytes → Bytes
  pub key_accepted : Bytes → Bool
  pub nonce_size : ℕ
  pub seal : Bytes → Bytes → Bytes → Bytes
  pub open_sealed : Bytes → Bytes → Bytes → Option Bytes
  pub encode_base64 : Bytes → Bytes
  pub decode_base64 : Bytes → Option Bytes
  pub sha256_accepted : (s : Bytes) → key_accepted (sha256 s) ≡ true
  pub open_sealed-seal :
      (key nonce plaintext : Bytes)
      → length nonce ≡ nonce_size
      → open_sealed key nonce (seal key nonce plaintext) ≡ some plaintext
  pub decode-encode : (s : Bytes) → decode_base64 (encode_base64 s) ≡ some s

pub data CryptoError : Type 0 where
  bad_cipher no_nonce bad_encoding too_short not_authentic : CryptoError

pub data KeyError : Type 0 where
  not_found no_random : KeyError
  crypto_error : CryptoError → KeyError
  store_error : DbError → KeyError

pub record AuthKey : Type 0 where
  pub auth_id : Uuid
  pub user_id : Uuid
  pub secret_key : Bytes

abbrev pub key_id : AuthKey → Uuid
key_id k = k.auth_id

module _ (c : Crypto) where
  -- `nonce` is what the random source gives, if anything.
  unfoldable pub encrypt : Bytes → Option Bytes → Bytes → Result CryptoError Bytes
  encrypt kek nonce plaintext =
      let key = c.sha256 kek in
      guard (c.key_accepted key) bad_cipher
      >> (or_err no_nonce nonce >>= λ n. ok (c.encode_base64 (n ++ c.seal key n plaintext)))

  open_data : Bytes → Bytes → Result CryptoError Bytes
  open_data key text =
      if ltb (length text) c.nonce_size
      then err too_short
      else or_err not_authentic
          (c.open_sealed key (take c.nonce_size text) (drop c.nonce_size text))

  unfoldable pub decrypt : Bytes → Bytes → Result CryptoError Bytes
  unfolding open_data
  decrypt kek encoded = or_err bad_encoding (c.decode_base64 encoded) >>= λ text.
      guard (c.key_accepted (c.sha256 kek)) bad_cipher >> open_data (c.sha256 kek) text

  abbrev or_crypto : {A : Type 0} → Result CryptoError A → Result KeyError A
  or_crypto (err e) = err (crypto_error e)
  or_crypto (ok a) = ok a

  abbrev opened : AuthKey → Result KeyError Bytes → Result KeyError AuthKey
  opened k (err e) = err e
  opened k (ok secret) = ok (record k { secret_key = secret })

  abbrev opened_row : Bytes → Option AuthKey → Result KeyError AuthKey
  opened_row kek none = err not_found
  opened_row kek (some k) = opened k (or_crypto (decrypt kek k.secret_key))

  unfoldable pub get_auth_key : Bool → Bytes → Uuid → List AuthKey → Result KeyError AuthKey
  get_auth_key up kek id t =
      if up then opened_row kek (find key_id id t) else err (store_error unreachable)

  abbrev handed_out : AuthKey → Option DbError → Result KeyError AuthKey
  handed_out k none = ok k
  handed_out k (some e) = err (store_error e)

  -- The row that is inserted, and the key that is handed out.
  abbrev save :
      Bool
      → Uuid
      → Uuid
      → Bytes
      → List AuthKey
      → Result CryptoError Bytes
      → List AuthKey × Result KeyError AuthKey
  save up fresh user plaintext t (err e) = (t, err (crypto_error e))
  save up fresh user plaintext t (ok encrypted) =
      let (t', e) =
        insert key_id (record { auth_id = fresh; user_id = user; secret_key = encrypted }) t in
      if up
      then (t', handed_out (record { auth_id = fresh; user_id = user; secret_key = plaintext }) e)
      else (t, err (store_error unreachable))

  -- `raw` and `nonce` are what the random source gives, `fresh` the value of uuid.New().
  unfoldable pub create_auth_key :
      Bool
      → Bytes
      → Option Bytes
      → Option Bytes
      → Uuid
      → Uuid
      → List AuthKey
      → List AuthKey × Result KeyError AuthKey
  create_auth_key up kek none drawn fresh user t = (t, err no_random)
  create_auth_key up kek (some raw) drawn fresh user t =
      save up fresh user (c.hex raw) t (encrypt kek drawn (c.hex raw))

  -- The text that is signed, and Sign.
  unfoldable pub canonical : Bytes → Bytes → Bytes → Bytes → Bytes
  canonical method path body timestamp =
      method ++ (b'_' ∷ (path ++ (b'_' ∷ (c.hex (c.sha256 body) ++ (b'_' ∷ timestamp)))))

  unfoldable pub sign : Bytes → Bytes → Bytes → Bytes → Bytes → Bytes
  unfolding canonical
  sign method path body timestamp secret_key =
      c.hex (c.hmac secret_key (c.sha256 (canonical method path body timestamp)))
