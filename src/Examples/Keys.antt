-- ===== src/Examples/Keys.antt =====
-- A key in a table, with stand-ins for the cryptographic functions.
use oblak.Prelude.{
  ltb, if◌then◌else◌, drop, ok, ℕ, ◌+◌, ◌≡◌, ◌≢◌, ◌↔◌, refl, true, some, [], ◌∷◌, ◌++◌, arith,
}
use Prim.Native.Nat.{◌/◌, ◌%◌}
use oblak.Text.{Bytes, codes, Lacks}
use oblak.Sql.{select_one, insert}
use oblak.Server.AuthKeys.{Crypto, encrypt, get_auth_key, create_auth_key, canonical}
use oblak.Server.AuthKeys.Kept.{new_key, sealed, get-create_auth_key}
use oblak.Server.AuthKeys.Signed.{canonical_iff}

-- The sealed text is the text behind one byte.
abbrev pub plain : Crypto
plain = record {
  sha256 = λ s. s;
  hmac = λ key s. key ++ b'-' ∷ [];
  hex = λ s. s;
  key_accepted = λ _. true;
  nonce_size = 2;
  seal = λ key nonce text. b'#' ∷ text;
  open_sealed = λ key nonce text. some (drop 1 text);
  encode_base64 = λ s. s;
  decode_base64 = λ s. some s;
  sha256_accepted = λ s. refl;
  open_sealed-seal = λ key nonce text h. refl;
  decode-encode = λ s. refl;
}

get-create_auth_key_example :
    let r =
      create_auth_key plain true (codes "kek") (some (codes "secret")) (some (codes "no")) 5 1 [] in
    (r.1 ≡ ok (new_key plain 5 1 (codes "secret")))
    × (get_auth_key plain true (codes "kek") 5 r.0 ≡ r.1)
    × (r.0 ≡ new_key plain 5 1 (sealed plain (codes "kek") (codes "no") (codes "secret")) ∷ [])
get-create_auth_key_example =
    get-create_auth_key plain (codes "kek") (codes "secret") (codes "no") 5 1 [] refl
      (unfold select_one in refl)

-- The table does not hold the key itself.
stored_key :
    (create_auth_key plain true (codes "kek") (some (codes "secret")) (some (codes "no")) 5 1 []).0
    ≡ record { auth_id = 5; user_id = 1; secret_key = codes "no#secret" } ∷ []
unfolding create_auth_key encrypt insert select_one
stored_key = refl

abbrev digit : ℕ → ℕ
digit n = if ltb n 10 then 48 + n else 87 + n

hex : Bytes → Bytes
hex [] = []
hex (c ∷ s) = digit (c / 16) ∷ digit (c % 16) ∷ hex s

digit-ne : (n : ℕ) → digit n ≢ b'_'
digit-ne n = ground arith

hex-Lacks : (s : Bytes) → Lacks b'_' (hex s)
unfolding hex
hex-Lacks [] = tt
hex-Lacks (c ∷ s) = (digit-ne (c / 16), (digit-ne (c % 16), hex-Lacks s))

abbrev plain_hex : Crypto
plain_hex = record {
  sha256 = λ s. s;
  hmac = plain.hmac;
  hex = hex;
  key_accepted = plain.key_accepted;
  nonce_size = 2;
  seal = plain.seal;
  open_sealed = plain.open_sealed;
  encode_base64 = plain.encode_base64;
  decode_base64 = plain.decode_base64;
  sha256_accepted = λ s. refl;
  open_sealed-seal = λ key nonce text h. refl;
  decode-encode = λ s. refl;
}

post-Lacks : Lacks b'_' (codes "POST")
post-Lacks = ground arith

date-Lacks : Lacks b'_' (codes "2025-01-02")
date-Lacks = ground arith

-- A path with underscores, once with a body and once without one.
canonical_iff_example :
    let path = codes "/execute_all/my_function" in
    let date = codes "2025-01-02" in
    (canonical plain_hex (codes "POST") path (codes "x") date
      ≡ canonical plain_hex (codes "POST") path [] date)
    ↔ ((codes "POST" ≡ codes "POST")
        × ((path ≡ path) × ((hex (codes "x") ≡ hex []) × (date ≡ date))))
canonical_iff_example =
    canonical_iff plain_hex hex-Lacks (codes "POST") (codes "POST")
      (codes "/execute_all/my_function") (codes "/execute_all/my_function") (codes "x") []
      (codes "2025-01-02") (codes "2025-01-02") post-Lacks post-Lacks date-Lacks date-Lacks
