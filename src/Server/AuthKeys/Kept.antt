-- ===== src/Server/AuthKeys/Kept.antt =====
-- internal/server/authkey: a key that is handed out is the key that is read back.
use oblak.Prelude.{
  ltb, if_true, ==_iff, length, take, length-append, drop-append, ok, ◌≡◌, refl, sym, ap, ◌∙◌, true,
  false, none, some, List, [], ◌∷◌, ◌++◌, arith,
}
use oblak.Text.{Bytes}
use oblak.Sql.{Uuid, find, find-insert, insert_fresh}
use oblak.Server.AuthKeys.{
  Crypto, AuthKey, key_id, encrypt, open_data, decrypt, or_crypto, opened, opened_row, get_auth_key,
  create_auth_key,
}

take-append : (s t : Bytes) → take (length s) (s ++ t) ≡ s
take-append [] t = refl
take-append (a ∷ s) t = ap (◌∷◌ a) (take-append s t)

module _ (c : Crypto) where
  -- What is stored for a secret.
  abbrev pub sealed : Bytes → Bytes → Bytes → Bytes
  sealed kek nonce plaintext = c.encode_base64 (nonce ++ c.seal (c.sha256 kek) nonce plaintext)

  encrypt_lem :
      (kek nonce plaintext : Bytes)
      → encrypt c kek (some nonce) plaintext ≡ ok (sealed kek nonce plaintext)
  unfolding encrypt
  encrypt_lem kek nonce plaintext = rw (c.sha256_accepted kek)

  open_data-seal :
      (key nonce plaintext : Bytes)
      → length nonce ≡ c.nonce_size
      → open_data c key (nonce ++ c.seal key nonce plaintext) ≡ ok plaintext
  unfolding open_data
  open_data-seal key nonce plaintext h =
      let rest = c.seal key nonce plaintext in
      let long : ltb (length (nonce ++ rest)) c.nonce_size ≡ false =
        ground (arith, length-append nonce rest) in
      rw (
        long,
        ← h,
        take-append nonce rest,
        drop-append nonce rest,
        c.open_sealed-seal key nonce plaintext h,
      )

  -- What is encrypted under a key is decrypted under it.
  pub decrypt-encrypt :
      (kek nonce plaintext : Bytes)
      → length nonce ≡ c.nonce_size
      → decrypt c kek (sealed kek nonce plaintext) ≡ ok plaintext
  unfolding decrypt
  decrypt-encrypt kek nonce plaintext h =
      rw (c.decode-encode (nonce ++ c.seal (c.sha256 kek) nonce plaintext), c.sha256_accepted kek)
        (open_data-seal (c.sha256 kek) nonce plaintext h)

  abbrev pub new_key : Uuid → Uuid → Bytes → AuthKey
  new_key fresh user secret = record { auth_id = fresh; user_id = user; secret_key = secret }

  create_auth_key-fresh :
      (kek raw nonce : Bytes) (fresh user : Uuid) (t : List AuthKey)
      → find key_id fresh t ≡ none
      → create_auth_key c true kek (some raw) (some nonce) fresh user t ≡ (
        t ++ new_key fresh user (sealed kek nonce (c.hex raw)) ∷ [],
        ok (new_key fresh user (c.hex raw)),
      )
  unfolding create_auth_key
  create_auth_key-fresh kek raw nonce fresh user t h = rw (
    encrypt_lem kek nonce (c.hex raw),
    insert_fresh key_id (new_key fresh user (sealed kek nonce (c.hex raw))) t h,
  )

  find-append_fresh :
      (k : AuthKey) (t : List AuthKey)
      → find key_id k.auth_id t ≡ none
      → find key_id k.auth_id (t ++ k ∷ []) ≡ some k
  find-append_fresh k t h =
      ap (λ p. find key_id k.auth_id p.0) (sym (insert_fresh key_id k t h))
      ∙ find-insert key_id k t k.auth_id h
      ∙ if_true (some k) (find key_id k.auth_id t) ((==_iff k.auth_id k.auth_id).1 refl)

  -- With working random sources and a reachable database, a key is created, and the read of its
  -- identifier gives back exactly the key that was handed out; the only row that is added to the table
  -- holds the nonce and the secret sealed with it, under the SHA-256 of the key of the server, in base64.
  pub get-create_auth_key :
      (kek raw nonce : Bytes) (fresh user : Uuid) (t : List AuthKey)
      → length nonce ≡ c.nonce_size
      → find key_id fresh t ≡ none
      → let r = create_auth_key c true kek (some raw) (some nonce) fresh user t in
        (r.1 ≡ ok (new_key fresh user (c.hex raw)))
        × (get_auth_key c true kek fresh r.0 ≡ r.1)
        × (r.0 ≡ t ++ new_key fresh user (sealed kek nonce (c.hex raw)) ∷ [])
  unfolding get_auth_key
  get-create_auth_key kek raw nonce fresh user t n h =
      let row = new_key fresh user (sealed kek nonce (c.hex raw)) in
      let e = create_auth_key-fresh kek raw nonce fresh user t h in
      let read = decrypt-encrypt kek nonce (c.hex raw) n in
      (
        ap (λ r. r.1) e,
        ap (λ r. opened_row c kek (find key_id fresh r.0)) e
            ∙ ap (opened_row c kek) (find-append_fresh row t h)
            ∙ ap (λ d. opened c row (or_crypto c d)) read
            ∙ sym (ap (λ r. r.1) e),
        ap (λ r. r.0) e,
      )
