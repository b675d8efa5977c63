-- ===== src/Server/AuthKeys/Signed.antt =====
-- internal/signing: which requests have the same text to sign.
use oblak.Prelude.{ℕ, append_assoc, ◌≡◌, refl, sym, ap, ◌∙◌, ◌↔◌, [], ◌∷◌, ◌++◌}
use oblak.Text.{Bytes, Lacks, cut, cut-append}
use oblak.Server.AuthKeys.{Crypto, canonical}

-- A text is cut in one way at a separator that is in no first part, and in one way at one that is in no
-- second part.
first_unique :
    (sep : ℕ) (s s' t t' : Bytes)
    → Lacks sep s
    → Lacks sep s'
    → s ++ sep ∷ t ≡ s' ++ sep ∷ t'
    → (s ≡ s') × (t ≡ t')
first_unique sep s s' t t' h h' e =
    let found = sym (cut-append sep s t h) ∙ ap (cut sep) e ∙ cut-append sep s' t' h' in
    (cc found, cc found)

separator-absent : (sep : ℕ) (s t u : Bytes) → Lacks sep u → u ≡ s ++ sep ∷ t → ⊥
separator-absent sep [] t [] h e = cc e
separator-absent sep [] t (d ∷ u) h e = h.0 (cc e)
separator-absent sep (c ∷ s) t [] h e = cc e
separator-absent sep (c ∷ s) t (d ∷ u) h e = separator-absent sep s t u h.1 (cc e)

last_unique :
    (sep : ℕ) (s s' t t' : Bytes)
    → Lacks sep t
    → Lacks sep t'
    → s ++ sep ∷ t ≡ s' ++ sep ∷ t'
    → (s ≡ s') × (t ≡ t')
last_unique sep [] [] t t' h h' e = (refl, cc e)
last_unique sep [] (d ∷ s') t t' h h' e = absurd (separator-absent sep s' t' t h (cc e))
last_unique sep (c ∷ s) [] t t' h h' e = absurd (separator-absent sep s t t' h' (cc e))
last_unique sep (c ∷ s) (d ∷ s') t t' h h' e =
    let rest = last_unique sep s s' t t' h h' (cc e) in (cc (e, rest.0), rest.1)

module _ (c : Crypto) (hex-Lacks : (s : Bytes) → Lacks b'_' (c.hex s)) where
  -- Where neither a method nor a timestamp holds an underscore, and no hexadecimal text does, two
  -- requests have the same text to sign exactly when their methods, paths and timestamps are the same and
  -- the digests of their bodies are.
  pub canonical_iff :
      (method method' path path' body body' timestamp timestamp' : Bytes)
      → Lacks b'_' method
      → Lacks b'_' method'
      → Lacks b'_' timestamp
      → Lacks b'_' timestamp'
      → (canonical c method path body timestamp ≡ canonical c method' path' body' timestamp') ↔ (
          (method ≡ method')
          × ((path ≡ path')
              × ((c.hex (c.sha256 body) ≡ c.hex (c.sha256 body')) × (timestamp ≡ timestamp'))))
  unfolding canonical
  canonical_iff m m' p p' b b' t t' hm hm' ht ht' = (
    (λ e.
        let digest = c.hex (c.sha256 b) in
        let digest' = c.hex (c.sha256 b') in
        let front = first_unique b'_' m m' _ _ hm hm' e in
        let back = last_unique b'_' (p ++ b'_' ∷ digest) (p' ++ b'_' ∷ digest') t t' ht ht' (
          append_assoc p (b'_' ∷ digest) (b'_' ∷ t)
          ∙ front.1
          ∙ sym (append_assoc p' (b'_' ∷ digest') (b'_' ∷ t'))) in
        let middle = last_unique b'_' p p' digest digest' (hex-Lacks _) (hex-Lacks _) back.0 in
        (front.0, (middle.0, (middle.1, back.1)))),
    (λ same. cc (same.0, same.1.0, same.1.1.0, same.1.1.1)),
  )
