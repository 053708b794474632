-- ===== src/Transport/Crypto/Laws.antt =====
-- matter/src/crypto/crypto_openssl.rs: what the two routines in place make of a buffer.
use matter_rs.Base.{
  ℕ, ◌-◌, ◌≡◌, ◌<◌, refl, sym, ap, ◌∙◌, le→leb, List, ◌++◌, length, splice, Result, ok, err, panic,
  and_then, arith, length-append, take-append, drop-append, splice-append_front, splice-append_back,
}
use matter_rs.Transport.Crypto.{Aead, aead_mic_len_bytes, encrypt_in_place, decrypt_in_place}

module _ (aead : Aead) (key nonce ad : List ℕ) where
  pub encrypt_in_place_lem :
      (text space out tag : List ℕ)
      → length space ≡ aead_mic_len_bytes
      → aead.encrypt key nonce ad text ≡ ok (out, tag)
      → encrypt_in_place aead key nonce ad
          (text ++ space)
          (length (text ++ space) - aead_mic_len_bytes)
        ≡ ok (out ++ tag)
  unfolding encrypt_in_place
  encrypt_in_place_lem text space out tag h e =
      let n : length (text ++ space) - aead_mic_len_bytes ≡ length text =
        omega (arith, length-append text space) in
      let sizes = aead.length-encrypt key nonce ad text out tag e in
      let a =
        le→leb (length text) (length (text ++ space)) (omega (arith, length-append text space)) in
      let b =
        le→leb aead_mic_len_bytes (length (text ++ space) - length text)
          (omega (arith, length-append text space)) in
      rw (n, a, b, take-append text space (length text) refl, e)
        (ap ok (
          ap (λ x. splice x 0 out) (splice-append_back text space tag (sizes.1 ∙ sym h))
          ∙ splice-append_front text tag out sizes.0))

  pub decrypt_in_place_lem :
      (text out tag : List ℕ)
      → length tag ≡ aead_mic_len_bytes
      → aead.decrypt key nonce ad out tag ≡ ok text
      → decrypt_in_place aead key nonce ad (out ++ tag) ≡ ok (text ++ tag)
  unfolding decrypt_in_place
  decrypt_in_place_lem text out tag h e =
      let n : length (out ++ tag) - aead_mic_len_bytes ≡ length out =
        omega (arith, length-append out tag) in
      let a =
        le→leb aead_mic_len_bytes (length (out ++ tag)) (omega (arith, length-append out tag)) in
      rw (a, n, take-append out tag (length out) refl, drop-append out tag (length out) refl, e)
        (ap ok (splice-append_front out tag text (aead.length-decrypt key nonce ad out tag text e)))

  -- A message that is shorter than the tag is a panic, whatever the cipher.
  pub decrypt_in_place_short :
      (data_ : List ℕ)
      → length data_ < aead_mic_len_bytes
      → decrypt_in_place aead key nonce ad data_ ≡ panic
  unfolding decrypt_in_place
  decrypt_in_place_short data_ h = ground arith

  -- The outcome of the cipher is the outcome of the routine.
  pub encrypt_in_place_outcome :
      (text space : List ℕ) (r : Result (List ℕ × List ℕ))
      → length space ≡ aead_mic_len_bytes
      → aead.encrypt key nonce ad text ≡ r
      → and_then
          (encrypt_in_place aead key nonce ad
            (text ++ space)
            (length (text ++ space) - aead_mic_len_bytes))
          (λ _. ok (tt {0}))
        ≡ and_then r (λ _. ok tt)
  unfolding encrypt_in_place
  encrypt_in_place_outcome text space r h e =
      let n : length (text ++ space) - aead_mic_len_bytes ≡ length text =
        omega (arith, length-append text space) in
      let a =
        le→leb (length text) (length (text ++ space)) (omega (arith, length-append text space)) in
      let b =
        le→leb aead_mic_len_bytes (length (text ++ space) - length text)
          (omega (arith, length-append text space)) in
      rw (n, a, b, take-append text space (length text) refl, e) (outcome r)
    where
      outcome :
          (r : Result (List ℕ × List ℕ))
          → and_then
              (and_then r
                (λ (out, tag). ok (splice (splice (text ++ space) (length text) tag) 0 out)))
              (λ _. ok (tt {0}))
            ≡ and_then r (λ _. ok tt)
      outcome (ok x) = refl
      outcome (err x) = refl
      outcome panic = refl
