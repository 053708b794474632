-- ===== src/Transport/Crypto.antt =====
-- matter/src/crypto/crypto_openssl.rs: authenticated encryption in place. The cipher itself,
-- AES-CCM of OpenSSL, is not part of the repository: `lowlevel_encrypt_aead` and
-- `lowlevel_decrypt_aead`, which only call it, are an interface.
pub mod Laws
use matter_rs.Base.{
  ℕ, ◌-◌, ◌≡◌, leb, ◌==◌, ◌&&◌, if◌then◌else◌, List, ◌++◌, length, take, drop, splice, Result, ok,
  err, panic, and_then,
}

abbrev pub aead_mic_len_bytes : ℕ
aead_mic_len_bytes = 16

abbrev pub aead_nonce_len_bytes : ℕ
aead_nonce_len_bytes = 13

abbrev pub aead_aad_len_bytes : ℕ
aead_aad_len_bytes = 8

-- `encrypt key nonce ad text` gives the cipher text and the tag, `decrypt key nonce ad text tag`
-- the plain text. Both keep the length, and decryption with the same key, nonce, associated data
-- and tag gives the plain text back.
pub record Aead : Type 0 where
  pub encrypt : List ℕ → List ℕ → List ℕ → List ℕ → Result (List ℕ × List ℕ)
  pub decrypt : List ℕ → List ℕ → List ℕ → List ℕ → List ℕ → Result (List ℕ)
  pub length-encrypt :
      (key nonce ad text out tag : List ℕ)
      → encrypt key nonce ad text ≡ ok (out, tag)
      → (length out ≡ length text) × (length tag ≡ aead_mic_len_bytes)
  pub length-decrypt :
      (key nonce ad text tag out : List ℕ)
      → decrypt key nonce ad text tag ≡ ok out
      → length out ≡ length text
  pub decrypt-encrypt :
      (key nonce ad text out tag : List ℕ)
      → encrypt key nonce ad text ≡ ok (out, tag)
      → decrypt key nonce ad out tag ≡ ok text

module _ (aead : Aead) where
  -- The buffer after the call. `split_at_mut` and `tag[..16]` panic on a buffer that is too short.
  unfoldable pub encrypt_in_place : List ℕ → List ℕ → List ℕ → List ℕ → ℕ → Result (List ℕ)
  encrypt_in_place key nonce ad data_ data_len =
      if leb data_len (length data_) && leb aead_mic_len_bytes (length data_ - data_len)
      then and_then (aead.encrypt key nonce ad (take data_len data_))
          (λ (out, tag). ok (splice (splice data_ data_len tag) 0 out))
      else panic

  -- `data.len() - AEAD_MIC_LEN_BYTES` panics on a buffer that is too short.
  unfoldable pub decrypt_in_place : List ℕ → List ℕ → List ℕ → List ℕ → Result (List ℕ)
  decrypt_in_place key nonce ad data_ =
      let tag_start = length data_ - aead_mic_len_bytes in
      if leb aead_mic_len_bytes (length data_)
      then and_then (aead.decrypt key nonce ad (take tag_start data_) (drop tag_start data_))
          (λ out. ok (splice data_ 0 out))
      else panic
