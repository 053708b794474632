-- ===== src/Transport/ProtoHdr/Encryption.antt =====
-- matter/src/transport/proto_hdr.rs: `encrypt_in_place` on a buffer that is sent, and
-- `decrypt_in_place` on the packet that is received.
use matter_rs.Base.{
  ℕ, ◌+◌, ◌-◌, ◌≡◌, ◌<◌, refl, sym, ap, ◌∙◌, le→leb, List, [], ◌∷◌, ◌++◌, length, take, drop,
  splice, replicate, Result, ok, err, panic, and_then, arith, length-append, length-splice,
  splice_whole, segment-splice_whole, take-append,
}
use matter_rs.Base.Exec.{◌>>=◌}
use matter_rs.Base.Bytes.{LittleEndian}
use matter_rs.ParseBuf.{ParseBuf}
use matter_rs.ParseBuf
use matter_rs.ParseBuf.Laws as ParseLaws
use matter_rs.WriteBuf.{WriteBuf}
use matter_rs.WriteBuf
use matter_rs.WriteBuf.Laws.{
  as_slice-contents, IsValid, contents, length-contents, extend, Fits, extend-IsValid,
  contents-extend, >>-Writes, append-Writes, le_u8-Writes, le_u32-Writes, le_u64-Writes,
}
use matter_rs.Transport.Crypto
use matter_rs.Transport.Crypto.{Aead, aead_mic_len_bytes, aead_nonce_len_bytes, aead_aad_len_bytes}
use matter_rs.Transport.Crypto.Laws.{
  encrypt_in_place_lem, encrypt_in_place_outcome, decrypt_in_place_lem, decrypt_in_place_short,
}
use matter_rs.Transport.ProtoHdr.{
  get_iv, nonce, encrypt_slice, encrypt_in_place, decrypt_slice, read_aad, decrypt_in_place,
}

abbrev pub tag_space : List ℕ
tag_space = replicate aead_mic_len_bytes 0

module _ ⦃le : LittleEndian⦄ where
  abbrev pub nonce_bytes : ℕ → ℕ → List ℕ
  nonce_bytes ctr nodeid = (0 ∷ []) ++ (le.write 4 ctr ++ le.write 8 nodeid)

  -- The nonce is a zero byte, the message counter and the source node id, and never fails.
  pub nonce_lem : (ctr nodeid : ℕ) → nonce ctr nodeid ≡ ok (nonce_bytes ctr nodeid)
  unfolding nonce get_iv WriteBuf.new
  nonce_lem ctr nodeid =
      let written =
        >>-Writes (le_u8-Writes 0) (>>-Writes (le_u32-Writes ctr) (le_u64-Writes nodeid)) in
      let start : WriteBuf = record { buf = replicate 13 0; start = 0; end = 0 } in
      let size : length (nonce_bytes ctr nodeid) ≡ 13 = omega (
        arith,
        le.length-write 4 ctr,
        le.length-write 8 nodeid,
        length-append (le.write 4 ctr) (le.write 8 nodeid),
      ) in
      rw (written.writes start (omega arith))
        (ap ok (splice_whole (replicate 13 0) (nonce_bytes ctr nodeid) size))

module _ ⦃le : LittleEndian⦄ (aead : Aead) (key nonce ad : List ℕ) where
  encrypt_slice_lem :
      (w : WriteBuf) (text out : List ℕ)
      → WriteBuf.as_slice w ≡ ok text
      → Crypto.encrypt_in_place aead key nonce ad text (length text - aead_mic_len_bytes) ≡ ok out
      → encrypt_slice aead key nonce ad w ≡ (ok tt, record w { buf = splice w.buf w.start out })
  unfolding encrypt_slice
  encrypt_slice_lem w text out e f = rw (e, encrypt_slice) (rw f refl)

  encrypt_slice_fails :
      (w : WriteBuf) (text : List ℕ) (r : Result (List ℕ))
      → WriteBuf.as_slice w ≡ ok text
      → Crypto.encrypt_in_place aead key nonce ad text (length text - aead_mic_len_bytes) ≡ r
      → (encrypt_slice aead key nonce ad w).0 ≡ and_then r (λ _. ok tt)
  unfolding encrypt_slice
  encrypt_slice_fails w text (ok out) e f = rw (e, encrypt_slice) (rw f refl)
  encrypt_slice_fails w text (err x) e f = rw (e, encrypt_slice) (rw f refl)
  encrypt_slice_fails w text panic e f = rw (e, encrypt_slice) (rw f refl)

  decrypt_slice_lem :
      (p : ParseBuf) (text out : List ℕ)
      → ParseBuf.as_slice p ≡ ok text
      → Crypto.decrypt_in_place aead key nonce ad text ≡ ok out
      → decrypt_slice aead key nonce ad p ≡ (ok tt, record p { buf = splice p.buf p.read_off out })
  unfolding decrypt_slice
  decrypt_slice_lem p text out e f = rw (e, decrypt_slice) (rw f refl)

  decrypt_slice_panics :
      (p : ParseBuf) (text : List ℕ)
      → ParseBuf.as_slice p ≡ ok text
      → Crypto.decrypt_in_place aead key nonce ad text ≡ panic
      → decrypt_slice aead key nonce ad p ≡ (panic, p)
  unfolding decrypt_slice
  decrypt_slice_panics p text e f = rw (e, decrypt_slice) (rw f refl)

pub parse_slice-contents :
    (p : ParseBuf) → ParseLaws.IsValid p → ParseBuf.as_slice p ≡ ok (ParseLaws.contents p)
unfolding ParseBuf.as_slice
parse_slice-contents p v =
    let d : p.read_off + p.left - p.read_off ≡ p.left = omega arith in
    let a = le→leb p.read_off (p.read_off + p.left) (omega arith) in
    let b = le→leb (p.read_off + p.left) (length p.buf) v.within in rw (a, b, d) refl

read_aad_lem :
    (p : ParseBuf) (ad : List ℕ)
    → ParseBuf.parsed_as_slice p ≡ ok ad
    → length ad ≡ aead_aad_len_bytes
    → read_aad p ≡ ok ad
unfolding read_aad
read_aad_lem p ad e h = rw (e, h) refl

-- The packet with the plain text and the tag in place of its contents, and the tag cut off.
abbrev pub opened : ParseBuf → List ℕ → ParseBuf
opened p text = record p { buf = splice p.buf p.read_off text; left = p.left - aead_mic_len_bytes }

-- The packet with other bytes in place of its contents.
abbrev replaced : ParseBuf → List ℕ → ParseBuf
replaced p text = record p { buf = splice p.buf p.read_off text }

contents-replaced :
    (p : ParseBuf) (text : List ℕ)
    → ParseLaws.IsValid p
    → length text ≡ p.left
    → ParseLaws.contents (replaced p text) ≡ text
contents-replaced p text v n =
    let d : p.read_off + p.left - p.read_off ≡ p.left = omega arith in
    ap (λ k. take k (drop p.read_off (splice p.buf p.read_off text))) (sym d)
    ∙ segment-splice_whole p.buf p.read_off (p.read_off + p.left) text (omega arith) v.within

opened-contents :
    (p : ParseBuf) (text tag : List ℕ)
    → ParseLaws.IsValid p
    → length text + aead_mic_len_bytes ≡ p.left
    → length tag ≡ aead_mic_len_bytes
    → (last : List ℕ) × (ParseBuf.tail aead_mic_len_bytes (replaced p (text ++ tag))
        ≡ (ok last, opened p (text ++ tag)))
      × (ParseLaws.contents (opened p (text ++ tag)) ≡ text)
      × ParseLaws.IsValid (opened p (text ++ tag))
opened-contents p text tag v n m =
    let valid : ParseLaws.IsValid (replaced p (text ++ tag)) =
      omega (arith, v.within, length-splice p.buf p.read_off (text ++ tag)) in
    let (last, e, parts, size, valid') =
      (ParseLaws.tail_lem aead_mic_len_bytes (replaced p (text ++ tag)) valid).0 (omega arith) in
    let whole = contents-replaced p (text ++ tag) v (omega (arith, length-append text tag)) in
    let front = ParseLaws.length-contents (opened p (text ++ tag)) valid' in
    (
      last,
      e,
      sym (
            take-append (ParseLaws.contents (opened p (text ++ tag))) last (length text)
              (omega (arith, front)))
          ∙ ap (take (length text)) (sym parts ∙ whole)
          ∙ take-append text tag (length text) refl,
      valid',
    )

module _ ⦃le : LittleEndian⦄ (aead : Aead) (key ad : List ℕ) (ctr nodeid : ℕ) where
  -- The buffer with the cipher text and the tag in place of its contents.
  abbrev pub sealed : WriteBuf → List ℕ → WriteBuf
  sealed w text = record (extend w tag_space) {
    buf = splice (splice w.buf w.end tag_space) w.start text;
  }

  contents-sealed :
      (w : WriteBuf) (out tag : List ℕ)
      → IsValid w
      → Fits w tag_space
      → (length out ≡ length (contents w)) × (length tag ≡ aead_mic_len_bytes)
      → contents (sealed w (out ++ tag)) ≡ out ++ tag
  contents-sealed w out tag v fits sizes =
      segment-splice_whole (splice w.buf w.end tag_space) w.start (w.end + length tag_space)
        (out ++ tag)
        (omega (arith, length-append out tag, sizes.0, sizes.1, length-contents w v, v.ordered))
        (omega (arith, length-splice w.buf w.end tag_space))

  pub encrypt-eq-sealed :
      (w : WriteBuf) (out tag : List ℕ)
      → IsValid w
      → Fits w tag_space
      → aead.encrypt key (nonce_bytes ctr nodeid) ad (contents w) ≡ ok (out, tag)
      → encrypt_in_place aead ctr nodeid ad key w ≡ (ok tt, sealed w (out ++ tag))
  unfolding encrypt_in_place ◌>>=◌
  encrypt-eq-sealed w out tag v fits e = rw (nonce_lem ctr nodeid) (
      rw ((append-Writes tag_space).writes w fits) (
        encrypt_slice_lem aead key (nonce_bytes ctr nodeid) ad (extend w tag_space)
          (contents w ++ tag_space) (out ++ tag)
          (as_slice-contents (extend w tag_space) (extend-IsValid w tag_space v fits)
            ∙ ap ok (contents-extend w tag_space v fits))
          (encrypt_in_place_lem aead key (nonce_bytes ctr nodeid) ad (contents w) tag_space out tag
            refl e)))

  pub decrypt-eq-opened :
      (p : ParseBuf) (text out tag : List ℕ)
      → ParseLaws.IsValid p
      → ParseBuf.parsed_as_slice p ≡ ok ad
      → length ad ≡ aead_aad_len_bytes
      → ParseLaws.contents p ≡ out ++ tag
      → length tag ≡ aead_mic_len_bytes
      → aead.decrypt key (nonce_bytes ctr nodeid) ad out tag ≡ ok text
      → decrypt_in_place aead ctr nodeid key p ≡ (ok tt, opened p (text ++ tag))
  unfolding decrypt_in_place ◌>>=◌
  decrypt-eq-opened p text out tag v a n c m e =
      let sizes = aead.length-decrypt key (nonce_bytes ctr nodeid) ad out tag text e in
      let room : length text + aead_mic_len_bytes ≡ p.left =
        omega (arith, ap length c, ParseLaws.length-contents p v, length-append out tag) in
      rw (read_aad_lem p ad a n) (
        rw (nonce_lem ctr nodeid) (
          rw
            (decrypt_slice_lem aead key (nonce_bytes ctr nodeid) ad p (out ++ tag) (text ++ tag)
              (parse_slice-contents p v ∙ ap ok c)
              (decrypt_in_place_lem aead key (nonce_bytes ctr nodeid) ad text out tag m e))
            (rw (opened-contents p text tag v room m).1 refl)))

  encrypt_outcome :
      (w : WriteBuf) (r : Result (List ℕ × List ℕ))
      → IsValid w
      → Fits w tag_space
      → aead.encrypt key (nonce_bytes ctr nodeid) ad (contents w) ≡ r
      → (encrypt_in_place aead ctr nodeid ad key w).0 ≡ and_then r (λ _. ok tt)
  unfolding encrypt_in_place ◌>>=◌
  encrypt_outcome w r v fits e = rw (nonce_lem ctr nodeid) (
      rw ((append-Writes tag_space).writes w fits) (
        encrypt_slice_fails aead key (nonce_bytes ctr nodeid) ad (extend w tag_space)
          (contents w ++ tag_space) _
          (as_slice-contents (extend w tag_space) (extend-IsValid w tag_space v fits)
            ∙ ap ok (contents-extend w tag_space v fits))
          refl
        ∙ encrypt_in_place_outcome aead key (nonce_bytes ctr nodeid) ad (contents w) tag_space r
            refl e))

  cipher_succeeded :
      (w : WriteBuf) (r : Result (List ℕ × List ℕ))
      → IsValid w
      → Fits w tag_space
      → (encrypt_in_place aead ctr nodeid ad key w).0 ≡ ok tt
      → aead.encrypt key (nonce_bytes ctr nodeid) ad (contents w) ≡ r
      → (out : List ℕ) × (tag : List ℕ) × (r ≡ ok (out, tag))
  cipher_succeeded w (ok (out, tag)) v fits h e = (out, tag, refl)
  cipher_succeeded w (err x) v fits h e = cc (encrypt_outcome w (err x) v fits e)
  cipher_succeeded w panic v fits h e = cc (encrypt_outcome w panic v fits e)

  -- An encryption that succeeds leaves the start of the buffer where it was.
  pub encrypt_in_place_start :
      (w : WriteBuf)
      → IsValid w
      → Fits w tag_space
      → (encrypt_in_place aead ctr nodeid ad key w).0 ≡ ok tt
      → IsValid (encrypt_in_place aead ctr nodeid ad key w).1
        × ((encrypt_in_place aead ctr nodeid ad key w).1.start ≡ w.start)
  encrypt_in_place_start w v fits done =
      let (out, tag, e) = cipher_succeeded w _ v fits done refl in
      rw (encrypt-eq-sealed w out tag v fits e) (
        omega (
          arith,
          v.ordered,
          length-splice (splice w.buf w.end tag_space) w.start (out ++ tag),
          length-splice w.buf w.end tag_space,
        ),
        refl,
      )

  -- When a message is encrypted with success, then a packet that holds the result behind an 8-byte
  -- plain header, the associated data, is decrypted with the same key, counter and node id to the
  -- message.
  pub decrypt_in_place-encrypt_in_place :
      (w : WriteBuf) (p : ParseBuf)
      → IsValid w
      → Fits w tag_space
      → (encrypt_in_place aead ctr nodeid ad key w).0 ≡ ok tt
      → ParseLaws.IsValid p
      → ParseBuf.parsed_as_slice p ≡ ok ad
      → length ad ≡ aead_aad_len_bytes
      → ParseLaws.contents p ≡ contents (encrypt_in_place aead ctr nodeid ad key w).1
      → (p' : ParseBuf) × (decrypt_in_place aead ctr nodeid key p ≡ (ok tt, p'))
        × (ParseLaws.contents p' ≡ contents w)
        × ParseLaws.IsValid p'
  decrypt_in_place-encrypt_in_place w p v fits done v' a n c =
      let (out, tag, e) = cipher_succeeded w _ v fits done refl in
      let sizes = aead.length-encrypt key (nonce_bytes ctr nodeid) ad (contents w) out tag e in
      let c' =
        c
        ∙ ap (λ x. contents x.1) (encrypt-eq-sealed w out tag v fits e)
        ∙ contents-sealed w out tag v fits sizes in
      let room : length (contents w) + aead_mic_len_bytes ≡ p.left = omega (
        arith,
        ap length c',
        ParseLaws.length-contents p v',
        length-append out tag,
        sizes.0,
        sizes.1,
      ) in
      let (last, _, text, valid) = opened-contents p (contents w) tag v' room sizes.1 in
      (
        opened p (contents w ++ tag),
        decrypt-eq-opened p (contents w) out tag v' a n c' sizes.1
            (aead.decrypt-encrypt key (nonce_bytes ctr nodeid) ad (contents w) out tag e),
        text,
        valid,
      )

  -- A packet with an 8-byte plain header and fewer bytes behind it than the tag has is a panic,
  -- whatever the key and the cipher.
  pub decrypt_in_place_short_packet :
      (p : ParseBuf)
      → ParseLaws.IsValid p
      → ParseBuf.parsed_as_slice p ≡ ok ad
      → length ad ≡ aead_aad_len_bytes
      → p.left < aead_mic_len_bytes
      → (decrypt_in_place aead ctr nodeid key p).0 ≡ panic
  unfolding decrypt_in_place ◌>>=◌
  decrypt_in_place_short_packet p v a n h = rw (read_aad_lem p ad a n) (
      rw (nonce_lem ctr nodeid) (
        rw
          (decrypt_slice_panics aead key (nonce_bytes ctr nodeid) ad p (ParseLaws.contents p)
            (parse_slice-contents p v)
            (decrypt_in_place_short aead key (nonce_bytes ctr nodeid) ad (ParseLaws.contents p)
              (omega (arith, ParseLaws.length-contents p v))))
          refl))
