-- ===== src/Transport/ProtoHdr/Laws.antt =====
-- matter/src/transport/proto_hdr.rs: what `encode` writes, `decode` reads back.
use matter_rs.Base.{
  ℕ, ◌+◌, ◌^◌, ◌≤◌, ◌<◌, ◌≡◌, refl, ap, ◌∙◌, List, [], ◌∷◌, ◌++◌, ==_refl, Option, some, none,
  is_some, ok, invalid, length, bit_and,
}
use matter_rs.Base.Exec.{◌>>=◌}
use matter_rs.Base.Bytes.{LittleEndian}
use matter_rs.Base.Flags.{Bitflags}
use matter_rs.Base.Bits.{every_below, table_eq}
use matter_rs.ParseBuf.{ParseBuf}
use matter_rs.ParseBuf.Laws.{skip, contents-skip-append, le_u8-Reads, le_u16-Reads, le_u32-Reads}
use matter_rs.ParseBuf.Decoding.{
  Decodes, on_snd-Decodes, lift-Decodes, some-Decodes, set-Decodes, >>=-Decodes, >>-Decodes,
}
use matter_rs.WriteBuf.{WriteBuf}
use matter_rs.WriteBuf.Laws as WriteBuf
use matter_rs.ParseBuf.Laws as ParseBuf
use matter_rs.WriteBuf.Laws.{
  Writes, Writes-contents, >>-Writes, pure-Writes, le_u8-Writes, le_u16-Writes, le_u32-Writes,
}
use matter_rs.Transport.ProtoHdr.{
  ProtoHdr, is_vendor, is_ack, decode, decode_vendor, decode_ack, encode, encode_vendor, encode_ack,
}
use matter_rs.Transport.ProtoHdr.ExchFlags

-- An optional field of `n` bytes.
abbrev pub FitsBytes : ℕ → Option ℕ → Type 0
FitsBytes n none = Unit {0}
FitsBytes n (some v) = v < 256 ^ n

module _ ⦃bf : Bitflags⦄ where
  -- A header that the wire format can carry: known flags, fields within their widths, and the
  -- optional fields present exactly where the flags announce them.
  pub record IsWellFormed (h : ProtoHdr) : Type 0 where
    pub known : h.exch_flags < 32
    pub id_fits : h.exch_id < 256 ^ 2
    pub proto_fits : h.proto_id < 256 ^ 2
    pub vendor_fits : FitsBytes 2 h.proto_vendor_id
    pub ack_fits : FitsBytes 4 h.ack_msg_ctr
    pub vendor_announced : is_vendor h ≡ is_some h.proto_vendor_id
    pub ack_announced : is_ack h ≡ is_some h.ack_msg_ctr

module _ ⦃le : LittleEndian⦄ where
  abbrev pub optional_bytes : ℕ → Option ℕ → List ℕ
  optional_bytes n none = []
  optional_bytes n (some v) = le.write n v

  -- The header on the wire.
  abbrev pub encoding : ProtoHdr → List ℕ
  encoding h =
      (h.exch_flags ∷ [])
      ++ ((h.proto_opcode ∷ [])
          ++ (le.write 2 h.exch_id
              ++ (le.write 2 h.proto_id
                  ++ (optional_bytes 2 h.proto_vendor_id ++ optional_bytes 4 h.ack_msg_ctr))))

module _ ⦃le : LittleEndian⦄ ⦃bf : Bitflags⦄ where
  encode_vendor-Writes :
      (h : ProtoHdr) (o : Option ℕ)
      → h.proto_vendor_id ≡ o
      → is_vendor h ≡ is_some o
      → Writes (encode_vendor h) (optional_bytes 2 o)
  unfolding encode_vendor ◌>>=◌
  encode_vendor-Writes h none e a = rw a pure-Writes
  encode_vendor-Writes h (some v) e a = rw a (rw e (le_u16-Writes v))

  encode_ack-Writes :
      (h : ProtoHdr) (o : Option ℕ)
      → h.ack_msg_ctr ≡ o
      → is_ack h ≡ is_some o
      → Writes (encode_ack h) (optional_bytes 4 o)
  unfolding encode_ack ◌>>=◌
  encode_ack-Writes h none e a = rw a pure-Writes
  encode_ack-Writes h (some v) e a = rw a (rw e (le_u32-Writes v))

  pub encode-Writes : (h : ProtoHdr) → IsWellFormed h → Writes (encode h) (encoding h)
  unfolding encode
  encode-Writes h w = >>-Writes (le_u8-Writes h.exch_flags) (
      >>-Writes (le_u8-Writes h.proto_opcode) (
        >>-Writes (le_u16-Writes h.exch_id) (
          >>-Writes (le_u16-Writes h.proto_id) (
            >>-Writes (encode_vendor-Writes h h.proto_vendor_id refl w.vendor_announced)
              (encode_ack-Writes h h.ack_msg_ctr refl w.ack_announced)))))

  from_bits_known : (f : ℕ) → f < 32 → bf.from_bits ExchFlags.all f ≡ some f
  unfolding every_below
  from_bits_known f h =
      bf.from_bits_lem ExchFlags.all f
      ∙ rw (table_eq (λ x. bit_and x 31) (λ x. x) 32 refl f h, ==_refl) refl

  decode_vendor-Decodes :
      (h : ProtoHdr) (o : Option ℕ)
      → is_vendor h ≡ is_some o
      → FitsBytes 2 o
      → h.proto_vendor_id ≡ none
      → Decodes decode_vendor h (optional_bytes 2 o) tt (record h { proto_vendor_id = o })
  unfolding decode_vendor ◌>>=◌
  decode_vendor-Decodes h none e k d =
      lift-Decodes h λ p. rw e (λ i. (ok tt, (record h { proto_vendor_id = d i }, p)))
  decode_vendor-Decodes h (some v) e k d = record {
    decodes = λ p rest valid c. rw e (rw ((le_u16-Reads v k).reads p rest valid c) refl);
  }

  decode_ack-Decodes :
      (h : ProtoHdr) (o : Option ℕ)
      → is_ack h ≡ is_some o
      → FitsBytes 4 o
      → h.ack_msg_ctr ≡ none
      → Decodes decode_ack h (optional_bytes 4 o) tt (record h { ack_msg_ctr = o })
  unfolding decode_ack ◌>>=◌
  decode_ack-Decodes h none e k d =
      lift-Decodes h λ p. rw e (λ i. (ok tt, (record h { ack_msg_ctr = d i }, p)))
  decode_ack-Decodes h (some v) e k d = record {
    decodes = λ p rest valid c. rw e (rw ((le_u32-Reads v k).reads p rest valid c) refl);
  }

  -- From a fresh object, a well-formed header is read back, and what follows it is left.
  pub decode-Decodes :
      (h d : ProtoHdr)
      → IsWellFormed h
      → d.proto_vendor_id ≡ none
      → d.ack_msg_ctr ≡ none
      → Decodes decode d (encoding h) tt h
  unfolding decode is_vendor is_ack
  decode-Decodes h d w v a = >>=-Decodes _ (on_snd-Decodes d (le_u8-Reads h.exch_flags)) (
      >>=-Decodes _ (some-Decodes invalid d (from_bits_known h.exch_flags w.known)) (
        >>-Decodes _ (set-Decodes _ d) (
          >>=-Decodes _ (on_snd-Decodes _ (le_u8-Reads h.proto_opcode)) (
            >>-Decodes _ (set-Decodes _ _) (
              >>=-Decodes _ (on_snd-Decodes _ (le_u16-Reads h.exch_id w.id_fits)) (
                >>-Decodes _ (set-Decodes _ _) (
                  >>=-Decodes _ (on_snd-Decodes _ (le_u16-Reads h.proto_id w.proto_fits)) (
                    >>-Decodes _ (set-Decodes _ _) (
                      >>-Decodes _
                        (decode_vendor-Decodes _ h.proto_vendor_id w.vendor_announced w.vendor_fits
                          v)
                        (decode_ack-Decodes _ h.ack_msg_ctr w.ack_announced w.ack_fits a))))))))))

  -- A well-formed header that is encoded into an empty buffer with room for it is decoded from a
  -- packet that begins with these bytes as the same header, with the cursor behind it.
  pub decode-encode_proto :
      (h d : ProtoHdr) (w : WriteBuf) (p : ParseBuf) (rest : List ℕ)
      → IsWellFormed h
      → d.proto_vendor_id ≡ none
      → d.ack_msg_ctr ≡ none
      → WriteBuf.IsValid w
      → WriteBuf.contents w ≡ []
      → w.end + length (encoding h) ≤ length w.buf
      → ParseBuf.IsValid p
      → ParseBuf.contents p ≡ WriteBuf.contents (encode h w).1 ++ rest
      → ((encode h w).0 ≡ ok tt)
        × (decode (d, p) ≡ (ok tt, (h, skip (length (encoding h)) p)))
        × (ParseBuf.contents (skip (length (encoding h)) p) ≡ rest)
  decode-encode_proto h d w p rest wf no_vendor no_ack valid empty room valid' e =
      let written = Writes-contents w (encode-Writes h wf) valid room in
      let bytes = written.2 ∙ ap (λ x. x ++ encoding h) empty in
      let e' = e ∙ ap (λ x. x ++ rest) bytes in
      (
        written.0,
        (decode-Decodes h d wf no_vendor no_ack).decodes p rest valid' e',
        contents-skip-append p (encoding h) rest e',
      )
