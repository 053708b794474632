-- ===== src/Transport/PlainHdr/Laws.antt =====
-- matter/src/transport/plain_hdr.rs: what `encode` writes, `decode` reads back.
use matter_rs.Base.{
  ℕ, ◌+◌, ◌^◌, ◌≤◌, ◌<◌, ◌≡◌, refl, sym, ap, ◌∙◌, subst, List, [], ◌∷◌, ◌++◌, ==_refl, Option, some,
  none, is_some, ok, invalid, length, bit_and,
}
use matter_rs.Base.Exec.{◌>>=◌}
use matter_rs.Base.Bytes.{LittleEndian}
use matter_rs.Base.Flags.{Bitflags}
use matter_rs.Base.Bits.{every_below, table_eq}
use matter_rs.ParseBuf.{ParseBuf}
use matter_rs.ParseBuf.Laws.{
  skip, contents-skip-append, le_u8-Reads, le_u16-Reads, le_u32-Reads, le_u64-Reads,
}
use matter_rs.ParseBuf.Decoding.{
  Decodes, on_snd-Decodes, lift-Decodes, some-Decodes, set-Decodes, >>=-Decodes, >>-Decodes,
}
use matter_rs.WriteBuf.{WriteBuf}
use matter_rs.WriteBuf.Laws as WriteBuf
use matter_rs.ParseBuf.Laws as ParseBuf
use matter_rs.WriteBuf.Laws.{
  Writes, Writes-contents, >>-Writes, pure-Writes, le_u8-Writes, le_u16-Writes, le_u32-Writes,
  le_u64-Writes,
}
use matter_rs.Transport.PlainHdr.{
  PlainHdr, type_of_id, decode, decode_source, encode, encode_nodeid,
}
use matter_rs.Transport.PlainHdr.MsgFlags

abbrev pub Fits64 : Option ℕ → Type 0
Fits64 none = Unit {0}
Fits64 (some id) = id < 256 ^ 8

module _ ⦃bf : Bitflags⦄ where
  -- A header that the wire format can carry: known flags, fields within their widths, a session
  -- type that goes with the session id, and a node id where the flags announce a source address.
  pub record IsWellFormed (h : PlainHdr) : Type 0 where
    pub known : h.flags < 8
    pub typed : h.sess_type ≡ type_of_id h.sess_id
    pub id_fits : h.sess_id < 256 ^ 2
    pub ctr_fits : h.ctr < 256 ^ 4
    pub node_fits : Fits64 h.peer_nodeid
    pub announced : bf.contains h.flags MsgFlags.src_addr_present ≡ is_some h.peer_nodeid

module _ ⦃le : LittleEndian⦄ where
  abbrev pub node_bytes : Option ℕ → List ℕ
  node_bytes none = []
  node_bytes (some id) = le.write 8 id

  -- The header on the wire.
  abbrev pub encoding : PlainHdr → List ℕ
  encoding h =
      (h.flags ∷ [])
      ++ (le.write 2 h.sess_id ++ ((0 ∷ []) ++ (le.write 4 h.ctr ++ node_bytes h.peer_nodeid)))

  encode_nodeid-Writes : (o : Option ℕ) → Writes (encode_nodeid o) (node_bytes o)
  unfolding encode_nodeid
  encode_nodeid-Writes none = pure-Writes
  encode_nodeid-Writes (some id) = le_u64-Writes id

  pub encode-Writes : (h : PlainHdr) → Writes (encode h) (encoding h)
  unfolding encode
  encode-Writes h = >>-Writes (le_u8-Writes h.flags) (
      >>-Writes (le_u16-Writes h.sess_id) (
        >>-Writes (le_u8-Writes 0)
          (>>-Writes (le_u32-Writes h.ctr) (encode_nodeid-Writes h.peer_nodeid))))

module _ ⦃le : LittleEndian⦄ ⦃bf : Bitflags⦄ where
  from_bits_known : (f : ℕ) → f < 8 → bf.from_bits MsgFlags.all f ≡ some f
  unfolding every_below
  from_bits_known f h =
      bf.from_bits_lem MsgFlags.all f
      ∙ rw (table_eq (λ x. bit_and x 7) (λ x. x) 8 refl f h, ==_refl) refl

  decode_source-Decodes :
      (h : PlainHdr) (o : Option ℕ)
      → bf.contains h.flags MsgFlags.src_addr_present ≡ is_some o
      → Fits64 o
      → h.peer_nodeid ≡ none
      → Decodes decode_source h (node_bytes o) tt (record h { peer_nodeid = o })
  unfolding decode_source ◌>>=◌
  decode_source-Decodes h none e k d =
      lift-Decodes h λ p. rw e (λ i. (ok tt, (record h { peer_nodeid = d i }, p)))
  decode_source-Decodes h (some id) e k d = record {
    decodes = λ p rest v c. rw e (rw ((le_u64-Reads id k).reads p rest v c) refl);
  }

  -- Reading a well-formed header back gives the header, whatever the object held before, and
  -- leaves what follows it.
  pub decode-Decodes :
      (h d : PlainHdr) → IsWellFormed h → d.peer_nodeid ≡ none → Decodes decode d (encoding h) tt h
  unfolding decode
  decode-Decodes h d w e =
      let flags_ok = from_bits_known h.flags w.known in
      >>=-Decodes _ (on_snd-Decodes d (le_u8-Reads h.flags)) (
        >>=-Decodes _ (some-Decodes invalid d flags_ok) (
          >>-Decodes _ (set-Decodes _ d) (
            >>=-Decodes _ (on_snd-Decodes _ (le_u16-Reads h.sess_id w.id_fits)) (
              >>-Decodes _ (set-Decodes _ _) (
                >>=-Decodes _ (on_snd-Decodes _ (le_u8-Reads 0)) (
                  >>-Decodes _ (set-Decodes _ _) (
                    >>=-Decodes _ (on_snd-Decodes _ (le_u32-Reads h.ctr w.ctr_fits)) (
                      >>-Decodes _ (set-Decodes _ _) (
                        subst
                          (λ t.
                            Decodes decode_source
                              (record h {
                                sess_type = type_of_id h.sess_id;
                                peer_nodeid = d.peer_nodeid;
                              })
                              (node_bytes h.peer_nodeid) tt (record h { sess_type = t }))
                          (sym w.typed)
                          (decode_source-Decodes _ h.peer_nodeid w.announced w.node_fits e))))))))))

  -- A well-formed header that is encoded into an empty buffer with room for it is decoded from a
  -- packet that begins with these bytes as the same header, with the cursor behind it.
  pub decode-encode_plain :
      (h d : PlainHdr) (w : WriteBuf) (p : ParseBuf) (rest : List ℕ)
      → IsWellFormed h
      → d.peer_nodeid ≡ none
      → WriteBuf.IsValid w
      → WriteBuf.contents w ≡ []
      → w.end + length (encoding h) ≤ length w.buf
      → ParseBuf.IsValid p
      → ParseBuf.contents p ≡ WriteBuf.contents (encode h w).1 ++ rest
      → ((encode h w).0 ≡ ok tt)
        × (decode (d, p) ≡ (ok tt, (h, skip (length (encoding h)) p)))
        × (ParseBuf.contents (skip (length (encoding h)) p) ≡ rest)
  decode-encode_plain h d w p rest wf none_yet valid empty room valid' e =
      let written = Writes-contents w (encode-Writes h) valid room in
      let bytes = written.2 ∙ ap (λ x. x ++ encoding h) empty in
      let e' = e ∙ ap (λ x. x ++ rest) bytes in
      (
        written.0,
        (decode-Decodes h d wf none_yet).decodes p rest valid' e',
        contents-skip-append p (encoding h) rest e',
      )
