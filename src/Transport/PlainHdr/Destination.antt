-- ===== src/Transport/PlainHdr/Destination.antt =====
-- matter/src/transport/plain_hdr.rs: `set_dest_u64` and the decoder, which reads no destination.
use matter_rs.Base.{
  ℕ, ◌≡◌, refl, sym, ap, ◌∙◌, List, ◌++◌, append_assoc, append-nil, none, is_some, ok, length,
  bit_and, bit_or,
}
use matter_rs.Base.Bytes.{LittleEndian}
use matter_rs.Base.Flags.{Bitflags}
use matter_rs.Base.Bits.{every_below, table_eq, table_lt}
use matter_rs.ParseBuf.{ParseBuf}
use matter_rs.ParseBuf.Laws.{IsValid, contents, skip, contents-skip-append}
use matter_rs.Transport.PlainHdr.{PlainHdr, set_dest_u64, decode}
use matter_rs.Transport.PlainHdr.Laws.{IsWellFormed, encoding, decode-Decodes}
use matter_rs.Transport.PlainHdr.MsgFlags

module _ ⦃le : LittleEndian⦄ ⦃bf : Bitflags⦄ where
  -- The header with a destination, as far as the decoder knows it.
  abbrev pub without_node : ℕ → PlainHdr → PlainHdr
  without_node id h = record (set_dest_u64 id h) { peer_nodeid = none }

  without_node-IsWellFormed :
      (id : ℕ) (h : PlainHdr)
      → IsWellFormed h
      → h.peer_nodeid ≡ none
      → IsWellFormed (without_node id h)
  unfolding set_dest_u64 every_below
  without_node-IsWellFormed id h w e =
      let union_flag = bf.union_lem h.flags MsgFlags.dsiz_unicast_nodeid in
      record {
        known = rw union_flag (table_lt (λ f. bit_or f 1) 8 8 refl h.flags w.known);
        typed = w.typed;
        id_fits = w.id_fits;
        ctr_fits = w.ctr_fits;
        node_fits = tt;
        announced =
            bf.contains_lem _ MsgFlags.src_addr_present
            ∙ rw
                (
                  union_flag,
                  table_eq (λ f. bit_and (bit_or f 1) 4) (λ f. bit_and f 4) 8 refl h.flags w.known,
                )
                (sym (bf.contains_lem h.flags MsgFlags.src_addr_present)
                  ∙ w.announced
                  ∙ ap is_some e);
      }

  -- Whatever header is given a destination: the decoder takes the header without the destination,
  -- and leaves its eight bytes in front of what follows.
  pub decode-set_dest_u64 :
      (id : ℕ) (h d : PlainHdr) (p : ParseBuf) (rest : List ℕ)
      → IsWellFormed h
      → h.peer_nodeid ≡ none
      → d.peer_nodeid ≡ none
      → IsValid p
      → contents p ≡ encoding (set_dest_u64 id h) ++ rest
      → (decode (d, p)
          ≡ (ok tt, (without_node id h, skip (length (encoding (without_node id h))) p)))
        × (contents (skip (length (encoding (without_node id h))) p) ≡ le.write 8 id ++ rest)
  unfolding set_dest_u64
  decode-set_dest_u64 id h d p rest w e none_yet v c = (
    (decode-Decodes (without_node id h) d (without_node-IsWellFormed id h w e) none_yet).decodes p
        (le.write 8 id ++ rest) v c',
    contents-skip-append p (encoding (without_node id h)) (le.write 8 id ++ rest) c',
  )
    where
      c' : contents p ≡ encoding (without_node id h) ++ (le.write 8 id ++ rest)
      c' = c ∙ simp (append_assoc, append-nil)
