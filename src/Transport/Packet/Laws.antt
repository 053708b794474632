-- ===== src/Transport/Packet/Laws.antt =====
-- matter/src/transport/packet.rs: the headers are decoded in order, and each once.
use matter_rs.Base.{ℕ, ◌≡◌, ◌⊎◌, inl, inr, refl, List, Option, err, invalid_state}
use matter_rs.Base.Bytes.{LittleEndian}
use matter_rs.Base.Flags.{Bitflags}
use matter_rs.ParseBuf.{ParseBuf}
use matter_rs.Transport.Crypto.{Aead}
use matter_rs.Transport.Packet.{
  Packet, Direction, tx, rx, uninit, plain_decoded, proto_decoded, plain_hdr_decode, proto_decode,
}

module _ ⦃le : LittleEndian⦄ ⦃bf : Bitflags⦄ (aead : Aead) (nodeid : ℕ)
    (key : Option (List ℕ)) where
  plain_twice :
      (p : Packet) (d : Direction)
      → p.direction ≡ d
      → (plain_hdr_decode (plain_hdr_decode p).1).0 ≡ err invalid_state
  unfolding plain_hdr_decode
  plain_twice p (tx wb) e = rw (e, plain_hdr_decode) (rw (e, plain_hdr_decode) refl)
  plain_twice p (rx pb uninit) e = rw (e, plain_hdr_decode) refl
  plain_twice p (rx pb plain_decoded) e = rw (e, plain_hdr_decode) (rw (e, plain_hdr_decode) refl)
  plain_twice p (rx pb proto_decoded) e = rw (e, plain_hdr_decode) (rw (e, plain_hdr_decode) refl)

  proto_twice :
      (p : Packet) (d : Direction)
      → p.direction ≡ d
      → (proto_decode aead nodeid key (proto_decode aead nodeid key p).1).0 ≡ err invalid_state
  unfolding proto_decode
  proto_twice p (tx wb) e = rw (e, proto_decode) (rw (e, proto_decode) refl)
  proto_twice p (rx pb uninit) e = rw (e, proto_decode) (rw (e, proto_decode) refl)
  proto_twice p (rx pb plain_decoded) e = rw (e, proto_decode) refl
  proto_twice p (rx pb proto_decoded) e = rw (e, proto_decode) (rw (e, proto_decode) refl)

  -- On any packet, whichever its direction and state, a second decoding of either header is refused,
  -- whatever the first one gave; and the protocol header is decoded with success only on a packet
  -- whose plain header is decoded.
  pub decode_order :
      (p : Packet)
      → ((plain_hdr_decode (plain_hdr_decode p).1).0 ≡ err invalid_state)
        × ((proto_decode aead nodeid key (proto_decode aead nodeid key p).1).0 ≡ err invalid_state)
        × ((proto_decode aead nodeid key p ≡ (err invalid_state, p))
            ⊎ ((pb : ParseBuf) × (p.direction ≡ rx pb plain_decoded)))
  unfolding proto_decode
  decode_order p =
      (plain_twice p p.direction refl, proto_twice p p.direction refl, ready p.direction refl)
    where
      ready :
          (d : Direction)
          → p.direction ≡ d
          → (proto_decode aead nodeid key p ≡ (err invalid_state, p))
            ⊎ ((pb : ParseBuf) × (p.direction ≡ rx pb plain_decoded))
      ready (tx wb) e = inl (simp (e, proto_decode))
      ready (rx pb uninit) e = inl (simp (e, proto_decode))
      ready (rx pb plain_decoded) e = inr (pb, e)
      ready (rx pb proto_decoded) e = inl (simp (e, proto_decode))
