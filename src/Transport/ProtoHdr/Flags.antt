-- ===== src/Transport/ProtoHdr/Flags.antt =====
-- matter/src/transport/proto_hdr.rs: the methods that set and clear flags.
use matter_rs.Base.{ℕ, ◌<◌, ◌≡◌, refl, sym, ◌∙◌, true, false, ◌==◌, bit_and, bit_or, bit_xor}
use matter_rs.Base.Bytes.{LittleEndian}
use matter_rs.Base.Flags.{Bitflags}
use matter_rs.Base.Bits.{every_below, table_eq, table_lt, table_true}
use matter_rs.WriteBuf.{WriteBuf}
use matter_rs.Transport.ProtoHdr.{
  ProtoHdr, is_vendor, set_vendor, is_reliable, set_reliable, unset_reliable, is_ack, set_ack,
  is_initiator, set_initiator, encode, encode_vendor, encode_ack,
}

module _ ⦃bf : Bitflags⦄ where
  -- A flag that a union with `k` sets, and one that it leaves.
  union_sets :
      (k : ℕ)
      → every_below 32 (λ f. bit_and (bit_or f k) k == k) ≡ true
      → (f : ℕ) → f < 32
      → bf.contains (bf.union f k) k ≡ true
  union_sets k t f h =
      bf.contains_lem _ k
      ∙ rw (bf.union_lem f k) (table_true (λ x. bit_and (bit_or x k) k == k) 32 t f h)

  union_keeps :
      (k j : ℕ)
      → every_below 32 (λ f. bit_and (bit_or f k) j == bit_and f j) ≡ true
      → (f : ℕ) → f < 32
      → bf.contains (bf.union f k) j ≡ bf.contains f j
  union_keeps k j t f h =
      bf.contains_lem _ j
      ∙ rw (bf.union_lem f k, table_eq (λ x. bit_and (bit_or x k) j) (λ x. bit_and x j) 32 t f h)
          (sym (bf.contains_lem f j))

  difference_keeps :
      (k j : ℕ)
      → every_below 32 (λ f. bit_and (bit_xor (bit_or f k) k) j == bit_and f j) ≡ true
      → (f : ℕ) → f < 32
      → bf.contains (bf.difference f k) j ≡ bf.contains f j
  difference_keeps k j t f h =
      bf.contains_lem _ j
      ∙ rw
          (
            bf.difference_lem f k,
            table_eq (λ x. bit_and (bit_xor (bit_or x k) k) j) (λ x. bit_and x j) 32 t f h,
          )
          (sym (bf.contains_lem f j))

  -- Of the flags that are tested on a header with known flags, `set_ack`, `set_reliable` and
  -- `set_initiator` set their own and keep the others; `unset_reliable` clears its own and keeps
  -- the others; and the flags stay known.
  pub set_flags :
      (h : ProtoHdr) (c : ℕ)
      → h.exch_flags < 32
      → ((is_ack (set_ack c h) ≡ true)
          × (is_reliable (set_ack c h) ≡ is_reliable h)
          × (is_vendor (set_ack c h) ≡ is_vendor h)
          × (is_initiator (set_ack c h) ≡ is_initiator h)
          × ((set_ack c h).exch_flags < 32))
        × ((is_reliable (set_reliable h) ≡ true)
            × (is_ack (set_reliable h) ≡ is_ack h)
            × (is_vendor (set_reliable h) ≡ is_vendor h)
            × (is_initiator (set_reliable h) ≡ is_initiator h)
            × ((set_reliable h).exch_flags < 32))
        × ((is_initiator (set_initiator h) ≡ true)
            × (is_ack (set_initiator h) ≡ is_ack h)
            × (is_vendor (set_initiator h) ≡ is_vendor h)
            × (is_reliable (set_initiator h) ≡ is_reliable h)
            × ((set_initiator h).exch_flags < 32))
        × ((is_reliable (unset_reliable h) ≡ false)
            × (is_ack (unset_reliable h) ≡ is_ack h)
            × (is_vendor (unset_reliable h) ≡ is_vendor h)
            × (is_initiator (unset_reliable h) ≡ is_initiator h)
            × ((unset_reliable h).exch_flags < 32))
  unfolding every_below is_ack set_ack is_reliable set_reliable unset_reliable is_vendor
      is_initiator set_initiator
  set_flags h c k =
      let f = h.exch_flags in
      (
        (
          union_sets 2 refl f k,
          union_keeps 2 4 refl f k,
          union_keeps 2 16 refl f k,
          union_keeps 2 1 refl f k,
          rw (bf.union_lem f 2) (table_lt (λ x. bit_or x 2) 32 32 refl f k),
        ),
        (
          union_sets 4 refl f k,
          union_keeps 4 2 refl f k,
          union_keeps 4 16 refl f k,
          union_keeps 4 1 refl f k,
          rw (bf.union_lem f 4) (table_lt (λ x. bit_or x 4) 32 32 refl f k),
        ),
        (
          union_sets 1 refl f k,
          union_keeps 1 2 refl f k,
          union_keeps 1 16 refl f k,
          union_keeps 1 4 refl f k,
          rw (bf.union_lem f 1) (table_lt (λ x. bit_or x 1) 32 32 refl f k),
        ),
        (
          bf.contains_lem _ 4
              ∙ rw
                  (
                    bf.difference_lem f 4,
                    table_eq (λ x. bit_and (bit_xor (bit_or x 4) 4) 4) (λ x. 0) 32 refl f k,
                  )
                  refl,
          difference_keeps 4 2 refl f k,
          difference_keeps 4 16 refl f k,
          difference_keeps 4 1 refl f k,
          rw (bf.difference_lem f 4) (table_lt (λ x. bit_xor (bit_or x 4) 4) 32 32 refl f k),
        ),
      )

module _ ⦃le : LittleEndian⦄ ⦃bf : Bitflags⦄ where
  -- Whatever vendor id a header with flags below 32 and without the VENDOR flag is given: the VENDOR flag
  -- stays unset, and what is encoded is the same header with the RELIABLE flag set, and no vendor id.
  pub encode-set_vendor :
      (h : ProtoHdr) (id : ℕ) (w : WriteBuf)
      → h.exch_flags < 32
      → is_vendor h ≡ false
      → (is_vendor (set_vendor id h) ≡ false)
        × (encode (set_vendor id h) w ≡ encode (set_reliable h) w)
  unfolding every_below encode set_vendor set_reliable is_vendor encode_vendor encode_ack is_ack
  encode-set_vendor h id w k v =
      let kept = union_keeps 4 16 refl h.exch_flags k ∙ v in (kept, rw kept refl)
