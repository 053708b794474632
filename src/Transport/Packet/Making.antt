-- ===== src/Transport/Packet/Making.antt =====
-- matter/src/transport/packet.rs: `new_rx` and `new_tx` take a buffer from the pool, which goes back to
-- it when the packet is dropped.
use matter_rs.Base.{
  ℕ, ◌≡◌, ◌⊎◌, inl, inr, refl, ◌∙◌, arith, le→leb, take, List, length, some, ok, err, no_space,
}
use matter_rs.Base.Exec.{Exec, bind-ok, bind_fails, ◌>>=◌}
use matter_rs.Base.Flags.{Bitflags}
use matter_rs.ParseBuf.{ParseBuf}
use matter_rs.ParseBuf
use matter_rs.WriteBuf
use matter_rs.Transport.ProtoHdr
use matter_rs.Transport.Packet.{
  Packet, fresh, alloc_buffer, rx, tx, uninit, new_rx, new_tx, reserved, hdr_reserve,
}
use matter_rs.Transport.Packet.Pool.{BufferPool, alloc, alloc_lem, free, free-alloc}

-- Making a packet takes a buffer that dropping the packet gives back, or fails for want of one.
abbrev pub Borrows : Exec BufferPool Packet → BufferPool → Type 0
Borrows make pool =
    (make pool ≡ (err no_space, pool))
    ⊎ ((p : Packet) × (pool' : BufferPool) × (make pool ≡ (ok p, pool'))
        × (free p.buffer_index pool' ≡ (ok tt, pool)))

alloc_buffer_lem :
    (pool pool' : BufferPool) (i : ℕ) (b : List ℕ)
    → alloc pool ≡ (some (i, b), pool')
    → alloc_buffer pool ≡ (ok (i, b), pool')
alloc_buffer_lem pool pool' i b e = rw (e, alloc_buffer) (rw e refl)

abbrev empty_rx : ℕ → List ℕ → Packet
empty_rx i b =
    fresh i (rx (record { buf = take (length b) b; read_off = 0; left = length b }) uninit)

pub new_rx-Borrows : (pool : BufferPool) → Borrows new_rx pool
unfolding new_rx ◌>>=◌ ParseBuf.new
new_rx-Borrows pool = elim (alloc_lem pool) [
  | inr (e, _) ↦
      inl (bind_fails alloc_buffer _ pool pool no_space (rw (e, alloc_buffer) (rw e refl)))
  | inl (i, b, pool', e, _, _, _) ↦ inr (
    empty_rx i b,
    pool',
    bind-ok alloc_buffer _ pool (alloc_buffer_lem pool pool' i b e)
        ∙ rw (le→leb (length b) (length b) (omega arith)) refl,
    free-alloc pool pool' i b e,
  )
]

module _ ⦃bf : Bitflags⦄ where
  abbrev empty_tx : ℕ → List ℕ → Packet
  empty_tx i b =
      let p =
        fresh i (tx (record { buf = take (length b) b; start = hdr_reserve; end = hdr_reserve })) in
      record p { proto = ProtoHdr.set_reliable p.proto }

  pub new_tx-Borrows : (pool : BufferPool) → Borrows new_tx pool
  unfolding new_tx ◌>>=◌ WriteBuf.new reserved WriteBuf.reserve WriteBuf.reset
  new_tx-Borrows pool = elim (alloc_lem pool) [
    | inr (e, _) ↦
        inl (bind_fails alloc_buffer _ pool pool no_space (rw (e, alloc_buffer) (rw e refl)))
    | inl (i, b, pool', e, _, _, _) ↦ inr (
      empty_tx i b,
      pool',
      bind-ok alloc_buffer _ pool (alloc_buffer_lem pool pool' i b e)
          ∙ rw (le→leb (length b) (length b) (omega arith)) refl,
      free-alloc pool pool' i b e,
    )
  ]
