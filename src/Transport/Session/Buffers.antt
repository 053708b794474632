-- ===== src/Transport/Session/Buffers.antt =====
-- matter/src/transport/session.rs: `SessionMgr::recv` loses no buffer of the pool.
use matter_rs.Base.{
  ℕ, ◌≡◌, inl, inr, refl, ap, ◌∙◌, Bool, Option, some, none, Result, ok, err, panic,
}
use matter_rs.Base.Exec.{bind_keeps}
use matter_rs.Base.Bytes.{LittleEndian}
use matter_rs.Base.Flags.{Bitflags}
use matter_rs.Transport.Packet.{
  Packet, Direction, rx, tx, uninit, plain_decoded, proto_decoded, plain_hdr_decode,
}
use matter_rs.Transport.Packet.Making.{new_rx-Borrows}
use matter_rs.Transport.Packet.Pool.{BufferPool, free}
use matter_rs.Transport.Session.Manager.{
  SessionMgr, Received, fill, accept, concluded, arrived, arrival, recv,
}

-- The packet has this buffer.
abbrev Holds : ℕ → SessionMgr × Packet → Type 0
Holds index (m, p) = p.buffer_index ≡ index

fill_keeps : (r : Received) (p : Packet) → (fill r p).1.buffer_index ≡ p.buffer_index
unfolding fill
fill_keeps r p = by_direction p.direction refl
  where
    by_direction : (d : Direction) → p.direction ≡ d → (fill r p).1.buffer_index ≡ p.buffer_index
    by_direction (tx wb) e = simp (e, fill)
    by_direction (rx pb s) e = simp (e, fill)

-- What a receiver makes of the pool: a packet that it answers has the buffer that was taken, and
-- without one the pool is as before.
abbrev pub IsSettled {ℓ} :
    {A : Type ℓ} → (A → Option Packet) → BufferPool → Result A → BufferPool → Type 0
IsSettled packet pool (ok a) pool' = elim (packet a) [
  | some p ↦ free p.buffer_index pool' ≡ (ok tt, pool)
  | none ↦ pool' ≡ pool
]
IsSettled packet pool (err e) pool' = pool' ≡ pool
IsSettled packet pool panic pool' = Unit {0}

module _ ⦃le : LittleEndian⦄ ⦃bf : Bitflags⦄ where
  decode_keeps : (p : Packet) → (plain_hdr_decode p).1.buffer_index ≡ p.buffer_index
  unfolding plain_hdr_decode
  decode_keeps p = by_direction p.direction refl
    where
      by_direction :
          (d : Direction) → p.direction ≡ d → (plain_hdr_decode p).1.buffer_index ≡ p.buffer_index
      by_direction (tx wb) e = simp (e, plain_hdr_decode)
      by_direction (rx pb uninit) e = simp (e, plain_hdr_decode)
      by_direction (rx pb plain_decoded) e = simp (e, plain_hdr_decode)
      by_direction (rx pb proto_decoded) e = simp (e, plain_hdr_decode)

  accept_keeps :
      (now ctr index : ℕ) (r : Received) (s : SessionMgr × Packet)
      → Holds index s
      → Holds index (accept now ctr r s).1
  unfolding accept
  accept_keeps now ctr index r =
      bind_keeps (Holds index) _ _ (λ s h. fill_keeps r s.1 ∙ h)
        (λ _. bind_keeps (Holds index) _ _ (λ s h. decode_keeps s.1 ∙ h) (λ _ s h. h))

  concluded-IsSettled :
      (p : Packet) (pool pool' : BufferPool) (res : Result (Option ℕ)) (s : SessionMgr × Packet)
      → free p.buffer_index pool' ≡ (ok tt, pool)
      → Holds p.buffer_index s
      → IsSettled (λ x. some x.0) pool (concluded p pool' res s).0 (concluded p pool' res s).1.1
  concluded-IsSettled p pool pool' (ok slot) (m, p') given h = ap (λ i. free i pool') h ∙ given
  concluded-IsSettled p pool pool' (err e) (m, p') given h = ap (λ x. x.1) given
  concluded-IsSettled p pool pool' panic (m, p') given h = tt

  arrived-IsSettled :
      (now ctr : ℕ) (p : Packet) (m : SessionMgr) (pool pool' : BufferPool)
      (incoming : Result Received)
      → free p.buffer_index pool' ≡ (ok tt, pool)
      → IsSettled
          (λ x. some x.0)
          pool
          (arrived now ctr p (m, pool') incoming).0
          (arrived now ctr p (m, pool') incoming).1.1
  arrived-IsSettled now ctr p m pool pool' (ok r) given =
      concluded-IsSettled p pool pool' (accept now ctr r (m, p)).0 (accept now ctr r (m, p)).1 given
        (accept_keeps now ctr p.buffer_index r (m, p) refl)
  arrived-IsSettled now ctr p m pool pool' (err e) given = ap (λ x. x.1) given
  arrived-IsSettled now ctr p m pool pool' panic given = tt

  -- Whatever the network answers and the headers hold, a reception takes one buffer from the pool for
  -- the packet that it answers; where it answers with an error the pool is as it was.
  pub recv-IsSettled :
      (now ctr : ℕ) (granted : Bool) (incoming : Result Received) (m : SessionMgr)
      (pool : BufferPool)
      → IsSettled
          (λ x. some x.0)
          pool
          (recv now ctr granted incoming (m, pool)).0
          (recv now ctr granted incoming (m, pool)).1.1
  unfolding recv
  recv-IsSettled now ctr granted incoming m pool = elim (new_rx-Borrows pool) [
    | inl e ↦ rw (e, recv) refl
    | inr (p, pool', e, given) ↦
        rw (e, recv)
          (arrived-IsSettled now ctr p m pool pool' (arrival granted m.network incoming) given)
  ]
