-- ===== src/Transport/Packet/Pool.antt =====
-- matter/src/transport/packet.rs: `BufferPool`. The pool is a static behind a lock; here it is the
-- state. A slot is filled while its buffer is in use.
use matter_rs.Base.{
  ℕ, ◌≡◌, refl, ap, ◌≢◌, true, List, set, replicate, get_elem?, Option, some, none, is_none, ok,
  panic, get_elem?-set_self, get_elem?-set_ne, set-set_self, lt_of_get_elem?, ◌⊎◌, inl, inr,
  Option-cases,
}
use matter_rs.Base.Exec.{Exec}
use matter_rs.Base.Search.{position, position_found, position_missing}

abbrev pub max_rx_buf_size : ℕ
max_rx_buf_size = 1583

abbrev pub BufferPool : Type 0
BufferPool = List (Option (List ℕ))

unfoldable pub new_buffer : List ℕ
new_buffer = replicate max_rx_buf_size 0

-- The first free slot is filled; `none` where there is none.
unfoldable pub alloc : BufferPool → Option (ℕ × List ℕ) × BufferPool
alloc pool = elim (position is_none pool) [
  | none ↦ (none, pool)
  | some i ↦ (some (i, new_buffer), set pool i (some new_buffer))
]

-- `pool.buffers[index]` panics on an index out of range.
unfoldable pub free : ℕ → Exec BufferPool (Unit {0})
free index pool = elim (get_elem? pool index) [
  | none ↦ (panic, pool)
  | some none ↦ (ok tt, pool)
  | some (some buffer) ↦ (ok tt, set pool index none)
]

abbrev pub InUse : BufferPool → ℕ → Type 0
InUse pool i = (b : List ℕ) × (get_elem? pool i ≡ some (some b))

is_none-eq_none {ℓ} : {A : Type ℓ} (o : Option A) → is_none o ≡ true → o ≡ none
is_none-eq_none none h = refl
is_none-eq_none (some a) h = cc

alloc-some :
    (pool : BufferPool) (i : ℕ)
    → position is_none pool ≡ some i
    → (alloc pool ≡ (some (i, new_buffer), set pool i (some new_buffer)))
      × (get_elem? pool i ≡ some none)
unfolding alloc
alloc-some pool i e =
    let (o, at, free_slot) = position_found is_none pool i e in
    (rw (e, alloc) refl, rw (is_none-eq_none o free_slot) at at)

-- `alloc` either hands out a slot that was free, fills it and leaves the others; or no slot is free
-- and the pool stays.
pub alloc_lem :
    (pool : BufferPool)
    → ((i : ℕ) × (b : List ℕ) × (pool' : BufferPool) × (alloc pool ≡ (some (i, b), pool'))
        × (get_elem? pool i ≡ some none)
        × (get_elem? pool' i ≡ some (some b))
        × ((j : ℕ) → i ≢ j → get_elem? pool' j ≡ get_elem? pool j))
      ⊎ ((alloc pool ≡ (none, pool)) × ((j : ℕ) → get_elem? pool j ≢ some none))
unfolding alloc
alloc_lem pool = elim (Option-cases (position is_none pool)) [
  | inl e ↦ inr (rw (e, alloc) refl, λ j h. cc (position_missing is_none pool j none e h))
  | inr (i, e) ↦
      let (done, vacant) = alloc-some pool i e in
      inl (
        i,
        new_buffer,
        set pool i (some new_buffer),
        done,
        vacant,
        get_elem?-set_self pool i (some new_buffer) (lt_of_get_elem? pool i none vacant),
        λ j ne. get_elem?-set_ne pool i j (some new_buffer) ne,
      )
]

alloc-none : (pool : BufferPool) → position is_none pool ≡ none → alloc pool ≡ (none, pool)
unfolding alloc
alloc-none pool e = rw (e, alloc) refl

free_filled :
    (pool : BufferPool) (i : ℕ) (b : List ℕ)
    → get_elem? pool i ≡ some none
    → free i (set pool i (some b)) ≡ (ok tt, pool)
unfolding free
free_filled pool i b vacant =
    rw (get_elem?-set_self pool i (some b) (lt_of_get_elem? pool i none vacant), free)
      (ap (λ x. (ok tt, x)) (set-set_self pool i (some b) none vacant))

-- Dropping the packet that holds a buffer gives the slot back: the pool is as it was.
pub free-alloc :
    (pool pool' : BufferPool) (i : ℕ) (b : List ℕ)
    → alloc pool ≡ (some (i, b), pool')
    → free i pool' ≡ (ok tt, pool)
free-alloc pool pool' i b h = elim (Option-cases (position is_none pool)) [
  | inl e ↦ cc (alloc-none pool e)
  | inr (k, e) ↦ cc ((alloc-some pool k e).0, free_filled pool k new_buffer (alloc-some pool k e).1)
]
