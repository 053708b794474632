-- ===== src/WriteBuf.antt =====
-- matter/src/utils/writebuf.rs: a byte buffer that grows at both ends. A slice that the source
-- takes out of range is a panic. `usize` values are plain numbers: none wraps below 2 ^ 64.
pub mod Laws
use matter_rs.Base.{
  ℕ, ◌+◌, ◌-◌, ◌^◌, List, ◌∷◌, [], Bool, true, false, not, ◌&&◌, ◌||◌, ltb, leb, ◌==◌,
  if◌then◌else◌, length, take, splice, segment, Result, ok, err, panic, invalid, no_space,
}
use matter_rs.Base.Exec.{Exec, pure, fail, lift, modify, ◌>>=◌, ◌>>◌}
use matter_rs.Base.Bytes.{LittleEndian}
use matter_rs.Base.Int.{ℤ, to_word}

pub record WriteBuf : Type 0 where
  pub buf : List ℕ
  pub start : ℕ
  pub end : ℕ

-- `&buf[..len]`.
unfoldable pub new : List ℕ → ℕ → Result WriteBuf
new buf len =
    if leb len (length buf) then ok (record { buf = take len buf; start = 0; end = 0 }) else panic

unfoldable pub get_tail : WriteBuf → ℕ
get_tail w = w.end

unfoldable pub rewind_tail_to : ℕ → Exec WriteBuf (Unit {0})
rewind_tail_to new_end = modify (λ w. record w { end = new_end })

unfoldable pub forward_tail_by : ℕ → Exec WriteBuf (Unit {0})
forward_tail_by new_offset = modify (λ w. record w { end = w.end + new_offset })

-- `&buf[i..j]`.
abbrev pub slice : List ℕ → ℕ → ℕ → Result (List ℕ)
slice buf i j = if leb i j && leb j (length buf) then ok (segment buf i j) else panic

unfoldable pub as_slice : WriteBuf → Result (List ℕ)
as_slice w = slice w.buf w.start w.end

-- `&mut buf[end..]`.
unfoldable pub empty_as_mut_slice : WriteBuf → Result (List ℕ)
empty_as_mut_slice w = slice w.buf w.end (length w.buf)

unfoldable pub reset : ℕ → Exec WriteBuf (Unit {0})
reset reserved = modify (λ w. record w { start = reserved; end = reserved })

unfoldable pub reserve : ℕ → Exec WriteBuf (Unit {0})
unfolding reset
reserve reserved w =
    if not (w.end == 0) || not (w.start == 0) then (err invalid, w) else reset reserved w

-- `x.buf[at..at + src.len()].copy_from_slice(src)`.
unfoldable pub store : ℕ → List ℕ → Exec WriteBuf (Unit {0})
store at src w =
    if leb (at + length src) (length w.buf)
    then (ok tt, record w { buf = splice w.buf at src })
    else (panic, w)

unfoldable pub prepend_with :
    ℕ → (WriteBuf → Result (Unit {0}) × WriteBuf) → Exec WriteBuf (Unit {0})
unfolding ◌>>=◌
prepend_with size f w =
    if leb size w.start
    then (f >> modify (λ x. record x { start = x.start - size })) w
    else (err no_space, w)

unfoldable pub prepend : List ℕ → Exec WriteBuf (Unit {0})
unfolding prepend_with store
prepend src = prepend_with (length src) (λ x. store (x.start - length src) src x)

unfoldable pub append_with :
    ℕ → (WriteBuf → Result (Unit {0}) × WriteBuf) → Exec WriteBuf (Unit {0})
unfolding ◌>>=◌
append_with size f w =
    if leb (w.end + size) (length w.buf)
    then (f >> modify (λ x. record x { end = x.end + size })) w
    else (err no_space, w)

unfoldable pub copy_from_slice : List ℕ → Exec WriteBuf (Unit {0})
unfolding append_with store
copy_from_slice src = append_with (length src) (λ x. store x.end src x)

unfoldable pub append : List ℕ → Exec WriteBuf (Unit {0})
unfolding copy_from_slice
append src = copy_from_slice src

module _ ⦃le : LittleEndian⦄ where
  unfoldable pub le_u8 : ℕ → Exec WriteBuf (Unit {0})
  unfolding append_with store
  le_u8 data_ = append_with 1 (λ x. store x.end (data_ ∷ []) x)

  -- `data as u8`.
  unfoldable pub le_i8 : ℤ → Exec WriteBuf (Unit {0})
  unfolding le_u8
  le_i8 data_ = le_u8 (to_word 128 data_)

  unfoldable pub le_u16 : ℕ → Exec WriteBuf (Unit {0})
  unfolding append_with store
  le_u16 data_ = append_with 2 (λ x. store x.end (le.write 2 data_) x)

  unfoldable pub le_u32 : ℕ → Exec WriteBuf (Unit {0})
  unfolding append_with store
  le_u32 data_ = append_with 4 (λ x. store x.end (le.write 4 data_) x)

  unfoldable pub le_u64 : ℕ → Exec WriteBuf (Unit {0})
  unfolding append_with store
  le_u64 data_ = append_with 8 (λ x. store x.end (le.write 8 data_) x)

  -- `write_uint` panics on a value that does not fit, and on more than 8 bytes.
  unfoldable pub le_uint : ℕ → ℕ → Exec WriteBuf (Unit {0})
  unfolding append_with store
  le_uint nbytes data_ = append_with nbytes λ x.
      if ltb data_ (256 ^ nbytes) && leb nbytes 8
      then store x.end (le.write nbytes data_) x
      else (panic, x)
