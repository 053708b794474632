-- ===== src/ParseBuf.antt =====
-- matter/src/utils/parsebuf.rs: a cursor over a received packet.
pub mod Laws
pub mod Decoding
use matter_rs.Base.{
  ℕ, ◌+◌, ◌-◌, List, leb, ltb, ◌&&◌, if◌then◌else◌, length, take, drop, segment, Result, ok, err,
  panic, truncated_packet, Option, some, none, get_elem?,
}
use matter_rs.Base.Exec.{Exec, modify, ◌>>=◌, ◌>>◌, pure}
use matter_rs.Base.Bytes.{LittleEndian}
use matter_rs.WriteBuf.{slice}

pub record ParseBuf : Type 0 where
  pub buf : List ℕ
  pub read_off : ℕ
  pub left : ℕ

unfoldable pub new : List ℕ → ℕ → Result ParseBuf
new buf len =
    if leb len (length buf)
    then ok (record { buf = take len buf; read_off = 0; left = len })
    else panic

unfoldable pub set_len : ℕ → Exec ParseBuf (Unit {0})
set_len left = modify (λ p. record p { left = left })

-- `as_slice` and `as_borrow_slice`: the bytes that are still to be parsed.
unfoldable pub as_slice : ParseBuf → Result (List ℕ)
as_slice p = slice p.buf p.read_off (p.read_off + p.left)

unfoldable pub parsed_as_slice : ParseBuf → Result (List ℕ)
parsed_as_slice p = slice p.buf 0 p.read_off

-- The slice is taken before `left` shrinks.
unfoldable pub tail : ℕ → Exec ParseBuf (List ℕ)
tail size p =
    if leb size p.left
    then (
      slice p.buf (p.read_off + p.left - size) (p.read_off + p.left),
      record p { left = p.left - size },
    )
    else (err truncated_packet, p)

-- `self.left -= len` panics below 0.
unfoldable pub advance : ℕ → Exec ParseBuf (Unit {0})
advance len p =
    if leb len p.left
    then (ok tt, record p { read_off = p.read_off + len; left = p.left - len })
    else (panic, p)

unfoldable pub parse_head_with : ℕ → (ParseBuf → Result ℕ) → Exec ParseBuf ℕ
unfolding advance ◌>>=◌
parse_head_with size f p =
    if leb size p.left
    then ((λ x. (f x, x)) >>= λ value. advance size >> pure value) p
    else (err truncated_packet, p)

-- `x.buf[i]`.
abbrev pub index : List ℕ → ℕ → Result ℕ
index buf i = elim (get_elem? buf i) [ none ↦ panic | some b ↦ ok b ]

module _ ⦃le : LittleEndian⦄ where
  -- `read_uint(&buf[at..], n)`.
  abbrev pub read_at : ℕ → List ℕ → ℕ → Result ℕ
  read_at n buf at = if leb (at + n) (length buf) then ok (le.read n (drop at buf)) else panic

  unfoldable pub le_u8 : Exec ParseBuf ℕ
  unfolding parse_head_with
  le_u8 = parse_head_with 1 (λ x. index x.buf x.read_off)

  unfoldable pub le_u16 : Exec ParseBuf ℕ
  unfolding parse_head_with
  le_u16 = parse_head_with 2 (λ x. read_at 2 x.buf x.read_off)

  unfoldable pub le_u32 : Exec ParseBuf ℕ
  unfolding parse_head_with
  le_u32 = parse_head_with 4 (λ x. read_at 4 x.buf x.read_off)

  unfoldable pub le_u64 : Exec ParseBuf ℕ
  unfolding parse_head_with
  le_u64 = parse_head_with 8 (λ x. read_at 8 x.buf x.read_off)
