-- ===== src/Cert/Asn1Writer.antt =====
-- matter/src/cert/asn1_writer.rs: the writer of distinguished encodings. A structure's start reserves
-- three bytes for the length, and its end moves the contents back to where the length ends.
pub mod Moving
pub mod Laws
pub mod Tree
pub mod BitString
use matter_rs.Base.{
  ℕ, zero, suc, ◌+◌, ◌-◌, ◌*◌, ◌/◌, ◌%◌, ◌^◌, bit_or, Bool, true, false, ◌==◌, ltb, leb,
  if◌then◌else◌, List, [], ◌∷◌, length, splice, segment, take, set, get_elem?, replicate, Option,
  some, none, Result, ok, err, panic, no_space, invalid,
}
use matter_rs.Base.Exec.{Exec, ◌>>=◌, ◌>>◌}

abbrev pub max_depth : ℕ
max_depth = 10

abbrev pub reserve_len_bytes : ℕ
reserve_len_bytes = 3

pub record Asn1Writer : Type 0 where
  pub buf : List ℕ
  pub offset : ℕ
  pub depth : List ℕ
  pub current_depth : ℕ

unfoldable pub new : List ℕ → Asn1Writer
new buf = record { buf = buf; offset = 0; depth = replicate max_depth 0; current_depth = 0 }

-- `self.buf[at..at + bytes.len()]` is written; out of bounds it is a panic.
unfoldable pub store : ℕ → List ℕ → Exec Asn1Writer (Unit {0})
store at bytes a =
    if leb (at + length bytes) (length a.buf)
    then (ok tt, record a { buf = splice a.buf at bytes })
    else (panic, a)

abbrev advance : ℕ → Exec Asn1Writer (Unit {0})
advance size a = (ok tt, record a { offset = a.offset + size })

unfoldable pub append_with : ℕ → Exec Asn1Writer (Unit {0}) → Exec Asn1Writer (Unit {0})
append_with size f a =
    if leb (a.offset + size) (length a.buf) then (f >> advance size) a else (err no_space, a)

unfoldable pub bytes_to_encode_len : ℕ → Result ℕ
bytes_to_encode_len len =
    if ltb len 128
    then ok 1
    else if ltb len 256
    then ok 2
    else if ltb len 65536
    then ok 3
    else err no_space

-- The loop of `encode_len`: `(len >> (octet_number * 8)) & 0xff`, the highest octet first.
abbrev pub octets : ℕ → ℕ → List ℕ
octets zero len = []
octets (suc octet_number) len = len / 2 ^ (octet_number * 8) % 256 ∷ octets octet_number len

abbrev pub length_octets : ℕ → ℕ → List ℕ
length_octets bytes_of_len len =
    if ltb 1 bytes_of_len
    then bit_or 0x80 (bytes_of_len - 1) ∷ octets (bytes_of_len - 1) len
    else octets bytes_of_len len

-- The answer is the offset behind the length.
unfoldable pub encode_len : ℕ → ℕ → Exec Asn1Writer ℕ
encode_len at_offset len = do
  bytes_of_len ← λ a. (bytes_to_encode_len len, a)
  store at_offset (length_octets bytes_of_len len)
  λ a. (ok (at_offset + length (length_octets bytes_of_len len)), a)

-- The length at the offset, which moves behind it.
unfoldable pub write_len : ℕ → Exec Asn1Writer (Unit {0})
write_len len a = elim (encode_len a.offset len a).0 [
  | ok at ↦ (let b = (encode_len a.offset len a).1 in (ok tt, record b { offset = at }))
  | err e ↦ (err e, (encode_len a.offset len a).1)
  | panic ↦ (panic, (encode_len a.offset len a).1)
]

unfoldable pub append_tlv : ℕ → ℕ → Exec Asn1Writer (Unit {0}) → Exec Asn1Writer (Unit {0})
append_tlv tag len f = do
  bytes_of_len ← λ a. (bytes_to_encode_len len, a)
  λ a.
      if leb (a.offset + (1 + bytes_of_len + len)) (length a.buf)
      then (do λ a. store a.offset (tag ∷ []) a; advance 1; write_len len; f; advance len) a
      else (err no_space, a)

unfoldable pub add_compound : ℕ → Exec Asn1Writer (Unit {0})
add_compound val = do
  append_with (1 + reserve_len_bytes) (λ a. store a.offset (val ∷ []) a)
  λ a.
      if ltb a.current_depth (length a.depth)
      then (
        if leb max_depth (a.current_depth + 1) then err no_space else ok tt,
        record a {
          depth = set a.depth a.current_depth a.offset;
          current_depth = a.current_depth + 1;
        },
      )
      else (panic, a)

-- The loop that moves `n` bytes back by `shift_len`, to `write_offset`.
unfoldable pub move_back : ℕ → ℕ → ℕ → List ℕ → Result (List ℕ)
move_back zero write_offset shift_len buf = ok buf
move_back (suc n) write_offset shift_len buf = elim (get_elem? buf (write_offset + shift_len)) [
  | none ↦ panic
  | some byte ↦ move_back n (write_offset + 1) shift_len (set buf write_offset byte)
]

unfoldable pub move_to : ℕ → ℕ → ℕ → Exec Asn1Writer (Unit {0})
move_to seq_len write_offset shift_len a =
    if ltb 0 shift_len
    then (elim (move_back seq_len write_offset shift_len a.buf) [
      | ok buf ↦ (ok tt, record a { buf = buf })
      | err e ↦ (err e, a)
      | panic ↦ (panic, a)
    ])
    else (ok tt, a)

-- `x - y` of the type `usize`.
abbrev minus : ℕ → ℕ → Result ℕ
minus x y = if leb y x then ok (x - y) else panic

abbrev top : Asn1Writer → Result ℕ
top a = elim (get_elem? a.depth (a.current_depth - 1)) [ some start ↦ ok start | none ↦ panic ]

unfoldable pub end_compound : Exec Asn1Writer (Unit {0})
end_compound = do
  λ a. (if a.current_depth == 0 then err invalid else ok tt, a)
  start ← λ a. (top a, a)
  seq_len ← λ a. (minus a.offset start, a)
  length_offset ← λ a. (minus start reserve_len_bytes, a)
  write_offset ← encode_len length_offset seq_len
  shift_len ← λ a. (minus start write_offset, a)
  move_to seq_len write_offset shift_len
  λ a. (ok tt, record a { current_depth = a.current_depth - 1; offset = a.offset - shift_len })

unfoldable pub write_str : ℕ → List ℕ → Exec Asn1Writer (Unit {0})
write_str vtype s = append_tlv vtype (length s) (λ a. store a.offset s a)

unfoldable pub bool : Bool → Exec Asn1Writer (Unit {0})
bool b = append_tlv 0x01 1 (λ a. store a.offset ((if b then 0xff else 0x00) ∷ []) a)

-- `while s[last_byte] == 0 { last_byte -= 1 }`, which panics below 0.
unfoldable pub last_nonzero : ℕ → List ℕ → Result ℕ
last_nonzero zero s = elim (get_elem? s 0) [
  | none ↦ panic
  | some byte ↦ if byte == 0 then panic else ok 0
]
last_nonzero (suc last_byte) s =
    let earlier = last_nonzero last_byte s in
    elim (get_elem? s (suc last_byte)) [
      | none ↦ panic
      | some byte ↦ if byte == 0 then earlier else ok (suc last_byte)
    ]

-- `u8::trailing_zeros`, of the `bits` lowest bits.
abbrev trailing_zeros : ℕ → ℕ → ℕ
trailing_zeros zero byte = 0
trailing_zeros (suc bits) byte =
    let more = trailing_zeros bits (byte / 2) in if byte % 2 == 0 then suc more else 0

abbrev zeros_of : Option ℕ → ℕ
zeros_of none = 0
zeros_of (some byte) = trailing_zeros 8 byte

unfoldable pub bitstr : Bool → List ℕ → Exec Asn1Writer (Unit {0})
bitstr truncate s = do
  full ← λ a. (minus (length s) 1, a)
  last_byte ← λ a. (if truncate then last_nonzero full s else ok full, a)
  let num_of_zero = if truncate then zeros_of (get_elem? s last_byte) else 0
  let kept = take (last_byte + 1) s
  append_tlv 0x03 (length kept + 1)
      ((λ a. store a.offset (num_of_zero ∷ []) a) >> λ a. store (a.offset + 1) kept a)

unfoldable pub as_slice : Asn1Writer → Result (List ℕ)
as_slice a = if leb a.offset (length a.buf) then ok (segment a.buf 0 a.offset) else panic
