-- ===== src/ParseBuf/Laws.antt =====
-- matter/src/utils/parsebuf.rs as a byte string that is taken from at both ends.
use matter_rs.Base.{
  ℕ, ◌+◌, ◌-◌, ◌^◌, ◌≤◌, ◌<◌, ◌≡◌, refl, sym, ap, ◌∙◌, arith, List, [], ◌∷◌, ◌++◌, length, segment,
  take, drop, Result, ok, err, truncated_packet, leb, le→leb, length-append, drop-drop, drop-take,
  length-take, length-drop, take-append-drop, take-add, get_elem?-drop, append_assoc, drop-append,
  get_elem?, true, some,
}
use matter_rs.Base.Exec.{Exec}
use matter_rs.Base.Bytes.{LittleEndian}
use matter_rs.ParseBuf.{
  ParseBuf, tail, advance, parse_head_with, read_at, index, le_u8, le_u16, le_u32, le_u64,
}

pub record IsValid (p : ParseBuf) : Type 0 where
  pub within : p.read_off + p.left ≤ length p.buf

-- The bytes that are still to be parsed.
abbrev pub contents : ParseBuf → List ℕ
contents p = take p.left (drop p.read_off p.buf)

-- The cursor `n` bytes further on.
abbrev pub skip : ℕ → ParseBuf → ParseBuf
skip n p = record p { read_off = p.read_off + n; left = p.left - n }

pub length-contents : (p : ParseBuf) → IsValid p → length (contents p) ≡ p.left
length-contents p v =
    length-take p.left (drop p.read_off p.buf)
      (omega (arith, length-drop p.read_off p.buf, v.within))

pub skip-IsValid : (n : ℕ) (p : ParseBuf) → n ≤ p.left → IsValid p → IsValid (skip n p)
skip-IsValid n p h v = omega (arith, v.within)

pub contents-skip : (n : ℕ) (p : ParseBuf) → contents (skip n p) ≡ drop n (contents p)
contents-skip n p = rw (drop-take n p.left (drop p.read_off p.buf), drop-drop p.read_off n p.buf)

-- `m` takes exactly the bytes `bs` from the front and answers `a`, whatever follows them.
pub record Reads {ℓ} {A : Type ℓ} (m : Exec ParseBuf A) (bs : List ℕ) (a : A) : Type ℓ where
  pub reads :
      (p : ParseBuf) (rest : List ℕ)
      → IsValid p
      → contents p ≡ bs ++ rest
      → m p ≡ (ok a, skip (length bs) p)

pub contents-skip-append :
    (p : ParseBuf) (bs rest : List ℕ)
    → contents p ≡ bs ++ rest
    → contents (skip (length bs) p) ≡ rest
contents-skip-append p bs rest e =
    contents-skip (length bs) p ∙ ap (drop (length bs)) e ∙ drop-append bs rest (length bs) refl

pub enough :
    (p : ParseBuf) (bs rest : List ℕ) → IsValid p → contents p ≡ bs ++ rest → length bs ≤ p.left
enough p bs rest v e = omega (arith, length-contents p v, ap length e, length-append bs rest)

-- The buffer from the cursor on begins with what is to be parsed.
pub ahead :
    (p : ParseBuf) (bs rest : List ℕ)
    → contents p ≡ bs ++ rest
    → drop p.read_off p.buf ≡ bs ++ (rest ++ drop p.left (drop p.read_off p.buf))
ahead p bs rest e =
    sym (take-append-drop p.left (drop p.read_off p.buf))
    ∙ ap (λ x. x ++ drop p.left (drop p.read_off p.buf)) e
    ∙ append_assoc bs rest _

parse_head_with_lem :
    (n : ℕ) (f : ParseBuf → Result ℕ) (p : ParseBuf) (v : ℕ)
    → n ≤ p.left
    → f p ≡ ok v
    → parse_head_with n f p ≡ (ok v, skip n p)
unfolding parse_head_with advance
parse_head_with_lem n f p v h e = rw (le→leb _ _ h, e, le→leb _ _ h) refl

pub skip-skip :
    (xs ys : List ℕ) (p : ParseBuf)
    → skip (length ys) (skip (length xs) p) ≡ skip (length (xs ++ ys)) p
skip-skip xs ys p =
    let c : p.read_off + length xs + length ys ≡ p.read_off + length (xs ++ ys) =
      omega (arith, length-append xs ys) in
    let d : p.left - length xs - length ys ≡ p.left - length (xs ++ ys) =
      omega (arith, length-append xs ys) in
    λ i. record { buf = p.buf; read_off = c i; left = d i }

pub skip_none : (p : ParseBuf) → p ≡ skip 0 p
skip_none p =
    let c : p.read_off ≡ p.read_off + 0 = omega arith in
    let d : p.left ≡ p.left - 0 = omega arith in
    λ i. record { buf = p.buf; read_off = c i; left = d i }

module _ ⦃le : LittleEndian⦄ where
  read_at_lem :
      (n v : ℕ) (p : ParseBuf) (rest : List ℕ)
      → v < 256 ^ n
      → IsValid p
      → contents p ≡ le.write n v ++ rest
      → read_at n p.buf p.read_off ≡ ok v
  read_at_lem n v p rest h val e =
      let a : leb (p.read_off + n) (length p.buf) ≡ true =
        le→leb _ _
          (omega (arith, enough p (le.write n v) rest val e, le.length-write n v, val.within)) in
      rw a (ap ok (ap (le.read n) (ahead p (le.write n v) rest e) ∙ le.read-write n v _ h))

  parse_uint-Reads :
      (n v : ℕ)
      → v < 256 ^ n
      → Reads (parse_head_with n (λ x. read_at n x.buf x.read_off)) (le.write n v) v
  parse_uint-Reads n v h = record {
    reads = λ p rest val e.
        let k = enough p (le.write n v) rest val e in
        parse_head_with_lem n _ p v (omega (arith, le.length-write n v, k))
          (read_at_lem n v p rest h val e)
        ∙ ap (λ j. (ok v, skip j p)) (sym (le.length-write n v));
  }

  pub le_u8-Reads : (v : ℕ) → Reads le_u8 (v ∷ []) v
  unfolding le_u8
  le_u8-Reads v = record {
    reads = λ p rest val e.
        let g : get_elem? p.buf p.read_off ≡ some v =
          get_elem?-drop p.read_off p.buf ∙ ap (λ x. get_elem? x 0) (ahead p (v ∷ []) rest e) in
        parse_head_with_lem 1 (λ x. index x.buf x.read_off) p v (enough p (v ∷ []) rest val e)
          (rw (g, index) refl);
  }

  pub le_u16-Reads : (v : ℕ) → v < 256 ^ 2 → Reads le_u16 (le.write 2 v) v
  unfolding le_u16
  le_u16-Reads v h = parse_uint-Reads 2 v h

  pub le_u32-Reads : (v : ℕ) → v < 256 ^ 4 → Reads le_u32 (le.write 4 v) v
  unfolding le_u32
  le_u32-Reads v h = parse_uint-Reads 4 v h

  pub le_u64-Reads : (v : ℕ) → v < 256 ^ 8 → Reads le_u64 (le.write 8 v) v
  unfolding le_u64
  le_u64-Reads v h = parse_uint-Reads 8 v h

-- The last `size` bytes.
abbrev pub last_bytes : ℕ → ParseBuf → List ℕ
last_bytes size p = segment p.buf (p.read_off + p.left - size) (p.read_off + p.left)

contents-split :
    (size : ℕ) (p : ParseBuf)
    → size ≤ p.left
    → contents p ≡ contents (record p { left = p.left - size }) ++ last_bytes size p
contents-split size p h =
    let a : p.left ≡ p.left - size + size = omega arith in
    let b : p.read_off + p.left - (p.read_off + p.left - size) ≡ size = omega arith in
    let c : p.read_off + (p.left - size) ≡ p.read_off + p.left - size = omega arith in
    ap (λ k. take k (drop p.read_off p.buf)) a
    ∙ take-add (p.left - size) size (drop p.read_off p.buf)
    ∙ ap (λ x. contents (record p { left = p.left - size }) ++ take size x)
        (drop-drop p.read_off (p.left - size) p.buf ∙ ap (λ k. drop k p.buf) c)
    ∙ ap
        (λ k.
          contents (record p { left = p.left - size })
          ++ take k (drop (p.read_off + p.left - size) p.buf))
        (sym b)

-- On a valid cursor `tail` splits the last bytes off where there are as many, and refuses where
-- there are not.
pub tail_lem :
    (size : ℕ) (p : ParseBuf)
    → IsValid p
    → (size ≤ p.left
        → (t : List ℕ) × (tail size p ≡ (ok t, record p { left = p.left - size }))
          × (contents p ≡ contents (record p { left = p.left - size }) ++ t)
          × (length t ≡ size)
          × IsValid (record p { left = p.left - size }))
      × (p.left < size → tail size p ≡ (err truncated_packet, p))
unfolding tail
tail_lem size p v = (split, λ h. ground arith)
  where
    split :
        size ≤ p.left
        → (t : List ℕ) × (tail size p ≡ (ok t, record p { left = p.left - size }))
          × (contents p ≡ contents (record p { left = p.left - size }) ++ t)
          × (length t ≡ size)
          × IsValid (record p { left = p.left - size })
    split h =
        let shorter : IsValid (record p { left = p.left - size }) = omega (arith, v.within) in
        let parts = contents-split size p h in
        let a = le→leb size p.left h in
        let b = le→leb (p.read_off + p.left - size) (p.read_off + p.left) (omega arith) in
        let c = le→leb (p.read_off + p.left) (length p.buf) v.within in
        (
          last_bytes size p,
          rw (a, b, c) refl,
          parts,
          omega (
            arith,
            ap length parts,
            length-contents p v,
            length-contents (record p { left = p.left - size }) shorter,
            length-append (contents (record p { left = p.left - size })) (last_bytes size p),
          ),
          shorter,
        )
