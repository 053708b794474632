-- ===== src/WriteBuf/Laws.antt =====
-- matter/src/utils/writebuf.rs as a byte string that grows at both ends.
use matter_rs.Base.{
  replicate, drop, length-take, length-drop, sym, splice-nil, ℕ, ◌+◌, ◌-◌, ◌^◌, ◌≤◌, ◌<◌, ◌≡◌, refl,
  ap, ◌∙◌, arith, List, [], ◌∷◌, ◌++◌, length, splice, segment, Result, ok, err, no_space, leb,
  le→leb, ltb, length-append, length-splice, splice-append, segment-splice, splice-segment, true,
  ◌&&◌, subst,
}
use native.Mathlib.Decide.{dec_le}
use matter_rs.Base.Exec.{pure, Exec, ◌>>=◌, ◌>>◌}
use matter_rs.Base.Bytes.{LittleEndian}
use matter_rs.Base.Int.{ℤ, to_word}
use matter_rs.WriteBuf.{
  as_slice, WriteBuf, prepend, append_with, copy_from_slice, append, store, le_u8, le_i8, le_u16,
  le_u32, le_u64, le_uint,
}

pub record IsValid (w : WriteBuf) : Type 0 where
  pub ordered : w.start ≤ w.end
  pub within : w.end ≤ length w.buf

-- The bytes that the buffer stands for.
abbrev pub contents : WriteBuf → List ℕ
contents w = segment w.buf w.start w.end

pub length-contents : (w : WriteBuf) → IsValid w → length (contents w) ≡ w.end - w.start
length-contents w v =
    length-take (w.end - w.start) (drop w.start w.buf)
      (omega (arith, length-drop w.start w.buf, v.ordered, v.within))

-- The buffer with `bs` behind its contents.
abbrev pub extend : WriteBuf → List ℕ → WriteBuf
extend w bs = record w { buf = splice w.buf w.end bs; end = w.end + length bs }

abbrev pub Fits : WriteBuf → List ℕ → Type 0
Fits w bs = w.end + length bs ≤ length w.buf

pub contents-extend :
    (w : WriteBuf) (bs : List ℕ) → IsValid w → Fits w bs → contents (extend w bs) ≡ contents w ++ bs
contents-extend w bs v h = segment-splice w.buf w.start w.end bs v.ordered h

pub extend-IsValid : (w : WriteBuf) (bs : List ℕ) → IsValid w → Fits w bs → IsValid (extend w bs)
extend-IsValid w bs v h = omega (arith, length-splice w.buf w.end bs, v.ordered, v.within)

pub extend-extend : (w : WriteBuf) (xs ys : List ℕ) → extend (extend w xs) ys ≡ extend w (xs ++ ys)
extend-extend w xs ys =
    let a = splice-append w.buf w.end xs ys in
    let b : w.end + length xs + length ys ≡ w.end + length (xs ++ ys) =
      omega (arith, length-append xs ys) in
    λ i. record { buf = a i; start = w.start; end = b i }

-- `m` writes exactly `bs` behind the contents where they fit, and refuses without a panic where
-- they do not; what is in front of the tail stays.
pub record Writes (m : Exec WriteBuf (Unit {0})) (bs : List ℕ) : Type 0 where
  pub writes : (w : WriteBuf) → Fits w bs → m w ≡ (ok tt, extend w bs)
  pub refuses :
      (w : WriteBuf)
      → w.end ≤ length w.buf
      → length w.buf < w.end + length bs
      → (m w).0 ≡ err no_space

append_with_lem :
    (f : WriteBuf → Result (Unit {0}) × WriteBuf) (bs : List ℕ)
    → ((w : WriteBuf) → f w ≡ store w.end bs w)
    → Writes (append_with (length bs) f) bs
unfolding append_with store
append_with_lem f bs h = record {
  writes = λ w fits. rw (le→leb _ _ fits, h w, le→leb _ _ fits) refl;
  refuses = λ w in_range small. ground arith;
}

pub copy_from_slice-Writes : (bs : List ℕ) → Writes (copy_from_slice bs) bs
unfolding copy_from_slice
copy_from_slice-Writes bs = append_with_lem _ bs (λ w. refl)

pub append-Writes : (bs : List ℕ) → Writes (append bs) bs
unfolding append
append-Writes bs = append_with_lem _ bs (λ w. refl)

module _ ⦃le : LittleEndian⦄ where
  write-Writes :
      (n v : ℕ) → Writes (append_with n (λ x. store x.end (le.write n v) x)) (le.write n v)
  write-Writes n v =
      subst (λ k. Writes (append_with k (λ x. store x.end (le.write n v) x)) (le.write n v))
        (le.length-write n v) (append_with_lem _ (le.write n v) (λ w. refl))

  pub le_u8-Writes : (v : ℕ) → Writes (le_u8 v) (v ∷ [])
  unfolding le_u8
  le_u8-Writes v = append_with_lem _ (v ∷ []) (λ w. refl)

  pub le_i8-Writes : (z : ℤ) → Writes (le_i8 z) (to_word 128 z ∷ [])
  unfolding le_i8
  le_i8-Writes z = le_u8-Writes (to_word 128 z)

  pub le_u16-Writes : (v : ℕ) → Writes (le_u16 v) (le.write 2 v)
  unfolding le_u16
  le_u16-Writes v = write-Writes 2 v

  pub le_u32-Writes : (v : ℕ) → Writes (le_u32 v) (le.write 4 v)
  unfolding le_u32
  le_u32-Writes v = write-Writes 4 v

  pub le_u64-Writes : (v : ℕ) → Writes (le_u64 v) (le.write 8 v)
  unfolding le_u64
  le_u64-Writes v = write-Writes 8 v

  pub le_uint-Writes : (n v : ℕ) → v < 256 ^ n → n ≤ 8 → Writes (le_uint n v) (le.write n v)
  unfolding le_uint
  le_uint-Writes n v h k =
      let e : (ltb v (256 ^ n) && leb n 8) ≡ true = ground arith in rw e (write-Writes n v)

-- What two writers write, one after the other.
pub >>-Writes :
    {m n : Exec WriteBuf (Unit {0})} {xs ys : List ℕ}
    → Writes m xs
    → Writes n ys
    → Writes (m >> n) (xs ++ ys)
unfolding ◌>>=◌
>>-Writes {m} {n} {xs} {ys} p q = record { writes = both; refuses = short }
  where
    both : (w : WriteBuf) → Fits w (xs ++ ys) → (m >> n) w ≡ (ok tt, extend w (xs ++ ys))
    both w fits = rw (p.writes w (omega (arith, length-append xs ys))) (
        q.writes (extend w xs) (omega (arith, length-append xs ys, length-splice w.buf w.end xs))
        ∙ ap (λ x. (ok tt, x)) (extend-extend w xs ys))

    after :
        (w : WriteBuf)
        → length w.buf < w.end + length (xs ++ ys)
        → Fits w xs
        → ((m >> n) w).0 ≡ err no_space
    after w small fits = rw (p.writes w fits) (
        q.refuses (extend w xs) (omega (arith, length-splice w.buf w.end xs))
          (omega (arith, length-append xs ys, length-splice w.buf w.end xs)))

    short :
        (w : WriteBuf)
        → w.end ≤ length w.buf
        → length w.buf < w.end + length (xs ++ ys)
        → ((m >> n) w).0 ≡ err no_space
    short w in_range small = elim (dec_le (w.end + length xs) (length w.buf)) [
      | yes fits ↦ after w small fits
      | no large ↦ ground (arith, p.refuses w in_range)
    ]

extend_none : (w : WriteBuf) → w ≡ extend w []
extend_none w =
    let e : w.end ≡ w.end + 0 = omega arith in
    λ i. record { buf = sym (splice-nil w.buf w.end) i; start = w.start; end = e i }

pub pure-Writes : Writes (pure tt) []
pure-Writes = record {
  writes = λ w fits. ap (λ x. (ok tt, x)) (extend_none w);
  refuses = λ w in_range small. absurd (omega arith);
}

-- A writer that succeeds appends to the contents, and keeps the buffer valid.
pub Writes-contents :
    {m : Exec WriteBuf (Unit {0})} {bs : List ℕ} (w : WriteBuf)
    → Writes m bs
    → IsValid w
    → Fits w bs
    → ((m w).0 ≡ ok tt) × IsValid (m w).1 × (contents (m w).1 ≡ contents w ++ bs)
Writes-contents {m} {bs} w p v fits =
    rw (p.writes w fits) (refl, extend-IsValid w bs v fits, contents-extend w bs v fits)

-- The buffer with `src` in front of its contents.
abbrev pub extend_front : WriteBuf → List ℕ → WriteBuf
extend_front w src = record w {
  buf = splice w.buf (w.start - length src) src;
  start = w.start - length src;
}

pub prepend-eq-extend_front :
    (w : WriteBuf) (src : List ℕ)
    → IsValid w
    → length src ≤ w.start
    → prepend src w ≡ (ok tt, extend_front w src)
unfolding prepend
prepend-eq-extend_front w src v h =
    let a : leb (w.start - length src + length src) (length w.buf) ≡ true =
      le→leb _ _ (omega (arith, v.ordered, v.within)) in
    rw (le→leb _ _ h, a) refl

contents-extend_front :
    (w : WriteBuf) (src : List ℕ)
    → IsValid w
    → length src ≤ w.start
    → contents (extend_front w src) ≡ src ++ contents w
contents-extend_front w src v h =
    let e : w.start - length src + length src ≡ w.start = omega arith in
    splice-segment w.buf (w.start - length src) w.end src (omega (arith, v.ordered)) v.within
    ∙ ap (λ k. src ++ segment w.buf k w.end) e

-- On a valid buffer `prepend` puts the bytes in front of the contents where `start` leaves room
-- for them, and refuses where it does not.
pub prepend_lem :
    (w : WriteBuf) (src : List ℕ)
    → IsValid w
    → (length src ≤ w.start
        → ((prepend src w).0 ≡ ok tt)
          × IsValid (prepend src w).1
          × (contents (prepend src w).1 ≡ src ++ contents w))
      × (w.start < length src → prepend src w ≡ (err no_space, w))
prepend_lem w src v = (
  λ h.
      rw (prepend-eq-extend_front w src v h) (refl, front_valid h, contents-extend_front w src v h),
  unfold prepend in λ h. ground arith,
)
  where
    front_valid : length src ≤ w.start → IsValid (extend_front w src)
    front_valid h =
        omega (arith, length-splice w.buf (w.start - length src) src, v.ordered, v.within)

pub as_slice-contents : (w : WriteBuf) → IsValid w → as_slice w ≡ ok (contents w)
unfolding as_slice
as_slice-contents w v = let a = v.ordered in let b = v.within in ground arith

-- A valid buffer from which nothing was written yet.
pub new-IsValid : (size : ℕ) → IsValid (record { buf = replicate size 0; start = 0; end = 0 })
new-IsValid size = omega arith
