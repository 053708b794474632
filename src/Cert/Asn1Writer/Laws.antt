-- ===== src/Cert/Asn1Writer/Laws.antt =====
-- matter/src/cert/asn1_writer.rs as a byte string that grows at its end, with structures in it.
pub mod Compound
use matter_rs.Base.{
  ℕ, zero, suc, ◌/◌, ◌%◌, Bool-cases, inl, inr, ◌+◌, ◌-◌, ◌≤◌, ◌<◌, ◌≡◌, refl, sym, ap, ◌∙◌, arith,
  true, false, ltb, leb, le→leb, if◌then◌else◌, List, [], ◌∷◌, ◌++◌, length, segment, splice,
  length-append, length-splice, segment-splice, splice-append, append_assoc, append-nil, get_elem?,
  Result, ok, err, no_space,
}
use matter_rs.Base.Exec.{Exec, pure, ◌>>=◌, ◌>>◌, bind-ok}
use matter_rs.Cert.Asn1Writer.{
  Asn1Writer, max_depth, store, advance, append_tlv, write_len, write_str, encode_len,
  bytes_to_encode_len, length_octets,
}

-- What was written.
abbrev pub contents : Asn1Writer → List ℕ
contents a = segment a.buf 0 a.offset

pub record IsValid (a : Asn1Writer) : Type 0 where
  pub within : a.offset ≤ length a.buf
  pub levels : length a.depth ≡ max_depth

-- The writer with more bytes at its end, inside the same structures.
pub record IsExtended (a a' : Asn1Writer) (bs : List ℕ) : Type 0 where
  pub size : length a'.buf ≡ length a.buf
  pub end : a'.offset ≡ a.offset + length bs
  pub bytes : contents a' ≡ contents a ++ bs
  pub level : a'.current_depth ≡ a.current_depth
  pub levels : length a'.depth ≡ length a.depth
  pub starts : (i : ℕ) → i < a.current_depth → get_elem? a'.depth i ≡ get_elem? a.depth i

-- `m` writes exactly `bs`, given `need` bytes of room and `nest` levels of nesting.
pub record Appends (m : Exec Asn1Writer (Unit {0})) (bs : List ℕ) (need nest : ℕ) : Type 0 where
  pub runs :
      (a : Asn1Writer)
      → IsValid a
      → a.offset + need ≤ length a.buf
      → a.current_depth + nest < max_depth
      → (a' : Asn1Writer) × (m a ≡ (ok tt, a')) × IsExtended a a' bs

abbrev pub bytes_of : ℕ → ℕ
bytes_of len = if ltb len 128 then 1 else if ltb len 256 then 2 else 3

-- The shortest form of a length in the distinguished encoding rules, up to two octets: itself below
-- 128, and behind an octet with the number of octets and the highest bit otherwise.
abbrev pub der_length : ℕ → List ℕ
der_length len =
    if ltb len 128
    then len ∷ []
    else if ltb len 256
    then 0x81 ∷ len ∷ []
    else 0x82 ∷ len / 256 ∷ len % 256 ∷ []

pub length-der_length : (len : ℕ) → length (der_length len) ≡ bytes_of len
length-der_length len = ground arith

pub bytes_lem : (len : ℕ) → len < 65536 → bytes_to_encode_len len ≡ ok (bytes_of len)
unfolding bytes_to_encode_len
bytes_lem len h = ground arith

octets_lem : (len : ℕ) → len < 65536 → length_octets (bytes_of len) len ≡ der_length len
octets_lem len h = elim (Bool-cases (ltb len 128)) [
  | inl e ↦ (let low : len / 1 % 256 ≡ len = ground arith in rw e (ap (λ x. x ∷ []) low))
  | inr e ↦ elim (Bool-cases (ltb len 256)) [
    | inl f ↦
        let low : len / 1 % 256 ≡ len = ground arith in rw (e, f) (ap (λ x. 0x81 ∷ x ∷ []) low)
    | inr f ↦
        let high : len / 256 % 256 ≡ len / 256 = omega arith in
        let low : len / 1 % 256 ≡ len % 256 = omega arith in
        rw (e, f) (λ i. 0x82 ∷ high i ∷ low i ∷ [])
  ]
]

pub IsExtended-trans :
    (a b c : Asn1Writer) (xs ys : List ℕ)
    → IsExtended a b xs
    → IsExtended b c ys
    → IsExtended a c (xs ++ ys)
IsExtended-trans a b c xs ys p q = record {
  size = q.size ∙ p.size;
  end = omega (arith, p.end, q.end, length-append xs ys);
  bytes = q.bytes ∙ ap (λ z. z ++ ys) p.bytes ∙ append_assoc (contents a) xs ys;
  level = q.level ∙ p.level;
  levels = q.levels ∙ p.levels;
  starts = λ i h. q.starts i (omega (arith, p.level, h)) ∙ p.starts i h;
}

-- One writer after the other, at the same level.
pub >>-Appends :
    {m n : Exec Asn1Writer (Unit {0})} {xs ys : List ℕ} {j k nest : ℕ}
    → Appends m xs j nest
    → Appends n ys k nest
    → length xs ≤ j
    → Appends (m >> n) (xs ++ ys) (j + k) nest
>>-Appends {m} {n} {xs} {ys} p q h = record {
  runs = λ a v room levels.
      let (b, first, x) = p.runs a v (omega arith) levels in
      let v' : IsValid b = record {
        within = omega (arith, x.size, x.end, v.within);
        levels = x.levels ∙ v.levels;
      } in
      let (c, second, y) = q.runs b v' (omega (arith, x.size, x.end)) (omega (arith, x.level)) in
      (c, bind-ok m _ a first ∙ second, IsExtended-trans a b c xs ys x y);
}

pub nested-Appends :
    {m : Exec Asn1Writer (Unit {0})} {bs : List ℕ} {need nest nest' : ℕ}
    → Appends m bs need nest
    → nest ≤ nest'
    → Appends m bs need nest'
nested-Appends p h = record { runs = λ a v room levels. p.runs a v room (omega arith) }

pub nothing-Appends : Appends (pure tt) [] 0 0
nothing-Appends = record {
  runs = λ a v room levels. (
    a,
    refl,
    record {
      size = refl;
      end = omega arith;
      bytes = sym (append-nil (contents a));
      level = refl;
      levels = refl;
      starts = λ i h. refl;
    },
  );
}

pub store_lem :
    (at : ℕ) (bytes : List ℕ) (a : Asn1Writer)
    → at + length bytes ≤ length a.buf
    → store at bytes a ≡ (ok tt, record a { buf = splice a.buf at bytes })
unfolding store
store_lem at bytes a h = rw (le→leb _ _ h) refl

pub encode_len_lem :
    (at len : ℕ) (a : Asn1Writer)
    → len < 65536
    → at + bytes_of len ≤ length a.buf
    → encode_len at len a
      ≡ (ok (at + bytes_of len), record a { buf = splice a.buf at (der_length len) })
unfolding encode_len ◌>>=◌
encode_len_lem at len a small h =
    let size = length-der_length len in
    rw (bytes_lem len small, octets_lem len small)
      (rw (store_lem at (der_length len) a (omega (arith, size)))
        (ap (λ k. (ok (at + k), record a { buf = splice a.buf at (der_length len) })) size))

pub write_len_lem :
    (len : ℕ) (a : Asn1Writer)
    → len < 65536
    → a.offset + bytes_of len ≤ length a.buf
    → write_len len a ≡ (
      ok tt,
      record a { buf = splice a.buf a.offset (der_length len); offset = a.offset + bytes_of len },
    )
unfolding write_len
write_len_lem len a small h =
    rw (encode_len_lem a.offset len a small h, write_len)
      (rw (encode_len_lem a.offset len a small h) refl)

-- The writer with bytes behind its contents.
abbrev pub filled : Asn1Writer → List ℕ → Asn1Writer
filled a bs = record a { buf = splice a.buf a.offset bs; offset = a.offset + length bs }

pub filled-IsExtended :
    (a : Asn1Writer) (bs : List ℕ)
    → a.offset + length bs ≤ length a.buf
    → IsExtended a (filled a bs) bs
filled-IsExtended a bs h = record {
  size = length-splice a.buf a.offset bs;
  end = refl;
  bytes = segment-splice a.buf 0 a.offset bs (omega arith) h;
  level = refl;
  levels = refl;
  starts = λ i l. refl;
}

-- Tag, length and value of a simple element.
abbrev pub element : ℕ → List ℕ → List ℕ
element tag s = (tag ∷ []) ++ (der_length (length s) ++ s)

write_str-filled :
    (tag : ℕ) (s : List ℕ) (a : Asn1Writer)
    → length s < 65536
    → a.offset + length (element tag s) ≤ length a.buf
    → write_str tag s a ≡ (ok tt, filled a (element tag s))
unfolding write_str append_tlv ◌>>=◌
write_str-filled tag s a small room =
    let len = length s in
    let size = length-der_length len in
    let all = length-append (der_length len) s in
    let o = a.offset in
    let fits = le→leb (o + (1 + bytes_of len + len)) (length a.buf) (omega (arith, size, all)) in
    let tagged = filled a (tag ∷ []) in
    let sized = record tagged {
      buf = splice tagged.buf (o + 1) (der_length len);
      offset = o + 1 + bytes_of len;
    } in
    let first = store_lem o (tag ∷ []) a (omega arith) in
    let second =
      write_len_lem len tagged small (omega (arith, size, all, length-splice a.buf o (tag ∷ []))) in
    let third = store_lem sized.offset s sized (
      omega (
        arith,
        size,
        all,
        length-splice a.buf o (tag ∷ []),
        length-splice tagged.buf (o + 1) (der_length len),
      )) in
    let der = der_length len in
    let at : o + 1 + bytes_of len ≡ o + 1 + length der = omega (arith, size) in
    let end : o + 1 + bytes_of len + len ≡ o + length (element tag s) = omega (arith, size, all) in
    let whole =
      ap (λ k. splice (splice tagged.buf (o + 1) der) k s) at
      ∙ splice-append tagged.buf (o + 1) der s
      ∙ splice-append a.buf o (tag ∷ []) (der ++ s) in
    rw (bytes_lem len small) (
      rw fits (
        rw first (rw second (rw third (λ i. (ok tt, record a { buf = whole i; offset = end i }))))))

-- A simple element is written where it fits.
pub write_str-Appends :
    (tag : ℕ) (s : List ℕ)
    → length s < 65536
    → Appends (write_str tag s) (element tag s) (length (element tag s)) 0
write_str-Appends tag s small = record {
  runs = λ a v room levels. (
    filled a (element tag s),
    write_str-filled tag s a small room,
    filled-IsExtended a (element tag s) room,
  );
}
