-- ===== src/Cert/Asn1Writer/Laws/Compound.antt =====
-- matter/src/cert/asn1_writer.rs: what a structure is when it is closed.
use matter_rs.Base.{
  ℕ, zero, suc, ◌+◌, ◌-◌, ◌≤◌, ◌<◌, ◌≡◌, refl, sym, ap, ◌∙◌, arith, true, false, ◌==◌, ltb, leb,
  le→leb, List, [], ◌∷◌, ◌++◌, length, segment, splice, take, drop, take-add, take-append,
  drop-append, length-take, length-append, length-splice, length-set, segment-splice, append_assoc,
  get_elem?, set, get_elem?-set_self, get_elem?-set_ne, some, ok,
}
use matter_rs.Base.Exec.{Exec, ◌>>=◌, ◌>>◌, bind-ok}
use matter_rs.Cert.Asn1Writer.{
  Asn1Writer, max_depth, reserve_len_bytes, append_with, add_compound, move_to, end_compound, minus,
  top,
}
use matter_rs.Cert.Asn1Writer.Moving.{move_back_lem, drop-splice}
use matter_rs.Cert.Asn1Writer.Laws.{
  contents, IsValid, Appends, bytes_of, der_length, length-der_length, store_lem, encode_len_lem,
  element,
}

segment-take : (xs : List ℕ) (n : ℕ) → segment xs 0 n ≡ take n xs
segment-take xs n = ap (λ k. take k xs) (omega arith)

-- A segment and what follows it.
segment-add : (xs : List ℕ) (m n : ℕ) → segment xs 0 (m + n) ≡ segment xs 0 m ++ take n (drop m xs)
segment-add xs m n =
    segment-take xs (m + n)
    ∙ take-add m n xs
    ∙ ap (λ z. z ++ take n (drop m xs)) (sym (segment-take xs m))

-- The contents move to the end of the length, wherever they stood.
move_to_lem :
    (a : Asn1Writer) (w shift : ℕ) (bs : List ℕ)
    → take (length bs) (drop (w + shift) a.buf) ≡ bs
    → w + shift + length bs ≤ length a.buf
    → (buf : List ℕ) × (move_to (length bs) w shift a ≡ (ok tt, record a { buf = buf }))
      × (length buf ≡ length a.buf)
      × (segment buf 0 (w + length bs) ≡ segment a.buf 0 w ++ bs)
unfolding move_to
move_to_lem a w zero bs e h =
    let same : w + 0 ≡ w = omega arith in
    (
      a.buf,
      refl,
      refl,
      segment-add a.buf w (length bs)
          ∙ ap (λ z. segment a.buf 0 w ++ z)
              (ap (λ k. take (length bs) (drop k a.buf)) (sym same) ∙ e),
    )
move_to_lem a w (suc shift) bs e h =
    let moved =
      move_back_lem (length bs) w (suc shift) a.buf (omega arith) h
      ∙ ap (λ z. ok (splice a.buf w z)) e in
    let later : ltb 0 (suc shift) ≡ true = ground arith in
    (
      splice a.buf w bs,
      rw (later, moved) refl,
      length-splice a.buf w bs,
      segment-splice a.buf 0 w bs (omega arith) (omega arith),
    )

-- The writer when a structure has begun.
abbrev begun : ℕ → Asn1Writer → Asn1Writer
begun tag a = record {
  buf = splice a.buf a.offset (tag ∷ []);
  offset = a.offset + 4;
  depth = set a.depth a.current_depth (a.offset + 4);
  current_depth = a.current_depth + 1;
}

add_compound_lem :
    (tag : ℕ) (a : Asn1Writer)
    → IsValid a
    → a.offset + 4 ≤ length a.buf
    → a.current_depth + 1 < max_depth
    → add_compound tag a ≡ (ok tt, begun tag a)
unfolding add_compound append_with ◌>>=◌
add_compound_lem tag a v room level =
    let fits = le→leb (a.offset + 4) (length a.buf) room in
    let first = store_lem a.offset (tag ∷ []) a (omega arith) in
    let below : ltb a.current_depth (length a.depth) ≡ true = let l = v.levels in ground arith in
    let inner : leb max_depth (a.current_depth + 1) ≡ false = ground arith in
    rw fits (rw first (rw (below, inner) refl))

same_front : (xs ys r s : List ℕ) → xs ++ r ≡ ys ++ s → length xs ≡ length ys → (xs ≡ ys) × (r ≡ s)
same_front xs ys r s e n = (
  sym (take-append xs r (length xs) refl)
      ∙ ap (take (length xs)) e
      ∙ take-append ys s (length xs) n,
  sym (drop-append xs r (length xs) refl)
      ∙ ap (drop (length xs)) e
      ∙ drop-append ys s (length xs) n,
)

length-segment : (xs : List ℕ) (n : ℕ) → n ≤ length xs → length (segment xs 0 n) ≡ n
length-segment xs n h = ap length (segment-take xs n) ∙ length-take n xs h

-- What a closed structure leaves of the bytes that were reserved for its length.
closed_front :
    (before after : List ℕ) (o : ℕ) (pre bs : List ℕ)
    → segment before 0 (o + 1) ≡ pre
    → o + 4 + length bs ≤ length after
    → length before ≡ length after
    → segment after 0 (o + 4 + length bs) ≡ segment before 0 (o + 4) ++ bs
    → (segment after 0 (o + 1) ≡ pre) × (take (length bs) (drop (o + 4) after) ≡ bs)
closed_front before after o pre bs front room same e =
    let (fronts, body) =
      same_front (segment after 0 (o + 4)) (segment before 0 (o + 4)) _ bs
        (sym (segment-add after (o + 4) (length bs)) ∙ e)
        (length-segment after (o + 4) (omega arith)
          ∙ sym (length-segment before (o + 4) (omega arith))) in
    let split : o + 1 + 3 ≡ o + 4 = omega arith in
    let (heads, _) =
      same_front (segment after 0 (o + 1)) (segment before 0 (o + 1)) _ _
        (sym (segment-add after (o + 1) 3)
          ∙ ap (segment after 0) split
          ∙ fronts
          ∙ ap (segment before 0) (sym split)
          ∙ segment-add before (o + 1) 3)
        (length-segment after (o + 1) (omega arith)
          ∙ sym (length-segment before (o + 1) (omega arith))) in
    (heads ∙ front, body)

minus_lem : (x y z : ℕ) → x ≡ y + z → minus x y ≡ ok z
minus_lem x y z e =
    let difference : x - y ≡ z = omega arith in rw (le→leb y x (omega arith)) (ap ok difference)

top_lem :
    (b : Asn1Writer) (start level : ℕ)
    → b.current_depth ≡ level + 1
    → get_elem? b.depth level ≡ some start
    → top b ≡ ok start
top_lem b start level nested e =
    let index : b.current_depth - 1 ≡ level = omega arith in rw (index, top) (rw e refl)

pub bytes_of_le : (len : ℕ) → bytes_of len ≤ 3
bytes_of_le len = ground arith

-- The end of a structure that began at `o`, in the writer `b` that holds `bs` in it.
end_compound_lem :
    (b : Asn1Writer) (o level : ℕ) (pre bs : List ℕ)
    → b.current_depth ≡ level + 1
    → get_elem? b.depth level ≡ some (o + 4)
    → b.offset ≡ o + 4 + length bs
    → b.offset ≤ length b.buf
    → length bs < 65536
    → segment b.buf 0 (o + 1) ≡ pre
    → take (length bs) (drop (o + 4) b.buf) ≡ bs
    → (buf : List ℕ) × (end_compound b ≡ (
      ok tt,
      record b {
        buf = buf;
        current_depth = level;
        offset = o + (1 + bytes_of (length bs) + length bs);
      },
    ))
      × (length buf ≡ length b.buf)
      × (segment buf 0 (o + (1 + bytes_of (length bs) + length bs))
          ≡ pre ++ (der_length (length bs) ++ bs))
unfolding end_compound ◌>>=◌
end_compound_lem b o level pre bs nested start end within small front body =
    let n = length bs in
    let lb = bytes_of n in
    let le = bytes_of_le n in
    let size = length-der_length n in
    let c : Asn1Writer = record b { buf = splice b.buf (o + 1) (der_length n) } in
    let w = o + 1 + lb in
    let open_level : (b.current_depth == 0) ≡ false = ground arith in
    let encoded = encode_len_lem (o + 1) n b small (omega arith) in
    let kept : w + (3 - lb) ≡ o + 4 = omega arith in
    let same_size = length-splice b.buf (o + 1) (der_length n) in
    let there =
      ap (take n) (
        ap (λ k. drop k c.buf) kept
        ∙ drop-splice b.buf (o + 1) (o + 4) (der_length n) (omega (arith, size)))
      ∙ body in
    let (buf, moved, size', text) = move_to_lem c w (3 - lb) bs there (omega (arith, same_size)) in
    let total : o + (1 + lb + n) ≡ w + n = omega arith in
    let offset' : b.offset - (3 - lb) ≡ o + (1 + lb + n) = omega arith in
    let level' : b.current_depth - 1 ≡ level = omega arith in
    let len_at : o + 1 + length (der_length n) ≡ w = omega (arith, size) in
    let header =
      ap (segment c.buf 0) (sym len_at)
      ∙ segment-splice b.buf 0 (o + 1) (der_length n) (omega arith) (omega (arith, size))
      ∙ ap (λ z. z ++ der_length n) front in
    (
      buf,
      rw open_level (
          rw (top_lem b (o + 4) level nested start) (
            rw (minus_lem b.offset (o + 4) n end) (
              rw (minus_lem (o + 4) reserve_len_bytes (o + 1) (omega arith)) (
                rw encoded (
                  rw (minus_lem (o + 4) w (3 - lb) (omega arith)) (
                    rw moved (λ i. (
                      ok tt,
                      record b { buf = buf; offset = offset' i; current_depth = level' i },
                    )))))))),
      size' ∙ same_size,
      ap (segment buf 0) total
          ∙ text
          ∙ ap (λ z. z ++ bs) header
          ∙ append_assoc pre (der_length n) bs,
    )

-- What is written between the start and the end of a structure becomes an element of it, with the
-- shortest form of its length.
pub compound-Appends :
    {m : Exec Asn1Writer (Unit {0})} {bs : List ℕ} {need nest : ℕ} (tag : ℕ)
    → Appends m bs need nest
    → length bs ≤ need
    → length bs < 65536
    → Appends (add_compound tag >> (m >> end_compound)) (element tag bs) (4 + need) (suc nest)
compound-Appends {m} {bs} {need} {nest} tag inner fits small = record {
  runs = λ a v room levels.
      let o = a.offset in
      let first = add_compound_lem tag a v (omega arith) (omega arith) in
      let same = length-splice a.buf o (tag ∷ []) in
      let v' : IsValid (begun tag a) = record {
        within = omega (arith, same);
        levels = length-set a.depth a.current_depth (o + 4) ∙ v.levels;
      } in
      let (b, second, x) = inner.runs (begun tag a) v' (omega (arith, same)) (omega arith) in
      let own : a.current_depth < length a.depth = omega (arith, v.levels) in
      let start =
        x.starts a.current_depth (omega arith)
        ∙ get_elem?-set_self a.depth a.current_depth (o + 4) own in
      let opened = segment-splice a.buf 0 o (tag ∷ []) (omega arith) (omega arith) in
      let (front, body) =
        closed_front (splice a.buf o (tag ∷ [])) b.buf o (contents a ++ (tag ∷ [])) bs opened
          (omega (arith, x.size, same)) (sym x.size) (ap (segment b.buf 0) (sym x.end) ∙ x.bytes) in
      let (buf, third, size, text) =
        end_compound_lem b o a.current_depth (contents a ++ (tag ∷ [])) bs x.level start x.end
          (omega (arith, x.end, x.size, same)) small front body in
      let len : length (element tag bs) ≡ 1 + bytes_of (length bs) + length bs =
        omega (arith, length-append (der_length (length bs)) bs, length-der_length (length bs)) in
      let end : o + (1 + bytes_of (length bs) + length bs) ≡ o + length (element tag bs) =
        omega (arith, len) in
      (
        record b {
          buf = buf;
          current_depth = a.current_depth;
          offset = o + (1 + bytes_of (length bs) + length bs);
        },
        bind-ok (add_compound tag) _ a first ∙ bind-ok m _ (begun tag a) second ∙ third,
        record {
          size = size ∙ x.size ∙ same;
          end = end;
          bytes = text ∙ append_assoc (contents a) (tag ∷ []) _;
          level = refl;
          levels = x.levels ∙ length-set a.depth a.current_depth (o + 4);
          starts = λ i below.
              x.starts i (omega arith)
              ∙ get_elem?-set_ne a.depth a.current_depth i (o + 4) (λ e. absurd (omega arith));
        },
      );
}
