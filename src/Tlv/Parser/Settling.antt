-- ===== src/Tlv/Parser/Settling.antt =====
-- matter/src/tlv/parser.rs: steps of the iterator that answer without a panic, within the bytes.
use matter_rs.Base.{
  ℕ, ◌+◌, ◌≤◌, ◌≡◌, refl, ap, ◌∙◌, length, get_elem?_total, Option, some, none, Result, ok, arith,
}
use matter_rs.Base.Exec.{Exec}
use matter_rs.ParseBuf.{index}
use matter_rs.Tlv.Parser.{TlvListIterator, try_some, continue_some, advance, observe}

pub record IsValid (t : TlvListIterator) : Type 0 where
  pub within : t.current + t.left ≤ length t.buf

-- An answer without a panic, on the same bytes, with nothing read beyond their end.
pub record Settles {ℓ} {A : Type ℓ} (t : TlvListIterator) (r : Result (Option A) × TlvListIterator)
    : Type ℓ where
  pub answer : Option A
  pub answers : r.0 ≡ ok answer
  pub same_buf : r.1.buf ≡ t.buf
  pub same_end : r.1.current + r.1.left ≡ t.current + t.left
  pub shrinks : r.1.left ≤ t.left

pub Settles-IsValid {ℓ} :
    {A : Type ℓ} (t : TlvListIterator) (r : Result (Option A) × TlvListIterator)
    → Settles t r
    → IsValid t
    → IsValid r.1
Settles-IsValid t r s v = omega (arith, s.same_end, v.within, ap length s.same_buf)

pub stop-Settles {ℓ} : {A : Type ℓ} (o : Option A) (t : TlvListIterator) → Settles t (ok o, t)
stop-Settles o t = record {
  answer = o;
  answers = refl;
  same_buf = refl;
  same_end = refl;
  shrinks = omega arith;
}

pub Settles-trans {ℓ κ} :
    {A : Type ℓ} {B : Type κ} (t : TlvListIterator) (r : Result (Option A) × TlvListIterator)
    (r' : Result (Option B) × TlvListIterator)
    → Settles t r
    → Settles r.1 r'
    → Settles t r'
Settles-trans t r r' p q = record {
  answer = q.answer;
  answers = q.answers;
  same_buf = q.same_buf ∙ p.same_buf;
  same_end = q.same_end ∙ p.same_end;
  shrinks = omega (arith, p.shrinks, q.shrinks);
}

pub try_some-Settles {ℓ κ} :
    {A : Type ℓ} {B : Type κ} (m : Exec TlvListIterator (Option A))
    (f : A → Exec TlvListIterator (Option B)) (t : TlvListIterator)
    → Settles t (m t)
    → ((a : A) → Settles (m t).1 (f a (m t).1))
    → Settles t (try_some m f t)
unfolding try_some
try_some-Settles m f t p q = rw p.answers (by_answer p.answer)
  where
    by_answer : (o : Option _) → Settles t (continue_some (ok o) f (m t).1)
    by_answer none = Settles-trans t (m t) (ok none, (m t).1) p (stop-Settles none (m t).1)
    by_answer (some a) = Settles-trans t (m t) (f a (m t).1) p (q a)

pub advance-Settles : (n : ℕ) (t : TlvListIterator) → n ≤ t.left → Settles t (advance n t)
unfolding advance
advance-Settles n t h = record {
  answer = some tt;
  answers = ground arith;
  same_buf = ground arith;
  same_end = ground arith;
  shrinks = ground arith;
}

-- A read that does not panic.
abbrev pub IsOk {ℓ} : {A : Type ℓ} → Result A → Type ℓ
IsOk {A = A} r = (a : A) × (r ≡ ok a)

pub observe-Settles {ℓ} :
    {A : Type ℓ} (f : TlvListIterator → Result A) (t : TlvListIterator)
    → IsOk (f t)
    → Settles t (observe f t)
observe-Settles f t (a, e) = rw e (stop-Settles (some a) t)

pub index-IsOk : (t : TlvListIterator) → IsValid t → 1 ≤ t.left → IsOk (index t.buf t.current)
index-IsOk t v h =
    let (b, e) = get_elem?_total t.buf t.current (omega (arith, v.within)) in
    (b, rw (e, index) refl)
