-- ===== src/Tlv/Parser/Container/Total.antt =====
-- matter/src/tlv/parser.rs: the loops over a container end, on any input.
use matter_rs.Base.{
  ◌%◌, ◌^◌, ℕ, zero, suc, ◌+◌, ◌≤◌, ◌<◌, ◌≡◌, ◌≢◌, ◌⊎◌, refl, Bool, true, false, if◌then◌else◌, inl,
  inr, Bool-cases, Option-cases, Option, some, none, Result, ok, panic, arith, length,
}
use matter_rs.Base.Exec.{Exec}
use matter_rs.Base.Bytes.{LittleEndian}
use matter_rs.Tlv.Tag.{TagType, context, tag_eq}
use matter_rs.Tlv.Element.{TlvElement, is_container, is_end_cnt, pointer, Pointer}
use matter_rs.Tlv.Parser.{next, from_pointer}
use matter_rs.Tlv.Parser.Settling.{IsValid, Settles-IsValid}
use matter_rs.Tlv.Parser.Total.{next-Settles}
use matter_rs.Tlv.Parser.Container.{
  TlvContainerIterator, next_in_list, following, skip_step, skip_to_end_of_container, deliver,
  candidate, next_in_container, find_step, find_in, find_tag, enter,
}

-- An answer without a panic, at a valid place with no more to read, and with less where the answer
-- is an element.
pub record Advances (n : ℕ) (r : Result (Option TlvElement) × TlvContainerIterator) : Type 0 where
  pub answer : Option TlvElement
  pub answers : r.0 ≡ ok answer
  pub valid : IsValid r.1.list_iter
  pub shrinks : r.1.list_iter.left ≤ n
  pub consumes : (e : TlvElement) → answer ≡ some e → r.1.list_iter.left < n

Advances-widen :
    {m n : ℕ} {r : Result (Option TlvElement) × TlvContainerIterator}
    → m ≤ n
    → Advances m r
    → Advances n r
Advances-widen h a = record {
  answer = a.answer;
  answers = a.answers;
  valid = a.valid;
  shrinks = omega (arith, a.shrinks);
  consumes = λ e q. omega (arith, a.consumes e q);
}

Advances-none :
    (n : ℕ) (c : TlvContainerIterator)
    → IsValid c.list_iter
    → c.list_iter.left ≤ n
    → Advances n (ok none, c)
Advances-none n c v h = record {
  answer = none;
  answers = refl;
  valid = v;
  shrinks = h;
  consumes = λ e q. cc;
}

Advances-some :
    (n : ℕ) (e : TlvElement) (c : TlvContainerIterator)
    → IsValid c.list_iter
    → c.list_iter.left < n
    → Advances n (ok (some e), c)
Advances-some n e c v h = record {
  answer = some e;
  answers = refl;
  valid = v;
  shrinks = omega arith;
  consumes = λ x q. h;
}

if-Advances :
    {n : ℕ} {r r' : Result (Option TlvElement) × TlvContainerIterator} (b : Bool)
    → Advances n r
    → Advances n r'
    → Advances n (if b then r else r')
if-Advances true p q = p
if-Advances false p q = q

module _ ⦃le : LittleEndian⦄ where
  next_in_list-Advances :
      (c : TlvContainerIterator) → IsValid c.list_iter → Advances c.list_iter.left (next_in_list c)
  unfolding next_in_list
  next_in_list-Advances c v =
      let (s, k) = next-Settles c.list_iter v in
      record {
        answer = s.answer;
        answers = s.answers;
        valid = Settles-IsValid c.list_iter (next c.list_iter) s v;
        shrinks = s.shrinks;
        consumes = λ e q. k e cc;
      }

  following-Advances :
      (n : ℕ) (r : Result (Option TlvElement) × TlvContainerIterator)
      → Advances n r
      → Advances n (following r.0 r.1)
  following-Advances n r a = rw a.answers (go a.answer a.consumes)
    where
      go :
          (o : Option TlvElement)
          → ((e : TlvElement) → o ≡ some e → r.1.list_iter.left < n)
          → Advances n (following (ok o) r.1)
      go none k = Advances-none n r.1 a.valid a.shrinks
      go (some e) k = elim (Bool-cases (is_end_cnt e.element_type)) [
        | inl h ↦ rw h (Advances-none n (record r.1 { iterator_consumed = true }) a.valid a.shrinks)
        | inr h ↦ rw h (Advances-some n e r.1 a.valid (k e refl))
      ]

  deliver-Advances :
      (n : ℕ) (r : Result (Option TlvElement) × TlvContainerIterator)
      → Advances n r
      → Advances n (deliver r.0 r.1)
  deliver-Advances n r a = rw a.answers (go a.answer a.consumes)
    where
      go :
          (o : Option TlvElement)
          → ((e : TlvElement) → o ≡ some e → r.1.list_iter.left < n)
          → Advances n (deliver (ok o) r.1)
      go none k = Advances-none n r.1 a.valid a.shrinks
      go (some e) k = elim (Bool-cases (is_end_cnt e.element_type)) [
        | inl h ↦ rw h (Advances-none n (record r.1 { iterator_consumed = true }) a.valid a.shrinks)
        | inr h ↦ rw h (
            Advances-some n e (record r.1 { prev_container = is_container e.element_type }) a.valid
              (k e refl))
      ]

  skip_step-Advances :
      (n nest : ℕ) (again : ℕ → Exec TlvContainerIterator (Option TlvElement))
      (r : Result (Option TlvElement) × TlvContainerIterator)
      → Advances n r
      → ((k : ℕ) (c : TlvContainerIterator)
          → IsValid c.list_iter
          → c.list_iter.left < n
          → Advances n (again k c))
      → Advances n (skip_step again nest r.0 r.1)
  skip_step-Advances n nest again r a p = rw a.answers (go a.answer a.consumes)
    where
      at_end :
          (m : ℕ)
          → r.1.list_iter.left < n
          → Advances n (elim m [
            | zero ↦ following (next_in_list r.1).0 (next_in_list r.1).1
            | suc k ↦ again k r.1
          ])
      at_end zero h = Advances-widen (omega arith) (
          following-Advances r.1.list_iter.left (next_in_list r.1)
            (next_in_list-Advances r.1 a.valid))
      at_end (suc k) h = p k r.1 a.valid h

      go :
          (o : Option TlvElement)
          → ((e : TlvElement) → o ≡ some e → r.1.list_iter.left < n)
          → Advances n (skip_step again nest (ok o) r.1)
      go none k = Advances-none n r.1 a.valid a.shrinks
      go (some e) k = elim (Bool-cases (is_end_cnt e.element_type)) [
        | inl h ↦ rw h (at_end nest (k e refl))
        | inr h ↦ rw h (p _ r.1 a.valid (k e refl))
      ]

  skip-Advances :
      (fuel nest : ℕ) (c : TlvContainerIterator)
      → IsValid c.list_iter
      → c.list_iter.left < fuel
      → Advances c.list_iter.left (skip_to_end_of_container fuel nest c)
  unfolding skip_to_end_of_container
  skip-Advances zero nest c v h = absurd (omega arith)
  skip-Advances (suc fuel) nest c v h =
      skip_step-Advances c.list_iter.left nest (skip_to_end_of_container fuel) (next_in_list c)
        (next_in_list-Advances c v)
        λ k d w q. Advances-widen (omega arith) (skip-Advances fuel k d w (omega arith))

  candidate-Advances :
      (c : TlvContainerIterator) → IsValid c.list_iter → Advances c.list_iter.left (candidate c)
  candidate-Advances c v = elim (Bool-cases c.prev_container) [
    | inl h ↦ simp h (skip-Advances (suc c.list_iter.left) 0 c v (omega arith))
    | inr h ↦ simp h (next_in_list-Advances c v)
  ]

  pub next_in_container-Advances :
      (c : TlvContainerIterator)
      → IsValid c.list_iter
      → Advances c.list_iter.left (next_in_container c)
  unfolding next_in_container
  next_in_container-Advances c v =
      if-Advances c.iterator_consumed (Advances-none c.list_iter.left c v (omega arith))
        (deliver-Advances c.list_iter.left (candidate c) (candidate-Advances c v))

  -- From every valid place of a container, whatever is nested in it, `next` answers without a
  -- panic, so its loop ends; it stays in the bytes, and either it answers no element or it leaves
  -- less to read than there was.
  pub next_in_container_total :
      (c : TlvContainerIterator)
      → IsValid c.list_iter
      → (o : Option TlvElement) × ((next_in_container c).0 ≡ ok o)
        × IsValid (next_in_container c).1.list_iter
        × ((next_in_container c).1.list_iter.left ≤ c.list_iter.left)
        × ((o ≡ none) ⊎ ((next_in_container c).1.list_iter.left < c.list_iter.left))
  next_in_container_total c v =
      let a = next_in_container-Advances c v in
      (
        a.answer,
        a.answers,
        a.valid,
        a.shrinks,
        elim (Option-cases a.answer) [ inl e ↦ inl e | inr (x, e) ↦ inr (a.consumes x e) ],
      )

  find_step_total :
      (n : ℕ) (again : TlvContainerIterator → Result TlvElement) (tag : TagType)
      (r : Result (Option TlvElement) × TlvContainerIterator)
      → Advances n r
      → ((c : TlvContainerIterator) → IsValid c.list_iter → c.list_iter.left < n → again c ≢ panic)
      → find_step again tag r.0 r.1 ≢ panic
  find_step_total n again tag r a p = rw a.answers (go a.answer a.consumes)
    where
      go :
          (o : Option TlvElement)
          → ((e : TlvElement) → o ≡ some e → r.1.list_iter.left < n)
          → find_step again tag (ok o) r.1 ≢ panic
      go none k = λ q. cc
      go (some e) k = elim (Bool-cases (tag_eq tag e.tag_type)) [
        | inl q ↦ rw q (λ x. cc)
        | inr q ↦ rw q (p r.1 a.valid (k e refl))
      ]

  find_in_total :
      (fuel : ℕ) (tag : TagType) (c : TlvContainerIterator)
      → IsValid c.list_iter
      → c.list_iter.left < fuel
      → find_in fuel tag c ≢ panic
  unfolding find_in
  find_in_total zero tag c v h = absurd (omega arith)
  find_in_total (suc fuel) tag c v h =
      find_step_total c.list_iter.left (find_in fuel tag) tag (next_in_container c)
        (next_in_container-Advances c v) λ d w q. find_in_total fuel tag d w (omega arith)

  -- `find_tag` ends without a panic on every element whose container lies in its bytes.
  pub find_tag_total :
      (tag : ℕ) (t : TlvElement)
      → ((p : Pointer) → pointer t.element_type ≡ some p → p.current + p.left ≤ length p.buf)
      → find_tag tag t ≢ panic
  unfolding find_tag enter
  find_tag_total tag t h = elim (Option-cases (pointer t.element_type)) [
    | inl e ↦ rw (e, find_tag, enter) (λ q. cc)
    | inr (p, e) ↦
        rw (e, find_tag, enter)
          (find_in_total (suc p.left) (context (tag % 2 ^ 8))
            (record {
              list_iter = from_pointer p;
              prev_container = false;
              iterator_consumed = false;
            })
            (record { within = h p e }) (omega arith))
  ]
