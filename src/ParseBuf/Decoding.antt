-- ===== src/ParseBuf/Decoding.antt =====
-- Methods that fill in an object from a packet: what they take from the packet and what they make
-- of the object.
use matter_rs.Base.{ℕ, ◌≡◌, refl, ap, ◌∙◌, List, [], ◌++◌, append_assoc, length, ok}
use matter_rs.Base.Exec.{Exec, modify, on_fst, on_snd, some_or_fail, ◌>>=◌, ◌>>◌}
use matter_rs.Base.{Option, some, Error}
use matter_rs.ParseBuf.{ParseBuf}
use matter_rs.ParseBuf.Laws.{
  Reads, IsValid, contents, skip, skip-IsValid, contents-skip-append, enough, skip-skip, skip_none,
}

-- `m` takes exactly `bs` from the packet, answers `a`, and turns the object `s` into `s'`.
pub record Decodes {ℓ κ} {S : Type ℓ} {A : Type κ} (m : Exec (S × ParseBuf) A) (s : S) (bs : List ℕ)
    (a : A) (s' : S) : Type (ℓ ⊔ κ) where
  pub decodes :
      (p : ParseBuf) (rest : List ℕ)
      → IsValid p
      → contents p ≡ bs ++ rest
      → m (s, p) ≡ (ok a, (s', skip (length bs) p))

module _ {ℓ κ} {S : Type ℓ} {A : Type κ} where
  pub on_snd-Decodes :
      {m : Exec ParseBuf A} {bs : List ℕ} {a : A} (s : S)
      → Reads m bs a
      → Decodes (on_snd m) s bs a s
  on_snd-Decodes s r = record { decodes = λ p rest v e. rw (r.reads p rest v e) }

  pub lift-Decodes :
      {m : Exec (S × ParseBuf) A} (s : S) {a : A} {s' : S}
      → ((p : ParseBuf) → m (s, p) ≡ (ok a, (s', p)))
      → Decodes m s [] a s'
  lift-Decodes s {a} {s'} h = record {
    decodes = λ p rest v e. h p ∙ ap (λ q. (ok a, (s', q))) (skip_none p);
  }

  pub some-Decodes :
      {o : Option A} {a : A} (e : Error) (s : S) → o ≡ some a → Decodes (some_or_fail o e) s [] a s
  some-Decodes e s h = lift-Decodes s (λ p. rw h)

module _ {ℓ} {S : Type ℓ} where
  -- A field is set.
  pub set-Decodes : (f : S → S) (s : S) → Decodes (on_fst (modify f)) s [] tt (f s)
  set-Decodes f s = lift-Decodes s (λ p. refl)

module _ {ℓ κ μ} {S : Type ℓ} {A : Type κ} {B : Type μ} where
  pub >>=-Decodes :
      {m : Exec (S × ParseBuf) A} (f : A → Exec (S × ParseBuf) B) {xs ys : List ℕ} {s s' s'' : S}
      {a : A} {b : B}
      → Decodes m s xs a s'
      → Decodes (f a) s' ys b s''
      → Decodes (m >>= f) s (xs ++ ys) b s''
  unfolding ◌>>=◌
  >>=-Decodes f {xs} {ys} {s} {s'} {s''} {a} {b} r q = record {
    decodes = λ p rest v e.
        let e' = e ∙ append_assoc xs ys rest in
        rw (r.decodes p (ys ++ rest) v e') (
          q.decodes (skip (length xs) p) rest
            (skip-IsValid (length xs) p (enough p xs (ys ++ rest) v e') v)
            (contents-skip-append p xs (ys ++ rest) e')
          ∙ ap (λ x. (ok b, (s'', x))) (skip-skip xs ys p));
  }

module _ {ℓ κ} {S : Type ℓ} {B : Type κ} where
  pub >>-Decodes :
      {m : Exec (S × ParseBuf) (Unit {0})} (k : Exec (S × ParseBuf) B) {xs ys : List ℕ}
      {s s' s'' : S} {b : B}
      → Decodes m s xs tt s'
      → Decodes k s' ys b s''
      → Decodes (m >> k) s (xs ++ ys) b s''
  >>-Decodes k r q = >>=-Decodes (λ x. k) r q
