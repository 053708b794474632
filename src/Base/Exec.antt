-- ===== src/Base/Exec.antt =====
-- Methods on `&mut self` that may fail. What was written before an error stays written, so the
-- state comes back beside the error too. After a panic the state means nothing.
use mathlib.Core.Path.{◌≡◌, refl, ap, sym, ◌∙◌}
use mathlib.Core.Option.{Option, none, some}
use matter_rs.Base.Errors.{Result, ok, err, panic, Error}

abbrev pub Exec {ℓ κ} : Type ℓ → Type κ → Type (ℓ ⊔ κ)
Exec S A = S → Result A × S

module _ {ℓ κ} {S : Type ℓ} {A : Type κ} where
  abbrev pub pure : A → Exec S A
  pure a s = (ok a, s)

  abbrev pub fail : Error → Exec S A
  fail e s = (err e, s)

  abbrev pub lift : Result A → Exec S A
  lift r s = (r, s)

  abbrev pub gets : (S → A) → Exec S A
  gets f s = (ok (f s), s)

module _ {ℓ} {S : Type ℓ} where
  abbrev pub modify : (S → S) → Exec S (Unit {0})
  modify f s = (ok tt, f s)

module _ {ℓ κ μ} {S : Type ℓ} {A : Type κ} {B : Type μ} where
  abbrev pub continue : Result A → (A → Exec S B) → Exec S B
  continue (ok a) f s = f a s
  continue (err e) f s = (err e, s)
  continue panic f s = (panic, s)

  infixl 5 ◌>>=◌
  unfoldable pub ◌>>=◌ : Exec S A → (A → Exec S B) → Exec S B
  ◌>>=◌ m f s = continue (m s).0 f (m s).1

module _ {ℓ κ} {S : Type ℓ} {B : Type κ} where
  infixl 5 ◌>>◌
  abbrev pub ◌>>◌ : Exec S (Unit {0}) → Exec S B → Exec S B
  m >> k = m >>= λ _. k

module _ {ℓ κ μ} {S : Type ℓ} {A : Type κ} {B : Type μ} where
  -- One step of a `do` block, from the outcome of its first part.
  pub bind-ok :
      (m : Exec S A) (f : A → Exec S B) (s : S) {a : A} {s' : S}
      → m s ≡ (ok a, s')
      → (m >>= f) s ≡ f a s'
  unfolding ◌>>=◌
  bind-ok m f s e = rw e

module _ {ℓ κ μ} {S : Type ℓ} {A : Type κ} {B : Type μ} where
  pub bind_fails :
      (m : Exec S A) (f : A → Exec S B) (s s' : S) (e : Error)
      → m s ≡ (err e, s')
      → (m >>= f) s ≡ (err e, s')
  unfolding ◌>>=◌
  bind_fails m f s s' e h = rw h

  bind-err :
      (m : Exec S A) (f : A → Exec S B) (s : S) (e : Error)
      → (m s).0 ≡ err e
      → ((m >>= f) s).0 ≡ err e
  unfolding ◌>>=◌
  bind-err m f s e h = rw h

  bind-panic : (m : Exec S A) (f : A → Exec S B) (s : S) → (m s).0 ≡ panic → ((m >>= f) s).0 ≡ panic
  unfolding ◌>>=◌
  bind-panic m f s h = rw h

  -- Where all of a `do` block succeeds, its first part does.
  pub bind_done :
      (m : Exec S A) (f : A → Exec S B) (s : S) (b : B) (r : Result A)
      → (m s).0 ≡ r
      → ((m >>= f) s).0 ≡ ok b
      → (a : A) × (r ≡ ok a)
  bind_done m f s b (ok a) h done = (a, refl)
  bind_done m f s b (err e) h done = cc (bind-err m f s e h)
  bind_done m f s b panic h done = cc (bind-panic m f s h)

module _ {ℓ κ μ} {S : Type ℓ} {A : Type κ} {B : Type μ} where
  pub bind_then :
      (m : Exec S A) (f : A → Exec S B) (s : S) (a : A) → (m s).0 ≡ ok a → (m >>= f) s ≡ f a (m s).1
  bind_then m f s a e = bind-ok m f s (λ i. (e i, (m s).1))

  -- The two steps of a `do` block that succeeds.
  pub bind_inv :
      (m : Exec S A) (f : A → Exec S B) (s : S) (b : B)
      → ((m >>= f) s).0 ≡ ok b
      → (a : A) × ((m s).0 ≡ ok a) × ((m >>= f) s ≡ f a (m s).1) × ((f a (m s).1).0 ≡ ok b)
  bind_inv m f s b done =
      let (a, e) = bind_done m f s b _ refl done in
      let step = bind_then m f s a e in (a, e, step, ap (λ x. x.0) (sym step) ∙ done)

module _ {ℓ κ μ ν} {S : Type ℓ} {A : Type κ} {B : Type μ} (P : S → Type ν) where
  continue_keeps :
      (r : Result A) (f : A → Exec S B) (s : S)
      → ((a : A) (s : S) → P s → P (f a s).1)
      → P s
      → P (continue r f s).1
  continue_keeps (ok a) f s h p = h a s p
  continue_keeps (err e) f s h p = p
  continue_keeps panic f s h p = p

  -- What both steps of a `do` block keep, whatever they answer, the block keeps.
  pub bind_keeps :
      (m : Exec S A) (f : A → Exec S B)
      → ((s : S) → P s → P (m s).1)
      → ((a : A) (s : S) → P s → P (f a s).1)
      → (s : S) → P s
      → P ((m >>= f) s).1
  unfolding ◌>>=◌
  bind_keeps m f g h s p = continue_keeps (m s).0 f (m s).1 h (g s p)

module _ {ℓ κ μ} {S : Type ℓ} {T : Type κ} {A : Type μ} where
  -- A method of the second of two objects.
  abbrev pub on_snd : Exec T A → Exec (S × T) A
  on_snd m (s, t) = let (r, t') = m t in (r, (s, t'))

  -- A method of the first of two objects.
  abbrev pub on_fst : Exec S A → Exec (S × T) A
  on_fst m (s, t) = let (r, s') = m s in (r, (s', t))

module _ {ℓ κ} {S : Type ℓ} {A : Type κ} where
  -- `ok_or(e)?`.
  abbrev pub some_or_fail : Option A → Error → Exec S A
  some_or_fail none e s = (err e, s)
  some_or_fail (some a) e s = (ok a, s)
