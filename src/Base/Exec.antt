-- ===== src/Base/Exec.antt =====
-- Code that changes a store and may fail: what was written before an error stays written.
use mathlib.Core.Path.{◌≡◌, refl}
use mathlib.Core.Logic.{◌⊎◌, inl, inr}
use mathlib.Core.Bool.{Bool, true, false}
use allezon.Base.Compare.{if◌then◌else◌}
use allezon.Base.Outcome.{Error, Result, ok, err, panic, wrapped}

abbrev pub Exec {ℓ κ} : Type ℓ → Type κ → Type (ℓ ⊔ κ)
Exec S A = S → Result A × S

abbrev pub continue {ℓ κ} :
    {S : Type ℓ} {A B : Type κ} → Result A → (A → Exec S B) → S → Result B × S
continue (ok a) f s = f a s
continue (err e) f s = (err e, s)
continue panic f s = (panic, s)

infixl 5 ◌>>=◌ ◌>>◌
abbrev pub ◌>>=◌ {ℓ κ} : {S : Type ℓ} {A B : Type κ} → Exec S A → (A → Exec S B) → Exec S B
◌>>=◌ m f s = continue (m s).0 f (m s).1

abbrev pub ◌>>◌ {ℓ κ} : {S : Type ℓ} {A B : Type κ} → Exec S A → Exec S B → Exec S B
m >> n = m >>= λ _. n

abbrev pub return {ℓ κ} : {S : Type ℓ} {A : Type κ} → A → Exec S A
return a s = (ok a, s)

abbrev pub lift {ℓ κ} : {S : Type ℓ} {A : Type κ} → Result A → Exec S A
lift r s = (r, s)

abbrev pub throw {ℓ κ} : {S : Type ℓ} {A : Type κ} → Error → Exec S A
throw e s = (err e, s)

-- A read, which leaves the store as it is.
abbrev pub reads {ℓ κ} : {S : Type ℓ} {A : Type κ} → (S → Result A) → Exec S A
reads f s = (f s, s)

-- `if err != nil { … }`: the handler sees the error, and runs in the store that was left.
abbrev pub handle {ℓ κ} :
    {S : Type ℓ} {A : Type κ} → Result A → (Error → Exec S A) → S → Result A × S
handle (ok a) h s = (ok a, s)
handle (err e) h s = h e s
handle panic h s = (panic, s)

abbrev pub catch {ℓ κ} : {S : Type ℓ} {A : Type κ} → Exec S A → (Error → Exec S A) → Exec S A
catch m h s = handle (m s).0 h (m s).1

-- `return fmt.Errorf("… %w", err)`
abbrev pub wrapping {ℓ κ} : {S : Type ℓ} {A : Type κ} → Exec S A → Exec S A
wrapping m = catch m (λ e. throw (wrapped e))

module _ {ℓ} {S A : Type ℓ} where
  handled_ok :
      (o : Result A × S) (a : A) (s' : S)
      → handle o.0 (λ e. throw (wrapped e)) o.1 ≡ (ok a, s')
      → o ≡ (ok a, s')
  handled_ok (ok b, s) a s' h = h
  handled_ok (err e, s) a s' h = cc
  handled_ok (panic, s) a s' h = cc

  -- Wrapping an error leaves a success as it is.
  pub wrapping-ok :
      (m : Exec S A) (s : S) (a : A) (s' : S) → wrapping m s ≡ (ok a, s') → m s ≡ (ok a, s')
  wrapping-ok m s a s' h = handled_ok (m s) a s' h

module _ {ℓ} {S A B : Type ℓ} where
  continued_ok :
      (o : Result A × S) (f : A → Exec S B) (b : B) (s' : S)
      → continue o.0 f o.1 ≡ (ok b, s')
      → (a : A) × (s : S) × (o ≡ (ok a, s)) × (f a s ≡ (ok b, s'))
  continued_ok (ok a, s) f b s' h = (a, s, refl, h)
  continued_ok (err e, s) f b s' h = cc
  continued_ok (panic, s) f b s' h = cc

  -- A sequence succeeds by the success of both parts.
  pub >>=-ok :
      (m : Exec S A) (f : A → Exec S B) (s : S) (b : B) (s' : S)
      → (m >>= f) s ≡ (ok b, s')
      → (a : A) × (s₁ : S) × (m s ≡ (ok a, s₁)) × (f a s₁ ≡ (ok b, s'))
  >>=-ok m f s b s' h = continued_ok (m s) f b s' h

module _ {ℓ} {S A : Type ℓ} where
  handle_ok :
      (o : Result A × S) (h : Error → Exec S A) (a : A) (s' : S)
      → handle o.0 h o.1 ≡ (ok a, s')
      → (o ≡ (ok a, s')) ⊎ ((e : Error) × (s : S) × (o ≡ (err e, s)) × (h e s ≡ (ok a, s')))
  handle_ok (ok b, s) h a s' p = inl p
  handle_ok (err e, s) h a s' p = inr (e, s, refl, p)
  handle_ok (panic, s) h a s' p = cc

  -- A handled action succeeds by itself, or by its handler.
  pub catch-ok :
      (m : Exec S A) (h : Error → Exec S A) (s : S) (a : A) (s' : S)
      → catch m h s ≡ (ok a, s')
      → (m s ≡ (ok a, s')) ⊎ ((e : Error) × (s₁ : S) × (m s ≡ (err e, s₁)) × (h e s₁ ≡ (ok a, s')))
  catch-ok m h s a s' p = handle_ok (m s) h a s' p

  pub throw-not_ok : (e : Error) (s : S) (a : A) (s' : S) → throw e s ≡ (ok a, s') → ⊥
  throw-not_ok e s a s' h = cc

  pub throws-not_ok :
      (b : Bool) (e e' : Error) (s : S) (a : A) (s' : S)
      → (if b then throw e else throw e') s ≡ (ok a, s')
      → ⊥
  throws-not_ok true e e' s a s' h = cc
  throws-not_ok false e e' s a s' h = cc

  pub return-ok : (a b : A) (s s' : S) → return a s ≡ (ok b, s') → (a ≡ b) × (s' ≡ s)
  return-ok a b s s' h = (cc, cc)

module _ {ℓ} {S A B : Type ℓ} where
  mapped_err :
      (o : Result A × S) (f : A → B) (e : Error) (s' : S)
      → continue o.0 (λ a. return (f a)) o.1 ≡ (err e, s')
      → o ≡ (err e, s')
  mapped_err (ok a, s) f e s' h = cc
  mapped_err (err d, s) f e s' h = cc
  mapped_err (panic, s) f e s' h = cc

  -- To map a result adds no error.
  pub return-err :
      (m : Exec S A) (f : A → B) (s : S) (e : Error) (s' : S)
      → (m >>= λ a. return (f a)) s ≡ (err e, s')
      → m s ≡ (err e, s')
  return-err m f s e s' h = mapped_err (m s) f e s' h

  continued_err :
      (o : Result A × S) (f : A → Exec S B) (e : Error) (s' : S)
      → continue o.0 f o.1 ≡ (err e, s')
      → (o ≡ (err e, s')) ⊎ ((a : A) × (s : S) × (o ≡ (ok a, s)) × (f a s ≡ (err e, s')))
  continued_err (ok a, s) f e s' h = inr (a, s, refl, h)
  continued_err (err d, s) f e s' h = inl (cc)
  continued_err (panic, s) f e s' h = cc

  -- A sequence fails by its first part, or by its second after the first succeeded.
  pub >>=-err :
      (m : Exec S A) (f : A → Exec S B) (s : S) (e : Error) (s' : S)
      → (m >>= f) s ≡ (err e, s')
      → (m s ≡ (err e, s')) ⊎ ((a : A) × (s₁ : S) × (m s ≡ (ok a, s₁)) × (f a s₁ ≡ (err e, s')))
  >>=-err m f s e s' h = continued_err (m s) f e s' h

module _ {ℓ} {S A : Type ℓ} where
  handle_err :
      (o : Result A × S) (h : Error → Exec S A) (e : Error) (s' : S)
      → handle o.0 h o.1 ≡ (err e, s')
      → (d : Error) × (s : S) × (o ≡ (err d, s)) × (h d s ≡ (err e, s'))
  handle_err (ok a, s) h e s' p = cc
  handle_err (err d, s) h e s' p = (d, s, refl, p)
  handle_err (panic, s) h e s' p = cc

  -- A handled action fails by its handler alone.
  pub catch-err :
      (m : Exec S A) (h : Error → Exec S A) (s : S) (e : Error) (s' : S)
      → catch m h s ≡ (err e, s')
      → (d : Error) × (s₁ : S) × (m s ≡ (err d, s₁)) × (h d s₁ ≡ (err e, s'))
  catch-err m h s e s' p = handle_err (m s) h e s' p

  pub lift-ok :
      (r : Result A) (s : S) (a : A) (s' : S) → lift r s ≡ (ok a, s') → (r ≡ ok a) × (s' ≡ s)
  lift-ok r s a s' h = (cc, cc)

  pub lift-err :
      (r : Result A) (s : S) (e : Error) (s' : S) → lift r s ≡ (err e, s') → (r ≡ err e) × (s' ≡ s)
  lift-err r s e s' h = (cc, cc)

  pub throw-err : (d e : Error) (s s' : S) → throw {A = A} d s ≡ (err e, s') → (d ≡ e) × (s' ≡ s)
  throw-err d e s s' h = (cc, cc)
