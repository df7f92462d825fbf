-- ===== src/Container/Invariant.antt =====
-- Invariants of actions, for src/pkg/container/container.go.
use allezon.Base.{◌≡◌, ◌⊎◌, inl, inr, refl, Error, Result, ok, err, panic, wrapped}
use allezon.Base.Exec.{Exec, ◌>>=◌, throw, catch, wrapping, handle, continue}

-- An action keeps an invariant, unless it panics.
abbrev pub Preserves : {X A : Type 0} → (X → Type 0) → Exec X A → Type 0
Preserves {X} I m = (x : X) → I x → ((m x).0 ≡ panic) ⊎ I (m x).1

module _ {X : Type 0} (I : X → Type 0) where
  abbrev pub Fine : {A : Type 0} → Result A × X → Type 0
  Fine o = (o.0 ≡ panic) ⊎ I o.1

  continue-Fine :
      {A B : Type 0} (o : Result A × X) (f : A → Exec X B)
      → Fine o
      → ((a : A) → Preserves I (f a))
      → Fine (continue o.0 f o.1)
  continue-Fine (ok a, x) f (inl h) k = absurd cc
  continue-Fine (ok a, x) f (inr h) k = k a x h
  continue-Fine (err e, x) f (inl h) k = absurd cc
  continue-Fine (err e, x) f (inr h) k = inr h
  continue-Fine (panic, x) f h k = inl refl

  pub >>=-Preserves :
      {A B : Type 0} (m : Exec X A) (f : A → Exec X B)
      → Preserves I m
      → ((a : A) → Preserves I (f a))
      → Preserves I (m >>= f)
  >>=-Preserves m f h k x i = continue-Fine (m x) f (h x i) k

  handle-Fine :
      {A : Type 0} (o : Result A × X) (f : Error → Exec X A)
      → Fine o
      → ((e : Error) → Preserves I (f e))
      → Fine (handle o.0 f o.1)
  handle-Fine (ok a, x) f (inl h) k = absurd cc
  handle-Fine (ok a, x) f (inr h) k = inr h
  handle-Fine (err e, x) f (inl h) k = absurd cc
  handle-Fine (err e, x) f (inr h) k = k e x h
  handle-Fine (panic, x) f h k = inl refl

  pub catch-Preserves :
      {A : Type 0} (m : Exec X A) (f : Error → Exec X A)
      → Preserves I m
      → ((e : Error) → Preserves I (f e))
      → Preserves I (catch m f)
  catch-Preserves m f h k x i = handle-Fine (m x) f (h x i) k

  pub wrapping-Preserves : {A : Type 0} (m : Exec X A) → Preserves I m → Preserves I (wrapping m)
  wrapping-Preserves m h = catch-Preserves m (λ e. throw (wrapped e)) h (λ e x i. inr i)
