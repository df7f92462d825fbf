-- ===== src/Base/Keeps.antt =====
-- Code that leaves a part of the state as it is.
use mathlib.Core.Path.{◌≡◌, refl, ◌∙◌}
use allezon.Base.Outcome.{Error, Result, ok, err, panic, wrapped}
use allezon.Base.Exec.{Exec, ◌>>=◌, continue, handle, catch, throw, wrapping}

module _ {S V : Type 0} where
  -- An action that leaves the view `v` of the state as it is
  abbrev pub Keeps : {A : Type 0} → (S → V) → Exec S A → Type 0
  Keeps v m = (s : S) → v (m s).1 ≡ v s

module _ {S V A B : Type 0} (v : S → V) where
  continue-Keeps :
      (o : Result A × S) (f : A → Exec S B)
      → ((a : A) → Keeps v (f a))
      → v (continue o.0 f o.1).1 ≡ v o.1
  continue-Keeps (ok a, s) f h = h a s
  continue-Keeps (err e, s) f h = refl
  continue-Keeps (panic, s) f h = refl

  pub >>=-Keeps :
      (m : Exec S A) (f : A → Exec S B) → Keeps v m → ((a : A) → Keeps v (f a)) → Keeps v (m >>= f)
  >>=-Keeps m f h k s = continue-Keeps (m s) f k ∙ h s

module _ {S V A : Type 0} (v : S → V) where
  handle-Keeps :
      (o : Result A × S) (f : Error → Exec S A)
      → ((e : Error) → Keeps v (f e))
      → v (handle o.0 f o.1).1 ≡ v o.1
  handle-Keeps (ok a, s) f h = refl
  handle-Keeps (err e, s) f h = h e s
  handle-Keeps (panic, s) f h = refl

  pub catch-Keeps :
      (m : Exec S A) (f : Error → Exec S A)
      → Keeps v m
      → ((e : Error) → Keeps v (f e))
      → Keeps v (catch m f)
  catch-Keeps m f h k s = handle-Keeps (m s) f k ∙ h s

  pub wrapping-Keeps : (m : Exec S A) → Keeps v m → Keeps v (wrapping m)
  wrapping-Keeps m h = catch-Keeps m (λ e. throw (wrapped e)) h (λ e s. refl)
