-- ===== src/Common/Exec.antt =====
-- Methods that change an object and may raise. What was written before a raise stays written, so
-- the state comes back beside the error too.
use mathlib.Core.Path.{◌≡◌}
use query_x_engine.Common.Exceptions.{Error, Result, ok, raise}

abbrev pub Exec {ℓ} : Type ℓ → Type ℓ → Type ℓ
Exec S A = S → Result A × S

module _ {ℓ} {S A : Type ℓ} where
  abbrev pub pure : A → Exec S A
  pure a s = (ok a, s)

  abbrev pub throw : Error → Exec S A
  throw e s = (raise e, s)

  -- a call that changes nothing of the object
  abbrev pub lift : Result A → Exec S A
  lift r s = (r, s)

  abbrev pub gets : (S → A) → Exec S A
  gets field s = (ok (field s), s)

module _ {ℓ} {S A B : Type ℓ} where
  abbrev pub continue : Result A → (A → Exec S B) → Exec S B
  continue (raise error) next s = (raise error, s)
  continue (ok a) next s = next a s

  infixl 10 ◌>>=◌ ◌>>◌
  abbrev pub ◌>>=◌ : Exec S A → (A → Exec S B) → Exec S B
  ◌>>=◌ m f s = continue (m s).0 f (m s).1

  abbrev pub ◌>>◌ : Exec S A → Exec S B → Exec S B
  first >> second = first >>= λ _. second

module _ {ℓ} {S : Type ℓ} where
  abbrev pub modify : (S → S) → Exec S (Unit {ℓ})
  modify f s = (ok tt, f s)

-- a do block goes on from a call that has returned
pub continue-ok {ℓ} :
    {S A B : Type ℓ} {call : Result A × S} (f : A → Exec S B) {a : A} {s : S} {t : Result B × S}
    → call ≡ (ok a, s)
    → f a s ≡ t
    → continue call.0 f call.1 ≡ t
continue-ok f e h = rw e h
