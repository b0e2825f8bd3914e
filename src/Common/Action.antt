-- ===== src/Common/Action.antt =====
-- Methods that change an object and may raise: what was written before a raise stays written, so
-- the object comes back beside the exception too.
use hld_lld_interview_handbo.Prelude.{Bool, true, false, Option, none, some, ◌≡◌, ap}
use hld_lld_interview_handbo.Common.Error.{Error, Result, ok, err}

abbrev pub Action : Type 0 → Type 0 → Type 0
Action S A = S → Result A × S

module _ {S A : Type 0} where
  abbrev pub pure : A → Action S A
  pure a s = (ok a, s)

  abbrev pub raise : Error → Action S A
  raise e s = (err e, s)

  abbrev pub gets : (S → A) → Action S A
  gets f s = (ok (f s), s)

  abbrev pub or_raise : Option A → Error → Action S A
  or_raise none e = raise e
  or_raise (some a) e = pure a

  abbrev pub lift : Result A → Action S A
  lift r s = (r, s)

module _ {S : Type 0} where
  abbrev pub raise_if : Bool → Error → Action S (Unit {0})
  raise_if true e s = (err e, s)
  raise_if false e s = (ok tt, s)

  abbrev pub modify : (S → S) → Action S (Unit {0})
  modify f s = (ok tt, f s)

-- What follows a call that has ended with `r` and left the object at `s`.
abbrev pub continue : {S A B : Type 0} → Result A → (A → Action S B) → S → Result B × S
continue (ok a) f s = f a s
continue (err e) f s = (err e, s)

infixl 5 ◌>>=◌ ◌>>◌
abbrev pub ◌>>=◌ : {S A B : Type 0} → Action S A → (A → Action S B) → Action S B
◌>>=◌ m f s = let (r, s') = m s in continue r f s'

abbrev pub ◌>>◌ : {S A B : Type 0} → Action S A → Action S B → Action S B
m >> n = m >>= λ _. n

module _ {S A B : Type 0} (m : Action S A) (f : A → Action S B) (s : S) {s' : S} where
  pub bind-ok : {a : A} → m s ≡ (ok a, s') → (m >>= f) s ≡ f a s'
  bind-ok h = ap (λ r. continue r.0 f r.1) h

  pub bind-err : {e : Error} → m s ≡ (err e, s') → (m >>= f) s ≡ (err e, s')
  bind-err h = ap (λ r. continue r.0 f r.1) h
