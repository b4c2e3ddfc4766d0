-- ===== src/Exec.antt =====
-- Handlers of the service: code that reads and writes a state and may raise. What a handler wrote
-- before it raised stays written, as the commits of the source do.
pub mod Keeps
use pipe_line_gpt_backend.Prelude.{
  String, ◌≡◌, refl, ◌⊎◌, inl, inr, ℕ, Bool, true, false, Option, none,
}

-- The outcome of a call: its value, or the exception that it raised.
pub data Outcome {ℓ} (E A : Type ℓ) : Type ℓ where
  ok : A → Outcome E A
  err : E → Outcome E A

-- To split on a computed outcome and keep the equation.
pub Outcome-cases {ℓ} :
    {E A : Type ℓ} (r : Outcome E A) → ((a : A) × (r ≡ ok a)) ⊎ ((e : E) × (r ≡ err e))
Outcome-cases (ok a) = inl (a, refl)
Outcome-cases (err e) = inr (e, refl)

-- One call after another, where neither changes the state.
abbrev pub and_then {ℓ} : {E A B : Type ℓ} → Outcome E A → (A → Outcome E B) → Outcome E B
and_then (ok a) f = f a
and_then (err e) f = err e

-- Where a sequence gives a value, each of its calls did.
pub and_then-ok {ℓ} :
    {E A B : Type ℓ} (r : Outcome E A) (f : A → Outcome E B) (b : B)
    → and_then r f ≡ ok b
    → (a : A) × (r ≡ ok a) × (f a ≡ ok b)
and_then-ok (ok a) f b h = (a, refl, h)
and_then-ok (err e) f b h = absurd cc

-- To split on a run of a handler.
pub Run-cases {ℓ} :
    {S E A : Type ℓ} (p : Outcome E A × S)
    → ((a : A) × (s : S) × (p ≡ (ok a, s))) ⊎ ((e : E) × (s : S) × (p ≡ (err e, s)))
Run-cases (ok a, s) = inl (a, s, refl)
Run-cases (err e, s) = inr (e, s, refl)

-- fastapi's HTTPException: the status code, the detail and the Retry-After header. Where the source
-- gives a dictionary as the detail, this is its "code".
pub record HttpError : Type 0 where
  pub code : ℕ
  pub detail : String
  pub retry_after : Option ℕ

abbrev pub http : ℕ → String → HttpError
http code detail = record { code = code; detail = detail; retry_after = none }

abbrev pub Exec {ℓ} : Type ℓ → Type ℓ → Type ℓ → Type ℓ
Exec S E A = S → Outcome E A × S

module _ {ℓ} {S E : Type ℓ} where
  abbrev pub pure : {A : Type ℓ} → A → Exec S E A
  pure a s = (ok a, s)

  abbrev pub raise : {A : Type ℓ} → E → Exec S E A
  raise e s = (err e, s)

  abbrev pub gets : {A : Type ℓ} → (S → A) → Exec S E A
  gets f s = (ok (f s), s)

  abbrev pub modify : (S → S) → Exec S E (Unit {ℓ})
  modify f s = (ok tt, f s)

  abbrev pub lift : {A : Type ℓ} → Outcome E A → Exec S E A
  lift r s = (r, s)

  abbrev pub after : {A B : Type ℓ} → Outcome E A × S → (A → Exec S E B) → Outcome E B × S
  after (ok a, s) f = f a s
  after (err e, s) f = (err e, s)

  infixl 5 ◌>>=◌ ◌>>◌
  abbrev pub ◌>>=◌ : {A B : Type ℓ} → Exec S E A → (A → Exec S E B) → Exec S E B
  ◌>>=◌ m f s = after (m s) f

  abbrev pub ◌>>◌ : {B : Type ℓ} → Exec S E (Unit {ℓ}) → Exec S E B → Exec S E B
  ◌>>◌ m k = m >>= λ _. k

  -- A guard that raises.
  abbrev pub raise_if : Bool → E → Exec S E (Unit {ℓ})
  raise_if true e s = (err e, s)
  raise_if false e s = (ok tt, s)

  -- `try: m / except Exception as e: h e`; what `m` wrote stays.
  abbrev pub recover : {A : Type ℓ} → Outcome E A × S → (E → Exec S E A) → Outcome E A × S
  recover (ok a, s) h = (ok a, s)
  recover (err e, s) h = h e s

  abbrev pub catch : {A : Type ℓ} → Exec S E A → (E → Exec S E A) → Exec S E A
  catch m h s = recover (m s) h
