-- ===== src/Exec/Keeps.antt =====
-- Invariants of handlers, one rule for each way to build one.
use pipe_line_gpt_backend.Prelude.{◌≡◌, refl, ap}
use pipe_line_gpt_backend.Exec.{
  Exec, Outcome, ok, err, pure, lift, gets, modify, after, recover, catch, ◌>>=◌,
}

-- `m` keeps `P`, whether it returns or raises.
pub record Keeps {S E A : Type 0} (P : S → Type 0) (m : Exec S E A) : Type 0 where
  pub at : (s : S) → P s → P (m s).1

module _ {S E A B : Type 0} {P : S → Type 0} where
  after-keeps :
      (r : Outcome E A) (s : S) (f : A → Exec S E B)
      → ((a : A) → r ≡ ok a → Keeps P (f a))
      → P s
      → P (after (r, s) f).1
  after-keeps (ok a) s f kf h = (kf a refl).at s h
  after-keeps (err e) s f kf h = h

  pub Keeps-bind :
      (m : Exec S E A) (f : A → Exec S E B)
      → Keeps P m
      → ((a : A) → Keeps P (f a))
      → Keeps P (m >>= f)
  Keeps-bind m f km kf = record {
    at = λ s h. after-keeps (m s).0 (m s).1 f (λ a _. kf a) (km.at s h);
  }

  -- The rest may use that the outcome that it waits for was not an error.
  pub Keeps-bind-lift :
      (r : Outcome E A) (f : A → Exec S E B)
      → ((a : A) → r ≡ ok a → Keeps P (f a))
      → Keeps P (lift r >>= f)
  Keeps-bind-lift r f kf = record { at = λ s h. after-keeps r s f kf h }

  -- The rest may use the run that it follows.
  pub Keeps-bind-run :
      (m : Exec S E A) (f : A → Exec S E B)
      → Keeps P m
      → ((s s' : S) (a : A) → m s ≡ (ok a, s') → Keeps P (f a))
      → Keeps P (m >>= f)
  Keeps-bind-run m f km kf = record {
    at = λ s h.
        after-keeps (m s).0 (m s).1 f (λ a e. kf s (m s).1 a (ap (λ r. (r, (m s).1)) e))
          (km.at s h);
  }

module _ {S E : Type 0} {P : S → Type 0} where
  pub Keeps-modify : (f : S → S) → ((s : S) → P s → P (f s)) → Keeps P (modify {E = E} f)
  Keeps-modify f k = record { at = k }

  pub Keeps-pure : {A : Type 0} (a : A) → Keeps P (pure {E = E} a)
  Keeps-pure a = record { at = λ s h. h }

  pub Keeps-gets : {A : Type 0} (f : S → A) → Keeps P (gets {E = E} f)
  Keeps-gets f = record { at = λ s h. h }

  pub Keeps-lift : {A : Type 0} (r : Outcome E A) → Keeps P (lift r)
  Keeps-lift r = record { at = λ s h. h }

  recover-keeps :
      {A : Type 0} (r : Outcome E A) (s : S) (h : E → Exec S E A)
      → ((e : E) → Keeps P (h e))
      → P s
      → P (recover (r, s) h).1
  recover-keeps (ok a) s h kh p = p
  recover-keeps (err e) s h kh p = (kh e).at s p

  pub Keeps-catch :
      {A : Type 0} (m : Exec S E A) (h : E → Exec S E A)
      → Keeps P m
      → ((e : E) → Keeps P (h e))
      → Keeps P (catch m h)
  Keeps-catch m h km kh = record { at = λ s p. recover-keeps (m s).0 (m s).1 h kh (km.at s p) }
