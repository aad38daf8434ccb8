-- ===== src/Exec/Outcome.antt =====
-- What a run that ended well has gone through.
use infisical_entity_operato.Base.{
  arith, Bool, true, false, ◌⊎◌, inl, inr, if◌then◌else◌, ◌≡◌, refl, ap, Option, none, some,
}
use infisical_entity_operato.Result.{Result, ok, err}
use infisical_entity_operato.Platform.{Run}
use infisical_entity_operato.Exec.Core.{
  Exec, continue, ◌>>=◌, pure, attempt, check, lift, leave, or_return, or_wrap, rename,
}

module _ {E A B : Type 0} where
  continue-ok :
      (x : Result E A) (f : A → Exec E B) (r r' : Run) (b : B)
      → continue x f r ≡ (ok b, r')
      → (a : A) × (x ≡ ok a) × (f a r ≡ (ok b, r'))
  continue-ok (ok a) f r r' b h = (a, refl, h)
  continue-ok (err e) f r r' b h = ground arith

  -- The first part ended well, and the second one gave the result.
  pub bind-ok :
      (m : Exec E A) (f : A → Exec E B) (r r' : Run) (b : B)
      → (m >>= f) r ≡ (ok b, r')
      → (a : A) × (r1 : Run) × (m r ≡ (ok a, r1)) × (f a r1 ≡ (ok b, r'))
  unfolding ◌>>=◌
  bind-ok m f r r' b h =
      let (a, is, rest) = continue-ok (m r).0 f (m r).1 r' b h in
      (a, (m r).1, ap (λ x. (x, (m r).1)) is, rest)

pub check-ok :
    {E : Type 0} (o : Option E) (r r' : Run) → check o r ≡ (ok tt, r') → (o ≡ none) × (r ≡ r')
unfolding check
check-ok none r r' h = (refl, ap (λ p. p.1) h)
check-ok (some e) r r' h = ground arith

pub lift-ok :
    {E A : Type 0} (x : Result E A) (r r' : Run) (a : A)
    → lift x r ≡ (ok a, r')
    → (x ≡ ok a) × (r ≡ r')
unfolding lift
lift-ok x r r' a h = (ap (λ p. p.0) h, ap (λ p. p.1) h)

module _ {E F A : Type 0} where
  leave-ok :
      (x : Result E A) (h : E → Exec F F) (r r' : Run) (a : A)
      → leave x h r ≡ (ok a, r')
      → (x ≡ ok a) × (r ≡ r')
  leave-ok (ok b) h r r' a is = ground arith
  leave-ok (err e) h r r' a is = ground arith

  -- An early return is no result.
  pub or_return-ok :
      (m : Exec E A) (h : E → Exec F F) (r r' : Run) (a : A)
      → or_return m h r ≡ (ok a, r')
      → m r ≡ (ok a, r')
  unfolding or_return
  or_return-ok m h r r' a is =
      let (result, run) = leave-ok (m r).0 h (m r).1 r' a is in ground arith

module _ {E A : Type 0} where
  pub if-ok :
      (b : Bool) (m n : Exec E A) (r r' : Run) (a : A)
      → (if b then m else n) r ≡ (ok a, r')
      → ((b ≡ true) × (m r ≡ (ok a, r'))) ⊎ ((b ≡ false) × (n r ≡ (ok a, r')))
  if-ok true m n r r' a h = inl (refl, h)
  if-ok false m n r r' a h = inr (refl, h)

  pub pure-ok : (b : A) (r r' : Run) (a : A) → pure {E = E} b r ≡ (ok a, r') → (b ≡ a) × (r ≡ r')
  unfolding pure
  pure-ok b r r' a h = ground arith

-- The other way round: from the outcome of a part to that of the whole
pub bind_ok :
    {E A B : Type 0} (m : Exec E A) (f : A → Exec E B) (a : A) (r r1 : Run)
    → m r ≡ (ok a, r1)
    → (m >>= f) r ≡ f a r1
unfolding ◌>>=◌
bind_ok m f a r r1 h = rw h refl

pub or_return_ok :
    {E F A : Type 0} (m : Exec E A) (h : E → Exec F F) (a : A) (r r1 : Run)
    → m r ≡ (ok a, r1)
    → or_return m h r ≡ (ok a, r1)
unfolding or_return
or_return_ok m h a r r1 is = rw is refl

pub attempt_run :
    {E F A : Type 0} (m : Exec E A) (x : Result E A) (r r1 : Run)
    → m r ≡ (x, r1)
    → attempt {F = F} m r ≡ (ok x, r1)
unfolding attempt
attempt_run m x r r1 is = rw is refl

pub bind_err :
    {E A B : Type 0} (m : Exec E A) (f : A → Exec E B) (e : E) (r r1 : Run)
    → m r ≡ (err e, r1)
    → (m >>= f) r ≡ (err e, r1)
unfolding ◌>>=◌
bind_err m f e r r1 h = rw h refl

pub or_wrap_ok :
    {E F A : Type 0} (m : Exec E A) (f : E → F) (a : A) (r r1 : Run)
    → m r ≡ (ok a, r1)
    → or_wrap m f r ≡ (ok a, r1)
unfolding or_wrap
or_wrap_ok m f a r r1 is = rw is refl

pub or_wrap_err :
    {E F A : Type 0} (m : Exec E A) (f : E → F) (e : E) (r r1 : Run)
    → m r ≡ (err e, r1)
    → or_wrap m f r ≡ (err (f e), r1)
unfolding or_wrap
or_wrap_err m f e r r1 is = rw is refl

module _ {E F A : Type 0} where
  rename-ok : (x : Result E A) (f : E → F) (a : A) → rename x f ≡ ok a → x ≡ ok a
  rename-ok (ok b) f a h = ground arith
  rename-ok (err e) f a h = ground arith

  pub or_wrap-ok :
      (m : Exec E A) (f : E → F) (r r' : Run) (a : A)
      → or_wrap m f r ≡ (ok a, r')
      → m r ≡ (ok a, r')
  unfolding or_wrap
  or_wrap-ok m f r r' a h =
      let is = rename-ok (m r).0 f a (ap (λ p. p.0) h) in
      let run : (m r).1 ≡ r' = ap (λ p. p.1) h in ground arith

  pub attempt-ok :
      (m : Exec E A) (r r' : Run) (x : Result E A)
      → attempt {F = F} m r ≡ (ok x, r')
      → m r ≡ (x, r')
  unfolding attempt
  attempt-ok m r r' x h = ground arith
