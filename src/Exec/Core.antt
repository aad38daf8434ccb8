-- ===== src/Exec/Core.antt =====
-- The monad of effectful code, and the ways to leave it.
use infisical_entity_operato.Base.{ℕ, Option, none, some}
use infisical_entity_operato.Result.{Result, ok, err}
use infisical_entity_operato.Failure.{Error}
use infisical_entity_operato.Platform.{Run}

abbrev pub Exec : Type 0 → Type 0 → Type 0
Exec E A = Run → Result E A × Run

-- ctrl.Result and the error beside it
pub record Response : Type 0 where
  pub requeue_after : ℕ
  pub error : Option Error

module _ {E A : Type 0} where
  unfoldable pub pure : A → Exec E A
  pure a r = (ok a, r)

  unfoldable pub raise : E → Exec E A
  raise e r = (err e, r)

  unfoldable pub lift : Result E A → Exec E A
  lift x r = (x, r)

module _ {E A B : Type 0} where
  abbrev pub continue : Result E A → (A → Exec E B) → Exec E B
  continue (ok a) f r = f a r
  continue (err e) f r = (err e, r)

  infixl 10 ◌>>=◌ ◌>>◌
  unfoldable pub ◌>>=◌ : Exec E A → (A → Exec E B) → Exec E B
  ◌>>=◌ m f r = let (x, r') = m r in continue x f r'

  abbrev pub ◌>>◌ : Exec E A → Exec E B → Exec E B
  m >> n = m >>= λ _. n

module _ {E F A : Type 0} where
  -- `x, err := m`: the error is a value.
  unfoldable pub attempt : Exec E A → Exec F (Result E A)
  attempt m r = let (x, r') = m r in (ok x, r')

  abbrev pub leave : Result E A → (E → Exec F F) → Exec F A
  leave (ok a) h r = (ok a, r)
  leave (err e) h r = let (p, r') = h e r in (elim p [ ok f ↦ err f | err f ↦ err f ], r')

  -- `if err != nil { return h(err) }`
  unfoldable pub or_return : Exec E A → (E → Exec F F) → Exec F A
  or_return m h r = let (x, r') = m r in leave x h r'

  -- `if err != nil { return fmt.Errorf("...: %w", err) }`
  abbrev pub rename : Result E A → (E → F) → Result F A
  rename (ok a) f = ok a
  rename (err e) f = err (f e)

  unfoldable pub or_wrap : Exec E A → (E → F) → Exec F A
  or_wrap m f r = let (x, r') = m r in (rename x f, r')

-- A test that gives an error or nil
unfoldable pub check : {E : Type 0} → Option E → Exec E (Unit {0})
check none r = (ok tt, r)
check (some e) r = (err e, r)

-- What a handler answers: by its last line or by an early return.
unfoldable pub answer : Exec Response Response → Run → Response × Run
answer m r = let (x, r') = m r in (elim x [ ok p ↦ p | err p ↦ p ], r')
