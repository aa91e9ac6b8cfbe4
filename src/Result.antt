-- ===== src/Result.antt =====
-- Python code that returns a value or raises: `err` carries the exception.
use i_breeze.Prelude.{◌≡◌, refl, Bool, true, false}

pub data Result {ℓ κ} (E : Type ℓ) (A : Type κ) : Type (ℓ ⊔ κ) where
  err : E → Result E A
  ok : A → Result E A

infixl 5 ◌>>=◌
abbrev pub ◌>>=◌ {ℓ κ ι} :
    {E : Type ℓ} {A : Type κ} {B : Type ι} → Result E A → (A → Result E B) → Result E B
err raised >>= rest = err raised
ok v >>= rest = rest v

infixl 5 ◌>>◌
abbrev pub ◌>>◌ {ℓ κ ι} :
    {E : Type ℓ} {A : Type κ} {B : Type ι} → Result E A → Result E B → Result E B
err raised >> rest = err raised
ok v >> rest = rest

-- `if not test: raise error`
abbrev pub guard {ℓ} : {E : Type ℓ} → Bool → E → Result E (Unit {0})
guard true error = ok tt
guard false error = err error

pub ok-injective {ℓ κ} :
    {E : Type ℓ} {A : Type κ} {a b : A} → ◌≡◌ {A = Result E A} (ok a) (ok b) → a ≡ b
ok-injective h = cc

module _ {ℓ κ ι} {E : Type ℓ} {A : Type κ} {B : Type ι} where
  -- A block that returned `b`: what its first step returned, and what followed.
  pub record Ran (x : Result E A) (rest : A → Result E B) (b : B) : Type (ℓ ⊔ κ ⊔ ι) where
    pub value : A
    pub first : x ≡ ok value
    pub after : rest value ≡ ok b

  pub bind-Ran :
      (x : Result E A) (rest : A → Result E B) {b : B} → (x >>= rest) ≡ ok b → Ran x rest b
  bind-Ran (ok v) rest h = record { value = v; first = refl; after = h }
  bind-Ran (err raised) rest h = cc

  -- The same for a first step whose value is not read.
  pub then-Ran :
      (x : Result E A) (rest : Result E B) {b : B}
      → (x >> rest) ≡ ok b
      → ((a : A) × (x ≡ ok a)) × (rest ≡ ok b)
  then-Ran (ok v) rest h = ((v, refl), h)
  then-Ran (err raised) rest h = cc

-- A guard that let the block go on.
pub guard-Ran {ℓ} :
    {E : Type ℓ} (test : Bool) (error : E) {u : Unit {0}} → guard test error ≡ ok u → test ≡ true
guard-Ran true error h = refl
guard-Ran false error h = cc
