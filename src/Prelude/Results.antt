-- ===== src/Prelude/Results.antt =====
-- Calls that may raise: what a call comes to, sequencing in `do` blocks, and guards.
use mathlib.Core.Path.{◌≡◌, refl, ap, ◌∙◌}
use mathlib.Core.Logic.{◌⊎◌, inl, inr}
use mathlib.Core.Bool.{Bool, true, false}

-- What a call comes to, where `E` is the type of the exceptions.
pub data Result {ε ℓ} (E : Type ε) (A : Type ℓ) : Type (ε ⊔ ℓ) where
  raises : E → Result E A
  returns : A → Result E A

module _ {ε} {E : Type ε} where
  -- `if not test: raise e`.
  abbrev pub require : Bool → E → Result E (Unit {0})
  require false e = raises e
  require true e = returns tt

  pub require-inv : (test : Bool) (e : E) {u : Unit {0}} → require test e ≡ returns u → test ≡ true
  require-inv false e raised = cc
  require-inv true e raised = refl

module _ {ε ℓ κ} {E : Type ε} {A : Type ℓ} {B : Type κ} where
  infixl 5 ◌>>=◌
  abbrev pub ◌>>=◌ : Result E A → (A → Result E B) → Result E B
  raises e >>= rest = raises e
  returns x >>= rest = rest x

  -- A sequence that returns: its first part returned, and so did the rest on what that gave.
  pub >>=-inv :
      (first : Result E A) (rest : A → Result E B) {y : B}
      → (first >>= rest) ≡ returns y
      → (x : A) × (first ≡ returns x) × (rest x ≡ returns y)
  >>=-inv (raises e) rest h = cc
  >>=-inv (returns x) rest h = (x, refl, h)

module _ {ε ℓ κ} {E : Type ε} {A : Type ℓ} {B : Type κ} where
  pointwise :
      (first : Result E A) {rest rest' : A → Result E B}
      → ((x : A) → rest x ≡ rest' x)
      → (first >>= rest) ≡ (first >>= rest')
  pointwise (raises e) each = refl
  pointwise (returns x) each = each x

  -- Equal first parts and equal rests give equal sequences.
  pub >>=-congruent :
      {first first' : Result E A} {rest rest' : A → Result E B}
      → first ≡ first'
      → ((x : A) → rest x ≡ rest' x)
      → (first >>= rest) ≡ (first' >>= rest')
  >>=-congruent {first' = first'} {rest = rest} same each =
      ap (λ r. r >>= rest) same ∙ pointwise first' each

module _ {ε ℓ} {E : Type ε} {B : Type ℓ} where
  infixl 5 ◌>>◌
  abbrev pub ◌>>◌ : Result E (Unit {0}) → Result E B → Result E B
  first >> rest = first >>= λ done. rest

  -- A guarded call that returns: the guard held.
  pub >>-inv :
      (test : Bool) (e : E) (rest : Result E B) {y : B}
      → (require test e >> rest) ≡ returns y
      → (test ≡ true) × (rest ≡ returns y)
  >>-inv true e rest h = (refl, h)
  >>-inv false e rest h = cc

pub Result-cases {ε ℓ} :
    {E : Type ε} {A : Type ℓ} (r : Result E A)
    → ((x : A) × (r ≡ returns x)) ⊎ ((e : E) × (r ≡ raises e))
Result-cases (returns x) = inl (x, refl)
Result-cases (raises e) = inr (e, refl)
