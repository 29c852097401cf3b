-- ===== src/Exchanges/Shuffles.antt =====
-- Two lists shuffled into one, each in its own order.
use entourage.Prelude.{List, [], ◌∷◌}

pub data Shuffle {ℓ} {A : Type ℓ} : List A → List A → List A → Type ℓ where
  empty : Shuffle [] [] []
  left : (x : A) {xs ys zs : List A} → Shuffle xs ys zs → Shuffle (x ∷ xs) ys (x ∷ zs)
  right : (y : A) {xs ys zs : List A} → Shuffle xs ys zs → Shuffle xs (y ∷ ys) (y ∷ zs)
