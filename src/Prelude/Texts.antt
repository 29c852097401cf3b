-- ===== src/Prelude/Texts.antt =====
-- Lists of strings as sets.
use Prim.Native.String.{String}
use mathlib.Core.Bool.{Bool, true, not, ◌&&◌}
use mathlib.Core.List.{List, [], ◌∷◌}
use text.Mathlib.Text.{◌==◌}
use entourage.Prelude.Lists.{any, All}
use entourage.Prelude.Tests.{if◌then◌else◌, Bool-cases}
use text.Mathlib.TextEquality.{eq_iff}
use native.Mathlib.Omega.{arith}
use mathlib.Core.Path.{◌≡◌, subst}
use mathlib.Core.Logic.{inl, inr}

-- `t in ts`.
abbrev pub mem_text : String → List String → Bool
mem_text t ts = any (λ s. s == t) ts

abbrev pub distinct_text : List String → Bool
distinct_text [] = true
distinct_text (s ∷ ss) = not (mem_text s ss) && distinct_text ss

-- `set(ts)`, without the duplicates.
abbrev pub distinct_of : List String → List String
distinct_of [] = []
distinct_of (s ∷ ss) = let rest = distinct_of ss in if mem_text s ss then rest else s ∷ rest

-- What holds of every text of a list holds of a text that is in it.
pub All-mem_text {ℓ} :
    (P : String → Type ℓ) (ts : List String) (t : String) → All P ts → mem_text t ts ≡ true → P t
All-mem_text P [] t h among = cc
All-mem_text P (s ∷ ss) t h among = elim (Bool-cases (s == t)) [
  | inl same ↦ subst P ((eq_iff s t).0 same) h.0
  | inr differs ↦ All-mem_text P ss t h.1 (ground (arith, differs))
]
