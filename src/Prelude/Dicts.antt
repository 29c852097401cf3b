-- ===== src/Prelude/Dicts.antt =====
-- Python dictionaries with string keys, as lists of their items in insertion order.
use Prim.Native.String.{String}
use mathlib.Core.Path.{◌≡◌, refl, ap, sym, subst}
use mathlib.Core.Bool.{true, false, not}
use mathlib.Core.Logic.{inl, inr}
use mathlib.Core.Option.{Option, none, some}
use mathlib.Core.List.{List, [], ◌∷◌}
use native.Mathlib.Omega.{arith}
use text.Mathlib.Text.{◌==◌}
use entourage.Prelude.Lists.{select, update, All, All-select}
use text.Mathlib.TextEquality.{eq_iff}
use text.Mathlib.TextPositions.{eq_refl}
use entourage.Prelude.Tests.{if◌then◌else◌, Bool-cases}

pub record Entry {ℓ} (V : Type ℓ) : Type ℓ where
  pub key : String
  pub value : V

abbrev pub Dict {ℓ} : Type ℓ → Type ℓ
Dict V = List (Entry V)

module _ {ℓ} {V : Type ℓ} where
  -- `d.get(key)`.
  unfoldable pub lookup : String → Dict V → Option V
  lookup key [] = none
  lookup key (e ∷ es) = let rest = lookup key es in if e.key == key then some e.value else rest

  -- `d[key] = value`: in place, or as the last item.
  unfoldable pub assign : String → V → Dict V → Dict V
  assign key v [] = record { key = key; value = v } ∷ []
  assign key v (e ∷ es) =
      let rest = assign key v es in
      if e.key == key then record { key = key; value = v } ∷ es else e ∷ rest

  -- `d.pop(key, None)`.
  unfoldable pub pop : String → Dict V → Dict V
  pop key es = select (λ (e : Entry V). not (e.key == key)) es

  -- A change in place of the value at a key that is there.
  unfoldable pub change : String → (V → V) → Dict V → Dict V
  change key f es =
      update (λ (e : Entry V). e.key == key)
        (λ (e : Entry V). record { key = e.key; value = f e.value }) es

abbrev pub or_else {ℓ} : {A : Type ℓ} → A → Option A → A
or_else default none = default
or_else default (some a) = a

-- The values at a key after a change.
pub lookup-change {ℓ} :
    {V : Type ℓ} (key : String) (f : V → V) (es : Dict V)
    → lookup key (change key f es) ≡ elim (lookup key es) [ none ↦ none | some v ↦ some (f v) ]
unfolding lookup change update
lookup-change key f [] = refl
lookup-change key f (e ∷ es) = ground (arith, lookup-change key f es)

module _ {ℓ κ} {V : Type ℓ} (P : String → V → Type κ) where
  -- Every item of a dictionary satisfies `P`.
  abbrev pub Items : Dict V → Type κ
  Items es = All (λ (e : Entry V). P e.key e.value) es

  pub Items-lookup :
      (key : String) (es : Dict V) {v : V} → Items es → lookup key es ≡ some v → P key v
  unfolding lookup
  Items-lookup key [] h found = cc
  Items-lookup key (e ∷ es) {v} h found = elim (Bool-cases (e.key == key)) [
    | inl same ↦
        let value : e.value ≡ v = ground arith in
        subst (λ k. P k v) ((eq_iff e.key key).0 same) (subst (P e.key) value h.0)
    | inr other ↦ Items-lookup key es h.1 (ground arith)
  ]

  pub Items-change :
      (key : String) (f : V → V) (es : Dict V)
      → ((v : V) → P key v → P key (f v))
      → Items es
      → Items (change key f es)
  unfolding change update
  Items-change key f [] keep h = tt
  Items-change key f (e ∷ es) keep h = elim (Bool-cases (e.key == key)) [
    | inl same ↦
        let k = (eq_iff e.key key).0 same in
        rw same (
          subst (λ k. P k (f e.value)) (sym k) (keep e.value (subst (λ k. P k e.value) k h.0)),
          Items-change key f es keep h.1,
        )
    | inr other ↦ rw other (h.0, Items-change key f es keep h.1)
  ]

  pub Items-assign :
      (key : String) (v : V) (es : Dict V) → P key v → Items es → Items (assign key v es)
  unfolding assign
  Items-assign key v [] new h = (new, tt)
  Items-assign key v (e ∷ es) new h = elim (Bool-cases (e.key == key)) [
    | inl same ↦ rw same (new, h.1)
    | inr other ↦ rw other (h.0, Items-assign key v es new h.1)
  ]

  pub Items-pop : (key : String) (es : Dict V) → Items es → Items (pop key es)
  unfolding pop
  Items-pop key es h = All-select (λ (e : Entry V). P e.key e.value) _ es h

agree : (a b c : String) → (a == b) ≡ true → (a == c) ≡ (b == c)
agree a b c h = ap (λ s. s == c) ((eq_iff a b).0 h)

both : (a b c : String) → (a == b) ≡ false → (a == c) ≡ true → (b == c) ≡ false
both a b c h k = elim (Bool-cases (b == c)) [
  | inl e ↦
      absurd (ground (arith, h, agree a c b k, eq_refl c, agree b c c e, agree b c b e, eq_refl b))
  | inr e ↦ e
]

module _ {ℓ} {V : Type ℓ} where
  pub lookup-assign :
      (key other : String) (v : V) (es : Dict V)
      → lookup other (assign key v es) ≡ (if key == other then some v else lookup other es)
  unfolding lookup assign
  lookup-assign key other v [] = refl
  lookup-assign key other v (e ∷ es) = elim (Bool-cases (e.key == key)) [
    | inl same ↦ rw same ground (arith, agree e.key key other same)
    | inr differs ↦ elim (Bool-cases (e.key == other)) [
      | inl found ↦
          let absent = both e.key key other differs found in rw (differs, found, absent) refl
      | inr missed ↦ rw (differs, missed) (lookup-assign key other v es)
    ]
  ]

module _ {ℓ} {V : Type ℓ} where
  pub lookup-pop :
      (key other : String) (es : Dict V)
      → lookup other (pop key es) ≡ (if key == other then none else lookup other es)
  unfolding lookup pop select
  lookup-pop key other [] = ground arith
  lookup-pop key other (e ∷ es) = elim (Bool-cases (e.key == key)) [
    | inl same ↦ ground (arith, same, agree e.key key other same, lookup-pop key other es)
    | inr differs ↦ elim (Bool-cases (e.key == other)) [
      | inl found ↦ ground (arith, differs, found, both e.key key other differs found)
      | inr missed ↦ ground (arith, differs, missed, lookup-pop key other es)
    ]
  ]

module _ {ℓ} {V : Type ℓ} where
  -- A change at one key leaves the others.
  pub lookup-change_other :
      (key other : String) (f : V → V) (es : Dict V)
      → (key == other) ≡ false
      → lookup other (change key f es) ≡ lookup other es
  unfolding lookup change update
  lookup-change_other key other f [] h = refl
  lookup-change_other key other f (e ∷ es) h = elim (Bool-cases (e.key == key)) [
    | inl same ↦
        ground (arith, h, same, agree e.key key other same, lookup-change_other key other f es h)
    | inr differs ↦ ground (arith, differs, lookup-change_other key other f es h)
  ]
