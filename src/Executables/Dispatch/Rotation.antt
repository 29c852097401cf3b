-- ===== src/Executables/Dispatch/Rotation.antt =====
-- The rotation of `run_once` over the definitions (executables.py): no key is missing, and the
-- definition that was served is looked at last next time.
use entourage.Prelude.{
  ℕ, zero, suc, ◌+◌, ◌-◌, ◌%◌, ◌<◌, String, some, List, [], ◌∷◌, ◌++◌, true, ◌≡◌, refl, ap, ◌∙◌,
  ◌⊎◌, inl, inr, arith, raises, Result-cases, Bool-cases, Option-cases, Dict, Entry, lookup,
  is_some, ◌==◌, eq_refl, map, length, ltb,
}
use native.Mathlib.Nat.{mod-eq_of_lt, mod-eq-sub-mod}
use entourage.Sessions.Types.{Store, Activation, Seconds}
use entourage.Executables.Types.{Dispatcher, Failure, Policy, Served, Upgrade, overflow_error}
use entourage.Executables.Registry.{policy, names, taken}
use entourage.Executables.Registry.Consistent.{IsConsistent}
use entourage.Executables.Dispatch.{Readings, nth, service, attempt_step, give_back, backoff, serve}

pub nth_there {ℓ} :
    {A : Type ℓ} (n : ℕ) (xs : List A) → n < length xs → (x : A) × (nth n xs ≡ some x)
nth_there n [] h = absurd (omega arith)
nth_there zero (x ∷ xs) h = (x, refl)
nth_there (suc n) (x ∷ xs) h = nth_there n xs (omega arith)

-- Every name of the list is a key of one of the two tables.
key_there {ℓ} :
    {V : Type ℓ} (n : ℕ) (es : Dict V) (name : String)
    → nth n (map (λ (e : Entry V). e.key) es) ≡ some name
    → is_some (lookup name es) ≡ true
unfolding lookup
key_there n [] name h = cc
key_there zero (e ∷ es) name h =
    let same : e.key ≡ name = ground (arith, h) in
    ground (arith, ap (λ t. e.key == t) same, eq_refl e.key)
key_there (suc n) (e ∷ es) name h = ground (arith, key_there n es name h)

nth-append {ℓ} :
    {A : Type ℓ} (n : ℕ) (xs ys : List A) (x : A)
    → nth n (xs ++ ys) ≡ some x
    → (nth n xs ≡ some x) ⊎ ((m : ℕ) × (nth m ys ≡ some x))
nth-append n [] ys x h = inr (n, h)
nth-append zero (z ∷ xs) ys x h = inl h
nth-append (suc n) (z ∷ xs) ys x h = nth-append n xs ys x h

pub name_taken :
    (d : Dispatcher) (n : ℕ) (name : String) → nth n (names d) ≡ some name → taken d name ≡ true
name_taken d n name h =
    elim (nth-append n (map (λ (e : Entry Served). e.key) d.definitions)
      (map (λ (e : Entry Upgrade). e.key) d.upgrades) name h) [
        | inl first ↦ ground (arith, key_there n d.definitions name first)
        | inr (m, second) ↦ ground (arith, key_there m d.upgrades name second)
      ]

pub policy_there :
    (d : Dispatcher) (name : String)
    → IsConsistent d
    → taken d name ≡ true
    → (p : Policy) × (policy d name ≡ some p)
unfolding policy
policy_there d name v t = elim (Option-cases (lookup name d.definitions)) [
  | inr (s, served) ↦ elim (Option-cases (lookup name d.policies)) [
    | inr (p, found) ↦ (p, rw (served, policy) found)
    | inl missing ↦ absurd (ground (arith, missing, served, v.served name))
  ]
  | inl not_served ↦ elim (Option-cases (lookup name d.upgrades)) [
    | inl nothing ↦ absurd (ground (arith, not_served, nothing, t))
    | inr (u, upgrade) ↦ elim (Option-cases (lookup u.target d.policies)) [
      | inr (p, found) ↦ (p, rw (not_served, upgrade, policy) found)
      | inl missing ↦ absurd (ground (arith, missing, v.served u.target, v.upgraded name u upgrade))
    ]
  ]
]

pub service_there :
    (d : Dispatcher) (name : String)
    → IsConsistent d
    → taken d name ≡ true
    → is_some (service d name) ≡ true
unfolding service
service_there d name v t = elim (Option-cases (lookup name d.definitions)) [
  | inr (s, served) ↦ rw (served, service) refl
  | inl not_served ↦ elim (Option-cases (lookup name d.upgrades)) [
    | inl nothing ↦ absurd (ground (arith, not_served, nothing, t))
    | inr (u, upgrade) ↦ elim (Option-cases (lookup u.target d.definitions)) [
      | inr (s, found) ↦ rw (not_served, upgrade, found, service) refl
      | inl missing ↦ absurd (ground (arith, missing, v.upgraded name u upgrade))
    ]
  ]
]

-- From the place after `index`, going round, `index` is the last place of `n`.
pub last_place : (index n : ℕ) → index < n → (suc index % n + (n - 1)) % n ≡ index
last_place index n h = elim (Bool-cases (ltb (suc index) n)) [
  | inl inside ↦
      let here : suc index % n ≡ suc index = mod-eq_of_lt (ground arith) in
      let beyond : (suc index + (n - 1)) % n ≡ (suc index + (n - 1) - n) % n =
        mod-eq-sub-mod {n = suc index + (n - 1)} {m = n} (ground arith) in
      let rest : suc index + (n - 1) - n ≡ index = ground arith in
      ap (λ k. (k + (n - 1)) % n) here ∙ (beyond ∙ (ap (λ k. k % n) rest ∙ mod-eq_of_lt h))
  | inr at_end ↦
      let over : suc index % n ≡ (suc index - n) % n =
        mod-eq-sub-mod {n = suc index} {m = n} (ground arith) in
      let nothing : suc index - n ≡ 0 = ground arith in
      let zero_mod : zero % n ≡ 0 = mod-eq_of_lt {n = 0} {m = n} (ground arith) in
      let last : 0 + (n - 1) ≡ index = ground arith in
      ap (λ k. (k + (n - 1)) % n) (over ∙ (ap (λ k. k % n) nothing ∙ zero_mod))
      ∙ (ap (λ k. k % n) last ∙ mod-eq_of_lt h)
]

module _ (repr : Failure → String) (second : ℕ) where
  -- The only failure of a release that the dispatcher does not log is the backoff's.
  give_back-raises :
      (db : Store) (a : Activation) (f : Failure) (lease : Seconds) (readings : Readings)
      (g : Failure)
      → give_back repr second db a f lease readings ≡ raises g
      → g ≡ overflow_error
  unfolding give_back backoff
  give_back-raises db a f (Seconds.seconds n) readings g h = ground (arith, h)
  give_back-raises db a f (Seconds.negative n) readings g h = ground (arith, h)
  give_back-raises db a f Seconds.not_finite readings g h = ground (arith, h)

  -- After a claim, a definition that has a handler raises nothing but the overflow of the backoff.
  pub serve-raises :
      (d : Dispatcher) (db : Store) (name : String) (p : Policy) (a : Activation)
      (readings : Readings) (g : Failure)
      → is_some (service d name) ≡ true
      → (serve repr second d db name p a readings).result ≡ raises g
      → g ≡ overflow_error
  unfolding serve
  serve-raises d db name p a readings g there h = elim (Option-cases (service d name)) [
    | inl missing ↦ absurd (ground (arith, there, missing))
    | inr (s, found) ↦ elim (Result-cases (attempt_step name s a db readings)) [
      | inl (db', done) ↦ absurd (ground (arith, h, found, done))
      | inr (f, broke) ↦
          elim (Result-cases (give_back repr second db a f p.lease_seconds readings)) [
            | inl (db', back) ↦ absurd (ground (arith, h, found, broke, back))
            | inr (over_f, over) ↦
                give_back-raises db a f p.lease_seconds readings g
                  (over ∙ ground (arith, h, found, broke, over))
          ]
    ]
  ]
