-- ===== src/Executables/Registry/Consistent.antt =====
-- The tables of a dispatcher fit together (`register` of executables.py), so that its loop never
-- misses a key.
use entourage.Prelude.{
  ℕ, String, Option, some, List, [], ◌∷◌, Bool, true, false, ◌≡◌, refl, ap, subst, ◌⊎◌, inl, inr,
  arith, returns, >>=-inv, >>-inv, Bool-cases, Option-cases, Dict, Entry, lookup, assign,
  lookup-assign, is_some, ◌==◌, eq_iff, eq_refl, any, not, ◌||◌, map, absent_or, or_else, ltb,
}
use entourage.Sessions.Types.{Store, Seconds}
use entourage.Sessions.Mailing.{bind_definition, positive}
use entourage.Executables.Context.{is_object}
use entourage.Executables.Types.{
  Executable, Contract, Served, Upgrade, Policy, Dispatcher, Handler, value_error,
}
use entourage.Executables.Registry.{
  contract, has_version, taken, add_upgrades, enrol, register, upgrade_names, store_call,
  is_positive, first_of,
}

-- Every served definition has a policy; every upgrade leads to a served definition; and no definition
-- is both served and upgraded away.
pub record IsConsistent (d : Dispatcher) : Type 0 where
  pub served :
      (name : String)
      → is_some (lookup name d.definitions) ≡ true
      → is_some (lookup name d.policies) ≡ true
  pub upgraded :
      (name : String) (u : Upgrade)
      → lookup name d.upgrades ≡ some u
      → is_some (lookup u.target d.definitions) ≡ true
  pub apart :
      (name : String)
      → is_some (lookup name d.definitions) ≡ true
      → is_some (lookup name d.upgrades) ≡ false

lookup-add_upgrades :
    (us : Dict Upgrade) (hs : Dict Handler) (target name : String) (u : Upgrade)
    → lookup name (add_upgrades us hs target) ≡ some u
    → (lookup name us ≡ some u)
      ⊎ ((u.target ≡ target)
          × (any (λ k. k == name) (map (λ (h : Entry Handler). h.key) hs) ≡ true))
unfolding add_upgrades
lookup-add_upgrades us [] target name u h = inl h
lookup-add_upgrades us (e ∷ hs) target name u h =
    elim (lookup-add_upgrades (assign e.key (record { migrate = e.value; target = target }) us) hs
      target name u h) [
        | inr (to, among) ↦ inr (to, ground (arith, among))
        | inl earlier ↦ elim (Bool-cases (e.key == name)) [
          | inl same ↦
              let new : lookup name
                    (assign e.key (record { migrate = e.value; target = target }) us)
                  ≡ some (record { migrate = e.value; target = target }) =
                ground (
                  arith,
                  lookup-assign e.key name (record { migrate = e.value; target = target }) us,
                  same,
                ) in
              inr (ground (arith, new, earlier), ground (arith, same))
          | inr differs ↦ inl (
              ground (
                arith,
                differs,
                earlier,
                lookup-assign e.key name (record { migrate = e.value; target = target }) us,
              ))
        ]
      ]

any-false :
    (p : String → Bool) (names : List String) (name : String)
    → any p names ≡ false
    → any (λ k. k == name) names ≡ true
    → p name ≡ false
any-false p [] name h among = cc
any-false p (k ∷ ks) name h among = elim (Bool-cases (k == name)) [
  | inl same ↦ ground (arith, h, ap p ((eq_iff k name).0 same))
  | inr differs ↦ any-false p ks name (ground (arith, h)) (ground (arith, among, differs))
]

enrol-IsConsistent :
    (d : Dispatcher) (e : Executable) (c : Contract) (p : Policy)
    → taken d e.definition ≡ false
    → any (taken d) (upgrade_names e) ≡ false
    → any (λ old. old == e.definition) (upgrade_names e) ≡ false
    → IsConsistent d
    → IsConsistent (enrol d e c p)
enrol-IsConsistent d e c p free old_free other h = record {
  served = λ name s.
      let entry : Served = record { handler = e.resume; contract = c } in
      elim (Bool-cases (e.definition == name)) [
        | inl same ↦ ground (arith, lookup-assign e.definition name p d.policies, same)
        | inr differs ↦ ground (
          arith,
          lookup-assign e.definition name p d.policies,
          lookup-assign e.definition name entry d.definitions,
          differs,
          s,
          h.served name,
        )
      ];
  upgraded = λ name u found.
      let entry : Served = record { handler = e.resume; contract = c } in
      elim (lookup-add_upgrades d.upgrades e.upgrades e.definition name u found) [
        | inr (to, among) ↦ ground (
          arith,
          lookup-assign e.definition u.target entry d.definitions,
          to,
          ap (λ t. e.definition == t) to,
          eq_refl e.definition,
        )
        | inl earlier ↦ ground (
          arith,
          lookup-assign e.definition u.target entry d.definitions,
          h.upgraded name u earlier,
        )
      ];
  apart = λ name s.
      let entry : Served = record { handler = e.resume; contract = c } in
      elim (Option-cases (lookup name (add_upgrades d.upgrades e.upgrades e.definition))) [
        | inl no_upgrade ↦ ground (arith, no_upgrade)
        | inr (u, found) ↦
            absurd (elim (lookup-add_upgrades d.upgrades e.upgrades e.definition name u found) [
              | inl earlier ↦ elim (Bool-cases (e.definition == name)) [
                | inl same ↦
                    ground (arith, free, earlier, ap (taken d) ((eq_iff e.definition name).0 same))
                | inr differs ↦ ground (
                  arith,
                  s,
                  earlier,
                  h.apart name,
                  differs,
                  lookup-assign e.definition name entry d.definitions,
                )
              ]
              | inr (to, among) ↦ elim (Bool-cases (e.definition == name)) [
                | inl same ↦ ground (
                  arith,
                  any-false (λ old. old == e.definition) (upgrade_names e) name other among,
                  ap (λ t. t == e.definition) ((eq_iff e.definition name).0 same),
                  eq_refl e.definition,
                )
                | inr differs ↦ ground (
                  arith,
                  s,
                  differs,
                  any-false (taken d) (upgrade_names e) name old_free among,
                  lookup-assign e.definition name entry d.definitions,
                )
              ]
            ])
      ];
}

any-or :
    (p q : String → Bool) (names : List String)
    → any (λ old. p old || q old) names ≡ false
    → any q names ≡ false
any-or p q [] h = refl
any-or p q (k ∷ ks) h = ground (arith, h, any-or p q ks)

contract-other :
    (e : Executable) {c : Contract}
    → contract e ≡ returns c
    → any (λ old. old == e.definition) (upgrade_names e) ≡ false
unfolding contract
contract-other e h =
    let (_, h₁) = >>-inv (has_version e.definition) value_error _ h in
    let (_, h₂) = >>-inv (ltb 0 e.state_schema) value_error _ h₁ in
    let (_, h₃) = >>-inv (is_object e.config) value_error _ h₂ in
    let (named, _) =
      >>-inv (not (any (λ old. old == "" || old == e.definition) (upgrade_names e))) value_error _
        h₃ in
    any-or (λ old. old == "") (λ old. old == e.definition) (upgrade_names e) (ground (arith, named))

-- A registration that is accepted keeps the tables of a dispatcher consistent: every served definition
-- has a policy, every upgrade leads to a served definition, and no definition is both served and
-- upgraded away.
pub register-IsConsistent :
    (dumps : Contract → String) (d : Dispatcher) (db : Store) (e : Executable)
    (lease_seconds : Option Seconds) (max_attempts : Option ℕ) (d' : Dispatcher) (db' : Store)
    → register dumps d db e lease_seconds max_attempts ≡ returns (d', db')
    → IsConsistent d
    → IsConsistent d'
unfolding register
register-IsConsistent dumps d db e lease_seconds max_attempts d' db' h v =
    let (_, h₁) = >>-inv (absent_or is_positive lease_seconds) value_error _ h in
    let (_, h₂) = >>-inv (positive max_attempts) value_error _ h₁ in
    let (free, h₃) = >>-inv (not (taken d e.definition)) value_error _ h₂ in
    let (old_free, h₄) = >>-inv (not (any (taken d) (upgrade_names e))) value_error _ h₃ in
    let (c, contracted, h₅) = >>=-inv (contract e) _ h₄ in
    let (bound, _, h₆) = >>=-inv (store_call (bind_definition db e.definition (dumps c))) _ h₅ in
    let p : Policy = record {
      lease_seconds = or_else d.lease_seconds lease_seconds;
      max_attempts = first_of max_attempts d.max_attempts;
    } in
    let same : enrol d e c p ≡ d' = ground (arith, h₆) in
    subst IsConsistent same (
      enrol-IsConsistent d e c p (ground (arith, free)) (ground (arith, old_free))
        (contract-other e contracted) v)
