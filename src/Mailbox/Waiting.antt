-- ===== src/Mailbox/Waiting.antt =====
-- How long a waiter may sleep (`_next_lease_delay` of entourage/mailbox.py).
use entourage.Prelude.{
  ℕ, ◌+◌, ◌-◌, ◌<◌, String, Option, none, some, List, [], ◌∷◌, false, ◌≡◌, refl, any, leb, arith,
  inl, inr, Option-cases,
}
use entourage.Mailbox.Types.{Mailbox, Item, claimable}
use entourage.Mailbox.Queue.{items_of, has_claimable, expiry, soonest, next_lease_delay}

item_without_expiry :
    (now u : ℕ) (i : Item) → claimable now i ≡ false → expiry i ≡ none → claimable u i ≡ false
item_without_expiry now u i h e = ground (arith, h, e)

item_with_expiry :
    (now u t : ℕ) (i : Item)
    → claimable now i ≡ false
    → expiry i ≡ some t
    → (now < t) × (claimable u i ≡ leb t u)
item_with_expiry now u t i h e = ground (arith, h, e)

-- Without a lease, nothing becomes claimable by waiting.
never_by_itself :
    (now u : ℕ) (items : List Item)
    → any (claimable now) items ≡ false
    → soonest items ≡ none
    → any (claimable u) items ≡ false
unfolding soonest
never_by_itself now u [] h e = refl
never_by_itself now u (i ∷ items) h e = elim (Option-cases (expiry i)) [
  | inl without ↦ ground (
    arith,
    h,
    e,
    without,
    item_without_expiry now u i (ground (arith, h)) without,
    never_by_itself now u items (ground (arith, h)),
  )
  | inr (t, with_lease) ↦ elim (Option-cases (soonest items)) [
    | inl last ↦ absurd (ground (arith, e, with_lease, last))
    | inr (v, more) ↦ absurd (ground (arith, e, with_lease, more))
  ]
]

claimable_from :
    (now u t : ℕ) (items : List Item)
    → any (claimable now) items ≡ false
    → soonest items ≡ some t
    → (now < t) × (any (claimable u) items ≡ leb t u)
unfolding soonest
claimable_from now u t [] h e = cc
claimable_from now u t (i ∷ items) h e =
    let here : claimable now i ≡ false = ground (arith, h) in
    let rest : any (claimable now) items ≡ false = ground (arith, h) in
    elim (Option-cases (expiry i)) [
      | inl without ↦
          let more : soonest items ≡ some t = ground (arith, e, without) in
          ground (
            arith,
            item_without_expiry now u i here without,
            claimable_from now u t items rest more,
          )
      | inr (s, with_lease) ↦
          let first = item_with_expiry now u s i here with_lease in
          elim (Option-cases (soonest items)) [
            | inl last ↦
                ground (arith, e, with_lease, last, first, never_by_itself now u items rest last)
            | inr (v, more) ↦
                ground (arith, e, with_lease, more, first, claimable_from now u v items rest more)
          ]
    ]

-- When nothing is claimable and `_next_lease_delay` gives a delay, the delay is exact: without other
-- calls something is claimable at a time if and only if the delay has passed by then.
pub lease_delay_exact :
    (mb : Mailbox) (conversation_id : Option String) (now delay u : ℕ)
    → has_claimable mb conversation_id now ≡ false
    → next_lease_delay mb conversation_id now ≡ some delay
    → has_claimable mb conversation_id u ≡ leb (now + delay) u
unfolding has_claimable next_lease_delay
lease_delay_exact mb conversation_id now delay u h e =
    elim (Option-cases (soonest (items_of mb conversation_id))) [
      | inl nothing ↦ absurd (ground (arith, e, nothing))
      | inr (t, found) ↦
          let from = claimable_from now u t (items_of mb conversation_id) h found in
          let same : t - now ≡ delay = ground (arith, e, found) in
          let sum : now + delay ≡ t = ground (arith, same, from.0) in rw sum from.1
    ]
