-- ===== src/Mailbox/Senders.antt =====
-- What senders to a mailbox can rely on: an event id is taken once (entourage/mailbox.py).
use entourage.Prelude.{
  ℕ, String, Option, none, some, List, [], ◌∷◌, true, false, ◌≡◌, refl, sym, ap, ◌∙◌, All, lookup,
  lookup-assign, ◌==◌, eq_iff, eq_refl, arith, inl, inr, Bool-cases, Option-cases, returns, raises,
  subst, if◌then◌else◌, is_empty, select, not, mem_text, pop, change, ◌||◌, ltb, or_else, map, take,
}
use entourage.Mail.{Json, Event}
use entourage.Mailbox.Types.{Mailbox, Item, Seen, Duration, ticks, negative, queue, value_error}
use entourage.Mailbox.Queue.{
  append, event_id_of, deliver, new_item, claim, claim_any, oldest, acknowledge, release, all_found,
}
use entourage.Mailbox.Purge.{purge_acknowledged, remove_events, visited, purgeable_in, by_sequence}
use entourage.Mailbox.Valid.Calls.{known-grow}
use entourage.Mailbox.Run.{
  Call, appends, claims, claims_any, acknowledges, releases, purges, purges_keys, step, run,
}
use entourage.Mailbox.Delivery.{purges_no_keys}

-- The id is known as the conversation's.
abbrev Knows : String → String → Mailbox → Type 0
Knows id key mb =
    (seen : Seen) × (lookup id mb.event_ids ≡ some seen) × (seen.conversation_id ≡ key)

module _ (id key : String) where
  Knows-append :
      (mb : Mailbox) (other : String) (e : Event) (created : Option Json) (fresh : String)
      (now : Json) (seen_at : ℕ)
      → Knows id key mb
      → Knows id key (append mb other e created fresh now seen_at).0
  unfolding append
  Knows-append mb other e created fresh now seen_at k = elim (Bool-cases (other == "")) [
    | inl nameless ↦ rw (nameless, append) k
    | inr named ↦ elim (Option-cases (lookup (event_id_of e fresh) mb.event_ids)) [
      | inl new ↦
          rw (named, new, append)
            (k.0, known-grow mb.event_ids (event_id_of e fresh) id _ k.0 new k.1, k.2)
      | inr (seen, known) ↦ elim (Bool-cases (seen.conversation_id == other)) [
        | inl same ↦ rw (named, known, same, append) k
        | inr differs ↦ rw (named, known, differs, append) k
      ]
    ]
  ]

  Knows-claim :
      (mb : Mailbox) (other consumer : String) (limit : ℕ) (lease : Duration) (now : ℕ)
      → Knows id key mb
      → Knows id key (claim mb other consumer limit lease now).0
  unfolding claim
  Knows-claim mb other consumer limit negative now k = k
  Knows-claim mb other consumer limit (ticks n) now k =
      elim (Bool-cases (consumer == "" || ltb limit 1)) [
        | inl refused ↦ rw (refused, claim) k
        | inr fine ↦ rw (fine, claim) k
      ]

  Knows-remove_events :
      (mb : Mailbox) (ids cs : List String)
      → Knows id key mb
      → Knows id key (remove_events mb ids cs).0
  unfolding remove_events
  Knows-remove_events mb ids [] k = k
  Knows-remove_events mb ids (c ∷ cs) k =
      let kept = select (λ (i : Item). not (mem_text i.event_id ids)) (queue mb c) in
      Knows-remove_events
        (record mb {
          events = if is_empty kept then pop c mb.events else change c (λ old. kept) mb.events;
        })
        ids cs k

  Knows-step :
      (mb : Mailbox) (c : Call)
      → purges_no_keys c ≡ true
      → Knows id key mb
      → Knows id key (step mb c)
  unfolding step claim_any acknowledge release purge_acknowledged
  Knows-step mb (appends other e created fresh now seen_at) h k =
      Knows-append mb other e created fresh now seen_at k
  Knows-step mb (claims other consumer limit lease now) h k =
      Knows-claim mb other consumer limit lease now k
  Knows-step mb (claims_any consumer limit lease now later) h k =
      elim (Option-cases (oldest now mb.events none)) [
        | inl nothing ↦ rw (nothing, claim_any, step) k
        | inr (best, found) ↦
            rw (found, claim_any, step) (Knows-claim mb best.1 consumer limit lease later k)
      ]
  Knows-step mb (acknowledges other consumer ids true clock stamp) h k = k
  Knows-step mb (acknowledges other consumer ids false clock stamp) h k =
      elim (Bool-cases (all_found (queue mb other) ids)) [
        | inl found ↦ rw (found, acknowledge, step) k
        | inr lacking ↦ rw (lacking, acknowledge, step) k
      ]
  Knows-step mb (releases other consumer ids clock) h k =
      elim (Bool-cases (all_found (queue mb other) ids)) [
        | inl found ↦ rw (found, release, step) k
        | inr lacking ↦ rw (lacking, release, step) k
      ]
  Knows-step mb (purges other older_than limit) h k = elim (Bool-cases (ltb limit 1)) [
    | inl refused ↦ rw (refused, purge_acknowledged, step) k
    | inr fine ↦
        let cs = visited mb other in
        rw (fine, purge_acknowledged, step)
          (Knows-remove_events mb
            (map (λ (i : Item). i.event_id)
              (take limit (by_sequence (purgeable_in mb older_than cs))))
            cs k)
  ]
  Knows-step mb (purges_keys older_than limit) h k = cc

  Knows-run :
      (mb : Mailbox) (cs : List Call)
      → All (λ c. purges_no_keys c ≡ true) cs
      → Knows id key mb
      → Knows id key (run mb cs)
  unfolding run
  Knows-run mb [] h k = k
  Knows-run mb (c ∷ cs) h k = Knows-run (step mb c) cs h.1 (Knows-step mb c h.0 k)

appended_known :
    (mb : Mailbox) (key id : String) (e : Event) (created : Option Json) (fresh : String)
    (now : Json) (seen_at : ℕ)
    → (append mb key e created fresh now seen_at).1 ≡ returns id
    → Knows id key (append mb key e created fresh now seen_at).0
unfolding append
appended_known mb key id e created fresh now seen_at h = elim (Bool-cases (key == "")) [
  | inl nameless ↦ absurd (ground (arith, nameless, h))
  | inr named ↦ elim (Option-cases (lookup (event_id_of e fresh) mb.event_ids)) [
    | inl new ↦
        let new_seen : Seen = record { conversation_id = key; seen_at = seen_at } in
        let same : event_id_of e fresh ≡ id = ground (arith, named, new, h) in
        rw (named, new, append)
          (
            new_seen,
            subst
                (λ t.
                  lookup t
                    (deliver mb
                      (new_item e (event_id_of e fresh) key (or_else now created) mb.next_sequence)
                      seen_at).event_ids
                  ≡ some new_seen)
                same
                (ground (
                  arith,
                  lookup-assign (event_id_of e fresh) (event_id_of e fresh) new_seen mb.event_ids,
                  eq_refl (event_id_of e fresh),
                )),
            refl,
          )
    | inr (seen, known) ↦ elim (Bool-cases (seen.conversation_id == key)) [
      | inl same ↦
          let e' : event_id_of e fresh ≡ id = ground (arith, named, known, same, h) in
          rw (named, known, same, append)
            (
              seen,
              ap (λ t. lookup t mb.event_ids) (sym e') ∙ known,
              (eq_iff seen.conversation_id key).0 same,
            )
      | inr other ↦ absurd (ground (arith, named, known, other, h))
    ]
  ]
]

named_key :
    (mb : Mailbox) (key id : String) (e : Event) (created : Option Json) (fresh : String)
    (now : Json) (seen_at : ℕ)
    → (append mb key e created fresh now seen_at).1 ≡ returns id
    → (key == "") ≡ false
unfolding append
named_key mb key id e created fresh now seen_at h = elim (Bool-cases (key == "")) [
  | inl nameless ↦ absurd (ground (arith, nameless, h))
  | inr named ↦ named
]

again :
    (mb : Mailbox) (key key' id : String) (e : Event) (created : Option Json) (fresh : String)
    (now : Json) (seen_at : ℕ) (seen : Seen)
    → lookup id mb.event_ids ≡ some seen
    → seen.conversation_id ≡ key
    → event_id_of e fresh ≡ id
    → (key == "") ≡ false
    → append mb key' e created fresh now seen_at
      ≡ (mb, if key == key' then returns id else raises value_error)
unfolding append
again mb key key' id e created fresh now seen_at seen known mine same named =
    let known' : lookup (event_id_of e fresh) mb.event_ids ≡ some seen =
      ap (λ t. lookup t mb.event_ids) same ∙ known in
    let owner : (seen.conversation_id == key') ≡ (key == key') = ap (λ t. t == key') mine in
    elim (Bool-cases (key' == "")) [
      | inl nameless ↦
          let differs : (key == key') ≡ false =
            ap (λ t. key == t) ((eq_iff key' "").0 nameless) ∙ named in
          rw (nameless, differs, append) refl
      | inr fine ↦ elim (Bool-cases (key == key')) [
        | inl eq ↦ rw (fine, known', owner, eq, append) (ap (λ t. (mb, returns t)) same)
        | inr differs ↦ rw (fine, known', owner, differs, append) refl
      ]
    ]

-- Once an `append` has returned an id, then after any further calls by anyone that purge no
-- deduplication keys, an `append` of any event with that id changes nothing: to the same
-- conversation it returns the id again, and to another one it raises.
pub append_takes_once :
    (mb : Mailbox) (key id : String) (e : Event) (created : Option Json) (fresh : String)
    (now : Json) (seen_at : ℕ) (cs : List Call) (key' : String) (e' : Event)
    (created' : Option Json) (fresh' : String) (now' : Json) (seen_at' : ℕ)
    → (append mb key e created fresh now seen_at).1 ≡ returns id
    → All (λ c. purges_no_keys c ≡ true) cs
    → event_id_of e' fresh' ≡ id
    → append
        (run (append mb key e created fresh now seen_at).0 cs)
        key'
        e'
        created'
        fresh'
        now'
        seen_at'
      ≡ (
        run (append mb key e created fresh now seen_at).0 cs,
        if key == key' then returns id else raises value_error,
      )
append_takes_once mb key id e created fresh now seen_at cs key' e' created' fresh' now' seen_at' h
      quiet same =
    let mb' = run (append mb key e created fresh now seen_at).0 cs in
    let (seen, known, mine) =
      Knows-run id key (append mb key e created fresh now seen_at).0 cs quiet
        (appended_known mb key id e created fresh now seen_at h) in
    again mb' key key' id e' created' fresh' now' seen_at' seen known mine same
      (named_key mb key id e created fresh now seen_at h)
