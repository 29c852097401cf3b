-- ===== src/Mailbox/Retention.antt =====
-- A purge removes no mail that still has to be handled (`purge_acknowledged` of
-- entourage/mailbox.py).
mod SparedIds
use entourage.Prelude.{
  ℕ, zero, suc, String, Option, none, some, List, [], ◌∷◌, ◌++◌, Bool, true, false, ◌≡◌, refl, sym,
  ap, ◌∙◌, subst, map, select, take, All, All-map, All-select, lookup, lookup-pop, lookup-change,
  pop, change, update, Dict, Entry, arith, inl, inr, Bool-cases, Option-cases, ◌==◌, eq_iff,
  eq_refl, mem_text, any, any-append, distinct_text, not, ◌&&◌, ◌||◌, ltb, leb, is_empty,
  if◌then◌else◌, or_else,
}
use entourage.Mailbox.Types.{Mailbox, Item, Seen, queue, is_acknowledged}
use entourage.Mailbox.Purge.{
  purgeable, insert_by_sequence, by_sequence, purgeable_in, remove_events, visited,
  purge_acknowledged,
}
use entourage.Mailbox.Valid.{IsValid, IsQueue, IsQueued}
use entourage.Mailbox.Valid.Queues.{queue-IsQueue}
use entourage.Mailbox.Valid.Purged.{mem-select}
use entourage.Mailbox.Delivery.Starts.{known_queued}
use entourage.Mailbox.Retention.SparedIds.{
  ids_of, Spares, purgeable_spare, mem-by_sequence, mem-take,
}

-- The events that are not acknowledged.
abbrev pub unhandled : List Item → List Item
unhandled items = select (λ (i : Item). not (is_acknowledged i)) items

lookup-change_other :
    (c key : String) (f : List Item → List Item) (es : Dict (List Item))
    → (c == key) ≡ false
    → lookup key (change c f es) ≡ lookup key es
unfolding lookup change update
lookup-change_other c key f [] differs = refl
lookup-change_other c key f (e ∷ es) differs = elim (Bool-cases (e.key == c)) [
  | inl same ↦
      let other : (e.key == key) ≡ false = ap (λ t. t == key) ((eq_iff e.key c).0 same) ∙ differs in
      ground (arith, same, other, lookup-change_other c key f es differs)
  | inr out ↦ ground (arith, out, lookup-change_other c key f es differs)
]

-- A queue after a purge has visited its conversation, and another one.
queue-visited :
    (mb : Mailbox) (c : String) (kept : List Item)
    → (queue mb c ≡ [] → kept ≡ [])
    → queue
        (record mb {
          events = if is_empty kept then pop c mb.events else change c (λ old. kept) mb.events;
        })
        c
      ≡ kept
unfolding queue
queue-visited mb c [] h = ground (arith, lookup-pop c c mb.events, eq_refl c)
queue-visited mb c (i ∷ kept) h = elim (Option-cases (lookup c mb.events)) [
  | inl missing ↦ cc (h (ground (arith, missing)))
  | inr (old, found) ↦
      ground (arith, found, lookup-change c (λ (o : List Item). i ∷ kept) mb.events)
]

queue-other :
    (mb : Mailbox) (c key : String) (kept : List Item)
    → (c == key) ≡ false
    → queue
        (record mb {
          events = if is_empty kept then pop c mb.events else change c (λ old. kept) mb.events;
        })
        key
      ≡ queue mb key
unfolding queue
queue-other mb c key [] differs = ground (arith, lookup-pop c key mb.events, differs)
queue-other mb c key (i ∷ kept) differs =
    ap (or_else []) (lookup-change_other c key (λ (o : List Item). i ∷ kept) mb.events differs)

unhandled-kept :
    (ids : List String) (items : List Item)
    → Spares ids items
    → unhandled (select (λ (i : Item). not (mem_text i.event_id ids)) items) ≡ unhandled items
unfolding select
unhandled-kept ids [] h = refl
unhandled-kept ids (i ∷ items) h = elim (Bool-cases (is_acknowledged i)) [
  | inl acked ↦ elim (Bool-cases (mem_text i.event_id ids)) [
    | inl gone ↦ rw (gone, acked) (unhandled-kept ids items h.1)
    | inr stays ↦ rw (stays, acked) (unhandled-kept ids items h.1)
  ]
  | inr unacked ↦ rw (h.0 unacked, unacked) (ap (◌∷◌ i) (unhandled-kept ids items h.1))
]

select-nil : (p : Item → Bool) (items : List Item) → items ≡ [] → select p items ≡ []
select-nil p [] h = unfold select in refl
select-nil p (i ∷ items) h = cc

unhandled-remove_events :
    (mb : Mailbox) (ids cs : List String) (key : String)
    → ((k : String) → Spares ids (queue mb k))
    → unhandled (queue (remove_events mb ids cs).0 key) ≡ unhandled (queue mb key)
unfolding remove_events
unhandled-remove_events mb ids [] key h = refl
unhandled-remove_events mb ids (c ∷ cs) key h =
    let p = λ (i : Item). not (mem_text i.event_id ids) in
    let kept = select p (queue mb c) in
    let mb' : Mailbox = record mb {
      events = if is_empty kept then pop c mb.events else change c (λ old. kept) mb.events;
    } in
    let here = queue-visited mb c kept (select-nil p (queue mb c)) in
    let keeps : (k : String) → Spares ids (queue mb' k) = λ k. elim (Bool-cases (c == k)) [
      | inl same ↦
          subst (λ t. Spares ids (queue mb' t)) ((eq_iff c k).0 same)
            (subst (Spares ids) (sym here) (
              All-select (λ (i : Item). is_acknowledged i ≡ false → mem_text i.event_id ids ≡ false)
                p (queue mb c) (h c)))
      | inr differs ↦ subst (Spares ids) (sym (queue-other mb c k kept differs)) (h k)
    ] in
    unhandled-remove_events mb' ids cs key keeps ∙ elim (Bool-cases (c == key)) [
      | inl same ↦
          subst (λ t. unhandled (queue mb' t) ≡ unhandled (queue mb t)) ((eq_iff c key).0 same)
            (ap unhandled here ∙ unhandled-kept ids (queue mb c) (h c))
      | inr differs ↦ ap unhandled (queue-other mb c key kept differs)
    ]

-- In a well-formed mailbox, `purge_acknowledged` leaves the events that are not acknowledged in every
-- queue as they were and in order, whatever its arguments.
pub purge_spares_unhandled :
    (mb : Mailbox) (conversation_id : Option String) (older_than : Option ℕ) (limit : ℕ)
    (key : String)
    → IsValid mb
    → unhandled (queue (purge_acknowledged mb conversation_id older_than limit).0 key)
      ≡ unhandled (queue mb key)
unfolding purge_acknowledged
purge_spares_unhandled mb conversation_id older_than limit key v = elim (Bool-cases (ltb limit 1)) [
  | inl refused ↦ rw (refused, purge_acknowledged) refl
  | inr fine ↦
      let cs = visited mb conversation_id in
      let found = purgeable_in mb older_than cs in
      let ids = ids_of (take limit (by_sequence found)) in
      rw (fine, purge_acknowledged)
        (unhandled-remove_events mb ids cs key (λ k.
          All-map
            (λ (i : Item). is_acknowledged i ≡ false → mem_text i.event_id (ids_of found) ≡ false)
            (queue mb k)
            (λ i spared unacked.
              mem-take i.event_id limit (by_sequence found)
                (mem-by_sequence i.event_id found ∙ spared unacked))
            (purgeable_spare mb older_than cs k v)))
]
