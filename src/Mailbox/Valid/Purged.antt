-- ===== src/Mailbox/Valid/Purged.antt =====
-- `purge_acknowledged` and `purge_deduplication_keys` keep a mailbox well formed.
use entourage.Prelude.{
  ℕ, suc, zero, ◌<◌, String, Option, List, [], ◌∷◌, ◌++◌, Bool, true, false, ◌≡◌, refl, ap, ◌∙◌,
  map, All, All-select, lookup, Dict, Entry, Items, ◌==◌, select, pop, change, eq_iff, eq_refl,
  mem_text, any-append, arith, inl, inr, Bool-cases, Items-pop, not, ◌&&◌, ◌||◌, ltb, leb,
  distinct_text, is_empty, take,
}
use entourage.Mailbox.Types.{Mailbox, Item, Seen, queue}
use entourage.Mailbox.Purge.{
  purge_acknowledged, purgeable_in, by_sequence, visited, remove_events, live_ids, remove_keys,
  purge_deduplication_keys,
}
use entourage.Mailbox.Valid.{IsQueued, IsQueue, IsValid, Ascending}
use entourage.Mailbox.Valid.Queues.{queue-IsQueue}
use entourage.Mailbox.Valid.Calls.{change-IsValid}

Ascending-select :
    (p : Item → Bool) (items : List Item)
    → Ascending (map (λ (i : Item). i.sequence) items)
    → Ascending (map (λ (i : Item). i.sequence) (select p items))
unfolding select
Ascending-select p [] h = tt
Ascending-select p (i ∷ items) h = elim (Bool-cases (p i)) [
  | inl kept ↦ rw kept (fewer items h.0, Ascending-select p items h.1)
  | inr dropped ↦ rw dropped (Ascending-select p items h.1)
]
  where
    fewer :
        (js : List Item)
        → All (λ m. i.sequence < m) (map (λ (j : Item). j.sequence) js)
        → All (λ m. i.sequence < m) (map (λ (j : Item). j.sequence) (select p js))
    fewer [] b = tt
    fewer (j ∷ js) b = elim (Bool-cases (p j)) [
      | inl kept ↦ rw kept (b.0, fewer js b.1)
      | inr dropped ↦ rw dropped (fewer js b.1)
    ]

pub mem-select :
    (p : Item → Bool) (id : String) (items : List Item)
    → mem_text id (map (λ (i : Item). i.event_id) items) ≡ false
    → mem_text id (map (λ (i : Item). i.event_id) (select p items)) ≡ false
unfolding select
mem-select p id [] h = refl
mem-select p id (i ∷ items) h = ground (arith, mem-select p id items)

distinct-select :
    (p : Item → Bool) (items : List Item)
    → distinct_text (map (λ (i : Item). i.event_id) items) ≡ true
    → distinct_text (map (λ (i : Item). i.event_id) (select p items)) ≡ true
unfolding select
distinct-select p [] h = refl
distinct-select p (i ∷ items) h =
    ground (arith, mem-select p i.event_id items, distinct-select p items)

pub select-IsQueue :
    (ids : Dict Seen) (next : ℕ) (key : String) (p : Item → Bool) (items : List Item)
    → IsQueue ids next key items
    → IsQueue ids next key (select p items)
select-IsQueue ids next key p items q = record {
  each = All-select (IsQueued ids next key) p items q.each;
  ordered = Ascending-select p items q.ordered;
  distinct = distinct-select p items q.distinct;
}

remove_events-IsValid :
    (mb : Mailbox) (ids cs : List String) → IsValid mb → IsValid (remove_events mb ids cs).0
unfolding remove_events
remove_events-IsValid mb ids [] v = v
remove_events-IsValid mb ids (c ∷ cs) v =
    let p = λ (i : Item). not (mem_text i.event_id ids) in
    let kept = select p (queue mb c) in
    elim (Bool-cases (is_empty kept)) [
      | inl none_left ↦ rw none_left (
          remove_events-IsValid (record mb { events = pop c mb.events }) ids cs
            (record {
              queues = Items-pop (IsQueue mb.event_ids mb.next_sequence) c mb.events v.queues;
            }))
      | inr some_left ↦ rw some_left (
          remove_events-IsValid (record mb { events = change c (λ old. kept) mb.events }) ids cs
            (change-IsValid mb c kept v (
              select-IsQueue mb.event_ids mb.next_sequence c p (queue mb c)
                (queue-IsQueue mb c v))))
    ]

pub purge_acknowledged-IsValid :
    (mb : Mailbox) (conversation : Option String) (older_than : Option ℕ) (limit : ℕ)
    → IsValid mb
    → IsValid (purge_acknowledged mb conversation older_than limit).0
unfolding purge_acknowledged
purge_acknowledged-IsValid mb conversation older_than limit v = elim (Bool-cases (ltb limit 1)) [
  | inl refused ↦ rw (refused, purge_acknowledged) v
  | inr fine ↦
      let cs = visited mb conversation in
      rw (fine, purge_acknowledged)
        (remove_events-IsValid mb
          (map (λ (i : Item). i.event_id)
            (take limit (by_sequence (purgeable_in mb older_than cs))))
          cs v)
]

-- A key that is kept is looked up as before.
pub lookup-remove_keys :
    (ids : List String) (id : String) (keys : Dict Seen)
    → mem_text id ids ≡ false
    → lookup id (remove_keys ids keys) ≡ lookup id keys
unfolding remove_keys lookup select
lookup-remove_keys ids id [] h = refl
lookup-remove_keys ids id (e ∷ es) h = elim (Bool-cases (mem_text e.key ids)) [
  | inl gone ↦ elim (Bool-cases (e.key == id)) [
    | inl same ↦
        absurd (ground (arith, gone, h, ap (λ t. mem_text t ids) ((eq_iff e.key id).0 same)))
    | inr other ↦ ground (arith, gone, other, lookup-remove_keys ids id es h)
  ]
  | inr kept ↦ ground (arith, kept, lookup-remove_keys ids id es h)
]

-- A key that is removed is the id of no queued event.
stale_not_live :
    (live : List String) (older_than n : ℕ) (id : String) (keys : Dict Seen)
    → mem_text id live ≡ true
    → mem_text id (
        take n (
          map
            (λ (e : Entry Seen). e.key)
            (select
              (λ (e : Entry Seen). not (mem_text e.key live) && leb e.value.seen_at older_than)
              keys)))
      ≡ false
unfolding select
stale_not_live live older_than zero id keys h = refl
stale_not_live live older_than (suc n) id [] h = refl
stale_not_live live older_than (suc n) id (e ∷ es) h =
    elim (Bool-cases (not (mem_text e.key live) && leb e.value.seen_at older_than)) [
      | inl stale ↦ elim (Bool-cases (e.key == id)) [
        | inl same ↦
            absurd (ground (arith, stale, h, ap (λ t. mem_text t live) ((eq_iff e.key id).0 same)))
        | inr other ↦ rw (stale, other) (stale_not_live live older_than n id es h)
      ]
      | inr fresh ↦ rw fresh (stale_not_live live older_than (suc n) id es h)
    ]

mem-live :
    (id : String) (items : List Item) (rest : List String)
    → mem_text id (map (λ (i : Item). i.event_id) items ++ rest)
      ≡ (mem_text id (map (λ (i : Item). i.event_id) items) || mem_text id rest)
mem-live id items rest = any-append (λ s. s == id) (map (λ (i : Item). i.event_id) items) rest

IsQueue-remove_keys :
    (keys : Dict Seen) (next : ℕ) (gone : List String) (key : String) (items : List Item)
    → ((id : String)
        → mem_text id (map (λ (i : Item). i.event_id) items) ≡ true
        → mem_text id gone ≡ false)
    → IsQueue keys next key items
    → IsQueue (remove_keys gone keys) next key items
IsQueue-remove_keys keys next gone key items live q = record {
  each = each items live q.each;
  ordered = q.ordered;
  distinct = q.distinct;
}
  where
    each :
        (js : List Item)
        → ((id : String)
            → mem_text id (map (λ (i : Item). i.event_id) js) ≡ true
            → mem_text id gone ≡ false)
        → All (IsQueued keys next key) js
        → All (IsQueued (remove_keys gone keys) next key) js
    each [] l h = tt
    each (j ∷ js) l h = (
      record {
        conversation = h.0.conversation;
        known = (
          h.0.known.0,
          lookup-remove_keys gone j.event_id keys
                (l j.event_id (ground (arith, eq_refl j.event_id)))
              ∙ h.0.known.1,
          h.0.known.2,
        );
        below = h.0.below;
        coherent = h.0.coherent;
      },
      each js (λ id m. l id (ground (arith, m))) h.1,
    )

Items-remove_keys :
    (keys : Dict Seen) (next : ℕ) (gone : List String) (es : Dict (List Item))
    → ((id : String) → mem_text id (live_ids es) ≡ true → mem_text id gone ≡ false)
    → Items (IsQueue keys next) es
    → Items (IsQueue (remove_keys gone keys) next) es
unfolding live_ids
Items-remove_keys keys next gone [] live h = tt
Items-remove_keys keys next gone (e ∷ es) live h = (
  IsQueue-remove_keys keys next gone e.key e.value
      (λ id m. live id (ground (arith, m, mem-live id e.value (live_ids es)))) h.0,
  Items-remove_keys keys next gone es
      (λ id m. live id (ground (arith, m, mem-live id e.value (live_ids es)))) h.1,
)

pub purge_deduplication_keys-IsValid :
    (mb : Mailbox) (older_than limit : ℕ)
    → IsValid mb
    → IsValid (purge_deduplication_keys mb older_than limit).0
unfolding purge_deduplication_keys
purge_deduplication_keys-IsValid mb older_than limit v = elim (Bool-cases (ltb limit 1)) [
  | inl refused ↦ rw (refused, purge_deduplication_keys) v
  | inr fine ↦
      rw (fine, purge_deduplication_keys)
        (record {
          queues =
              Items-remove_keys mb.event_ids mb.next_sequence _ mb.events
                (λ id m. stale_not_live (live_ids mb.events) older_than limit id mb.event_ids m)
                v.queues;
        })
]
