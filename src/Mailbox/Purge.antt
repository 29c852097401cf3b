-- ===== src/Mailbox/Purge.antt =====
-- Retention of a mailbox: `purge_acknowledged` and `purge_deduplication_keys` of InMemoryMailbox
-- (entourage/mailbox.py).
use entourage.Prelude.{
  ℕ, zero, suc, ◌+◌, String, Option, none, some, List, [], ◌∷◌, ◌++◌, Bool, true, false, ◌&&◌, not,
  ltb, leb, map, returns, raises, select, if◌then◌else◌, mem_text, Dict, Entry, pop, change, length,
  is_empty, take,
}
use entourage.Mailbox.Types.{Mailbox, Item, Seen, Step, value_error, queue, is_acknowledged}

-- `older_than is None or (acknowledged_at or inf) <= older_than`; a time of 0 is as good as none.
abbrev pub settled_by : Option ℕ → Option ℕ → Bool
settled_by none time = true
settled_by (some older_than) none = false
settled_by (some older_than) (some zero) = false
settled_by (some older_than) (some (suc n)) = leb (suc n) older_than

abbrev pub purgeable : Option ℕ → Item → Bool
purgeable older_than i = is_acknowledged i && settled_by older_than i.acknowledged_at

-- `sorted(..., key=lambda event: event["_sequence"])`.
unfoldable pub insert_by_sequence : Item → List Item → List Item
insert_by_sequence i [] = i ∷ []
insert_by_sequence i (j ∷ js) =
    let rest = insert_by_sequence i js in if leb i.sequence j.sequence then i ∷ j ∷ js else j ∷ rest

unfoldable pub by_sequence : List Item → List Item
by_sequence [] = []
by_sequence (i ∷ is) = insert_by_sequence i (by_sequence is)

-- The purgeable events of some conversations, in order.
unfoldable pub purgeable_in : Mailbox → Option ℕ → List String → List Item
purgeable_in mb older_than [] = []
purgeable_in mb older_than (c ∷ cs) =
    select (purgeable older_than) (queue mb c) ++ purgeable_in mb older_than cs

-- Removes the events with the given ids from some conversations, and each queue that is left empty;
-- counts them.
unfoldable pub remove_events : Mailbox → List String → List String → Mailbox × ℕ
remove_events mb ids [] = (mb, 0)
remove_events mb ids (c ∷ cs) =
    let kept = select (λ (i : Item). not (mem_text i.event_id ids)) (queue mb c) in
    let gone = length (select (λ (i : Item). mem_text i.event_id ids) (queue mb c)) in
    let (rest, more) =
      remove_events
        (record mb {
          events = if is_empty kept then pop c mb.events else change c (λ old. kept) mb.events;
        })
        ids cs in
    (rest, gone + more)

abbrev pub visited : Mailbox → Option String → List String
visited mb none = map (λ (e : Entry (List Item)). e.key) mb.events
visited mb (some conversation_id) = conversation_id ∷ []

unfoldable pub purge_acknowledged : Mailbox → Option String → Option ℕ → ℕ → Step ℕ
purge_acknowledged mb conversation_id older_than limit =
    if ltb limit 1
    then (mb, raises value_error)
    else (let cs = visited mb conversation_id in
        let ids =
          map (λ (i : Item). i.event_id)
            (take limit (by_sequence (purgeable_in mb older_than cs))) in
        let (mb', removed) = remove_events mb ids cs in (mb', returns removed))

-- The ids of the events that are in some queue.
unfoldable pub live_ids : Dict (List Item) → List String
live_ids [] = []
live_ids (e ∷ es) = map (λ (i : Item). i.event_id) e.value ++ live_ids es

unfoldable pub remove_keys : List String → Dict Seen → Dict Seen
remove_keys ids keys = select (λ (e : Entry Seen). not (mem_text e.key ids)) keys

unfoldable pub purge_deduplication_keys : Mailbox → ℕ → ℕ → Step ℕ
purge_deduplication_keys mb older_than limit =
    if ltb limit 1
    then (mb, raises value_error)
    else (let live = live_ids mb.events in
        let stale =
          λ (e : Entry Seen). not (mem_text e.key live) && leb e.value.seen_at older_than in
        let ids = take limit (map (λ (e : Entry Seen). e.key) (select stale mb.event_ids)) in
        (record mb { event_ids = remove_keys ids mb.event_ids }, returns (length ids)))
