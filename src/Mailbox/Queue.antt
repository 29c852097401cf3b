-- ===== src/Mailbox/Queue.antt =====
-- What a consumer does to a queue: `append`, `claim`, `claim_any`, `acknowledge`, `release` and the
-- counts of InMemoryMailbox (entourage/mailbox.py).
use entourage.Prelude.{
  ◌-◌, ℕ, zero, suc, ◌+◌, String, Option, none, some, List, [], ◌∷◌, ◌++◌, Bool, true, false, ◌&&◌,
  ◌||◌, not, ◌==◌, ltb, map, returns, raises, select, any, if◌then◌else◌, mem_text, distinct_of,
  eqb, Dict, Entry, lookup, assign, change, or_else, length,
}
use entourage.Mail.{Json, Event}
use entourage.Mailbox.Types.{
  Mailbox, Item, Letter, Step, Duration, ticks, negative, value_error, key_error, queue, is_pending,
  is_leased, is_acknowledged, lapsed, claimable, public,
}
use entourage.Mailbox.Types.Status.{pending, leased, acknowledged}

-- `str(value.get("event_id") or uuid.uuid4().hex)`: a mailbox is given the text of a truthy value as
-- `event_id`, and `none` where the key is missing or its value is falsy.
abbrev pub event_id_of : Event → String → String
event_id_of e fresh = elim e.event_id [ none ↦ fresh | some id ↦ if id == "" then fresh else id ]

abbrev pub new_item : Event → String → String → Json → ℕ → Item
new_item e event_id conversation_id created_at sequence = record {
  event = e;
  event_id = event_id;
  conversation_id = conversation_id;
  created_at = created_at;
  status = pending;
  consumer = none;
  lease_until = none;
  acknowledged_at = none;
  sequence = sequence;
}

abbrev pub deliver : Mailbox → Item → ℕ → Mailbox
deliver mb i seen_at = record {
  events = assign i.conversation_id (queue mb i.conversation_id ++ i ∷ []) mb.events;
  event_ids =
      assign i.event_id (record { conversation_id = i.conversation_id; seen_at = seen_at })
        mb.event_ids;
  next_sequence = suc mb.next_sequence;
}

-- `append`, with the event's own creation time, if it has one, a fresh id, and the two readings of
-- the clock.
unfoldable pub append : Mailbox → String → Event → Option Json → String → Json → ℕ → Step String
append mb conversation_id e created_at fresh now seen_at =
    if conversation_id == ""
    then (mb, raises value_error)
    else (let event_id = event_id_of e fresh in
        elim (lookup event_id mb.event_ids) [
          | some known ↦
              if known.conversation_id == conversation_id
              then (mb, returns event_id)
              else (mb, raises value_error)
          | none ↦ (
            deliver mb
                (new_item e event_id conversation_id (or_else now created_at) mb.next_sequence)
                seen_at,
            returns event_id,
          )
        ])

abbrev pub take_lease : String → ℕ → Item → Item
take_lease consumer until i = record i {
  status = leased;
  consumer = some consumer;
  lease_until = some until;
}

-- The loop of `claim`: the queue it leaves, and the events it leased.
unfoldable pub claim_items : String → ℕ → ℕ → ℕ → List Item → List Item × List Item
claim_items consumer now until zero items = (items, [])
claim_items consumer now until (suc n) [] = ([], [])
claim_items consumer now until (suc n) (i ∷ items) = elim (claimable now i) [
  | true ↦
      let (rest, got) = claim_items consumer now until n items in
      (take_lease consumer until i ∷ rest, take_lease consumer until i ∷ got)
  | false ↦ let (rest, got) = claim_items consumer now until (suc n) items in (i ∷ rest, got)
]

-- `claim`, with the clock's reading `now`.
unfoldable pub claim : Mailbox → String → String → ℕ → Duration → ℕ → Step (List Letter)
claim mb conversation_id consumer limit negative now = (mb, raises value_error)
claim mb conversation_id consumer limit (ticks lease) now =
    if consumer == "" || ltb limit 1
    then (mb, raises value_error)
    else (let (items, got) =
          claim_items consumer now (now + lease) limit (queue mb conversation_id) in
        (
          record mb { events = change conversation_id (λ old. items) mb.events },
          returns (map public got),
        ))

-- The first claimable event of a queue.
unfoldable pub first_claimable : ℕ → List Item → Option Item
first_claimable now [] = none
first_claimable now (i ∷ items) = elim (claimable now i) [
  | true ↦ some i
  | false ↦ first_claimable now items
]

abbrev pub improve : Option (ℕ × String) → ℕ → String → Option (ℕ × String)
improve none sequence key = some (sequence, key)
improve (some best) sequence key = if ltb sequence best.0 then some (sequence, key) else some best

-- The search of `claim_any`: the least sequence number so far, with its conversation.
unfoldable pub oldest : ℕ → Dict (List Item) → Option (ℕ × String) → Option (ℕ × String)
oldest now [] best = best
oldest now (e ∷ es) best = elim (first_claimable now e.value) [
  | none ↦ oldest now es best
  | some i ↦ oldest now es (improve best i.sequence e.key)
]

-- `claim_any`, with no other call between its search and its claim.
unfoldable pub claim_any : Mailbox → String → ℕ → Duration → ℕ → ℕ → Step (List Letter)
claim_any mb consumer limit lease now later = elim (oldest now mb.events none) [
  | none ↦ (mb, returns [])
  | some b ↦ claim mb b.1 consumer limit lease later
]

-- A loop over the chosen events of a queue that stops where one may not be changed; the changes it
-- has made stay. The reading of the clock at the k-th event is `k`.
unfoldable pub visit :
    (Item → Bool) → (ℕ → Item → Bool) → (ℕ → Item → Item) → ℕ → List Item → List Item × Bool
visit chosen may f k [] = ([], true)
visit chosen may f k (i ∷ items) = elim (chosen i) [
  | false ↦ let (rest, done) = visit chosen may f k items in (i ∷ rest, done)
  | true ↦ elim (may k i) [
    | false ↦ (i ∷ items, false)
    | true ↦ let (rest, done) = visit chosen may f (suc k) items in (f k i ∷ rest, done)
  ]
]

abbrev pub held_by : String → ℕ → Item → Bool
held_by consumer now i =
    is_leased i
    && elim i.consumer [ none ↦ false | some c ↦ c == consumer ]
    && not (lapsed now i.lease_until)

abbrev pub settle : ℕ → Item → Item
settle now i = record i {
  status = acknowledged;
  acknowledged_at = some now;
  consumer = none;
  lease_until = none;
}

abbrev pub give_back : Item → Item
give_back i = record i { status = pending; consumer = none; lease_until = none }

-- The test of `_selected`: every wanted event is in the queue.
abbrev pub all_found : List Item → List String → Bool
all_found items event_ids =
    eqb (length (select (λ (i : Item). mem_text i.event_id event_ids) items))
      (length (distinct_of event_ids))

abbrev pub finish : Mailbox → String → List Item × Bool → Step (Unit {0})
finish mb conversation_id (items, done) = (
  record mb { events = change conversation_id (λ old. items) mb.events },
  if done then returns tt else raises value_error,
)

-- `acknowledge`. At the k-th event the clock reads `clock k` for the lease and `stamp k` for the
-- time of acknowledgement.
unfoldable pub acknowledge :
    Mailbox → String → String → List String → Bool → (ℕ → ℕ) → (ℕ → ℕ) → Step (Unit {0})
acknowledge mb conversation_id consumer event_ids force clock stamp =
    let items = queue mb conversation_id in
    if force
    then finish mb conversation_id (
        visit (λ (i : Item). mem_text i.event_id event_ids && not (is_acknowledged i)) (λ k i. true)
          (λ k i. settle (stamp k) i) 0 items)
    else if not (all_found items event_ids)
    then (mb, raises key_error)
    else finish mb conversation_id (
        visit (λ (i : Item). mem_text i.event_id event_ids) (λ k i. held_by consumer (clock k) i)
          (λ k i. settle (stamp k) i) 0 items)

-- `release`; the clock reads `clock k` at the k-th event.
unfoldable pub release : Mailbox → String → String → List String → (ℕ → ℕ) → Step (Unit {0})
release mb conversation_id consumer event_ids clock =
    let items = queue mb conversation_id in
    if not (all_found items event_ids)
    then (mb, raises key_error)
    else finish mb conversation_id (
        visit (λ (i : Item). mem_text i.event_id event_ids) (λ k i. held_by consumer (clock k) i)
          (λ k i. give_back i) 0 items)

unfoldable pub pending_count : Mailbox → String → ℕ
pending_count mb conversation_id = length (select is_pending (queue mb conversation_id))

unfoldable pub claimable_count : Mailbox → String → ℕ → ℕ
claimable_count mb conversation_id now = length (select (claimable now) (queue mb conversation_id))

unfoldable pub claimable_conversations : Mailbox → ℕ → List String
claimable_conversations mb now =
    map (λ (e : Entry (List Item)). e.key)
      (select (λ (e : Entry (List Item)). any (claimable now) e.value) mb.events)

-- The events of all queues.
unfoldable pub all_items : Dict (List Item) → List Item
all_items [] = []
all_items (e ∷ es) = e.value ++ all_items es

-- The events of one conversation, or of any.
abbrev pub items_of : Mailbox → Option String → List Item
items_of mb none = all_items mb.events
items_of mb (some conversation_id) = queue mb conversation_id

-- `_has_claimable`.
unfoldable pub has_claimable : Mailbox → Option String → ℕ → Bool
has_claimable mb conversation_id now = any (claimable now) (items_of mb conversation_id)

-- `min` of the deadlines of leased events.
abbrev pub sooner : Option ℕ → Option ℕ → Option ℕ
sooner none u = u
sooner (some t) none = some t
sooner (some t) (some u) = if ltb u t then some u else some t

abbrev pub expiry : Item → Option ℕ
expiry i = if is_leased i then i.lease_until else none

unfoldable pub soonest : List Item → Option ℕ
soonest [] = none
soonest (i ∷ items) = sooner (expiry i) (soonest items)

-- `_next_lease_delay`; the subtraction stops at 0, as `max(0, ...)` does.
unfoldable pub next_lease_delay : Mailbox → Option String → ℕ → Option ℕ
next_lease_delay mb conversation_id now = elim (soonest (items_of mb conversation_id)) [
  | none ↦ none
  | some t ↦ some (t - now)
]
