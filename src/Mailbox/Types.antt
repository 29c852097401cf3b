-- ===== src/Mailbox/Types.antt =====
-- The state of InMemoryMailbox (entourage/mailbox.py): queues of leased events by conversation, the
-- deduplication keys, and the next sequence number. Instants are whole ticks.
use entourage.Prelude.{
  ℕ, String, Option, none, some, List, [], Bool, true, false, ◌&&◌, ◌||◌, leb, Dict, lookup,
  or_else, Result,
}
use entourage.Mail.{Json, Event}

pub data Status : Type 0 where
  pending leased acknowledged : Status

pub data Error : Type 0 where
  value_error key_error : Error

-- A duration argument; the code refuses a negative one.
pub data Duration : Type 0 where
  ticks : ℕ → Duration
  negative : Duration

-- An event of a queue, with the bookkeeping that `append` adds to the caller's dictionary.
pub record Item : Type 0 where
  pub event : Event
  pub event_id : String
  pub conversation_id : String
  pub created_at : Json
  pub status : Status
  pub consumer : Option String
  pub lease_until : Option ℕ
  pub acknowledged_at : Option ℕ
  pub sequence : ℕ

-- A deduplication key: the conversation that an event id belongs to, and when it was seen.
pub record Seen : Type 0 where
  pub conversation_id : String
  pub seen_at : ℕ

pub record Mailbox : Type 0 where
  pub events : Dict (List Item)
  pub event_ids : Dict Seen
  pub next_sequence : ℕ

abbrev pub empty : Mailbox
empty = record { events = []; event_ids = []; next_sequence = 0 }

-- A call leaves a mailbox, also when it raises: nothing is rolled back.
abbrev pub Step : Type 0 → Type 0
Step A = Mailbox × Result Error A

-- `self._events.get(conversation_id, [])`.
unfoldable pub queue : Mailbox → String → List Item
queue mb conversation_id = or_else [] (lookup conversation_id mb.events)

abbrev pub is_pending : Item → Bool
is_pending i = elim i.status [ pending ↦ true | leased ↦ false | acknowledged ↦ false ]

abbrev pub is_leased : Item → Bool
is_leased i = elim i.status [ pending ↦ false | leased ↦ true | acknowledged ↦ false ]

abbrev pub is_acknowledged : Item → Bool
is_acknowledged i = elim i.status [ pending ↦ false | leased ↦ false | acknowledged ↦ true ]

-- `lease_until is not None and lease_until <= now`.
abbrev pub lapsed : ℕ → Option ℕ → Bool
lapsed now none = false
lapsed now (some until) = leb until now

-- Pending, or leased with a lease that has expired.
abbrev pub claimable : ℕ → Item → Bool
claimable now i = is_pending i || (is_leased i && lapsed now i.lease_until)

-- What a claim hands out of an event: the caller's keys, the id, the conversation and the creation
-- time (`_public`).
pub record Letter : Type 0 where
  pub event : Event
  pub event_id : String
  pub conversation_id : String
  pub created_at : Json

abbrev pub public : Item → Letter
public i = record {
  event = i.event;
  event_id = i.event_id;
  conversation_id = i.conversation_id;
  created_at = i.created_at;
}
