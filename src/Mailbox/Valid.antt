-- ===== src/Mailbox/Valid.antt =====
-- When a mailbox is well formed, and that its calls keep it so.
pub mod Queues
pub mod Calls
pub mod Purged
use entourage.Prelude.{
  ℕ, ◌<◌, String, Option, none, some, List, [], ◌∷◌, Bool, true, ◌≡◌, map, All, is_some, lookup,
  Dict, Items, distinct_text,
}
use entourage.Mailbox.Types.{Mailbox, Item, Seen, Status, empty}
use entourage.Mailbox.Types.Status.{pending, leased, acknowledged}

-- The bookkeeping fits the status: only a leased event has a consumer and a deadline, and only an
-- acknowledged one a time of acknowledgement.
abbrev pub CoherentAs : Status → Item → Type 0
CoherentAs pending i = (i.consumer ≡ none) × (i.lease_until ≡ none) × (i.acknowledged_at ≡ none)
CoherentAs leased i =
    (is_some i.consumer ≡ true) × (is_some i.lease_until ≡ true) × (i.acknowledged_at ≡ none)
CoherentAs acknowledged i =
    (i.consumer ≡ none) × (i.lease_until ≡ none) × (is_some i.acknowledged_at ≡ true)

-- An event of the queue at `key`: its id is known as that conversation's, and its sequence number
-- was given out.
pub record IsQueued (ids : Dict Seen) (next : ℕ) (key : String) (i : Item) : Type 0 where
  pub conversation : i.conversation_id ≡ key
  pub known : (seen : Seen) × (lookup i.event_id ids ≡ some seen) × (seen.conversation_id ≡ key)
  pub below : i.sequence < next
  pub coherent : CoherentAs i.status i

abbrev pub Ascending : List ℕ → Type 0
Ascending [] = Unit
Ascending (n ∷ ns) = All (λ m. n < m) ns × Ascending ns

pub record IsQueue (ids : Dict Seen) (next : ℕ) (key : String) (items : List Item) : Type 0 where
  pub each : All (IsQueued ids next key) items
  pub ordered : Ascending (map (λ (i : Item). i.sequence) items)
  pub distinct : distinct_text (map (λ (i : Item). i.event_id) items) ≡ true

pub record IsValid (mb : Mailbox) : Type 0 where
  pub queues : Items (IsQueue mb.event_ids mb.next_sequence) mb.events

pub empty-IsValid : IsValid empty
empty-IsValid = record { queues = tt }
