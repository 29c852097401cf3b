-- ===== src/Mailbox/Valid/Queues.antt =====
-- Events and queues stay well formed under the changes of the calls.
use entourage.Prelude.{
  ◌||◌, ℕ, ◌<◌, String, none, List, [], ◌∷◌, ◌++◌, true, false, ◌≡◌, refl, sym, subst, ap, ◌∙◌, map,
  All, lookup, Dict, ◌==◌, distinct_text, mem_text, arith, inl, inr, Option-cases, Items-lookup,
}
use entourage.Mailbox.Types.{Mailbox, Item, Seen, queue, claimable, is_acknowledged}
use entourage.Mailbox.Types.Status.{pending, leased, acknowledged}
use entourage.Mailbox.Queue.{take_lease, settle, give_back, held_by}
use entourage.Mailbox.Valid.{CoherentAs, IsQueued, Ascending, IsQueue, IsValid}

-- The queue of any conversation, listed or not.
pub queue-IsQueue :
    (mb : Mailbox) (key : String)
    → IsValid mb
    → IsQueue mb.event_ids mb.next_sequence key (queue mb key)
unfolding queue
queue-IsQueue mb key v = elim (Option-cases (lookup key mb.events)) [
  | inl missing ↦ rw missing (record { each = tt; ordered = tt; distinct = refl })
  | inr (items, found) ↦
      rw found (Items-lookup (IsQueue mb.event_ids mb.next_sequence) key mb.events v.queues found)
]

-- A change of status that leaves id, conversation and sequence number alone.
pub IsQueued-status :
    (ids : Dict Seen) (next : ℕ) (key : String) (i j : Item)
    → IsQueued ids next key i
    → (j.conversation_id ≡ i.conversation_id)
    → (j.event_id ≡ i.event_id)
    → (j.sequence ≡ i.sequence)
    → CoherentAs j.status j
    → IsQueued ids next key j
IsQueued-status ids next key i j q c e s h = record {
  conversation = c ∙ q.conversation;
  known = (q.known.0, ap (λ t. lookup t ids) e ∙ q.known.1, q.known.2);
  below = subst (λ n. n < next) (sym s) q.below;
  coherent = h;
}

-- Only an event that is not acknowledged has no time of acknowledgement.
pub unacknowledged :
    (i : Item) → CoherentAs i.status i → is_acknowledged i ≡ false → i.acknowledged_at ≡ none
unacknowledged i h out =
    elim i.status
        as (λ s.
          CoherentAs s i
          → elim s [ pending ↦ false | leased ↦ false | acknowledged ↦ true ] ≡ false
          → i.acknowledged_at ≡ none) [
            | pending ↦ λ c n. c.2
            | leased ↦ λ c n. c.2
            | acknowledged ↦ λ c n. cc
          ]
      h out

claimable_open : (now : ℕ) (i : Item) → claimable now i ≡ true → is_acknowledged i ≡ false
claimable_open now i h = ground arith

pub held_open :
    (consumer : String) (now : ℕ) (i : Item)
    → held_by consumer now i ≡ true
    → is_acknowledged i ≡ false
held_open consumer now i h = ground arith

pub take_lease-IsQueued :
    (ids : Dict Seen) (next : ℕ) (key consumer : String) (now until : ℕ) (i : Item)
    → claimable now i ≡ true
    → IsQueued ids next key i
    → IsQueued ids next key (take_lease consumer until i)
take_lease-IsQueued ids next key consumer now until i can q =
    IsQueued-status ids next key i (take_lease consumer until i) q refl refl refl
      (refl, refl, unacknowledged i q.coherent (claimable_open now i can))

pub settle-IsQueued :
    (ids : Dict Seen) (next : ℕ) (key : String) (now : ℕ) (i : Item)
    → IsQueued ids next key i
    → IsQueued ids next key (settle now i)
settle-IsQueued ids next key now i q =
    IsQueued-status ids next key i (settle now i) q refl refl refl (refl, refl, refl)

pub give_back-IsQueued :
    (ids : Dict Seen) (next : ℕ) (key consumer : String) (now : ℕ) (i : Item)
    → held_by consumer now i ≡ true
    → IsQueued ids next key i
    → IsQueued ids next key (give_back i)
give_back-IsQueued ids next key consumer now i held q =
    IsQueued-status ids next key i (give_back i) q refl refl refl
      (refl, refl, unacknowledged i q.coherent (held_open consumer now i held))

-- A queue whose events changed in their status only.
pub IsQueue-status :
    (ids : Dict Seen) (next : ℕ) (key : String) (items changed : List Item)
    → IsQueue ids next key items
    → All (IsQueued ids next key) changed
    → map (λ (i : Item). i.sequence) changed ≡ map (λ (i : Item). i.sequence) items
    → map (λ (i : Item). i.event_id) changed ≡ map (λ (i : Item). i.event_id) items
    → IsQueue ids next key changed
IsQueue-status ids next key items changed q each s e = record {
  each = each;
  ordered = subst Ascending (sym s) q.ordered;
  distinct = ap distinct_text e ∙ q.distinct;
}

-- A new event at the end of a queue.
Ascending-last :
    (items : List Item) (i : Item)
    → All (λ (j : Item). j.sequence < i.sequence) items
    → Ascending (map (λ (j : Item). j.sequence) items)
    → Ascending (map (λ (j : Item). j.sequence) (items ++ i ∷ []))
Ascending-last [] i below h = (tt, tt)
Ascending-last (j ∷ items) i below h =
    (All-last items j.sequence h.0 below.0, Ascending-last items i below.1 h.1)
  where
    All-last :
        (js : List Item) (n : ℕ)
        → All (λ m. n < m) (map (λ (k : Item). k.sequence) js)
        → n < i.sequence
        → All (λ m. n < m) (map (λ (k : Item). k.sequence) (js ++ i ∷ []))
    All-last [] n h b = (b, tt)
    All-last (k ∷ js) n h b = (h.0, All-last js n h.1 b)

mem-last :
    (id : String) (items : List Item) (i : Item)
    → mem_text id (map (λ (j : Item). j.event_id) (items ++ i ∷ []))
      ≡ (mem_text id (map (λ (j : Item). j.event_id) items) || i.event_id == id)
mem-last id [] i = ground arith
mem-last id (j ∷ items) i = ground (arith, mem-last id items i)

distinct-last :
    (items : List Item) (i : Item)
    → All (λ (j : Item). (i.event_id == j.event_id) ≡ false) items
    → distinct_text (map (λ (j : Item). j.event_id) items) ≡ true
    → distinct_text (map (λ (j : Item). j.event_id) (items ++ i ∷ [])) ≡ true
distinct-last [] i other h = refl
distinct-last (j ∷ items) i other h =
    ground (arith, mem-last j.event_id items i, distinct-last items i other.1, other.0)

pub IsQueue-append :
    (ids : Dict Seen) (next : ℕ) (key : String) (items : List Item) (i : Item)
    → IsQueue ids next key items
    → IsQueued ids next key i
    → All (λ (j : Item). j.sequence < i.sequence) items
    → All (λ (j : Item). (i.event_id == j.event_id) ≡ false) items
    → IsQueue ids next key (items ++ i ∷ [])
IsQueue-append ids next key items i q new below other = record {
  each = each items q.each;
  ordered = Ascending-last items i below q.ordered;
  distinct = distinct-last items i other q.distinct;
}
  where
    each :
        (js : List Item)
        → All (IsQueued ids next key) js
        → All (IsQueued ids next key) (js ++ i ∷ [])
    each [] h = (new, tt)
    each (j ∷ js) h = (h.0, each js h.1)
