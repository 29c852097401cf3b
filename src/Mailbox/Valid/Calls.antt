-- ===== src/Mailbox/Valid/Calls.antt =====
-- `append`, `claim`, `claim_any`, `acknowledge` and `release` keep a mailbox well formed.
use entourage.Prelude.{
  ℕ, suc, ◌+◌, String, Option, none, some, List, [], ◌∷◌, ◌++◌, Bool, true, false, ◌≡◌, refl, ap,
  All-map, lookup, assign, lookup-assign, Dict, Entry, change, ◌==◌, eq_iff, eq_refl, mem_text,
  arith, inl, inr, Bool-cases, Option-cases, Items-assign, Items-change, or_else, not, ◌&&◌, ◌||◌,
  ltb,
}
use entourage.Mail.{Json, Event}
use entourage.Mailbox.Types.{Mailbox, Item, Seen, Duration, ticks, negative, queue, is_acknowledged}
use entourage.Mailbox.Queue.{
  append, event_id_of, deliver, new_item, claim, claim_items, claim_any, oldest, visit, settle,
  give_back, held_by, acknowledge, release, finish, all_found,
}
use entourage.Mailbox.Loops.{claim_items-keeps, claim_items-All, visit-keeps, visit-All}
use entourage.Mailbox.Valid.{IsQueued, IsQueue, IsValid}
use entourage.Mailbox.Valid.Queues.{
  queue-IsQueue, take_lease-IsQueued, settle-IsQueued, give_back-IsQueued, IsQueue-status,
  IsQueue-append,
}

pub change-IsValid :
    (mb : Mailbox) (key : String) (items : List Item)
    → IsValid mb
    → IsQueue mb.event_ids mb.next_sequence key items
    → IsValid (record mb { events = change key (λ old. items) mb.events })
change-IsValid mb key items v q = record {
  queues =
      Items-change (IsQueue mb.event_ids mb.next_sequence) key (λ old. items) mb.events (λ old h. q)
        v.queues;
}

pub known-grow :
    (ids : Dict Seen) (id other : String) (new seen : Seen)
    → lookup id ids ≡ none
    → lookup other ids ≡ some seen
    → lookup other (assign id new ids) ≡ some seen
known-grow ids id other new seen fresh known = elim (Bool-cases (id == other)) [
  | inl same ↦
      absurd (ground (arith, fresh, known, ap (λ t. lookup t ids) ((eq_iff id other).0 same)))
  | inr differs ↦ ground (arith, lookup-assign id other new ids, differs, known)
]

IsQueued-grow :
    (ids : Dict Seen) (next : ℕ) (key id : String) (new : Seen) (i : Item)
    → lookup id ids ≡ none
    → IsQueued ids next key i
    → IsQueued (assign id new ids) (suc next) key i
IsQueued-grow ids next key id new i fresh q = record {
  conversation = q.conversation;
  known = (q.known.0, known-grow ids id i.event_id new q.known.0 fresh q.known.1, q.known.2);
  below = let h = q.below in omega arith;
  coherent = q.coherent;
}

IsQueue-grow :
    (ids : Dict Seen) (next : ℕ) (key id : String) (new : Seen) (items : List Item)
    → lookup id ids ≡ none
    → IsQueue ids next key items
    → IsQueue (assign id new ids) (suc next) key items
IsQueue-grow ids next key id new items fresh q = record {
  each =
      All-map (IsQueued ids next key) items (λ i h. IsQueued-grow ids next key id new i fresh h)
        q.each;
  ordered = q.ordered;
  distinct = q.distinct;
}

-- An event whose id is new is none of those that are queued.
not_queued :
    (ids : Dict Seen) (next : ℕ) (key id : String) (i : Item)
    → lookup id ids ≡ none
    → IsQueued ids next key i
    → (id == i.event_id) ≡ false
not_queued ids next key id i fresh q = elim (Bool-cases (id == i.event_id)) [
  | inl same ↦
      absurd
        (ground (arith, fresh, q.known.1, ap (λ t. lookup t ids) ((eq_iff id i.event_id).0 same)))
  | inr differs ↦ differs
]

pub deliver-IsValid :
    (mb : Mailbox) (e : Event) (id conversation : String) (created : Json) (seen_at : ℕ)
    → lookup id mb.event_ids ≡ none
    → IsValid mb
    → IsValid (deliver mb (new_item e id conversation created mb.next_sequence) seen_at)
deliver-IsValid mb e id conversation created seen_at fresh v =
    let new : Seen = record { conversation_id = conversation; seen_at = seen_at } in
    let i = new_item e id conversation created mb.next_sequence in
    let ids = assign id new mb.event_ids in
    let q = queue-IsQueue mb conversation v in
    record {
      queues =
          Items-assign (IsQueue ids (suc mb.next_sequence)) conversation
            (queue mb conversation ++ i ∷ []) mb.events
            (IsQueue-append ids (suc mb.next_sequence) conversation (queue mb conversation) i
              (IsQueue-grow mb.event_ids mb.next_sequence conversation id new
                (queue mb conversation) fresh q)
              (record {
                conversation = refl;
                known =
                    (new, ground (arith, lookup-assign id id new mb.event_ids, eq_refl id), refl);
                below = omega arith;
                coherent = (refl, refl, refl);
              })
              (All-map (IsQueued mb.event_ids mb.next_sequence conversation) (queue mb conversation)
                (λ j h. h.below) q.each)
              (All-map (IsQueued mb.event_ids mb.next_sequence conversation) (queue mb conversation)
                (λ j h. not_queued mb.event_ids mb.next_sequence conversation id j fresh h) q.each))
            (All-map
              (λ (n : Entry (List Item)). IsQueue mb.event_ids mb.next_sequence n.key n.value)
              mb.events
              (λ n h. IsQueue-grow mb.event_ids mb.next_sequence n.key id new n.value fresh h)
              v.queues);
    }

pub append-IsValid :
    (mb : Mailbox) (conversation : String) (e : Event) (created : Option Json) (fresh : String)
    (now : Json) (seen_at : ℕ)
    → IsValid mb
    → IsValid (append mb conversation e created fresh now seen_at).0
unfolding append
append-IsValid mb conversation e created fresh now seen_at v =
    elim (Bool-cases (conversation == "")) [
      | inl nameless ↦ rw (nameless, append) v
      | inr named ↦ elim (Option-cases (lookup (event_id_of e fresh) mb.event_ids)) [
        | inl new ↦
            rw (named, new, append)
              (deliver-IsValid mb e (event_id_of e fresh) conversation (or_else now created) seen_at
                new v)
        | inr (seen, known) ↦ elim (Bool-cases (seen.conversation_id == conversation)) [
          | inl same ↦ rw (named, known, same, append) v
          | inr other ↦ rw (named, known, other, append) v
        ]
      ]
    ]

pub claim-IsValid :
    (mb : Mailbox) (conversation consumer : String) (limit : ℕ) (lease : Duration) (now : ℕ)
    → IsValid mb
    → IsValid (claim mb conversation consumer limit lease now).0
unfolding claim
claim-IsValid mb conversation consumer limit negative now v = unfold claim in v
claim-IsValid mb conversation consumer limit (ticks n) now v =
    elim (Bool-cases (consumer == "" || ltb limit 1)) [
      | inl refused ↦ rw (refused, claim) v
      | inr fine ↦
          let items = queue mb conversation in
          let q = queue-IsQueue mb conversation v in
          rw (fine, claim)
            (change-IsValid mb conversation (claim_items consumer now (now + n) limit items).0 v (
              IsQueue-status mb.event_ids mb.next_sequence conversation items
                (claim_items consumer now (now + n) limit items).0 q
                (claim_items-All consumer now (now + n)
                  (IsQueued mb.event_ids mb.next_sequence conversation) limit items
                  (λ i can h.
                    take_lease-IsQueued mb.event_ids mb.next_sequence conversation consumer now
                      (now + n) i can h)
                  q.each)
                (claim_items-keeps consumer now (now + n) (λ i. i.sequence) limit items (λ i. refl))
                (claim_items-keeps consumer now (now + n) (λ i. i.event_id) limit items
                  (λ i. refl))))
    ]

pub claim_any-IsValid :
    (mb : Mailbox) (consumer : String) (limit : ℕ) (lease : Duration) (now later : ℕ)
    → IsValid mb
    → IsValid (claim_any mb consumer limit lease now later).0
unfolding claim_any
claim_any-IsValid mb consumer limit lease now later v =
    elim (Option-cases (oldest now mb.events none)) [
      | inl nothing ↦ rw (nothing, claim_any) v
      | inr (best, found) ↦
          rw (found, claim_any) (claim-IsValid mb best.1 consumer limit lease later v)
    ]

-- The loops of `acknowledge` and `release`.
visit-IsValid :
    (mb : Mailbox) (key : String) (chosen : Item → Bool) (may : ℕ → Item → Bool)
    (f : ℕ → Item → Item)
    → ((k : ℕ) (i : Item) → (f k i).sequence ≡ i.sequence)
    → ((k : ℕ) (i : Item) → (f k i).event_id ≡ i.event_id)
    → ((k : ℕ) (i : Item)
        → may k i ≡ true
        → IsQueued mb.event_ids mb.next_sequence key i
        → IsQueued mb.event_ids mb.next_sequence key (f k i))
    → IsValid mb
    → IsValid (finish mb key (visit chosen may f 0 (queue mb key))).0
visit-IsValid mb key chosen may f s e keep v =
    let q = queue-IsQueue mb key v in
    let items = queue mb key in
    change-IsValid mb key (visit chosen may f 0 items).0 v (
      IsQueue-status mb.event_ids mb.next_sequence key items (visit chosen may f 0 items).0 q
        (visit-All chosen may f (IsQueued mb.event_ids mb.next_sequence key) 0 items
          (λ k i wanted can h. keep k i can h) q.each)
        (visit-keeps chosen may f (λ i. i.sequence) 0 items s)
        (visit-keeps chosen may f (λ i. i.event_id) 0 items e))

pub acknowledge-IsValid :
    (mb : Mailbox) (key consumer : String) (ids : List String) (force : Bool) (clock : ℕ → ℕ)
    (stamp : ℕ → ℕ)
    → IsValid mb
    → IsValid (acknowledge mb key consumer ids force clock stamp).0
unfolding acknowledge
acknowledge-IsValid mb key consumer ids true clock stamp v =
    unfold acknowledge in
    visit-IsValid mb key (λ (i : Item). mem_text i.event_id ids && not (is_acknowledged i))
      (λ k i. true) (λ k i. settle (stamp k) i) (λ k i. refl) (λ k i. refl)
      (λ k i can h. settle-IsQueued mb.event_ids mb.next_sequence key (stamp k) i h) v
acknowledge-IsValid mb key consumer ids false clock stamp v =
    elim (Bool-cases (all_found (queue mb key) ids)) [
      | inl found ↦
          rw (found, acknowledge)
            (visit-IsValid mb key (λ (i : Item). mem_text i.event_id ids)
              (λ k i. held_by consumer (clock k) i) (λ k i. settle (stamp k) i) (λ k i. refl)
              (λ k i. refl)
              (λ k i can h. settle-IsQueued mb.event_ids mb.next_sequence key (stamp k) i h) v)
      | inr lacking ↦ rw (lacking, acknowledge) v
    ]

pub release-IsValid :
    (mb : Mailbox) (key consumer : String) (ids : List String) (clock : ℕ → ℕ)
    → IsValid mb
    → IsValid (release mb key consumer ids clock).0
unfolding release
release-IsValid mb key consumer ids clock v = elim (Bool-cases (all_found (queue mb key) ids)) [
  | inl found ↦
      rw (found, release)
        (visit-IsValid mb key (λ (i : Item). mem_text i.event_id ids)
          (λ k i. held_by consumer (clock k) i) (λ k i. give_back i) (λ k i. refl) (λ k i. refl)
          (λ k i can h.
            give_back-IsQueued mb.event_ids mb.next_sequence key consumer (clock k) i can h)
          v)
  | inr lacking ↦ rw (lacking, release) v
]
