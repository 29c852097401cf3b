-- ===== src/Mailbox/Stays.antt =====
-- An event that no call may touch stays as it is, whatever calls are made.
use entourage.Prelude.{
  ℕ, ◌+◌, String, Option, none, some, List, [], ◌∷◌, ◌++◌, Bool, true, false, ◌≡◌, refl, ap, map,
  All, All-select, All-append, lookup, Items, change, pop, ◌==◌, eq_iff, mem_text, arith, inl, inr,
  Bool-cases, Option-cases, Items-lookup, Items-change, Items-assign, Items-pop, or_else, not, ◌&&◌,
  ◌||◌, ltb, select, is_empty, take,
}
use entourage.Mail.{Json, Event}
use entourage.Mailbox.Types.{
  Mailbox, Item, Seen, Duration, ticks, negative, queue, is_acknowledged, claimable,
}
use entourage.Mailbox.Queue.{
  append, event_id_of, deliver, new_item, claim, claim_any, oldest, visit, settle, give_back,
  held_by, acknowledge, release, finish, all_found,
}
use entourage.Mailbox.Purge.{purge_acknowledged, purgeable_in, by_sequence, visited, remove_events}
use entourage.Mailbox.Loops.{claim_items-All, visit-All}
use entourage.Mailbox.Valid.Calls.{known-grow}
use entourage.Mailbox.Run.{
  Call, appends, claims, claims_any, acknowledges, releases, purges, purges_keys, step, run,
}

module _ (R : Item → Type 0) (id : String) where
  -- Every event of a queue with this id satisfies `R`.
  abbrev pub Each : List Item → Type 0
  Each items = All (λ (i : Item). (i.event_id == id) ≡ true → R i) items

  -- The id is known, so that it is not appended again, and its event satisfies `R`.
  pub record Stays (mb : Mailbox) : Type 0 where
    pub known : (seen : Seen) × (lookup id mb.event_ids ≡ some seen)
    pub every : Items (λ key items. Each items) mb.events

  -- The call cannot change an event that satisfies `R`, nor forget its id.
  abbrev pub Leaves : Call → Type 0
  Leaves (appends key e created fresh now seen_at) = Unit
  Leaves (claims key consumer limit lease now) = (i : Item) → R i → claimable now i ≡ false
  Leaves (claims_any consumer limit lease now later) = (i : Item) → R i → claimable later i ≡ false
  Leaves (acknowledges key consumer ids true clock stamp) =
      (i : Item)
      → (i.event_id == id) ≡ true
      → R i
      → (mem_text i.event_id ids && not (is_acknowledged i)) ≡ false
  Leaves (acknowledges key consumer ids false clock stamp) =
      (k : ℕ) (i : Item)
      → (i.event_id == id) ≡ true
      → R i
      → (mem_text i.event_id ids && held_by consumer (clock k) i) ≡ false
  Leaves (releases key consumer ids clock) =
      (k : ℕ) (i : Item)
      → (i.event_id == id) ≡ true
      → R i
      → (mem_text i.event_id ids && held_by consumer (clock k) i) ≡ false
  Leaves (purges key older_than limit) = Unit
  Leaves (purges_keys older_than limit) = true ≡ false

  pub Each-queue : (mb : Mailbox) (key : String) → Stays mb → Each (queue mb key)
  unfolding queue
  Each-queue mb key s = elim (Option-cases (lookup key mb.events)) [
    | inl missing ↦ rw missing tt
    | inr (items, found) ↦ rw found (Items-lookup (λ k js. Each js) key mb.events s.every found)
  ]

  Stays-change :
      (mb : Mailbox) (key : String) (items : List Item)
      → Each items
      → Stays mb
      → Stays (record mb { events = change key (λ old. items) mb.events })
  Stays-change mb key items h s = record {
    known = s.known;
    every = Items-change (λ k js. Each js) key (λ old. items) mb.events (λ old e. h) s.every;
  }

  Stays-deliver :
      (mb : Mailbox) (e : Event) (other key : String) (created : Json) (seen_at : ℕ)
      → lookup other mb.event_ids ≡ none
      → Stays mb
      → Stays (deliver mb (new_item e other key created mb.next_sequence) seen_at)
  Stays-deliver mb e other key created seen_at fresh s =
      let new : Seen = record { conversation_id = key; seen_at = seen_at } in
      let i = new_item e other key created mb.next_sequence in
      record {
        known = (s.known.0, known-grow mb.event_ids other id new s.known.0 fresh s.known.1);
        every =
            Items-assign (λ k js. Each js) key (queue mb key ++ i ∷ []) mb.events
              (All-append (λ (j : Item). (j.event_id == id) ≡ true → R j) (queue mb key) (i ∷ [])
                (Each-queue mb key s)
                (
                  λ same. absurd (
                      ground (
                        arith,
                        fresh,
                        s.known.1,
                        ap (λ t. lookup t mb.event_ids) ((eq_iff other id).0 same),
                      )),
                  tt,
                ))
              s.every;
      }

  Stays-append :
      (mb : Mailbox) (key : String) (e : Event) (created : Option Json) (fresh : String)
      (now : Json) (seen_at : ℕ)
      → Stays mb
      → Stays (append mb key e created fresh now seen_at).0
  unfolding append
  Stays-append mb key e created fresh now seen_at s = elim (Bool-cases (key == "")) [
    | inl nameless ↦ rw (nameless, append) s
    | inr named ↦ elim (Option-cases (lookup (event_id_of e fresh) mb.event_ids)) [
      | inl new ↦
          rw (named, new, append)
            (Stays-deliver mb e (event_id_of e fresh) key (or_else now created) seen_at new s)
      | inr (seen, known) ↦ elim (Bool-cases (seen.conversation_id == key)) [
        | inl same ↦ rw (named, known, same, append) s
        | inr other ↦ rw (named, known, other, append) s
      ]
    ]
  ]

  Stays-claim :
      (mb : Mailbox) (key consumer : String) (limit : ℕ) (lease : Duration) (now : ℕ)
      → ((i : Item) → R i → claimable now i ≡ false)
      → Stays mb
      → Stays (claim mb key consumer limit lease now).0
  unfolding claim
  Stays-claim mb key consumer limit negative now out s = s
  Stays-claim mb key consumer limit (ticks n) now out s =
      elim (Bool-cases (consumer == "" || ltb limit 1)) [
        | inl refused ↦ rw (refused, claim) s
        | inr fine ↦
            rw (fine, claim)
              (Stays-change mb key _
                (claim_items-All consumer now (now + n)
                  (λ (i : Item). (i.event_id == id) ≡ true → R i) limit (queue mb key)
                  (λ i can h same. absurd (ground (arith, can, out i (h same))))
                  (Each-queue mb key s))
                s)
      ]

  Stays-visit :
      (mb : Mailbox) (key : String) (chosen : Item → Bool) (may : ℕ → Item → Bool)
      (f : ℕ → Item → Item)
      → ((k : ℕ) (i : Item) → (f k i).event_id ≡ i.event_id)
      → ((k : ℕ) (i : Item) → (i.event_id == id) ≡ true → R i → (chosen i && may k i) ≡ false)
      → Stays mb
      → Stays (finish mb key (visit chosen may f 0 (queue mb key))).0
  Stays-visit mb key chosen may f same out s =
      Stays-change mb key _
        (visit-All chosen may f (λ (i : Item). (i.event_id == id) ≡ true → R i) 0 (queue mb key)
          (λ k i wanted can h e.
            let e' : (i.event_id == id) ≡ true = ground (arith, e, ap (λ t. t == id) (same k i)) in
            absurd (ground (arith, wanted, can, out k i e' (h e'))))
          (Each-queue mb key s))
        s

  Stays-remove_events :
      (mb : Mailbox) (ids cs : List String) → Stays mb → Stays (remove_events mb ids cs).0
  unfolding remove_events
  Stays-remove_events mb ids [] s = s
  Stays-remove_events mb ids (c ∷ cs) s =
      let p = λ (i : Item). not (mem_text i.event_id ids) in
      let kept = select p (queue mb c) in
      elim (Bool-cases (is_empty kept)) [
        | inl none_left ↦ rw none_left (
            Stays-remove_events (record mb { events = pop c mb.events }) ids cs
              (record { known = s.known; every = Items-pop (λ k js. Each js) c mb.events s.every }))
        | inr some_left ↦ rw some_left (
            Stays-remove_events (record mb { events = change c (λ old. kept) mb.events }) ids cs
              (Stays-change mb c kept
                (All-select (λ (i : Item). (i.event_id == id) ≡ true → R i) p (queue mb c)
                  (Each-queue mb c s))
                s))
      ]

  Stays-step : (mb : Mailbox) (c : Call) → Leaves c → Stays mb → Stays (step mb c)
  unfolding step claim_any acknowledge release purge_acknowledged
  Stays-step mb (appends key e created fresh now seen_at) l s =
      Stays-append mb key e created fresh now seen_at s
  Stays-step mb (claims key consumer limit lease now) l s =
      Stays-claim mb key consumer limit lease now l s
  Stays-step mb (claims_any consumer limit lease now later) l s =
      elim (Option-cases (oldest now mb.events none)) [
        | inl nothing ↦ rw (nothing, claim_any, step) s
        | inr (best, found) ↦
            rw (found, claim_any, step) (Stays-claim mb best.1 consumer limit lease later l s)
      ]
  Stays-step mb (acknowledges key consumer ids true clock stamp) l s =
      Stays-visit mb key (λ (i : Item). mem_text i.event_id ids && not (is_acknowledged i))
        (λ k i. true) (λ k i. settle (stamp k) i) (λ k i. refl)
        (λ k i same h. ground (arith, l i same h)) s
  Stays-step mb (acknowledges key consumer ids false clock stamp) l s =
      elim (Bool-cases (all_found (queue mb key) ids)) [
        | inl found ↦
            rw (found, acknowledge, step)
              (Stays-visit mb key (λ (i : Item). mem_text i.event_id ids)
                (λ k i. held_by consumer (clock k) i) (λ k i. settle (stamp k) i) (λ k i. refl)
                (λ k i same h. ground (arith, l k i same h)) s)
        | inr lacking ↦ rw (lacking, acknowledge, step) s
      ]
  Stays-step mb (releases key consumer ids clock) l s =
      elim (Bool-cases (all_found (queue mb key) ids)) [
        | inl found ↦
            rw (found, release, step)
              (Stays-visit mb key (λ (i : Item). mem_text i.event_id ids)
                (λ k i. held_by consumer (clock k) i) (λ k i. give_back i) (λ k i. refl)
                (λ k i same h. ground (arith, l k i same h)) s)
        | inr lacking ↦ rw (lacking, release, step) s
      ]
  Stays-step mb (purges key older_than limit) l s = elim (Bool-cases (ltb limit 1)) [
    | inl refused ↦ rw (refused, purge_acknowledged, step) s
    | inr fine ↦
        let cs = visited mb key in
        rw (fine, purge_acknowledged, step)
          (Stays-remove_events mb
            (map (λ (i : Item). i.event_id)
              (take limit (by_sequence (purgeable_in mb older_than cs))))
            cs s)
  ]
  Stays-step mb (purges_keys older_than limit) l s = cc

  pub Stays-run : (mb : Mailbox) (cs : List Call) → All Leaves cs → Stays mb → Stays (run mb cs)
  unfolding run
  Stays-run mb [] l s = s
  Stays-run mb (c ∷ cs) l s = Stays-run (step mb c) cs l.1 (Stays-step mb c l.0 s)
