-- ===== src/Mailbox/Counts.antt =====
-- What a claim hands out, and the counts before and after it (entourage/mailbox.py).
use entourage.Prelude.{
  ℕ, zero, suc, ◌+◌, ◌<◌, String, List, [], ◌∷◌, false, ◌≡◌, refl, ap, ◌∙◌, map, select, take,
  length, lookup, lookup-change, change, arith, inl, inr, Bool-cases, Option-cases, returns, ◌==◌,
  ◌||◌, ltb,
}
use entourage.Mailbox.Types.{Mailbox, Item, Letter, ticks, queue, claimable, public}
use entourage.Mailbox.Queue.{claim, claim_items, claimable_count, take_lease}
use entourage.Mailbox.Loops.{claim_items-got, claim_items_takes, claim_items_skips}

claimable-lease :
    (consumer : String) (now until : ℕ) (i : Item)
    → now < until
    → claimable now (take_lease consumer until i) ≡ false
claimable-lease consumer now until i h = ground arith

count-claim_items :
    (consumer : String) (now until n : ℕ) (items : List Item)
    → now < until
    → length (select (claimable now) (claim_items consumer now until n items).0)
        + length (claim_items consumer now until n items).1
      ≡ length (select (claimable now) items)
unfolding select
count-claim_items consumer now until zero items h = unfold claim_items in omega arith
count-claim_items consumer now until (suc n) [] h = unfold claim_items in refl
count-claim_items consumer now until (suc n) (i ∷ items) h = elim (Bool-cases (claimable now i)) [
  | inl can ↦
      rw
        (
          claim_items_takes consumer now until n i items can,
          can,
          claimable-lease consumer now until i h,
        )
        (let rest = count-claim_items consumer now until n items h in omega arith)
  | inr not_now ↦
      rw (claim_items_skips consumer now until n i items not_now, not_now)
        (count-claim_items consumer now until (suc n) items h)
]

queue-put :
    (mb : Mailbox) (key : String) (items : List Item)
    → (queue mb key ≡ [] → items ≡ [])
    → queue (record mb { events = change key (λ old. items) mb.events }) key ≡ items
unfolding queue
queue-put mb key items h = elim (Option-cases (lookup key mb.events)) [
  | inl missing ↦
      let e = lookup-change key (λ (old : List Item). items) mb.events in
      ground (arith, e, missing, h)
  | inr (old, found) ↦
      let e = lookup-change key (λ (old : List Item). items) mb.events in ground (arith, e, found)
]

claim_items-none :
    (consumer : String) (now until n : ℕ) (items : List Item)
    → items ≡ []
    → (claim_items consumer now until n items).0 ≡ []
claim_items-none consumer now until zero items h = unfold claim_items in h
claim_items-none consumer now until (suc n) [] h = unfold claim_items in refl
claim_items-none consumer now until (suc n) (i ∷ items) h = cc

public-lease :
    (consumer : String) (until : ℕ) (items : List Item)
    → map public (map (take_lease consumer until) items) ≡ map public items
public-lease consumer until [] = refl
public-lease consumer until (i ∷ items) = ap (◌∷◌ (public i)) (public-lease consumer until items)

length-map : (f : Item → Letter) (items : List Item) → length (map f items) ≡ length items
length-map f [] = refl
length-map f (i ∷ items) = ap suc (length-map f items)

-- A claim by a named consumer with a limit of at least one and a lease of at least one tick returns
-- the first claimable events of the conversation, in queue order, as many as the limit allows; and
-- `claimable_count` at the same instant falls by the number of events handed out.
pub claim_serves_in_order :
    (mb : Mailbox) (key consumer : String) (limit n now : ℕ)
    → (consumer == "") ≡ false
    → 0 < limit
    → 0 < n
    → (letters : List Letter) × ((claim mb key consumer limit (ticks n) now).1 ≡ returns letters)
      × (letters ≡ map public (take limit (select (claimable now) (queue mb key))))
      × (claimable_count (claim mb key consumer limit (ticks n) now).0 key now + length letters
          ≡ claimable_count mb key now)
unfolding claim claimable_count
claim_serves_in_order mb key consumer limit n now named some_limit some_lease =
    let items = claim_items consumer now (now + n) limit (queue mb key) in
    let fine : (consumer == "" || ltb limit 1) ≡ false = ground arith in
    let after : queue (record mb { events = change key (λ old. items.0) mb.events }) key ≡ items.0 =
      queue-put mb key items.0 (claim_items-none consumer now (now + n) limit (queue mb key)) in
    (
      map public items.1,
      rw (fine, claim) refl,
      ap (map public) (claim_items-got consumer now (now + n) limit (queue mb key))
          ∙ public-lease consumer (now + n) (take limit (select (claimable now) (queue mb key))),
      rw (fine, claim, after, length-map public items.1)
          (count-claim_items consumer now (now + n) limit (queue mb key) (omega arith)),
    )
