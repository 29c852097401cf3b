-- ===== src/Mailbox/Delivery.antt =====
-- What consumers of a mailbox can rely on: acknowledged mail is not delivered again, and leased mail
-- is delivered to nobody else (entourage/mailbox.py).
pub mod Starts
use entourage.Prelude.{
  ℕ, ◌⊎◌, zero, suc, ◌+◌, ◌<◌, String, Option, none, some, List, [], ◌∷◌, Bool, true, false, ◌≡◌,
  refl, ap, map, All, All-map, ◌==◌, eq_iff, mem_text, arith, inl, inr, Bool-cases, not, ◌&&◌, ◌||◌,
  ltb, select, take, returns, if◌then◌else◌, Result,
}
use entourage.Mailbox.Types.{
  Mailbox, Item, Letter, Duration, ticks, negative, queue, is_acknowledged, is_leased, claimable,
  public, lapsed, Error,
}
use entourage.Mailbox.Queue.{claim, claim_items, take_lease, acknowledge, held_by}
use entourage.Mailbox.Loops.{claim_items-got}
use entourage.Mailbox.Valid.{IsValid}
use entourage.Mailbox.Run.{
  Call, appends, claims, claims_any, acknowledges, releases, purges, purges_keys, run,
}
use entourage.Mailbox.Stays.{Each, Stays, Each-queue, Leaves, Stays-run}
use entourage.Mailbox.Delivery.Starts.{Held, Held-claim, settled_acknowledge, letter_ids}

-- An event that may not be claimed is in no claim.
not_selected :
    (R : Item → Type 0) (id consumer : String) (now until n : ℕ) (items : List Item)
    → ((i : Item) → R i → claimable now i ≡ false)
    → Each R id items
    → mem_text id (
        letter_ids
          (map public (map (take_lease consumer until) (take n (select (claimable now) items)))))
      ≡ false
unfolding select
not_selected R id consumer now until zero items out h = refl
not_selected R id consumer now until (suc n) [] out h = refl
not_selected R id consumer now until (suc n) (i ∷ items) out h =
    elim (Bool-cases (claimable now i)) [
      | inl can ↦ elim (Bool-cases (i.event_id == id)) [
        | inl same ↦ absurd (ground (arith, can, out i (h.0 same)))
        | inr other ↦ rw (can, other) (not_selected R id consumer now until n items out h.1)
      ]
      | inr not_now ↦ rw not_now (not_selected R id consumer now until (suc n) items out h.1)
    ]

not_claimed :
    (R : Item → Type 0) (id : String) (mb : Mailbox) (key consumer : String) (limit : ℕ)
    (lease : Duration) (now : ℕ) (letters : List Letter)
    → ((i : Item) → R i → claimable now i ≡ false)
    → Stays R id mb
    → (claim mb key consumer limit lease now).1 ≡ returns letters
    → mem_text id (letter_ids letters) ≡ false
unfolding claim
not_claimed R id mb key consumer limit negative now letters out s e = cc
not_claimed R id mb key consumer limit (ticks n) now letters out s e =
    elim (Bool-cases (consumer == "" || ltb limit 1)) [
      | inl refused ↦ absurd (ground (arith, refused))
      | inr fine ↦
          let got = claim_items-got consumer now (now + n) limit (queue mb key) in
          let all_got : map public (claim_items consumer now (now + n) limit (queue mb key)).1
              ≡ letters =
            ground (arith, fine) in
          ground (
            arith,
            all_got,
            ap (λ js. mem_text id (letter_ids (map public js))) got,
            ap (λ ls. mem_text id (letter_ids ls)) all_got,
            not_selected R id consumer now (now + n) limit (queue mb key) out
                (Each-queue R id mb key s),
          )
    ]

abbrev pub purges_no_keys : Call → Bool
purges_no_keys (purges_keys older_than limit) = false
purges_no_keys _ = true

abbrev Settled : Item → Type 0
Settled i = is_acknowledged i ≡ true

Settled-out : (now : ℕ) (i : Item) → Settled i → claimable now i ≡ false
Settled-out now i h = ground arith

Settled-Leaves : (id : String) (c : Call) → purges_no_keys c ≡ true → Leaves Settled id c
Settled-Leaves id (appends key e created fresh now seen_at) h = tt
Settled-Leaves id (claims key consumer limit lease now) h = Settled-out now
Settled-Leaves id (claims_any consumer limit lease now later) h = Settled-out later
Settled-Leaves id (acknowledges key consumer ids true clock stamp) h =
    λ i same settled. ground arith
Settled-Leaves id (acknowledges key consumer ids false clock stamp) h =
    λ k i same settled. ground arith
Settled-Leaves id (releases key consumer ids clock) h = λ k i same settled. ground arith
Settled-Leaves id (purges key older_than limit) h = tt
Settled-Leaves id (purges_keys older_than limit) h = cc

-- In a well-formed mailbox, when an `acknowledge` of a queued event returns, forced or not, then
-- after any further calls by anyone that purge no deduplication keys (new appends of the same id,
-- releases and forced acknowledgements among them), no claim hands out an event with that id.
pub acknowledged_is_final :
    (mb : Mailbox) (key consumer : String) (ids : List String) (force : Bool) (clock stamp : ℕ → ℕ)
    (id : String) (cs : List Call) (key' consumer' : String) (limit : ℕ) (lease : Duration)
    (now : ℕ) (letters : List Letter)
    → IsValid mb
    → (acknowledge mb key consumer ids force clock stamp).1 ≡ returns tt
    → mem_text id ids ≡ true
    → mem_text id (map (λ (i : Item). i.event_id) (queue mb key)) ≡ true
    → All (λ c. purges_no_keys c ≡ true) cs
    → (claim
        (run (acknowledge mb key consumer ids force clock stamp).0 cs)
        key'
        consumer'
        limit
        lease
        now).1
      ≡ returns letters
    → mem_text id (letter_ids letters) ≡ false
acknowledged_is_final mb key consumer ids force clock stamp id cs key' consumer' limit lease now
      letters v done wanted queued quiet e =
    not_claimed Settled id (run (acknowledge mb key consumer ids force clock stamp).0 cs) key'
      consumer' limit lease now letters (Settled-out now)
      (Stays-run Settled id (acknowledge mb key consumer ids force clock stamp).0 cs
        (All-map (λ c. purges_no_keys c ≡ true) cs (Settled-Leaves id) quiet)
        (settled_acknowledge mb key consumer ids force clock stamp id v done wanted queued))
      e

-- The call does not end this consumer's lease on the event: it reads the clock before the deadline,
-- and when it is an acknowledgement or a release, it is another consumer's or does not name the
-- event. A forced acknowledgement must not name it, whoever makes it.
abbrev pub LetsHold : String → String → ℕ → Call → Type 0
LetsHold id consumer until (claims key other limit lease now) = now < until
LetsHold id consumer until (claims_any other limit lease now later) = later < until
LetsHold id consumer until (acknowledges key other ids true clock stamp) = mem_text id ids ≡ false
LetsHold id consumer until (acknowledges key other ids false clock stamp) =
    ((consumer == other) ≡ false) ⊎ (mem_text id ids ≡ false)
LetsHold id consumer until (releases key other ids clock) =
    ((consumer == other) ≡ false) ⊎ (mem_text id ids ≡ false)
LetsHold id consumer until (purges_keys older_than limit) = true ≡ false
LetsHold id consumer until _ = Unit

Held-out :
    (consumer : String) (until now : ℕ) (i : Item)
    → now < until
    → Held consumer until i
    → claimable now i ≡ false
Held-out consumer until now i h held = ground (arith, held.0, held.1, held.2)

not_theirs :
    (consumer other : String) (until now : ℕ) (i : Item)
    → (consumer == other) ≡ false
    → Held consumer until i
    → held_by other now i ≡ false
not_theirs consumer other until now i h held = ground (arith, held.0, held.1, held.2)

not_touched :
    (id consumer other : String) (ids : List String) (until now : ℕ) (i : Item)
    → ((consumer == other) ≡ false) ⊎ (mem_text id ids ≡ false)
    → (i.event_id == id) ≡ true
    → Held consumer until i
    → (mem_text i.event_id ids && held_by other now i) ≡ false
not_touched id consumer other ids until now i (inl another) same held =
    ground (arith, not_theirs consumer other until now i another held)
not_touched id consumer other ids until now i (inr unnamed) same held =
    let agree = ap (λ t. mem_text t ids) ((eq_iff i.event_id id).0 same) in
    ground (arith, unnamed, agree)

Held-Leaves :
    (id consumer : String) (until : ℕ) (c : Call)
    → LetsHold id consumer until c
    → Leaves (Held consumer until) id c
Held-Leaves id consumer until (appends key e created fresh now seen_at) h = tt
Held-Leaves id consumer until (claims key other limit lease now) h =
    λ i held. Held-out consumer until now i h held
Held-Leaves id consumer until (claims_any other limit lease now later) h =
    λ i held. Held-out consumer until later i h held
Held-Leaves id consumer until (acknowledges key other ids true clock stamp) h = λ i same held.
    let agree = ap (λ t. mem_text t ids) ((eq_iff i.event_id id).0 same) in ground (arith, h, agree)
Held-Leaves id consumer until (acknowledges key other ids false clock stamp) h =
    λ k i same held. not_touched id consumer other ids until (clock k) i h same held
Held-Leaves id consumer until (releases key other ids clock) h =
    λ k i same held. not_touched id consumer other ids until (clock k) i h same held
Held-Leaves id consumer until (purges key older_than limit) h = tt
Held-Leaves id consumer until (purges_keys older_than limit) h = cc

-- In a well-formed mailbox, once a claim at `now` has handed out an event with a lease of `n` ticks,
-- then no claim before the deadline `now + n` hands the event out, whatever calls come between under
-- these conditions: the claims among them read the clock before the deadline; this consumer's
-- acknowledgements and releases do not name the event; no forced acknowledgement names it; and
-- no deduplication keys are purged.
pub leased_mail_is_held :
    (mb : Mailbox) (key consumer : String) (limit n now : ℕ) (letters : List Letter) (id : String)
    (cs : List Call) (key' consumer' : String) (limit' : ℕ) (lease' : Duration) (now' : ℕ)
    (letters' : List Letter)
    → IsValid mb
    → (claim mb key consumer limit (ticks n) now).1 ≡ returns letters
    → mem_text id (letter_ids letters) ≡ true
    → All (LetsHold id consumer (now + n)) cs
    → now' < now + n
    → (claim
        (run (claim mb key consumer limit (ticks n) now).0 cs)
        key'
        consumer'
        limit'
        lease'
        now').1
      ≡ returns letters'
    → mem_text id (letter_ids letters') ≡ false
leased_mail_is_held mb key consumer limit n now letters id cs key' consumer' limit' lease' now'
      letters' v got taken quiet before e =
    not_claimed (Held consumer (now + n)) id (run (claim mb key consumer limit (ticks n) now).0 cs)
      key' consumer' limit' lease' now' letters'
      (λ i held. Held-out consumer (now + n) now' i before held)
      (Stays-run (Held consumer (now + n)) id (claim mb key consumer limit (ticks n) now).0 cs
        (All-map (LetsHold id consumer (now + n)) cs (Held-Leaves id consumer (now + n)) quiet)
        (Held-claim mb key consumer limit n now letters id v got taken))
      e
