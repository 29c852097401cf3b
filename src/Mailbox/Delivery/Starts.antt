-- ===== src/Mailbox/Delivery/Starts.antt =====
-- The state of an event right after it was acknowledged, and right after it was claimed.
use entourage.Prelude.{
  ℕ, zero, suc, ◌+◌, String, some, List, [], ◌∷◌, Bool, true, false, ◌≡◌, refl, sym, ap, ◌∙◌, map,
  All, All-map, lookup, Dict, Items, change, update, ◌==◌, eq_iff, eq_refl, mem_text, distinct_text,
  arith, inl, inr, Bool-cases, not, ◌&&◌, ◌||◌, ltb, returns,
}
use entourage.Mailbox.Types.{
  Mailbox, Item, Seen, Letter, ticks, queue, is_acknowledged, is_leased, claimable, public,
}
use entourage.Mailbox.Queue.{claim, claim_items, visit, settle, held_by, acknowledge, all_found}
use entourage.Mailbox.Loops.{claim_items_takes, claim_items_skips, claim_items-keeps, visit-done}
use entourage.Mailbox.Valid.{IsQueued, IsQueue, IsValid}
use entourage.Mailbox.Valid.Queues.{queue-IsQueue}
use entourage.Mailbox.Stays.{Each, Stays}

abbrev pub letter_ids : List Letter → List String
letter_ids letters = map (λ (l : Letter). l.event_id) letters

abbrev ids_of : List Item → List String
ids_of items = map (λ (i : Item). i.event_id) items

-- The id of a queued event is known as its conversation's.
pub known_queued :
    (ids : Dict Seen) (next : ℕ) (key id : String) (items : List Item)
    → All (IsQueued ids next key) items
    → mem_text id (ids_of items) ≡ true
    → (seen : Seen) × (lookup id ids ≡ some seen) × (seen.conversation_id ≡ key)
known_queued ids next key id [] h m = cc
known_queued ids next key id (i ∷ items) h m = elim (Bool-cases (i.event_id == id)) [
  | inl same ↦ (
    h.0.known.0,
    ap (λ t. lookup t ids) (sym ((eq_iff i.event_id id).0 same)) ∙ h.0.known.1,
    h.0.known.2,
  )
  | inr other ↦ known_queued ids next key id items h.1 (ground arith)
]

-- An event of another conversation has another id.
Each-elsewhere :
    (R : Item → Type 0) (ids : Dict Seen) (next : ℕ) (key other id : String) (seen : Seen)
    (items : List Item)
    → lookup id ids ≡ some seen
    → seen.conversation_id ≡ key
    → (other == key) ≡ false
    → All (IsQueued ids next other) items
    → Each R id items
Each-elsewhere R ids next key other id seen items known mine differs h =
    All-map (IsQueued ids next other) items
      (λ i q same.
        let e : lookup id ids ≡ some q.known.0 =
          ap (λ t. lookup t ids) (sym ((eq_iff i.event_id id).0 same)) ∙ q.known.1 in
        let s : seen ≡ q.known.0 = ground (arith, e, known) in
        let p : other ≡ key =
          sym q.known.2 ∙ (sym (ap (λ (x : Seen). x.conversation_id) s) ∙ mine) in
        absurd (ground (arith, differs, ap (λ t. t == key) p, eq_refl key)))
      h

Items-put :
    (R : Item → Type 0) (ids : Dict Seen) (next : ℕ) (key id : String) (seen : Seen)
    (items : List Item) (es : Dict (List Item))
    → lookup id ids ≡ some seen
    → seen.conversation_id ≡ key
    → Each R id items
    → Items (IsQueue ids next) es
    → Items (λ k js. Each R id js) (change key (λ old. items) es)
unfolding change update
Items-put R ids next key id seen items [] known mine new h = tt
Items-put R ids next key id seen items (e ∷ es) known mine new h =
    elim (Bool-cases (e.key == key)) [
      | inl same ↦ rw same (new, Items-put R ids next key id seen items es known mine new h.1)
      | inr other ↦ rw other (
        Each-elsewhere R ids next key e.key id seen e.value known mine other h.0.each,
        Items-put R ids next key id seen items es known mine new h.1,
      )
    ]

-- A call that changes one queue, where the event is, so that it satisfies `R` there.
starts :
    (R : Item → Type 0) (mb : Mailbox) (key id : String) (items : List Item)
    → IsValid mb
    → mem_text id (ids_of (queue mb key)) ≡ true
    → Each R id items
    → Stays R id (record mb { events = change key (λ old. items) mb.events })
starts R mb key id items v queued new =
    let (seen, known, mine) =
      known_queued mb.event_ids mb.next_sequence key id (queue mb key) (queue-IsQueue mb key v).each
        queued in
    record {
      known = (seen, known);
      every =
          Items-put R mb.event_ids mb.next_sequence key id seen items mb.events known mine new
            v.queues;
    }

pub settled_acknowledge :
    (mb : Mailbox) (key consumer : String) (ids : List String) (force : Bool) (clock stamp : ℕ → ℕ)
    (id : String)
    → IsValid mb
    → (acknowledge mb key consumer ids force clock stamp).1 ≡ returns tt
    → mem_text id ids ≡ true
    → mem_text id (ids_of (queue mb key)) ≡ true
    → Stays (λ i. is_acknowledged i ≡ true) id (acknowledge mb key consumer ids force clock stamp).0
unfolding acknowledge
settled_acknowledge mb key consumer ids true clock stamp id v done wanted queued =
    let chosen = λ (i : Item). mem_text i.event_id ids && not (is_acknowledged i) in
    let may : ℕ → Item → Bool = λ k i. true in
    let f = λ (k : ℕ) (i : Item). settle (stamp k) i in
    starts (λ i. is_acknowledged i ≡ true) mb key id (visit chosen may f 0 (queue mb key)).0 v
      queued
      (visit-done chosen may f (λ (i : Item). (i.event_id == id) ≡ true → is_acknowledged i ≡ true)
        0 (queue mb key) (ground (arith, done)) (λ k i c same. refl)
        (λ i out same.
          let agree = ap (λ t. mem_text t ids) ((eq_iff i.event_id id).0 same) in
          ground (arith, out, agree, wanted)))
settled_acknowledge mb key consumer ids false clock stamp id v done wanted queued =
    let chosen = λ (i : Item). mem_text i.event_id ids in
    let may = λ (k : ℕ) (i : Item). held_by consumer (clock k) i in
    let f = λ (k : ℕ) (i : Item). settle (stamp k) i in
    elim (Bool-cases (all_found (queue mb key) ids)) [
      | inl found ↦
          rw (found, acknowledge)
            (starts (λ i. is_acknowledged i ≡ true) mb key id
              (visit chosen may f 0 (queue mb key)).0 v queued
              (visit-done chosen may f
                (λ (i : Item). (i.event_id == id) ≡ true → is_acknowledged i ≡ true) 0
                (queue mb key) (ground (arith, done, found)) (λ k i c same. refl)
                (λ i out same.
                  let agree = ap (λ t. mem_text t ids) ((eq_iff i.event_id id).0 same) in
                  absurd (ground (arith, out, agree, wanted)))))
      | inr lacking ↦ absurd (ground (arith, done, lacking))
    ]

-- The consumer's lease on an event until a deadline.
abbrev pub Held : String → ℕ → Item → Type 0
Held consumer until i =
    (is_leased i ≡ true) × (i.consumer ≡ some consumer) × (i.lease_until ≡ some until)

Each-absent :
    (R : Item → Type 0) (id : String) (items : List Item)
    → mem_text id (ids_of items) ≡ false
    → Each R id items
Each-absent R id [] h = tt
Each-absent R id (i ∷ items) h =
    (λ same. absurd (ground arith), Each-absent R id items (ground arith))

got_queued :
    (consumer id : String) (now until n : ℕ) (items : List Item)
    → mem_text id (ids_of (claim_items consumer now until n items).1) ≡ true
    → mem_text id (ids_of items) ≡ true
got_queued consumer id now until zero items h = unfold claim_items in absurd (ground (arith, h))
got_queued consumer id now until (suc n) [] h = unfold claim_items in h
got_queued consumer id now until (suc n) (i ∷ items) h = elim (Bool-cases (claimable now i)) [
  | inl can ↦
      let e =
        ap (λ r. mem_text id (ids_of r.1)) (claim_items_takes consumer now until n i items can) in
      ground (arith, e, h, got_queued consumer id now until n items)
  | inr not_now ↦
      let e =
        ap (λ r. mem_text id (ids_of r.1))
          (claim_items_skips consumer now until n i items not_now) in
      ground (arith, e, h, got_queued consumer id now until (suc n) items)
]

Held-items :
    (consumer id : String) (now until n : ℕ) (items : List Item)
    → distinct_text (ids_of items) ≡ true
    → mem_text id (ids_of (claim_items consumer now until n items).1) ≡ true
    → Each (Held consumer until) id (claim_items consumer now until n items).0
Held-items consumer id now until zero items d h = unfold claim_items in absurd (ground (arith, h))
Held-items consumer id now until (suc n) [] d h = unfold claim_items in tt
Held-items consumer id now until (suc n) (i ∷ items) d h = elim (Bool-cases (claimable now i)) [
  | inl can ↦
      let step = claim_items_takes consumer now until n i items can in
      let e = ap (λ r. mem_text id (ids_of r.1)) step in
      rw step (
        λ same. (refl, refl, refl),
        elim (Bool-cases (i.event_id == id)) [
          | inl same ↦
              let agree = ap (λ t. mem_text t (ids_of items)) ((eq_iff i.event_id id).0 same) in
              Each-absent (Held consumer until) id _ (
                ap (mem_text id) (
                  claim_items-keeps consumer now until (λ (j : Item). j.event_id) n items
                    (λ j. refl))
                ∙ ground (arith, agree, d))
          | inr other ↦
              Held-items consumer id now until n items (ground (arith, d))
                (ground (arith, e, h, other))
        ],
      )
  | inr not_now ↦
      let step = claim_items_skips consumer now until n i items not_now in
      let e = ap (λ r. mem_text id (ids_of r.1)) step in
      let h' : mem_text id (ids_of (claim_items consumer now until (suc n) items).1) ≡ true =
        sym e ∙ h in
      rw step (
        λ same.
            let agree = ap (λ t. mem_text t (ids_of items)) ((eq_iff i.event_id id).0 same) in
            absurd (ground (arith, d, agree, got_queued consumer id now until (suc n) items h')),
        Held-items consumer id now until (suc n) items (ground (arith, d)) h',
      )
]

letters_of : (items : List Item) → letter_ids (map public items) ≡ ids_of items
letters_of [] = refl
letters_of (i ∷ items) = ap (◌∷◌ i.event_id) (letters_of items)

pub Held-claim :
    (mb : Mailbox) (key consumer : String) (limit n now : ℕ) (letters : List Letter) (id : String)
    → IsValid mb
    → (claim mb key consumer limit (ticks n) now).1 ≡ returns letters
    → mem_text id (letter_ids letters) ≡ true
    → Stays (Held consumer (now + n)) id (claim mb key consumer limit (ticks n) now).0
unfolding claim
Held-claim mb key consumer limit n now letters id v got taken =
    elim (Bool-cases (consumer == "" || ltb limit 1)) [
      | inl refused ↦ absurd (ground (arith, refused, got))
      | inr fine ↦
          let items = claim_items consumer now (now + n) limit (queue mb key) in
          let all_got : map public items.1 ≡ letters = ground (arith, fine, got) in
          let m : mem_text id (ids_of items.1) ≡ true =
            ap (mem_text id) (sym (letters_of items.1) ∙ ap letter_ids all_got) ∙ taken in
          rw (fine, claim)
            (starts (Held consumer (now + n)) mb key id items.0 v
              (got_queued consumer id now (now + n) limit (queue mb key) m)
              (Held-items consumer id now (now + n) limit (queue mb key)
                (queue-IsQueue mb key v).distinct m))
    ]
