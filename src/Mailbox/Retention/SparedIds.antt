-- ===== src/Mailbox/Retention/SparedIds.antt =====
-- The ids of purgeable events are those of no event that is not acknowledged.
use entourage.Prelude.{
  ℕ, zero, suc, String, Option, List, [], ◌∷◌, ◌++◌, Bool, true, false, ◌≡◌, refl, sym, ap, ◌∙◌,
  subst, map, select, take, All, All-map, All-select, Dict, arith, inl, inr, Bool-cases, ◌==◌,
  eq_iff, eq_refl, mem_text, any-append, distinct_text, ◌||◌,
}
use entourage.Mailbox.Types.{Mailbox, Item, Seen, queue, is_acknowledged}
use entourage.Mailbox.Purge.{purgeable, insert_by_sequence, by_sequence, purgeable_in}
use entourage.Mailbox.Valid.{IsValid, IsQueued}
use entourage.Mailbox.Valid.Queues.{queue-IsQueue}
use entourage.Mailbox.Valid.Purged.{mem-select}
use entourage.Mailbox.Delivery.Starts.{known_queued}

abbrev pub ids_of : List Item → List String
ids_of items = map (λ (i : Item). i.event_id) items

eq_sym : (a b : String) → (a == b) ≡ (b == a)
eq_sym a b = elim (Bool-cases (a == b)) [
  | inl same ↦ ground (arith, same, ap (λ t. b == t) ((eq_iff a b).0 same), eq_refl b)
  | inr differs ↦ elim (Bool-cases (b == a)) [
    | inl same ↦ absurd (ground (arith, differs, ap (λ t. a == t) ((eq_iff b a).0 same), eq_refl a))
    | inr other ↦ ground (arith, differs, other)
  ]
]

-- No event that is not acknowledged has one of these ids.
abbrev pub Spares : List String → List Item → Type 0
Spares ids items =
    All (λ (i : Item). is_acknowledged i ≡ false → mem_text i.event_id ids ≡ false) items

others_differ :
    (id : String) (items : List Item)
    → mem_text id (ids_of items) ≡ false
    → All (λ (j : Item). (id == j.event_id) ≡ false) items
others_differ id [] h = tt
others_differ id (j ∷ items) h =
    (ground (arith, h, eq_sym id j.event_id), others_differ id items (ground (arith, h)))

more-Spares :
    (id : String) (ids : List String) (items : List Item)
    → All (λ (j : Item). (id == j.event_id) ≡ false) items
    → Spares ids items
    → Spares (id ∷ ids) items
more-Spares id ids [] d h = tt
more-Spares id ids (j ∷ items) d h =
    (λ unacked. ground (arith, d.0, h.0 unacked), more-Spares id ids items d.1 h.1)

selected_spare :
    (older_than : Option ℕ) (items : List Item)
    → distinct_text (ids_of items) ≡ true
    → Spares (ids_of (select (purgeable older_than) items)) items
selected_spare older_than [] d = tt
selected_spare older_than (i ∷ items) d =
    let new : mem_text i.event_id (ids_of items) ≡ false = ground (arith, d) in
    let rest = selected_spare older_than items (ground (arith, d)) in
    elim (Bool-cases (purgeable older_than i)) [
      | inl gone ↦
          let chosen : select (purgeable older_than) (i ∷ items)
              ≡ i ∷ select (purgeable older_than) items =
            unfold select in rw gone refl in
          subst (λ js. Spares (ids_of js) (i ∷ items)) (sym chosen)
            (
              λ unacked. absurd (ground (arith, gone, unacked)),
              more-Spares i.event_id (ids_of (select (purgeable older_than) items)) items
                  (others_differ i.event_id items new) rest,
            )
      | inr stays ↦
          let chosen : select (purgeable older_than) (i ∷ items)
              ≡ select (purgeable older_than) items =
            unfold select in rw stays refl in
          subst (λ js. Spares (ids_of js) (i ∷ items)) (sym chosen)
            (λ unacked. mem-select (purgeable older_than) i.event_id items new, rest)
    ]

-- Another conversation's ids are not this one's.
elsewhere_spare :
    (ids : Dict Seen) (next : ℕ) (key other : String) (p : Item → Bool) (items theirs : List Item)
    → (other == key) ≡ false
    → All (IsQueued ids next key) items
    → All (IsQueued ids next other) theirs
    → Spares (ids_of (select p theirs)) items
elsewhere_spare ids next key other p items theirs differs h q =
    All-map (IsQueued ids next key) items
      (λ i mine unacked. elim (Bool-cases (mem_text i.event_id (ids_of (select p theirs)))) [
        | inr out ↦ out
        | inl found ↦
            let (seen, known, owner) =
              known_queued ids next other i.event_id (select p theirs)
                (All-select (IsQueued ids next other) p theirs q) found in
            let s : seen ≡ mine.known.0 = ground (arith, known, mine.known.1) in
            let e : other ≡ key =
              sym owner ∙ (ap (λ (x : Seen). x.conversation_id) s ∙ mine.known.2) in
            absurd (ground (arith, differs, ap (λ t. t == key) e, eq_refl key))
      ])
      h

Spares-append :
    (xs ys : List String) (items : List Item)
    → Spares xs items
    → Spares ys items
    → Spares (xs ++ ys) items
Spares-append xs ys [] h k = tt
Spares-append xs ys (i ∷ items) h k = (
  λ unacked. ground (arith, any-append (λ s. s == i.event_id) xs ys, h.0 unacked, k.0 unacked),
  Spares-append xs ys items h.1 k.1,
)

ids_of-append : (xs ys : List Item) → ids_of (xs ++ ys) ≡ ids_of xs ++ ids_of ys
ids_of-append [] ys = refl
ids_of-append (x ∷ xs) ys = ap (◌∷◌ x.event_id) (ids_of-append xs ys)

pub purgeable_spare :
    (mb : Mailbox) (older_than : Option ℕ) (cs : List String) (key : String)
    → IsValid mb
    → Spares (ids_of (purgeable_in mb older_than cs)) (queue mb key)
unfolding purgeable_in
purgeable_spare mb older_than [] key v =
    All-map (IsQueued mb.event_ids mb.next_sequence key) (queue mb key) (λ i h unacked. refl)
      (queue-IsQueue mb key v).each
purgeable_spare mb older_than (c ∷ cs) key v =
    let mine = queue-IsQueue mb key v in
    let here : Spares (ids_of (select (purgeable older_than) (queue mb c))) (queue mb key) =
      elim (Bool-cases (c == key)) [
        | inl same ↦
            subst (λ k. Spares (ids_of (select (purgeable older_than) (queue mb k))) (queue mb key))
              (sym ((eq_iff c key).0 same)) (selected_spare older_than (queue mb key) mine.distinct)
        | inr other ↦
            elsewhere_spare mb.event_ids mb.next_sequence key c (purgeable older_than)
              (queue mb key) (queue mb c) other mine.each (queue-IsQueue mb c v).each
      ] in
    subst (λ ids. Spares ids (queue mb key))
      (sym (
        ids_of-append (select (purgeable older_than) (queue mb c)) (purgeable_in mb older_than cs)))
      (Spares-append _ _ (queue mb key) here (purgeable_spare mb older_than cs key v))

mem-insert :
    (id : String) (i : Item) (items : List Item)
    → mem_text id (ids_of (insert_by_sequence i items))
      ≡ (i.event_id == id || mem_text id (ids_of items))
unfolding insert_by_sequence
mem-insert id i [] = refl
mem-insert id i (j ∷ items) = ground (arith, mem-insert id i items)

pub mem-by_sequence :
    (id : String) (items : List Item)
    → mem_text id (ids_of (by_sequence items)) ≡ mem_text id (ids_of items)
unfolding by_sequence
mem-by_sequence id [] = refl
mem-by_sequence id (i ∷ items) =
    ground (arith, mem-insert id i (by_sequence items), mem-by_sequence id items)

pub mem-take :
    (id : String) (n : ℕ) (items : List Item)
    → mem_text id (ids_of items) ≡ false
    → mem_text id (ids_of (take n items)) ≡ false
mem-take id zero items h = refl
mem-take id (suc n) [] h = refl
mem-take id (suc n) (i ∷ items) h = ground (arith, h, mem-take id n items)
