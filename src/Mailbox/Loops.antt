-- ===== src/Mailbox/Loops.antt =====
-- What the loops of a mailbox do to a queue (`claim`, `acknowledge` and `release` of
-- entourage/mailbox.py).
use entourage.Prelude.{
  ℕ, zero, suc, String, List, [], ◌∷◌, Bool, true, false, ◌≡◌, refl, ap, map, select, All, arith,
  inl, inr, Bool-cases, take, sym, ◌∙◌,
}
use entourage.Mailbox.Types.{Item, claimable}
use entourage.Mailbox.Queue.{claim_items, take_lease, visit}

module _ (consumer : String) (now until : ℕ) (n : ℕ) (i : Item) (items : List Item) where
  pub claim_items_takes :
      claimable now i ≡ true
      → claim_items consumer now until (suc n) (i ∷ items) ≡ (
        take_lease consumer until i ∷ (claim_items consumer now until n items).0,
        take_lease consumer until i ∷ (claim_items consumer now until n items).1,
      )
  unfolding claim_items
  claim_items_takes can = rw (can, claim_items) refl

  pub claim_items_skips :
      claimable now i ≡ false
      → claim_items consumer now until (suc n) (i ∷ items) ≡ (
        i ∷ (claim_items consumer now until (suc n) items).0,
        (claim_items consumer now until (suc n) items).1,
      )
  unfolding claim_items
  claim_items_skips not_now = rw (not_now, claim_items) refl

module _ (consumer : String) (now until : ℕ) where
  -- A claim leases the first claimable events of the queue, in order.
  pub claim_items-got :
      (n : ℕ) (items : List Item)
      → (claim_items consumer now until n items).1
        ≡ map (take_lease consumer until) (take n (select (claimable now) items))
  claim_items-got zero items = unfold claim_items in refl
  claim_items-got (suc n) [] = unfold claim_items select in refl
  claim_items-got (suc n) (i ∷ items) = elim (Bool-cases (claimable now i)) [
    | inl can ↦
        let selected : select (claimable now) (i ∷ items) ≡ i ∷ select (claimable now) items =
          unfold select in rw can refl in
        rw (claim_items_takes consumer now until n i items can, selected)
          (ap (◌∷◌ (take_lease consumer until i)) (claim_items-got n items))
    | inr not_now ↦
        let selected : select (claimable now) (i ∷ items) ≡ select (claimable now) items =
          unfold select in rw not_now refl in
        rw (claim_items_skips consumer now until n i items not_now, selected)
          (claim_items-got (suc n) items)
  ]

  pub claim_items-keeps {κ} :
      {B : Type κ} (g : Item → B) (n : ℕ) (items : List Item)
      → ((i : Item) → g (take_lease consumer until i) ≡ g i)
      → map g (claim_items consumer now until n items).0 ≡ map g items
  claim_items-keeps g zero items same = unfold claim_items in refl
  claim_items-keeps g (suc n) [] same = unfold claim_items in refl
  claim_items-keeps g (suc n) (i ∷ items) same = elim (Bool-cases (claimable now i)) [
    | inl can ↦
        rw (claim_items_takes consumer now until n i items can, same i)
          (ap (◌∷◌ (g i)) (claim_items-keeps g n items same))
    | inr not_now ↦
        rw (claim_items_skips consumer now until n i items not_now)
          (ap (◌∷◌ (g i)) (claim_items-keeps g (suc n) items same))
  ]

  pub claim_items-All {κ} :
      (P : Item → Type κ) (n : ℕ) (items : List Item)
      → ((i : Item) → claimable now i ≡ true → P i → P (take_lease consumer until i))
      → All P items
      → All P (claim_items consumer now until n items).0
  claim_items-All P zero items keep h = unfold claim_items in h
  claim_items-All P (suc n) [] keep h = unfold claim_items in tt
  claim_items-All P (suc n) (i ∷ items) keep h = elim (Bool-cases (claimable now i)) [
    | inl can ↦
        rw (claim_items_takes consumer now until n i items can)
          (keep i can h.0, claim_items-All P n items keep h.1)
    | inr not_now ↦
        rw (claim_items_skips consumer now until n i items not_now)
          (h.0, claim_items-All P (suc n) items keep h.1)
  ]

module _ (chosen : Item → Bool) (may : ℕ → Item → Bool) (f : ℕ → Item → Item) where
  module _ (k : ℕ) (i : Item) (items : List Item) where
    visit_skips :
        chosen i ≡ false
        → visit chosen may f k (i ∷ items)
          ≡ (i ∷ (visit chosen may f k items).0, (visit chosen may f k items).1)
    unfolding visit
    visit_skips out = rw (out, visit) refl

    visit_stops :
        chosen i ≡ true → may k i ≡ false → visit chosen may f k (i ∷ items) ≡ (i ∷ items, false)
    unfolding visit
    visit_stops wanted cannot = rw (wanted, cannot, visit) refl

    visit_changes :
        chosen i ≡ true
        → may k i ≡ true
        → visit chosen may f k (i ∷ items)
          ≡ (f k i ∷ (visit chosen may f (suc k) items).0, (visit chosen may f (suc k) items).1)
    unfolding visit
    visit_changes wanted can = rw (wanted, can, visit) refl

  pub visit-keeps {κ} :
      {B : Type κ} (g : Item → B) (k : ℕ) (items : List Item)
      → ((k : ℕ) (i : Item) → g (f k i) ≡ g i)
      → map g (visit chosen may f k items).0 ≡ map g items
  visit-keeps g k [] same = unfold visit in refl
  visit-keeps g k (i ∷ items) same = elim (Bool-cases (chosen i)) [
    | inl wanted ↦ elim (Bool-cases (may k i)) [
      | inl can ↦
          rw (visit_changes k i items wanted can, same k i)
            (ap (◌∷◌ (g i)) (visit-keeps g (suc k) items same))
      | inr cannot ↦ rw (visit_stops k i items wanted cannot) refl
    ]
    | inr out ↦ rw (visit_skips k i items out) (ap (◌∷◌ (g i)) (visit-keeps g k items same))
  ]

  pub visit-All {κ} :
      (P : Item → Type κ) (k : ℕ) (items : List Item)
      → ((k : ℕ) (i : Item) → chosen i ≡ true → may k i ≡ true → P i → P (f k i))
      → All P items
      → All P (visit chosen may f k items).0
  visit-All P k [] keep h = unfold visit in tt
  visit-All P k (i ∷ items) keep h = elim (Bool-cases (chosen i)) [
    | inl wanted ↦ elim (Bool-cases (may k i)) [
      | inl can ↦
          rw (visit_changes k i items wanted can)
            (keep k i wanted can h.0, visit-All P (suc k) items keep h.1)
      | inr cannot ↦ rw (visit_stops k i items wanted cannot) h
    ]
    | inr out ↦ rw (visit_skips k i items out) (h.0, visit-All P k items keep h.1)
  ]

  -- A loop that was not stopped has changed every chosen event.
  pub visit-done {κ} :
      (P : Item → Type κ) (k : ℕ) (items : List Item)
      → (visit chosen may f k items).1 ≡ true
      → ((k : ℕ) (i : Item) → chosen i ≡ true → P (f k i))
      → ((i : Item) → chosen i ≡ false → P i)
      → All P (visit chosen may f k items).0
  visit-done P k [] done new old = unfold visit in tt
  visit-done P k (i ∷ items) done new old = elim (Bool-cases (chosen i)) [
    | inl wanted ↦ elim (Bool-cases (may k i)) [
      | inl can ↦
          let step = visit_changes k i items wanted can in
          rw step
            (new k i wanted, visit-done P (suc k) items (sym (ap (λ r. r.1) step) ∙ done) new old)
      | inr cannot ↦
          absurd (ground (arith, ap (λ r. r.1) (visit_stops k i items wanted cannot), done))
    ]
    | inr out ↦
        let step = visit_skips k i items out in
        rw step (old i out, visit-done P k items (sym (ap (λ r. r.1) step) ∙ done) new old)
  ]
