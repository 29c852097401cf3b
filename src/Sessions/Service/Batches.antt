-- ===== src/Sessions/Service/Batches.antt =====
-- The mail that a claim hands out.
use entourage.Prelude.{
  ℕ, zero, suc, String, Option, none, some, List, [], ◌∷◌, false, ◌≡◌, refl, ap, subst, inl, inr,
  arith, returns, Option-cases, length, take, ltb,
}
use native.Mathlib.Numerals.{add-one}
use entourage.Mail.{Event}
use entourage.Sessions.Types.{Store, Activation}
use entourage.Sessions.Table.{pending}
use entourage.Sessions.Mailing.{limited}
use entourage.Sessions.Claim.{Request, claim, batch, more_than, one_more, after_pick, activation}
use entourage.Sessions.Claim.Outcome.{claim-inv, take_lease-inv}

take_one_more :
    (n : ℕ) (l : List Event)
    → (ltb n (length (take (suc n) l)) ≡ ltb n (length l)) × (take n (take (suc n) l) ≡ take n l)
take_one_more zero [] = (refl, refl)
take_one_more zero (e ∷ l) = (ground arith, refl)
take_one_more (suc n) [] = (refl, refl)
take_one_more (suc n) (e ∷ l) = let (h₁, h₂) = take_one_more n l in (ground arith, ap (◌∷◌ e) h₂)

take_short : (n : ℕ) (l : List Event) → ltb n (length l) ≡ false → take (suc n) l ≡ take n l
take_short zero [] h = refl
take_short zero (e ∷ l) h = absurd (ground arith)
take_short (suc n) [] h = refl
take_short (suc n) (e ∷ l) h = ap (◌∷◌ e) (take_short n l (ground arith))

-- Asking for one event more than are wanted tells whether there are more.
batch-one_more :
    (limit : Option ℕ) (l : List Event)
    → (batch limit (limited (one_more limit) l) ≡ limited limit l)
      × (more_than limit (limited (one_more limit) l) ≡ more_than limit l)
batch-one_more none l = (refl, refl)
batch-one_more (some n) l = rw (add-one n) (ground (arith, take_one_more n l, take_short n l))

-- A claim hands out the session's oldest pending mail, at most as many events as it asked for, and
-- `has_more` says whether pending mail was left out.
pub claim_batch :
    (db : Store) (r : Request) (now : ℕ) (token : String) (a : Activation) (db' : Store)
    → claim db r now token ≡ returns (some a, db')
    → (a.events ≡ limited r.max_events (pending db' a.session_id))
      × (a.has_more ≡ more_than r.max_events (pending db' a.session_id))
claim_batch db r now token a db' h =
    let (n, chosen, mid, _, picked, rest) = claim-inv db r now token h in
    elim (Option-cases chosen) [
      | inl nothing ↦ absurd (ground arith)
      | inr (row, e) ↦
          let (_, _, _, _, got) = take_lease-inv r mid now n token row (
            subst (λ c. after_pick r now n token (some (c, mid)) ≡ returns (some a, db')) e rest) in
          let this : activation r row token db' ≡ a = ground arith in
          subst
            (λ (x : Activation).
              (x.events ≡ limited r.max_events (pending db' x.session_id))
              × (x.has_more ≡ more_than r.max_events (pending db' x.session_id)))
            this (batch-one_more r.max_events (pending db' row.id))
    ]
