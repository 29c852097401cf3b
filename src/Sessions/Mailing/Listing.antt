-- ===== src/Sessions/Mailing/Listing.antt =====
-- `list_sessions` with `ready=True` and with `ready=False`.
use entourage.Prelude.{
  ℕ, suc, ◌+◌, String, Option, none, some, List, [], ◌∷◌, Bool, true, false, ◌≡◌, refl, ap, arith,
  map, Result, returns, raises, length, select, length-select_split,
}
use entourage.Sessions.Types.{Store, Status, SessionListing, Session, Error}
use entourage.Sessions.Ready.NullSafe.{ready_clause-ne-none}
use entourage.Sessions.Mailing.{list_sessions, listing, row_listed}

length-map {ℓ κ} :
    {A : Type ℓ} {B : Type κ} (f : A → B) (xs : List A) → length (map f xs) ≡ length xs
length-map f [] = refl
length-map f (x ∷ xs) = ap suc (length-map f xs)

abbrev pub listed : Result Error (List SessionListing) → ℕ
listed (returns rows) = length rows
listed (raises e) = 0

module _ (db : Store) (now : ℕ) (executable : Option String) (status : Option Status)
    (s : Session) where
  row_listed-some :
      row_listed db now executable status none s ≡ true
      → (row_listed db now executable status (some true) s ≡ true
          → row_listed db now executable status (some false) s ≡ false)
        × (row_listed db now executable status (some true) s ≡ false
            → row_listed db now executable status (some false) s ≡ true)
  unfolding row_listed
  row_listed-some h = ground (arith, ready_clause-ne-none db now s)

  row_listed-none :
      row_listed db now executable status none s ≡ false
      → (row_listed db now executable status (some true) s ≡ false)
        × (row_listed db now executable status (some false) s ≡ false)
  unfolding row_listed
  row_listed-none h = ground arith

-- Whatever the other filters, the sessions listed as ready and those listed as not ready are
-- together as many as those listed without the readiness filter.
pub listed_split :
    (db : Store) (now : ℕ) (executable : Option String) (status : Option Status)
    → listed (list_sessions db now executable status (some true) none)
        + listed (list_sessions db now executable status (some false) none)
      ≡ listed (list_sessions db now executable status none none)
unfolding list_sessions
listed_split db now executable status =
    rw (length-map listing (rows (some true)), length-map listing (rows (some false)))
      (rw (length-map listing (rows none)) (
        length-select_split (test (some true)) (test none) (test (some false)) db.sessions
          (λ s. row_listed-some db now executable status s)
          (row_listed-none db now executable status)))
  where
    test : Option Bool → Session → Bool
    test readily = row_listed db now executable status readily

    rows : Option Bool → List Session
    rows readily = select (test readily) db.sessions
