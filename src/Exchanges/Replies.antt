-- ===== src/Exchanges/Replies.antt =====
-- What `Exchanges.ingest` does with delivered mail (entourage/exchanges.py).
use entourage.Prelude.{
  ◌≤◌, String, none, some, List, [], ◌∷◌, Bool, true, false, ◌≡◌, refl, ap, subst, ◌&&◌, ◌==◌,
  eq_iff, if◌then◌else◌, Dict, lookup, lookup-pop, map, mem_text, All, All-map, any, arith, inl,
  inr, Bool-cases, Option-cases, select, length,
}
use entourage.Mail.{Event}
use entourage.Exchanges.{Pending, Reply, matched, reply_of, reply_kinds, sent_by, close, ingest}
use entourage.Exchanges.Shuffles.{Shuffle, empty, left, right}

-- What a matched reply says of its event and of the table.
pub record IsReplyTo (table : Dict Pending) (r : Reply) : Type 0 where
  pub pending : lookup r.request_id table ≡ some r.entry
  pub asked : r.event.request_id ≡ some r.request_id
  pub sender : sent_by r.event.source r.entry.to ≡ true
  pub kind : r.event.kind ≡ some r.kind
  pub known : mem_text r.kind reply_kinds ≡ true

matched-IsReplyTo :
    (table : Dict Pending) (e : Event) (r : Reply)
    → matched table e ≡ some r
    → IsReplyTo table r × (r.event ≡ e)
unfolding matched
matched-IsReplyTo table e r h = elim (Option-cases e.kind) [
  | inl no_kind ↦ absurd (ground (arith, no_kind, h))
  | inr (kind, k) ↦ elim (Option-cases e.request_id) [
    | inl no_request ↦ absurd (ground (arith, k, no_request, h))
    | inr (id, i) ↦ elim (Option-cases (lookup id table)) [
      | inl unknown ↦ absurd (ground (arith, k, i, unknown, h))
      | inr (p, found) ↦ elim (Bool-cases (mem_text kind reply_kinds && sent_by e.source p.to)) [
        | inl fits ↦
            let same : reply_of e kind id p ≡ r = ground (arith, k, i, found, fits, h) in
            subst (λ (q : Reply). IsReplyTo table q × (q.event ≡ e)) same
              (
                record {
                  pending = found;
                  asked = i;
                  sender = ground (arith, fits);
                  kind = k;
                  known = ground (arith, fits);
                },
                refl,
              )
        | inr other ↦ absurd (ground (arith, k, i, found, other, h))
      ]
    ]
  ]
]

module _ (e : Event) (mail : List Event) (table : Dict Pending) where
  ingest_passes :
      matched table e ≡ none
      → ingest (e ∷ mail) table ≡ record {
        replies = (ingest mail table).replies;
        others = e ∷ (ingest mail table).others;
        table = (ingest mail table).table;
      }
  unfolding ingest
  ingest_passes h = rw (h, ingest) refl

  ingest_matches :
      (r : Reply)
      → matched table e ≡ some r
      → ingest (e ∷ mail) table ≡ record {
        replies = r ∷ (ingest mail (close r table)).replies;
        others = (ingest mail (close r table)).others;
        table = (ingest mail (close r table)).table;
      }
  unfolding ingest
  ingest_matches r h = rw (h, ingest) refl

abbrev event_of : Reply → Event
event_of r = r.event

-- Every delivered event is in exactly one of the two lists that `ingest` returns, the event of a
-- reply or an other one, and both lists keep the order of the mail.
pub ingest_shuffles :
    (mail : List Event) (table : Dict Pending)
    → Shuffle
        (map (λ (r : Reply). r.event) (ingest mail table).replies)
        (ingest mail table).others
        mail
ingest_shuffles [] table = unfold ingest in empty
ingest_shuffles (e ∷ mail) table = elim (Option-cases (matched table e)) [
  | inl out ↦ rw (ingest_passes e mail table out) (right e (ingest_shuffles mail table))
  | inr (r, fits) ↦
      rw (ingest_matches e mail table r fits, (matched-IsReplyTo table e r fits).1)
        (left e (ingest_shuffles mail (close r table)))
]

-- A `result` among the replies that closes this request.
abbrev pub closes : String → Reply → Bool
closes id r = r.kind == "result" && r.request_id == id

lookup-close :
    (id : String) (r : Reply) (table : Dict Pending)
    → lookup id (close r table) ≡ (if closes id r then none else lookup id table)
lookup-close id r table = ground (arith, lookup-pop r.request_id id table)

-- What is pending after a reply was pending before.
close-IsReplyTo :
    (q r : Reply) (table : Dict Pending) → IsReplyTo (close q table) r → IsReplyTo table r
close-IsReplyTo q r table h = record {
  pending = ground (arith, lookup-close r.request_id q table, h.pending);
  asked = h.asked;
  sender = h.sender;
  kind = h.kind;
  known = h.known;
}

-- Every reply that `ingest` reports answers a request that was pending when the mail arrived, comes
-- from the session that was asked, and is a result, an ask or a progress note; so mail from anybody
-- else, or to a request that was never made, is never taken for a reply.
pub ingest_authenticates :
    (mail : List Event) (table : Dict Pending) → All (IsReplyTo table) (ingest mail table).replies
ingest_authenticates [] table = unfold ingest in tt
ingest_authenticates (e ∷ mail) table = elim (Option-cases (matched table e)) [
  | inl out ↦ rw (ingest_passes e mail table out) (ingest_authenticates mail table)
  | inr (r, fits) ↦ rw (ingest_matches e mail table r fits) (
    (matched-IsReplyTo table e r fits).0,
    All-map (IsReplyTo (close r table)) (ingest mail (close r table)).replies
        (λ q h. close-IsReplyTo r q table h) (ingest_authenticates mail (close r table)),
  )
]

-- After `ingest` a request is pending as before, unless one of the replies is its result: then it is
-- closed.
pub ingest-closes_results :
    (mail : List Event) (table : Dict Pending) (id : String)
    → lookup id (ingest mail table).table
      ≡ (if any (closes id) (ingest mail table).replies then none else lookup id table)
ingest-closes_results [] table id = unfold ingest in refl
ingest-closes_results (e ∷ mail) table id = elim (Option-cases (matched table e)) [
  | inl out ↦ rw (ingest_passes e mail table out) (ingest-closes_results mail table id)
  | inr (r, fits) ↦
      let rest = ingest-closes_results mail (close r table) id in
      let here = lookup-close id r table in
      rw (ingest_matches e mail table r fits) (ground (arith, rest, here))
]

none_pending :
    (mail : List Event) (table : Dict Pending) (id : String)
    → lookup id table ≡ none
    → length (select (closes id) (ingest mail table).replies) ≡ 0
unfolding select
none_pending [] table id h = unfold ingest in refl
none_pending (e ∷ mail) table id h = elim (Option-cases (matched table e)) [
  | inl out ↦ rw (ingest_passes e mail table out) (none_pending mail table id h)
  | inr (r, fits) ↦
      let asked = (matched-IsReplyTo table e r fits).0.pending in
      let other : closes id r ≡ false = elim (Bool-cases (closes id r)) [
        | inl mine ↦ absurd (
            ground (
              arith,
              asked,
              h,
              mine,
              ap (λ t. lookup t table) ((eq_iff r.request_id id).0 (ground (arith, mine))),
            ))
        | inr not_mine ↦ not_mine
      ] in
      rw (ingest_matches e mail table r fits, other)
        (none_pending mail (close r table) id (ground (arith, lookup-close id r table, other, h)))
]

-- However many results arrive in one delivery, at most one of them is reported for a request; the
-- others are ordinary mail.
pub ingest_reports_one_result :
    (mail : List Event) (table : Dict Pending) (id : String)
    → length (select (closes id) (ingest mail table).replies) ≤ 1
unfolding select
ingest_reports_one_result [] table id = unfold ingest in omega arith
ingest_reports_one_result (e ∷ mail) table id = elim (Option-cases (matched table e)) [
  | inl out ↦ rw (ingest_passes e mail table out) (ingest_reports_one_result mail table id)
  | inr (r, fits) ↦ elim (Bool-cases (closes id r)) [
    | inl mine ↦
        let rest =
          none_pending mail (close r table) id (ground (arith, lookup-close id r table, mine)) in
        rw (ingest_matches e mail table r fits) (ground (arith, mine, rest))
    | inr other ↦
        let rest = ingest_reports_one_result mail (close r table) id in
        rw (ingest_matches e mail table r fits) (ground (arith, other, rest))
  ]
]
