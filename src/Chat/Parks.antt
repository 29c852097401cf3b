-- ===== src/Chat/Parks.antt =====
-- Activations without a model call, and replies of cancelled work (`resume` and `_fold` of turn.py,
-- `ingest` of panel.py).
use entourage.Prelude.{
  returns, zero, suc, false, ◌⊎◌, String, Option, some, List, [], ◌∷◌, true, ◌==◌, ◌≡◌, refl, ap,
  inl, inr, arith, Bool-cases, Option-cases, Result-cases, Dict, lookup, lookup-change,
  lookup-assign, lookup-pop, Result, mem_text, eq_refl,
}
use entourage.Mail.{Json, Event, truthy}
use entourage.Mail.Json.{null, bool, num, str, arr, obj}
use entourage.Mail.Items.{nil, cons}
use entourage.Executables.Context.{is_object}
use entourage.Executables.Types.{Context, Failure}
use entourage.Exchanges as Base
use entourage.Exchanges.{Pending, Reply, matched, reply_of, reply_kinds}
use entourage.Panel.{Work}
use entourage.Panel.Ingest as Replies
use entourage.Panel.Ingest.{
  Entries, pending_all, pending_of, entry_of, change_entry, close_entry, close_all, noted, note_all,
}
use entourage.Chat.Types.{Agent, Chat, Message, Outside, event_ids}
use entourage.Chat.Inbox.{reply_text, fold_all, fold_entry, take_one, goes_on, cancelled}
use entourage.Chat.Turn.{take_all, proceed, resume}

abbrev pub with_model : Agent → (List Message → List Json → Result Failure (Option Message)) → Agent
with_model agent complete = record agent { complete = complete }

module _ (env : Outside) (agent : Agent)
    (complete : List Message → List Json → Result Failure (Option Message)) (x : Context) where
  take_all_parks :
      x.has_more ≡ true
      → (c : Chat) (ids : List String) (es : List Event)
      → take_all env (with_model agent complete) x c ids es ≡ take_all env agent x c ids es
  unfolding take_all proceed
  take_all_parks more c ids [] = rw more refl
  take_all_parks more c ids (e ∷ es) = elim (Result-cases (take_one env c e)) [
    | inr (f, raised) ↦ rw (raised, take_all) refl
    | inl (cancelled, gone) ↦ rw (gone, take_all) refl
    | inl (goes_on c', taken) ↦ rw (taken, take_all) (take_all_parks more c' ids es)
  ]

  -- While more mail is queued than was delivered, what the activation proposes does not depend on the
  -- model: the batch is checkpointed without a model call.
  pub resume_parks :
      (c : Chat) (mail : List Event)
      → x.has_more ≡ true
      → resume env (with_model agent complete) x c mail ≡ resume env agent x c mail
  unfolding resume
  resume_parks c mail more = elim (Result-cases (event_ids mail)) [
    | inr (f, raised) ↦ rw (raised, resume) refl
    | inl (ids, named) ↦ elim (Result-cases (Replies.ingest env.shown mail c.panel.table)) [
      | inr (f, unread) ↦ rw (named, unread, resume) refl
      | inl ((replies, others, entries), split) ↦
          elim (Result-cases (fold_all env replies (record c { panel = entries }))) [
            | inr (f, unfolded) ↦ rw (named, split, unfolded, resume) refl
            | inl (c', folded) ↦
                rw (named, split, folded, resume) (take_all_parks more c' ids others)
          ]
    ]
  ]

lookup-pending_all :
    (id : String) (table : Dict Work) (w : Work)
    → lookup id table ≡ some w
    → lookup id (pending_all table) ≡ some (pending_of w)
unfolding lookup
lookup-pending_all id [] w h = cc
lookup-pending_all id (e ∷ es) w h = elim (Bool-cases (e.key == id)) [
  | inl same ↦ ground (arith, h, same)
  | inr other ↦ rw (other, lookup) (lookup-pending_all id es w (ground (arith, h, other)))
]

entry_of-table :
    (id : String) (table : Dict Work) (w : Work)
    → lookup id table ≡ some w
    → entry_of (record { table = table; closed = [] }) id ≡ some w
unfolding entry_of
entry_of-table id table w h = ground (arith, h)

entry_of-change_entry :
    (id : String) (f : Work → Work) (es : Entries) (w : Work)
    → entry_of es id ≡ some w
    → entry_of (change_entry id f es) id ≡ some (f w)
unfolding entry_of change_entry
entry_of-change_entry id f es w h = elim (Option-cases (lookup id es.table)) [
  | inl out ↦ ground (arith, h, out, lookup-change id f es.closed)
  | inr (v, there) ↦ ground (arith, h, there, lookup-change id f es.table)
]

entry_of-close_entry :
    (r : Reply) (es : Entries) (w : Work)
    → entry_of es r.request_id ≡ some w
    → entry_of (close_entry r es) r.request_id ≡ some w
unfolding entry_of
entry_of-close_entry r es w h = elim (Bool-cases (r.kind == "result")) [
  | inr stays ↦ rw stays h
  | inl closes ↦ elim (Option-cases (lookup r.request_id es.table)) [
    | inl out ↦
        ground (
          arith,
          h,
          closes,
          out,
          lookup-pop r.request_id r.request_id es.table,
          eq_refl r.request_id,
        )
    | inr (v, there) ↦ ground (
      arith,
      h,
      closes,
      there,
      lookup-pop r.request_id r.request_id es.table,
      lookup-assign r.request_id r.request_id v es.closed,
      eq_refl r.request_id,
    )
  ]
]

noted_fenced :
    (env : Outside) (r : Reply) (w : Work)
    → w.status ≡ "cancelled"
    → noted env.shown r w ≡ returns (record w { fenced = true })
unfolding noted
noted_fenced env r w over = ground (arith, ap (λ s. s == "cancelled") over)

cancelled_matched :
    (table : Dict Work) (e : Event) (id kind : String) (w : Work)
    → lookup id table ≡ some w
    → e.kind ≡ some kind
    → mem_text kind reply_kinds ≡ true
    → e.request_id ≡ some id
    → e.source ≡ some w.to
    → matched (pending_all table) e ≡ some (reply_of e kind id (pending_of w))
unfolding matched
cancelled_matched table e id kind w here given replies tagged from =
    ground (arith, given, replies, tagged, from, lookup-pending_all id table w here, eq_refl w.to)

-- A payload of which `(payload or {}).get` reads a key: a falsy one, or an object.
abbrev pub Readable : Json → Type 0
Readable payload = (truthy payload ≡ false) ⊎ (is_object payload ≡ true)

-- The text of a reply with such a payload is read.
reply_text-Readable :
    (payload : Json) → Readable payload → (t : Json) × (reply_text payload ≡ returns t)
reply_text-Readable (obj fields) h = (_, refl)
reply_text-Readable null h = (_, refl)
reply_text-Readable (bool false) h = (_, refl)
reply_text-Readable (bool true) h = absurd (ground arith)
reply_text-Readable (num zero) h = (_, refl)
reply_text-Readable (num (suc n)) h = absurd (ground arith)
reply_text-Readable (arr nil) h = (_, refl)
reply_text-Readable (arr (cons j js)) h = absurd (ground arith)
reply_text-Readable (str s) h = elim (Bool-cases (s == "")) [
  | inl empty ↦ (str "", rw empty refl)
  | inr written ↦ absurd (ground arith)
]

fold_entry-fenced :
    (env : Outside) (c : Chat) (r : Reply) (w : Work)
    → w.fenced ≡ true
    → Readable r.payload
    → fold_entry env c r w ≡ returns c
unfolding fold_entry
fold_entry-fenced env c r w fenced h =
    let (t, read) = reply_text-Readable r.payload h in rw (read, fenced) refl

note_all-cancelled :
    (env : Outside) (r : Reply) (es : Entries) (w : Work)
    → entry_of es r.request_id ≡ some w
    → w.status ≡ "cancelled"
    → note_all env.shown (r ∷ []) es
      ≡ returns (change_entry r.request_id (λ (old : Work). record w { fenced = true }) es)
unfolding note_all
note_all-cancelled env r es w there over = ground (arith, there, noted_fenced env r w over)

fold_all-fenced :
    (env : Outside) (c : Chat) (r : Reply) (w : Work)
    → entry_of c.panel r.request_id ≡ some w
    → w.fenced ≡ true
    → Readable r.payload
    → fold_all env (r ∷ []) c ≡ returns c
unfolding fold_all
fold_all-fenced env c r w there fenced h =
    rw (fold_all, there, fold_entry-fenced env c r w fenced h) refl

-- What cancelled work still sends is discarded, as long as its payload is falsy or an object: an ask,
-- a progress note or a late result of a session whose entry is cancelled is taken in as its reply, no
-- other mail is left, and folding it returns the chat unchanged.
pub cancelled_work_is_silent :
    (env : Outside) (c : Chat) (e : Event) (id kind : String) (w : Work)
    → lookup id c.panel.table ≡ some w
    → w.status ≡ "cancelled"
    → e.kind ≡ some kind
    → mem_text kind reply_kinds ≡ true
    → e.request_id ≡ some id
    → e.source ≡ some w.to
    → Readable e.payload
    → (entries : Entries) × (Replies.ingest env.shown (e ∷ []) c.panel.table
        ≡ returns (reply_of e kind id (pending_of w) ∷ [], [], entries))
      × (fold_all env (reply_of e kind id (pending_of w) ∷ []) (record c { panel = entries })
          ≡ returns (record c { panel = entries }))
unfolding Replies.ingest Base.ingest close_all
cancelled_work_is_silent env c e id kind w here over given replies tagged from readable =
    let r = reply_of e kind id (pending_of w) in
    let start : Entries = record { table = c.panel.table; closed = [] } in
    let closed : entry_of (close_entry r start) id ≡ some w =
      entry_of-close_entry r start w (entry_of-table id c.panel.table w here) in
    let after = record w { fenced = true } in
    let entries = change_entry id (λ (old : Work). after) (close_entry r start) in
    let fenced = entry_of-change_entry id (λ (old : Work). after) (close_entry r start) w closed in
    let fits = cancelled_matched c.panel.table e id kind w here given replies tagged from in
    (
      entries,
      rw (fits, Base.ingest)
          (rw (note_all-cancelled env r (close_entry r start) w closed over) refl),
      fold_all-fenced env (record c { panel = entries }) r after fenced refl readable,
    )
