-- ===== src/Chat/Keeps/Activation.antt =====
-- Messages in the conversation or queued for it, along the model's turn (`_turn` and `_finish` of
-- turn.py). `p` is any test on messages.
use entourage.Prelude.{
  String, none, some, List, [], ◌∷◌, ◌++◌, Bool, true, false, ◌≡◌, ◌∙◌, ◌>>=◌, ◌+++◌, length,
  decimal, List-cases, subst, inl, inr, arith, Bool-cases, Option-cases, Result, returns, >>=-inv,
  is_some, is_empty, if◌then◌else◌,
}
use entourage.Mail.{Json}
use entourage.Mail.Json.{str}
use entourage.Executables.Types.{Context, Failure}
use entourage.Executables.Context as Staged
use entourage.Chat.Schemas.{object, item, ask_tool}
use entourage.Chat.Calls.{say, run_calls}
use entourage.Panel.{waiting, due, next_deadline}
use entourage.Chat.Types.{Agent, Chat, Message, Outside, Proposed, message}
use entourage.Chat.Inbox.{job_of, sweep, flush}
use entourage.Chat.Turn.{
  proposed, prompt_of, request_of, instant_of, ensure_system_prompt, starts_with_system, assistant,
  wake_after, content_or, has_turn, finish, answer_turn, after_reply, turn, proceed,
}
use entourage.Chat.Keeps.{said, said-flush, said-sweep}
use entourage.Chat.Keeps.Calls.{Keeps, Keeps-same, Keeps-say, Keeps-run_calls}

module _ (p : Message → Bool) where
  -- A proposal's state keeps what a chat said.
  abbrev pub Commits : Chat → Proposed Chat → Type 0
  Commits c q = said p c ≡ true → said p q.state ≡ true

  Commits-same : (c d : Chat) (q r : Proposed Chat) → r ≡ q → Commits c r → Commits c q
  Commits-same c d q r same h = subst (Commits c) same h

  Keeps-ensure_system_prompt :
      (agent : Agent) (x : Context) (c c' : Chat)
      → ensure_system_prompt agent x c ≡ returns c'
      → Keeps p c c'
  unfolding ensure_system_prompt
  Keeps-ensure_system_prompt agent x c c' h = elim (Option-cases agent.system_prompt) [
    | inl no_prompt ↦ Keeps-same p c c c' (ground (arith, h, no_prompt)) (λ before. before)
    | inr (prompt, given) ↦ elim (Bool-cases (starts_with_system c.messages)) [
      | inl there ↦ Keeps-same p c c c' (ground (arith, h, given, there)) (λ before. before)
      | inr new ↦
          let rest : String → Result Failure Chat =
            λ t. returns (record c { messages = message "system" (str t) ∷ c.messages }) in
          let h₁ : (prompt_of prompt x c >>= rest) ≡ returns c' = ground (arith, h, given, new) in
          let (t, _, h₂) = >>=-inv (prompt_of prompt x c) rest h₁ in
          Keeps-same p c (record c { messages = message "system" (str t) ∷ c.messages }) c'
            (ground (arith, h₂)) (λ before. ground (arith, before))
    ]
  ]

  module _ (env : Outside) where
    pub Commits-finish :
        (x : Context) (c : Chat) (ids : List String) (content : Json) (status : String)
        (q : Proposed Chat)
        → finish env x c ids content status ≡ returns q
        → Commits c q
    unfolding finish
    Commits-finish x c ids content status q h = elim (Option-cases c.work) [
      | inl idle ↦ absurd (ground (arith, h, idle))
      | inr (j, job) ↦
          let c' = record c { work = some (record j { status = status }) } in
          let rest : Context × String → Result Failure (Proposed Chat) =
            λ d. returns (record (proposed d.0 c' ids none) { complete = true }) in
          let h₁ : (Staged.reply env.identity x (request_of j)
                  (object (item "text" content ∷ item "status" (str status) ∷ [])) "result"
                >>= rest)
              ≡ returns q =
            ground (arith, h, job) in
          let ((x', event_id), _, h₂) =
            >>=-inv
              (Staged.reply env.identity x (request_of j)
                (object (item "text" content ∷ item "status" (str status) ∷ [])) "result")
              rest h₁ in
          Commits-same c c q (record (proposed x' c' ids none) { complete = true })
            (ground (arith, h₂)) (λ before. before)
    ]

    Commits-answer_turn :
        (agent : Agent) (x : Context) (c : Chat) (ids : List String) (content : Json)
        (q : Proposed Chat)
        → answer_turn env agent x c ids content ≡ returns q
        → Commits c q
    unfolding answer_turn
    Commits-answer_turn agent x c ids content q h = elim (Option-cases (job_of c)) [
      | inr (j, job) ↦ Commits-finish x c ids content "completed" q (ground (arith, h, job))
      | inl no_job ↦ elim (Option-cases agent.output) [
        | inl quiet ↦
            Commits-same c c q (proposed x c ids none) (ground (arith, h, no_job, quiet))
              (λ before. before)
        | inr (address, out) ↦
            let rest : Context × String → Result Failure (Proposed Chat) =
              λ d. returns (proposed d.0 c ids none) in
            let sent =
              Staged.send env.identity x address (object (item "text" content ∷ []))
                ("answer:" +++ decimal (length c.messages)) "message" none in
            let h₁ : (sent >>= rest) ≡ returns q = ground (arith, h, no_job, out) in
            let ((x', event_id), _, h₂) = >>=-inv sent rest h₁ in
            Commits-same c c q (proposed x' c ids none) (ground (arith, h₂)) (λ before. before)
      ]
    ]

    Commits-after_reply :
        (agent : Agent) (x : Context) (c : Chat) (ids : List String) (m : Message)
        (q : Proposed Chat)
        → after_reply env agent x c ids m ≡ returns q
        → Commits c q
    unfolding after_reply
    Commits-after_reply agent x c ids m q h before =
        let c₁ = say c m in
        let kept = Keeps-say p c m before in
        elim (List-cases m.tool_calls) [
          | inl answers ↦
              Commits-answer_turn agent x c₁ ids (content_or m.content) q
                (ground (arith, h, answers)) kept
          | inr (call, calls, calls_are) ↦
              let rest : Context × Chat × Bool → Result Failure (Proposed Chat) =
                λ d. returns (proposed d.0 d.1 ids (wake_after d.1 d.2)) in
              let h₁ : (run_calls env agent x c₁ (call ∷ calls) false >>= rest) ≡ returns q =
                ground (arith, h, calls_are) in
              let ((x', c', asked), ran, h₂) =
                >>=-inv (run_calls env agent x c₁ (call ∷ calls) false) rest h₁ in
              Commits-same c' c' q (proposed x' c' ids (wake_after c' asked)) (ground (arith, h₂))
                (λ k. k)
                (Keeps-run_calls p env agent x x' c₁ c' (call ∷ calls) false asked ran kept)
        ]

    Commits-turn :
        (agent : Agent) (x : Context) (c : Chat) (ids : List String) (q : Proposed Chat)
        → turn env agent x c ids ≡ returns q
        → Commits c q
    unfolding turn
    Commits-turn agent x c ids q h =
        let (c₁, prompted, h₁) = >>=-inv (ensure_system_prompt agent x c) _ h in
        let (answered, _, h₂) =
          >>=-inv
            (agent.complete c₁.messages
              (agent.schemas ++ (if is_some (job_of c₁) then ask_tool ∷ [] else [])))
            _ h₁ in
        let (m, _, h₃) = >>=-inv (assistant answered) _ h₂ in
        λ before.
          Commits-after_reply agent x c₁ ids m q h₃
            (Keeps-ensure_system_prompt agent x c c₁ prompted before)

    pub Commits-proceed :
        (agent : Agent) (x : Context) (c : Chat) (ids : List String) (q : Proposed Chat)
        → proceed env agent x c ids ≡ returns q
        → Commits c q
    unfolding proceed
    Commits-proceed agent x c ids q h before =
        let ready = sweep (due c.panel.table env.now) c in
        let c' = flush ready in
        let kept : said p c' ≡ true = said-flush p ready (said-sweep p _ c ∙ before) in
        elim (Bool-cases x.has_more) [
          | inl more ↦
              Commits-same c' c' q (proposed x c' ids none) (ground (arith, h, more)) (λ k. k) kept
          | inr all ↦ elim (Bool-cases (is_empty (waiting c'.panel.table))) [
            | inr held ↦
                Commits-same c' c' q (proposed x c' ids (instant_of (next_deadline c'.panel.table)))
                  (ground (arith, h, all, held)) (λ k. k) kept
            | inl free ↦ elim (Bool-cases (has_turn c')) [
              | inl answers ↦
                  Commits-turn agent x c' ids q (ground (arith, h, all, free, answers)) kept
              | inr idle ↦
                  Commits-same c' c' q (proposed x c' ids none) (ground (arith, h, all, free, idle))
                    (λ k. k) kept
            ]
          ]
        ]
