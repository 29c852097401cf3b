-- ===== src/Chat/Keeps/Calls.antt =====
-- Messages in the conversation or queued for it, along the tool calls of a reply (`_run_call` and its
-- parts of turn.py). `p` is any test on messages.
use entourage.Prelude.{
  ℕ, String, Option, none, some, List, [], ◌∷◌, Bool, true, false, ◌||◌, ◌==◌, ◌≡◌, subst, inl, inr,
  arith, Bool-cases, Option-cases, any-append, lookup, change, Result, returns, ◌>>=◌, >>=-inv,
  >>-inv, absent_or, mem_text, if◌then◌else◌,
}
use entourage.Mail.{Json, get}
use entourage.Mail.Json.{str}
use entourage.Executables.Types.{Context, Failure, value_error, type_error}
use entourage.Executables.Context as Staged
use entourage.Executables.Context.{is_object}
use entourage.Panel as Table
use entourage.Panel.{Work}
use entourage.Chat.Types.{Agent, Call, Chat, Job, Message, Pipe, Outside, tool_message}
use entourage.Chat.Schemas.{object}
use entourage.Chat.Tools.{Content, final, deferred, run_tool}
use entourage.Chat.Inbox.{job_of, with_table}
use entourage.Chat.Calls.{
  argument, panel_call, say, text_payload, find_argument, offered, started, chosen_mode, open_panel,
  delegate, steer_work, answer_work, send_answer, cancel_work, send_cancel, release_call,
  without_controls, control_entry, control, conclude, ask_job, ask_or_run, run_call, run_calls,
}
use entourage.Chat.Keeps.{said}

module _ (p : Message → Bool) where
  -- A chat keeps what another said.
  abbrev pub Keeps : Chat → Chat → Type 0
  Keeps c c' = said p c ≡ true → said p c' ≡ true

  pub Keeps-say : (c : Chat) (m : Message) → Keeps c (say c m)
  Keeps-say c m h = ground (arith, h, any-append p c.messages (m ∷ []))

  -- A chat that is one that keeps.
  pub Keeps-same : (c d c' : Chat) → d ≡ c' → Keeps c d → Keeps c c'
  Keeps-same c d c' same h = subst (Keeps c) same h

  module _ (env : Outside) where
    Keeps-open_panel :
        (x x' : Context) (c c' : Chat) (definition : String) (child_state payload : Json)
        (call : Call) (label mode : String) (until : Option ℕ) (interruptible : Bool)
        (id child : String)
        → open_panel env x c definition child_state payload call label mode until interruptible
          ≡ returns (x', c', id, child)
        → Keeps c c'
    unfolding open_panel
    Keeps-open_panel x x' c c' definition child_state payload call label mode until interruptible id
          child h =
        let (_, h₁) = >>-inv (mode == "wait" || mode == "connected") value_error _ h in
        let ((x₁, work), _, h₂) =
          >>=-inv (Staged.spawn env.identity x definition child_state call.id) _ h₁ in
        let ((x₂, asked), _, h₃) =
          >>=-inv (Staged.request env.identity x₁ work payload call.id) _ h₂ in
        let (table, _, h₄) =
          >>=-inv
            (panel_call (
              Table.open_work c.panel.table work asked label mode (some call.id) until
                interruptible))
            _ h₃ in
        Keeps-same c (with_table c table) c' (ground (arith, h₄)) (λ before. before)

    Keeps-delegate :
        (x x' : Context) (c c' : Chat) (call : Call) (pipe : Pipe) (arguments : Json)
        → delegate env x c call pipe arguments ≡ returns (x', c')
        → Keeps c c'
    unfolding delegate
    Keeps-delegate x x' c c' call pipe arguments h =
        let (_, h₁) = >>-inv (is_object arguments) type_error _ h in
        let (task, _, h₂) = >>=-inv (argument "task" arguments) _ h₁ in
        let ((x₁, c₁, id, work), opened, h₃) = >>=-inv _ _ h₂ in
        let keeps = Keeps-open_panel x x₁ c c₁ _ _ _ call _ _ _ _ id work opened in
        elim (Bool-cases (chosen_mode pipe arguments == "connected")) [
          | inl connected ↦
              Keeps-same c (say c₁ (started call pipe work)) c' (ground (arith, h₃, connected))
                (λ before. Keeps-say c₁ (started call pipe work) (keeps before))
          | inr waits ↦ Keeps-same c c₁ c' (ground (arith, h₃, waits)) keeps
        ]

    Keeps-steer_work :
        (x x' : Context) (c c' : Chat) (call : Call) (arguments : Json) (id : String) (w : Work)
        (t : String)
        → steer_work env x c call arguments id w ≡ returns (x', c', t)
        → Keeps c c'
    Keeps-steer_work x x' c c' call arguments id w t h =
        let (a, _, h₁) = >>=-inv (argument "text" arguments) _ h in
        let ((to, table), _, h₂) = >>=-inv (panel_call (Table.steer c.panel.table id)) _ h₁ in
        let ((x₁, event_id), _, h₃) =
          >>=-inv (Staged.send env.identity x to (text_payload a) call.id "steer" (some id)) _ h₂ in
        Keeps-same c (with_table c table) c' (ground (arith, h₃)) (λ before. before)

    Keeps-answer_work :
        (x x' : Context) (c c' : Chat) (call : Call) (arguments : Json) (id : String) (w : Work)
        (t : String)
        → answer_work env x c call arguments id w ≡ returns (x', c', t)
        → Keeps c c'
    Keeps-answer_work x x' c c' call arguments id w t h =
        elim (Bool-cases (w.status == "input_required")) [
          | inr nothing ↦ Keeps-same c c c' (ground (arith, h, nothing)) (λ before. before)
          | inl asked ↦
              let h' : send_answer env x c call arguments id w ≡ returns (x', c', t) =
                ground (arith, h, asked) in
              let (a, _, h₁) = >>=-inv (argument "text" arguments) _ h' in
              let ((to, table), _, h₂) =
                >>=-inv (panel_call (Table.answer c.panel.table id)) _ h₁ in
              let ((x₁, event_id), _, h₃) =
                >>=-inv (Staged.send env.identity x to (text_payload a) call.id "answer" (some id))
                  _ h₂ in
              Keeps-same c (with_table c table) c' (ground (arith, h₃)) (λ before. before)
        ]

    Keeps-release_call : (c : Chat) (w : Work) → Keeps c (release_call c w)
    Keeps-release_call c w before = elim (Bool-cases (w.mode == "wait")) [
      | inl waits ↦ rw waits before
      | inr connected ↦ rw connected before
    ]

    Keeps-cancel_work :
        (x x' : Context) (c c' : Chat) (call : Call) (id : String) (w : Work) (t : String)
        → cancel_work env x c call id w ≡ returns (x', c', t)
        → Keeps c c'
    Keeps-cancel_work x x' c c' call id w t h = elim (Bool-cases (w.status == "cancelled")) [
      | inl again ↦ Keeps-same c c c' (ground (arith, h, again)) (λ before. before)
      | inr first ↦
          let h' : send_cancel env x c call id w ≡ returns (x', c', t) = ground (arith, h, first) in
          let ((to, table), _, h₁) = >>=-inv (panel_call (Table.cancel c.panel.table id)) _ h' in
          let ((x₁, event_id), _, h₂) =
            >>=-inv (Staged.send env.identity x to (object []) call.id "cancel" (some id)) _ h₁ in
          Keeps-same c (release_call (with_table c table) w) c' (ground (arith, h₂))
            (Keeps-release_call (with_table c table) w)
    ]

    Keeps-control :
        (x x' : Context) (c c' : Chat) (call : Call) (name : String) (arguments : Json) (t : String)
        → control env x c call name arguments ≡ returns (x', c', t)
        → Keeps c c'
    unfolding control control_entry
    Keeps-control x x' c c' call name arguments t h =
        let (_, h₁) = >>-inv (is_object arguments) type_error _ h in
        elim (Option-cases (find_argument c.panel.table (get "work" arguments))) [
          | inl unknown ↦ Keeps-same c c c' (ground (arith, h₁, unknown)) (λ before. before)
          | inr ((id, w), found) ↦ elim (Bool-cases (absent_or (mem_text name) w.grants)) [
            | inr refused ↦
                Keeps-same c c c' (ground (arith, h₁, found, refused)) (λ before. before)
            | inl allowed ↦ elim (Bool-cases (name == "steer")) [
              | inl steers ↦
                  Keeps-steer_work x x' c c' call arguments id w t
                    (ground (arith, h₁, found, allowed, steers))
              | inr no_steer ↦ elim (Bool-cases (name == "answer")) [
                | inl answers ↦
                    Keeps-answer_work x x' c c' call arguments id w t
                      (ground (arith, h₁, found, allowed, no_steer, answers))
                | inr cancels ↦
                    Keeps-cancel_work x x' c c' call id w t
                      (ground (arith, h₁, found, allowed, no_steer, cancels))
              ]
            ]
          ]
        ]

    Keeps-conclude :
        (x x' : Context) (c c' : Chat) (call : Call) (content : Content) (asked : Bool)
        → conclude env x c call content ≡ returns (x', c', asked)
        → Keeps c c'
    unfolding conclude
    Keeps-conclude x x' c c' call (final t) asked h =
        let m = tool_message (some call.id) call.name (str t) in
        Keeps-same c (say c m) c' (ground (arith, h)) (Keeps-say c m)
    Keeps-conclude x x' c c' call (deferred definition payload) asked h =
        let ((x₁, c₁, id, child), opened, h₁) = >>=-inv _ _ h in
        Keeps-same c (with_table c₁ (change id without_controls c₁.panel.table)) c'
          (ground (arith, h₁)) (Keeps-open_panel x x₁ c c₁ _ _ _ call _ _ _ _ id child opened)

    Keeps-ask_job :
        (x x' : Context) (c c' : Chat) (call : Call) (arguments : Json) (j : Job) (asked : Bool)
        → ask_job env x c call arguments j ≡ returns (x', c', asked)
        → Keeps c c'
    Keeps-ask_job x x' c c' call arguments j asked h =
        let (t, _, h₁) = >>=-inv (argument "text" arguments) _ h in
        let ((x₁, event_id), _, h₂) =
          >>=-inv
            (Staged.send env.identity x j.reply_to (text_payload t) call.id "ask"
              (some j.request_id))
            _ h₁ in
        Keeps-conclude x₁ x' (record c { work = some (record j { status = "input_required" }) }) c'
          call _ asked h₂

    Keeps-ask_or_run :
        (agent : Agent) (x x' : Context) (c c' : Chat) (call : Call) (arguments : Json)
        (job : Option Job) (asked : Bool)
        → ask_or_run env agent x c call arguments job ≡ returns (x', c', asked)
        → Keeps c c'
    Keeps-ask_or_run agent x x' c c' call arguments none asked h =
        Keeps-conclude x x' c c' call _ asked h
    Keeps-ask_or_run agent x x' c c' call arguments (some j) asked h =
        elim (Bool-cases (call.name == "ask_caller")) [
          | inl asks ↦ Keeps-ask_job x x' c c' call arguments j asked (ground (arith, h, asks))
          | inr runs ↦
              Keeps-conclude x x' c c' call (run_tool env agent.tools call.name arguments) asked
                (ground (arith, h, runs))
        ]

    Keeps-run_call :
        (agent : Agent) (x x' : Context) (c c' : Chat) (call : Call) (asked : Bool)
        → run_call env agent x c call ≡ returns (x', c', asked)
        → Keeps c c'
    unfolding run_call
    Keeps-run_call agent x x' c c' call asked h =
        let (arguments, _, h₁) =
          >>=-inv (env.loads (if call.arguments == "" then "{}" else call.arguments)) _ h in
        elim (Option-cases (lookup call.name agent.pipes)) [
          | inr (pipe, piped) ↦
              let rest : Context × Chat → Result Failure (Context × Chat × Bool) =
                λ d. returns (d.0, d.1, false) in
              let h₂ : (delegate env x c call pipe arguments >>= rest) ≡ returns (x', c', asked) =
                ground (arith, h₁, piped) in
              let ((x₁, c₁), done, h₃) = >>=-inv (delegate env x c call pipe arguments) rest h₂ in
              Keeps-same c c₁ c' (ground (arith, h₃))
                (Keeps-delegate x x₁ c c₁ call pipe arguments done)
          | inl no_pipe ↦ elim (Bool-cases (offered agent call.name)) [
            | inr other ↦
                Keeps-ask_or_run agent x x' c c' call arguments (job_of c) asked
                  (ground (arith, h₁, no_pipe, other))
            | inl controls ↦
                let h₂ : (control env x c call call.name arguments
                      >>= λ (d : Context × Chat × String). conclude env d.0 d.1 call (final d.2))
                    ≡ returns (x', c', asked) =
                  ground (arith, h₁, no_pipe, controls) in
                let ((x₁, c₁, t), done, h₃) =
                  >>=-inv (control env x c call call.name arguments) _ h₂ in
                λ before.
                  Keeps-conclude x₁ x' c₁ c' call (final t) asked h₃
                    (Keeps-control x x₁ c c₁ call call.name arguments t done before)
          ]
        ]

    pub Keeps-run_calls :
        (agent : Agent) (x x' : Context) (c c' : Chat) (calls : List Call) (asked asked' : Bool)
        → run_calls env agent x c calls asked ≡ returns (x', c', asked')
        → Keeps c c'
    unfolding run_calls
    Keeps-run_calls agent x x' c c' [] asked asked' h =
        Keeps-same c c c' (ground (arith, h)) (λ before. before)
    Keeps-run_calls agent x x' c c' (call ∷ calls) asked asked' h =
        let ((x₁, c₁, more), ran, h₁) = >>=-inv (run_call env agent x c call) _ h in
        λ before.
          Keeps-run_calls agent x₁ x' c₁ c' calls (asked || more) asked' h₁
            (Keeps-run_call agent x x₁ c c₁ call more ran before)
