-- ===== src/Assistant/Session/Streamed.antt =====
-- backend/src/assistant/session.rs: the events of a turn, in their order.
use rav.Common.{
  ℕ, zero, suc, ◌≡◌, refl, ◌⊎◌, inl, inr, Bool, true, false, Option, none, some, List, [], ◌∷◌,
  ◌++◌, leb, if-both, map, Text, Result, ok, err, All, All-append,
}
use rav.Assistant.{AssistantEvent, ToolCall, ChatMessage, ModelReply, ModelError, SourceRef}
use rav.Assistant.Tools.{Library, MailAccess, MessageContent}
use rav.Assistant.Tools.Cited.{IsCited, IsBacked, new-IsCited, cite-IsCited}
use rav.Assistant.Tools.Backed.{run_tool-IsCited}
use rav.Assistant.Session.{
  Turn, TurnRequest, Ending, ask, run_call, run_calls, unless_done, replied, replied_last,
  run_steps, run_turn, finish, first_turn, listed, max_steps, spent, max_tool_calls_per_step,
  opened, open_message,
}

-- What is emitted while the turn runs.
abbrev pub IsProgress : AssistantEvent → Type 0
IsProgress (AssistantEvent.status t) = Unit
IsProgress (AssistantEvent.text t) = Unit
IsProgress (AssistantEvent.sources s) = true ≡ false
IsProgress (AssistantEvent.draft d) = true ≡ false
IsProgress (AssistantEvent.action p) = true ≡ false
IsProgress (AssistantEvent.error t r) = true ≡ false
IsProgress (AssistantEvent.done i o) = true ≡ false

abbrev pub IsRunning : Turn → Type 0
IsRunning t = All IsProgress t.events × IsCited t.ctx

-- An error ends the turn at once.
abbrev pub IsFailure : List AssistantEvent → Type 0
IsFailure events =
    (front : List AssistantEvent) × (text : Text) × (again : Bool) × All IsProgress front
    × (events ≡ front ++ AssistantEvent.error text again ∷ [])

-- An answer ends with the sources, if there are any, what is proposed about them, and `Done`.
abbrev pub IsAnswer : List AssistantEvent → Type 0
IsAnswer events =
    (front : List AssistantEvent) × (sources : List SourceRef) × (proposals : List AssistantEvent)
    × (input : ℕ) × (output : ℕ) × All IsProgress front
    × All (IsBacked sources) proposals
    × (events ≡ front ++ (listed sources ++ (proposals ++ AssistantEvent.done input output ∷ [])))

abbrev pub IsEnded : Ending → Type 0
IsEnded (Ending.answered t) = IsRunning t
IsEnded (Ending.failed t) = IsFailure t.events

texts-IsProgress : (deltas : List Text) → All IsProgress (map AssistantEvent.text deltas)
texts-IsProgress [] = tt
texts-IsProgress (d ∷ deltas) = (tt, texts-IsProgress deltas)

pub first_turn-IsRunning : (mail : MailAccess) (req : TurnRequest) → IsRunning (first_turn mail req)
unfolding first_turn
first_turn-IsRunning mail req = (tt, by_mail (open_message mail req.open_mail))
  where
    by_mail : (o : Option MessageContent) → IsCited (opened o).1
    by_mail none = new-IsCited
    by_mail (some m) = cite-IsCited m.loc m.subject m.from m.date _ new-IsCited

module _ (lib : Library)
    (complete : List ChatMessage → Bool → List Text × Result ModelReply ModelError)
    (mail : List ChatMessage → MailAccess) (draw_id : List ChatMessage → Text) where
  run_call-IsRunning :
      (i : ℕ) (call : ToolCall) (t : Turn)
      → IsRunning t
      → IsRunning (run_call lib complete mail draw_id i call t)
  unfolding run_call
  run_call-IsRunning i call t w = if-both IsRunning (leb max_tool_calls_per_step i) w (
    All-append IsProgress t.events _ w.0 (tt, tt),
    run_tool-IsCited lib (mail t.messages) t.ctx w.1 (draw_id t.messages) call.function.name
        call.function.arguments,
  )

  run_calls-IsRunning :
      (i : ℕ) (calls : List ToolCall) (t : Turn)
      → IsRunning t
      → IsRunning (run_calls lib complete mail draw_id i calls t)
  unfolding run_calls
  run_calls-IsRunning i [] t w = w
  run_calls-IsRunning i (call ∷ calls) t w =
      run_calls-IsRunning (suc i) calls _ (run_call-IsRunning i call t w)

  ask-IsRunning :
      (tools : Bool) (t : Turn) → IsRunning t → IsRunning (ask lib complete mail draw_id tools t).1
  unfolding ask
  ask-IsRunning tools t w =
      (All-append IsProgress t.events _ w.0 (texts-IsProgress (complete t.messages tools).0), w.1)

  failed-IsEnded :
      (e : ModelError) (t : Turn) (more : Turn → Ending)
      → IsRunning t
      → IsEnded (replied lib complete mail draw_id more (err e, t))
  failed-IsEnded (ModelError.retryable e) t more w = (t.events, _, _, w.0, refl)
  failed-IsEnded (ModelError.fatal e) t more w = (t.events, _, _, w.0, refl)

  replied-IsEnded :
      (more : Turn → Ending)
      → ((t : Turn) → IsRunning t → IsEnded (more t))
      → (r : Result ModelReply ModelError) (t : Turn) → IsRunning t
      → IsEnded (replied lib complete mail draw_id more (r, t))
  replied-IsEnded more h (err e) t w = failed-IsEnded e t more w
  replied-IsEnded more h (ok reply) t w = by_calls reply.tool_calls
    where
      by_calls :
          (calls : List ToolCall)
          → IsEnded (unless_done lib complete mail draw_id more reply calls (spent reply t))
      by_calls [] = w
      by_calls (call ∷ calls) = h _ (run_calls-IsRunning 0 (call ∷ calls) _ w)

  replied_last-IsEnded :
      (r : Result ModelReply ModelError) (t : Turn)
      → IsRunning t
      → IsEnded (replied_last lib complete mail draw_id (r, t))
  replied_last-IsEnded (err e) t w = failed-IsEnded e t Ending.answered w
  replied_last-IsEnded (ok reply) t w = w

  pub run_steps-IsEnded :
      (left : ℕ) (t : Turn) → IsRunning t → IsEnded (run_steps lib complete mail draw_id left t)
  unfolding run_steps
  run_steps-IsEnded zero t w = replied_last-IsEnded _ _ (ask-IsRunning false _ w)
  run_steps-IsEnded (suc left) t w =
      replied-IsEnded (run_steps lib complete mail draw_id left) (run_steps-IsEnded left) _ _
        (ask-IsRunning true t w)

  finish-IsStreamed :
      (e : Ending) → IsEnded e → IsFailure (finish e).events ⊎ IsAnswer (finish e).events
  finish-IsStreamed (Ending.failed t) h = inl h
  finish-IsStreamed (Ending.answered t) h = inr (
    t.events, t.ctx.sources, t.ctx.proposals, t.input_tokens, t.output_tokens, h.0, h.1.backed,
    refl,
  )

  -- Whatever the model answers and the mailbox holds, a turn emits statuses and texts, and then either
  -- one error and nothing more, or the sources if there are any, the proposals and one `Done` at the very
  -- end; each proposal is about messages that are among the sources of the same turn.
  pub run_turn-IsStreamed :
      (req : TurnRequest)
      → IsFailure (run_turn lib complete mail draw_id req).events
        ⊎ IsAnswer (run_turn lib complete mail draw_id req).events
  unfolding run_turn
  run_turn-IsStreamed req =
      finish-IsStreamed _ (run_steps-IsEnded max_steps _ (first_turn-IsRunning (mail []) req))
