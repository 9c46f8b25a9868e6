-- ===== src/Assistant/Session/Answers.antt =====
-- backend/src/assistant/session.rs: what stands in the requests to the model. The API refuses a request in
-- which a tool call has no tool message.
use rav.Common.{
  ℕ, zero, suc, ◌≡◌, refl, sym, ap, ◌∙◌, subst, inl, inr, Bool, true, false, List, [], ◌∷◌, ◌++◌,
  append_assoc, append-nil, leb, Bool-cases, Text, Result, ok, err, All, All-append,
}
use rav.Assistant.{ToolCall, ChatMessage, ModelReply, ModelError, assistant_tools, tool_message}
use rav.Assistant.Tools.{Library, MailAccess}
use rav.Assistant.Session.{
  Turn, TurnRequest, Ending, ask, run_call, run_calls, unless_done, replied, replied_last,
  run_steps, run_turn, finish, first_turn, max_steps, spent, max_tool_calls_per_step, push,
  budget_used, refusal,
}

-- One tool message for each call, under the id of the call.
abbrev pub answers_to : List ToolCall → List Text → List ChatMessage
answers_to [] answers = []
answers_to (call ∷ calls) [] = []
answers_to (call ∷ calls) (a ∷ answers) = tool_message call.id a ∷ answers_to calls answers

-- An answer for each call, the refusal from the sixth call on.
abbrev pub AreAnswers : Text → ℕ → List ToolCall → List Text → Type 0
AreAnswers refused i [] [] = Unit
AreAnswers refused i [] (a ∷ answers) = true ≡ false
AreAnswers refused i (call ∷ calls) [] = true ≡ false
AreAnswers refused i (call ∷ calls) (a ∷ answers) =
    (leb 5 i ≡ true → a ≡ refused) × AreAnswers refused (suc i) calls answers

-- A conversation after its start: rounds of a message with tool calls and the answers right after it,
-- and the note that the tools are used up.
pub data IsConversation (refused : Text) (start : List ChatMessage)
    : List ChatMessage → Type 0 where
  begun : IsConversation refused start start
  round :
      {ms : List ChatMessage} (content : Text) (calls : List ToolCall) (answers : List Text)
      → IsConversation refused start ms
      → AreAnswers refused 0 calls answers
      → IsConversation refused start
          (ms ++ (assistant_tools content calls ∷ answers_to calls answers))
  out_of_tools :
      {ms : List ChatMessage}
      → IsConversation refused start ms
      → IsConversation refused start (ms ++ budget_used ∷ [])

module _ (lib : Library)
    (complete : List ChatMessage → Bool → List Text × Result ModelReply ModelError)
    (mail : List ChatMessage → MailAccess) (draw_id : List ChatMessage → Text) where
  abbrev pub refused : Text
  refused = refusal lib complete mail draw_id

  run_call-answer :
      (i : ℕ) (call : ToolCall) (t : Turn)
      → (a : Text) × (leb 5 i ≡ true → a ≡ refused)
        × ((run_call lib complete mail draw_id i call t).messages
            ≡ t.messages ++ tool_message call.id a ∷ [])
        × ((run_call lib complete mail draw_id i call t).requests ≡ t.requests)
  unfolding run_call
  run_call-answer i call t = elim (Bool-cases (leb max_tool_calls_per_step i)) [
    | inl e ↦ rw e (refused, (λ k. refl), refl, refl)
    | inr e ↦ rw e (_, (λ k. cc), refl, refl)
  ]

  run_calls-answers :
      (i : ℕ) (calls : List ToolCall) (t : Turn)
      → (answers : List Text) × AreAnswers refused i calls answers
        × ((run_calls lib complete mail draw_id i calls t).messages
            ≡ t.messages ++ answers_to calls answers)
        × ((run_calls lib complete mail draw_id i calls t).requests ≡ t.requests)
  unfolding run_calls
  run_calls-answers i [] t = ([], tt, sym (append-nil t.messages), refl)
  run_calls-answers i (call ∷ calls) t =
      let next = run_call lib complete mail draw_id i call t in
      let (a, late, said, same) = run_call-answer i call t in
      let (answers, others, told, kept) = run_calls-answers (suc i) calls next in
      (
        a ∷ answers,
        (late, others),
        told ∙ ap (λ ms. ms ++ answers_to calls answers) said ∙ append_assoc t.messages _ _,
        kept ∙ same,
      )

  module _ (start : List ChatMessage) where
    abbrev IsTalk : Turn → Type 0
    IsTalk t =
        IsConversation refused start t.messages
        × All (λ r. IsConversation refused start r.0) t.requests

    abbrev WereTalks : Ending → Type 0
    WereTalks (Ending.answered t) = All (λ r. IsConversation refused start r.0) t.requests
    WereTalks (Ending.failed t) = All (λ r. IsConversation refused start r.0) t.requests

    run_round-IsTalk :
        (content : Text) (calls : List ToolCall) (t : Turn)
        → IsTalk t
        → IsTalk
            (run_calls lib complete mail draw_id 0 calls (push (assistant_tools content calls) t))
    run_round-IsTalk content calls t w =
        let (answers, fit, told, same) =
          run_calls-answers 0 calls (push (assistant_tools content calls) t) in
        (
          subst (IsConversation refused start) (sym (told ∙ append_assoc t.messages _ _))
              (IsConversation.round content calls answers w.0 fit),
          subst (All (λ r. IsConversation refused start r.0)) (sym same) w.1,
        )

    ask-IsTalk :
        (tools : Bool) (t : Turn) → IsTalk t → IsTalk (ask lib complete mail draw_id tools t).1
    unfolding ask
    ask-IsTalk tools t w =
        (w.0, All-append (λ r. IsConversation refused start r.0) t.requests _ w.1 (w.0, tt))

    replied-WereTalks :
        (more : Turn → Ending)
        → ((t : Turn) → IsTalk t → WereTalks (more t))
        → (r : Result ModelReply ModelError) (t : Turn) → IsTalk t
        → WereTalks (replied lib complete mail draw_id more (r, t))
    replied-WereTalks more h (err e) t w = w.1
    replied-WereTalks more h (ok reply) t w = by_calls reply.tool_calls
      where
        by_calls :
            (calls : List ToolCall)
            → WereTalks (unless_done lib complete mail draw_id more reply calls (spent reply t))
        by_calls [] = w.1
        by_calls (call ∷ calls) =
            h _ (run_round-IsTalk reply.content (call ∷ calls) (spent reply t) w)

    replied_last-WereTalks :
        (r : Result ModelReply ModelError) (t : Turn)
        → IsTalk t
        → WereTalks (replied_last lib complete mail draw_id (r, t))
    replied_last-WereTalks (err e) t w = w.1
    replied_last-WereTalks (ok reply) t w = w.1

    run_steps-WereTalks :
        (left : ℕ) (t : Turn) → IsTalk t → WereTalks (run_steps lib complete mail draw_id left t)
    unfolding run_steps
    run_steps-WereTalks zero t w =
        replied_last-WereTalks _ _
          (ask-IsTalk false (push budget_used t) (IsConversation.out_of_tools w.0, w.1))
    run_steps-WereTalks (suc left) t w =
        replied-WereTalks (run_steps lib complete mail draw_id left) (run_steps-WereTalks left) _ _
          (ask-IsTalk true t w)

  finish-WereTalks :
      (start : List ChatMessage) (e : Ending)
      → WereTalks start e
      → All (λ r. IsConversation refused start r.0) (finish e).requests
  finish-WereTalks start (Ending.answered t) h = h
  finish-WereTalks start (Ending.failed t) h = h

  -- In every request to the model, each message with tool calls is followed at once by one tool message for
  -- each of its calls, in their order and under their ids; from the sixth call of a message on, it is the
  -- refusal.
  pub run_turn-IsConversation :
      (req : TurnRequest)
      → All
          (λ r. IsConversation refused (first_turn (mail []) req).messages r.0)
          (run_turn lib complete mail draw_id req).requests
  unfolding run_turn first_turn
  run_turn-IsConversation req =
      let start = (first_turn (mail []) req).messages in
      finish-WereTalks start _
        (run_steps-WereTalks start max_steps (first_turn (mail []) req) (IsConversation.begun, tt))
