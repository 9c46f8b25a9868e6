-- ===== src/Assistant/Session/Runs.antt =====
-- backend/src/assistant/session.rs: how many tools a turn runs. `run_tool` counts its runs in the context.
use rav.Common.{
  ℕ, zero, suc, ◌+◌, ◌-◌, ◌*◌, ◌≤◌, ◌≡◌, refl, inl, inr, Bool, true, false, Option, none, some,
  List, [], ◌∷◌, arith, leb, Bool-cases, Text, Result, ok, err,
}
use rav.Assistant.{ToolCall, ChatMessage, ModelReply, ModelError}
use rav.Assistant.Tools.{Library, MailAccess, MessageContent, cite, run_tool}
use rav.Assistant.Session.{
  Turn, TurnRequest, Ending, ask, run_call, run_calls, unless_done, replied, replied_last,
  run_steps, run_turn, finish, first_turn, opened, open_message, max_steps, spent,
  max_tool_calls_per_step, push, budget_used,
}

-- The tools that were run so far.
abbrev pub tools_run : Turn → ℕ
tools_run t = t.ctx.tools_run

abbrev turn_of : Ending → Turn
turn_of (Ending.answered t) = t
turn_of (Ending.failed t) = t

tools_run-finish : (e : Ending) → tools_run (finish e) ≡ tools_run (turn_of e)
tools_run-finish (Ending.failed t) = refl
tools_run-finish (Ending.answered t) = refl

opened_lem : (o : Option MessageContent) → (opened o).1.tools_run ≡ 0
unfolding cite
opened_lem none = refl
opened_lem (some m) = refl

tools_run-first_turn : (mail : MailAccess) (req : TurnRequest) → tools_run (first_turn mail req) ≡ 0
unfolding first_turn
tools_run-first_turn mail req = opened_lem (open_message mail req.open_mail)

module _ (lib : Library)
    (complete : List ChatMessage → Bool → List Text × Result ModelReply ModelError)
    (mail : List ChatMessage → MailAccess) (draw_id : List ChatMessage → Text) where
  tools_run-run_call :
      (i : ℕ) (call : ToolCall) (t : Turn)
      → tools_run (run_call lib complete mail draw_id i call t) ≤ tools_run t + (1 - (i - 4))
  unfolding run_call run_tool
  tools_run-run_call i call t = elim (Bool-cases (leb max_tool_calls_per_step i)) [
    | inl e ↦ rw e (omega arith)
    | inr e ↦ rw e (ground (arith, e))
  ]

  tools_run-run_calls :
      (i : ℕ) (calls : List ToolCall) (t : Turn)
      → tools_run (run_calls lib complete mail draw_id i calls t) ≤ tools_run t + (5 - i)
  unfolding run_calls
  tools_run-run_calls i [] t = omega arith
  tools_run-run_calls i (call ∷ calls) t = omega (
    arith,
    tools_run-run_call i call t,
    tools_run-run_calls (suc i) calls (run_call lib complete mail draw_id i call t),
  )

  tools_run-ask :
      (tools : Bool) (t : Turn) → tools_run (ask lib complete mail draw_id tools t).1 ≡ tools_run t
  unfolding ask
  tools_run-ask tools t = refl

  tools_run-failed :
      (e : ModelError) (t : Turn) (more : Turn → Ending)
      → tools_run (turn_of (replied lib complete mail draw_id more (err e, t))) ≡ tools_run t
  tools_run-failed e t more = refl

  tools_run-replied :
      (bound : ℕ) (more : Turn → Ending)
      → ((t : Turn) → tools_run (turn_of (more t)) ≤ tools_run t + bound)
      → (r : Result ModelReply ModelError) (t : Turn)
      → tools_run (turn_of (replied lib complete mail draw_id more (r, t)))
        ≤ tools_run t + (5 + bound)
  tools_run-replied bound more h (err e) t = omega (arith, tools_run-failed e t more)
  tools_run-replied bound more h (ok reply) t = by_calls reply.tool_calls
    where
      by_calls :
          (calls : List ToolCall)
          → tools_run
              (turn_of (unless_done lib complete mail draw_id more reply calls (spent reply t)))
            ≤ tools_run t + (5 + bound)
      by_calls [] = omega arith
      by_calls (call ∷ calls) = omega (arith, h _, tools_run-run_calls 0 (call ∷ calls) _)

  tools_run-replied_last :
      (r : Result ModelReply ModelError) (t : Turn)
      → tools_run (turn_of (replied_last lib complete mail draw_id (r, t))) ≡ tools_run t
  tools_run-replied_last (err e) t = refl
  tools_run-replied_last (ok reply) t = refl

  tools_run-run_steps :
      (left : ℕ) (t : Turn)
      → tools_run (turn_of (run_steps lib complete mail draw_id left t)) ≤ tools_run t + 5 * left
  unfolding run_steps
  tools_run-run_steps zero t =
      let asked = ask lib complete mail draw_id false (push budget_used t) in
      let here = tools_run-replied_last asked.0 asked.1 in
      omega (arith, here, tools_run-ask false (push budget_used t))
  tools_run-run_steps (suc left) t =
      let asked = ask lib complete mail draw_id true t in
      let here =
        tools_run-replied (5 * left) (run_steps lib complete mail draw_id left)
          (tools_run-run_steps left) asked.0 asked.1 in
      omega (arith, here, tools_run-ask true t)

  -- A turn runs at most 25 tools, however many the model asks for.
  pub tools_run-run_turn :
      (req : TurnRequest) → tools_run (run_turn lib complete mail draw_id req) ≤ 25
  unfolding run_turn
  tools_run-run_turn req =
      let first = first_turn (mail []) req in
      omega (
        arith,
        tools_run-finish (run_steps lib complete mail draw_id max_steps first),
        tools_run-run_steps max_steps first,
        tools_run-first_turn (mail []) req,
      )
