-- ===== src/Assistant/Session/Requests.antt =====
-- backend/src/assistant/session.rs: how often a turn asks the model, and with which tools.
use rav.Common.{
  ℕ, zero, suc, ◌+◌, ◌≤◌, ◌≡◌, refl, sym, ap, ◌∙◌, Bool, true, false, List, [], ◌∷◌, ◌++◌, arith,
  ltb, leb, lt→ltb, if-both, length, length-append, Text, Result, ok, err, subst,
}
use rav.Assistant.{ToolCall, ChatMessage, ModelReply, ModelError}
use rav.Assistant.Tools.{Library, MailAccess}
use rav.Assistant.Session.{
  Turn, TurnRequest, Ending, ask, run_call, run_calls, unless_done, replied, replied_last,
  run_steps, run_turn, finish, first_turn, max_steps, spent, max_tool_calls_per_step, push,
  budget_used,
}

-- From the request `i` on, tools are offered in the requests before the sixth.
abbrev pub IsOffered : ℕ → List (List ChatMessage × Bool) → Type 0
IsOffered i [] = Unit
IsOffered i ((messages, tools) ∷ requests) = (tools ≡ ltb i 5) × IsOffered (suc i) requests

IsOffered-append :
    (i n : ℕ) (requests : List (List ChatMessage × Bool)) (messages : List ChatMessage)
    (tools : Bool)
    → IsOffered i requests
    → n ≡ i + length requests
    → tools ≡ ltb n 5
    → IsOffered i (requests ++ (messages, tools) ∷ [])
IsOffered-append i n [] messages tools w e h = (h ∙ ap (λ m. ltb m 5) (omega (arith, e)), tt)
IsOffered-append i n (r ∷ requests) messages tools w e h =
    (w.0, IsOffered-append (suc i) n requests messages tools w.1 (omega (arith, e)) h)

-- After a number of requests.
abbrev IsAsked : ℕ → Turn → Type 0
IsAsked n t = (length t.requests ≡ n) × IsOffered 0 t.requests

abbrev turn_of : Ending → Turn
turn_of (Ending.answered t) = t
turn_of (Ending.failed t) = t

-- The bound on the requests, and the tools of each.
abbrev pub IsBudgeted : List (List ChatMessage × Bool) → Type 0
IsBudgeted requests = (1 ≤ length requests) × (length requests ≤ 6) × IsOffered 0 requests

module _ (lib : Library)
    (complete : List ChatMessage → Bool → List Text × Result ModelReply ModelError)
    (mail : List ChatMessage → MailAccess) (draw_id : List ChatMessage → Text) where
  run_call-requests :
      (i : ℕ) (call : ToolCall) (t : Turn)
      → (run_call lib complete mail draw_id i call t).requests ≡ t.requests
  unfolding run_call
  run_call-requests i call t =
      if-both {A = Turn} (λ s. s.requests ≡ t.requests) (leb max_tool_calls_per_step i) refl refl

  run_calls-requests :
      (i : ℕ) (calls : List ToolCall) (t : Turn)
      → (run_calls lib complete mail draw_id i calls t).requests ≡ t.requests
  unfolding run_calls
  run_calls-requests i [] t = refl
  run_calls-requests i (call ∷ calls) t =
      run_calls-requests (suc i) calls _ ∙ run_call-requests i call t

  ask-IsAsked :
      (n : ℕ) (tools : Bool) (t : Turn)
      → IsAsked n t
      → tools ≡ ltb n 5
      → IsAsked (suc n) (ask lib complete mail draw_id tools t).1
  unfolding ask
  ask-IsAsked n tools t w h = (
    omega (arith, length-append t.requests ((t.messages, tools) ∷ []), w.0),
    IsOffered-append 0 n t.requests t.messages tools w.1 (omega (arith, w.0)) h,
  )

  IsAsked-bounded : (n : ℕ) (t : Turn) → 1 ≤ n → n ≤ 6 → IsAsked n t → IsBudgeted t.requests
  IsAsked-bounded n t low high w = (omega (arith, low, w.0), omega (arith, high, w.0), w.1)

  replied-IsBudgeted :
      (n : ℕ) (more : Turn → Ending)
      → 1 ≤ n
      → n ≤ 6
      → ((t : Turn) → IsAsked n t → IsBudgeted (turn_of (more t)).requests)
      → (r : Result ModelReply ModelError) (t : Turn) → IsAsked n t
      → IsBudgeted (turn_of (replied lib complete mail draw_id more (r, t))).requests
  replied-IsBudgeted n more low high h (err e) t w = IsAsked-bounded n t low high w
  replied-IsBudgeted n more low high h (ok reply) t w = by_calls reply.tool_calls
    where
      by_calls :
          (calls : List ToolCall)
          → IsBudgeted
              (turn_of
                (unless_done lib complete mail draw_id more reply calls (spent reply t))).requests
      by_calls [] = IsAsked-bounded n t low high w
      by_calls (call ∷ calls) = h _ (
          subst (λ rs. (length rs ≡ n) × IsOffered 0 rs)
            (sym (run_calls-requests 0 (call ∷ calls) _)) w)

  replied_last-IsBudgeted :
      (r : Result ModelReply ModelError) (t : Turn)
      → IsAsked 6 t
      → IsBudgeted (turn_of (replied_last lib complete mail draw_id (r, t))).requests
  replied_last-IsBudgeted (err e) t w = IsAsked-bounded 6 t (omega arith) (omega arith) w
  replied_last-IsBudgeted (ok reply) t w = IsAsked-bounded 6 t (omega arith) (omega arith) w

  run_steps-IsBudgeted :
      (left n : ℕ) (t : Turn)
      → n + left ≡ 5
      → IsAsked n t
      → IsBudgeted (turn_of (run_steps lib complete mail draw_id left t)).requests
  unfolding run_steps
  run_steps-IsBudgeted zero n t e w =
      replied_last-IsBudgeted _ _
        (ask-IsAsked 5 false (push budget_used t) (w.0 ∙ omega (arith, e), w.1) refl)
  run_steps-IsBudgeted (suc left) n t e w =
      replied-IsBudgeted (suc n) (run_steps lib complete mail draw_id left) (omega arith)
        (omega (arith, e)) (λ s. run_steps-IsBudgeted left (suc n) s (omega (arith, e))) _ _
        (ask-IsAsked n true t w (sym (lt→ltb n 5 (omega (arith, e)))))

  finish-requests : (e : Ending) → (finish e).requests ≡ (turn_of e).requests
  finish-requests (Ending.answered t) = refl
  finish-requests (Ending.failed t) = refl

  -- A turn asks the model at least once and at most six times, whatever it answers, and so ends; tools are
  -- offered in all requests but the sixth.
  pub run_turn-IsBudgeted :
      (req : TurnRequest) → IsBudgeted (run_turn lib complete mail draw_id req).requests
  unfolding run_turn first_turn
  run_turn-IsBudgeted req =
      subst IsBudgeted
        (sym (
          finish-requests
            (run_steps lib complete mail draw_id max_steps (first_turn (mail []) req))))
        (run_steps-IsBudgeted max_steps 0 (first_turn (mail []) req) refl (refl, tt))
