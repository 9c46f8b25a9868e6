-- ===== src/Assistant/Stream/Content.antt =====
-- backend/src/assistant/model.rs: the reply against the text that was streamed, and the bound on its tool
-- calls.
use rav.Common.{
  ℕ, zero, suc, ◌-◌, ◌≤◌, ◌≡◌, refl, sym, ap, ◌∙◌, subst, inl, inr, Option, none, some, List, [],
  ◌∷◌, ◌++◌, append_assoc, append-nil, arith, ltb, if-both, Bool-cases, length, length-append, ◌||◌,
  Text, codes, text_eq, Result, ok, err, Result-cases, ok-injective,
}
use rav.Assistant.{ModelReply, ModelError, ToolCall}
use rav.Assistant.Stream.{
  Reader, Streamed, and_then, push_lines, push_line, read_body, BodyEnd, concat, complete,
  complete_with, retried, send_result, Response, empty_reply, push_delta, push_chunk, push_stripped,
  Delta, Chunk, add_tool_calls, ToolDelta, grow, update, repeat_call, max_tool_call_index,
  strip_data, trim_line_end, take_lines, with_usage,
}

-- The content is what there was and the text that was streamed since; there are at most 17 tool calls.
abbrev pub IsFaithful : Text → Streamed ModelReply → Type 0
IsFaithful before (texts, ok reply) =
    (reply.content ≡ before ++ concat texts) × (length reply.tool_calls ≤ 17)
IsFaithful before (texts, err e) = Unit

concat-append : (xs ys : List Text) → concat (xs ++ ys) ≡ concat xs ++ concat ys
concat-append [] ys = refl
concat-append (x ∷ xs) ys = ap (λ t. x ++ t) (concat-append xs ys) ∙ sym (append_assoc x _ _)

length-repeat_call : (n : ℕ) → length (repeat_call n) ≡ n
unfolding repeat_call
length-repeat_call zero = refl
length-repeat_call (suc n) = ap suc (length-repeat_call n)

length-update :
    (i : ℕ) (tc : ToolDelta) (calls : List ToolCall) → length (update i tc calls) ≡ length calls
unfolding update
length-update i tc [] = refl
length-update zero tc (call ∷ calls) = refl
length-update (suc i) tc (call ∷ calls) = ap suc (length-update i tc calls)

add_tool_calls-bounded :
    (deltas : List ToolDelta) (calls after : List ToolCall)
    → length calls ≤ 17
    → add_tool_calls deltas calls ≡ ok after
    → length after ≤ 17
unfolding add_tool_calls
add_tool_calls-bounded [] calls after h e =
    subst (λ c. length c ≤ 17) (ok-injective calls after e) h
add_tool_calls-bounded (tc ∷ deltas) calls after h e =
    elim (Bool-cases (ltb max_tool_call_index tc.index)) [
      | inl over ↦ cc (rw over at e)
      | inr fits ↦
          add_tool_calls-bounded deltas (update tc.index tc (grow tc.index calls)) after
            (ground (
              arith,
              length-update tc.index tc (grow tc.index calls),
              length-append calls (repeat_call (suc tc.index - length calls)),
              length-repeat_call (suc tc.index - length calls),
              fits,
              h,
            ))
            (rw fits at e)
    ]

push_delta-IsFaithful :
    (d : Option Delta) (reply : ModelReply)
    → length reply.tool_calls ≤ 17
    → IsFaithful reply.content (push_delta d reply)
push_delta-IsFaithful none reply h = (sym (append-nil reply.content), h)
push_delta-IsFaithful (some d) reply h =
    elim (Result-cases (add_tool_calls d.tool_calls reply.tool_calls)) [
      | inl (calls, e) ↦ rw e (refl, add_tool_calls-bounded d.tool_calls reply.tool_calls calls h e)
      | inr (error, e) ↦ rw e tt
    ]

with_usage-kept :
    (usage : Option (ℕ × ℕ)) (reply : ModelReply)
    → ((with_usage usage reply).content ≡ reply.content)
      × ((with_usage usage reply).tool_calls ≡ reply.tool_calls)
with_usage-kept none reply = (refl, refl)
with_usage-kept (some (input, output)) reply = (refl, refl)

push_chunk-IsFaithful :
    (c : Result Chunk Text) (reply : ModelReply)
    → length reply.tool_calls ≤ 17
    → IsFaithful reply.content (push_chunk c reply)
push_chunk-IsFaithful (err e) reply h = tt
push_chunk-IsFaithful (ok chunk) reply h =
    let (same, kept) = with_usage-kept chunk.usage reply in
    if-both (IsFaithful reply.content) chunk.has_error tt (
      subst (λ s. IsFaithful s (push_delta chunk.delta (with_usage chunk.usage reply))) same
        (push_delta-IsFaithful chunk.delta (with_usage chunk.usage reply)
          (omega (arith, h, ap length kept))))

and_then-IsFaithful :
    (before : Text) (m : Streamed ModelReply) (next : ModelReply → Streamed ModelReply)
    → IsFaithful before m
    → ((r : ModelReply) → length r.tool_calls ≤ 17 → IsFaithful r.content (next r))
    → IsFaithful before (and_then m next)
and_then-IsFaithful before (texts, err e) next w h = tt
and_then-IsFaithful before (texts, ok r) next w h = continued (next r) (h r w.1)
  where
    continued :
        (m : Streamed ModelReply) → IsFaithful r.content m → IsFaithful before (texts ++ m.0, m.1)
    continued (more, err e) k = tt
    continued (more, ok after) k = (
      k.0
          ∙ ap (λ t. t ++ concat more) w.0
          ∙ append_assoc before (concat texts) (concat more)
          ∙ ap (λ t. before ++ t) (sym (concat-append texts more)),
      k.1,
    )

module _ (reader : Reader) where
  push_line-IsFaithful :
      (line : Text) (reply : ModelReply)
      → length reply.tool_calls ≤ 17
      → IsFaithful reply.content (push_line reader line reply)
  unfolding push_line
  push_line-IsFaithful l reply h = by_prefix (strip_data l)
    where
      by_prefix : (o : Option Text) → IsFaithful reply.content (push_stripped reader o reply)
      by_prefix none = (sym (append-nil reply.content), h)
      by_prefix (some text) =
          let same : IsFaithful reply.content ([], ok reply) =
            (sym (append-nil reply.content), h) in
          let line = reader.trim text in
          if-both (IsFaithful reply.content) (text_eq line [] || text_eq line (codes "[DONE]")) same
            (push_chunk-IsFaithful (reader.parse_chunk (reader.trim text)) reply h)

  push_lines-IsFaithful :
      (lines : List Text) (reply : ModelReply)
      → length reply.tool_calls ≤ 17
      → IsFaithful reply.content (push_lines reader lines reply)
  unfolding push_lines
  push_lines-IsFaithful [] reply h = (sym (append-nil reply.content), h)
  push_lines-IsFaithful (line ∷ lines) reply h =
      and_then-IsFaithful reply.content
        (push_line reader (trim_line_end (reader.decode line)) reply) (push_lines reader lines)
        (push_line-IsFaithful _ reply h) (push_lines-IsFaithful lines)

  read_body-IsFaithful :
      (chunks : List Text) (end : BodyEnd) (pending : Text) (reply : ModelReply)
      → length reply.tool_calls ≤ 17
      → IsFaithful reply.content (read_body reader chunks end pending reply)
  unfolding read_body
  read_body-IsFaithful [] (BodyEnd.interrupted e) pending reply h = tt
  read_body-IsFaithful [] BodyEnd.complete_body [] reply h = (sym (append-nil reply.content), h)
  read_body-IsFaithful [] BodyEnd.complete_body (b ∷ pending) reply h =
      push_line-IsFaithful _ reply h
  read_body-IsFaithful (bytes ∷ chunks) end pending reply h =
      let (lines, rest) = take_lines (pending ++ bytes) in
      and_then-IsFaithful reply.content (push_lines reader lines reply)
        (read_body reader chunks end rest) (push_lines-IsFaithful lines reply h)
        (read_body-IsFaithful chunks end rest)

  -- A reply that is returned, after one attempt or two, has as its content the texts that were streamed, in
  -- their order and each once, and at most 17 tool calls.
  pub complete-IsFaithful : (first second : Response) → IsFaithful [] (complete reader first second)
  unfolding complete
  complete-IsFaithful first second = by_body (retried (send_result first) (send_result second))
    where
      by_body :
          (r : Result (List Text × BodyEnd) ModelError) → IsFaithful [] (complete_with reader r)
      by_body (err e) = tt
      by_body (ok (chunks, end)) = read_body-IsFaithful chunks end [] empty_reply (omega arith)
