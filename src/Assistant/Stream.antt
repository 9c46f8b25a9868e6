-- ===== src/Assistant/Stream.antt =====
-- backend/src/assistant/model.rs: the reading of a streamed reply. A body is the list of its network chunks
-- of bytes, with the error that interrupts it if one does. The decoding of UTF-8, `str::trim` and
-- serde_json are parameters; a `Chunk` is what the accessors of serde_json read of one `data:` line.
pub mod Chunking
pub mod Content
use rav.Common.{
  ℕ, zero, suc, ◌+◌, ◌-◌, ◌≡◌, Bool, true, false, ◌&&◌, ◌||◌, Option, none, some, List, [], ◌∷◌,
  ◌++◌, ltb, leb, ◌==◌, if◌then◌else◌, length, Text, codes, text_eq, starts_with, Result, ok, err,
  unwrap_or, decimal,
}
use rav.Assistant.{ToolCall, FunctionCall, ModelReply, ModelError}

pub record ToolDelta : Type 0 where
  pub index : ℕ
  pub id : Option Text
  pub name : Option Text
  pub arguments : Option Text

pub record Delta : Type 0 where
  pub content : Option Text
  pub tool_calls : List ToolDelta

-- `usage` has the prompt's and the completion's tokens.
pub record Chunk : Type 0 where
  pub has_error : Bool
  pub usage : Option (ℕ × ℕ)
  pub delta : Option Delta

pub record Reader : Type 0 where
  pub decode : Text → Text
  pub trim : Text → Text
  pub trim_end : Text → Text
  pub parse_chunk : Text → Result Chunk Text

abbrev pub empty_reply : ModelReply
empty_reply = record { content = []; tool_calls = []; input_tokens = 0; output_tokens = 0 }

-- The texts that were handed to `on_text`, and what came of it.
abbrev pub Streamed : Type 0 → Type 0
Streamed A = List Text × Result A ModelError

-- `?` after something that may have streamed text.
abbrev pub and_then : {A B : Type 0} → Streamed A → (A → Streamed B) → Streamed B
and_then (texts, err e) next = (texts, err e)
and_then (texts, ok a) next = (texts ++ (next a).0, (next a).1)

abbrev pub max_tool_call_index : ℕ
max_tool_call_index = 16

abbrev pub empty_call : ToolCall
empty_call = record {
  id = [];
  kind = codes "function";
  function = record { name = []; arguments = [] };
}

unfoldable pub repeat_call : ℕ → List ToolCall
repeat_call zero = []
repeat_call (suc n) = empty_call ∷ repeat_call n

-- The `while` that makes place for the index.
abbrev pub grow : ℕ → List ToolCall → List ToolCall
grow i calls = calls ++ repeat_call (suc i - length calls)

abbrev apply_delta : ToolDelta → ToolCall → ToolCall
apply_delta tc call = record {
  id = unwrap_or tc.id call.id;
  kind = call.kind;
  function = record {
    name = call.function.name ++ unwrap_or tc.name [];
    arguments = call.function.arguments ++ unwrap_or tc.arguments [];
  };
}

unfoldable pub update : ℕ → ToolDelta → List ToolCall → List ToolCall
update i tc [] = []
update zero tc (call ∷ calls) = apply_delta tc call ∷ calls
update (suc i) tc (call ∷ calls) = call ∷ update i tc calls

unfoldable pub add_tool_calls : List ToolDelta → List ToolCall → Result (List ToolCall) ModelError
add_tool_calls [] calls = ok calls
add_tool_calls (tc ∷ deltas) calls =
    let rest = add_tool_calls deltas (update tc.index tc (grow tc.index calls)) in
    if ltb max_tool_call_index tc.index
    then err (ModelError.fatal (codes "too many tool calls in one model response"))
    else rest

abbrev with_usage : Option (ℕ × ℕ) → ModelReply → ModelReply
with_usage none reply = reply
with_usage (some (input, output)) reply = record reply {
  input_tokens = input;
  output_tokens = output;
}

abbrev pub with_calls :
    ModelReply → Result (List ToolCall) ModelError → Result ModelReply ModelError
with_calls reply (ok calls) = ok (record reply { tool_calls = calls })
with_calls reply (err e) = err e

-- The new text, unless it is empty.
abbrev pub new_text : Option Text → List Text
new_text none = []
new_text (some []) = []
new_text (some (c ∷ t)) = (c ∷ t) ∷ []

abbrev pub concat : List Text → Text
concat [] = []
concat (t ∷ texts) = t ++ concat texts

abbrev pub push_delta : Option Delta → ModelReply → Streamed ModelReply
push_delta none reply = ([], ok reply)
push_delta (some delta) reply = (
  new_text delta.content,
  with_calls (record reply { content = reply.content ++ concat (new_text delta.content) })
      (add_tool_calls delta.tool_calls reply.tool_calls),
)

abbrev pub push_chunk : Result Chunk Text → ModelReply → Streamed ModelReply
push_chunk (err e) reply = ([], err (ModelError.fatal (codes "unreadable stream chunk: " ++ e)))
push_chunk (ok chunk) reply =
    if chunk.has_error
    then ([], err (ModelError.fatal (codes "OpenAI returned an error mid-stream")))
    else push_delta chunk.delta (with_usage chunk.usage reply)

abbrev drop : ℕ → Text → Text
drop zero s = s
drop (suc n) [] = []
drop (suc n) (c ∷ s) = drop n s

-- `line.strip_prefix("data:")`
unfoldable pub strip_data : Text → Option Text
strip_data line = if starts_with line (codes "data:") then some (drop 5 line) else none

-- A line break or a carriage return.
abbrev is_line_end : ℕ → Bool
is_line_end c = (c == b'\r') || (c == b'\n')

-- `trim_end_matches(['\r', '\n'])`
unfoldable pub trim_line_end : Text → Text
trim_line_end [] = []
trim_line_end (c ∷ s) = elim (trim_line_end s) [
  | [] ↦ if is_line_end c then [] else c ∷ []
  | d ∷ t ↦ c ∷ d ∷ t
]

-- The lines that the inner `while` takes from `pending`, each with its line break, and what stays.
abbrev pub add_byte : ℕ → List Text × Text → List Text × Text
add_byte c ([], rest) = if c == b'\n' then ((c ∷ []) ∷ [], rest) else ([], c ∷ rest)
add_byte c (l ∷ lines, rest) =
    if c == b'\n' then ((c ∷ []) ∷ l ∷ lines, rest) else ((c ∷ l) ∷ lines, rest)

unfoldable pub take_lines : Text → List Text × Text
take_lines [] = ([], [])
take_lines (c ∷ s) = add_byte c (take_lines s)

-- How a body ends: it is complete, or the connection fails.
pub data BodyEnd : Type 0 where
  complete_body : BodyEnd
  interrupted : Text → BodyEnd

-- The answer to a request: none, or a status with a body.
pub data Response : Type 0 where
  unreachable : Text → Response
  status : ℕ → List Text → BodyEnd → Response

-- The result of `OpenAiModel::send`.
unfoldable pub send_result : Response → Result (List Text × BodyEnd) ModelError
send_result (Response.unreachable e) =
    err (ModelError.retryable (codes "OpenAI unreachable: " ++ e))
send_result (Response.status code chunks end) =
    if leb 200 code && ltb code 300
    then ok (chunks, end)
    else if (code == 429) || (leb 500 code && ltb code 600)
    then err (ModelError.retryable (codes "OpenAI returned " ++ decimal code))
    else err (ModelError.fatal (codes "OpenAI rejected the request: " ++ decimal code))

-- One more attempt after an error that may pass.
abbrev pub retried :
    Result (List Text × BodyEnd) ModelError
    → Result (List Text × BodyEnd) ModelError
    → Result (List Text × BodyEnd) ModelError
retried (err (ModelError.retryable e)) second = second
retried (err (ModelError.fatal e)) second = err (ModelError.fatal e)
retried (ok body) second = ok body

module _ (reader : Reader) where
  abbrev pub push_data : Text → ModelReply → Streamed ModelReply
  push_data text reply =
      if text_eq text [] || text_eq text (codes "[DONE]")
      then ([], ok reply)
      else push_chunk (reader.parse_chunk text) reply

  abbrev pub push_stripped : Option Text → ModelReply → Streamed ModelReply
  push_stripped none reply = ([], ok reply)
  push_stripped (some text) reply = push_data (reader.trim text) reply

  unfoldable pub push_line : Text → ModelReply → Streamed ModelReply
  push_line line reply = push_stripped (strip_data line) reply

  unfoldable pub push_lines : List Text → ModelReply → Streamed ModelReply
  push_lines [] reply = ([], ok reply)
  push_lines (line ∷ lines) reply =
      and_then (push_line (trim_line_end (reader.decode line)) reply) (push_lines lines)

  -- After the last chunk.
  abbrev pub finish_body : BodyEnd → Text → ModelReply → Streamed ModelReply
  finish_body (BodyEnd.interrupted e) pending reply =
      ([], err (ModelError.retryable (codes "stream interrupted: " ++ e)))
  finish_body BodyEnd.complete_body [] reply = ([], ok reply)
  finish_body BodyEnd.complete_body (b ∷ pending) reply =
      push_line (reader.trim_end (reader.decode (b ∷ pending))) reply

  -- The loop over the chunks; `pending` has no line break.
  unfoldable pub read_body : List Text → BodyEnd → Text → ModelReply → Streamed ModelReply
  read_body [] end pending reply = finish_body end pending reply
  read_body (bytes ∷ chunks) end pending reply =
      let (lines, rest) = take_lines (pending ++ bytes) in
      and_then (push_lines lines reply) (read_body chunks end rest)

  abbrev pub complete_with : Result (List Text × BodyEnd) ModelError → Streamed ModelReply
  complete_with (err e) = ([], err e)
  complete_with (ok (chunks, end)) = read_body chunks end [] empty_reply

  -- `complete`, with the answers to its first and its second request.
  unfoldable pub complete : Response → Response → Streamed ModelReply
  complete first second = complete_with (retried (send_result first) (send_result second))
