-- ===== src/Agent/Compaction.antt =====
-- server/src/agent/compaction.ts, with the messages of server/src/llm/types.ts: masking old messages.
-- A content is its UTF-16 code units. JSON.stringify is a parameter, for the two kinds of values that
-- it is applied to. The estimates of tokens, in floating point, are not modelled.
pub mod Window
pub mod Masking
pub mod Cut
pub mod Candidate
pub mod Kept
mod Tests
use run_forge.Base.{
  ℕ, ◌+◌, ◌-◌, String, str_eq, Bool, true, false, not, ◌&&◌, ◌||◌, Option, none, some, List, [],
  ◌∷◌, ◌++◌, ltb, leb, if◌then◌else◌, is_some, is_empty, contains, any, map, length, take, Text,
  codes, decimal, Fields, Value, is_space,
}

pub data LlmRole : Type 0 where
  system user assistant tool : LlmRole

pub data Collapsed : Type 0 where
  masked summarized : Collapsed

pub record LlmToolCall : Type 0 where
  pub id : String
  pub name : String
  pub arguments : Text

-- An empty list of calls stands for a field that is not set. In the source a message whose list of calls
-- is set and empty counts two characters more, those of `[]`.
pub record LlmMessage : Type 0 where
  pub role : LlmRole
  pub content : Option Text
  pub content_parts : List Value
  pub media_refs : List Value
  pub tool_calls : List LlmToolCall
  pub tool_call_id : Option String
  pub provider_state : Option Fields
  pub collapsed : Option Collapsed

-- The texts that JSON.stringify gives: of a list of calls, and of masked arguments, which hold the
-- tool's name, the number of characters and the start of the arguments.
pub record Json : Type 0 where
  pub of_calls : List LlmToolCall → Text
  pub of_masked : String → ℕ → Text → Text

abbrev pub is_tool : LlmMessage → Bool
is_tool m = elim m.role [ tool ↦ true | _ ↦ false ]

abbrev pub is_user : LlmMessage → Bool
is_user m = elim m.role [ user ↦ true | _ ↦ false ]

abbrev pub is_assistant : LlmMessage → Bool
is_assistant m = elim m.role [ assistant ↦ true | _ ↦ false ]

abbrev pub is_system : LlmMessage → Bool
is_system m = elim m.role [ system ↦ true | _ ↦ false ]

abbrev pub is_summarized : LlmMessage → Bool
is_summarized m = elim m.collapsed [ some summarized ↦ true | _ ↦ false ]

abbrev pub content_length : LlmMessage → ℕ
content_length m = elim m.content [ none ↦ 0 | some text ↦ length text ]

-- `replace(/\s+/g, ' ')`, after a character that was white space or was not.
unfoldable pub squash : Bool → Text → Text
unfolding is_space
squash after [] = []
squash after (c ∷ s) =
    let rest = squash (is_space c) s in
    if is_space c then (if after then rest else 32 ∷ rest) else c ∷ rest

abbrev trimmed_cons : ℕ → Text → Text
trimmed_cons c [] = if is_space c then [] else c ∷ []
trimmed_cons c (d ∷ s) = c ∷ d ∷ s

-- `trimEnd`
unfoldable pub trim_end : Text → Text
trim_end [] = []
trim_end (c ∷ s) = trimmed_cons c (trim_end s)

unfoldable pub head_of : ℕ → Text → Text
unfolding squash trim_end
head_of n text = trim_end (squash false (take n text))

unfoldable pub mask_placeholder : Text → Text
mask_placeholder original =
    let head = head_of 140 original in
    if leb (length original) 140
    then original
    else head
      ++ (codes "\n…[+" ++ (decimal (length original - length head) ++ codes " chars elided]"))

-- One of the two loops over the messages: what is masked, given whether the message is old.
unfoldable pub mask_from :
    (Bool → LlmMessage → Option LlmMessage) → ℕ → ℕ → List LlmMessage → List LlmMessage × ℕ
mask_from mask cutoff i [] = ([], 0)
mask_from mask cutoff i (m ∷ ms) =
    let rest = mask_from mask cutoff (i + 1) ms in
    elim (mask (ltb i cutoff) m) [
      | none ↦ (m ∷ rest.0, rest.1)
      | some m' ↦ (m' ∷ rest.0, rest.1 + 1)
    ]

abbrev content_or_empty : LlmMessage → Text
content_or_empty m = elim m.content [ none ↦ [] | some text ↦ text ]

unfoldable pub mask_tool_result : Bool → LlmMessage → Option LlmMessage
mask_tool_result old m =
    if not old
    then none
    else if not (is_tool m) || is_some m.collapsed
    then none
    else if ltb (content_length m) 200
    then none
    else some (record m {
      content = some (mask_placeholder (content_or_empty m));
      collapsed = some masked;
    })

unfoldable pub mask_old_tool_results : ℕ → List LlmMessage → List LlmMessage × ℕ
unfolding mask_from mask_tool_result
mask_old_tool_results keep_recent messages =
    mask_from mask_tool_result (length messages - keep_recent) 0 messages

module _ (json : Json) where
  unfoldable pub msg_chars : LlmMessage → ℕ
  msg_chars m =
      content_length m + (if is_empty m.tool_calls then 0 else length (json.of_calls m.tool_calls))

  unfoldable pub total_chars : List LlmMessage → ℕ
  unfolding msg_chars
  total_chars [] = 0
  total_chars (m ∷ ms) = msg_chars m + total_chars ms

  unfoldable pub masked_tool_call_arguments : LlmToolCall → Text
  unfolding head_of
  masked_tool_call_arguments call =
      json.of_masked call.name (length call.arguments) (head_of 240 call.arguments)

  unfoldable pub mask_tool_call_arguments : List LlmToolCall → List LlmToolCall × Bool
  unfolding masked_tool_call_arguments
  mask_tool_call_arguments [] = ([], false)
  mask_tool_call_arguments (call ∷ calls) =
      let rest = mask_tool_call_arguments calls in
      if ltb (length call.arguments) 1000
      then (call ∷ rest.0, rest.1)
      else (record call { arguments = masked_tool_call_arguments call } ∷ rest.0, true)

  unfoldable pub mask_assistant : List String → Bool → LlmMessage → Option LlmMessage
  unfolding mask_tool_call_arguments
  mask_assistant force old m =
      let result = mask_tool_call_arguments m.tool_calls in
      let drop_provider_state = old && is_some m.provider_state in
      if not (is_assistant m) || is_some m.collapsed || is_empty m.tool_calls
      then none
      else if not (old || any (λ call. contains force call.name) m.tool_calls)
      then none
      else if not result.1 && not drop_provider_state
      then none
      else some (record m {
        tool_calls = result.0;
        provider_state = if drop_provider_state then none else m.provider_state;
        collapsed = some masked;
      })

  unfoldable pub mask_old_assistant_tool_calls :
      ℕ → List String → List LlmMessage → List LlmMessage × ℕ
  unfolding mask_from mask_assistant
  mask_old_assistant_tool_calls keep_recent force messages =
      mask_from (mask_assistant force) (length messages - keep_recent) 0 messages
