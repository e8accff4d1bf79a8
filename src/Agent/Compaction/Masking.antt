-- ===== src/Agent/Compaction/Masking.antt =====
-- What masking keeps of the messages, and what it makes shorter.
use run_forge.Base.{
  ℕ, zero, suc, ◌+◌, ◌-◌, ◌≤◌, String, ◌≡◌, refl, ap, Bool, false, not, ◌&&◌, ◌||◌, Option, none,
  some, List, [], ◌∷◌, ◌++◌, arith, ltb, is_some, map, length, take, length-append, length-take-le,
  Text, codes, decimal, length-decimal, is_space, Option-cases, inl, inr, OnSome, OnSome-value,
  OnSome-unless, drop, is_empty, any, contains,
}
use run_forge.Agent.Compaction.{
  LlmRole, LlmToolCall, LlmMessage, Json, squash, trim_end, head_of, mask_placeholder, mask_from,
  mask_tool_result, mask_old_tool_results, is_tool, is_assistant, content_length, msg_chars,
  total_chars, mask_tool_call_arguments, mask_assistant, mask_old_assistant_tool_calls,
}

length-squash : (after : Bool) (s : Text) → length (squash after s) ≤ length s
unfolding squash
length-squash after [] = omega arith
length-squash after (c ∷ s) = ground (arith, length-squash (is_space c) s)

length-trim_end : (s : Text) → length (trim_end s) ≤ length s
unfolding trim_end
length-trim_end [] = omega arith
length-trim_end (c ∷ s) = ground (arith, length-trim_end s)

length-head_of : (n : ℕ) (s : Text) → length (head_of n s) ≤ n
unfolding head_of
length-head_of n s = omega (
  arith,
  length-trim_end (squash false (take n s)),
  length-squash false (take n s),
  length-take-le n s,
)

-- The placeholder of a text with at least 200 characters is not longer than the text.
length-mask_placeholder :
    (text : Text) → 200 ≤ length text → length (mask_placeholder text) ≤ length text
unfolding mask_placeholder
length-mask_placeholder text long =
    let head = head_of 140 text in
    let shown = decimal (length text - length head) in
    ground (
      arith,
      length-head_of 140 text,
      length-decimal (length text - length head),
      length-append head (codes "\n…[+" ++ (shown ++ codes " chars elided]")),
      length-append shown (codes " chars elided]"),
    )

-- What pairs a message with others: its role, the call that it answers and the calls that it makes.
pub record Pairing : Type 0 where
  pub role : LlmRole
  pub answers : Option String
  pub calls : List String

abbrev pub pairing : LlmMessage → Pairing
pairing m = record {
  role = m.role;
  answers = m.tool_call_id;
  calls = map (λ call. call.id) m.tool_calls;
}

abbrev IsPaired : LlmMessage → LlmMessage → Type 0
IsPaired m m' = pairing m' ≡ pairing m

abbrev IsShorter : Json → LlmMessage → LlmMessage → Type 0
IsShorter json m m' = msg_chars json m' ≤ msg_chars json m

module _ (mask : Bool → LlmMessage → Option LlmMessage) where
  -- A mask that keeps a measure of each message keeps it along the list.
  map-mask_from :
      {A : Type 0} (f : LlmMessage → A)
      → ((old : Bool) (m : LlmMessage) → OnSome (λ m'. f m' ≡ f m) (mask old m))
      → (cutoff i : ℕ) (ms : List LlmMessage) → map f (mask_from mask cutoff i ms).0 ≡ map f ms
  unfolding mask_from
  map-mask_from f keeps cutoff i [] = refl
  map-mask_from f keeps cutoff i (m ∷ ms) = elim (Option-cases (mask (ltb i cutoff) m)) [
    | inl same ↦
        rw (same, mask_from) (ap (λ rest. f m ∷ rest) (map-mask_from f keeps cutoff (i + 1) ms))
    | inr (m', changed) ↦
        rw (changed, mask_from, OnSome-value (λ m'. f m' ≡ f m) (keeps (ltb i cutoff) m) changed)
          (ap (λ rest. f m ∷ rest) (map-mask_from f keeps cutoff (i + 1) ms))
  ]

  mask_from-recent :
      ((m : LlmMessage) → mask false m ≡ none)
      → (cutoff i : ℕ) (ms : List LlmMessage) → cutoff ≤ i
      → (mask_from mask cutoff i ms).0 ≡ ms
  unfolding mask_from
  mask_from-recent leaves cutoff i [] late = refl
  mask_from-recent leaves cutoff i (m ∷ ms) late =
      let recent : ltb i cutoff ≡ false = ground arith in
      rw (recent, mask_from, leaves m)
        (ap (λ rest. m ∷ rest) (mask_from-recent leaves cutoff (i + 1) ms (omega arith)))

  -- A mask that leaves the recent messages leaves the end of the list.
  drop-mask_from :
      ((m : LlmMessage) → mask false m ≡ none)
      → (cutoff n i : ℕ) (ms : List LlmMessage) → cutoff ≡ i + n
      → drop n (mask_from mask cutoff i ms).0 ≡ drop n ms
  unfolding mask_from
  drop-mask_from leaves cutoff zero i ms e = mask_from-recent leaves cutoff i ms (omega arith)
  drop-mask_from leaves cutoff (suc n) i [] e = refl
  drop-mask_from leaves cutoff (suc n) i (m ∷ ms) e = elim (Option-cases (mask (ltb i cutoff) m)) [
    | inl same ↦ rw (same, mask_from) (drop-mask_from leaves cutoff n (i + 1) ms (omega arith))
    | inr (m', changed) ↦
        rw (changed, mask_from) (drop-mask_from leaves cutoff n (i + 1) ms (omega arith))
  ]

  total_chars-mask_from :
      (json : Json)
      → ((old : Bool) (m : LlmMessage) → OnSome (IsShorter json m) (mask old m))
      → (cutoff i : ℕ) (ms : List LlmMessage)
      → total_chars json (mask_from mask cutoff i ms).0 ≤ total_chars json ms
  unfolding mask_from total_chars
  total_chars-mask_from json fewer cutoff i [] = omega arith
  total_chars-mask_from json fewer cutoff i (m ∷ ms) = elim (Option-cases (mask (ltb i cutoff) m)) [
    | inl same ↦
        rw (same, mask_from) (omega (arith, total_chars-mask_from json fewer cutoff (i + 1) ms))
    | inr (m', changed) ↦
        rw (changed, mask_from)
          (omega (
            arith,
            OnSome-value (IsShorter json m) (fewer (ltb i cutoff) m) changed,
            total_chars-mask_from json fewer cutoff (i + 1) ms,
          ))
  ]

mask_tool_result-pairing :
    (old : Bool) (m : LlmMessage) → OnSome (IsPaired m) (mask_tool_result old m)
unfolding mask_tool_result
mask_tool_result-pairing old m =
    let P = IsPaired m in
    OnSome-unless P (not old) _ λ _.
      OnSome-unless P (not (is_tool m) || is_some m.collapsed) _
        λ _. OnSome-unless P (ltb (content_length m) 200) _ λ _. refl

placeholder-not_longer :
    (content : Option Text)
    → ltb (elim content [ none ↦ 0 | some text ↦ length text ]) 200 ≡ false
    → length (mask_placeholder (elim content [ none ↦ [] | some text ↦ text ]))
      ≤ (elim content [ none ↦ 0 | some text ↦ length text ])
placeholder-not_longer none long = ground arith
placeholder-not_longer (some text) long = length-mask_placeholder text (ground arith)

mask_tool_result-IsShorter :
    (json : Json) (old : Bool) (m : LlmMessage) → OnSome (IsShorter json m) (mask_tool_result old m)
unfolding mask_tool_result msg_chars
mask_tool_result-IsShorter json old m =
    let P = IsShorter json m in
    OnSome-unless P (not old) _ λ _. OnSome-unless P (not (is_tool m) || is_some m.collapsed) _ λ _.
      OnSome-unless P (ltb (content_length m) 200) _
        λ long. omega (arith, placeholder-not_longer m.content long)

module _ (json : Json) where
  ids-mask_tool_call_arguments :
      (calls : List LlmToolCall)
      → map (λ call. call.id) (mask_tool_call_arguments json calls).0 ≡ map (λ call. call.id) calls
  unfolding mask_tool_call_arguments
  ids-mask_tool_call_arguments [] = refl
  ids-mask_tool_call_arguments (call ∷ calls) = ground (arith, ids-mask_tool_call_arguments calls)

  mask_assistant-pairing :
      (force : List String) (old : Bool) (m : LlmMessage)
      → OnSome (IsPaired m) (mask_assistant json force old m)
  unfolding mask_assistant
  mask_assistant-pairing force old m =
      let P = IsPaired m in
      let result = mask_tool_call_arguments json m.tool_calls in
      OnSome-unless P (not (is_assistant m) || is_some m.collapsed || is_empty m.tool_calls) _ λ _.
        OnSome-unless P (not (old || any (λ call. contains force call.name) m.tool_calls)) _ λ _.
          OnSome-unless P (not result.1 && not (old && is_some m.provider_state)) _
            λ _. rw (ids-mask_tool_call_arguments m.tool_calls) refl

  -- Masking old tool results and masking the arguments of old calls both keep, message by message,
  -- the role, the id of the call that the message answers and the ids of the calls that it makes.
  pub masking-pairing :
      (keep_recent : ℕ) (force : List String) (messages : List LlmMessage)
      → (map pairing (mask_old_tool_results keep_recent messages).0 ≡ map pairing messages)
        × (map pairing (mask_old_assistant_tool_calls json keep_recent force messages).0
            ≡ map pairing messages)
  unfolding mask_old_tool_results mask_old_assistant_tool_calls
  masking-pairing keep_recent force messages =
      let cutoff = length messages - keep_recent in
      (
        map-mask_from mask_tool_result pairing mask_tool_result-pairing cutoff 0 messages,
        map-mask_from (mask_assistant json force) pairing (mask_assistant-pairing force) cutoff 0
            messages,
      )

  -- Masking old tool results never makes the messages longer, and leaves the recent messages as they are.
  pub mask_old_tool_results-shorter :
      (keep_recent : ℕ) (messages : List LlmMessage)
      → let after = (mask_old_tool_results keep_recent messages).0 in
        let old = length messages - keep_recent in
        (total_chars json after ≤ total_chars json messages) × (drop old after ≡ drop old messages)
  unfolding mask_old_tool_results mask_tool_result
  mask_old_tool_results-shorter keep_recent messages =
      let old = length messages - keep_recent in
      (
        total_chars-mask_from mask_tool_result json (mask_tool_result-IsShorter json) old 0
            messages,
        drop-mask_from mask_tool_result (λ m. refl) old old 0 messages (omega arith),
      )
