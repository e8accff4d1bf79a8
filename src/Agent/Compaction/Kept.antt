-- ===== src/Agent/Compaction/Kept.antt =====
-- What the sliding window keeps.
use run_forge.Base.{
  ℕ, zero, suc, ◌+◌, ◌-◌, ◌≤◌, ◌≡◌, refl, sym, ap, ◌∙◌, Bool, true, false, ◌&&◌, some, List, [],
  ◌∷◌, ◌++◌, arith, if◌then◌else◌, any, length, drop, max, All, Option-cases, Bool-cases, inl, inr,
}
use run_forge.Agent.Compaction.{LlmMessage, is_tool, is_user, is_system, is_summarized}
use run_forge.Agent.Compaction.Window.{
  leading_system, first_user, last_summary, leading_tools, window_start, is_kept, filter_at,
  sliding_window,
}

length-filter_at :
    (p : ℕ → Bool) (i : ℕ) (ms : List LlmMessage) → length (filter_at p i ms) ≤ length ms
unfolding filter_at
length-filter_at p i [] = omega arith
length-filter_at p i (m ∷ ms) = ground (arith, length-filter_at p (i + 1) ms)

-- From a position on, everything is kept.
filter_at-all :
    (p : ℕ → Bool) (i : ℕ) (ms : List LlmMessage)
    → ((j : ℕ) → i ≤ j → p j ≡ true)
    → filter_at p i ms ≡ ms
unfolding filter_at
filter_at-all p i [] keeps = refl
filter_at-all p i (m ∷ ms) keeps =
    rw (keeps i (omega arith), filter_at)
      (ap (λ rest. m ∷ rest) (filter_at-all p (i + 1) ms (λ j h. keeps j (omega arith))))

-- The messages end with what comes from the start of the window on.
abbrev pub EndsWith : List LlmMessage → List LlmMessage → Type 0
EndsWith back whole = (front : List LlmMessage) × (whole ≡ front ++ back)

filter_at-EndsWith :
    (p : ℕ → Bool) (n i : ℕ) (ms : List LlmMessage)
    → ((j : ℕ) → i + n ≤ j → p j ≡ true)
    → EndsWith (drop n ms) (filter_at p i ms)
unfolding filter_at
filter_at-EndsWith p zero i ms keeps = ([], filter_at-all p i ms (λ j h. keeps j (omega arith)))
filter_at-EndsWith p (suc n) i [] keeps = ([], refl)
filter_at-EndsWith p (suc n) i (m ∷ ms) keeps =
    let (front, same) = filter_at-EndsWith p n (i + 1) ms (λ j h. keeps j (omega arith)) in
    elim (Bool-cases (p i)) [
      | inl kept ↦ (m ∷ front, rw (kept, filter_at) (ap (λ rest. m ∷ rest) same))
      | inr gone ↦ (front, rw (gone, filter_at) same)
    ]

drop-EndsWith : (n : ℕ) (ms : List LlmMessage) → EndsWith (drop n ms) ms
drop-EndsWith zero ms = ([], refl)
drop-EndsWith (suc n) [] = ([], refl)
drop-EndsWith (suc n) (m ∷ ms) =
    let (front, same) = drop-EndsWith n ms in (m ∷ front, ap (λ rest. m ∷ rest) same)

first_user-any :
    (p : ℕ → Bool) (start i : ℕ) (ms : List LlmMessage) {k : ℕ}
    → first_user start i ms ≡ some k
    → p k ≡ true
    → any is_user (filter_at p i ms) ≡ true
unfolding first_user filter_at
first_user-any p start i [] e h = cc
first_user-any p start i (m ∷ ms) {k} e h =
    ground (arith, first_user-any p start (i + 1) ms {k = k})

abbrev pub is_summary : LlmMessage → Bool
is_summary m = is_system m && is_summarized m

last_summary-any :
    (p : ℕ → Bool) (start i : ℕ) (ms : List LlmMessage) {k : ℕ}
    → last_summary start i ms ≡ some k
    → p k ≡ true
    → any is_summary (filter_at p i ms) ≡ true
unfolding last_summary filter_at
last_summary-any p start i [] e h = cc
last_summary-any p start i (m ∷ ms) {k} e h = elim (Option-cases (last_summary start (i + 1) ms)) [
  | inl none_later ↦ ground arith
  | inr (j, later) ↦ ground (arith, last_summary-any p start (i + 1) ms {k = j})
]

abbrev pub begins_with_tool : List LlmMessage → Bool
begins_with_tool [] = false
begins_with_tool (m ∷ ms) = is_tool m

drop-suc :
    (m : LlmMessage) (ms : List LlmMessage) (n j : ℕ) → j ≡ suc n → drop j (m ∷ ms) ≡ drop n ms
drop-suc m ms n j e = rw e refl

drop-nil : (j : ℕ) → drop {A = LlmMessage} j [] ≡ []
drop-nil zero = refl
drop-nil (suc j) = refl

drop-leading_tools : (ms : List LlmMessage) → begins_with_tool (drop (leading_tools ms) ms) ≡ false
unfolding leading_tools
drop-leading_tools [] = refl
drop-leading_tools (m ∷ ms) = elim (Bool-cases (is_tool m)) [
  | inl result ↦
      rw (result, leading_tools)
        (ap begins_with_tool (drop-suc m ms (leading_tools ms) (leading_tools ms + 1) (omega arith))
          ∙ drop-leading_tools ms)
  | inr other ↦ rw (other, leading_tools) other
]

-- The recent messages but for results at their front are the end of what is kept.
pub record IsRecent (recent kept : List LlmMessage) : Type 0 where
  pub tools : List LlmMessage
  pub back : List LlmMessage
  pub apart : recent ≡ tools ++ back
  pub are_results : All (λ m. is_tool m ≡ true) tools
  pub begins : begins_with_tool back ≡ false
  pub ends : EndsWith back kept

split-leading_tools :
    (ms : List LlmMessage)
    → (tools : List LlmMessage) × (ms ≡ tools ++ drop (leading_tools ms) ms)
      × All (λ m. is_tool m ≡ true) tools
unfolding leading_tools
split-leading_tools [] = ([], refl, tt)
split-leading_tools (m ∷ ms) =
    let (tools, apart, all_tools) = split-leading_tools ms in
    elim (Bool-cases (is_tool m)) [
      | inl result ↦ (
        m ∷ tools,
        rw (result, leading_tools)
            (ap (λ rest. m ∷ rest) apart
              ∙ ap (λ rest. m ∷ tools ++ rest)
                  (sym (drop-suc m ms (leading_tools ms) (leading_tools ms + 1) (omega arith)))),
        (result, all_tools),
      )
      | inr other ↦ ([], rw (other, leading_tools) refl, tt)
    ]

drop-add : (n k : ℕ) (ms : List LlmMessage) → drop (n + k) ms ≡ drop k (drop n ms)
drop-add zero k ms = let e : 0 + k ≡ k = omega arith in ap (λ j. drop j ms) e
drop-add (suc n) k [] = drop-nil (suc n + k) ∙ sym (drop-nil k)
drop-add (suc n) k (m ∷ ms) = drop-suc m ms (n + k) (suc n + k) (omega arith) ∙ drop-add n k ms

module _ (keep_recent : ℕ) (messages : List LlmMessage) where
  start : ℕ
  start = window_start keep_recent messages

  compacted : List LlmMessage
  unfolding start
  compacted = filter_at (is_kept messages start) 0 messages

  -- The result is the list as it was, or what stands at the kept positions.
  result-cases :
      (P : List LlmMessage × ℕ → Type 0)
      → P (messages, 0)
      → P (compacted, length messages - length compacted)
      → P (sliding_window keep_recent messages)
  unfolding sliding_window compacted start
  result-cases P unchanged cut = either _ _ _ unchanged (either _ _ _ cut unchanged)
    where
      either : (b : Bool) (x y : List LlmMessage × ℕ) → P x → P y → P (if b then x else y)
      either b x y p q = elim b as (λ b'. P (if b' then x else y)) [ true ↦ p | false ↦ q ]

  IsWindow : List LlmMessage × ℕ → Type 0
  IsWindow result =
      (length result.0 + result.1 ≡ length messages) × EndsWith (drop start messages) result.0

  -- The window drops as many messages as it reports. Of the messages from the first that is neither a
  -- leading system message nor older than the last `keep_recent`, it ends with all but the results at
  -- their front, which are the only ones that it may lose: what it ends with does not begin with a
  -- result.
  pub sliding_window-EndsWith :
      let result = sliding_window keep_recent messages in
      let recent = drop (max (leading_system messages) (length messages - keep_recent)) messages in
      (length result.0 + result.1 ≡ length messages) × IsRecent recent result.0
  unfolding start compacted IsWindow
  sliding_window-EndsWith =
      let (counted, ends) =
        result-cases IsWindow (omega arith, drop-EndsWith start messages)
          (
            omega (arith, length-filter_at (is_kept messages start) 0 messages),
            filter_at-EndsWith (is_kept messages start) start 0 messages (λ j h. ground arith),
          ) in
      let desired = max (leading_system messages) (length messages - keep_recent) in
      let recent = drop desired messages in
      let (tools, apart, all_tools) = split-leading_tools recent in
      let same = drop-add desired (leading_tools recent) messages in
      (
        counted,
        record {
          tools = tools;
          back = drop (leading_tools recent) recent;
          apart = apart;
          are_results = all_tools;
          begins = drop-leading_tools recent;
          ends = (ends.0, ends.1 ∙ ap (λ back. ends.0 ++ back) same);
        },
      )

  kept-all : filter_at (λ _. true) 0 messages ≡ messages
  kept-all = filter_at-all (λ _. true) 0 messages (λ _ _. refl)

  -- If a user's message follows the leading system messages, the window has one.
  pub sliding_window-user :
      {k : ℕ}
      → first_user (leading_system messages) 0 messages ≡ some k
      → any is_user (sliding_window keep_recent messages).0 ≡ true
  unfolding compacted
  sliding_window-user {k} found =
      let first = leading_system messages in
      result-cases (λ result. any is_user result.0 ≡ true)
        (ap (any is_user) (sym kept-all) ∙ first_user-any (λ _. true) first 0 messages found refl)
        (first_user-any (is_kept messages start) first 0 messages found (ground arith))

  -- If a summary follows the leading system messages, the window has one.
  pub sliding_window-summary :
      {k : ℕ}
      → last_summary (leading_system messages) 0 messages ≡ some k
      → any is_summary (sliding_window keep_recent messages).0 ≡ true
  unfolding compacted
  sliding_window-summary {k} found =
      let first = leading_system messages in
      result-cases (λ result. any is_summary result.0 ≡ true)
        (ap (any is_summary) (sym kept-all)
          ∙ last_summary-any (λ _. true) first 0 messages found refl)
        (last_summary-any (is_kept messages start) first 0 messages found (ground arith))
