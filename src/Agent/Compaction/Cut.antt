-- ===== src/Agent/Compaction/Cut.antt =====
-- Where the messages to summarize end.
use run_forge.Base.{
  ℕ, zero, suc, ◌+◌, ◌≤◌, ◌<◌, String, ◌≡◌, refl, Bool, false, ◌&&◌, ◌||◌, Option, none, some, List,
  [], ◌∷◌, arith, ltb, leb, ◌==◌, is_some, Option-cases, Bool-cases, inl, inr,
}
use run_forge.Agent.Compaction.{LlmMessage}
use run_forge.Agent.Compaction.Window.{
  calls_id, parent_index, result_id, parent_of, next_end, end_before_split,
}

-- Whether a message from `start` to before `end` makes the call.
unfoldable pub called_between : ℕ → ℕ → String → ℕ → List LlmMessage → Bool
called_between start end id i [] = false
called_between start end id i (m ∷ ms) =
    leb start i && ltb i end && calls_id id m || called_between start end id (i + 1) ms

-- Whether a result from `end` on answers a call from `start` to before `end`.
unfoldable pub splits : ℕ → ℕ → List LlmMessage → ℕ → List LlmMessage → Bool
splits start end messages i [] = false
splits start end messages i (m ∷ ms) =
    leb end i
      && (elim (result_id m) [ none ↦ false | some id ↦ called_between start end id 0 messages ])
    || splits start end messages (i + 1) ms

parent_index-bounds :
    (start end : ℕ) (id : String) (i : ℕ) (ms : List LlmMessage) {k : ℕ}
    → parent_index start end id i ms ≡ some k
    → (start ≤ k) × (k < end)
unfolding parent_index
parent_index-bounds start end id i [] e = cc
parent_index-bounds start end id i (m ∷ ms) {k} e =
    ground (arith, parent_index-bounds start end id (i + 1) ms {k = k})

is_some-parent_index :
    (start end : ℕ) (id : String) (i : ℕ) (ms : List LlmMessage)
    → is_some (parent_index start end id i ms) ≡ called_between start end id i ms
unfolding parent_index called_between
is_some-parent_index start end id i [] = refl
is_some-parent_index start end id i (m ∷ ms) =
    ground (arith, is_some-parent_index start end id (i + 1) ms)

parent_of-bounds :
    (start end : ℕ) (messages : List LlmMessage) (m : LlmMessage) {k : ℕ}
    → parent_of start end messages m ≡ some k
    → (start ≤ k) × (k < end)
parent_of-bounds start end messages m {k} e = elim (Option-cases (result_id m)) [
  | inl no_result ↦ cc (rw (no_result, parent_of) at e)
  | inr (id, answers) ↦ parent_index-bounds start end id 0 messages (rw (answers, parent_of) at e)
]

next_end-bounds :
    (start end : ℕ) (messages : List LlmMessage) (i : ℕ) (ms : List LlmMessage)
    → (next_end start end messages i ms ≤ end)
      × (start ≤ end → start ≤ next_end start end messages i ms)
unfolding next_end
next_end-bounds start end messages i [] = (omega arith, λ h. h)
next_end-bounds start end messages i (m ∷ ms) =
    let (below, above) = next_end-bounds start end messages (i + 1) ms in
    elim (Option-cases (parent_of start end messages m)) [
      | inl none_found ↦ rw (none_found, next_end) (ground arith, λ h. ground (arith, above h))
      | inr (k, found) ↦
          let (k_above, k_below) = parent_of-bounds start end messages m found in
          rw (found, next_end) (ground arith, λ h. ground (arith, above h))
    ]

unanswered :
    (start end : ℕ) (messages : List LlmMessage) (o : Option String)
    → (elim o [ none ↦ none | some id ↦ parent_index start end id 0 messages ]) ≡ none
    → (elim o [ none ↦ false | some id ↦ called_between start end id 0 messages ]) ≡ false
unanswered start end messages none h = refl
unanswered start end messages (some id) h =
    ground (arith, is_some-parent_index start end id 0 messages)

-- A round that does not move the end leaves no result whose call is before it.
next_end-fixed :
    (start end : ℕ) (messages : List LlmMessage) (i : ℕ) (ms : List LlmMessage)
    → next_end start end messages i ms ≡ end
    → splits start end messages i ms ≡ false
unfolding next_end splits
next_end-fixed start end messages i [] h = refl
next_end-fixed start end messages i (m ∷ ms) h =
    let (below, above) = next_end-bounds start end messages (i + 1) ms in
    elim (Option-cases (parent_of start end messages m)) [
      | inl none_found ↦ ground (
        arith,
        unanswered start end messages (result_id m) none_found,
        next_end-fixed start end messages (i + 1) ms,
      )
      | inr (k, found) ↦
          let (k_above, k_below) = parent_of-bounds start end messages m found in
          ground (arith, next_end-fixed start end messages (i + 1) ms)
    ]

called_between-empty :
    (start end : ℕ) (id : String) (i : ℕ) (ms : List LlmMessage)
    → end ≤ start
    → called_between start end id i ms ≡ false
unfolding called_between
called_between-empty start end id i [] h = refl
called_between-empty start end id i (m ∷ ms) h =
    ground (arith, called_between-empty start end id (i + 1) ms h)

splits-empty :
    (start end : ℕ) (messages : List LlmMessage) (i : ℕ) (ms : List LlmMessage)
    → end ≤ start
    → splits start end messages i ms ≡ false
unfolding splits
splits-empty start end messages i [] h = refl
splits-empty start end messages i (m ∷ ms) h = elim (Option-cases (result_id m)) [
  | inl no_result ↦ ground (arith, splits-empty start end messages (i + 1) ms h)
  | inr (id, answers) ↦ ground (
    arith,
    called_between-empty start end id 0 messages h,
    splits-empty start end messages (i + 1) ms h,
  )
]

-- An end that splits no round, between the start and the end that it was asked for.
pub record IsSafe (start end : ℕ) (messages : List LlmMessage) (found : ℕ) : Type 0 where
  pub keeps_rounds : splits start found messages 0 messages ≡ false
  pub below : found ≤ end
  pub above : start ≤ found

end_before_split-from :
    (fuel start end : ℕ) (messages : List LlmMessage)
    → start ≤ end
    → end ≤ fuel
    → IsSafe start end messages (end_before_split fuel start end messages)
unfolding end_before_split
end_before_split-from zero start end messages ordered enough = record {
  keeps_rounds = splits-empty start end messages 0 messages (omega arith);
  below = omega arith;
  above = ordered;
}
end_before_split-from (suc fuel) start end messages ordered enough =
    let next = next_end start end messages 0 messages in
    let (next_below, next_above) = next_end-bounds start end messages 0 messages in
    elim (Bool-cases (leb end start)) [
      | inl over ↦
          rw (over, end_before_split)
            (record {
              keeps_rounds = splits-empty start end messages 0 messages (ground arith);
              below = omega arith;
              above = ordered;
            })
      | inr inside ↦ elim (Bool-cases (next == end)) [
        | inl fixed ↦
            rw (inside, fixed, end_before_split)
              (record {
                keeps_rounds = next_end-fixed start end messages 0 messages (ground arith);
                below = omega arith;
                above = ordered;
              })
        | inr moved ↦
            let rest =
              end_before_split-from fuel start next messages (next_above ordered) (ground arith) in
            rw (inside, moved, end_before_split)
              (record {
                keeps_rounds = rest.keeps_rounds;
                below = omega (arith, rest.below);
                above = rest.above;
              })
      ]
    ]

-- With a fuel of `end` the search for the end of a summary is complete: between the start and the end
-- asked for, it finds an end from which on no result answers a call of the messages to summarize.
pub end_before_split-IsSafe :
    (start end : ℕ) (messages : List LlmMessage)
    → start ≤ end
    → IsSafe start end messages (end_before_split end start end messages)
end_before_split-IsSafe start end messages ordered =
    end_before_split-from end start end messages ordered (omega arith)
