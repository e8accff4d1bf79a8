-- ===== src/Agent/Goal/Merge.antt =====
-- What a plan update does to the items of the plan.
use run_forge.Base.{
  ◌≡◌, refl, ap, ◌∙◌, String, ◌||◌, some, List, [], ◌∷◌, ◌++◌, map, Bool-cases, inl, inr, filter,
  any, not, str_eq, trim, collapse_spaces, Bool, is_empty,
}
use mathlib.Core.List.{map-append}
use run_forge.Agent.Goal.{
  PlanStatus, PlanItem, GoalState, GoalPatch, is_auto, should_infer_auto_complete,
  normalize_auto_complete, has_key, plan_key, settled, settle_item, is_missing, reconcile_plan,
  merge_goal,
}

-- What an item says of the work: everything but its mark.
abbrev pub entry : PlanItem → String × PlanStatus
entry item = (item.text, item.status)

normalize-entries :
    (plan : List PlanItem) → map entry (normalize_auto_complete plan) ≡ map entry plan
unfolding normalize_auto_complete
normalize-entries [] = refl
normalize-entries (item ∷ rest) =
    elim (Bool-cases
      (is_auto item.auto_complete || should_infer_auto_complete item (is_empty rest))) [
        | inl e ↦ rw e (ap (λ t. (item.text, item.status) ∷ t) (normalize-entries rest))
        | inr e ↦ rw e (ap (λ t. (item.text, item.status) ∷ t) (normalize-entries rest))
      ]

map-settle_item :
    (items : List PlanItem)
    → map entry (map settle_item items) ≡ map (λ item. (item.text, settled item.status)) items
map-settle_item [] = refl
map-settle_item (item ∷ items) =
    ap (λ t. (item.text, settled item.status) ∷ t) (map-settle_item items)

-- No item of the update has the item's text, but for white space around it and runs of it within.
abbrev pub is_left_out : List PlanItem → PlanItem → Bool
is_left_out incoming item = not (
    any (λ new. str_eq (collapse_spaces (trim new.text)) (collapse_spaces (trim item.text)))
      incoming)

-- An update of the plan does not replace the plan as a whole: the entries of the merged plan are those
-- of the update, in its order, and then those of the items of the old plan whose text, but for white
-- space around it and runs of it within, no item of the update has, in their order, with an unfinished
-- one of these marked as failed.
pub merge_goal-entries :
    (goal : GoalState) (patch : GoalPatch) (incoming : List PlanItem)
    → patch.plan ≡ some incoming
    → map entry (merge_goal goal patch).plan
      ≡ map entry incoming
        ++ map (λ item. (item.text, settled item.status)) (filter (is_left_out incoming) goal.plan)
unfolding merge_goal reconcile_plan has_key plan_key
merge_goal-entries goal patch incoming e =
    let missing = filter (is_missing incoming) goal.plan in
    rw e (
      normalize-entries (incoming ++ map settle_item missing)
      ∙ map-append entry incoming (map settle_item missing)
      ∙ ap (λ t. map entry incoming ++ t) (map-settle_item missing))
