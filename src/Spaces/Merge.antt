-- ===== src/Spaces/Merge.antt =====
-- server/src/spaces/access.ts, `mergeSpaceConfig`: an update of a space's configuration.
use run_forge.Base.{
  String, str_eq, eq_iff, ◌≡◌, ◌∙◌, refl, Bool, true, false, not, ◌&&◌, arith, if◌then◌else◌,
  Bool-cases, inl, inr, Value, undefined, string, object, Fields, no_fields, cons_field, field,
  has_own,
}

-- `isPlainRecord(value) ? value : {}`
abbrev pub as_record : Value → Fields
as_record v = elim v [ object fields ↦ fields | _ ↦ no_fields ]

unfoldable pub set_field : String → Value → Fields → Fields
set_field key v no_fields = cons_field key v no_fields
set_field key v (cons_field k w fs) =
    if str_eq k key then cons_field key v fs else cons_field k w (set_field key v fs)

-- `{ ...base, ...over }`
unfoldable pub spread : Fields → Fields → Fields
unfolding set_field
spread base no_fields = base
spread base (cons_field k v fs) = set_field k v (spread base fs)

-- `delete object[key]`
unfoldable pub remove_field : String → Fields → Fields
remove_field key no_fields = no_fields
remove_field key (cons_field k v fs) =
    let rest = remove_field key fs in if str_eq k key then rest else cons_field k v rest

abbrev is_string : Value → Bool
is_string v = elim v [ string _ ↦ true | _ ↦ false ]

abbrev merged_group : String → Fields → Fields → Value
merged_group key current update =
    object (spread (as_record (field key current)) (as_record (field key update)))

unfoldable pub merged_groups : Fields → Fields → Fields
unfolding spread
merged_groups current update = set_field "external" (merged_group "external" current update) (
    set_field "capabilities" (merged_group "capabilities" current update)
      (set_field "model" (merged_group "model" current update) (spread current update)))

abbrev drops_template : Fields → Bool
drops_template update =
    is_string (field "systemPrompt" update) && not (is_string (field "promptTemplate" update))

unfoldable pub merge_space_config : Fields → Fields → Fields
merge_space_config current update =
    if drops_template update
    then remove_field "promptTemplate" (merged_groups current update)
    else merged_groups current update

field-set_field :
    (key j : String) (v : Value) (fs : Fields)
    → field j (set_field key v fs) ≡ (if str_eq key j then v else field j fs)
unfolding set_field field
field-set_field key j v no_fields = refl
field-set_field key j v (cons_field k w fs) =
    ground (arith, eq_iff k key, eq_iff k j, eq_iff key j, field-set_field key j v fs)

pub field-spread :
    (base over : Fields) (j : String)
    → field j (spread base over) ≡ (if has_own j over then field j over else field j base)
unfolding spread field has_own
field-spread base no_fields j = refl
field-spread base (cons_field k v fs) j =
    ground (arith, field-set_field k j v (spread base fs), field-spread base fs j)

field-remove_field :
    (key j : String) (fs : Fields)
    → field j (remove_field key fs) ≡ (if str_eq key j then undefined else field j fs)
unfolding remove_field field
field-remove_field key j no_fields = ground arith
field-remove_field key j (cons_field k v fs) =
    ground (arith, eq_iff k key, eq_iff k j, eq_iff key j, field-remove_field key j fs)

-- The groups that are merged setting by setting.
pub data Group : Type 0 where
  model capabilities external : Group

abbrev pub group_name : Group → String
group_name model = "model"
group_name capabilities = "capabilities"
group_name external = "external"

field-merged_groups :
    (g : Group) (current update : Fields)
    → field (group_name g) (merged_groups current update)
      ≡ merged_group (group_name g) current update
unfolding merged_groups
field-merged_groups model current update = simp field-set_field
field-merged_groups capabilities current update = simp field-set_field
field-merged_groups external current update = simp field-set_field

in_removed :
    (g : Group) (config : Fields)
    → field (group_name g) (remove_field "promptTemplate" config) ≡ field (group_name g) config
in_removed model config = simp field-remove_field
in_removed capabilities config = simp field-remove_field
in_removed external config = simp field-remove_field

field-merge_space_config :
    (g : Group) (current update : Fields)
    → field (group_name g) (merge_space_config current update)
      ≡ merged_group (group_name g) current update
unfolding merge_space_config
field-merge_space_config g current update = elim (Bool-cases (drops_template update)) [
  | inl e ↦
      rw e (in_removed g (merged_groups current update) ∙ field-merged_groups g current update)
  | inr e ↦ rw e (field-merged_groups g current update)
]

-- One setting inside a group of the configuration.
abbrev pub setting : Group → String → Fields → Value
setting g key config = field key (as_record (field (group_name g) config))

-- An update replaces, inside each of the groups for the model, the capabilities and external use,
-- the settings that it names, and keeps the group's other settings.
pub merge_space_config-setting :
    (g : Group) (key : String) (current update : Fields)
    → setting g key (merge_space_config current update) ≡ (
        if has_own key (as_record (field (group_name g) update))
        then setting g key update
        else setting g key current)
merge_space_config-setting g key current update = rw (field-merge_space_config g current update) (
    field-spread (as_record (field (group_name g) current))
      (as_record (field (group_name g) update)) key)
