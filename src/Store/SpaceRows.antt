-- ===== src/Store/SpaceRows.antt =====
-- server/src/store/memoryStore.ts, class MemoryStore, `spaceWithVisibility`: a space with its users, sorted.
use run_forge.Base.{
  ◌+◌, ◌-◌, ◌/◌, ◌%◌, String, str_eq, Bool, true, false, not, List, [], ◌∷◌, ◌==◌, ltb,
  if◌then◌else◌, filter, Text,
}
use Prim.Native.Char.{code}
use run_forge.Spaces.Rows.{SpaceRow}
use run_forge.Store.State.{MemoryStore, StoredSpace, visible_users}

-- The code units of a text, by which `sort` compares.
unfoldable units : String → Text
units String.[] = []
units (String.◌∷◌ c s) =
    let n = code c in
    let rest = units s in
    if ltb n 65536
    then n ∷ rest
    else (55296 + (n - 65536) / 1024) ∷ (56320 + (n - 65536) % 1024) ∷ rest

unfoldable units_le : Text → Text → Bool
units_le [] other = true
units_le (a ∷ s) [] = false
units_le (a ∷ s) (b ∷ t) = let rest = units_le s t in if a == b then rest else ltb a b

unfoldable insert_id : String → List String → List String
unfolding units units_le
insert_id id [] = id ∷ []
insert_id id (first ∷ ids) =
    let rest = insert_id id ids in
    if units_le (units id) (units first) then id ∷ first ∷ ids else first ∷ rest

unfoldable sort_ids : List String → List String
unfolding insert_id
sort_ids [] = []
sort_ids (id ∷ ids) = insert_id id (sort_ids ids)

-- `new Set(ids)`
unfoldable pub distinct : List String → List String
distinct [] = []
distinct (id ∷ ids) = id ∷ filter (λ other. not (str_eq other id)) (distinct ids)

unfoldable pub space_with_visibility : MemoryStore → StoredSpace → SpaceRow
unfolding sort_ids
space_with_visibility s space = record {
  id = space.id;
  tenant_id = space.tenant_id;
  mode = space.mode;
  name = space.name;
  execution_user_id = space.execution_user_id;
  config = space.config;
  config_version = space.config_version;
  created_by_user_id = space.created_by_user_id;
  created_at = space.created_at;
  updated_at = space.updated_at;
  visible_user_ids = sort_ids (visible_users s space.id);
}
