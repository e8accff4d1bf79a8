-- ===== src/Spaces/Access/Visibility.antt =====
-- Which spaces a user of a tenant sees, through each of the queries.
use mathlib.Core.List.{Perm}
use mathlib.Core.List.Perm
use run_forge.Base.{
  String, eq_iff, ◌≡◌, refl, ap, inl, inr, Bool, true, false, ◌||◌, Option, some, List, [], ◌∷◌,
  map, filter, arith, Bool-cases, Option-cases, contains, ok, Result-cases, All,
}
use run_forge.Spaces.Rows.{TenantUserRole, UserStatus, UserRow, TenantRow, SpaceRow, Services}
use run_forge.Spaces.Access.{
  tenant_actor, ResolvedTenantActor, SpaceSummary, is_manager, resolve_tenant_actor, to_summary,
  insert_summary, sort_summaries, to_summaries, sees, comes_before, chosen_space, present_id, list,
  get, is_web, require_writable_web_space,
}

module _ (services : Services) where
  open services use {State, find_user_by_id, find_tenant, find_space, list_spaces}

  -- The actor that a token stands for: the stored user, active and of the token's tenant, with the
  -- role of the store.
  pub record IsActor (s : State) (tenant_id user_id : String) (actor : ResolvedTenantActor)
      : Type 0 where
    pub user : UserRow
    pub found : find_user_by_id s user_id ≡ some user
    pub in_tenant : user.tenant_id ≡ tenant_id
    pub is_enabled : user.status ≡ UserStatus.active
    pub same : actor ≡ record { tenant_id = user.tenant_id; user_id = user.id; role = user.role }

  pub resolve_tenant_actor-IsActor :
      (s : State) (tenant_id user_id : String) {actor : ResolvedTenantActor}
      → resolve_tenant_actor services s tenant_id user_id ≡ ok actor
      → IsActor s tenant_id user_id actor
  unfolding resolve_tenant_actor
  resolve_tenant_actor-IsActor s tenant_id user_id e =
      elim (Option-cases (find_user_by_id s user_id)) [
        | inl missing ↦ cc (rw missing at e)
        | inr (user, found) ↦ record {
          user = user;
          found = found;
          in_tenant = ground (arith, eq_iff user.tenant_id tenant_id);
          is_enabled = ground arith;
          same = ground arith;
        }
      ]

  -- What a query returns to a user about one space is the summary of that space in the tenant of the
  -- stored user, who is active and of the token's tenant; the user manages the tenant by the stored
  -- role, whatever role the token carries, or is on the space's list; and a space that is given for
  -- writing is a web space.
  pub record IsSeen (s : State) (tenant_id user_id : String) (summary : SpaceSummary) : Type 0 where
    pub actor : ResolvedTenantActor
    pub is_actor : IsActor s tenant_id user_id actor
    pub space : SpaceRow
    pub space_id : String
    pub stored : find_space s actor.tenant_id space_id ≡ some space
    pub seen : (is_manager actor.role || contains space.visible_user_ids actor.user_id) ≡ true
    pub tenant : TenantRow
    pub summarized : summary ≡ to_summary services space tenant.default_space_id

  -- What `get` returns to a user is the summary of one stored space of the tenant of the stored user,
  -- who is active and of the token's tenant, and who manages the tenant by the stored role, whatever
  -- role the token carries, or is on the space's list of users.
  pub get-IsSeen :
      (s : State) (tenant_id user_id : String) (role : TenantUserRole) (id : String)
      {summary : SpaceSummary}
      → get services s (tenant_actor tenant_id user_id role) id ≡ ok summary
      → IsSeen s tenant_id user_id summary
  unfolding get
  get-IsSeen s tenant_id user_id role id e =
      elim (Result-cases (resolve_tenant_actor services s tenant_id user_id)) [
        | inl (x, refused) ↦ cc (rw refused at e)
        | inr (actor, resolved) ↦ elim (Option-cases (find_space s actor.tenant_id id)) [
          | inl missing ↦ cc (rw (resolved, missing) at e)
          | inr (space, stored) ↦ elim (Option-cases (find_tenant s actor.tenant_id)) [
            | inl no_tenant ↦ ground arith
            | inr (tenant, known) ↦ record {
              actor = actor;
              is_actor = resolve_tenant_actor-IsActor s tenant_id user_id resolved;
              space = space;
              space_id = id;
              stored = stored;
              seen = ground arith;
              tenant = tenant;
              summarized = ground arith;
            }
          ]
        ]
      ]

  -- What `requireWritableWebSpace` returns to a user is the summary of one stored web space of the
  -- tenant of the stored user, who is active and of the token's tenant, and who manages the tenant by
  -- the stored role or is on the space's list of users.
  pub require_writable_web_space-IsSeen :
      (s : State) (tenant_id user_id : String) (requested : Option String) {summary : SpaceSummary}
      → require_writable_web_space services s tenant_id user_id requested ≡ ok summary
      → IsSeen s tenant_id user_id summary × (is_web summary.mode ≡ true)
  unfolding require_writable_web_space to_summary
  require_writable_web_space-IsSeen s tenant_id user_id requested {summary} e =
      elim (Result-cases (resolve_tenant_actor services s tenant_id user_id)) [
        | inl (x, refused) ↦ cc (rw refused at e)
        | inr (actor, resolved) ↦ elim (Option-cases (find_tenant s actor.tenant_id)) [
          | inl no_tenant ↦ cc (rw (resolved, no_tenant) at e)
          | inr (tenant, known) ↦
              elim (Result-cases (present_id (chosen_space requested tenant.default_space_id))) [
                | inl (x, no_id) ↦ ground arith
                | inr (id, chosen) ↦ elim (Option-cases (find_space s actor.tenant_id id)) [
                  | inl missing ↦ ground arith
                  | inr (space, stored) ↦ (
                    record {
                      actor = actor;
                      is_actor = resolve_tenant_actor-IsActor s tenant_id user_id resolved;
                      space = space;
                      space_id = id;
                      stored = stored;
                      seen = ground arith;
                      tenant = tenant;
                      summarized = ground arith;
                    },
                    ground arith,
                  )
                ]
              ]
        ]
      ]

  -- The summary shows its space's list, so that what a summary shows decides who sees it.
  abbrev pub sees_summary : ResolvedTenantActor → SpaceSummary → Bool
  sees_summary actor summary =
      is_manager actor.role || contains summary.visible_user_ids actor.user_id

  insert_summary-All :
      (P : SpaceSummary → Type 0) (a : SpaceSummary) (rows : List SpaceSummary)
      → P a
      → All P rows
      → All P (insert_summary services a rows)
  unfolding insert_summary
  insert_summary-All P a [] p ps = (p, tt)
  insert_summary-All P a (b ∷ rest) p (q, ps) = elim (Bool-cases (comes_before services a b)) [
    | inl first ↦ rw first (p, (q, ps))
    | inr later ↦ rw later (q, insert_summary-All P a rest p ps)
  ]

  sort_summaries-All :
      (P : SpaceSummary → Type 0) (rows : List SpaceSummary)
      → All P rows
      → All P (sort_summaries services rows)
  unfolding sort_summaries
  sort_summaries-All P [] ps = tt
  sort_summaries-All P (a ∷ rest) (p, ps) =
      insert_summary-All P a (sort_summaries services rest) p (sort_summaries-All P rest ps)

  insert_summary-Perm :
      (a : SpaceSummary) (rows : List SpaceSummary)
      → Perm (insert_summary services a rows) (a ∷ rows)
  unfolding insert_summary
  insert_summary-Perm a [] = Perm.rfl
  insert_summary-Perm a (b ∷ rest) = elim (Bool-cases (comes_before services a b)) [
    | inl first ↦ rw first Perm.rfl
    | inr later ↦
        rw later (Perm.trans (Perm.cons b (insert_summary-Perm a rest)) (Perm.swap a b rest))
  ]

  sort_summaries-Perm : (rows : List SpaceSummary) → Perm (sort_summaries services rows) rows
  unfolding sort_summaries
  sort_summaries-Perm [] = Perm.rfl
  sort_summaries-Perm (a ∷ rest) =
      Perm.trans (insert_summary-Perm a (sort_summaries services rest))
        (Perm.cons a (sort_summaries-Perm rest))

  filter-manager :
      (actor : ResolvedTenantActor) (rows : List SpaceRow)
      → is_manager actor.role ≡ true
      → filter (sees actor) rows ≡ rows
  filter-manager actor [] m = refl
  filter-manager actor (row ∷ rows) m = rw m (ap (λ t. row ∷ t) (filter-manager actor rows m))

  filter-member :
      (actor : ResolvedTenantActor) (rows : List SpaceRow)
      → is_manager actor.role ≡ false
      → filter (sees actor) rows
        ≡ filter (λ space. contains space.visible_user_ids actor.user_id) rows
  filter-member actor [] m = refl
  filter-member actor (row ∷ rows) m = ground (arith, filter-member actor rows m)

  summaries_of : Option String → List SpaceRow → List SpaceSummary
  summaries_of default_id rows = map (λ space. to_summary services space default_id) rows

  to_summaries-eq-ok :
      (s : State) (tenant_id : String) (rows : List SpaceRow) {summaries : List SpaceSummary}
      → to_summaries services s tenant_id rows ≡ ok summaries
      → (tenant : TenantRow) × (find_tenant s tenant_id ≡ some tenant)
        × (summaries ≡ sort_summaries services (summaries_of tenant.default_space_id rows))
  unfolding to_summaries summaries_of
  to_summaries-eq-ok s tenant_id rows e = elim (Option-cases (find_tenant s tenant_id)) [
    | inl missing ↦ cc (rw missing at e)
    | inr (tenant, known) ↦ (tenant, known, ground arith)
  ]

  list-eq-ok :
      (s : State) (tenant_id user_id : String) (role : TenantUserRole) (actor : ResolvedTenantActor)
      (summaries : List SpaceSummary)
      → resolve_tenant_actor services s tenant_id user_id ≡ ok actor
      → list services s (tenant_actor tenant_id user_id role) ≡ ok summaries
      → to_summaries services s actor.tenant_id
          (filter (sees actor) (list_spaces s actor.tenant_id))
        ≡ ok summaries
  unfolding list
  list-eq-ok s tenant_id user_id role actor summaries resolved e =
      let rows = list_spaces s actor.tenant_id in
      elim (Bool-cases (is_manager actor.role)) [
        | inl manager ↦ rw (filter-manager actor rows manager) (rw (resolved, manager) at e)
        | inr plain ↦ rw (filter-member actor rows plain) (rw (resolved, plain) at e)
      ]

  seen-All :
      (actor : ResolvedTenantActor) (default_id : Option String) (rows : List SpaceRow)
      → All
          (λ summary. sees_summary actor summary ≡ true)
          (summaries_of default_id (filter (sees actor) rows))
  unfolding summaries_of
  seen-All actor default_id [] = tt
  seen-All actor default_id (row ∷ rows) = elim (Bool-cases (sees actor row)) [
    | inl here ↦ rw here (unfold to_summary in here, seen-All actor default_id rows)
    | inr gone ↦ rw gone (seen-All actor default_id rows)
  ]

  -- A user's list of spaces shows only spaces that the user sees; it is, in some order, the summaries of
  -- all the stored spaces of the tenant that the user sees, each once, with the tenant's default space
  -- marked.
  pub list-All_seen :
      (s : State) (tenant_id user_id : String) (role : TenantUserRole) (actor : ResolvedTenantActor)
      (summaries : List SpaceSummary)
      → resolve_tenant_actor services s tenant_id user_id ≡ ok actor
      → list services s (tenant_actor tenant_id user_id role) ≡ ok summaries
      → All (λ summary. sees_summary actor summary ≡ true) summaries
        × ((tenant : TenantRow) × (find_tenant s actor.tenant_id ≡ some tenant)
            × Perm summaries (
                map
                  (λ space. to_summary services space tenant.default_space_id)
                  (filter (sees actor) (list_spaces s actor.tenant_id))))
  unfolding summaries_of
  list-All_seen s tenant_id user_id role actor summaries resolved e =
      let rows = list_spaces s actor.tenant_id in
      let (tenant, known, same) =
        to_summaries-eq-ok s actor.tenant_id (filter (sees actor) rows)
          (list-eq-ok s tenant_id user_id role actor summaries resolved e) in
      (
        rw same (
            sort_summaries-All (λ summary. sees_summary actor summary ≡ true) _
              (seen-All actor tenant.default_space_id rows)),
        (tenant, known, rw same (sort_summaries-Perm _)),
      )
