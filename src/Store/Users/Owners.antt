-- ===== src/Store/Users/Owners.antt =====
-- server/src/store/memoryStore.ts, class MemoryStore: a tenant does not lose its last owner.
use run_forge.Base.{
  String, str_eq, eq_iff, Bool, true, false, not, ◌&&◌, ◌||◌, none, some, [], ◌∷◌, if◌then◌else◌,
  contains, ◌≡◌, refl, sym, ap, ◌∙◌, ◌⊎◌, arith, inl, inr, Bool-cases, Option-cases, holds_row,
  find_row, find_row-remove_rows, any_row-witness, OnOk, OnOk-value, Result-cases, require_that,
  ◌>>◌, is_some,
}
use run_forge.Spaces.Rows.{UserRow}
use run_forge.Store.Rows.{StoreError, delete_conflict}
use run_forge.Store.State.{MemoryStore}
use run_forge.Store.Calls.{state_or}
use run_forge.Store.Users.{
  is_owner, new_user, CreateUserInput, create_user, UserFields, update_user, assign_user,
  takes_ownership, has_other_owner, has_threads, executes_spaces, check_delete_user, delete_user,
  mark_bootstrap_user, put_user, forget_user,
}
use run_forge.Store.Users.Keeping.{
  owns, has_owner, IsOwned, found-owner, put-IsOwned, still-found, other-owner, changed-IsOwned,
}

create_user-IsOwned :
    (t : String) (s : MemoryStore)
    → IsOwned t s
    → (id now : String) (input : CreateUserInput) → find_row id s.users ≡ none
    → IsOwned t (create_user s id now input).0
unfolding create_user has_owner
create_user-IsOwned t s before id now input fresh =
    let (j, owner_row, here, passes) = any_row-witness (owns t) s.users before.owned in
    let apart : str_eq id j ≡ false = ground (arith, eq_iff id j, here, fresh) in
    let user = new_user id now input in
    let next = put_user id user s in
    put-IsOwned t s next id user before refl (ground (arith, eq_iff id id)) j owner_row
      (still-found s next id user refl j here apart) passes

kept-owner :
    (t : String) (s : MemoryStore) (user : UserRow) (fields : UserFields)
    → (is_owner user.role
        && takes_ownership fields.role
        && not (has_other_owner s user.tenant_id user.id))
      ≡ false
    → ((not (owns t user) || owns t (assign_user fields user)) ≡ true)
      ⊎ (has_other_owner s user.tenant_id user.id ≡ true)
kept-owner t s user fields taken = elim (Bool-cases (has_other_owner s user.tenant_id user.id)) [
  | inl another ↦ inr another
  | inr alone ↦ inl (ground (arith, taken, alone))
]

update_user-IsOwned :
    (t : String) (s : MemoryStore)
    → IsOwned t s
    → (id : String) (fields : UserFields)
    → IsOwned t (state_or (λ done. done.0) s (update_user s id fields))
unfolding update_user
update_user-IsOwned t s before id fields = elim (Option-cases (find_row id s.users)) [
  | inl missing ↦ rw missing before
  | inr (user, found) ↦
      elim (Bool-cases (
        is_owner user.role
        && takes_ownership fields.role
        && not (has_other_owner s user.tenant_id user.id))) [
          | inl refused ↦ rw (found, refused) before
          | inr taken ↦
              rw (found, taken)
                (changed-IsOwned t s _ id user _ before found refl refl
                  (kept-owner t s user fields taken))
        ]
]

mark_bootstrap_user-IsOwned :
    (t : String) (s : MemoryStore)
    → IsOwned t s
    → (id : String) → IsOwned t (state_or (λ done. done.0) s (mark_bootstrap_user s id))
unfolding mark_bootstrap_user
mark_bootstrap_user-IsOwned t s before id = elim (Option-cases (find_row id s.users)) [
  | inl missing ↦ rw missing before
  | inr (user, found) ↦
      rw found (changed-IsOwned t s _ id user _ before found refl refl (inl (ground arith)))
]

-- Each of four requirements holds after the chain of them, the last one too.
last_of_four :
    (a b c d : Bool) (w x y z : StoreError)
    → OnOk
        (λ _. d ≡ true)
        (require_that a w >> (require_that b x >> (require_that c y >> require_that d z)))
last_of_four a b c true w x y z = ground arith
last_of_four a b c false w x y z = ground arith

-- A deleted user is not the last owner.
check_delete_user-lem :
    (s : MemoryStore) (tenant_id id : String) (target : UserRow)
    → OnOk
        (λ _. (not (is_owner target.role) || has_other_owner s tenant_id id) ≡ true)
        (check_delete_user s tenant_id id target)
unfolding check_delete_user
check_delete_user-lem s tenant_id id target =
    last_of_four (not target.is_bootstrap) (not (has_threads s tenant_id id))
      (not (executes_spaces s tenant_id id))
      (not (is_owner target.role) || has_other_owner s tenant_id id)
      (delete_conflict "DEFAULT_ADMIN_PROTECTED") (delete_conflict "USER_HAS_THREADS")
      (delete_conflict "USER_IS_EXECUTION_USER") (delete_conflict "LAST_OWNER_PROTECTED")

forget_user-IsOwned :
    (t : String) (s : MemoryStore)
    → IsOwned t s
    → (tenant_id id : String) (target : UserRow) → find_row id s.users ≡ some target
    → str_eq target.tenant_id tenant_id ≡ true
    → (not (is_owner target.role) || has_other_owner s tenant_id id) ≡ true
    → IsOwned t (forget_user tenant_id id s)
unfolding contains has_owner
forget_user-IsOwned t s before tenant_id id target found same safe =
    let next = forget_user tenant_id id s in
    let gone : (k : String)
        → find_row k next.users ≡ (if contains (id ∷ []) k then none else find_row k s.users) =
      λ k. find_row-remove_rows k (id ∷ []) s.users in
    let (j, owner_row, here, passes) = any_row-witness (owns t) s.users before.owned in
    record {
      keyed = λ k. ground (arith, gone k, before.keyed k);
      owned = elim (Bool-cases (str_eq id j)) [
        | inr apart ↦
            found-owner next t j {user = owner_row} (ground (arith, gone j, here, apart)) passes
        | inl at_id ↦
            let owner_is : some owner_row ≡ some target =
              sym here ∙ ap (λ k. find_row k s.users) (sym ((eq_iff id j).0 at_id)) ∙ found in
            let owns_target : owns t target ≡ true =
              sym (ap (holds_row (owns t)) owner_is) ∙ passes in
            let (k, other, there, also, apart) =
              other-owner s tenant_id id before.keyed (ground (arith, owns_target, safe)) in
            let also' : owns t other ≡ true = ground (
              arith,
              also,
              owns_target,
              same,
              eq_iff target.tenant_id t,
              eq_iff target.tenant_id tenant_id,
              eq_iff other.tenant_id t,
              eq_iff other.tenant_id tenant_id,
            ) in
            found-owner next t k {user = other} (ground (arith, gone k, there, apart)) also'
      ];
    }

delete_user-IsOwned :
    (t : String) (s : MemoryStore)
    → IsOwned t s
    → (tenant_id id : String) → IsOwned t (state_or (λ done. done.0) s (delete_user s tenant_id id))
unfolding delete_user
delete_user-IsOwned t s before tenant_id id = elim (Option-cases (find_row id s.users)) [
  | inl missing ↦ rw missing before
  | inr (target, found) ↦ elim (Bool-cases (not (str_eq target.tenant_id tenant_id))) [
    | inl other ↦ rw (found, other) before
    | inr same ↦ elim (Result-cases (check_delete_user s tenant_id id target)) [
      | inl (thrown, refused) ↦ rw (found, same, refused) before
      | inr (done, passed) ↦
          let safe = OnOk-value _ (check_delete_user-lem s tenant_id id target) passed in
          rw (found, same, passed)
            (forget_user-IsOwned t s before tenant_id id target found (ground (arith, same)) safe)
    ]
  ]
]

pub data UserCall : Type 0 where
  create : (id now : String) → CreateUserInput → UserCall
  update : String → UserFields → UserCall
  delete : (tenant_id id : String) → UserCall
  mark_bootstrap : String → UserCall

unfoldable pub apply_user : UserCall → MemoryStore → MemoryStore
apply_user (create id now input) s = (create_user s id now input).0
apply_user (update id fields) s = state_or (λ done. done.0) s (update_user s id fields)
apply_user (delete tenant_id id) s = state_or (λ done. done.0) s (delete_user s tenant_id id)
apply_user (mark_bootstrap id) s = state_or (λ done. done.0) s (mark_bootstrap_user s id)

-- A new user's id is not in use.
abbrev is_fresh : UserCall → MemoryStore → Bool
is_fresh (create id _ _) s = not (is_some (find_row id s.users))
is_fresh (update _ _) s = true
is_fresh (delete _ _) s = true
is_fresh (mark_bootstrap _) s = true

-- A call that creates (under a fresh id), updates, deletes or marks a user leaves a tenant that has an
-- owner with an owner, whoever the call is about, and each user stored under its own id.
pub apply_user-IsOwned :
    (t : String) (call : UserCall) (s : MemoryStore)
    → IsOwned t s
    → is_fresh call s ≡ true
    → IsOwned t (apply_user call s)
unfolding apply_user
apply_user-IsOwned t (create id now input) s before fresh =
    create_user-IsOwned t s before id now input
      (ground (arith, Option-cases (find_row id s.users), fresh))
apply_user-IsOwned t (update id fields) s before fresh = update_user-IsOwned t s before id fields
apply_user-IsOwned t (delete tenant_id id) s before fresh =
    delete_user-IsOwned t s before tenant_id id
apply_user-IsOwned t (mark_bootstrap id) s before fresh = mark_bootstrap_user-IsOwned t s before id
