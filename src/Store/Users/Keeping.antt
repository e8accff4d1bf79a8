-- ===== src/Store/Users/Keeping.antt =====
-- server/src/store/memoryStore.ts, class MemoryStore: when a change of a user keeps an owner of a tenant.
use run_forge.Base.{
  String, str_eq, eq_iff, Bool, true, false, not, ◌&&◌, ◌||◌, Option, none, some, ◌≡◌, sym, ap, ◌∙◌,
  ◌⊎◌, arith, inl, inr, Bool-cases, holds_row, find_row, set_row, find_row-set_row, any_row,
  any_row-found, any_row-witness,
}
use run_forge.Spaces.Rows.{UserRow}
use run_forge.Store.State.{MemoryStore}
use run_forge.Store.Users.{is_owner, has_other_owner}

abbrev pub owns : String → UserRow → Bool
owns tenant_id user = str_eq user.tenant_id tenant_id && is_owner user.role

unfoldable pub has_owner : MemoryStore → String → Bool
has_owner s tenant_id = any_row (owns tenant_id) s.users

abbrev pub has_id : String → Option UserRow → Bool
has_id id none = true
has_id id (some user) = str_eq user.id id

-- The tenant has an owner, and each user is stored under its id.
pub record IsOwned (tenant_id : String) (s : MemoryStore) : Type 0 where
  pub keyed : (id : String) → has_id id (find_row id s.users) ≡ true
  pub owned : has_owner s tenant_id ≡ true

-- An owner that is found makes the tenant owned.
pub found-owner :
    (s : MemoryStore) (t j : String) {user : UserRow}
    → find_row j s.users ≡ some user
    → owns t user ≡ true
    → has_owner s t ≡ true
unfolding has_owner
found-owner s t j found e = any_row-found (owns t) j s.users found e

pub put-keyed :
    (s s' : MemoryStore) (id : String) (user : UserRow)
    → s'.users ≡ set_row id user s.users
    → str_eq user.id id ≡ true
    → ((j : String) → has_id j (find_row j s.users) ≡ true)
    → (j : String) → has_id j (find_row j s'.users) ≡ true
put-keyed s s' id user set own keyed j =
    rw (set, find_row-set_row j id user s.users)
      (ground (arith, keyed j, eq_iff id j, eq_iff user.id id))

-- A user is set, and another owner stays or the user is one.
pub put-IsOwned :
    (t : String) (s s' : MemoryStore) (id : String) (user : UserRow)
    → IsOwned t s
    → s'.users ≡ set_row id user s.users
    → str_eq user.id id ≡ true
    → (j : String) (other : UserRow) → find_row j s'.users ≡ some other
    → owns t other ≡ true
    → IsOwned t s'
put-IsOwned t s s' id user before set own j other found e = record {
  keyed = put-keyed s s' id user set own before.keyed;
  owned = found-owner s' t j found e;
}

pub still-found :
    (s s' : MemoryStore) (id : String) (user : UserRow)
    → s'.users ≡ set_row id user s.users
    → (j : String) {other : UserRow} → find_row j s.users ≡ some other
    → str_eq id j ≡ false
    → find_row j s'.users ≡ some other
still-found s s' id user set j {other} found apart =
    rw (set, find_row-set_row j id user s.users, apart) found

pub set-found :
    (s s' : MemoryStore) (id : String) (user : UserRow)
    → s'.users ≡ set_row id user s.users
    → find_row id s'.users ≡ some user
set-found s s' id user set =
    rw (set, find_row-set_row id id user s.users) (ground (arith, eq_iff id id))

-- An owner of the tenant besides a given user, under another id.
pub other-owner :
    (s : MemoryStore) (t id : String)
    → ((j : String) → has_id j (find_row j s.users) ≡ true)
    → has_other_owner s t id ≡ true
    → (j : String) × (other : UserRow) × (find_row j s.users ≡ some other)
      × (owns t other ≡ true)
      × (str_eq id j ≡ false)
unfolding has_other_owner
other-owner s t id keyed e =
    let (j, other, found, passes) =
      any_row-witness
        (λ user. str_eq user.tenant_id t && not (str_eq user.id id) && is_owner user.role) s.users
        e in
    let named : has_id j (some other) ≡ true = ap (has_id j) (sym found) ∙ keyed j in
    (
      j,
      other,
      found,
      ground (arith, passes),
      ground (arith, passes, named, eq_iff id j, eq_iff other.id j, eq_iff other.id id),
    )

-- The row of a user changes: it still owns the tenant if it did, or another one does.
pub changed-IsOwned :
    (t : String) (s s' : MemoryStore) (id : String) (user user' : UserRow)
    → IsOwned t s
    → find_row id s.users ≡ some user
    → s'.users ≡ set_row id user' s.users
    → user'.id ≡ user.id
    → ((not (owns t user) || owns t user') ≡ true)
      ⊎ (has_other_owner s user.tenant_id user.id ≡ true)
    → IsOwned t s'
unfolding has_owner
changed-IsOwned t s s' id user user' before found set same kept =
    let own : str_eq user.id id ≡ true = ap (has_id id) (sym found) ∙ before.keyed id in
    let own' : str_eq user'.id id ≡ true = ap (λ name. str_eq name id) same ∙ own in
    let (j, owner_row, here, passes) = any_row-witness (owns t) s.users before.owned in
    elim (Bool-cases (str_eq id j)) [
      | inr apart ↦
          put-IsOwned t s s' id user' before set own' j owner_row
            (still-found s s' id user' set j here apart) passes
      | inl at_id ↦
          let owner_is : some owner_row ≡ some user =
            sym here ∙ ap (λ k. find_row k s.users) (sym ((eq_iff id j).0 at_id)) ∙ found in
          let owns_user : owns t user ≡ true = sym (ap (holds_row (owns t)) owner_is) ∙ passes in
          elim kept [
            | inl keeps ↦
                put-IsOwned t s s' id user' before set own' id user' (set-found s s' id user' set)
                  (ground (arith, keeps, owns_user))
            | inr another ↦
                let (k, other, there, also, apart) =
                  other-owner s user.tenant_id user.id before.keyed another in
                let tenant : str_eq user.tenant_id t ≡ true = ground (arith, owns_user) in
                let apart' : str_eq id k ≡ false =
                  ap (λ name. str_eq name k) (sym ((eq_iff user.id id).0 own)) ∙ apart in
                let also' : owns t other ≡ true =
                  ap (λ name. owns name other) (sym ((eq_iff user.tenant_id t).0 tenant)) ∙ also in
                put-IsOwned t s s' id user' before set own' k other
                  (still-found s s' id user' set k there apart') also'
          ]
    ]
