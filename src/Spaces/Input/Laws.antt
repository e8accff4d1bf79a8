-- ===== src/Spaces/Input/Laws.antt =====
-- What a request's body has once it is accepted.
use text.Mathlib.TextPositions.{eq_refl}
use Prim.Native.Char.{Char, code}
use run_forge.Base.{
  is_space, is_white, trim, trim_char, trim_start, trim_end, NoDup, String, eq_iff, ◌≡◌, refl, Bool,
  true, false, not, ◌||◌, List, [], ◌∷◌, arith, Bool-cases, inl, inr, any, contains, map, ok, OnOk,
  OnOk-bind, OnOk-value, Value, undefined, null, bool, number, string, array, object, Fields, field,
  elements, is_some, has_own, require_that,
}
use run_forge.Spaces.Input.{
  SpaceAccessError, trimmed, normalized_name, unique_from, unique, is_blank, normalized_user_ids,
  optional_ids, optional_user, CreateSpaceInput, UpdateSpaceInput, parse_create_space_input,
  parse_update_space_input, parse_mode, nullable_user, immutable, empty_update, plain_record,
  or_empty_config, when_own,
}

contains-tail :
    (x : String) (seen : List String) (id : String)
    → contains seen id ≡ true
    → contains (x ∷ seen) id ≡ true
unfolding contains
contains-tail x seen id h = ground arith

contains-head : (x : String) (seen : List String) → contains (x ∷ seen) x ≡ true
unfolding contains
contains-head x seen = ground (arith, eq_refl x)

contains-unique_from :
    (seen ids : List String) (id : String)
    → contains seen id ≡ true
    → contains (unique_from seen ids) id ≡ false
unfolding unique_from contains
contains-unique_from seen [] id h = refl
contains-unique_from seen (x ∷ ids) id h = elim (Bool-cases (contains seen x)) [
  | inl old ↦ rw (old, unique_from) (contains-unique_from seen ids id h)
  | inr new ↦
      ground
        (arith, eq_iff x id, contains-unique_from (x ∷ seen) ids id (contains-tail x seen id h))
]

unique_from-NoDup : (seen ids : List String) → NoDup (unique_from seen ids)
unfolding unique_from
unique_from-NoDup seen [] = tt
unique_from-NoDup seen (id ∷ ids) = elim (Bool-cases (contains seen id)) [
  | inl old ↦ rw (old, unique_from) (unique_from-NoDup seen ids)
  | inr new ↦
      rw (new, unique_from)
        (
          contains-unique_from (id ∷ seen) ids id (contains-head id seen),
          unique_from-NoDup (id ∷ seen) ids,
        )
]

any-unique_from :
    (p : String → Bool) (seen ids : List String)
    → any p ids ≡ false
    → any p (unique_from seen ids) ≡ false
unfolding unique_from
any-unique_from p seen [] h = refl
any-unique_from p seen (id ∷ ids) h =
    ground (arith, any-unique_from p seen ids, any-unique_from p (id ∷ seen) ids)

cons-not_blank : (c : Char) (s : String) → is_blank (String.◌∷◌ c s) ≡ false
cons-not_blank c s = elim (Bool-cases (is_blank (String.◌∷◌ c s))) [
  | inl blank ↦ absurd (cc ((eq_iff (String.◌∷◌ c s) "").0 blank))
  | inr full ↦ full
]

-- What `trim` leaves is empty, or more than white space.
trim_char-white :
    (b : Bool) (c : Char) (rest : String)
    → is_space (code c) ≡ b
    → (is_blank rest ≡ false → is_white rest ≡ false)
    → is_blank (trim_char b rest (String.◌∷◌ c rest)) ≡ false
    → is_white (trim_char b rest (String.◌∷◌ c rest)) ≡ false
unfolding is_white
trim_char-white true c String.[] e inner h = cc
trim_char-white true c (String.◌∷◌ d rest) e inner h =
    rw (inner (cons-not_blank d rest)) (rw e refl)
trim_char-white false c rest e inner h = rw e refl

trim_end-white : (s : String) → is_blank (trim_end s) ≡ false → is_white (trim_end s) ≡ false
unfolding trim_end
trim_end-white String.[] h = cc
trim_end-white (String.◌∷◌ c s) h =
    trim_char-white (is_space (code c)) c (trim_end s) refl (trim_end-white s) h

trimmed-white : (v : Value) → is_blank (trimmed v) ≡ false → is_white (trimmed v) ≡ false
unfolding trim
trimmed-white (string s) h = trim_end-white (trim_start s) h
trimmed-white undefined h = cc
trimmed-white null h = cc
trimmed-white (bool _) h = cc
trimmed-white (number _) h = cc
trimmed-white (object _) h = cc
trimmed-white (array _) h = cc

any-white :
    (vs : List Value)
    → any is_blank (map trimmed vs) ≡ false
    → any is_white (map trimmed vs) ≡ false
any-white [] h = refl
any-white (v ∷ vs) h = ground (arith, trimmed-white v, any-white vs)

-- The ids of a list of users: none of white space only, and none twice.
abbrev pub AreClean : List String → Type 0
AreClean ids = (any is_white ids ≡ false) × NoDup ids

normalized_user_ids-clean : (v : Value) → OnOk AreClean (normalized_user_ids v)
unfolding normalized_user_ids unique
normalized_user_ids-clean undefined = tt
normalized_user_ids-clean null = tt
normalized_user_ids-clean (bool _) = tt
normalized_user_ids-clean (number _) = tt
normalized_user_ids-clean (string _) = tt
normalized_user_ids-clean (object _) = tt
normalized_user_ids-clean (array vs) =
    let ids = map trimmed (elements vs) in
    elim (Bool-cases (any is_blank ids)) [
      | inl blank ↦ rw (blank, normalized_user_ids) tt
      | inr full ↦
          rw (full, normalized_user_ids)
            (
              any-unique_from is_white [] ids (any-white (elements vs) full),
              unique_from-NoDup [] ids,
            )
    ]

optional_ids-clean : (v : Value) → OnOk AreClean (optional_ids v)
optional_ids-clean undefined = (refl, tt)
optional_ids-clean null = normalized_user_ids-clean null
optional_ids-clean (bool b) = normalized_user_ids-clean (bool b)
optional_ids-clean (number n) = normalized_user_ids-clean (number n)
optional_ids-clean (string s) = normalized_user_ids-clean (string s)
optional_ids-clean (array vs) = normalized_user_ids-clean (array vs)
optional_ids-clean (object fs) = normalized_user_ids-clean (object fs)

normalized_name-present :
    (v : Value) {name : String} → normalized_name v ≡ ok name → is_white name ≡ false
unfolding normalized_name
normalized_name-present v e = elim (Bool-cases (is_blank (trimmed v))) [
  | inl blank ↦ cc (rw (blank, normalized_name) at e)
  | inr full ↦ ground (arith, trimmed-white v)
]

-- What an accepted body has.
abbrev pub IsClean : CreateSpaceInput → Type 0
IsClean input = (is_white input.name ≡ false) × AreClean input.visible_user_ids

-- A body that is accepted for a new space has a name with a character that is no white space, and a
-- list of users each of whose ids has such a character and stands in it once.
pub parse_create_space_input-IsClean :
    (body : Value) {input : CreateSpaceInput}
    → parse_create_space_input body ≡ ok input
    → IsClean input
unfolding parse_create_space_input
parse_create_space_input-IsClean body = OnOk-value IsClean (
    OnOk-bind IsClean (plain_record body "SPACE_INPUT_INVALID") _ λ fields _.
      OnOk-bind IsClean (parse_mode (field "mode" fields)) _ λ mode _.
        OnOk-bind IsClean
          (plain_record (or_empty_config (field "config" fields)) "SPACE_CONFIG_INVALID") _
          λ config _.
            OnOk-bind IsClean (optional_ids (field "visibleUserIds" fields)) _ λ ids read_ids.
              OnOk-bind IsClean (optional_user (field "executionUserId" fields)) _ λ user _.
                OnOk-bind IsClean (normalized_name (field "name" fields)) _ λ name read_name. (
                  normalized_name-present (field "name" fields) read_name,
                  OnOk-value AreClean (optional_ids-clean (field "visibleUserIds" fields)) read_ids,
                ))

-- An accepted update comes from an object that has no mode, and sets something.
pub record IsChange (body : Value) (input : UpdateSpaceInput) : Type 0 where
  pub fields : Fields
  pub is_object : body ≡ object fields
  pub keeps_mode : has_own "mode" fields ≡ false
  pub sets :
      (is_some input.name
        || is_some input.execution_user_id
        || is_some input.config
        || is_some input.visible_user_ids)
      ≡ true

plain_record-object :
    (body : Value) (code : String) {fields : Fields}
    → plain_record body code ≡ ok fields
    → body ≡ object fields
unfolding plain_record
plain_record-object undefined code e = cc
plain_record-object null code e = cc
plain_record-object (bool _) code e = cc
plain_record-object (number _) code e = cc
plain_record-object (string _) code e = cc
plain_record-object (array _) code e = cc
plain_record-object (object fs) code e = cc

flip : (b : Bool) → not b ≡ true → b ≡ false
flip true e = cc
flip false e = refl

require_that-true :
    (test : Bool) (thrown : SpaceAccessError) {u : Unit {0}}
    → require_that test thrown ≡ ok u
    → test ≡ true
require_that-true true thrown e = refl
require_that-true false thrown e = cc

-- A body is accepted for an update only if it is an object that does not have a mode and that sets
-- the name, the execution user, the configuration or the list of users.
pub parse_update_space_input-IsChange :
    (body : Value) {input : UpdateSpaceInput}
    → parse_update_space_input body ≡ ok input
    → IsChange body input
unfolding parse_update_space_input
parse_update_space_input-IsChange body =
    let P = IsChange body in
    OnOk-value P (
      OnOk-bind P (plain_record body "SPACE_INPUT_INVALID") _ λ fields is_object.
        OnOk-bind P (require_that (not (has_own "mode" fields)) immutable) _ λ _ no_mode.
          OnOk-bind P (when_own "name" fields normalized_name) _ λ name _.
            OnOk-bind P (when_own "executionUserId" fields nullable_user) _ λ user _.
              OnOk-bind P (when_own "config" fields (λ v. plain_record v "SPACE_CONFIG_INVALID")) _
                λ config _.
                  OnOk-bind P (when_own "visibleUserIds" fields normalized_user_ids) _ λ ids _.
                    OnOk-bind P
                      (require_that (is_some name || is_some user || is_some config || is_some ids)
                        empty_update)
                      _
                      λ _ some_set. record {
                        fields = fields;
                        is_object = plain_record-object body "SPACE_INPUT_INVALID" is_object;
                        keeps_mode =
                            flip (has_own "mode" fields) (require_that-true _ immutable no_mode);
                        sets = require_that-true _ empty_update some_set;
                      })
