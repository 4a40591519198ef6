-- ===== src/Access/Persist.antt =====
-- server/internal/admin/accessusers.go: what is saved of the roster is what the next start loads.
use bumshi.Common.{
  ℕ, Bool, true, false, Option, none, some, List, [], ◌∷◌, ◌≡◌, inl, inr, refl, sym, ap, subst, ◌∙◌,
  Bytes, ltb, ◌&&◌, All, Option-cases, Bool-cases, if◌then◌else◌,
}
use bumshi.Strings.{eq}
use bumshi.Strings.Laws.{eq_iff}
use bumshi.Maps.{Map, lookup, insert, remove}
use bumshi.Maps.Laws.{lookup-insert, lookup-insert_other, lookup-remove, lookup-remove_other}
use bumshi.Access.{
  AccessUser, AccessStore, Json, load_users, load, new_access_store, insert_user, sort_users,
  users_of, list_users, save, create_user, delete_user,
}

unfoldable pub find_id : List AccessUser → Bytes → Option AccessUser
unfolding eq
find_id [] k = none
find_id (u ∷ us) k = if eq u.id k then some u else find_id us k

-- No two users have one id.
unfoldable Distinct : List AccessUser → Type 0
unfolding find_id
Distinct [] = Unit
Distinct (u ∷ us) = (find_id us u.id ≡ none) × Distinct us

unfoldable AllNamed : List AccessUser → Type 0
unfolding eq
AllNamed [] = Unit
AllNamed (u ∷ us) = (eq u.id [] ≡ false) × AllNamed us

-- Every user is stored once, under its own id, which is not empty.
unfoldable pub IsRoster : Map AccessUser → Type 0
unfolding eq lookup
IsRoster [] = Unit
IsRoster ((k, u) ∷ m) = (u.id ≡ k) × (eq u.id [] ≡ false) × (lookup m k ≡ none) × IsRoster m

apart :
    (u v : AccessUser) (us : List AccessUser) → find_id (v ∷ us) u.id ≡ none → eq v.id u.id ≡ false
unfolding find_id
apart u v us h = elim (Bool-cases (eq v.id u.id)) [
  | inl e ↦ absurd (cc (sym (ap (λ b. if b then some v else find_id us u.id) e) ∙ h))
  | inr e ↦ e
]

rest_lacks :
    (u v : AccessUser) (us : List AccessUser)
    → find_id (v ∷ us) u.id ≡ none
    → find_id us u.id ≡ none
unfolding find_id
rest_lacks u v us h = sym (ap (λ b. if b then some v else find_id us u.id) (apart u v us h)) ∙ h

eq_sym : (s t : Bytes) → eq s t ≡ false → eq t s ≡ false
eq_sym s t h = elim (Bool-cases (eq t s)) [
  | inl e ↦ absurd (cc (sym h ∙ (eq_iff s t).1 (sym ((eq_iff t s).0 e))))
  | inr e ↦ e
]

swapped :
    (b c : Bool) (x y : AccessUser) (z : Option AccessUser)
    → (c ≡ true → b ≡ false)
    → (if b then some x else (if c then some y else z))
      ≡ (if c then some y else (if b then some x else z))
swapped true true x y z h = absurd (cc (h refl))
swapped true false x y z h = refl
swapped false c x y z h = refl

find-insert_user :
    (u : AccessUser) (us : List AccessUser) (k : Bytes)
    → find_id us u.id ≡ none
    → find_id (insert_user u us) k ≡ (if eq u.id k then some u else find_id us k)
unfolding find_id insert_user
find-insert_user u [] k h = refl
find-insert_user u (v ∷ us) k h = elim (Bool-cases (ltb v.created u.created)) [
  | inl e ↦ rw e (
      ap (λ r. if eq v.id k then some v else r) (find-insert_user u us k (rest_lacks u v us h))
      ∙ swapped (eq v.id k) (eq u.id k) v u (find_id us k)
          (λ same. ap (eq v.id) (sym ((eq_iff u.id k).0 same)) ∙ apart u v us h))
  | inr e ↦ rw e refl
]

Distinct-insert_user :
    (u : AccessUser) (us : List AccessUser)
    → find_id us u.id ≡ none
    → Distinct us
    → Distinct (insert_user u us)
unfolding Distinct insert_user
Distinct-insert_user u [] h d = (refl, tt)
Distinct-insert_user u (v ∷ us) h (hv, d) = elim (Bool-cases (ltb v.created u.created)) [
  | inl e ↦
      rw (e, Distinct)
        (
          find-insert_user u us v.id (rest_lacks u v us h)
              ∙ ap (λ b. if b then some u else find_id us v.id) (eq_sym v.id u.id (apart u v us h))
              ∙ hv,
          Distinct-insert_user u us (rest_lacks u v us h) d,
        )
  | inr e ↦ rw (e, Distinct) (h, (hv, d))
]

AllNamed-insert_user :
    (u : AccessUser) (us : List AccessUser)
    → eq u.id [] ≡ false
    → AllNamed us
    → AllNamed (insert_user u us)
unfolding AllNamed insert_user
AllNamed-insert_user u [] h d = (h, tt)
AllNamed-insert_user u (v ∷ us) h (hv, d) = elim (Bool-cases (ltb v.created u.created)) [
  | inl e ↦ rw (e, AllNamed) (hv, AllNamed-insert_user u us h d)
  | inr e ↦ rw (e, AllNamed) (h, (hv, d))
]

-- Sorting changes neither who is found nor that ids are distinct.
find-sort_users :
    (us : List AccessUser)
    → Distinct us
    → ((k : Bytes) → find_id (sort_users us) k ≡ find_id us k) × Distinct (sort_users us)
unfolding find_id sort_users Distinct
find-sort_users [] d = (λ k. refl, tt)
find-sort_users (u ∷ us) (h, d) =
    let (same, sorted) = find-sort_users us d in
    (
      λ k.
          find-insert_user u (sort_users us) k (same u.id ∙ h)
          ∙ ap (λ r. if eq u.id k then some u else r) (same k),
      Distinct-insert_user u (sort_users us) (same u.id ∙ h) sorted,
    )

AllNamed-sort_users : (us : List AccessUser) → AllNamed us → AllNamed (sort_users us)
unfolding AllNamed sort_users
AllNamed-sort_users [] d = tt
AllNamed-sort_users (u ∷ us) (h, d) =
    AllNamed-insert_user u (sort_users us) h (AllNamed-sort_users us d)

or_else : Option AccessUser → Option AccessUser → Option AccessUser
or_else none b = b
or_else (some a) b = some a

-- Who a list of distinct users adds to a map.
lookup-load_users :
    (us : List AccessUser) (m : Map AccessUser) (k : Bytes)
    → Distinct us
    → AllNamed us
    → lookup (load_users m us) k ≡ or_else (find_id us k) (lookup m k)
unfolding load_users find_id Distinct AllNamed or_else
lookup-load_users [] m k d a = refl
lookup-load_users (u ∷ us) m k (h, d) (hu, a) = rw hu (
    lookup-load_users us (insert m u.id u) k d a ∙ elim (Bool-cases (eq u.id k)) [
      | inl e ↦
          let same : u.id ≡ k = (eq_iff u.id k).0 e in
          ap (λ o. or_else o (lookup (insert m u.id u) k)) (ap (find_id us) (sym same) ∙ h)
          ∙ ap (lookup (insert m u.id u)) (sym same)
          ∙ lookup-insert m u.id u
          ∙ sym (ap (λ b. or_else (if b then some u else find_id us k) (lookup m k)) e)
      | inr e ↦
          ap (or_else (find_id us k)) (lookup-insert_other m u.id u k e)
          ∙ sym (ap (λ b. or_else (if b then some u else find_id us k) (lookup m k)) e)
    ])

-- A roster's users are distinct, named, and found where they are stored.
IsRoster-find :
    (m : Map AccessUser)
    → IsRoster m
    → ((k : Bytes) → find_id (users_of m) k ≡ lookup m k)
      × Distinct (users_of m)
      × AllNamed (users_of m)
unfolding IsRoster find_id users_of Distinct AllNamed lookup
IsRoster-find [] h = (λ k. refl, tt, tt)
IsRoster-find ((id, u) ∷ m) (own, named, once, h) =
    let (found, d, a) = IsRoster-find m h in
    (
      λ k.
          ap (λ b. if b then some u else find_id (users_of m) k) (ap (λ t. eq t k) own)
          ∙ ap (λ r. if eq id k then some u else r) (found k),
      (found u.id ∙ ap (lookup m) own ∙ once, d),
      (named, a),
    )

or_else-none : (o : Option AccessUser) → or_else o none ≡ o
unfolding or_else
or_else-none none = refl
or_else-none (some u) = refl

-- Loading the list of a roster into an empty map gives every id its user back.
lookup-reload :
    (s : AccessStore) (k : Bytes)
    → IsRoster s.users
    → lookup (load_users [] (list_users s)) k ≡ lookup s.users k
unfolding list_users lookup
lookup-reload s k h =
    let (found, d, a) = IsRoster-find s.users h in
    let (same, sorted) = find-sort_users (users_of s.users) d in
    lookup-load_users (sort_users (users_of s.users)) [] k sorted
      (AllNamed-sort_users (users_of s.users) a)
    ∙ or_else-none (find_id (sort_users (users_of s.users)) k)
    ∙ same k
    ∙ found k

-- The texts of a user are UTF-8, and json can write its times.
unfoldable pub IsWritable : (Bytes → Bool) → (ℕ → Bool) → AccessUser → Type 0
IsWritable is_utf8 is_date u =
    ((is_utf8 u.id && is_utf8 u.label && is_utf8 u.token && is_date u.created) ≡ true)
    × (elim u.expires [ none ↦ true | some t ↦ is_date t ] ≡ true)

-- What encoding/json documents: such users are written as a text that is not empty and reads back as they
-- are.
abbrev pub IsJson : (Bytes → Bool) → (ℕ → Bool) → Json → Type 0
IsJson is_utf8 is_date json =
    (us : List AccessUser)
    → All (IsWritable is_utf8 is_date) us
    → (text : Bytes) × (json.marshal us ≡ some text)
      × (eq text [] ≡ false)
      × (json.unmarshal text ≡ some us)

All-insert_user :
    (P : AccessUser → Type 0) (u : AccessUser) (us : List AccessUser)
    → P u
    → All P us
    → All P (insert_user u us)
unfolding insert_user
All-insert_user P u [] h d = (h, tt)
All-insert_user P u (v ∷ us) h (hv, d) = elim (Bool-cases (ltb v.created u.created)) [
  | inl e ↦ rw e (hv, All-insert_user P u us h d)
  | inr e ↦ rw e (h, (hv, d))
]

All-sort_users : (P : AccessUser → Type 0) (us : List AccessUser) → All P us → All P (sort_users us)
unfolding sort_users
All-sort_users P [] d = tt
All-sort_users P (u ∷ us) (h, d) = All-insert_user P u (sort_users us) h (All-sort_users P us d)

-- The users under every id, or none if the store does not start.
unfoldable pub reloaded : Option AccessStore → Bytes → Option AccessUser
unfolding lookup
reloaded none k = none
reloaded (some s) k = lookup s.users k

-- A roster whose users are texts in UTF-8, with times that JSON can write, and whose ids are distinct is
-- loaded at the next start, from the file that `save` writes, with the same user under every id.
pub reloaded-save :
    (is_utf8 : Bytes → Bool) (is_date : ℕ → Bool) (s : AccessStore) (k : Bytes)
    → IsJson is_utf8 is_date s.json
    → All (IsWritable is_utf8 is_date) (users_of s.users)
    → IsRoster s.users
    → eq s.path [] ≡ false
    → reloaded (new_access_store s.json s.path (save s true).0.file) k ≡ lookup s.users k
unfolding reloaded new_access_store save load list_users
reloaded-save is_utf8 is_date s k round_trip texts h some_path =
    let (text, written, some_text, back) =
      round_trip (list_users s)
        (All-sort_users (IsWritable is_utf8 is_date) (users_of s.users) texts) in
    rw (some_path, written, some_text, back) (lookup-reload s k h)

pub IsRoster-remove : (m : Map AccessUser) (id : Bytes) → IsRoster m → IsRoster (remove m id)
unfolding IsRoster remove
IsRoster-remove [] id h = tt
IsRoster-remove ((k, u) ∷ m) id (own, named, once, h) = elim (Bool-cases (eq k id)) [
  | inl e ↦ rw e (IsRoster-remove m id h)
  | inr e ↦
      rw (e, IsRoster)
        (own, named, lookup-remove_other m id k (eq_sym k id e) ∙ once, IsRoster-remove m id h)
]

pub users-save : (s : AccessStore) (writable : Bool) → (save s writable).0.users ≡ s.users
unfolding save
users-save s writable = elim (Bool-cases (eq s.path [])) [
  | inl e ↦ rw e refl
  | inr e ↦ elim (Option-cases (s.json.marshal (list_users s))) [
    | inl bad ↦ rw (e, bad) refl
    | inr (text, good) ↦ elim (Bool-cases writable) [
      | inl e1 ↦ rw (e, good) (rw e1 refl)
      | inr e1 ↦ rw (e, good) (rw e1 refl)
    ]
  ]
]

IsRoster-insert :
    (m : Map AccessUser) (u : AccessUser)
    → eq u.id [] ≡ false
    → IsRoster m
    → IsRoster (insert m u.id u)
unfolding IsRoster insert
IsRoster-insert m u named h = (refl, named, lookup-remove m u.id, IsRoster-remove m u.id h)

-- Creating a user under an id that is not empty and deleting one keep the store a roster, whether the
-- file can be written or not.
pub create_user-IsRoster :
    (s : AccessStore) (writable : Bool) (now : ℕ) (label id token : Bytes) (expires : Option ℕ)
    (gone : Bytes)
    → IsRoster s.users
    → eq id [] ≡ false
    → IsRoster (create_user s writable now label expires (some id) (some token)).0.users
      × IsRoster (delete_user s writable gone).0.users
unfolding create_user delete_user
create_user-IsRoster s writable now label id token expires gone h named = (
  subst IsRoster (sym (users-save (record s { users = insert s.users id u }) writable))
      (IsRoster-insert s.users u named h),
  subst IsRoster (sym (users-save (record s { users = remove s.users gone }) writable))
      (IsRoster-remove s.users gone h),
)
  where
    u : AccessUser
    u = record { id = id; label = label; token = token; created = now; expires = expires }
