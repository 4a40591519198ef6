-- ===== src/Access.antt =====
-- server/internal/admin/accessusers.go: the roster of access users. A time is a number; the clock, the random
-- texts and whether the file can be written are arguments. encoding/json is a parameter, which the store
-- carries.
pub mod Persist
pub mod Tokens
mod Examples
use bumshi.Common.{
  ℕ, ◌+◌, Bool, true, false, not, ◌&&◌, ◌||◌, Option, none, some, List, [], ◌∷◌, Bytes, ltb,
  if◌then◌else◌,
}
use bumshi.Strings.{eq}
use bumshi.Maps.{Map, lookup, insert, remove}

pub record AccessUser : Type 0 where
  pub id : Bytes
  pub label : Bytes
  pub token : Bytes
  pub created : ℕ
  pub expires : Option ℕ

-- `Expired`
unfoldable pub is_expired : ℕ → AccessUser → Bool
is_expired now u = elim u.expires [ none ↦ false | some t ↦ ltb t now ]

-- What the roster's file is found to be.
pub data File : Type 0 where
  missing unreadable : File
  roster : Bytes → File

-- json.MarshalIndent and json.Unmarshal for a list of users; `none` is their error.
pub record Json : Type 0 where
  pub marshal : List AccessUser → Option Bytes
  pub unmarshal : Bytes → Option (List AccessUser)

pub record AccessStore : Type 0 where
  pub users : Map AccessUser
  pub path : Bytes
  pub file : File
  pub json : Json

-- The loop of `load`: users without an id are left out.
unfoldable pub load_users : Map AccessUser → List AccessUser → Map AccessUser
unfolding eq insert
load_users m [] = m
load_users m (u ∷ us) = load_users (if eq u.id [] then m else insert m u.id u) us

-- `load`; `none` is its error.
unfoldable pub load : AccessStore → Option AccessStore
unfolding load_users eq
load s = elim s.file [
  | missing ↦ some s
  | unreadable ↦ none
  | roster text ↦ if eq text [] then some s else elim (s.json.unmarshal text) [
    | none ↦ none
    | some us ↦ some (record s { users = load_users s.users us })
  ]
]

-- `NewAccessStore`
unfoldable pub new_access_store : Json → Bytes → File → Option AccessStore
unfolding eq load
new_access_store json path file =
    let s : AccessStore = record { users = []; path = path; file = file; json = json } in
    if eq path [] then some s else load s

-- `sort.Slice` by creation, the oldest first
unfoldable pub insert_user : AccessUser → List AccessUser → List AccessUser
insert_user u [] = u ∷ []
insert_user u (v ∷ us) =
    let later = insert_user u us in if ltb v.created u.created then v ∷ later else u ∷ v ∷ us

unfoldable pub sort_users : List AccessUser → List AccessUser
unfolding insert_user
sort_users [] = []
sort_users (u ∷ us) = insert_user u (sort_users us)

unfoldable pub users_of : Map AccessUser → List AccessUser
users_of [] = []
users_of ((id, u) ∷ m) = u ∷ users_of m

-- `List`
unfoldable pub list_users : AccessStore → List AccessUser
unfolding sort_users users_of
list_users s = sort_users (users_of s.users)

-- `save`, and whether it went well. The file is replaced by a rename, so it is the old one or the new one.
unfoldable pub save : AccessStore → Bool → AccessStore × Bool
unfolding eq list_users
save s writable = if eq s.path [] then (s, true) else elim (s.json.marshal (list_users s)) [
  | none ↦ (s, false)
  | some text ↦ if writable then (record s { file = roster text }, true) else (s, false)
]

abbrev pub no_user : AccessUser
no_user = record { id = []; label = []; token = []; created = 0; expires = none }

-- `Create`, with the two results of `randomHex`; the Boolean tells that there is no error.
unfoldable pub create_user :
    AccessStore
    → Bool
    → ℕ
    → Bytes
    → Option ℕ
    → Option Bytes
    → Option Bytes
    → AccessStore × AccessUser × Bool
unfolding save insert
create_user s writable now label expires none token = (s, no_user, false)
create_user s writable now label expires (some id) none = (s, no_user, false)
create_user s writable now label expires (some id) (some token) =
    let u : AccessUser = record {
      id = id;
      label = label;
      token = token;
      created = now;
      expires = expires;
    } in
    let saved : AccessStore × Bool = save (record s { users = insert s.users id u }) writable in
    (saved.0, u, saved.1)

-- `Delete`
unfoldable pub delete_user : AccessStore → Bool → Bytes → AccessStore × Bool
unfolding save remove
delete_user s writable id = save (record s { users = remove s.users id }) writable

-- The loop of `Authorized`: the user that matched last.
unfoldable pub match_token : Bytes → Option AccessUser → Map AccessUser → Option AccessUser
unfolding eq
match_token token matched [] = matched
match_token token matched ((id, u) ∷ m) =
    match_token token (if eq u.token token then some u else matched) m

unfoldable pub is_authorized : AccessStore → ℕ → Bytes → Bool
unfolding eq match_token is_expired
is_authorized s now token =
    if eq token []
    then false
    else elim (match_token token none s.users) [ none ↦ false | some u ↦ not (is_expired now u) ]
