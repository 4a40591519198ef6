-- ===== src/Access/Examples.antt =====
-- The theorems on the roster at a concrete roster.
use bumshi.Common.{
  ℕ, Bool, true, Option, none, some, List, [], ◌∷◌, map, ◌≡◌, refl, sym, ap, ◌∙◌, arith, Bytes,
  codes, All, ◌==◌, if◌then◌else◌,
}
use bumshi.Strings.{eq}
use bumshi.Strings.Laws.{eq_iff}
use bumshi.Maps.{lookup}
use bumshi.Access.{
  AccessUser, AccessStore, File, Json, new_access_store, users_of, save, is_authorized,
}
use bumshi.Access.Persist.{IsRoster, IsWritable, IsJson, reloaded, reloaded-save}

-- The one text, and the one time, that are written here.
abbrev is_a : Bytes → Bool
is_a t = eq t (codes "a")

abbrev is_five : ℕ → Bool
is_five t = t == 5

abbrev anna : Option ℕ → AccessUser
anna expires = record {
  id = codes "a";
  label = codes "a";
  token = codes "a";
  created = 5;
  expires = expires;
}

-- One byte for each user, which tells whether access expires.
abbrev written : Option ℕ → ℕ
written none = 0
written (some t) = 1

abbrev read : ℕ → AccessUser
read c = anna (if c == 0 then none else some 5)

abbrev read_list : Bytes → Option (List AccessUser)
read_list [] = none
read_list (c ∷ t) = some (map read t)

abbrev tiny_json : Json
tiny_json = record {
  marshal = λ us. some (b'[' ∷ map (λ u. written u.expires) us);
  unmarshal = read_list;
}

read_times :
    (created : ℕ) (expires : Option ℕ)
    → created ≡ 5
    → elim expires [ none ↦ true | some t ↦ is_five t ] ≡ true
    → (if written expires == 0 then none else some 5) ≡ expires
read_times created none h e = refl
read_times created (some t) h e = let five : 5 ≡ t = ground (arith, e) in ap some five

read-written : (u : AccessUser) → IsWritable is_a is_five u → read (written u.expires) ≡ u
unfolding IsWritable
read-written u (texts, times) =
    let id : is_a u.id ≡ true = ground (arith, texts) in
    let label : is_a u.label ≡ true = ground (arith, texts) in
    let token : is_a u.token ≡ true = ground (arith, texts) in
    let created : is_five u.created ≡ true = ground (arith, texts) in
    let five : 5 ≡ u.created = ground (arith, created) in
    same_user u.id u.label u.token u.created u.expires (sym ((eq_iff _ _).0 id))
      (sym ((eq_iff _ _).0 label)) (sym ((eq_iff _ _).0 token)) five
      (read_times u.created u.expires (sym five) times)
  where
    same_user :
        (id label token : Bytes) (created : ℕ) (expires : Option ℕ)
        → codes "a" ≡ id
        → codes "a" ≡ label
        → codes "a" ≡ token
        → 5 ≡ created
        → (if written u.expires == 0 then none else some 5) ≡ expires
        → read (written u.expires)
          ≡ record { id = id; label = label; token = token; created = created; expires = expires }
    same_user id label token created expires e1 e2 e3 e4 e5 = cc

tiny_json-IsJson : IsJson is_a is_five tiny_json
tiny_json-IsJson us h = (_, refl, (unfold eq in refl), ap some (all_read us h))
  where
    all_read :
        (us : List AccessUser)
        → All (IsWritable is_a is_five) us
        → map read (map (λ u. written u.expires) us) ≡ us
    all_read [] h = refl
    all_read (u ∷ us) (hu, h) =
        ap (λ v. v ∷ map read (map (λ u. written u.expires) us)) (read-written u hu)
        ∙ ap (λ vs. u ∷ vs) (all_read us h)

abbrev store : AccessStore
store = record {
  users = (codes "a", anna none) ∷ [];
  path = codes "users.json";
  file = File.missing;
  json = tiny_json;
}

store-IsRoster : IsRoster store.users
unfolding IsRoster
store-IsRoster = (refl, refl, refl, tt)

let_in : is_authorized store 7 (codes "a") ≡ true
unfolding is_authorized
let_in = refl

reloaded-save_example :
    reloaded (new_access_store tiny_json store.path (save store true).0.file) (codes "a")
    ≡ lookup store.users (codes "a")
reloaded-save_example =
    reloaded-save is_a is_five store (codes "a") tiny_json-IsJson (unfold users_of in (texts, tt))
      store-IsRoster (unfold eq in refl)
  where
    texts : IsWritable is_a is_five (anna none)
    texts = unfold IsWritable in unfold eq in (refl, refl)
