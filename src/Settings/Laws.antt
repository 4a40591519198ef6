-- ===== src/Settings/Laws.antt =====
-- server/internal/settings/settings.go: what the operations leave of the settings.
use bumshi.Common.{
  Bool, true, false, not, ◌||◌, Option, none, some, List, [], ◌∷◌, ◌≡◌, inl, inr, refl, sym, ap,
  ◌∙◌, arith, Bytes, Bool-cases, if◌then◌else◌,
}
use bumshi.Strings.{contains, eq}
use bumshi.Strings.Laws.{eq_iff}
use bumshi.Maps.{Map, lookup, insert}
use bumshi.Maps.Laws.{lookup-insert, lookup-insert_other}
use bumshi.Settings.{
  generic, known_modules, Snapshot, Settings, save, set_proxy_enabled, take_over, apply,
}

-- What a module is set to by a snapshot, if it was `before`.
abbrev pub given_or : Option Bool → Option Bool → Option Bool
given_or none before = before
given_or (some v) before = some v

given_or_twice : (g b : Option Bool) → given_or g (given_or g b) ≡ given_or g b
given_or_twice none b = refl
given_or_twice (some v) b = refl

-- What one round of the loop leaves under a name.
lookup-round :
    (m : Bytes) (given modules : Map Bool) (name : Bytes)
    → lookup (elim (lookup given m) [ none ↦ modules | some v ↦ insert modules m v ]) name ≡ (
        if eq m name
        then given_or (lookup given name) (lookup modules name)
        else lookup modules name)
lookup-round m given modules name = elim (Bool-cases (eq m name)) [
  | inl e ↦
      own (lookup given m) ((eq_iff m name).0 e)
      ∙ ap (λ k. given_or (lookup given k) (lookup modules name)) ((eq_iff m name).0 e)
      ∙ sym (
          ap
            (λ b.
              if b then given_or (lookup given name) (lookup modules name) else lookup modules name)
            e)
  | inr e ↦
      other (lookup given m) e
      ∙ sym (
          ap
            (λ b.
              if b then given_or (lookup given name) (lookup modules name) else lookup modules name)
            e)
]
  where
    own :
        (o : Option Bool)
        → m ≡ name
        → lookup (elim o [ none ↦ modules | some v ↦ insert modules m v ]) name
          ≡ given_or o (lookup modules name)
    own none e = refl
    own (some v) e = ap (lookup (insert modules m v)) (sym e) ∙ lookup-insert modules m v

    other :
        (o : Option Bool)
        → eq m name ≡ false
        → lookup (elim o [ none ↦ modules | some v ↦ insert modules m v ]) name
          ≡ lookup modules name
    other none e = refl
    other (some v) e = lookup-insert_other modules m v name e

lookup-take_over :
    (ms : List Bytes) (given modules : Map Bool) (name : Bytes)
    → lookup (take_over ms given modules) name ≡ (
        if contains ms name
        then given_or (lookup given name) (lookup modules name)
        else lookup modules name)
unfolding take_over contains
lookup-take_over [] given modules name = refl
lookup-take_over (m ∷ ms) given modules name =
    lookup-take_over ms given
      (elim (lookup given m) [ none ↦ modules | some v ↦ insert modules m v ]) name
    ∙ ap (λ o. if contains ms name then given_or (lookup given name) o else o)
        (lookup-round m given modules name)
    ∙ joined (contains ms name) (eq m name)
  where
    joined :
        (c e : Bool)
        → (if c
            then given_or (lookup given name) (
                if e
                then given_or (lookup given name) (lookup modules name)
                else lookup modules name)
            else (if e
                then given_or (lookup given name) (lookup modules name)
                else lookup modules name))
          ≡ (if e || c
              then given_or (lookup given name) (lookup modules name)
              else lookup modules name)
    joined true true = given_or_twice (lookup given name) (lookup modules name)
    joined true false = refl
    joined false true = refl
    joined false false = refl

modules-save : (s : Settings) → (save s).modules ≡ s.modules
unfolding save
modules-save s = elim (Bool-cases (eq s.path [])) [
  | inl e ↦ rw (e, save) refl
  | inr e ↦ rw (e, save) refl
]

-- `Apply` sets a known module to what the snapshot says of it. A known module of which it says nothing
-- keeps its setting, but "generic", which gets the snapshot's switch. Unknown modules are ignored.
pub lookup-apply :
    (s : Settings) (snap : Snapshot) (name : Bytes)
    → lookup (apply s snap).modules name ≡ (
        if contains known_modules name
        then given_or
            (lookup snap.modules name)
            (if eq generic name then some snap.proxy_enabled else lookup s.modules name)
        else lookup s.modules name)
unfolding apply
lookup-apply s snap name =
    ap (λ m. lookup m name) (modules-save _)
    ∙ lookup-take_over known_modules snap.modules (insert s.modules generic snap.proxy_enabled) name
    ∙ elim (Bool-cases (eq generic name)) [
      | inl e ↦ at_generic ((eq_iff generic name).0 e) e
      | inr e ↦
          ap (λ o. if contains known_modules name then given_or (lookup snap.modules name) o else o)
            (lookup-insert_other s.modules generic snap.proxy_enabled name e)
          ∙ sym (
              ap
                (λ b.
                  if contains known_modules name
                  then given_or (lookup snap.modules name)
                      (if b then some snap.proxy_enabled else lookup s.modules name)
                  else lookup s.modules name)
                e)
    ]
  where
    at_generic :
        generic ≡ name
        → eq generic name ≡ true
        → (if contains known_modules name
            then given_or
                (lookup snap.modules name)
                (lookup (insert s.modules generic snap.proxy_enabled) name)
            else lookup (insert s.modules generic snap.proxy_enabled) name)
          ≡ (if contains known_modules name
              then given_or
                  (lookup snap.modules name)
                  (if eq generic name then some snap.proxy_enabled else lookup s.modules name)
              else lookup s.modules name)
    at_generic same e =
        let known : contains known_modules name ≡ true = unfold contains in ground (arith, e) in
        rw (known, e) refl

unfoldable pub agrees : Bool → Bool → Bool
agrees v w = if v then w else not w

-- Whether the module "generic" is set like the switch.
unfoldable pub tracks : Settings → Bool
unfolding agrees
tracks s = elim (lookup s.modules generic) [ none ↦ false | some v ↦ agrees v s.proxy_enabled ]

proxy_enabled-save : (s : Settings) → (save s).proxy_enabled ≡ s.proxy_enabled
unfolding save
proxy_enabled-save s = elim (Bool-cases (eq s.path [])) [
  | inl e ↦ rw (e, save) refl
  | inr e ↦ rw (e, save) refl
]

tracks_of :
    (s : Settings) (o : Option Bool) (w : Bool)
    → lookup s.modules generic ≡ o
    → s.proxy_enabled ≡ w
    → tracks s ≡ (elim o [ none ↦ false | some v ↦ agrees v w ])
unfolding tracks
tracks_of s o w e e' =
    ap (λ o'. elim o' [ none ↦ false | some v ↦ agrees v s.proxy_enabled ]) e
    ∙ ap (λ w'. elim o [ none ↦ false | some v ↦ agrees v w' ]) e'

agrees_self : (v : Bool) → agrees v v ≡ true
unfolding agrees
agrees_self true = refl
agrees_self false = refl

-- The module "generic" tracks the switch after `SetProxyEnabled`.
pub tracks-set_proxy_enabled : (s : Settings) (v : Bool) → tracks (set_proxy_enabled s v) ≡ true
unfolding set_proxy_enabled
tracks-set_proxy_enabled s v =
    tracks_of (set_proxy_enabled s v) (some v) v
      (ap (λ m. lookup m generic) (modules-save _) ∙ lookup-insert s.modules generic v)
      (proxy_enabled-save _)
    ∙ agrees_self v

-- After `Apply` the module "generic" tracks the switch exactly when the snapshot has no entry for it, or
-- one that is equal to the snapshot's switch.
pub tracks-apply :
    (s : Settings) (snap : Snapshot)
    → tracks (apply s snap)
      ≡ (elim (lookup snap.modules generic) [ none ↦ true | some v ↦ agrees v snap.proxy_enabled ])
unfolding apply eq contains
tracks-apply s snap =
    tracks_of (apply s snap) (given_or (lookup snap.modules generic) (some snap.proxy_enabled))
      snap.proxy_enabled (lookup-apply s snap generic) (proxy_enabled-save _)
    ∙ on_given (lookup snap.modules generic)
  where
    on_given :
        (o : Option Bool)
        → (elim (given_or o (some snap.proxy_enabled)) [
          | none ↦ false
          | some v ↦ agrees v snap.proxy_enabled
        ])
          ≡ (elim o [ none ↦ true | some v ↦ agrees v snap.proxy_enabled ])
    on_given none = agrees_self snap.proxy_enabled
    on_given (some v) = refl
