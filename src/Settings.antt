-- ===== src/Settings.antt =====
-- server/internal/settings/settings.go: the runtime settings. A map of booleans holds the modules; the
-- lock is not modelled, since each operation holds it from its start to its end.
pub mod Laws
mod Examples
use bumshi.Common.{
  Bool, true, false, Option, none, some, List, [], ◌∷◌, Bytes, codes, if◌then◌else◌,
}
use bumshi.Strings.{contains, eq}
use bumshi.Maps.{Map, lookup, insert}

abbrev pub generic : Bytes
generic = codes "generic"

abbrev pub known_modules : List Bytes
known_modules = generic ∷ codes "youtube" ∷ codes "telegram" ∷ []

-- `Snapshot`
pub record Snapshot : Type 0 where
  pub proxy_enabled : Bool
  pub access_log : Bool
  pub modules : Map Bool

-- The fields of `Settings`, and the snapshot that was last handed to `save`; `none` before the first.
pub record Settings : Type 0 where
  pub proxy_enabled : Bool
  pub access_log : Bool
  pub modules : Map Bool
  pub path : Bytes
  pub saved : Option Snapshot

-- `s.Snapshot()`
abbrev pub snapshot : Settings → Snapshot
snapshot s = record {
  proxy_enabled = s.proxy_enabled;
  access_log = s.access_log;
  modules = s.modules;
}

-- `save`: nothing without a path. Failures to write are logged and change no setting.
unfoldable pub save : Settings → Settings
unfolding eq
save s = if eq s.path [] then s else record s { saved = some (snapshot s) }

all_off : List Bytes → Map Bool
unfolding insert
all_off [] = []
all_off (m ∷ ms) = insert (all_off ms) m false

-- `New`
unfoldable pub new_settings : Bool → Bool → Settings
unfolding all_off insert
new_settings proxy_enabled access_log = record {
  proxy_enabled = proxy_enabled;
  access_log = access_log;
  modules = insert (all_off known_modules) generic proxy_enabled;
  path = [];
  saved = none;
}

-- `SetProxyEnabled`
unfoldable pub set_proxy_enabled : Settings → Bool → Settings
unfolding save insert
set_proxy_enabled s v = save (record s { proxy_enabled = v; modules = insert s.modules generic v })

-- `SetAccessLog`
unfoldable pub set_access_log : Settings → Bool → Settings
unfolding save
set_access_log s v = save (record s { access_log = v })

-- `Validate`
unfoldable pub is_valid : Map Bool → Bool
unfolding contains
is_valid [] = true
is_valid ((name, v) ∷ modules) = if contains known_modules name then is_valid modules else false

-- The loop of `Apply` over the known modules.
unfoldable pub take_over : List Bytes → Map Bool → Map Bool → Map Bool
unfolding lookup insert
take_over [] given modules = modules
take_over (m ∷ ms) given modules =
    take_over ms given (elim (lookup given m) [ none ↦ modules | some v ↦ insert modules m v ])

-- `Apply`
unfoldable pub apply : Settings → Snapshot → Settings
unfolding take_over save insert
apply s snap = save (record s {
  proxy_enabled = snap.proxy_enabled;
  access_log = snap.access_log;
  modules = take_over known_modules snap.modules (insert s.modules generic snap.proxy_enabled);
})
