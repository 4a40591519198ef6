-- ===== src/Settings/Examples.antt =====
-- The theorems on settings at a concrete snapshot.
use bumshi.Common.{true, false, none, some, [], ◌∷◌, ◌≡◌, codes}
use bumshi.Maps.{lookup}
use bumshi.Settings.{generic, Snapshot, new_settings, apply}
use bumshi.Settings.Laws.{agrees, tracks, tracks-apply}

abbrev given : Snapshot
given = record {
  proxy_enabled = true;
  access_log = false;
  modules = (generic, false) ∷ (codes "x", true) ∷ [];
}

tracks-apply_example :
    tracks (apply (new_settings true true) given)
    ≡ (elim (lookup given.modules generic) [ none ↦ true | some v ↦ agrees v true ])
tracks-apply_example = tracks-apply (new_settings true true) given
