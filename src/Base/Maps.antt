-- ===== src/Base/Maps.antt =====
-- A finite map with text keys, as the function that looks a key up.
use Prim.Native.String.{String}
use mathlib.Core.Path.{◌≡◌}
use mathlib.Core.Logic.{◌≢◌}
use mathlib.Core.Option.{Option, none, some}
use native.Mathlib.Omega.{arith}
use text.Mathlib.Text.{◌==◌ as str_eq}
use text.Mathlib.TextEquality.{eq_iff}
use text.Mathlib.TextPositions.{eq_refl}
use agent_supervisor_runtime.Base.Tests.{if◌then◌else◌}

abbrev pub Map {ℓ} : Type ℓ → Type ℓ
Map V = String → Option V

abbrev pub no_entries {ℓ} : {V : Type ℓ} → Map V
no_entries k = none

abbrev pub insert {ℓ} : {V : Type ℓ} → String → V → Map V → Map V
insert k v m j = if str_eq k j then some v else m j

abbrev pub remove {ℓ} : {V : Type ℓ} → String → Map V → Map V
remove k m j = if str_eq k j then none else m j

pub insert_self {ℓ} : {V : Type ℓ} (k : String) (v : V) (m : Map V) → insert k v m k ≡ some v
insert_self k v m = ground (arith, eq_refl k)

pub insert_ne {ℓ} : {V : Type ℓ} (k j : String) (v : V) (m : Map V) → k ≢ j → insert k v m j ≡ m j
insert_ne k j v m h = ground (arith, eq_iff k j)
