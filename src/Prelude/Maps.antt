-- ===== src/Prelude/Maps.antt =====
-- Maps from texts, as functions.
use mathlib.Core.Option.{Option, some}
use ticket_c2c_platform.Prelude.Tests.{if◌then◌else◌}
use ticket_c2c_platform.Prelude.Texts.{Text, ◌=t◌}

abbrev pub Map {ℓ} : Type ℓ → Type ℓ
Map V = Text → Option V

abbrev pub put {ℓ} : {V : Type ℓ} → Text → V → Map V → Map V
put k v m j = if k =t j then some v else m j
