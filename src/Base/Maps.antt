-- ===== src/Base/Maps.antt =====
-- Go maps with text keys, as association lists.
use mathlib.Core.Path.{◌≡◌}
use mathlib.Core.Bool.{Bool, true, false}
use mathlib.Core.List.{List, [], ◌∷◌}
use mathlib.Core.Option.{Option, none, some}
use native.Mathlib.Omega.{arith}
use mkqd.Base.Strings.{Bytes, bytes_eq, bytes_eq_iff}
use mkqd.Base.Tests.{if◌then◌else◌}

module _ {V : Type 0} where
  unfoldable pub lookup : Bytes → List (Bytes × V) → Option V
  lookup key [] = none
  lookup key (entry ∷ rest) = if bytes_eq key entry.0 then some entry.1 else lookup key rest

  -- A write to a map.
  unfoldable pub insert : Bytes → V → List (Bytes × V) → List (Bytes × V)
  insert key new [] = (key, new) ∷ []
  insert key new (entry ∷ rest) =
      if bytes_eq key entry.0 then (key, new) ∷ rest else entry ∷ insert key new rest

  -- A write is read back, and touches no other key.
  pub lookup-insert :
      (written asked : Bytes) (new : V) (entries : List (Bytes × V))
      → lookup asked (insert written new entries)
        ≡ (if bytes_eq written asked then some new else lookup asked entries)
  unfolding lookup insert
  lookup-insert written asked new [] =
      ground (arith, bytes_eq_iff written asked, bytes_eq_iff asked written)
  lookup-insert written asked new (entry ∷ rest) = ground (
    arith,
    lookup-insert written asked new rest,
    bytes_eq_iff asked written,
    bytes_eq_iff written asked,
    bytes_eq_iff asked entry.0,
    bytes_eq_iff written entry.0,
  )

abbrev pub is_some {ℓ} : {A : Type ℓ} → Option A → Bool
is_some none = false
is_some (some a) = true
