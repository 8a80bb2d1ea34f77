-- ===== src/Common/Dicts.antt =====
-- A Python dict as an association list. `insert` is `d[k] = v`, `erase` is `del d[k]` or
-- `d.pop(k, None)`, `get` is `d.get(k, default)`. The key test is a parameter.
use mathlib.Core.Path.{◌≡◌, refl}
use mathlib.Core.List.{List, [], ◌∷◌}
use mathlib.Core.Option.{Option, none, some}
use native.Mathlib.Omega.{arith}
use Prim.Native.Nat.{ℕ, ◌+◌}
use Prim.Native.String.{String}
use text.Mathlib.Text.{◌==◌ as str_eq}
use nano_vllm_online_serving.Common.Tests.{◌==◌, if◌then◌else◌}

abbrev pub Dict {ℓ} : Type ℓ → Type ℓ
Dict V = List (ℕ × V)

abbrev pub TextDict {ℓ} : Type ℓ → Type ℓ
TextDict V = List (String × V)

module _ {ℓ} {V : Type ℓ} where
  abbrev pub lookup : ℕ → Dict V → Option V
  lookup k [] = none
  lookup k ((j, v) ∷ d) = if j == k then some v else lookup k d

  abbrev pub insert : ℕ → V → Dict V → Dict V
  insert k v [] = (k, v) ∷ []
  insert k v ((j, w) ∷ d) = if j == k then (k, v) ∷ d else (j, w) ∷ insert k v d

  abbrev pub erase : ℕ → Dict V → Dict V
  erase k [] = []
  erase k ((j, w) ∷ d) = if j == k then erase k d else (j, w) ∷ erase k d

  pub lookup-insert :
      (k j : ℕ) (v : V) (d : Dict V)
      → lookup j (insert k v d) ≡ (if k == j then some v else lookup j d)
  lookup-insert k j v [] = refl
  lookup-insert k j v ((i, w) ∷ d) = ground (arith, lookup-insert k j v d)

  pub lookup-erase :
      (k j : ℕ) (d : Dict V) → lookup j (erase k d) ≡ (if k == j then none else lookup j d)
  lookup-erase k j [] = ground arith
  lookup-erase k j ((i, w) ∷ d) = ground (arith, lookup-erase k j d)

-- The same with text keys.
module _ {ℓ} {V : Type ℓ} where
  abbrev pub find : String → TextDict V → Option V
  find k [] = none
  find k ((j, v) ∷ d) = if str_eq j k then some v else find k d

  abbrev pub put : String → V → TextDict V → TextDict V
  put k v [] = (k, v) ∷ []
  put k v ((j, w) ∷ d) = if str_eq j k then (k, v) ∷ d else (j, w) ∷ put k v d

  abbrev pub pop : String → TextDict V → TextDict V
  pop k [] = []
  pop k ((j, w) ∷ d) = if str_eq j k then pop k d else (j, w) ∷ pop k d

-- `d.get(k, 0)`
abbrev pub get_or_zero : String → TextDict ℕ → ℕ
get_or_zero k d = elim (find k d) [ none ↦ 0 | some v ↦ v ]

-- `d[k] = d.get(k, 0) + v`
abbrev pub add_to : String → ℕ → TextDict ℕ → TextDict ℕ
add_to k v d = put k (get_or_zero k d + v) d

-- The sum of the values.
abbrev pub total : TextDict ℕ → ℕ
total [] = 0
total ((_, v) ∷ d) = v + total d

pub total-add_to : (k : String) (v : ℕ) (d : TextDict ℕ) → total (add_to k v d) ≡ total d + v
total-add_to k v [] = omega arith
total-add_to k v ((j, w) ∷ d) = ground (arith, total-add_to k v d)
