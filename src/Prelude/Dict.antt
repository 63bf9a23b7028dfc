-- ===== src/Prelude/Dict.antt =====
-- Python's dictionaries with text keys, as association lists in the order of insertion.
use Prim.Native.String.{String}
use mathlib.Core.Option.{Option, none, some}
use mathlib.Core.List.{List, [], ◌∷◌}
use text.Mathlib.Text.{◌==◌ as str_eq}
use credit_iq_ai.Prelude.Tests.{if◌then◌else◌}

abbrev pub Dict {ℓ} : Type ℓ → Type ℓ
Dict A = List (String × A)

-- `d.get(key)`
abbrev pub get_key {ℓ} : {A : Type ℓ} → String → Dict A → Option A
get_key key [] = none
get_key key ((k, a) ∷ rest) = if str_eq k key then some a else get_key key rest

-- `d.get(key, default)`
abbrev pub get_or {ℓ} : {A : Type ℓ} → A → String → Dict A → A
get_or default key [] = default
get_or default key ((k, a) ∷ rest) = if str_eq k key then a else get_or default key rest

abbrev pub values {ℓ} : {A : Type ℓ} → Dict A → List A
values [] = []
values ((k, a) ∷ rest) = a ∷ values rest
