-- ===== src/Prelude/Eq.antt =====
-- Types with a decided equality (Go's `==`), and maps as functions on their keys.
use Prim.Native.Nat.{ℕ}
use Prim.Native.String.{String}
use mathlib.Core.Path.{◌≡◌}
use mathlib.Core.Logic.{◌≢◌, ◌↔◌, inl, inr}
use mathlib.Core.Bool.{Bool, true, false}
use mathlib.Core.Option.{Option}
use text.Mathlib.Text.{◌==◌ as str_eq}
use text.Mathlib.TextEquality.{eq_iff}
use helboot.Prelude.Tests.{Bool-cases, nat_eq, nat_eq_iff, if◌then◌else◌}

pub record Comparable {κ} (K : Type κ) : Type κ where
  pub equals : K → K → Bool
  pub equals_iff : (x y : K) → (equals x y ≡ true) ↔ (x ≡ y)

instance abbrev pub String_eq : Comparable String
String_eq = record { equals = str_eq; equals_iff = eq_iff }

instance abbrev pub ℕ_eq : Comparable ℕ
ℕ_eq = record { equals = nat_eq; equals_iff = nat_eq_iff }

-- Go's `==` on a type whose values it compares.
infix 50 ◌==◌
abbrev pub ◌==◌ {κ} : {K : Type κ} ⦃cmp : Comparable K⦄ → K → K → Bool
◌==◌ ⦃cmp⦄ x y = cmp.equals x y

pub eq-false {κ} : {K : Type κ} ⦃cmp : Comparable K⦄ (x y : K) → x ≢ y → (x == y) ≡ false
eq-false ⦃cmp⦄ x y h = elim (Bool-cases (cmp.equals x y)) [
  | inl e ↦ absurd (h ((cmp.equals_iff x y).0 e))
  | inr e ↦ e
]

pub ne_of_eq-false {κ} : {K : Type κ} ⦃cmp : Comparable K⦄ (x y : K) → (x == y) ≡ false → x ≢ y
ne_of_eq-false ⦃cmp⦄ x y h e = let same = (cmp.equals_iff x y).1 e in cc

-- Go's `map[K]V`, where only lookups, writes and deletes of a key are made.
abbrev pub Map {ℓ κ} : Type ℓ → Type κ → Type (ℓ ⊔ κ)
Map K V = K → Option V

-- m[k] = v for `some v`, delete(m, k) for `none`.
abbrev pub update {ℓ κ} :
    {K : Type ℓ} {V : Type κ} ⦃e : Comparable K⦄ → Map K V → K → Option V → Map K V
update m k v j = if k == j then v else m j
