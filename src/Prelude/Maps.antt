-- ===== src/Prelude/Maps.antt =====
-- A `HashMap` as an association list over keys with a Boolean equality; a key stands at most once
-- in effect, since `get` reads the first entry and `remove` deletes all of them.
use Prim.Native.Nat.{ℕ}
use mathlib.Core.Path.{◌≡◌, refl}
use mathlib.Core.Logic.{◌↔◌, inl, inr}
use mathlib.Core.Bool.{Bool, true}
use mathlib.Core.List.{List, [], ◌∷◌}
use mathlib.Core.Option.{Option, none, some}
use native.Mathlib.Omega.{arith}
use natforge_thesis.Prelude.Tests.{◌==◌, ==_iff, if◌then◌else◌, Bool-cases}
use natforge_thesis.Prelude.Text.{Bytes, beq, beq_iff}

pub record Eq {ℓ} (A : Type ℓ) : Type ℓ where
  pub same : A → A → Bool
  pub same_iff : (a b : A) → (same a b ≡ true) ↔ (a ≡ b)

instance abbrev pub nat_eq : Eq ℕ
nat_eq = record { same = ◌==◌; same_iff = ==_iff }

instance abbrev pub bytes_eq : Eq Bytes
bytes_eq = record { same = beq; same_iff = beq_iff }

abbrev pub Map {ℓ κ} : Type ℓ → Type κ → Type (ℓ ⊔ κ)
Map K V = List (K × V)

module _ {ℓ κ} {K : Type ℓ} {V : Type κ} ⦃e : Eq K⦄ where
  unfoldable pub get : K → Map K V → Option V
  get k [] = none
  get k ((j, v) ∷ m) = if e.same j k then some v else get k m

  unfoldable pub remove : K → Map K V → Map K V
  remove k [] = []
  remove k ((j, v) ∷ m) = let rest = remove k m in if e.same j k then rest else (j, v) ∷ rest

  unfoldable pub insert : K → V → Map K V → Map K V
  unfolding remove
  insert k v m = (k, v) ∷ remove k m

  pub get-nil : (k : K) → get k [] ≡ none
  unfolding get
  get-nil k = refl

  pub get-cons :
      (k j : K) (v : V) (m : Map K V)
      → get k ((j, v) ∷ m) ≡ (if e.same j k then some v else get k m)
  unfolding get
  get-cons k j v m = refl

  -- Removing a key hides it and no other.
  pub get-remove :
      (k j : K) (m : Map K V) → get j (remove k m) ≡ (if e.same k j then none else get j m)
  unfolding get remove
  get-remove k j [] = ground arith
  get-remove k j ((i, w) ∷ m) =
      ground (arith, e.same_iff k j, e.same_iff i k, e.same_iff i j, get-remove k j m)

  -- A stored key is read back, and every other key reads as before.
  pub get-insert :
      (k j : K) (v : V) (m : Map K V)
      → get j (insert k v m) ≡ (if e.same k j then some v else get j m)
  unfolding get insert
  get-insert k j v m = elim (Bool-cases (e.same k j)) [
    | inl h ↦ rw h
    | inr h ↦ ground (arith, get-remove k j m)
  ]
