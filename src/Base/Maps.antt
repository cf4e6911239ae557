-- ===== src/Base/Maps.antt =====
-- Hash maps as association lists with one entry for a key, and hash sets as lists, over keys with
-- a Boolean equality. Nothing that the models prove depends on the order of the entries.
use Prim.Native.Nat.{ℕ}
use mathlib.Core.Path.{◌≡◌, refl, ◌∙◌}
use mathlib.Core.Logic.{◌↔◌, inl, inr}
use mathlib.Core.Bool.{Bool, true, false, ◌&&◌, ◌||◌}
use mathlib.Core.Option.{Option, none, some}
use mathlib.Core.List.{List, [], ◌∷◌}
use native.Mathlib.Omega.{arith}
use icedb.Base.Tests.{Bool-cases, ◌==◌, ==_iff, if◌then◌else◌}

pub record Key {ℓ} (A : Type ℓ) : Type ℓ where
  pub same : A → A → Bool
  pub same_iff : (a b : A) → (same a b ≡ true) ↔ (a ≡ b)

abbrev nat_same : ℕ → ℕ → Bool
nat_same a b = a == b

instance abbrev pub nat_key : Key ℕ
nat_key = record { same = nat_same; same_iff = ==_iff }

abbrev pair_same : ℕ × ℕ → ℕ × ℕ → Bool
pair_same p q = (p.0 == q.0) && (p.1 == q.1)

pub pair_same_iff : (p q : ℕ × ℕ) → (pair_same p q ≡ true) ↔ (p ≡ q)
pair_same_iff (a, b) (c, d) = (λ h. ground arith, λ e. ground (arith, e))

instance abbrev pub pair_key : Key (ℕ × ℕ)
pair_key = record { same = pair_same; same_iff = pair_same_iff }

abbrev pub Map {ℓ κ} : Type ℓ → Type κ → Type (ℓ ⊔ κ)
Map K V = List (K × V)

module _ {ℓ κ} {K : Type ℓ} {V : Type κ} where
  unfoldable pub keys : Map K V → List K
  keys [] = []
  keys ((j, v) ∷ m) = j ∷ keys m

module _ {ℓ κ} {K : Type ℓ} {V : Type κ} ⦃e : Key K⦄ where
  unfoldable pub lookup : K → Map K V → Option V
  lookup k [] = none
  lookup k ((j, v) ∷ m) = if e.same j k then some v else lookup k m

  unfoldable pub erase : K → Map K V → Map K V
  erase k [] = []
  erase k ((j, v) ∷ m) = let rest = erase k m in if e.same j k then rest else (j, v) ∷ rest

  unfoldable pub insert : K → V → Map K V → Map K V
  insert k v m = (k, v) ∷ erase k m

module _ {ℓ κ} {K : Type ℓ} {V : Type κ} ⦃e : Key K⦄ where
  pub lookup-erase :
      (k j : K) (m : Map K V) → lookup j (erase k m) ≡ (if e.same k j then none else lookup j m)
  unfolding lookup erase
  lookup-erase k j [] = ground arith
  lookup-erase k j ((i, v) ∷ m) =
      ground (arith, lookup-erase k j m, e.same_iff i k, e.same_iff i j, e.same_iff k j)

  pub lookup-insert :
      (k j : K) (v : V) (m : Map K V)
      → lookup j (insert k v m) ≡ (if e.same k j then some v else lookup j m)
  unfolding lookup insert
  lookup-insert k j v m = ground (arith, lookup-erase k j m)

module _ {ℓ} {A : Type ℓ} ⦃e : Key A⦄ where
  unfoldable pub contains : List A → A → Bool
  contains [] a = false
  contains (x ∷ xs) a = e.same x a || contains xs a

  -- `HashSet::remove`
  unfoldable pub discard : A → List A → List A
  discard a [] = []
  discard a (x ∷ xs) = let rest = discard a xs in if e.same x a then rest else x ∷ rest

-- One entry at most for a key.
module _ {ℓ κ} {K : Type ℓ} {V : Type κ} ⦃e : Key K⦄ where
  abbrev pub IsUnique : Map K V → Type (ℓ ⊔ κ)
  IsUnique [] = Unit
  IsUnique ((k, v) ∷ m) = (lookup k m ≡ none) × IsUnique m

  pub erase-IsUnique : (k : K) (m : Map K V) → IsUnique m → IsUnique (erase k m)
  unfolding erase
  erase-IsUnique k [] u = tt
  erase-IsUnique k ((j, v) ∷ m) u = elim (Bool-cases (e.same j k)) [
    | inl hit ↦ rw hit (erase-IsUnique k m u.1)
    | inr miss ↦ rw miss (lookup-erase k j m ∙ absent, erase-IsUnique k m u.1)
  ]
    where
      absent : (if e.same k j then none else lookup j m) ≡ none
      absent = ground (arith, u)

  pub insert-IsUnique : (k : K) (v : V) (m : Map K V) → IsUnique m → IsUnique (insert k v m)
  unfolding insert
  insert-IsUnique k v m u =
      (lookup-erase k k m ∙ rw ((e.same_iff k k).1 refl), erase-IsUnique k m u)

module _ {ℓ κ} {K : Type ℓ} {V : Type κ} ⦃e : Key K⦄ where
  -- A key is listed exactly when it has an entry.
  pub contains-keys-none : (k : K) (m : Map K V) → lookup k m ≡ none → contains (keys m) k ≡ false
  unfolding lookup keys contains
  contains-keys-none k [] h = refl
  contains-keys-none k ((j, v) ∷ m) h = ground (arith, contains-keys-none k m)

  pub contains-keys-some :
      (k : K) (v : V) (m : Map K V) → lookup k m ≡ some v → contains (keys m) k ≡ true
  unfolding lookup keys contains
  contains-keys-some k v [] h = absurd (ground arith)
  contains-keys-some k v ((j, w) ∷ m) h = ground (arith, contains-keys-some k v m)
