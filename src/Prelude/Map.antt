-- ===== src/Prelude/Map.antt =====
-- `HashMap` as an association list: one entry to a key, in no order that a client can see.
use Prim.Native.Nat.{◌+◌, ◌≤◌}
use mathlib.Core.Path.{◌≡◌, subst}
use mathlib.Core.Logic.{inl, inr}
use mathlib.Core.Bool.{Bool, true}
use mathlib.Core.Option.{Option, none, some}
use mathlib.Core.List.{List, [], ◌∷◌}
use native.Mathlib.Omega.{arith}
use vaultr.Prelude.Tests.{Eq, if◌then◌else◌, Bool-cases}
use vaultr.Prelude.Lists.{length, filter, All}

module _ {ℓ κ} {K : Type ℓ} {V : Type κ} where
  abbrev pub retain : (K → V → Bool) → List (K × V) → List (K × V)
  retain p = filter λ e. p e.0 e.1

module _ {ℓ κ} {K : Type ℓ} ⦃e : Eq K⦄ {V : Type κ} where
  unfoldable pub get : K → List (K × V) → Option V
  get k [] = none
  get k ((j, v) ∷ m) = if e.beq j k then some v else get k m

  unfoldable pub remove : K → List (K × V) → List (K × V)
  remove k [] = []
  remove k ((j, v) ∷ m) = let rest = remove k m in if e.beq j k then rest else (j, v) ∷ rest

  unfoldable pub insert : K → V → List (K × V) → List (K × V)
  unfolding remove
  insert k v m = (k, v) ∷ remove k m

  pub get-remove :
      (k j : K) (m : List (K × V)) → get j (remove k m) ≡ (if e.beq k j then none else get j m)
  unfolding get remove
  get-remove k j [] = ground arith
  get-remove k j ((i, v) ∷ m) =
      ground (arith, get-remove k j m, e.beq_iff i k, e.beq_iff i j, e.beq_iff k j)

  pub get-insert :
      (k j : K) (v : V) (m : List (K × V))
      → get j (insert k v m) ≡ (if e.beq k j then some v else get j m)
  unfolding get insert
  get-insert k j v m = ground (arith, get-remove k j m)

  pub length-remove-le : (k : K) (m : List (K × V)) → length (remove k m) ≤ length m
  unfolding remove
  length-remove-le k [] = omega arith
  length-remove-le k ((i, v) ∷ m) = ground (arith, length-remove-le k m)

  pub length-insert-le : (k : K) (v : V) (m : List (K × V)) → length (insert k v m) ≤ length m + 1
  unfolding insert
  length-insert-le k v m = omega (arith, length-remove-le k m)

  -- What holds of every entry holds of the one that is looked up, and after a removal.
  pub All-get {μ} :
      (P : K × V → Type μ) (k : K) (v : V) (m : List (K × V))
      → All P m
      → get k m ≡ some v
      → P (k, v)
  unfolding get
  All-get P k v [] h g = ground arith
  All-get P k v ((j, w) ∷ m) h g = elim (Bool-cases (e.beq j k)) [
    | inl hit ↦ subst P (entry hit (rw (hit, get) at g)) h.0
    | inr miss ↦ All-get P k v m h.1 (rw (miss, get) at g)
  ]
    where
      entry : e.beq j k ≡ true → some w ≡ some v → ◌≡◌ {A = K × V} (j, w) (k, v)
      entry hit s = ground (arith, e.beq_iff j k)

  pub All-remove {μ} :
      (P : K × V → Type μ) (k : K) (m : List (K × V)) → All P m → All P (remove k m)
  unfolding remove
  All-remove P k [] h = tt
  All-remove P k ((j, w) ∷ m) h = elim (Bool-cases (e.beq j k)) [
    | inl hit ↦ rw (hit, remove) (All-remove P k m h.1)
    | inr miss ↦ rw (miss, remove) (h.0, All-remove P k m h.1)
  ]

module _ {ℓ κ μ} {K : Type ℓ} {V : Type κ} where
  pub All-retain :
      (P : K × V → Type μ) (p : K → V → Bool) (m : List (K × V)) → All P m → All P (retain p m)
  All-retain P p [] h = tt
  All-retain P p ((j, w) ∷ m) h = elim (Bool-cases (p j w)) [
    | inl kept ↦ rw kept (h.0, All-retain P p m h.1)
    | inr dropped ↦ rw dropped (All-retain P p m h.1)
  ]
