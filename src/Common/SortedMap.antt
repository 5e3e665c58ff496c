-- ===== src/Common/SortedMap.antt =====
-- `BTreeMap<K, V>` with unsigned integers for keys: an association list with ascending keys.
use Prim.Native.Nat.{ℕ, suc, ◌≤◌}
use mathlib.Core.Path.{◌≡◌, refl}
use mathlib.Core.Option.{Option, none, some}
use mathlib.Core.List.{List, [], ◌∷◌}
use native.Mathlib.Omega.{arith}
use rs_platform.Common.Tests.{◌==◌, ltb, if◌then◌else◌}

abbrev pub SortedMap {ℓ} : Type ℓ → Type ℓ
SortedMap V = List (ℕ × V)

module _ {ℓ} {V : Type ℓ} where
  unfoldable pub get : ℕ → SortedMap V → Option V
  get k [] = none
  get k ((j, v) ∷ m) = if k == j then some v else get k m

  unfoldable pub insert : ℕ → V → SortedMap V → SortedMap V
  insert k v [] = (k, v) ∷ []
  insert k v ((j, w) ∷ m) =
      if k == j then (k, v) ∷ m else if ltb k j then (k, v) ∷ (j, w) ∷ m else (j, w) ∷ insert k v m

  unfoldable pub remove : ℕ → SortedMap V → SortedMap V
  remove k [] = []
  remove k ((j, w) ∷ m) = if k == j then m else (j, w) ∷ remove k m

  -- Every key is at least `lo`.
  abbrev pub Above : ℕ → SortedMap V → Type 0
  Above lo [] = Unit {0}
  Above lo ((j, v) ∷ m) = (lo ≤ j) × Above lo m

  -- The keys ascend, so no key stands twice.
  abbrev pub IsSorted : SortedMap V → Type 0
  IsSorted [] = Unit {0}
  IsSorted ((j, v) ∷ m) = Above (suc j) m × IsSorted m

  pub Above-mono : (m : SortedMap V) (a b : ℕ) → a ≤ b → Above b m → Above a m
  Above-mono [] a b h s = tt
  Above-mono ((j, v) ∷ m) a b h s = (omega arith, Above-mono m a b h s.1)

  pub get-Above : (k : ℕ) (m : SortedMap V) → Above (suc k) m → get k m ≡ none
  unfolding get
  get-Above k [] s = refl
  get-Above k ((j, v) ∷ m) s = ground (arith, get-Above k m s.1)

  pub get-insert_self : (k : ℕ) (v : V) (m : SortedMap V) → get k (insert k v m) ≡ some v
  unfolding get insert
  get-insert_self k v [] = ground arith
  get-insert_self k v ((j, w) ∷ m) = ground (arith, get-insert_self k v m)

  pub get-insert :
      (k j : ℕ) (v : V) (m : SortedMap V)
      → get j (insert k v m) ≡ (if j == k then some v else get j m)
  unfolding get insert
  get-insert k j v [] = refl
  get-insert k j v ((i, w) ∷ m) = ground (arith, get-insert k j v m)

  pub get-remove :
      (k j : ℕ) (m : SortedMap V)
      → IsSorted m
      → get j (remove k m) ≡ (if j == k then none else get j m)
  unfolding get remove
  get-remove k j [] s = ground arith
  get-remove k j ((i, w) ∷ m) s = ground (arith, get-remove k j m s.1, get-Above i m s.0)

  pub insert-Above :
      (lo k : ℕ) (v : V) (m : SortedMap V) → lo ≤ k → Above lo m → Above lo (insert k v m)
  unfolding insert
  insert-Above lo k v [] h s = (h, tt)
  insert-Above lo k v ((j, w) ∷ m) h s = ground (arith, insert-Above lo k v m h s.1)

  pub insert-IsSorted : (k : ℕ) (v : V) (m : SortedMap V) → IsSorted m → IsSorted (insert k v m)
  unfolding insert
  insert-IsSorted k v [] s = (tt, tt)
  insert-IsSorted k v ((j, w) ∷ m) s =
      ground
        (arith, insert-IsSorted k v m s.1, insert-Above (suc j) k v m, Above-mono m (suc k) (suc j))

  pub remove-Above : (lo k : ℕ) (m : SortedMap V) → Above lo m → Above lo (remove k m)
  unfolding remove
  remove-Above lo k [] s = tt
  remove-Above lo k ((j, w) ∷ m) s = ground (arith, remove-Above lo k m s.1)

  pub remove-IsSorted : (k : ℕ) (m : SortedMap V) → IsSorted m → IsSorted (remove k m)
  unfolding remove
  remove-IsSorted k [] s = tt
  remove-IsSorted k ((j, w) ∷ m) s =
      ground (arith, remove-IsSorted k m s.1, remove-Above (suc j) k m s.0)
