-- ===== src/Prelude/Assoc.antt =====
-- std::map with number keys: a list in ascending order of the keys.
use no_cap_kvm.Prelude.Tests.{ltb, ◌==◌, if◌then◌else◌}
use no_cap_kvm.Prelude.Lists.{length}
use Prim.Native.Nat.{ℕ, suc, ◌≤◌, ◌<◌}
use mathlib.Core.Path.{◌≡◌, refl}
use mathlib.Core.Option.{Option, none, some}
use mathlib.Core.List.{List, [], ◌∷◌}
use native.Mathlib.Omega.{arith}

module _ {ℓ} {V : Type ℓ} where
  abbrev pub lookup : ℕ → List (ℕ × V) → Option V
  lookup k [] = none
  lookup k ((j, v) ∷ m) = if j == k then some v else lookup k m

  -- m[k] = v
  abbrev pub insert : ℕ → V → List (ℕ × V) → List (ℕ × V)
  insert k v [] = (k, v) ∷ []
  insert k v ((j, w) ∷ m) =
      if j == k then (k, v) ∷ m else if ltb k j then (k, v) ∷ (j, w) ∷ m else (j, w) ∷ insert k v m

  -- m.erase(k)
  abbrev pub erase : ℕ → List (ℕ × V) → List (ℕ × V)
  erase k [] = []
  erase k ((j, w) ∷ m) = if j == k then m else (j, w) ∷ erase k m

  -- Ascending keys, none below `lo`.
  abbrev pub SortedFrom : ℕ → List (ℕ × V) → Type 0
  SortedFrom lo [] = Unit {0}
  SortedFrom lo ((k, v) ∷ m) = (lo ≤ k) × SortedFrom (suc k) m

  pub SortedFrom-weaken :
      {lo hi : ℕ} (m : List (ℕ × V)) → lo ≤ hi → SortedFrom hi m → SortedFrom lo m
  SortedFrom-weaken [] h s = tt
  SortedFrom-weaken ((k, v) ∷ m) h s = (omega arith, s.1)

  pub insert-SortedFrom :
      (lo k : ℕ) (v : V) (m : List (ℕ × V))
      → lo ≤ k
      → SortedFrom lo m
      → SortedFrom lo (insert k v m)
  insert-SortedFrom lo k v [] h s = (h, tt)
  insert-SortedFrom lo k v ((j, w) ∷ m) h s =
      ground (arith, insert-SortedFrom (suc j) k v m, SortedFrom-weaken {lo = suc k} {hi = suc j} m)

  pub erase-SortedFrom : (lo k : ℕ) (m : List (ℕ × V)) → SortedFrom lo m → SortedFrom lo (erase k m)
  erase-SortedFrom lo k [] s = tt
  erase-SortedFrom lo k ((j, w) ∷ m) s =
      ground (arith, erase-SortedFrom (suc j) k m, SortedFrom-weaken {lo = lo} {hi = suc j} m)

  pub length-insert : (k : ℕ) (v : V) (m : List (ℕ × V)) → length (insert k v m) ≤ suc (length m)
  length-insert k v [] = omega arith
  length-insert k v ((j, w) ∷ m) = ground (arith, length-insert k v m)

  pub length-erase : (k : ℕ) (m : List (ℕ × V)) → length (erase k m) ≤ length m
  length-erase k [] = omega arith
  length-erase k ((j, w) ∷ m) = ground (arith, length-erase k m)

  pub lookup-insert :
      (j k : ℕ) (v : V) (m : List (ℕ × V))
      → lookup j (insert k v m) ≡ (if k == j then some v else lookup j m)
  lookup-insert j k v [] = refl
  lookup-insert j k v ((i, w) ∷ m) = ground (arith, lookup-insert j k v m)

  -- No key below the least one is found.
  pub lookup_below : (lo k : ℕ) (m : List (ℕ × V)) → SortedFrom lo m → k < lo → lookup k m ≡ none
  lookup_below lo k [] s h = refl
  lookup_below lo k ((j, w) ∷ m) s h = ground (arith, lookup_below (suc j) k m)

  pub lookup-erase :
      (lo j k : ℕ) (m : List (ℕ × V))
      → SortedFrom lo m
      → lookup j (erase k m) ≡ (if k == j then none else lookup j m)
  lookup-erase lo j k [] s = ground arith
  lookup-erase lo j k ((i, w) ∷ m) s =
      ground (arith, lookup-erase (suc i) j k m, lookup_below (suc i) j m)
