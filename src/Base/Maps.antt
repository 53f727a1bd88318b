-- ===== src/Base/Maps.antt =====
-- A hash map keyed by byte strings, as an association list without repeated keys.
use Prim.Native.Nat.{suc}
use mathlib.Core.Path.{◌≡◌, refl, subst₂}
use mathlib.Core.Logic.{◌≢◌}
use mathlib.Core.Option.{Option, none, some}
use mathlib.Core.List.{List, [], ◌∷◌}
use native.Mathlib.Omega.{arith}
use tinylayer_org.Base.Tests.{Bytes, bytes_discrete, same, is_some, if◌then◌else◌}
use tinylayer_org.Base.Lists.{length}

abbrev pub Map : Type 0 → Type 0
Map V = List (Bytes × V)

module _ {V : Type 0} where
  unfoldable pub lookup : Bytes → Map V → Option V
  unfolding bytes_discrete
  lookup k [] = none
  lookup k ((j, v) ∷ m) = if same bytes_discrete j k then some v else lookup k m

  unfoldable pub insert : Bytes → V → Map V → Map V
  unfolding bytes_discrete
  insert k v [] = (k, v) ∷ []
  insert k v ((j, w) ∷ m) = if same bytes_discrete j k then (k, v) ∷ m else (j, w) ∷ insert k v m

  pub lookup-insert :
      (k j : Bytes) (v : V) (m : Map V)
      → lookup j (insert k v m) ≡ (if same bytes_discrete k j then some v else lookup j m)
  unfolding lookup insert
  lookup-insert k j v [] = refl
  lookup-insert k j v ((i, w) ∷ m) = ground (arith, lookup-insert k j v m)

  pub lookup-insert_self : (k : Bytes) (v : V) (m : Map V) → lookup k (insert k v m) ≡ some v
  lookup-insert_self k v m = ground (arith, lookup-insert k k v m)

  pub lookup-insert_ne :
      (k j : Bytes) (v : V) (m : Map V) → k ≢ j → lookup j (insert k v m) ≡ lookup j m
  lookup-insert_ne k j v m h = ground (arith, lookup-insert k j v m)

  -- Writing back what is there changes nothing.
  pub insert-lookup : (k : Bytes) (v : V) (m : Map V) → lookup k m ≡ some v → insert k v m ≡ m
  unfolding lookup insert
  insert-lookup k v [] h = cc
  insert-lookup k v ((j, w) ∷ m) h = ground (arith, insert-lookup k v m)

  pub length-insert :
      (k : Bytes) (v : V) (m : Map V)
      → length (insert k v m) ≡ (if is_some (lookup k m) then length m else suc (length m))
  unfolding lookup insert
  length-insert k v [] = refl
  length-insert k v ((j, w) ∷ m) = ground (arith, length-insert k v m)

  -- No key is listed twice.
  abbrev pub Distinct : Map V → Type 0
  Distinct [] = Unit
  Distinct ((k, v) ∷ m) = (lookup k m ≡ none) × Distinct m

  pub insert-Distinct : (k : Bytes) (v : V) (m : Map V) → Distinct m → Distinct (insert k v m)
  unfolding lookup insert
  insert-Distinct k v [] d = (refl, tt)
  insert-Distinct k v ((j, w) ∷ m) d =
      ground (arith, insert-Distinct k v m d.1, lookup-insert k j v m)

  -- A predicate of every entry.
  abbrev pub Entries : (Bytes → V → Type 0) → Map V → Type 0
  Entries P [] = Unit
  Entries P ((k, v) ∷ m) = P k v × Entries P m

  pub lookup-Entries :
      (P : Bytes → V → Type 0) (k : Bytes) (v : V) (m : Map V)
      → Entries P m
      → lookup k m ≡ some v
      → P k v
  unfolding lookup
  lookup-Entries P k v [] h e = cc
  lookup-Entries P k v ((j, w) ∷ m) h e = elim (bytes_discrete j k) [
    | yes p ↦ subst₂ P p (ground arith) h.0
    | no n ↦ lookup-Entries P k v m h.1 (ground arith)
  ]

  pub insert-Entries :
      (P : Bytes → V → Type 0) (k : Bytes) (v : V) (m : Map V)
      → Entries P m
      → P k v
      → Entries P (insert k v m)
  unfolding insert
  insert-Entries P k v [] h p = (p, tt)
  insert-Entries P k v ((j, w) ∷ m) h p = ground (arith, insert-Entries P k v m h.1 p)
