-- ===== src/Wallet/Sweep/Order.antt =====
-- wallet-core/src/funding.rs: what sorting the inputs of a sweep is for.
use tinylayer_org.Base.{
  ◌≡◌, ◌≢◌, inl, inr, refl, true, false, List, [], ◌∷◌, arith, All, Bool-cases,
}
use mathlib.Core.List.{Perm}
use mathlib.Core.List.Perm
use tinylayer_org.Extern.{OutPoint}
use tinylayer_org.Wallet.Types.{SourceUtxo}
use tinylayer_org.Wallet.Platform.{Platform}
use tinylayer_org.Wallet.Sweep.{insert_source, sort_sources, no_duplicates}

-- The documented order of outpoints: total, antisymmetric and transitive.
pub record IsOrder (p : Platform) : Type 0 where
  pub total : (a b : OutPoint) → p.outpoint_le a b ≡ false → p.outpoint_le b a ≡ true
  pub antisym : (a b : OutPoint) → p.outpoint_le a b ≡ true → p.outpoint_le b a ≡ true → a ≡ b
  pub trans :
      (a b c : OutPoint)
      → p.outpoint_le a b ≡ true
      → p.outpoint_le b c ≡ true
      → p.outpoint_le a c ≡ true

-- No two of the sources have one outpoint.
abbrev pub DistinctSources : List SourceUtxo → Type 0
DistinctSources [] = Unit
DistinctSources (source ∷ rest) =
    All (λ other. source.outpoint ≢ other.outpoint) rest × DistinctSources rest

module _ (p : Platform) where
  abbrev pub IsSorted : List SourceUtxo → Type 0
  IsSorted [] = Unit
  IsSorted (source ∷ []) = Unit
  IsSorted (source ∷ next ∷ rest) =
      (p.outpoint_le source.outpoint next.outpoint ≡ true) × IsSorted (next ∷ rest)

  pub insert_source-perm :
      (source : SourceUtxo) (sources : List SourceUtxo)
      → Perm (insert_source p source sources) (source ∷ sources)
  unfolding insert_source
  insert_source-perm source [] = Perm.refl (source ∷ [])
  insert_source-perm source (next ∷ rest) =
      elim (Bool-cases (p.outpoint_le source.outpoint next.outpoint)) [
        | inl e ↦ rw e (Perm.refl (source ∷ next ∷ rest))
        | inr e ↦ rw e (
            Perm.trans (Perm.cons next (insert_source-perm source rest))
              (Perm.swap source next rest))
      ]

  -- Sorting keeps the sources.
  pub sort_sources-perm : (sources : List SourceUtxo) → Perm (sort_sources p sources) sources
  unfolding sort_sources
  sort_sources-perm [] = Perm.refl []
  sort_sources-perm (source ∷ rest) =
      Perm.trans (insert_source-perm source (sort_sources p rest))
        (Perm.cons source (sort_sources-perm rest))

  -- A sorted list is left as it is.
  pub sort_sources_of_sorted :
      (sources : List SourceUtxo) → IsSorted sources → sort_sources p sources ≡ sources
  unfolding sort_sources insert_source
  sort_sources_of_sorted [] s = refl
  sort_sources_of_sorted (source ∷ []) s = refl
  sort_sources_of_sorted (source ∷ next ∷ rest) s =
      ground (arith, sort_sources_of_sorted (next ∷ rest) s.1)

module _ (p : Platform) (order : IsOrder p) where
  insert_source-IsSorted :
      (source : SourceUtxo) (sources : List SourceUtxo)
      → IsSorted p sources
      → IsSorted p (insert_source p source sources)
  unfolding insert_source
  insert_source-IsSorted source [] s = tt
  insert_source-IsSorted source (next ∷ []) s =
      ground (arith, order.total source.outpoint next.outpoint)
  insert_source-IsSorted source (next ∷ after ∷ rest) s = ground (
    arith,
    order.total source.outpoint next.outpoint,
    insert_source-IsSorted source (after ∷ rest) s.1,
  )

  pub sort_sources-IsSorted : (sources : List SourceUtxo) → IsSorted p (sort_sources p sources)
  unfolding sort_sources
  sort_sources-IsSorted [] = tt
  sort_sources-IsSorted (source ∷ rest) =
      insert_source-IsSorted source (sort_sources p rest) (sort_sources-IsSorted rest)

  -- What stands above a source in a strictly sorted list differs from it.
  above :
      (source next : SourceUtxo) (rest : List SourceUtxo)
      → p.outpoint_le source.outpoint next.outpoint ≡ true
      → source.outpoint ≢ next.outpoint
      → IsSorted p (next ∷ rest)
      → All (λ other. source.outpoint ≢ other.outpoint) rest
  above source next [] le ne s = tt
  above source next (after ∷ rest) le ne s =
      let le' = order.trans source.outpoint next.outpoint after.outpoint le s.0 in
      let ne' : source.outpoint ≢ after.outpoint =
        λ e. ne (order.antisym source.outpoint next.outpoint le (rw e s.0)) in
      (ne', above source after rest le' ne' s.1)

  -- In a sorted list, comparing neighbours finds every duplicate.
  pub no_duplicates-DistinctSources :
      (sources : List SourceUtxo)
      → IsSorted p sources
      → no_duplicates sources ≡ true
      → DistinctSources sources
  unfolding no_duplicates
  no_duplicates-DistinctSources [] s h = tt
  no_duplicates-DistinctSources (source ∷ []) s h = (tt, tt)
  no_duplicates-DistinctSources (source ∷ next ∷ rest) s h =
      let ne : source.outpoint ≢ next.outpoint = ground arith in
      (
        (ne, above source next rest s.0 ne s.1),
        no_duplicates-DistinctSources (next ∷ rest) s.1 (ground arith),
      )
