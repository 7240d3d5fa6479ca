-- ===== src/Partition/Order.antt =====
-- The order of the keys of database/src/database/partition.rs: sorted partitions, and the first
-- entry that passes a test.
use mathlib.Core.Path.{subst}
use krc721_protocol.Prelude.{
  words_lt_total, ◌≡◌, sym, ap, Bool, true, false, some, [], ◌∷◌, words_lt_irrefl, words_lt_trans,
  arith, Bool-cases, inl, inr,
}
use krc721_protocol.Partition.{Key, key_eq, key_lt, Partition, get, insert, remove, first_where}
use krc721_protocol.Partition.Laws.{key_eq_sound}

-- A predicate of the keys of all entries.
abbrev pub All {ℓ κ ρ} : {K : Type ℓ} {V : Type κ} → (K → Type ρ) → Partition K V → Type ρ
All P [] = Unit
All P ((k, v) ∷ m) = P k × All P m

pub All-map {ℓ κ ρ σ} :
    {K : Type ℓ} {V : Type κ} (P : K → Type ρ) (Q : K → Type σ) (m : Partition K V)
    → ((k : K) → P k → Q k)
    → All P m
    → All Q m
All-map P Q [] f h = tt
All-map P Q ((k, v) ∷ m) f (p, h) = (f k p, All-map P Q m f h)

module _ {ℓ κ} {K : Type ℓ} {V : Type κ} ⦃key : Key K⦄ where
  pub All-insert {ρ} :
      (P : K → Type ρ) (k : K) (v : V) (m : Partition K V) → P k → All P m → All P (insert k v m)
  unfolding insert
  All-insert P k v [] p h = (p, tt)
  All-insert P k v ((j, w) ∷ m) p (q, h) = elim (Bool-cases (key_eq k j)) [
    | inl e ↦ rw e (p, h)
    | inr e ↦ elim (Bool-cases (key_lt k j)) [
      | inl f ↦ rw (e, f) (p, (q, h))
      | inr f ↦ rw (e, f) (q, All-insert P k v m p h)
    ]
  ]

  -- An entry that passes a test, and is below all others that do, is the first that does.
  pub first_where-insert :
      (test : K → Bool) (k : K) (v : V) (m : Partition K V)
      → test k ≡ true
      → All (λ j. test j ≡ true → key_lt k j ≡ true) m
      → first_where test (insert k v m) ≡ some (k, v)
  unfolding insert
  first_where-insert test k v [] p h = ground arith
  first_where-insert test k v ((j, w) ∷ m) p (below, h) =
      ground (arith, below, first_where-insert test k v m p h)

module _ {ℓ κ} {K : Type ℓ} {V : Type κ} ⦃key : Key K⦄ where
  -- Every entry is below all that follow it, so no key stands twice.
  abbrev pub Sorted : Partition K V → Type ℓ
  Sorted [] = Unit
  Sorted ((k, v) ∷ m) = All (λ j. key_lt k j ≡ true) m × Sorted m

  get-All {ρ} :
      (P : K → Type ρ) (j : K) (v : V) (m : Partition K V) → get j m ≡ some v → All P m → P j
  unfolding get
  get-All P j v [] e h = cc
  get-All P j v ((k, w) ∷ m) e (p, h) = elim (Bool-cases (key_eq j k)) [
    | inl same ↦ subst P (sym (key_eq_sound j k same)) p
    | inr other ↦ get-All P j v m (ground (arith, e, other)) h
  ]

  pub above_least :
      (k j : K) (v : V) (m : Partition K V)
      → All (λ i. key_lt k i ≡ true) m
      → get j m ≡ some v
      → key_eq j k ≡ false
  above_least k j v m least e = elim (Bool-cases (key_eq j k)) [
    | inl same ↦ absurd (
        ground (
          arith,
          get-All (λ i. key_lt k i ≡ true) j v m e least,
          words_lt_irrefl (key.owned_key k),
          ap (key_lt k) (key_eq_sound j k same),
        ))
    | inr other ↦ other
  ]

  -- `insert` keeps the entries in the strict order of their keys.
  pub insert-Sorted : (k : K) (v : V) (m : Partition K V) → Sorted m → Sorted (insert k v m)
  unfolding insert
  insert-Sorted k v [] s = (tt, tt)
  insert-Sorted k v ((j, w) ∷ m) (least, s) = elim (Bool-cases (key_eq k j)) [
    | inl e ↦ rw e (subst (λ i. All (λ x. key_lt i x ≡ true) m) (sym (key_eq_sound k j e)) least, s)
    | inr e ↦ elim (Bool-cases (key_lt k j)) [
      | inl f ↦
          rw (e, f)
            (
              (
                f,
                All-map (λ x. key_lt j x ≡ true) (λ x. key_lt k x ≡ true) m
                    (λ x h. words_lt_trans _ _ _ f h) least,
              ),
              (least, s),
            )
      | inr f ↦
          rw (e, f)
            (
              All-insert (λ x. key_lt j x ≡ true) k v m (words_lt_total _ _ e f) least,
              insert-Sorted k v m s,
            )
    ]
  ]

  All-remove {ρ} : (P : K → Type ρ) (k : K) (m : Partition K V) → All P m → All P (remove k m)
  unfolding remove
  All-remove P k [] h = tt
  All-remove P k ((j, w) ∷ m) (p, h) = elim (Bool-cases (key_eq k j)) [
    | inl e ↦ rw e (All-remove P k m h)
    | inr e ↦ rw e (p, All-remove P k m h)
  ]

  -- So does `remove`.
  pub remove-Sorted : (k : K) (m : Partition K V) → Sorted m → Sorted (remove k m)
  unfolding remove
  remove-Sorted k [] s = tt
  remove-Sorted k ((j, w) ∷ m) (least, s) = elim (Bool-cases (key_eq k j)) [
    | inl e ↦ rw e (remove-Sorted k m s)
    | inr e ↦ rw e (All-remove (λ x. key_lt j x ≡ true) k m least, remove-Sorted k m s)
  ]
