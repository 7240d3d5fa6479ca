-- ===== src/View/Ranges.antt =====
-- Where the ranges of nexus/src/nft_view.rs start and end: from one of its entries on, a range has
-- what it had behind that entry, so a reader can go on from the key of the last entry it has seen.
use mathlib.Core.Path.{subst}
use krc721_protocol.Prelude.{
  ℕ, ◌≡◌, refl, ap, true, false, List, [], ◌∷◌, ◌++◌, words_lt, words_lt_irrefl, words_lt_trans,
  words_le_lt_trans, words_lt_asym, arith, Bool-cases, inl, inr,
}
use krc721_protocol.Partition.{Key, key_lt, Partition, range_from}
use krc721_protocol.Partition.Order.{All, All-map, Sorted}
use krc721_protocol.View.{range_to}

module _ {ℓ κ ρ} {K : Type ℓ} {V : Type κ} ⦃key : Key K⦄ (P : K → Type ρ) where
  pub All-range_from : (start : List ℕ) (m : Partition K V) → All P m → All P (range_from start m)
  unfolding range_from
  All-range_from start [] h = tt
  All-range_from start ((j, w) ∷ m) (p, h) = elim (Bool-cases (words_lt (key.owned_key j) start)) [
    | inl e ↦ rw e (All-range_from start m h)
    | inr e ↦ rw e (p, All-range_from start m h)
  ]

  pub All-range_to : (end : List ℕ) (m : Partition K V) → All P m → All P (range_to end m)
  unfolding range_to
  All-range_to end [] h = tt
  All-range_to end ((j, w) ∷ m) (p, h) = elim (Bool-cases (words_lt end (key.owned_key j))) [
    | inl e ↦ rw e (All-range_to end m h)
    | inr e ↦ rw e (p, All-range_to end m h)
  ]

  All-middle :
      (xs : Partition K V) (k : K) (v : V) (ys : Partition K V) → All P (xs ++ ((k, v) ∷ ys)) → P k
  All-middle [] k v ys (p, h) = p
  All-middle ((j, w) ∷ xs) k v ys (p, h) = All-middle xs k v ys h

module _ {ℓ κ} {K : Type ℓ} {V : Type κ} ⦃key : Key K⦄ where
  -- Entries that are all above a start are all of the range.
  range_from-above :
      (start : List ℕ) (m : Partition K V)
      → All (λ j. words_lt start (key.owned_key j) ≡ true) m
      → range_from start m ≡ m
  unfolding range_from
  range_from-above start [] h = refl
  range_from-above start ((j, w) ∷ m) (a, h) = ground (
    arith,
    range_from-above start m h,
    words_lt_trans start (key.owned_key j) start,
    words_lt_irrefl start,
  )

  range_to-above :
      (end : List ℕ) (m : Partition K V)
      → All (λ j. words_lt end (key.owned_key j) ≡ true) m
      → range_to end m ≡ []
  unfolding range_to
  range_to-above end [] h = refl
  range_to-above end ((j, w) ∷ m) (a, h) = rw a (range_to-above end m h)

  -- A start that is not above an entry is below all that follow it.
  All-below :
      (start : List ℕ) (j : K) (m : Partition K V)
      → words_lt (key.owned_key j) start ≡ false
      → All (λ i. key_lt j i ≡ true) m
      → All (λ i. words_lt start (key.owned_key i) ≡ true) m
  All-below start j m n = All-map _ _ m (λ i h. words_le_lt_trans _ _ _ n h)

  All-inside :
      (j k : K) (v : V) (r xs ys : Partition K V)
      → All (λ i. key_lt j i ≡ true) r
      → r ≡ xs ++ ((k, v) ∷ ys)
      → key_lt j k ≡ true
  All-inside j k v r xs ys h e =
      All-middle (λ i. key_lt j i ≡ true) xs k v ys (subst (All (λ i. key_lt j i ≡ true)) e h)

  -- From an entry of a range on, the entries are those of the range from there on.
  pub range_from-middle :
      (start : List ℕ) (m xs : Partition K V) (k : K) (v : V) (ys : Partition K V)
      → Sorted m
      → range_from start m ≡ xs ++ ((k, v) ∷ ys)
      → range_from (key.owned_key k) m ≡ (k, v) ∷ ys
  unfolding range_from
  range_from-middle start [] [] k v ys s e = cc
  range_from-middle start [] (x ∷ xs) k v ys s e = cc
  range_from-middle start ((j, w) ∷ m) [] k v ys (least, s) e =
      elim (Bool-cases (words_lt (key.owned_key j) start)) [
        | inl below ↦
            let rest : range_from start m ≡ (k, v) ∷ ys = ground (arith, e, below) in
            rw (All-inside j k v _ [] ys (All-range_from _ start m least) rest)
              (range_from-middle start m [] k v ys s rest)
        | inr from ↦
            let same : (◌≡◌ {A = K × V} (j, w) (k, v)) × (range_from start m ≡ ys) =
              ground (arith, e, from) in
            ground (
              arith,
              same,
              words_lt_irrefl (key.owned_key j),
              ap (λ (x : K × V). key.owned_key x.0) same.0,
              range_from-above start m (All-below start j m from least),
              range_from-above (key.owned_key j) m least,
            )
      ]
  range_from-middle start ((j, w) ∷ m) (x ∷ xs) k v ys (least, s) e =
      elim (Bool-cases (words_lt (key.owned_key j) start)) [
        | inl below ↦
            let rest : range_from start m ≡ x ∷ (xs ++ ((k, v) ∷ ys)) = ground (arith, e, below) in
            rw (All-inside j k v _ (x ∷ xs) ys (All-range_from _ start m least) rest)
              (range_from-middle start m (x ∷ xs) k v ys s rest)
        | inr from ↦
            let rest : range_from start m ≡ xs ++ ((k, v) ∷ ys) = ground (arith, e, from) in
            rw (All-inside j k v _ xs ys (All-range_from _ start m least) rest)
              (range_from-middle start m xs k v ys s rest)
      ]

  past_end :
      (end : List ℕ) (j : K) (m : Partition K V)
      → words_lt end (key.owned_key j) ≡ true
      → All (λ i. key_lt j i ≡ true) m
      → range_to end m ≡ []
  past_end end j m above least =
      range_to-above end m (All-map _ _ m (λ i h. words_lt_trans _ _ _ above h) least)

  -- Up to an entry of a range, the entries are those of the range up to there.
  pub range_to-middle :
      (end : List ℕ) (m xs : Partition K V) (k : K) (v : V) (ys : Partition K V)
      → Sorted m
      → range_to end m ≡ xs ++ ((k, v) ∷ ys)
      → range_to (key.owned_key k) m ≡ xs ++ ((k, v) ∷ [])
  unfolding range_to
  range_to-middle end [] [] k v ys s e = cc
  range_to-middle end [] (x ∷ xs) k v ys s e = cc
  range_to-middle end ((j, w) ∷ m) [] k v ys (least, s) e =
      elim (Bool-cases (words_lt end (key.owned_key j))) [
        | inl above ↦ absurd (ground (arith, e, above, past_end end j m above least))
        | inr upto ↦
            let same : ◌≡◌ {A = K × V} (j, w) (k, v) = ground (arith, e, upto) in
            ground (
              arith,
              same,
              words_lt_irrefl (key.owned_key j),
              ap (λ (x : K × V). key.owned_key x.0) same,
              range_to-above (key.owned_key j) m least,
            )
      ]
  range_to-middle end ((j, w) ∷ m) (x ∷ xs) k v ys (least, s) e =
      elim (Bool-cases (words_lt end (key.owned_key j))) [
        | inl above ↦ absurd (ground (arith, e, above, past_end end j m above least))
        | inr upto ↦
            let rest : range_to end m ≡ xs ++ ((k, v) ∷ ys) = ground (arith, e, upto) in
            let same : x ≡ (j, w) = ground (arith, e, upto) in
            let after = All-inside j k v _ xs ys (All-range_to _ end m least) rest in
            rw (words_lt_asym _ _ after)
              (ground (arith, same, range_to-middle end m xs k v ys s rest))
      ]
