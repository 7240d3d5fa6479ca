-- ===== src/Partition/Range.antt =====
-- Removing a range of keys, as the reorganisation of nexus/src/processor.rs does it: the keys are
-- collected first, and removed one by one.
use krc721_protocol.Prelude.{
  ◌≡◌, refl, ap, ◌∙◌, Bool, true, false, none, some, List, [], ◌∷◌, if◌then◌else◌, words_lt, arith,
  Bool-cases, inl, inr, ℕ,
}
use krc721_protocol.Partition.{Key, key_eq, Partition, get, remove, range_from, keys}
use krc721_protocol.Partition.Laws.{key_eq_sound, key_eq_refl, get-remove}
use krc721_protocol.Partition.Order.{Sorted, above_least}

-- The key is below the encoded start of a range.
abbrev pub is_below {ℓ} : {K : Type ℓ} ⦃key : Key K⦄ → List ℕ → K → Bool
is_below ⦃key⦄ start k = words_lt (key.owned_key k) start

module _ {ℓ κ} {K : Type ℓ} {V : Type κ} ⦃key : Key K⦄ where
  abbrev pub remove_keys : List K → Partition K V → Partition K V
  remove_keys [] m = m
  remove_keys (k ∷ ks) m = remove_keys ks (remove k m)

module _ {ℓ} {K : Type ℓ} ⦃key : Key K⦄ (start : List ℕ) (j : K) where
  below_ne : (k : K) → is_below start j ≡ true → is_below start k ≡ false → key_eq j k ≡ false
  below_ne k h n = elim (Bool-cases (key_eq j k)) [
    | inl e ↦ absurd (ground (arith, ap (is_below start) (key_eq_sound j k e)))
    | inr e ↦ e
  ]

  above_ne : (k : K) → is_below start j ≡ false → is_below start k ≡ true → key_eq j k ≡ false
  above_ne k h n = elim (Bool-cases (key_eq j k)) [
    | inl e ↦ absurd (ground (arith, ap (is_below start) (key_eq_sound j k e)))
    | inr e ↦ e
  ]

module _ {ℓ} {K : Type ℓ} {V : Type ℓ} ⦃key : Key K⦄ (start : List ℕ) (j : K) where
  kept_below :
      (r m : Partition K V)
      → is_below start j ≡ true
      → get j (remove_keys (keys (range_from start r)) m) ≡ get j m
  unfolding range_from
  kept_below [] m h = refl
  kept_below ((k, w) ∷ r) m h = elim (Bool-cases (is_below start k)) [
    | inl e ↦ rw e (kept_below r m h)
    | inr e ↦
        rw e (kept_below r (remove k m) h ∙ get-remove k j m ∙ rw (below_ne start j k h e) refl)
  ]

  removed_above :
      (r m : Partition K V)
      → is_below start j ≡ false
      → (get j r ≡ none → get j m ≡ none)
      → get j (remove_keys (keys (range_from start r)) m) ≡ none
  unfolding range_from get
  removed_above [] m h same = same refl
  removed_above ((k, w) ∷ r) m h same = elim (Bool-cases (is_below start k)) [
    | inl e ↦ rw e (removed_above r m h (λ n. same (ground (arith, above_ne start j k h e, n))))
    | inr e ↦ rw e (removed_above r (remove k m) h (λ n. ground (arith, get-remove k j m, same, n)))
  ]

  -- A lookup after the keys from a start on are removed.
  pub get-remove_range :
      (m : Partition K V)
      → get j (remove_keys (keys (range_from start m)) m)
        ≡ (if is_below start j then get j m else none)
  get-remove_range m = elim (Bool-cases (is_below start j)) [
    | inl e ↦ rw e (kept_below m m e)
    | inr e ↦ rw e (removed_above m m e (λ n. n))
  ]

-- The entries are read and removed one by one.
module _ {ℓ} {K : Type ℓ} {V : Type ℓ} ⦃key : Key K⦄ where
  abbrev pub Present : Partition K V → Partition K V → Type ℓ
  Present [] m = Unit
  Present ((k, v) ∷ r) m = (get k m ≡ some v) × Present r (remove k m)

  range-Present :
      (start : List ℕ) (r m : Partition K V)
      → Sorted r
      → ((j : K) (v : V) → get j r ≡ some v → get j m ≡ some v)
      → Present (range_from start r) m
  unfolding range_from get
  range-Present start [] m s sub = tt
  range-Present start ((k, w) ∷ r) m (least, s) sub =
      let tail : (j : K) (v : V) → get j r ≡ some v → key_eq j k ≡ false =
        λ j v e. above_least k j v r least e in
      let tail_sub : (j : K) (v : V) → get j r ≡ some v → get j m ≡ some v =
        λ j v e. sub j v (ground (arith, tail j v e)) in
      elim (Bool-cases (is_below start k)) [
        | inl e ↦ rw e (range-Present start r m s tail_sub)
        | inr e ↦ rw e (
          sub k w (ground (arith, key_eq_refl k)),
          range-Present start r (remove k m) s
              (λ j v f. ground (arith, get-remove k j m, tail j v f, tail_sub j v f)),
        )
      ]

  -- In a sorted partition each entry of a range is there until it is removed.
  pub Sorted-Present :
      (start : List ℕ) (m : Partition K V) → Sorted m → Present (range_from start m) m
  Sorted-Present start m s = range-Present start m m s (λ j v e. e)
