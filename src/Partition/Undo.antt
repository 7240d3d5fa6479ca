-- ===== src/Partition/Undo.antt =====
-- A write to a partition of database/src/database/partition.rs that is taken back by its key.
use krc721_protocol.Prelude.{
  ◌≡◌, refl, ap, true, false, none, List, [], ◌∷◌, ℕ, words_lt_trans, arith, Bool-cases, inl, inr,
}
use krc721_protocol.Partition.{Key, key_eq, key_lt, Partition, get, insert, remove, range_from}
use krc721_protocol.Partition.Laws.{key_eq_sound, key_eq_refl}
use krc721_protocol.Partition.Order.{All}
use krc721_protocol.Partition.Range.{is_below}

module _ {ℓ κ} {K : Type ℓ} {V : Type κ} ⦃key : Key K⦄ where
  remove-absent : (k : K) (m : Partition K V) → get k m ≡ none → remove k m ≡ m
  unfolding get remove
  remove-absent k [] e = refl
  remove-absent k ((j, w) ∷ m) e = ground (arith, remove-absent k m)

  -- Removing a new entry gives the old partition back.
  pub remove-insert :
      (k : K) (v : V) (m : Partition K V) → get k m ≡ none → remove k (insert k v m) ≡ m
  unfolding get remove insert
  remove-insert k v [] e = ground (arith, key_eq_refl k)
  remove-insert k v ((j, w) ∷ m) e =
      ground (arith, remove-insert k v m, remove-absent k m, key_eq_refl k)

  below_range :
      (start : List ℕ) (m : Partition K V)
      → All (λ j. is_below start j ≡ true) m
      → range_from start m ≡ []
  unfolding range_from
  below_range start [] h = refl
  below_range start ((j, w) ∷ m) (b, h) = ground (arith, below_range start m h)

  -- A range that starts above all old entries has the new entry only.
  pub range-insert :
      (start : List ℕ) (k : K) (v : V) (m : Partition K V)
      → is_below start k ≡ false
      → All (λ j. is_below start j ≡ true) m
      → range_from start (insert k v m) ≡ (k, v) ∷ []
  unfolding range_from insert
  range-insert start k v [] above h = ground arith
  range-insert start k v ((j, w) ∷ m) above (b, h) =
      let apart : key_eq k j ≡ false = not_same k j above b in
      let after : key_lt k j ≡ false = not_before k j above b in
      ground (arith, range-insert start k v m above h)
    where
      not_same : (k j : K) → is_below start k ≡ false → is_below start j ≡ true → key_eq k j ≡ false
      not_same k j above b = elim (Bool-cases (key_eq k j)) [
        | inl e ↦ absurd (ground (arith, ap (is_below start) (key_eq_sound k j e)))
        | inr e ↦ e
      ]

      not_before :
          (k j : K) → is_below start k ≡ false → is_below start j ≡ true → key_lt k j ≡ false
      not_before k j above b = elim (Bool-cases (key_lt k j)) [
        | inl e ↦ absurd (ground (arith, words_lt_trans _ _ _ e b))
        | inr e ↦ e
      ]
