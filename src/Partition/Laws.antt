-- ===== src/Partition/Laws.antt =====
-- What a lookup in a partition of database/src/database/partition.rs sees after each write.
use krc721_protocol.Prelude.{
  ◌≡◌, refl, sym, ap, ◌≢◌, true, false, none, some, [], ◌∷◌, if◌then◌else◌, words_eq_sound,
  words_eq_refl, arith, ◌∙◌, inl, inr, Bool-cases,
}
use krc721_protocol.Partition.{Key, key_eq, Partition, get, insert, remove}

module _ {ℓ} {K : Type ℓ} ⦃key : Key K⦄ where
  pub key_eq_sound : (a b : K) → key_eq a b ≡ true → a ≡ b
  key_eq_sound a b h = key.owned_key-injective a b (words_eq_sound _ _ h)

  pub key_eq_refl : (a : K) → key_eq a a ≡ true
  key_eq_refl a = words_eq_refl (key.owned_key a)

  pub key_eq-ne : (a b : K) → a ≢ b → key_eq a b ≡ false
  key_eq-ne a b h = elim (Bool-cases (key_eq a b)) [
    | inl same ↦ absurd (h (key_eq_sound a b same))
    | inr other ↦ other
  ]

  key_eq_trans : (a b c : K) → key_eq a b ≡ true → key_eq a c ≡ key_eq b c
  key_eq_trans a b c h = ap (λ k. key_eq k c) (key_eq_sound a b h)

  key_eq_sym : (a b : K) → key_eq a b ≡ true → key_eq b a ≡ true
  key_eq_sym a b h = sym (key_eq_trans a b a h) ∙ key_eq_refl a

module _ {ℓ κ} {K : Type ℓ} {V : Type κ} ⦃key : Key K⦄ where
  -- A lookup after `insert` gives the new value at its key and the old value at every other.
  pub get-insert :
      (k j : K) (v : V) (m : Partition K V)
      → get j (insert k v m) ≡ (if key_eq j k then some v else get j m)
  unfolding get insert
  get-insert k j v [] = refl
  get-insert k j v ((i, w) ∷ m) = ground (
    arith,
    get-insert k j v m,
    key_eq_trans j k i,
    key_eq_trans k i j,
    key_eq_sym j k,
    key_eq_sym i k,
    key_eq_sym j i,
    key_eq_sym k i,
    key_eq_trans j i k,
  )

  -- A lookup after `remove` gives nothing at the key and the old value at every other.
  pub get-remove :
      (k j : K) (m : Partition K V) → get j (remove k m) ≡ (if key_eq j k then none else get j m)
  unfolding get remove
  get-remove k j [] = ground arith
  get-remove k j ((i, w) ∷ m) = ground (
    arith,
    get-remove k j m,
    key_eq_trans j i k,
    key_eq_sym j i,
    key_eq_sym k i,
    key_eq_trans k i j,
    key_eq_sym j k,
    key_eq_trans j k i,
  )

  pub get-insert_self : (k : K) (v : V) (m : Partition K V) → get k (insert k v m) ≡ some v
  get-insert_self k v m = ground (arith, get-insert k k v m, key_eq_refl k)

  pub get-insert_ne : (k j : K) (v : V) (m : Partition K V) → j ≢ k → get j (insert k v m) ≡ get j m
  get-insert_ne k j v m h = ground (arith, get-insert k j v m, key_eq-ne j k h)

  pub get-remove_self : (k : K) (m : Partition K V) → get k (remove k m) ≡ none
  get-remove_self k m = ground (arith, get-remove k k m, key_eq_refl k)

  pub get-remove_ne : (k j : K) (m : Partition K V) → j ≢ k → get j (remove k m) ≡ get j m
  get-remove_ne k j m h = ground (arith, get-remove k j m, key_eq-ne j k h)
