-- ===== src/Partition.antt =====
-- database/src/database/partition.rs: the typed partitions of the key-value store.
-- A partition keeps its entries in the order of the encoded keys. A word of a key stands for one
-- fixed-width big-endian field of the encoding, so the order of word lists is that of the bytes.
-- A script has a word for each byte and no fixed length: among keys that begin with scripts of
-- different lengths, one of which begins the other, the order is not that of the bytes.
-- The storage engine below it never fails here, and values are kept as they were written.
pub mod Laws
pub mod Order
pub mod Range
pub mod Undo
use krc721_protocol.Prelude.{
  ℕ, ◌≡◌, Bool, true, false, not, Option, none, some, List, [], ◌∷◌, if◌then◌else◌, is_some,
  words_eq, words_lt, map,
}

-- The trait `Key`; that keys are decoded from their encoding makes it injective.
pub record Key {ℓ} (K : Type ℓ) : Type ℓ where
  pub owned_key : K → List ℕ
  pub owned_key-injective : (a b : K) → owned_key a ≡ owned_key b → a ≡ b

abbrev pub key_eq {ℓ} : {K : Type ℓ} ⦃key : Key K⦄ → K → K → Bool
key_eq ⦃key⦄ a b = words_eq (key.owned_key a) (key.owned_key b)

abbrev pub key_lt {ℓ} : {K : Type ℓ} ⦃key : Key K⦄ → K → K → Bool
key_lt ⦃key⦄ a b = words_lt (key.owned_key a) (key.owned_key b)

abbrev pub Partition {ℓ κ} : Type ℓ → Type κ → Type (ℓ ⊔ κ)
Partition K V = List (K × V)

-- The first entry whose key passes a test: `prefix(…).next()`, and `range(…).next()`.
abbrev pub first_where {ℓ κ} :
    {K : Type ℓ} {V : Type κ} → (K → Bool) → Partition K V → Option (K × V)
first_where p [] = none
first_where p ((k, v) ∷ m) = if p k then some (k, v) else first_where p m

-- `last_key_value`
abbrev pub last_entry {ℓ} : {A : Type ℓ} → List A → Option A
last_entry [] = none
last_entry (x ∷ []) = some x
last_entry (x ∷ y ∷ m) = last_entry (y ∷ m)

-- `first_key_value`
abbrev pub first_entry {ℓ} : {A : Type ℓ} → List A → Option A
first_entry [] = none
first_entry (x ∷ m) = some x

module _ {ℓ κ} {K : Type ℓ} {V : Type κ} ⦃key : Key K⦄ where
  -- `get_wtx`
  unfoldable pub get : K → Partition K V → Option V
  get k [] = none
  get k ((j, v) ∷ m) = if key_eq k j then some v else get k m

  -- `insert_wtx`
  unfoldable pub insert : K → V → Partition K V → Partition K V
  insert k v [] = (k, v) ∷ []
  insert k v ((j, w) ∷ m) =
      let rest = insert k v m in
      if key_eq k j then (k, v) ∷ m else if key_lt k j then (k, v) ∷ (j, w) ∷ m else (j, w) ∷ rest

  -- `remove_wtx`
  unfoldable pub remove : K → Partition K V → Partition K V
  remove k [] = []
  remove k ((j, w) ∷ m) = let rest = remove k m in if key_eq k j then rest else (j, w) ∷ rest

  -- `range_wtx(start..)`: the entries whose encoded keys are not below an encoded start, which may
  -- be a prefix of a key.
  unfoldable pub range_from : List ℕ → Partition K V → Partition K V
  range_from start [] = []
  range_from start ((j, w) ∷ m) =
      let rest = range_from start m in
      if words_lt (key.owned_key j) start then rest else (j, w) ∷ rest

  -- `insert_if_not_exist_wtx`
  unfoldable pub insert_if_not_exist : K → V → Partition K V → Bool × Partition K V
  insert_if_not_exist k v m = if is_some (get k m) then (false, m) else (true, insert k v m)

  -- `remove_if_exists_wtx`
  unfoldable pub remove_if_exists : K → Partition K V → Option V × Partition K V
  remove_if_exists k m = (get k m, remove k m)

module _ {ℓ} {K : Type ℓ} {V : Type ℓ} where
  -- `range_keys_wtx`, on the entries of a range
  abbrev pub keys : Partition K V → List K
  keys m = map (λ (e : K × V). e.0) m
