-- ===== src/Keys/Scripts.antt =====
-- Equality of scripts, and of the keys that begin with one (database/src/database/partition.rs).
use krc721_protocol.Prelude.{
  ℕ, ◌≡◌, ◌≢◌, sym, ap, ◌∙◌, ◌&&◌, ◌==◌, true, false, words_eq_sound, words_eq_refl, arith,
  Bool-cases, inl, inr,
}
use krc721_protocol.Model.{ScriptPublicKey, spk_eq, Tick}
use krc721_protocol.Partition.{key_eq}
use krc721_protocol.Partition.Laws.{key_eq_sound, key_eq_refl}
use krc721_protocol.Keys.Defs.{AddressHoldingKey}
use krc721_protocol.Keys.Instances.{address_holding_key_instance}

abbrev pub address_holding_key : ScriptPublicKey → Tick → ℕ → AddressHoldingKey
address_holding_key spk tick token_id = record { spk = spk; tick = tick; token_id = token_id }

pub spk_eq_sound : (a b : ScriptPublicKey) → spk_eq a b ≡ true → a ≡ b
unfolding spk_eq
spk_eq_sound a b h = ground (arith, words_eq_sound a.script b.script)

pub spk_eq_refl : (a : ScriptPublicKey) → spk_eq a a ≡ true
unfolding spk_eq
spk_eq_refl a = ground (arith, words_eq_refl a.script)

pub spk_eq-ne : (a b : ScriptPublicKey) → a ≢ b → spk_eq a b ≡ false
spk_eq-ne a b h = elim (Bool-cases (spk_eq a b)) [
  | inl e ↦ absurd (h (spk_eq_sound a b e))
  | inr e ↦ e
]

module _ (a b : ScriptPublicKey) (t u : Tick) (i j : ℕ) where
  same_fields :
      key_eq (address_holding_key a t i) (address_holding_key b u j) ≡ true
      → (spk_eq a b && ((t == u) && (i == j))) ≡ true
  same_fields h =
      let e = key_eq_sound (address_holding_key a t i) (address_holding_key b u j) h in
      let spk = ap (λ (k : AddressHoldingKey). k.spk) e in
      let tick = ap (λ (k : AddressHoldingKey). k.tick) e in
      let token_id = ap (λ (k : AddressHoldingKey). k.token_id) e in ground (arith, spk_eq_refl b)

  same_key :
      (spk_eq a b && ((t == u) && (i == j))) ≡ true
      → key_eq (address_holding_key a t i) (address_holding_key b u j) ≡ true
  same_key h = ground (arith, spk_eq_sound a b, key_eq_refl (address_holding_key a t i))

  -- An entry of an address is found by its address, its tick and its token.
  pub address_holding_key-eq :
      key_eq (address_holding_key a t i) (address_holding_key b u j)
      ≡ (spk_eq a b && ((t == u) && (i == j)))
  address_holding_key-eq =
      elim (Bool-cases (key_eq (address_holding_key a t i) (address_holding_key b u j))) [
        | inl e ↦ e ∙ sym (same_fields e)
        | inr e ↦ elim (Bool-cases (spk_eq a b && ((t == u) && (i == j)))) [
          | inl f ↦ same_key f ∙ sym f
          | inr f ↦ e ∙ sym f
        ]
      ]
