-- ===== src/Processor/Discount/Laws.antt =====
-- When `process_discount` of nexus/src/processor.rs accepts a discount, and what a mint then pays.
use krc721_protocol.Prelude.{
  ℕ, ◌-◌, ◌<◌, ◌≤◌, ◌≡◌, ◌↔◌, refl, ap, ◌∙◌, true, some, List, [], ◌∷◌, arith, inl, inr,
  Option-cases, u64_max, words_lt, ◌++◌,
}
use krc721_protocol.Partition.{get, key_lt}
use krc721_protocol.Partition.Order.{All, first_where-insert}
use krc721_protocol.Model.{Tick, ScriptPublicKey, spk_eq, OperationCommon, DiscountInfo}
use krc721_protocol.Keys.{number_key, vip_key_instance, ScoredDeployInfoWithCommon}
use krc721_protocol.Db.{Db}
use krc721_protocol.Outcome.{accepted}
use krc721_protocol.Processor.Mint.{vip_key, in_prefix_range, last_fee}
use krc721_protocol.Processor.Discount.{royalty_fee, record_discount, process_discount}

-- The collection is registered, its deployer is the sender, and its mints cost more than the fee.
abbrev pub MayDiscount : OperationCommon → DiscountInfo → Db → Type 0
MayDiscount common info db =
    (d : ScoredDeployInfoWithCommon) × (get common.tick db.collection_registry ≡ some d)
    × (spk_eq common.sender d.info.info.deployer ≡ true)
    × (info.fee < royalty_fee d.info.info.royalty)

words_lt-append : (p xs ys : List ℕ) → words_lt (p ++ xs) (p ++ ys) ≡ words_lt xs ys
unfolding words_lt
words_lt-append [] xs ys = refl
words_lt-append (a ∷ p) xs ys = ground (arith, words_lt-append p xs ys)

new_in_range :
    (spk : ScriptPublicKey) (tick : Tick) (score fee : ℕ)
    → 0 < score
    → score ≤ u64_max
    → in_prefix_range spk tick (vip_key spk tick (u64_max - score) fee) ≡ true
unfolding words_lt
new_in_range spk tick score fee pos small = ground (
  arith,
  words_lt-append spk.script (tick ∷ (u64_max - score) ∷ fee ∷ []) (tick ∷ 0 ∷ 0 ∷ []),
  words_lt-append spk.script (tick ∷ (u64_max - score) ∷ fee ∷ []) (tick ∷ u64_max ∷ u64_max ∷ []),
)

module _ (score : ℕ) (common : OperationCommon) (info : DiscountInfo) (db : Db) where
  may_discount : (process_discount score common info db).0 ≡ accepted → MayDiscount common info db
  unfolding process_discount
  may_discount h = elim (Option-cases (get common.tick db.collection_registry)) [
    | inl e ↦ absurd (ground arith)
    | inr (d, e) ↦ (d, e, ground arith, ground arith)
  ]

  discounted :
      MayDiscount common info db
      → process_discount score common info db ≡ (accepted, record_discount score common info db)
  unfolding process_discount
  discounted (d, e, owner, low) = ground (arith, e)

  -- A discount is accepted exactly when the collection is registered, the sender deployed it and
  -- the fee is below the royalty fee of the collection.
  pub process_discount-accepted :
      ((process_discount score common info db).0 ≡ accepted) ↔ MayDiscount common info db
  process_discount-accepted = (may_discount, λ m. ap (λ r. r.0) (discounted m))

  recorded-last_fee :
      0 < score
      → score ≤ u64_max
      → All
          (λ k.
            in_prefix_range info.to common.tick k ≡ true
            → key_lt (vip_key info.to common.tick (u64_max - score) info.fee) k ≡ true)
          db.vip
      → last_fee info.to common.tick (record_discount score common info db).vip ≡ some info.fee
  unfolding last_fee record_discount
  recorded-last_fee pos small older = ground (
    arith,
    first_where-insert (in_prefix_range info.to common.tick)
        (vip_key info.to common.tick (u64_max - score) info.fee) tt db.vip
        (new_in_range info.to common.tick score info.fee pos small) older,
  )

  -- After an accepted discount with a score above 0 the fee that is looked up for its address and
  -- collection is that of the discount, if the other entries in that range of keys come after the
  -- new one.
  pub process_discount-last_fee :
      0 < score
      → score ≤ u64_max
      → All
          (λ k.
            in_prefix_range info.to common.tick k ≡ true
            → key_lt (vip_key info.to common.tick (u64_max - score) info.fee) k ≡ true)
          db.vip
      → (process_discount score common info db).0 ≡ accepted
      → last_fee info.to common.tick (process_discount score common info db).1.vip ≡ some info.fee
  process_discount-last_fee pos small older h =
      ap (λ r. last_fee info.to common.tick r.1.vip) (discounted (may_discount h))
      ∙ recorded-last_fee pos small older
