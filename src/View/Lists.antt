-- ===== src/View/Lists.antt =====
-- The paged views of nexus/src/nft_view.rs. Each gives the entries of its range that the limit
-- admits and one more, the last.
use Prim.Native.String.{String}
use krc721_protocol.Prelude.{
  ℕ, Option, none, some, List, [], ◌∷◌, u64_max, if◌then◌else◌, reverse, filter_by,
}
use krc721_protocol.Partition.{Partition, get, range_from, Key}
use krc721_protocol.Model.{Tick, ScriptPublicKey, CheckedOperation, DeployInfoWithCommon, tick_min}
use krc721_protocol.Keys.{
  number_key, deployment_key_instance, ownership_key_instance, ownership_history_key_instance,
  address_holding_key_instance, listing_by_tick_key_instance, address_holding_key_words,
  DeploymentKey, ListingByTickKey, ownership_history_key, address_holding_key,
}
use krc721_protocol.Db.{Db}
use krc721_protocol.View.Answers.{Answer, done}
use krc721_protocol.View.Pages.{
  Direction, forward, backward, IteratorArgs, process_iter, range_to, range_before,
}
use krc721_protocol.View.Entries.{
  Collection, Ownership, TokenHistoryRecord, NftLookupEntry, ListingEntry, collection_entry,
  ownership_entry, history_entry, nft_entry, listing_entry, is_compatible, tick_max,
}

-- A page of a view before the accessor closes it: the entries but the last, and the last.
abbrev pub SplitLast {ℓ} : Type ℓ → Type ℓ
SplitLast A = Answer (Option (List A × A))

-- The range of words between two ends, both included, in one of two directions.
abbrev pub between {ℓ κ} :
    {K : Type ℓ} {V : Type κ} ⦃key : Key K⦄ → List ℕ → List ℕ → Partition K V → Partition K V
between start end m = range_to end (range_from start m)

-- The deployments from an offset on whose collection is not restricted.
unfoldable pub deployments_in :
    IteratorArgs ℕ → List String → Db → Partition DeploymentKey DeployInfoWithCommon
deployments_in args restricted db =
    filter_by (λ e. is_compatible restricted e.1)
      (elim args.direction [
        | forward ↦ range_from (args.offset ∷ tick_min ∷ []) db.collection_deployments
        | backward ↦ reverse (range_to (args.offset ∷ tick_max ∷ []) db.collection_deployments)
      ])

unfoldable pub krc721_collection_list : IteratorArgs ℕ → List String → Db → SplitLast Collection
krc721_collection_list args restricted db =
    process_iter (deployments_in args restricted db) args.limit (collection_entry db)

unfoldable pub krc721_deployment_list :
    IteratorArgs ℕ → List String → Db → SplitLast (ℕ × DeployInfoWithCommon)
krc721_deployment_list args restricted db =
    process_iter (deployments_in args restricted db) args.limit (λ e. done (e.0.score, e.1))

-- The entries of a collection that is registered and not restricted, or nothing.
abbrev pub if_open {ℓ} : {A : Type ℓ} → Tick → List String → Db → SplitLast A → SplitLast A
if_open tick restricted db answer = elim (get tick db.collection_registry) [
  | none ↦ done none
  | some d ↦ if is_compatible restricted d.info then answer else done none
]

unfoldable pub krc721_token_list : Tick → IteratorArgs ℕ → List String → Db → SplitLast Ownership
krc721_token_list tick args restricted db = if_open tick restricted db (
    process_iter
      (elim args.direction [
        | forward ↦ between (tick ∷ args.offset ∷ []) (tick ∷ u64_max ∷ []) db.current_ownership
        | backward ↦
            reverse (between (tick ∷ 0 ∷ []) (tick ∷ args.offset ∷ []) db.current_ownership)
      ])
      args.limit (ownership_entry tick db))

-- The newest change of owner has the least key.
unfoldable pub krc721_token_history_list :
    Tick → ℕ → IteratorArgs ℕ → List String → Db → SplitLast TokenHistoryRecord
krc721_token_history_list tick id args restricted db =
    let at = (ownership_history_key tick id args.offset).reversed_score in
    if_open tick restricted db (
      process_iter
        (elim args.direction [
          | forward ↦
              reverse (between (tick ∷ id ∷ 0 ∷ []) (tick ∷ id ∷ at ∷ []) db.ownership_history)
          | backward ↦ between (tick ∷ id ∷ at ∷ []) (tick ∷ id ∷ u64_max ∷ []) db.ownership_history
        ])
        args.limit (history_entry db))

unfoldable pub krc721_address_nft_lookup :
    Tick → ScriptPublicKey → IteratorArgs ℕ → List String → Db → SplitLast NftLookupEntry
krc721_address_nft_lookup tick spk args restricted db =
    let words : ℕ → List ℕ = λ id. address_holding_key_words (address_holding_key spk tick id) in
    if_open tick restricted db (
      process_iter
        (elim args.direction [
          | forward ↦
              range_before (words u64_max) (range_from (words args.offset) db.address_holdings)
          | backward ↦ reverse (between (words 0) (words args.offset) db.address_holdings)
        ])
        args.limit (nft_entry tick db))

-- The operations from a score on, or down from one.
abbrev pub operations_in : Direction → ℕ → Db → List (ℕ × CheckedOperation)
operations_in forward offset db = range_from (offset ∷ []) db.operation_history
operations_in backward offset db = reverse (range_to (offset ∷ []) db.operation_history)

unfoldable pub krc721_op_list : IteratorArgs ℕ → Db → SplitLast (ℕ × CheckedOperation)
krc721_op_list args db =
    process_iter (operations_in args.direction args.offset db) args.limit (λ e. done e)

-- The entries of `listings_by_tick` of a collection from a token id on, or down from one.
abbrev pub listings_in : Direction → Tick → ℕ → Db → Partition ListingByTickKey (Unit {0})
listings_in forward tick offset db =
    between (tick ∷ offset ∷ []) (tick ∷ u64_max ∷ []) db.listings_by_tick
listings_in backward tick offset db =
    reverse (between (tick ∷ 0 ∷ []) (tick ∷ offset ∷ []) db.listings_by_tick)

unfoldable pub krc721_active_listings : Tick → IteratorArgs ℕ → Db → SplitLast ListingEntry
krc721_active_listings tick args db = elim (get tick db.collection_registry) [
  | none ↦ done none
  | some d ↦
      process_iter (listings_in args.direction tick args.offset db) args.limit
        (λ e. listing_entry db e.0.tick e.0.token_id)
]

-- `TickTokenOffset`
pub record TickTokenOffset : Type 0 where
  pub tick : Tick
  pub token_id : ℕ

unfoldable pub krc721_address_listings :
    ScriptPublicKey → IteratorArgs TickTokenOffset → Db → SplitLast ListingEntry
krc721_address_listings spk args db =
    let words : Tick → ℕ → List ℕ =
      λ t id. address_holding_key_words (address_holding_key spk t id) in
    let at = words args.offset.tick args.offset.token_id in
    process_iter
      (elim args.direction [
        | forward ↦ between at (words tick_max u64_max) db.address_listings
        | backward ↦ reverse (between (words tick_min 0) at db.address_listings)
      ])
      args.limit (λ e. listing_entry db e.0.tick e.0.token_id)
