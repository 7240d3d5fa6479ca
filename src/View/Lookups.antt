-- ===== src/View/Lookups.antt =====
-- The views of nexus/src/nft_view.rs that answer at once.
use Prim.Native.String.{String}
use krc721_protocol.Prelude.{
  ℕ, ◌==◌, Option, none, some, List, [], ◌∷◌, u64_max, if◌then◌else◌, map, ltb, add_u64, sub_u64,
}
use krc721_protocol.Partition.{Partition, get, range_from}
use krc721_protocol.Model.{Tick, TransactionId, ScriptPublicKey, CheckedOperation, RoyaltyDetails}
use krc721_protocol.Keys.{
  number_key, ownership_key_instance, range_key_instance, RangeKey, ListingValue, ownership_key,
}
use krc721_protocol.Db.{Db}
use krc721_protocol.Processor.Mint.{last_fee}
use krc721_protocol.View.Pages.{range_before}
use krc721_protocol.View.Entries.{
  Collection, TokenLookupEntry, collection_of, token_listing, is_compatible, block_time_at,
  last_minted_token_seq_no_rtx,
}

unfoldable pub krc721_collection_lookup : Tick → List String → Db → Option Collection
krc721_collection_lookup tick restricted db = elim (get tick db.collection_registry) [
  | none ↦ none
  | some d ↦
      let last = last_minted_token_seq_no_rtx tick db in
      if is_compatible restricted d.info
      then some (
          collection_of d.score d.info last
            (elim last [ none ↦ none | some t ↦ block_time_at t.score db ]))
      else none
]

unfoldable pub krc721_token_lookup : Tick → ℕ → List String → Db → Option TokenLookupEntry
krc721_token_lookup tick id restricted db =
    elim (get (ownership_key tick id) db.current_ownership) [
      | none ↦ none
      | some v ↦ elim (get tick db.collection_registry) [
        | none ↦ none
        | some d ↦
            if is_compatible restricted d.info
            then some (record {
              owner = v.owner;
              mod_tx_score = v.mod_tx_score;
              listing = token_listing tick id db;
            })
            else none
      ]
    ]

unfoldable pub krc721_op_by_score : ℕ → Db → Option CheckedOperation
krc721_op_by_score score db = get score db.operation_history

-- `ScoredCheckedOperation`
pub record ScoredCheckedOperation : Type 0 where
  pub opscore : ℕ
  pub checked_operation : CheckedOperation

unfoldable pub krc721_op_by_txid : TransactionId → Db → Option ScoredCheckedOperation
krc721_op_by_txid txid db = elim (get txid db.tx_id_to_opscore) [
  | none ↦ none
  | some score ↦ elim (get score db.operation_history) [
    | none ↦ none
    | some op ↦ some (record { opscore = score; checked_operation = op })
  ]
]

-- `or_else` on the fee of the discount
abbrev pub fee_or_else : Option ℕ → Option RoyaltyDetails → Option ℕ
fee_or_else (some fee) r = some fee
fee_or_else none none = none
fee_or_else none (some r) = some r.fee

unfoldable pub krc721_royalty_fee : ScriptPublicKey → Tick → List String → Db → Option ℕ
krc721_royalty_fee spk tick restricted db = elim (get tick db.collection_registry) [
  | none ↦ none
  | some d ↦
      if is_compatible restricted d.info
      then fee_or_else (last_fee spk tick db.vip) d.info.info.royalty
      else none
]

pub record AvailableRange : Type 0 where
  pub start_token_id : ℕ
  pub size : ℕ

pub data AvailableRanges : Type 0 where
  fully_minted : AvailableRanges
  available : List AvailableRange → AvailableRanges

abbrev pub to_available_range : RangeKey × (ℕ × ℕ) → AvailableRange
to_available_range (key, (start, size)) = record { start_token_id = start; size = size }

-- The ranges of a tick, whose keys are below the last index.
abbrev pub ranges_of : Tick → Db → Partition RangeKey (ℕ × ℕ)
ranges_of tick db =
    range_before (tick ∷ u64_max ∷ []) (range_from (tick ∷ 0 ∷ []) db.available_ranges)

-- What is said of a collection whose ids have been drawn from these ranges, or from none so far.
unfoldable pub ranges_left : ℕ → ℕ → List AvailableRange → AvailableRanges
ranges_left max premint [] =
    if ltb premint max
    then available (record { start_token_id = add_u64 premint 1; size = sub_u64 max premint } ∷ [])
    else available []
ranges_left max premint (r ∷ rs) = available (r ∷ rs)

unfoldable pub krc721_available_token_id_ranges : Tick → Db → Option AvailableRanges
krc721_available_token_id_ranges tick db = elim (get tick db.collection_registry) [
  | none ↦ none
  | some d ↦
      let max = d.info.info.max in
      elim (last_minted_token_seq_no_rtx tick db) [
        | none ↦
            if max == 0
            then some fully_minted
            else some (available (record { start_token_id = 1; size = max } ∷ []))
        | some last ↦
            if last.seq_no == max
            then some fully_minted
            else some
                (ranges_left max d.info.info.premint (map to_available_range (ranges_of tick db)))
      ]
]

unfoldable pub krc721_listing_lookup : Tick → ℕ → Db → Option ListingValue
krc721_listing_lookup tick token_id db = get (ownership_key tick token_id) db.listings
