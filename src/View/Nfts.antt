-- ===== src/View/Nfts.antt =====
-- `krc721_address_nft_list` of nexus/src/nft_view.rs: the tokens of an address over all collections,
-- with what was read last of a collection kept from one token to the next.
use Prim.Native.String.{String}
use mathlib.Core.List.{reverse}
use krc721_protocol.Prelude.{
  ℕ, ◌+◌, ◌==◌, ◌&&◌, Bool, false, not, Option, none, some, List, [], ◌∷◌, ◌++◌, length, ltb,
  if◌then◌else◌, u64_max,
}
use krc721_protocol.Partition.{get, range_from}
use krc721_protocol.Model.{Tick, TransactionId, ScriptPublicKey, Metadata, remote, tick_min}
use krc721_protocol.Keys.{
  number_key, ownership_key_instance, address_holding_key_instance, address_holding_key_words,
  AddressHoldingKey, ListingValue, address_holding_key,
}
use krc721_protocol.Db.{Db}
use krc721_protocol.View.Answers.{Answer, done, ◌>>=◌, or_fail, view_panic}
use krc721_protocol.View.Pages.{forward, backward, IteratorArgs, range_to, range_before}
use krc721_protocol.View.Entries.{token_listing, is_compatible, tick_max}
use krc721_protocol.View.Lists.{TickTokenOffset, SplitLast}

-- `TokenStatus::listed` with the transaction and the score of the listing, or `unlisted`.
pub data TokenStatus : Type 0 where
  listed : TransactionId → ℕ → TokenStatus
  unlisted : TokenStatus

abbrev pub token_status : Option ListingValue → TokenStatus
token_status (some l) = listed l.listing_tx_id l.op_score
token_status none = unlisted

pub record AddressNftInfo : Type 0 where
  pub tick : Tick
  pub tick_metadata : Metadata
  pub token_id : ℕ
  pub op_score_modified : ℕ
  pub status : TokenStatus

-- The variables of the loop: `c`, what is used of `last_tick_info`, and `last_incompatible`.
pub record Progress : Type 0 where
  pub c : List AddressNftInfo
  pub last_tick : Tick
  pub last_metadata : Metadata
  pub last_incompatible : Bool

-- `ScoredDeployInfoWithCommon::default()` has the default tick, which is `Tick::MIN`, and no URI.
abbrev pub no_progress : Progress
no_progress = record {
  c = [];
  last_tick = tick_min;
  last_metadata = remote "";
  last_incompatible = false;
}

abbrev pub push_nft : Db → AddressHoldingKey → ℕ → Progress → Progress
push_nft db key mod_tx_score p = record p {
  c =
      p.c
      ++ (record {
        tick = key.tick;
        tick_metadata = p.last_metadata;
        token_id = key.token_id;
        op_score_modified = mod_tx_score;
        status = token_status (token_listing key.tick key.token_id db);
      }
          ∷ []);
}

-- The part of `conditional_push` before its last test.
unfoldable pub conditional_push :
    Db → List String → AddressHoldingKey → ℕ → Progress → Answer Progress
conditional_push db restricted key mod_tx_score p =
    if (p.last_tick == key.tick) && not p.last_incompatible
    then done (push_nft db key mod_tx_score p)
    else if p.last_tick == key.tick
    then done p
    else or_fail view_panic (get key.tick db.collection_registry) >>= (λ depl.
      let fresh = record p {
        last_tick = depl.info.common.tick;
        last_metadata = depl.info.info.metadata;
        last_incompatible = not (is_compatible restricted depl.info);
      } in
      done (if fresh.last_incompatible then fresh else push_nft db key mod_tx_score fresh))

-- The loop over the holdings, which ends when one more than the limit is found.
unfoldable pub collect_nfts :
    Db → List String → ℕ → List (AddressHoldingKey × ℕ) → Progress → Answer Progress
collect_nfts db restricted limit [] p = done p
collect_nfts db restricted limit ((key, mod_tx_score) ∷ rest) p =
    conditional_push db restricted key mod_tx_score p >>= (λ q.
      if ltb (length q.c) (limit + 1) then collect_nfts db restricted limit rest q else done q)

-- `c.pop()`
unfoldable pub split_last {ℓ} : {A : Type ℓ} → List A → Option (List A × A)
split_last [] = none
split_last (x ∷ xs) = elim (split_last xs) [
  | none ↦ some ([], x)
  | some (init, last) ↦ some (x ∷ init, last)
]

-- The holdings of an address from an offset on, or down from one.
abbrev pub holdings_in :
    ScriptPublicKey → IteratorArgs TickTokenOffset → Db → List (AddressHoldingKey × ℕ)
holdings_in spk args db =
    let words : Tick → ℕ → List ℕ =
      λ t id. address_holding_key_words (address_holding_key spk t id) in
    let at = words args.offset.tick args.offset.token_id in
    elim args.direction [
      | forward ↦ range_before (words tick_max u64_max) (range_from at db.address_holdings)
      | backward ↦ reverse (range_to at (range_from (words tick_min 0) db.address_holdings))
    ]

unfoldable pub krc721_address_nft_list :
    ScriptPublicKey → IteratorArgs TickTokenOffset → List String → Db → SplitLast AddressNftInfo
krc721_address_nft_list spk args restricted db =
    collect_nfts db restricted args.limit (holdings_in spk args db) no_progress
    >>= (λ p. done (split_last p.c))
