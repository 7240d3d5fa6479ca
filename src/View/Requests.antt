-- ===== src/View/Requests.antt =====
-- The paged requests of nexus/src/accessor.rs: the arguments are resolved, the view is asked, and
-- its answer is closed to a page. The conversion of the entries to the types of the interface, which
-- comes after that, is left out.
use Prim.Native.String.{String}
use krc721_protocol.Prelude.{ℕ, List, get_or, if◌then◌else◌, ltb, u64_max}
use krc721_protocol.Model.{Tick, ScriptPublicKey, CheckedOperation, DeployInfoWithCommon, tick_min}
use krc721_protocol.Db.{Db}
use krc721_protocol.View.{
  Answer, Pagination, RequestArgs, IteratorArgs, paginate, resolve_u64_iter_args, Collection,
  Ownership, TokenHistoryRecord, NftLookupEntry, ListingEntry, TickTokenOffset,
  krc721_collection_list, krc721_deployment_list, krc721_token_list, krc721_token_history_list,
  krc721_address_nft_lookup, krc721_op_list, krc721_active_listings, krc721_address_listings,
  krc721_address_nft_list, AddressNftInfo, forward, backward, max_iterator_limit, tick_max,
  SplitLast,
}

-- A page of a view whose offsets are numbers.
abbrev pub request {ℓ} :
    {A : Type ℓ}
    → RequestArgs ℕ
    → (A → ℕ)
    → (IteratorArgs ℕ → SplitLast A)
    → Answer (Pagination A ℕ)
request r offset_of view =
    let args = resolve_u64_iter_args r in paginate args.limit offset_of (view args)

unfoldable pub collection_list : RequestArgs ℕ → List String → Db → Answer (Pagination Collection ℕ)
collection_list r restricted db =
    request r (λ last. last.op_score_added) (λ args. krc721_collection_list args restricted db)

unfoldable pub deployment_list :
    RequestArgs ℕ → List String → Db → Answer (Pagination (ℕ × DeployInfoWithCommon) ℕ)
deployment_list r restricted db =
    request r (λ last. last.0) (λ args. krc721_deployment_list args restricted db)

unfoldable pub token_list :
    Tick → RequestArgs ℕ → List String → Db → Answer (Pagination Ownership ℕ)
token_list tick r restricted db =
    request r (λ last. last.token_id) (λ args. krc721_token_list tick args restricted db)

unfoldable pub token_history :
    Tick → ℕ → RequestArgs ℕ → List String → Db → Answer (Pagination TokenHistoryRecord ℕ)
token_history tick id r restricted db =
    request r (λ last. last.mod_tx_score)
      (λ args. krc721_token_history_list tick id args restricted db)

unfoldable pub address_nft_lookup :
    Tick → ScriptPublicKey → RequestArgs ℕ → List String → Db → Answer (Pagination NftLookupEntry ℕ)
address_nft_lookup tick spk r restricted db =
    request r (λ last. last.token_id)
      (λ args. krc721_address_nft_lookup tick spk args restricted db)

unfoldable pub op_list : RequestArgs ℕ → Db → Answer (Pagination (ℕ × CheckedOperation) ℕ)
op_list r db = request r (λ last. last.0) (λ args. krc721_op_list args db)

-- The offset of the next page is a score, though the view reads an offset as a token id.
unfoldable pub active_listings : Tick → RequestArgs ℕ → Db → Answer (Pagination ListingEntry ℕ)
active_listings tick r db =
    request r (λ last. last.op_score) (λ args. krc721_active_listings tick args db)

unfoldable pub resolve_offset_args : RequestArgs TickTokenOffset → IteratorArgs TickTokenOffset
resolve_offset_args r =
    let direction = get_or r.direction forward in
    let limit = get_or r.limit max_iterator_limit in
    record {
      offset = get_or r.offset (elim direction [
        | forward ↦ record { tick = tick_min; token_id = 0 }
        | backward ↦ record { tick = tick_max; token_id = u64_max }
      ]);
      direction = direction;
      limit = if ltb max_iterator_limit limit then max_iterator_limit else limit;
    }

unfoldable pub address_listings :
    ScriptPublicKey
    → RequestArgs TickTokenOffset
    → Db
    → Answer (Pagination ListingEntry TickTokenOffset)
address_listings spk r db =
    let args = resolve_offset_args r in
    paginate args.limit (λ last. record { tick = last.tick; token_id = last.token_id })
      (krc721_address_listings spk args db)

unfoldable pub address_nft_list :
    ScriptPublicKey
    → RequestArgs TickTokenOffset
    → List String
    → Db
    → Answer (Pagination AddressNftInfo TickTokenOffset)
address_nft_list spk r restricted db =
    let args = resolve_offset_args r in
    paginate args.limit (λ last. record { tick = last.tick; token_id = last.token_id })
      (krc721_address_nft_list spk args restricted db)
