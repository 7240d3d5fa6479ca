-- ===== src/Tests/Views.antt =====
-- The views and their pages at concrete inputs.
use Prim.Native.String.{String}
use krc721_protocol.Prelude.{
  ℕ, ◌≡◌, refl, none, some, List, [], ◌∷◌, arith, words_lt, words_eq, length, ◌<◌,
}
use krc721_protocol.Partition.{get, range_from, insert}
use krc721_protocol.Partition.Order.{Sorted}
use krc721_protocol.Model.{has_incompatible_uri_prefix}
use krc721_protocol.Keys.{number_key, range_key_instance, range_key}
use krc721_protocol.Db.{Db}
use krc721_protocol.Processor.Mint.{record_mint, last_minted_token_seq_no}
use krc721_protocol.Processor.Mint.Supply.{Supply}
use krc721_protocol.Processor.Market.{put_listing}
use krc721_protocol.Processor.Market.Index.{Indexed, put_listing-Indexed}
use krc721_protocol.TokenId.Mass.{mass}
use krc721_protocol.View.{
  done, forward, backward, IteratorArgs, TickTokenOffset, RequestArgs, range_before, range_to,
  last_minted_token_seq_no_rtx, krc721_active_listings, resolve_u64_iter_args, process_iter,
  collect_loop, to_paginated, listing_entry, holdings_in, split_last, take,
  krc721_available_token_id_ranges, krc721_address_nft_list,
}
use krc721_protocol.View.Requests.{op_list, active_listings}
use krc721_protocol.View.Follow.{follow}
use krc721_protocol.View.Operations.{asking, operations_from, op_list-follow}
use krc721_protocol.View.Available.{LeftOf, krc721_available_token_id_ranges-LeftOf}
use krc721_protocol.View.Quotes.{Quoted, krc721_royalty_fee-Quoted}
use krc721_protocol.View.Listings.{Page, active_listings-Page}
use krc721_protocol.View.Holdings.{Registered, nfts_of, krc721_address_nft_list-nfts_of}
use krc721_protocol.Tests.{
  alice, bob, base_db, owned_db, owned-Custody, listed_db, listing_by, listing_operation, entry,
  collection,
}

-- Three operations.
abbrev busy_db : Db
busy_db = record base_db {
  operation_history =
      (100, listing_operation) ∷ (200, listing_operation) ∷ (300, listing_operation) ∷ [];
}

busy-Sorted : Sorted busy_db.operation_history
unfolding words_lt
busy-Sorted = ((refl, (refl, tt)), ((refl, tt), (tt, tt)))

three_fit : length (operations_from backward busy_db none) < 4
unfolding range_to words_lt
three_fit = omega arith

op_list-follow_example :
    follow (λ o. op_list (asking backward 1 o) busy_db) 4 none
    ≡ done (operations_from backward busy_db none)
op_list-follow_example =
    op_list-follow backward 1 busy_db busy-Sorted 4 none (omega arith) three_fit

-- Token 1 is minted, and the nine others are one range.
abbrev started_db : Db
started_db = record owned_db {
  available_ranges = (range_key 7 0, (2, 9)) ∷ [];
  range_lengths = (7, 1) ∷ [];
}

started-Supply : Supply 7 (collection 0) started_db
unfolding get last_minted_token_seq_no mass record_mint insert words_eq
started-Supply = record {
  history = ((λ h. omega arith), tt);
  premint_done = omega arith;
  ids = record {
    ranges = record {
      filled = λ i h. ground (arith, h);
      bounds = λ i s z h. ground (arith, h);
      disjoint = λ i j s z s' z' h h' ne. ground (arith, h, h', ne);
    };
    mass_bound = omega arith;
  };
  balance = refl;
  unowned = λ id (i, s, z, e, lo, hi). ground (arith, e, lo, hi);
}

krc721_available_token_id_ranges-LeftOf_example :
    LeftOf 7 10 0 started_db (krc721_available_token_id_ranges 7 started_db)
unfolding get record_mint words_eq last_minted_token_seq_no_rtx insert
krc721_available_token_id_ranges-LeftOf_example =
    krc721_available_token_id_ranges-LeftOf 7 (entry 0) started_db refl (omega arith) started-Supply
      (tt, tt) (λ e. absurd (cc))

abbrev protocols : List String
protocols = "ipfs://" ∷ []

krc721_royalty_fee-Quoted_example :
    Quoted bob 7 protocols (record { beneficiary = alice; fee = 100 }) base_db
unfolding get has_incompatible_uri_prefix words_eq
krc721_royalty_fee-Quoted_example =
    krc721_royalty_fee-Quoted bob 7 protocols (entry 0) (record { beneficiary = alice; fee = 100 })
      base_db refl refl refl

listed-Indexed : Indexed listed_db
unfolding get record_mint
listed-Indexed = put_listing-Indexed 7 1 owned_db (listing_by alice 100) refl owned-Custody.indexed

abbrev plain : RequestArgs ℕ
plain = record { offset = none; direction = none; limit = none }

active_listings-Page_example : Page listed_db (active_listings 7 plain listed_db)
active_listings-Page_example = active_listings-Page 7 plain listed_db listed-Indexed

abbrev all_nfts : IteratorArgs TickTokenOffset
all_nfts = record { offset = record { tick = 0; token_id = 0 }; direction = forward; limit = 10 }

owned-Registered : Registered owned_db (holdings_in alice all_nfts owned_db)
unfolding get record_mint insert range_from range_before words_lt words_eq
owned-Registered = (((λ e. absurd (omega (arith, e))), entry 0, refl, refl), tt)

krc721_address_nft_list-nfts_of_example :
    krc721_address_nft_list alice all_nfts protocols owned_db
    ≡ done (split_last (take 11 (nfts_of owned_db protocols (holdings_in alice all_nfts owned_db))))
krc721_address_nft_list-nfts_of_example =
    krc721_address_nft_list-nfts_of alice all_nfts protocols owned_db owned-Registered

-- Two tokens are listed, with scores above their ids: a reader who follows the offsets of the pages
-- sees the first of them only.
abbrev two_listed : Db
two_listed = put_listing 7 2 (listing_by bob 200) (put_listing 7 1 (listing_by alice 100) base_db)

active_listings-follow_skips :
    follow
      (λ o. active_listings 7 (record { offset = o; direction = none; limit = some 1 }) two_listed)
      5
      none
    ≡ done (
        record {
          tick = 7;
          token_id = 1;
          seller = alice;
          listing_tx_id = 40;
          redeem_script = 9 ∷ [];
          op_score = 100;
        }
        ∷ [])
unfolding follow active_listings krc721_active_listings resolve_u64_iter_args process_iter
    collect_loop to_paginated listing_entry put_listing insert get range_from range_to words_lt
    words_eq
active_listings-follow_skips = refl
