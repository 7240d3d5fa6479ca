-- ===== src/Processor/Market/Index.antt =====
-- The three tables of listings of nexus/src/processor.rs, by token, by collection and by seller:
-- when they agree, and what the writes of a listing do to that.
use krc721_protocol.Prelude.{ℕ, ◌≡◌, Option, none, some, is_some, if◌then◌else◌, arith}
use krc721_protocol.Partition.{get}
use krc721_protocol.Partition.Laws.{get-insert, get-remove}
use krc721_protocol.Model.{Tick, ScriptPublicKey, spk_eq}
use krc721_protocol.Keys.{
  ownership_key_instance, listing_by_tick_key_instance, address_holding_key_instance, ownership_key,
  listing_by_tick_key, address_holding_key, ownership_key-eq, listing_by_tick_key-eq,
  address_holding_key-eq, ListingValue,
}
use krc721_protocol.Db.{Db}
use krc721_protocol.Processor.Transfer.{change_owner}
use krc721_protocol.Processor.Market.{put_listing, drop_listing}

abbrev pub listing : Tick → ℕ → Db → Option ListingValue
listing t id db = get (ownership_key t id) db.listings

-- What the table by seller holds for a token, as the listing of the token has it.
abbrev pub seller_entry : ScriptPublicKey → Option ListingValue → Option ℕ
seller_entry spk none = none
seller_entry spk (some l) = if spk_eq spk l.seller then some l.op_score else none

-- The two other tables hold what the listings say, and nothing else.
pub record Indexed (db : Db) : Type 0 where
  pub by_tick :
      (t : Tick) (id : ℕ)
      → is_some (get (listing_by_tick_key t id) db.listings_by_tick) ≡ is_some (listing t id db)
  pub by_seller :
      (spk : ScriptPublicKey) (t : Tick) (id : ℕ)
      → get (address_holding_key spk t id) db.address_listings ≡ seller_entry spk (listing t id db)

ruleset reads =
    (get-insert, get-remove, ownership_key-eq, listing_by_tick_key-eq, address_holding_key-eq)

module _ (t : Tick) (id : ℕ) (db : Db) where
  -- A listing of a token that is not listed keeps the tables in agreement.
  pub put_listing-Indexed :
      (l : ListingValue) → listing t id db ≡ none → Indexed db → Indexed (put_listing t id l db)
  unfolding put_listing
  put_listing-Indexed l free ix = record {
    by_tick = λ u j. simp reads (ground (arith, ix.by_tick u j));
    by_seller = λ spk u j. simp reads (ground (arith, ix.by_seller spk u j));
  }

  -- So does taking the listing of a token back.
  pub drop_listing-Indexed :
      (l : ListingValue)
      → listing t id db ≡ some l
      → Indexed db
      → Indexed (drop_listing t id l.seller db)
  unfolding drop_listing
  drop_listing-Indexed l e ix = record {
    by_tick = λ u j. simp reads (ground (arith, ix.by_tick u j));
    by_seller = λ spk u j. simp reads (ground (arith, ix.by_seller spk u j));
  }

  -- The writes of a change of owner are no writes of listings.
  pub change_owner-Indexed :
      (score : ℕ) (from to : ScriptPublicKey)
      → Indexed db
      → Indexed (change_owner t id score from to db)
  unfolding change_owner
  change_owner-Indexed score from to ix = record {
    by_tick = λ u j. ix.by_tick u j;
    by_seller = λ spk u j. ix.by_seller spk u j;
  }
