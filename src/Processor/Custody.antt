-- ===== src/Processor/Custody.antt =====
-- Who holds what, over the operations of nexus/src/processor.rs: when the holdings of the addresses
-- agree with the owners of the tokens, and the sellers with the owners, and what the writes of the
-- operations do to that.
pub mod Operations
pub mod Minting
pub mod Dispatch
pub mod Batch
use mathlib.Core.Path.{subst}
use krc721_protocol.Prelude.{
  ℕ, ◌≡◌, refl, sym, ap, ◌∙◌, ◌≢◌, ◌↔◌, inl, inr, Bool, true, false, ◌&&◌, not, Option, none, some,
  ◌==◌, is_some, if◌then◌else◌, arith, Option-cases, Bool-cases,
}
use krc721_protocol.Partition.{get, insert, remove, key_eq}
use krc721_protocol.Partition.Laws.{
  get-insert, get-remove, key_eq_refl, key_eq-ne, get-insert_ne, get-remove_ne,
}
use krc721_protocol.Model.{
  Tick, ScriptPublicKey, spk_eq, ListingInfo, SendInfo, OperationCommon, TransferInfo,
}
use krc721_protocol.Keys.{
  ownership_key_instance, address_holding_key_instance, ownership_key, address_holding_key,
  ownership_key-eq, address_holding_key-eq, ListingValue, CurrentOwnershipValue, spk_eq_sound,
  spk_eq_refl,
}
use krc721_protocol.Db.{Db}
use krc721_protocol.Outcome.{Validation, accepted, rejected}
use krc721_protocol.External.{External}
use krc721_protocol.Processor.Transfer.{change_owner, process_transfer}
use krc721_protocol.Processor.Transfer.Laws.{owner, transferred, allowed}
use krc721_protocol.Processor.Market.{
  put_listing, drop_listing, listing_value, process_list, process_send,
}
use krc721_protocol.Processor.Market.Index.{
  listing, Indexed, put_listing-Indexed, drop_listing-Indexed, change_owner-Indexed,
}
use krc721_protocol.Processor.Market.Conditions.{
  MayList, MaySend, sold, may_list, may_send, listed, sent, process_list-rejected,
  process_send-rejected,
}

-- What the holdings of an address have for a token, as its ownership record says.
abbrev pub holder_entry : ScriptPublicKey → Option CurrentOwnershipValue → Option ℕ
holder_entry spk none = none
holder_entry spk (some v) = if spk_eq spk v.owner then some v.mod_tx_score else none

abbrev pub owns : ScriptPublicKey → Option CurrentOwnershipValue → Bool
owns spk none = false
owns spk (some v) = spk_eq v.owner spk

abbrev pub Held : Db → Type 0
Held db =
    (spk : ScriptPublicKey) (t : Tick) (id : ℕ)
    → get (address_holding_key spk t id) db.address_holdings ≡ holder_entry spk (owner t id db)

abbrev pub SellersOwn : Db → Type 0
SellersOwn db =
    (t : Tick) (id : ℕ) (l : ListingValue)
    → listing t id db ≡ some l
    → owns l.seller (owner t id db) ≡ true

pub record Custody (db : Db) : Type 0 where
  pub indexed : Indexed db
  pub held : Held db
  pub sellers_own : SellersOwn db

ruleset reads = (get-insert, get-remove, ownership_key-eq, address_holding_key-eq)

module _ (t : Tick) (id score : ℕ) (from to : ScriptPublicKey) (db : Db) where
  change_owner-Held :
      owns from (owner t id db) ≡ true → Held db → Held (change_owner t id score from to db)
  unfolding change_owner
  change_owner-Held o h spk u j = elim (Option-cases (owner t id db)) [
    | inl e ↦ absurd (ground arith)
    | inr (v, e) ↦ simp reads (ground (arith, h spk u j, spk_eq_sound v.owner from))
  ]

  change_owner-SellersOwn :
      listing t id db ≡ none → SellersOwn db → SellersOwn (change_owner t id score from to db)
  unfolding change_owner
  change_owner-SellersOwn free so u j l e = simp reads (ground (arith, so u j l e))

  pub change_owner-Custody :
      owns from (owner t id db) ≡ true
      → listing t id db ≡ none
      → Custody db
      → Custody (change_owner t id score from to db)
  change_owner-Custody o free c = record {
    indexed = change_owner-Indexed t id db score from to c.indexed;
    held = change_owner-Held o c.held;
    sellers_own = change_owner-SellersOwn free c.sellers_own;
  }

module _ (t : Tick) (id : ℕ) (l : ListingValue) (db : Db) where
  put_listing-Held : Held db → Held (put_listing t id l db)
  unfolding put_listing
  put_listing-Held h spk u j = h spk u j

  put_listing-SellersOwn :
      owns l.seller (owner t id db) ≡ true → SellersOwn db → SellersOwn (put_listing t id l db)
  unfolding put_listing
  put_listing-SellersOwn o so u j m h = ground (
    arith,
    so u j m,
    get-insert (ownership_key t id) (ownership_key u j) l db.listings,
    ownership_key-eq u t j id,
  )

  pub put_listing-Custody :
      listing t id db ≡ none
      → owns l.seller (owner t id db) ≡ true
      → Custody db
      → Custody (put_listing t id l db)
  put_listing-Custody free o c = record {
    indexed = put_listing-Indexed t id db l free c.indexed;
    held = put_listing-Held c.held;
    sellers_own = put_listing-SellersOwn o c.sellers_own;
  }

  drop_listing-Held : Held db → Held (drop_listing t id l.seller db)
  unfolding drop_listing
  drop_listing-Held h spk u j = h spk u j

  drop_listing-SellersOwn : SellersOwn db → SellersOwn (drop_listing t id l.seller db)
  unfolding drop_listing
  drop_listing-SellersOwn so u j m h = ground (
    arith,
    so u j m,
    get-remove (ownership_key t id) (ownership_key u j) db.listings,
    ownership_key-eq u t j id,
  )

  pub drop_listing-Custody :
      listing t id db ≡ some l → Custody db → Custody (drop_listing t id l.seller db)
  drop_listing-Custody e c = record {
    indexed = drop_listing-Indexed t id db l e c.indexed;
    held = drop_listing-Held c.held;
    sellers_own = drop_listing-SellersOwn c.sellers_own;
  }

module _ (t : Tick) (id score : ℕ) (l : ListingValue) (to : ScriptPublicKey) (db : Db) where
  change_owner-listing :
      listing t id db ≡ some l → listing t id (change_owner t id score l.seller to db) ≡ some l
  unfolding change_owner
  change_owner-listing e = e

  sale-SellersOwn :
      SellersOwn db
      → SellersOwn (drop_listing t id l.seller (change_owner t id score l.seller to db))
  unfolding change_owner drop_listing
  sale-SellersOwn so u j m h = simp reads (
      ground (
        arith,
        so u j m,
        get-remove (ownership_key t id) (ownership_key u j) db.listings,
        ownership_key-eq u t j id,
      ))

  -- A sale moves a listed token, and takes its listing away.
  pub sale-Custody :
      listing t id db ≡ some l
      → Custody db
      → Custody (drop_listing t id l.seller (change_owner t id score l.seller to db))
  sale-Custody e c =
      let moved = change_owner t id score l.seller to db in
      record {
        indexed =
            drop_listing-Indexed t id moved l (change_owner-listing e)
              (change_owner-Indexed t id db score l.seller to c.indexed);
        held =
            drop_listing-Held t id l moved
              (change_owner-Held t id score l.seller to db (c.sellers_own t id l e) c.held);
        sellers_own = sale-SellersOwn c.sellers_own;
      }
