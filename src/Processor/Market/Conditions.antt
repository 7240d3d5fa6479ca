-- ===== src/Processor/Market/Conditions.antt =====
-- When `process_list` and `process_send` of nexus/src/processor.rs accept an operation.
use krc721_protocol.Prelude.{
  ℕ, ◌≡◌, refl, sym, ap, ◌∙◌, ◌≢◌, ◌↔◌, inl, inr, true, none, some, is_some, arith, Option-cases,
}
use krc721_protocol.Partition.{get}
use krc721_protocol.Partition.Laws.{get-remove_self}
use krc721_protocol.Model.{ScriptPublicKey, spk_eq, ListingInfo, SendInfo, OperationCommon}
use krc721_protocol.Keys.{
  number_key, ownership_key_instance, listing_by_tick_key_instance, address_holding_key_instance,
  ownership_key, ListingValue, spk_eq_sound, spk_eq_refl,
}
use krc721_protocol.Db.{Db}
use krc721_protocol.Outcome.{accepted}
use krc721_protocol.External.{External}
use krc721_protocol.Processor.Transfer.{change_owner}
use mathlib.Core.Path.{subst}
use krc721_protocol.Processor.Transfer.Laws.{Moved, change_owner-Moved}
use krc721_protocol.Processor.Market.{
  put_listing, drop_listing, listing_value, process_list, process_send,
}
use krc721_protocol.Processor.Market.Index.{listing}

-- The p2sh address is that of the script, the collection is registered, and the sender owns the
-- token, which is not listed.
pub record MayList (ext : External) (common : OperationCommon) (info : ListingInfo) (db : Db)
    : Type 0 where
  pub address : spk_eq (ext.pay_to_script_hash_script info.redeem_script) info.utxo_address ≡ true
  pub registered : is_some (get common.tick db.collection_registry) ≡ true
  pub mod_tx_score : ℕ
  pub owned :
      get (ownership_key common.tick info.token_id) db.current_ownership
      ≡ some (record { owner = common.sender; mod_tx_score = mod_tx_score })
  pub unlisted : listing common.tick info.token_id db ≡ none

module _ (ext : External) (score : ℕ) (common : OperationCommon) (info : ListingInfo)
    (db : Db) where
  pub may_list : (process_list ext score common info db).0 ≡ accepted → MayList ext common info db
  unfolding process_list
  may_list h =
      elim (Option-cases (get (ownership_key common.tick info.token_id) db.current_ownership)) [
        | inl e ↦ absurd (ground arith)
        | inr (v, e) ↦ record {
          address = ground arith;
          registered = ground arith;
          mod_tx_score = v.mod_tx_score;
          owned = ground (arith, spk_eq_sound v.owner common.sender);
          unlisted = ground arith;
        }
      ]

  pub listed :
      MayList ext common info db
      → process_list ext score common info db
        ≡ (accepted, put_listing common.tick info.token_id (listing_value score common info) db)
  unfolding process_list
  listed m = ground (arith, m.address, m.registered, m.owned, m.unlisted, spk_eq_refl common.sender)

  -- A listing is accepted exactly when the address is that of the script, the collection is
  -- registered, and the sender owns the token, which is not listed.
  pub process_list-accepted :
      ((process_list ext score common info db).0 ≡ accepted) ↔ MayList ext common info db
  process_list-accepted = (may_list, λ m. ap (λ r. r.0) (listed m))

  -- A rejected listing changes nothing.
  pub process_list-rejected :
      (process_list ext score common info db).0 ≢ accepted
      → (process_list ext score common info db).1 ≡ db
  unfolding process_list
  process_list-rejected h =
      elim (Option-cases (get (ownership_key common.tick info.token_id) db.current_ownership)) [
        | inl e ↦ ground arith
        | inr (v, e) ↦ ground arith
      ]

-- The token is listed, and the send spends the output of the listing.
abbrev pub MaySend : OperationCommon → SendInfo → Db → Type 0
MaySend common info db =
    (l : ListingValue) × (listing common.tick info.token_id db ≡ some l)
    × (l.listing_tx_id ≡ info.listing_utxo_txid)

-- What a send does with a listing of its token.
abbrev pub sold : ℕ → OperationCommon → SendInfo → ListingValue → Db → Db
sold score common info l db = elim info.buyer [
  | none ↦ db
  | some buyer ↦ change_owner common.tick info.token_id score l.seller buyer db
]

module _ (score : ℕ) (common : OperationCommon) (info : SendInfo) (db : Db) where
  pub may_send : (process_send score common info db).0 ≡ accepted → MaySend common info db
  unfolding process_send
  may_send h = elim (Option-cases (listing common.tick info.token_id db)) [
    | inl e ↦ absurd (ground arith)
    | inr (l, e) ↦ (l, e, ground arith)
  ]

  pub sent :
      (m : MaySend common info db)
      → process_send score common info db ≡ (
        accepted,
        drop_listing common.tick info.token_id m.0.seller (sold score common info m.0 db),
      )
  unfolding process_send
  sent (l, e, s) = ground arith

  -- A send is accepted exactly when the token is listed and the send spends the output of the
  -- listing.
  pub process_send-accepted :
      ((process_send score common info db).0 ≡ accepted) ↔ MaySend common info db
  process_send-accepted = (may_send, λ m. ap (λ r. r.0) (sent m))

  -- A rejected send changes nothing.
  pub process_send-rejected :
      (process_send score common info db).0 ≢ accepted → (process_send score common info db).1 ≡ db
  unfolding process_send
  process_send-rejected h = elim (Option-cases (listing common.tick info.token_id db)) [
    | inl e ↦ ground arith
    | inr (l, e) ↦ ground arith
  ]

  dropped-Moved :
      (from to : ScriptPublicKey)
      → Moved common.tick info.token_id score from to db (
          drop_listing common.tick info.token_id from
            (change_owner common.tick info.token_id score from to db))
  unfolding drop_listing
  dropped-Moved from to =
      let m = change_owner-Moved common.tick info.token_id score from to db in
      record {
        owned = m.owned;
        held = m.held;
        left = m.left;
        others_owned = m.others_owned;
        others_held = m.others_held;
      }

  dropped-listing :
      (seller : ScriptPublicKey) (db1 : Db)
      → listing common.tick info.token_id (drop_listing common.tick info.token_id seller db1) ≡ none
  unfolding drop_listing
  dropped-listing seller db1 = get-remove_self _ _

  dropped-ownership :
      (seller : ScriptPublicKey) (db1 : Db)
      → (drop_listing common.tick info.token_id seller db1).current_ownership
        ≡ db1.current_ownership
  unfolding drop_listing
  dropped-ownership seller db1 = refl

  -- An accepted send takes the listing of the token away; with a buyer it passes the token from
  -- the seller of the listing to the buyer, without one it leaves every owner as it was.
  pub process_send-Moved :
      (process_send score common info db).0 ≡ accepted
      → (listing common.tick info.token_id (process_send score common info db).1 ≡ none)
        × ((buyer : ScriptPublicKey)
            → info.buyer ≡ some buyer
            → (l : ListingValue) × (listing common.tick info.token_id db ≡ some l)
              × Moved common.tick info.token_id score l.seller buyer db
                  (process_send score common info db).1)
        × (info.buyer ≡ none
            → (process_send score common info db).1.current_ownership ≡ db.current_ownership)
  process_send-Moved h =
      let m = may_send h in
      let after : (process_send score common info db).1
          ≡ drop_listing common.tick info.token_id m.0.seller (sold score common info m.0 db) =
        ap (λ r. r.1) (sent m) in
      (
        ap (listing common.tick info.token_id) after
            ∙ dropped-listing m.0.seller (sold score common info m.0 db),
        λ buyer b. (
          m.0,
          m.1,
          subst (Moved common.tick info.token_id score m.0.seller buyer db)
              (sym (
                after
                ∙ ap (drop_listing common.tick info.token_id m.0.seller) (sold_to m.0 buyer b)))
              (dropped-Moved m.0.seller buyer),
        ),
        λ b.
            ap (λ (x : Db). x.current_ownership) after
            ∙ dropped-ownership m.0.seller (sold score common info m.0 db)
            ∙ ap (λ (x : Db). x.current_ownership) (sold_back m.0 b),
      )
    where
      sold_to :
          (l : ListingValue) (buyer : ScriptPublicKey)
          → info.buyer ≡ some buyer
          → sold score common info l db
            ≡ change_owner common.tick info.token_id score l.seller buyer db
      sold_to l buyer b = rw b refl

      sold_back : (l : ListingValue) → info.buyer ≡ none → sold score common info l db ≡ db
      sold_back l b = rw b refl
