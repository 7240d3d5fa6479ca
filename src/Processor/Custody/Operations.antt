-- ===== src/Processor/Custody/Operations.antt =====
-- The custody of the tokens over the transfers, listings and sends of nexus/src/processor.rs.
use mathlib.Core.Path.{subst}
use krc721_protocol.Prelude.{ℕ, ◌≡◌, ◌≢◌, inl, inr, refl, sym, ap, ◌∙◌, some, Option-cases}
use krc721_protocol.Model.{ListingInfo, SendInfo, OperationCommon, TransferInfo}
use krc721_protocol.Keys.{ListingValue, spk_eq_refl}
use krc721_protocol.Db.{Db}
use krc721_protocol.Outcome.{Validation, accepted, rejected}
use krc721_protocol.External.{External}
use krc721_protocol.Processor.Transfer.{process_transfer}
use krc721_protocol.Processor.Transfer.Laws.{transferred, allowed, process_transfer-rejected}
use krc721_protocol.Processor.Market.{drop_listing, listing_value, process_list, process_send}
use krc721_protocol.Processor.Market.Index.{listing}
use krc721_protocol.Processor.Market.Conditions.{
  sold, may_list, may_send, listed, sent, process_list-rejected, process_send-rejected,
}
use krc721_protocol.Processor.Custody.{
  owns, Custody, change_owner-Custody, put_listing-Custody, drop_listing-Custody, sale-Custody,
}

-- What holds of the two outcomes of a validated operation holds of its result.
pub either_way :
    (P : Db → Type 0) (r : Validation × Db) (db : Db)
    → P db
    → (r.0 ≡ accepted → P r.1)
    → (r.0 ≢ accepted → r.1 ≡ db)
    → P r.1
either_way P (accepted, db1) db p changed same = changed refl
either_way P (rejected e, db1) db p changed same = subst P (sym (same (λ h. cc))) p

module _ (score : ℕ) (common : OperationCommon) (db : Db) (c : Custody db) where
  -- A transfer keeps the custody of the tokens, accepted or not.
  pub process_transfer-Custody :
      (info : TransferInfo) → Custody (process_transfer score common info db).1
  process_transfer-Custody info =
      either_way Custody (process_transfer score common info db) db c
        (λ h.
          let m = allowed score common info db h in
          subst (λ (r : Validation × Db). Custody r.1) (sym (transferred score common info db m))
            (change_owner-Custody common.tick info.token_id score common.sender info.to db
              (ap (owns common.sender) m.1 ∙ spk_eq_refl common.sender) m.2 c))
        (process_transfer-rejected score common info db)

  -- So does a listing.
  pub process_list-Custody :
      (ext : External) (info : ListingInfo) → Custody (process_list ext score common info db).1
  process_list-Custody ext info =
      either_way Custody (process_list ext score common info db) db c
        (λ h.
          let m = may_list ext score common info db h in
          subst (λ (r : Validation × Db). Custody r.1) (sym (listed ext score common info db m))
            (put_listing-Custody common.tick info.token_id (listing_value score common info) db
              m.unlisted (ap (owns common.sender) m.owned ∙ spk_eq_refl common.sender) c))
        (process_list-rejected ext score common info db)

  sold-Custody :
      (info : SendInfo) (l : ListingValue)
      → listing common.tick info.token_id db ≡ some l
      → Custody (drop_listing common.tick info.token_id l.seller (sold score common info l db))
  sold-Custody info l e = elim (Option-cases info.buyer) [
    | inl n ↦ rw n (drop_listing-Custody common.tick info.token_id l db e c)
    | inr (buyer, b) ↦ rw b (sale-Custody common.tick info.token_id score l buyer db e c)
  ]

  -- And so does a send, with a buyer or without one.
  pub process_send-Custody : (info : SendInfo) → Custody (process_send score common info db).1
  process_send-Custody info =
      either_way Custody (process_send score common info db) db c
        (λ h.
          let m = may_send score common info db h in
          subst (λ (r : Validation × Db). Custody r.1) (sym (sent score common info db m))
            (sold-Custody info m.0 m.1))
        (process_send-rejected score common info db)
