-- ===== src/Processor/Reorg/Relisted.antt =====
-- The listings after a send of nexus/src/processor.rs that a reorganisation takes back.
use mathlib.Core.Path.{subst}
use krc721_protocol.Prelude.{ℕ, ◌≡◌, refl, sym, ap, ◌∙◌, none, some, arith, inl, inr, Option-cases}
use krc721_protocol.Partition.{get, remove}
use krc721_protocol.Partition.Laws.{get-insert, get-remove}
use krc721_protocol.Model.{
  Tick, ScriptPublicKey, ListingInfo, OperationCommon, CheckedOperation, SendInfo,
}
use krc721_protocol.Keys.{
  number_key, ownership_key_instance, ownership_key, ownership_key-eq, ListingValue,
}
use krc721_protocol.Db.{Db}
use krc721_protocol.Processor.Transfer.{change_owner}
use krc721_protocol.Processor.Market.{put_listing, drop_listing, process_send}
use krc721_protocol.Processor.Market.Index.{listing, Indexed}
use krc721_protocol.Processor.Market.Conditions.{MaySend, sold, sent}
use krc721_protocol.Processor.Custody.{Custody}
use krc721_protocol.Processor.Custody.Operations.{process_send-Custody}
use krc721_protocol.Processor.Reorg.Operations.{restore_listing_for_reorged_send}
use krc721_protocol.Processor.Reorg.Listings.{Survives, restored, restore-eq, restore-Indexed}

ruleset reads = (get-insert, get-remove, ownership_key-eq)

-- A send changes no history, and removes the listing of its token only.
record Sent (t : Tick) (id : ℕ) (db db1 : Db) : Type 0 where
  known : db1.tx_id_to_opscore ≡ db.tx_id_to_opscore
  history : db1.operation_history ≡ db.operation_history
  listings : db1.listings ≡ remove (ownership_key t id) db.listings

module _ (score : ℕ) (common : OperationCommon) (info : SendInfo) (db : Db) where
  dropped-Sent :
      (seller : ScriptPublicKey) (l : ListingValue)
      → Sent common.tick info.token_id db
          (drop_listing common.tick info.token_id seller (sold score common info l db))
  unfolding drop_listing change_owner
  dropped-Sent seller l = elim (Option-cases info.buyer) [
    | inl e ↦ rw e (record { known = refl; history = refl; listings = refl })
    | inr (buyer, e) ↦ rw e (record { known = refl; history = refl; listings = refl })
  ]

  send-Sent :
      MaySend common info db
      → Sent common.tick info.token_id db (process_send score common info db).1
  send-Sent m =
      subst (Sent common.tick info.token_id db) (sym (ap (λ r. r.1) (sent score common info db m)))
        (dropped-Sent m.0.seller m.0)

module _ (common : OperationCommon) (info : SendInfo) (score : ℕ) (checked : CheckedOperation)
    (l : ListingInfo) (db db1 : Db)
    (listed_before : listing common.tick info.token_id db ≡ some (restored info score checked l))
    (s : Sent common.tick info.token_id db db1) where
  put-listings :
      (u : Tick) (j : ℕ)
      → listing u j (put_listing common.tick info.token_id (restored info score checked l) db1)
        ≡ listing u j db
  unfolding put_listing
  put-listings u j = rw s.listings (simp reads (ground (arith, listed_before)))

  not_listed : listing common.tick info.token_id db1 ≡ none
  not_listed = rw s.listings (simp reads (ground arith))

  sent-Survives : Survives info score checked l db → Survives info score checked l db1
  sent-Survives v = record {
    known = ap (get info.listing_utxo_txid) s.known ∙ v.known;
    in_history = ap (get score) s.history ∙ v.in_history;
    accepted = v.accepted;
    is_list = v.is_list;
  }

-- Where the custody of the tokens is in order, and the listing of a token is that of a list
-- operation which is still in the history, was accepted and whose output a send spends: after the
-- send is processed and undone, every token is listed as before, and the tables of listings agree.
pub restore-process_send :
    (score : ℕ) (common : OperationCommon) (info : SendInfo) (list_score : ℕ)
    (checked : CheckedOperation) (l : ListingInfo) (db : Db)
    → Custody db
    → Survives info list_score checked l db
    → listing common.tick info.token_id db ≡ some (restored info list_score checked l)
    → ((u : Tick) (j : ℕ)
        → listing u j
            (restore_listing_for_reorged_send common info (process_send score common info db).1)
          ≡ listing u j db)
      × Indexed (restore_listing_for_reorged_send common info (process_send score common info db).1)
restore-process_send score common info list_score checked l db c v e =
    let db1 = (process_send score common info db).1 in
    let s = send-Sent score common info db (restored info list_score checked l, e, refl) in
    let v1 = sent-Survives common info list_score checked l db db1 e s v in
    (
      λ u j.
          ap (listing u j) (restore-eq common info list_score checked l db1 v1)
          ∙ put-listings common info list_score checked l db db1 e s u j,
      (restore-Indexed common info list_score checked l db1 v1
          (not_listed common info list_score checked l db db1 e s)
          (process_send-Custody score common db c info).indexed).1,
    )
