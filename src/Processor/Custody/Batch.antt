-- ===== src/Processor/Custody/Batch.antt =====
-- The custody of the tokens over the loop of `process_nft_operations` of nexus/src/processor.rs.
use krc721_protocol.Prelude.{ℕ, ◌≡◌, refl, ap, List, [], ◌∷◌, arith}
use krc721_protocol.Model.{OperationInfo, CheckedOperation}
use krc721_protocol.Db.{Db, Stats}
use krc721_protocol.Outcome.{Outcome, ok, Validation, validation_err, ◌>>=◌}
use krc721_protocol.External.{External}
use krc721_protocol.Processor.Apply.{
  ContextOperation, dispatch, record_operation, count_if, apply_operation, process_nft_operations,
}
use krc721_protocol.Processor.Custody.{Custody}
use krc721_protocol.Processor.Custody.Dispatch.{Ready, dispatch-Custody}

-- The database after an operation that its handler has processed, with the record of it.
abbrev pub recorded : ContextOperation → Validation × OperationInfo × Db → Db
recorded op r =
    record_operation op.tx_score
      (record {
        operation = record { common = op.operation.common; info = r.1 };
        error = validation_err r.0;
      })
      r.2

-- Each operation is of a collection in order by the time its turn comes.
abbrev pub AllReady : External → List ContextOperation → Db → Type 0
AllReady ext [] db = Unit
AllReady ext (op ∷ ops) db =
    Ready op.tx_score op.operation.common op.operation.info db
    × ((r : Validation × OperationInfo × Db)
        → dispatch ext op.mergeset_entropy op.tx_score op.operation.common op.operation.info db
          ≡ ok r
        → AllReady ext ops (recorded op r))

record_operation-Custody :
    (score : ℕ) (checked : CheckedOperation) (db : Db)
    → Custody db
    → Custody (record_operation score checked db)
unfolding record_operation
record_operation-Custody score checked db c = record {
  indexed = record { by_tick = c.indexed.by_tick; by_seller = c.indexed.by_seller };
  held = c.held;
  sellers_own = c.sellers_own;
}

apply_operation-eq :
    (ext : External) (op : ContextOperation) (diff : Stats) (db : Db)
    (r : Validation × OperationInfo × Db)
    → dispatch ext op.mergeset_entropy op.tx_score op.operation.common op.operation.info db ≡ ok r
    → apply_operation ext op diff db ≡ ok (count_if r.0 op.operation.common r.1 diff, recorded op r)
unfolding apply_operation
apply_operation-eq ext op diff db r e =
    ap
      (λ (o : Outcome (Validation × OperationInfo × Db)).
        o >>= (λ x. ok (count_if x.0 op.operation.common x.1 diff, recorded op x)))
      e

-- Where the custody of the tokens is in order, and each operation of a list is of a collection in
-- order by the time its turn comes, the loop over the operations returns without an error or a
-- panic and leaves the custody in order.
pub process_nft_operations-Custody :
    (ext : External) (ops : List ContextOperation) (diff : Stats) (db : Db)
    → Custody db
    → AllReady ext ops db
    → (r : Stats × Db) × (process_nft_operations ext ops diff db ≡ ok r) × Custody r.1
unfolding process_nft_operations
process_nft_operations-Custody ext [] diff db c h = ((diff, db), refl, c)
process_nft_operations-Custody ext (op ∷ ops) diff db c (ready, later) =
    let (r, e, c1) =
      dispatch-Custody ext op.mergeset_entropy op.tx_score op.operation.common db c
        op.operation.info ready in
    let (r2, rest, c2) =
      process_nft_operations-Custody ext ops (count_if r.0 op.operation.common r.1 diff)
        (recorded op r) (record_operation-Custody op.tx_score _ r.2 c1) (later r e) in
    (r2, ground (arith, apply_operation-eq ext op diff db r e, rest), c2)
