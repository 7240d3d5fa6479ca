-- ===== src/Tests/Queues.antt =====
-- The queue of historical changes at a concrete input: one entry, and a change to put behind it.
use krc721_protocol.Prelude.{◌≡◌, ◌↔◌, none, [], ◌∷◌, arith}
use krc721_protocol.Model.{VirtualChainChanges}
use krc721_protocol.Db.{Db}
use krc721_protocol.Outcome.{ok}
use krc721_protocol.Processor.Chain.{process_queue, process_queue_application_wtx}
use krc721_protocol.Processor.Chain.Queue.{Holds, empty, entry, Applied, process_queue-refines}
use krc721_protocol.Tests.{ext, base_db}

-- Changes that remove nothing, and changes that force a rollback.
abbrev idle : VirtualChainChanges
idle = record { removed_chain_block_hashes = []; forced_rollback_blue_score = none; mergesets = [] }

abbrev removal : VirtualChainChanges
removal = record idle { removed_chain_block_hashes = 99 ∷ [] }

abbrev queued_db : Db
queued_db = record base_db { notification_queue = (1, idle) ∷ [] }

queued_db-Holds : Holds 1 (idle ∷ []) queued_db.notification_queue
queued_db-Holds = entry 1 idle [] [] (empty 2)

process_queue-refines_example :
    Holds 1 (idle ∷ removal ∷ []) (process_queue removal queued_db).notification_queue
    × ((process_queue_application_wtx ext queued_db ≡ ok base_db)
        ↔ Applied ext (idle ∷ []) queued_db base_db)
process_queue-refines_example =
    process_queue-refines ext removal (idle ∷ []) queued_db base_db (omega arith) queued_db-Holds
