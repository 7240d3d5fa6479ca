-- ===== src/Lib.antt =====
-- The indexer of KRC-721 tokens (NFT collections inscribed on the Kaspa chain): a model of its core and
-- the theorems on it.
--
-- The program receives the changes of the chain from a node, its analyzer (nexus/src/analyzer.rs) reads
-- the inscription in the signature script of each transaction and makes an operation of it, and its
-- processor (nexus/src/processor.rs) applies the operations to a key-value database inside one
-- write transaction per change. A change first names the chain blocks that a reorganisation removed,
-- whose effects are taken back, and then the mergesets of the new chain blocks, whose operations are
-- applied in order: deploy a collection, mint, transfer, give a discount on the royalty, list a token
-- for sale, and send, which sells a listed token or takes it back.
--
-- The files, and what they model:
-- - Prelude: names of the library, Boolean tests, the 64-bit arithmetic of a release build, words.
-- - Partition: the typed partitions of database/src/database/partition.rs as sorted association
--   lists (get_wtx, insert_wtx, remove_wtx, range_wtx and the others); Laws, Order and Range have
--   what a lookup sees after each write, the order of the keys, and the removal of a range.
-- - Model: the operations, their data and their errors, from core/src/model/krc721/database.rs and
--   model.rs.
-- - Keys: the keys and values of the partitions and their encoding (partition.rs).
-- - Db: the database (database/src/database.rs) as a record of partitions, and the statistics
--   (database/src/database/stats.rs).
-- - Outcome: what a step returns: a value, an Err, or a panic. An operation that fails its validation
--   is a value, since it is recorded with its error.
-- - External: MERGE_SET_LIMIT and pay_to_script_hash_script, which the Kaspa crates define, are
--   parameters of the model.
-- - Score: the scores of transactions (nexus/src/lib.rs).
-- - Inscription: what inscriptions are made of. Codes has the fees and headers
--   (core/src/constants.rs) and an opcode as kaspa_txscript shows it; Ticks the readers of ticks
--   (core/src/model/krc721/tick.rs), with TickLaws; Listing the redeem script of a listing
--   (compute_listing_p2sh in core/src/inscriptions/krc721.rs, redeem_pubkey in its mod.rs).
-- - Analyzer: Result has AnalyzerError and the panics; Windows window_find; Headers the header tests;
--   Parse parse_script; Envelope validate_redeem_envelope and its parts; Source ContextTransaction and
--   its ITransaction methods; Arms the six branches of detect_krc721, and Detect the rest of it, with
--   detect_krc20. Deploys and Emits are about the branches, Opened about an inscription
--   that is read up to its sender, Scoped, Reveals, NoPanic, Faults, Panics and Second about the whole, Redeem about the script of a listing, and Handoff about what the processor gets.
-- - TokenId: the draw of random ids and its rollback (nexus/src/processor/token_id.rs). Its children
--   read the two partitions of ranges as slots and as the set of ids that are left.
-- - Processor.Mint, Transfer, Discount, Market: process_deployment, process_mint, process_transfer,
--   process_discount, process_list and process_send. Custody is
--   the agreement of holdings, owners and listings that they are held to.
-- - Processor.Apply: process_nft_operations and process_additions.
-- - Processor.Reorg: the removals (Blocks, Operations), and the ownership that is rebuilt after them
--   (Ownership). Lowest, Removed, Listings, Relisted and Undone compare the database before and after.
-- - Processor.Chain: process_removal, the two phases of process_chain_changes, its commit, and the
--   queue of historical changes; Additions and Removals are about what the phases do to the queue, and
--   Queue about the order of its entries.
-- - View: the read side. Answers has what a view returns, Pages process_iter with the collector of
--   nexus/src/utils.rs and to_paginated, Entries the closures that make an entry, Lists the paged views of
--   nexus/src/nft_view.rs, Nfts the list of the tokens of an address, Lookups the views that answer at
--   once, and Requests the paged requests of nexus/src/accessor.rs. Ranges, Follow and Operations are about
--   a reader of pages; Available, Quotes, Listings and Holdings compare a view with what the processor
--   keeps.
-- - Tests, TokenId.Tests: the theorems at concrete inputs. Tests.Scripts is a reader and a builder of
--   scripts, and Tests.Utf8 and Tests.Texts are UTF-8 and the letters of ASCII, that keep what is asked of
--   those of the crates and of the standard library.
--
-- How the state corresponds: a write transaction is the record Db that it would commit, so each method
-- with a &mut WriteTransaction is a function from Db to Db, or to an Outcome where it can fail. A method
-- that returns Result<Result<(), CtxValidationError>> returns a Validation and the database. What an Err
-- or a panic leaves in a transaction is never committed, so a failing step has no state.
--
-- Numbers: a u64 is a natural number, and its operations wrap at 2^64 as in a release build. The loops
-- of the processor run over a list or a count that is fixed before them, so they need no fuel; the rounds
-- of process_queue_application are the length of its range of keys. parse_script runs on the length of
-- the script as its fuel, since each opcode takes a byte at least. A u64 has at most twenty digits,
-- which is the fuel of decimal_digits. Theorems on collections assume a
-- maximum below u64::MAX, which the 64-bit sum of a range's start and its size needs.
--
-- Not modelled: errors of the storage engine and of channels, the threads, the metrics and test
-- channels, logging, the types and transports of the HTTP and RPC interfaces, the demonstration
-- wallets of core/src/inscriptions. The opcodes and the builder of kaspa_txscript, the addresses of
-- kaspa_addresses, serde's reader of JSON and the Unicode tables of the standard library are parameters,
-- with what is asked of them in ScriptLaws (Analyzer.Redeem), Consumes (Analyzer.Parse) and UnicodeLaws
-- (Inscription.TickLaws), which speak of pushes of two bytes or more and of texts of Unicode scalar values
-- only. A key is a list of words, one for each fixed-width field and one for each byte of
-- a script. Among keys that begin with scripts of different lengths, one of which begins the other, the
-- order of the model is not that of the bytes.
pub mod Analyzer
pub mod Db
pub mod External
pub mod Inscription
pub mod Keys
pub mod Model
pub mod Outcome
pub mod Partition
pub mod Prelude
pub mod Processor
pub mod Score
pub mod Tests
pub mod TokenId
pub mod View
