-- ===== src/Processor/Mint/Supply.antt =====
-- The supply of a collection over `process_mint` of nexus/src/processor.rs: the ids that are left,
-- the mints so far and the maximum.
use krc721_protocol.Prelude.{
  words_lt, ℕ, ◌+◌, ◌-◌, ◌≤◌, ◌<◌, ◌≡◌, refl, ap, ◌∙◌, ◌≢◌, true, false, none, some, ◌==◌, arith,
  u64_max, add_u64, add_u64-lt, get_or,
}
use krc721_protocol.Partition.{Partition, get, key_lt, insert}
use krc721_protocol.Partition.Laws.{get-insert_self, get-insert_ne}
use krc721_protocol.Partition.Order.{All, All-map, All-insert, first_where-insert}
use krc721_protocol.Model.{
  Tick, DeployInfo, MintInfo, OperationCommon, CtxValidationError, tick_not_found,
}
use krc721_protocol.Keys.{
  number_key, mint_history_key_instance, ownership_key_instance, address_holding_key_instance,
  MintHistoryKey, mint_history_key, ownership_key, ScoredDeployInfoWithCommon, OwnershipKey,
}
use krc721_protocol.Db.{Db}
use krc721_protocol.Outcome.{ok, accepted, rejected}
use krc721_protocol.TokenId.{generate_token_id}
use krc721_protocol.TokenId.Frame.{Outside, generate_token_id-Outside}
use krc721_protocol.TokenId.Mass.{mass}
use krc721_protocol.TokenId.Pool.{WellFormed, Pool, pool_size, Takes}
use krc721_protocol.TokenId.Generate.{generate_token_id-Takes}
use krc721_protocol.Processor.Mint.{
  last_minted_token_seq_no, last_mint, assign_token_id, mint_error, record_mint, process_mint,
}
use krc721_protocol.Processor.Transfer.Laws.{owner}

-- The entry is no newer than the mint with a sequence number.
abbrev pub NoNewer : Tick → ℕ → MintHistoryKey → Type 0
NoNewer t seq k = (k.tick == t) ≡ true → u64_max - seq ≤ k.reversed_seq

-- The history of the mints of a tick after a mint with the next sequence number.
module _ (t : Tick) (seq id score : ℕ) (m : Partition MintHistoryKey (Unit {0}))
    (small : seq < u64_max) (h : All (NoNewer t seq) m) where
  next_below :
      All (λ k. (k.tick == t) ≡ true → key_lt (mint_history_key t (seq + 1) id score) k ≡ true) m
  unfolding words_lt
  next_below = All-map _ _ m (λ k older same. ground (arith, older same)) h

  pub last_minted-insert :
      last_minted_token_seq_no t (insert (mint_history_key t (seq + 1) id score) tt m)
      ≡ some (seq + 1)
  unfolding last_minted_token_seq_no
  last_minted-insert = ground (
    arith,
    first_where-insert (λ (k : MintHistoryKey). k.tick == t) (mint_history_key t (seq + 1) id score)
        tt m (ground arith) next_below,
  )

  pub minted-NoNewer :
      All (NoNewer t (seq + 1)) (insert (mint_history_key t (seq + 1) id score) tt m)
  minted-NoNewer =
      All-insert (NoNewer t (seq + 1)) (mint_history_key t (seq + 1) id score) tt m
        (λ same. ground arith)
        (All-map (NoNewer t seq) (NoNewer t (seq + 1)) m
          (λ k older same. ground (arith, older same)) h)

-- A collection after its premint: the ids that can be drawn and the mints so far add up to its
-- maximum, and no id that can be drawn has an owner.
pub record Supply (t : Tick) (info : DeployInfo) (db : Db) : Type 0 where
  pub history : All (NoNewer t (last_mint t db)) db.mint_history
  pub premint_done : info.premint ≤ last_mint t db
  pub ids : WellFormed t info.max info.premint db
  pub balance : pool_size t info.max info.premint db + last_mint t db ≡ info.max
  pub unowned : (id : ℕ) → Pool t info.max info.premint db id → owner t id db ≡ none

-- What a mint that is accepted does.
pub record Minted (common : OperationCommon) (info : DeployInfo) (mint : MintInfo) (score : ℕ)
    (db : Db) (id : ℕ) (db' : Db) : Type 0 where
  pub takes : Takes common.tick info.max info.premint db id db'
  pub owned : owner common.tick id db' ≡ some (record { owner = mint.to; mod_tx_score = score })
  pub counted : last_mint common.tick db' ≡ last_mint common.tick db + 1
  pub supply : Supply common.tick info db'
  pub recorded :
      (db1 : Db) × Outside db db1
      × (db' ≡ record_mint common.tick id (last_mint common.tick db + 1) score mint.to db1)

-- A mint that no test rejects has a sequence number up to the maximum.
mint_error-bound :
    (info : DeployInfo) (common : OperationCommon) (mint : MintInfo) (db : Db)
    → info.max < u64_max
    → last_mint common.tick db ≤ info.max
    → mint_error info common mint false db ≡ none
    → last_mint common.tick db + 1 ≤ info.max
unfolding mint_error
mint_error-bound info common mint db small low h =
    ground (arith, add_u64-lt (last_mint common.tick db) 1)

pool-left :
    (t : Tick) (max premint : ℕ) (db : Db)
    → 0 < pool_size t max premint db
    → get t db.range_lengths ≢ some 0
unfolding mass
pool-left t max premint db h e = ground (arith, e)

module _ (common : OperationCommon) (info : DeployInfo) (mint : MintInfo) (score : ℕ) (db db1 : Db)
    (id : ℕ) where
  minted :
      info.max < u64_max
      → last_mint common.tick db + 1 ≤ info.max
      → Supply common.tick info db
      → Outside db db1
      → Takes common.tick info.max info.premint db id db1
      → Minted common info mint score db id
          (record_mint common.tick id (last_mint common.tick db + 1) score mint.to db1)
  unfolding record_mint
  minted small room s out takes =
      let history : db1.mint_history ≡ db.mint_history = ap (λ (x : Db). x.mint_history) out in
      let ownership : db1.current_ownership ≡ db.current_ownership =
        ap (λ (x : Db). x.current_ownership) out in
      let older : All (NoNewer common.tick (last_mint common.tick db)) db1.mint_history =
        rw history s.history in
      let counted : last_mint common.tick
            (record_mint common.tick id (last_mint common.tick db + 1) score mint.to db1)
          ≡ last_mint common.tick db + 1 =
        ap (λ o. get_or o 0)
          (last_minted-insert common.tick (last_mint common.tick db) id score db1.mint_history
            (omega arith) older) in
      let formed : WellFormed common.tick info.max info.premint
          (record_mint common.tick id (last_mint common.tick db + 1) score mint.to db1) =
        record { ranges = takes.well_formed.ranges; mass_bound = takes.well_formed.mass_bound } in
      record {
        takes = record {
          was_available = takes.was_available;
          others_stay = takes.others_stay;
          one_less = takes.one_less;
          well_formed = formed;
        };
        owned = get-insert_self _ _ _;
        counted = counted;
        recorded = (db1, out, refl);
        supply = record {
          history = rw counted (
              minted-NoNewer common.tick (last_mint common.tick db) id score db1.mint_history
                (omega arith) older);
          premint_done = omega (arith, counted, s.premint_done);
          ids = formed;
          balance = omega (arith, counted, s.balance, takes.one_less);
          unowned = λ j free.
              let (was_free, other) = (takes.others_stay j).0 free in
              get-insert_ne (ownership_key common.tick id) (ownership_key common.tick j)
                (record { owner = mint.to; mod_tx_score = score }) db1.current_ownership
                (λ e. other (ap (λ (k : OwnershipKey). k.token_id) e))
              ∙ ap (get (ownership_key common.tick j)) ownership
              ∙ s.unowned j was_free;
        };
      }

module _ (entropy score : ℕ) (common : OperationCommon) (mint : MintInfo) (db : Db)
    (dep : ScoredDeployInfoWithCommon)
    (registered : get common.tick db.collection_registry ≡ some dep) where
  process_mint-eq :
      (id : ℕ) (db1 : Db)
      → mint_error dep.info.info common mint false db ≡ none
      → add_u64 (last_mint common.tick db) 1 ≡ last_mint common.tick db + 1
      → assign_token_id dep.info.info entropy common.tick db ≡ ok (id, db1)
      → process_mint entropy score common mint false db
        ≡ ok (
          accepted,
          record mint { token_id = id },
          record_mint common.tick id (last_mint common.tick db + 1) score mint.to db1,
        )
  unfolding process_mint
  process_mint-eq id db1 valid plain assigned = ground (arith, registered, valid, plain, assigned)

  assign_token_id-eq :
      dep.info.info.premint ≤ last_mint common.tick db
      → dep.info.info.premint < dep.info.info.max
      → assign_token_id dep.info.info entropy common.tick db
        ≡ generate_token_id common.tick entropy dep.info.info.max dep.info.info.premint db
  unfolding assign_token_id
  assign_token_id-eq done below = ground arith

  -- In a registered collection with a maximum below u64::MAX, whose premint is done and whose
  -- supply is in balance, a mint that no test rejects is accepted without a panic: it draws an id
  -- that no one owns out of those left, gives it to the receiver, counts it, writes only the
  -- records of the mint and the ranges, and keeps the ids left and the mints so far adding up to
  -- the maximum.
  pub process_mint-Minted :
      dep.info.info.max < u64_max
      → Supply common.tick dep.info.info db
      → mint_error dep.info.info common mint false db ≡ none
      → (id : ℕ) × (db' : Db) × (process_mint entropy score common mint false db
          ≡ ok (accepted, record mint { token_id = id }, db'))
        × Minted common dep.info.info mint score db id db'
  process_mint-Minted small s valid =
      let info = dep.info.info in
      let room = mint_error-bound info common mint db small (omega (arith, s.balance)) valid in
      let some_left = pool-left common.tick info.max info.premint db (omega (arith, s.balance)) in
      let below : info.premint < info.max = omega (arith, s.premint_done) in
      let (id, db1, drawn, takes) =
        generate_token_id-Takes common.tick entropy info.max info.premint db small below s.ids
          some_left in
      (
        id,
        record_mint common.tick id (last_mint common.tick db + 1) score mint.to db1,
        process_mint-eq id db1 valid (add_u64-lt (last_mint common.tick db) 1 (omega arith))
            (assign_token_id-eq s.premint_done below ∙ drawn),
        minted common info mint score db db1 id small room s
            (generate_token_id-Outside common.tick entropy info.max info.premint db id db1 drawn)
            takes,
      )

  -- A mint that a test rejects changes nothing.
  pub process_mint-rejected :
      (e : CtxValidationError)
      → mint_error dep.info.info common mint false db ≡ some e
      → process_mint entropy score common mint false db ≡ ok (rejected e, mint, db)
  unfolding process_mint
  process_mint-rejected e h = ground (arith, registered, h)

-- So does a mint of a collection that is not registered.
pub process_mint-unknown :
    (entropy score : ℕ) (common : OperationCommon) (mint : MintInfo) (db : Db)
    → get common.tick db.collection_registry ≡ none
    → process_mint entropy score common mint false db ≡ ok (rejected tick_not_found, mint, db)
unfolding process_mint
process_mint-unknown entropy score common mint db h = ground (arith, h)
