-- ===== src/Processor/Mint/Premint.antt =====
-- The premint of `process_deployment` of nexus/src/processor.rs, and the supply that it starts
-- from.
use mathlib.Core.Path.{subst}
use krc721_protocol.Prelude.{
  ℕ, zero, suc, ◌+◌, ◌≤◌, ◌<◌, ◌≡◌, refl, ap, ◌∙◌, true, false, leb, ltb, ◌&&◌, Bool-cases, inl,
  inr, if◌then◌else◌, Option, none, some, [], ◌∷◌, ◌==◌, arith, u64_max, add_u64-lt, get_or,
}
use krc721_protocol.Partition.{Partition, get}
use krc721_protocol.Partition.Laws.{get-insert, get-insert_self, get-insert_ne}
use krc721_protocol.Partition.Order.{All, All-map}
use krc721_protocol.Model.{Tick, DeployInfo, MintInfo, OperationCommon, tick_exists}
use krc721_protocol.Keys.{
  number_key, mint_history_key_instance, ownership_key_instance, MintHistoryKey, ownership_key,
  mint_history_key, ownership_key-eq, ScoredDeployInfoWithCommon,
}
use krc721_protocol.Db.{Db}
use krc721_protocol.Outcome.{ok, err, unexpected_kaspa_node_behaviour, accepted, rejected}
use krc721_protocol.TokenId.Slots.{slot}
use krc721_protocol.TokenId.Mass.{mass}
use krc721_protocol.TokenId.Pool.{WellFormed}
use krc721_protocol.Processor.Mint.{
  last_minted_token_seq_no, last_mint, assign_token_id, mint_error, record_mint, process_mint,
  premint_tokens, record_deployment, process_deployment,
}
use krc721_protocol.Processor.Mint.Supply.{NoNewer, Supply, last_minted-insert, minted-NoNewer}
use krc721_protocol.Processor.Transfer.Laws.{owner}

abbrev pub registered : Tick → Db → Option ScoredDeployInfoWithCommon
registered t db = get t db.collection_registry

-- The ids from 1 to `k` belong to the deployer since the score of the deployment and no other id has
-- an owner, and the mint with each of these sequence numbers is of that id.
pub record InSequence (t : Tick) (score : ℕ) (info : DeployInfo) (k : ℕ) (db : Db) : Type 0 where
  pub owners :
      (id : ℕ)
      → owner t id db ≡ (
          if ltb 0 id && leb id k
          then some (record { owner = info.deployer; mod_tx_score = score })
          else none)
  pub mints :
      (id : ℕ) → 0 < id → id ≤ k → get (mint_history_key t id id score) db.mint_history ≡ some tt

-- The first ids, up to `k`, are minted, and the collection has no ranges yet.
pub record Preminted (t : Tick) (score : ℕ) (info : DeployInfo) (dep : ScoredDeployInfoWithCommon)
    (k : ℕ) (db : Db) : Type 0 where
  pub in_registry : registered t db ≡ some dep
  pub history : All (NoNewer t k) db.mint_history
  pub minted : last_mint t db ≡ k
  pub no_ranges : get t db.range_lengths ≡ none
  pub no_slots : (i : ℕ) → slot t db i ≡ none
  pub in_sequence : InSequence t score info k db

Preminted-unowned :
    (t : Tick) (score : ℕ) (info : DeployInfo) (dep : ScoredDeployInfoWithCommon) (k : ℕ) (db : Db)
    → Preminted t score info dep k db
    → (id : ℕ) → k < id
    → owner t id db ≡ none
Preminted-unowned t score info dep k db p id h = ground (arith, p.in_sequence.owners id, h)

record_mint-InSequence :
    (t : Tick) (score k : ℕ) (info : DeployInfo) (db : Db)
    → InSequence t score info k db
    → InSequence t score info (k + 1) (record_mint t (k + 1) (k + 1) score info.deployer db)
unfolding record_mint
record_mint-InSequence t score k info db s = record {
  owners = λ id. ground (
    arith,
    get-insert (ownership_key t (k + 1)) (ownership_key t id)
        (record { owner = info.deployer; mod_tx_score = score }) db.current_ownership,
    ownership_key-eq t t id (k + 1),
    s.owners id,
  );
  mints = λ id some_id h. elim (Bool-cases (id == k + 1)) [
    | inl new ↦ let same : id ≡ k + 1 = ground (arith, new) in rw same (get-insert_self _ _ _)
    | inr old ↦
        get-insert_ne (mint_history_key t (k + 1) (k + 1) score) (mint_history_key t id id score) tt
          db.mint_history
          (λ e. absurd (ground (arith, old, ap (λ (x : MintHistoryKey). x.token_id) e)))
        ∙ s.mints id some_id (ground (arith, h, old))
  ];
}

module _ (score : ℕ) (common : OperationCommon) (info : DeployInfo)
    (dep : ScoredDeployInfoWithCommon) (same : dep.info.info ≡ info)
    (small : info.max < u64_max) where
  abbrev premint_mint : MintInfo
  premint_mint = record { token_id = 0; to = info.deployer; royalty = none }

  -- Another mint of the premint.
  premint_one :
      (k : ℕ) (db : Db)
      → k < info.premint
      → info.premint ≤ info.max
      → Preminted common.tick score info dep k db
      → process_mint 0 score common premint_mint true db
        ≡ ok (
          accepted,
          record premint_mint { token_id = k + 1 },
          record_mint common.tick (k + 1) (k + 1) score info.deployer db,
        )
  unfolding process_mint mint_error assign_token_id
  premint_one k db more fits p =
      ground (arith, p.in_registry, p.minted, same, add_u64-lt k 1 (omega arith))

  record_mint-Preminted :
      (k : ℕ) (db : Db)
      → k < info.premint
      → info.premint ≤ info.max
      → Preminted common.tick score info dep k db
      → Preminted common.tick score info dep
          (k + 1)
          (record_mint common.tick (k + 1) (k + 1) score info.deployer db)
  unfolding record_mint
  record_mint-Preminted k db more fits p = record {
    in_registry = p.in_registry;
    history = minted-NoNewer common.tick k (k + 1) score db.mint_history (omega arith) p.history;
    minted =
        ap (λ o. get_or o 0)
          (last_minted-insert common.tick k (k + 1) score db.mint_history (omega arith) p.history);
    no_ranges = p.no_ranges;
    no_slots = p.no_slots;
    in_sequence = record_mint-InSequence common.tick score k info db p.in_sequence;
  }

  premint_step :
      (n : ℕ) (db db1 : Db) (m : MintInfo)
      → process_mint 0 score common premint_mint true db ≡ ok (accepted, m, db1)
      → premint_tokens (suc n) score common info db ≡ premint_tokens n score common info db1
  unfolding premint_tokens
  premint_step n db db1 m h = ground (arith, h)

  -- The whole premint, with what its mints of tokens without an owner keep.
  premint_all :
      (P : Db → Type 0)
      → ((id : ℕ) (db : Db)
          → owner common.tick id db ≡ none
          → P db
          → P (record_mint common.tick id id score info.deployer db))
      → (n k : ℕ) (db : Db) → n + k ≡ info.premint
      → info.premint ≤ info.max
      → Preminted common.tick score info dep k db
      → P db
      → (db' : Db) × (premint_tokens n score common info db ≡ ok (accepted, db'))
        × Preminted common.tick score info dep info.premint db'
        × P db'
  unfolding premint_tokens
  premint_all P keep zero k db e fits p c =
      let all : k ≡ info.premint = omega (arith, e) in
      (db, refl, subst (λ j. Preminted common.tick score info dep j db) all p, c)
  premint_all P keep (suc n) k db e fits p c =
      let (db', rest, done, c') =
        premint_all P keep n (k + 1)
          (record_mint common.tick (k + 1) (k + 1) score info.deployer db) (omega arith) fits
          (record_mint-Preminted k db (omega arith) fits p)
          (keep (k + 1) db
            (Preminted-unowned common.tick score info dep k db p (k + 1) (omega arith)) c) in
      (db', premint_step n db _ _ (premint_one k db (omega arith) fits p) ∙ rest, done, c')

-- Nothing is known of a collection yet: no mint, no range and no owner.
pub record Fresh (t : Tick) (db : Db) : Type 0 where
  pub unregistered : registered t db ≡ none
  pub no_mints : All (λ (k : MintHistoryKey). (k.tick == t) ≡ false) db.mint_history
  pub no_ranges : get t db.range_lengths ≡ none
  pub no_slots : (i : ℕ) → slot t db i ≡ none
  pub no_owners : (id : ℕ) → owner t id db ≡ none

no_mint :
    (t : Tick) (m : Partition MintHistoryKey (Unit {0}))
    → All (λ (k : MintHistoryKey). (k.tick == t) ≡ false) m
    → last_minted_token_seq_no t m ≡ none
unfolding last_minted_token_seq_no
no_mint t [] h = refl
no_mint t ((k, _) ∷ m) (other, h) = ground (arith, no_mint t m h)

-- The ranges of a collection that has none.
unfilled-WellFormed :
    (t : Tick) (max premint : ℕ) (db : Db)
    → get t db.range_lengths ≡ none
    → ((i : ℕ) → slot t db i ≡ none)
    → WellFormed t max premint db
unfolding mass
unfilled-WellFormed t max premint db e none_there = record {
  ranges = record {
    filled = λ i h. absurd (ground (arith, e));
    bounds = λ i s z h. absurd (ground (arith, none_there i));
    disjoint = λ i j s z s' z' h h' ne. absurd (ground (arith, none_there i));
  };
  mass_bound = rw e (omega arith);
}

Preminted-Supply :
    (t : Tick) (score : ℕ) (info : DeployInfo) (dep : ScoredDeployInfoWithCommon) (db : Db)
    → info.premint ≤ info.max
    → Preminted t score info dep info.premint db
    → Supply t info db
Preminted-Supply t score info dep db fits p = record {
  history = rw p.minted p.history;
  premint_done = omega (arith, p.minted);
  ids = unfilled-WellFormed t info.max info.premint db p.no_ranges p.no_slots;
  balance = rw (p.no_ranges, p.minted) (omega arith);
  unowned = λ id free.
      Preminted-unowned t score info dep info.premint db p id
        (omega (arith, (rw p.no_ranges at free).0));
}

abbrev pub deployment_entry : ℕ → OperationCommon → DeployInfo → ScoredDeployInfoWithCommon
deployment_entry score common info = record {
  score = score;
  info = record { info = info; common = common };
}

module _ (score : ℕ) (common : OperationCommon) (info : DeployInfo) (db : Db)
    (small : info.max < u64_max) (fits : info.premint ≤ info.max)
    (fresh : Fresh common.tick db) where
  record_deployment-Preminted :
      Preminted common.tick score info
        (deployment_entry score common info)
        0
        (record_deployment score common info db)
  unfolding record_deployment
  record_deployment-Preminted = record {
    in_registry = get-insert_self _ _ _;
    history =
        All-map (λ (k : MintHistoryKey). (k.tick == common.tick) ≡ false) (NoNewer common.tick 0)
          db.mint_history (λ k other here. ground arith) fresh.no_mints;
    minted = ap (λ o. get_or o 0) (no_mint common.tick db.mint_history fresh.no_mints);
    no_ranges = fresh.no_ranges;
    no_slots = fresh.no_slots;
    in_sequence = record {
      owners = λ id. ground (arith, fresh.no_owners id);
      mints = λ id some_id h. absurd (omega (arith, some_id, h));
    };
  }

  process_deployment-new :
      process_deployment score common info db
      ≡ premint_tokens info.premint score common info (record_deployment score common info db)
  unfolding process_deployment
  process_deployment-new = ground (arith, fresh.unregistered)

  -- The same for a deployment, where `P` is any property that its mints keep.
  pub deployed :
      (P : Db → Type 0)
      → ((id : ℕ) (x : Db)
          → owner common.tick id x ≡ none
          → P x
          → P (record_mint common.tick id id score info.deployer x))
      → P (record_deployment score common info db)
      → (db' : Db) × (process_deployment score common info db ≡ ok (accepted, db'))
        × Preminted common.tick score info (deployment_entry score common info) info.premint db'
        × P db'
  deployed P keep start =
      let (db', e, p, c) =
        premint_all score common info (deployment_entry score common info) refl small P keep
          info.premint 0 (record_deployment score common info db) (omega arith) fits
          record_deployment-Preminted start in
      (db', process_deployment-new ∙ e, p, c)

  -- A collection of which nothing is known yet, whose premint is at most its maximum and whose
  -- maximum is below u64::MAX, is accepted: it is registered, its last sequence number is its
  -- premint, every id from 1 to its premint has the deployer as its owner since the score of the
  -- deployment, and a mint under a sequence number equal to the id, no other id has an owner, and
  -- its supply is in balance for the mints that follow.
  pub process_deployment-Supply :
      (db' : Db) × (process_deployment score common info db ≡ ok (accepted, db'))
      × (registered common.tick db' ≡ some (deployment_entry score common info))
      × (last_mint common.tick db' ≡ info.premint)
      × InSequence common.tick score info info.premint db'
      × Supply common.tick info db'
  process_deployment-Supply =
      let (db', e, p, _) = deployed (λ x. Unit {0}) (λ id x free c. tt) tt in
      (
        db',
        e,
        p.in_registry,
        p.minted,
        p.in_sequence,
        Preminted-Supply common.tick score info (deployment_entry score common info) db' fits p,
      )

-- A collection that is registered is not deployed again: the operation is rejected, and an older
-- score than that of the deployment is an error.
pub process_deployment-again :
    (score : ℕ) (common : OperationCommon) (info : DeployInfo) (db : Db)
    (dep : ScoredDeployInfoWithCommon)
    → registered common.tick db ≡ some dep
    → process_deployment score common info db ≡ (
        if leb score dep.score
        then err unexpected_kaspa_node_behaviour
        else ok (rejected tick_exists, db))
unfolding process_deployment
process_deployment-again score common info db dep e = ground (arith, e)
