-- ===== src/Processor/Reorg/Undone.antt =====
-- The owners after a transfer or a sale of nexus/src/processor.rs that a reorganisation takes back.
use krc721_protocol.Prelude.{
  ℕ, ◌≤◌, ◌≡◌, ap, ◌∙◌, true, false, none, some, List, [], ◌∷◌, reverse, arith, words_lt,
}
use krc721_protocol.Partition.{Partition, get, insert, remove, remove_if_exists, range_from, keys}
use krc721_protocol.Partition.Laws.{get-insert, get-remove, get-insert_self}
use krc721_protocol.Partition.Order.{All}
use krc721_protocol.Partition.Range.{is_below}
use krc721_protocol.Partition.Undo.{remove-insert, range-insert}
use krc721_protocol.Model.{Tick, tick_min, ScriptPublicKey}
use krc721_protocol.Keys.{
  number_key, token_mints_key_instance, ownership_history_key_instance, mint_history_key_instance,
  ownership_key_instance, address_holding_key_instance, TokenMintsKey, token_mints_key,
  ownership_history_key, ownership_key, address_holding_key, ownership_key-eq,
  address_holding_key-eq, spk_eq_sound,
}
use krc721_protocol.Db.{Db}
use krc721_protocol.Outcome.{Outcome, ok, ◌>>=◌}
use krc721_protocol.Processor.Transfer.{change_owner}
use krc721_protocol.Processor.Transfer.Laws.{owner, holding}
use krc721_protocol.Processor.Custody.{Held}
use krc721_protocol.Processor.Reorg.Ownership.{
  last_owner_with_tx_mod_score, mint_history_key_of, undo_change, undo_changes, Affected,
  get_affected_token_operations, remove_ownership_records, drop_holding, rebuild_owner,
  rebuild_ownership_state, reconstruct_token_ownership,
}

ruleset reads = (get-insert, get-remove, ownership_key-eq, address_holding_key-eq)

-- The start of the range of changes that a reorganisation takes back.
abbrev pub changes_from : ℕ → List ℕ
changes_from threshold = threshold ∷ tick_min ∷ 0 ∷ 0 ∷ []

-- All changes are older than the threshold, the history names the owner that the token has, and has
-- nothing with the score of the change to come.
pub record BeforeChange (threshold : ℕ) (t : Tick) (id score since : ℕ) (from : ScriptPublicKey)
    (db : Db) : Type 0 where
  pub older : All (λ k. is_below (changes_from threshold) k ≡ true) db.ownership_changes
  pub late : threshold ≤ score
  pub valid_tick : tick_min ≤ t
  pub unrecorded : get (ownership_history_key t id score) db.ownership_history ≡ none
  pub no_mint : get (mint_history_key_of (token_mints_key score t id 0)) db.mint_history ≡ none
  pub last_owner : last_owner_with_tx_mod_score t id db.ownership_history ≡ some (from, since)
  pub owned : owner t id db ≡ some (record { owner = from; mod_tx_score = since })
  pub held : Held db

-- Every token has its old owner, and every address its old holdings.
pub record SameOwners (db db' : Db) : Type 0 where
  pub owners : (u : Tick) (j : ℕ) → owner u j db' ≡ owner u j db
  pub holdings :
      (spk : ScriptPublicKey) (u : Tick) (j : ℕ) → holding spk u j db' ≡ holding spk u j db
  pub history : db'.ownership_history ≡ db.ownership_history

module _ (threshold : ℕ) (counts : Partition Tick ℕ) (t : Tick) (id score since : ℕ)
    (from to : ScriptPublicKey) (db : Db)
    (b : BeforeChange threshold t id score since from db) where
  abbrev change : TokenMintsKey
  change = token_mints_key score t id 0

  abbrev changed : Db
  changed = change_owner t id score from to db

  -- The change is taken out of the histories.
  abbrev taken_out : Db
  taken_out = record changed {
    ownership_history = remove (ownership_history_key t id score) changed.ownership_history;
    ownership_changes = remove change changed.ownership_changes;
    mint_history = remove (mint_history_key_of change) changed.mint_history;
  }

  change-late : is_below (changes_from threshold) change ≡ false
  unfolding words_lt
  change-late = ground (arith, b.late, b.valid_tick)

  affected-change :
      range_from (changes_from threshold) changed.ownership_changes ≡ (change, tt) ∷ []
  unfolding change_owner
  affected-change =
      range-insert (changes_from threshold) change tt db.ownership_changes change-late b.older

  undo_change-eq : undo_change counts change changed ≡ ok (some to, taken_out)
  unfolding undo_change remove_if_exists change_owner
  undo_change-eq =
      ground (
        arith,
        b.no_mint,
        get-insert_self (ownership_history_key t id score) to db.ownership_history,
      )

  undo_changes-eq :
      undo_changes counts (change ∷ []) changed ≡ ok ((change, some to) ∷ [], taken_out)
  unfolding undo_changes
  undo_changes-eq = ground (arith, undo_change-eq)

  affected-eq :
      get_affected_token_operations threshold counts changed
      ≡ ok ((change, some to) ∷ [], taken_out)
  unfolding get_affected_token_operations
  affected-eq =
      ap (λ r. undo_changes counts (reverse (keys r)) changed) affected-change ∙ undo_changes-eq

  history-back : taken_out.ownership_history ≡ db.ownership_history
  unfolding change_owner
  history-back =
      remove-insert (ownership_history_key t id score) to db.ownership_history b.unrecorded

  abbrev rebuilt : Db
  rebuilt =
      rebuild_ownership_state ((change, some to) ∷ [])
        (remove_ownership_records ((change, some to) ∷ []) taken_out)

  -- What the rebuild writes.
  abbrev given_back : Db
  given_back = record taken_out {
    current_ownership =
        insert (ownership_key t id) (record { owner = from; mod_tx_score = since })
          (remove (ownership_key t id) changed.current_ownership);
    address_holdings =
        insert (address_holding_key from t id) since
          (remove (address_holding_key to t id) changed.address_holdings);
  }

  rebuilt-eq : rebuilt ≡ given_back
  unfolding rebuild_ownership_state remove_ownership_records rebuild_owner drop_holding
  rebuilt-eq = ground (arith, ap (last_owner_with_tx_mod_score t id) history-back, b.last_owner)

  given_back-SameOwners : SameOwners db given_back
  unfolding change_owner
  given_back-SameOwners = record {
    owners = λ u j. simp reads (ground (arith, b.owned));
    holdings = λ spk u j.
        simp reads
          (ground (arith, b.owned, b.held spk u j, spk_eq_sound spk from, spk_eq_sound spk to));
    history = history-back;
  }

  -- Where all changes of owner are older than the threshold, the holdings agree with the owners,
  -- the history names the owner that the token has as its last, and the history of the mints and
  -- of the token has no entry for the change to come: after a change of owner at or above the
  -- threshold, the reconstruction does not panic, and every token has its old owner, every address
  -- its old holdings, and the history of the owners is as it was.
  pub reconstruct-SameOwners :
      (db' : Db) × (reconstruct_token_ownership threshold counts
          (change_owner t id score from to db)
        ≡ ok db')
      × SameOwners db db'
  unfolding reconstruct_token_ownership
  reconstruct-SameOwners = (
    given_back,
    ap
          (λ (o : Outcome (Affected × Db)).
            o >>= (λ r. ok (rebuild_ownership_state r.0 (remove_ownership_records r.0 r.1))))
          affected-eq
        ∙ ap ok rebuilt-eq,
    given_back-SameOwners,
  )
