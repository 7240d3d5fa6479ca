-- ===== src/External.antt =====
-- What the indexer takes from the Kaspa crates: the bound on the blocks of a mergeset
-- (`Bps::<10>::mergeset_size_limit()`, used in nexus/src/lib.rs) and the script that pays to the
-- hash of a redeem script (`kaspa_txscript::pay_to_script_hash_script`, used in
-- nexus/src/processor.rs). Both are parameters of the model.
use krc721_protocol.Prelude.{ℕ, List}
use krc721_protocol.Model.{ScriptPublicKey}

pub record External : Type 0 where
  pub merge_set_limit : ℕ
  pub pay_to_script_hash_script : List ℕ → ScriptPublicKey
