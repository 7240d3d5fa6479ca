-- ===== src/Db/StatsLaws.antt =====
-- The running statistics of database/src/database/stats.rs: removing a difference after adding it.
use krc721_protocol.Prelude.{◌≡◌, ◌≤◌, ◌+◌, u64_max, arith}
use krc721_protocol.Db.{Stats, add, sub}

-- Every counter of the sum of two statistics is below the bound at which it would saturate.
pub record Fits (s d : Stats) : Type 0 where
  pub deployments : s.deployments + d.deployments ≤ u64_max
  pub mints : s.mints + d.mints ≤ u64_max
  pub transfers : s.transfers + d.transfers ≤ u64_max
  pub royalty_fees : s.royalty_fees + d.royalty_fees ≤ u64_max
  pub security_fees : s.security_fees + d.security_fees ≤ u64_max
  pub listings : s.listings + d.listings ≤ u64_max
  pub sends : s.sends + d.sends ≤ u64_max

-- Where no counter saturates, subtracting a difference that was added gives the old statistics.
pub sub-add : (s d : Stats) → Fits s d → sub (add s d) d ≡ s
unfolding sub add
sub-add s d h = ground arith
