-- ===== src/TokenId/Pool.antt =====
-- The ids of a collection that nexus/src/processor/token_id.rs can still draw, as a set: the
-- abstract view of the ranges of one tick.
use krc721_protocol.Prelude.{
  ℕ, ◌+◌, ◌-◌, ◌≤◌, ◌<◌, ◌≡◌, refl, ◌≢◌, ◌↔◌, true, Option, none, some, ◌==◌, if◌then◌else◌, arith,
  get_or, is_some,
}
use krc721_protocol.Partition.{get}
use krc721_protocol.Model.{Tick}
use krc721_protocol.Keys.{number_key, range_key_instance}
use krc721_protocol.Db.{Db}
use krc721_protocol.Outcome.{ok}
use krc721_protocol.TokenId.{rollback_token_generation}
use krc721_protocol.TokenId.Slots.{slot, slots_len, meta, drawn_slot}
use krc721_protocol.TokenId.Ranges.{Slots, Ranges, Available}
use krc721_protocol.TokenId.Mass.{mass}

-- The ranges of a tick whose collection has the ids from premint + 1 to max.
pub record WellFormed (t : Tick) (max premint : ℕ) (db : Db) : Type 0 where
  pub ranges : Ranges (1 + premint) (max + 1) (slots_len t db) (slot t db)
  pub mass_bound : mass (slots_len t db) (slot t db) ≤ max - premint

abbrev pub PoolOf : ℕ → ℕ → Option ℕ → Slots → ℕ → Type 0
PoolOf lo hi none at id = (lo ≤ id) × (id < hi)
PoolOf lo hi (some n) at id = Available at id

-- The id can be drawn: any id of the collection before the first draw, one of the slots' later.
abbrev pub Pool : Tick → ℕ → ℕ → Db → ℕ → Type 0
Pool t max premint db id = PoolOf (1 + premint) (max + 1) (get t db.range_lengths) (slot t db) id

abbrev pub pool_size_of : ℕ → Option ℕ → Slots → ℕ
pool_size_of all none at = all
pool_size_of all (some n) at = mass n at

-- How many ids can be drawn.
abbrev pub pool_size : Tick → ℕ → ℕ → Db → ℕ
pool_size t max premint db = pool_size_of (max - premint) (get t db.range_lengths) (slot t db)

-- What a draw of `id` does to the ranges of the tick.
pub record Takes (t : Tick) (max premint : ℕ) (db : Db) (id : ℕ) (db' : Db) : Type 0 where
  pub was_available : Pool t max premint db id
  pub others_stay : (j : ℕ) → Pool t max premint db' j ↔ (Pool t max premint db j × (j ≢ id))
  pub one_less : pool_size t max premint db' + 1 ≡ pool_size t max premint db
  pub well_formed : WellFormed t max premint db'

-- The ranges of the tick are as before, and the id has no metadata.
pub record Restored (t : Tick) (id : ℕ) (db db2 : Db) : Type 0 where
  pub len : get t db2.range_lengths ≡ get t db.range_lengths
  pub slots : (j : ℕ) → slot t db2 j ≡ slot t db j
  pub metas : (j : ℕ) → meta t db2 j ≡ (if j == id then none else meta t db j)

-- The rollback of `id` succeeds and brings the ranges of `db` back.
abbrev pub Undoable : Tick → ℕ → Db → Db → Type 0
Undoable t id db db' =
    (db2 : Db) × (rollback_token_generation t id db' ≡ ok db2) × Restored t id db db2

pub PoolOf-started :
    (lo hi : ℕ) (o : Option ℕ) (at : Slots) (id : ℕ)
    → is_some o ≡ true
    → PoolOf lo hi o at id ≡ Available at id
PoolOf-started lo hi none at id h = cc
PoolOf-started lo hi (some n) at id h = refl

pub pool_size_of-started :
    (all : ℕ) (o : Option ℕ) (at : Slots)
    → is_some o ≡ true
    → pool_size_of all o at ≡ mass (get_or o 0) at
pool_size_of-started all none at h = cc
pool_size_of-started all (some n) at h = refl

pub drawn_slot-same :
    (n i start size off : ℕ) (at at' : Slots)
    → ((j : ℕ) → j ≢ i → at j ≡ at' j)
    → (j : ℕ) → drawn_slot n i start size off at j ≡ drawn_slot n i start size off at' j
drawn_slot-same n i start size off at at' h j = ground (arith, h j, h (n - 1))
