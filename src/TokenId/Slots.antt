-- ===== src/TokenId/Slots.antt =====
-- The ranges of one tick as a list of slots, and what a draw does to them: the partitions
-- `available_ranges` and `range_lengths` of nexus/src/processor/token_id.rs, read slot by slot.
use krc721_protocol.Prelude.{
  ℕ, ◌+◌, ◌-◌, ◌≤◌, ◌<◌, ◌≡◌, ◌≢◌, Bool, true, not, ◌&&◌, Option, none, some, ◌==◌, if◌then◌else◌,
  get_or, is_some, u64_max,
}
use krc721_protocol.Partition.{get}
use krc721_protocol.Model.{Tick}
use krc721_protocol.Keys.{
  number_key, range_key_instance, token_meta_key_instance, PreModRange, range_key, token_meta_key,
}
use krc721_protocol.Db.{Db}
use krc721_protocol.TokenId.{Draw, pre_mod_range}

abbrev pub slot : Tick → Db → ℕ → Option (ℕ × ℕ)
slot t db i = get (range_key t i) db.available_ranges

abbrev pub slots_len : Tick → Db → ℕ
slots_len t db = get_or (get t db.range_lengths) 0

abbrev pub meta : Tick → Db → ℕ → Option PreModRange
meta t db id = get (token_meta_key t id) db.token_id_meta

-- The number of slots after a draw at distance `off` from the start of a range of `size` ids.
abbrev pub drawn_len : ℕ → ℕ → ℕ → ℕ
drawn_len n size off =
    if off == 0 then (if size == 1 then n - 1 else n) else if off == size - 1 then n else n + 1

-- The slots after it.
abbrev pub drawn_slot : ℕ → ℕ → ℕ → ℕ → ℕ → (ℕ → Option (ℕ × ℕ)) → ℕ → Option (ℕ × ℕ)
drawn_slot n i start size off at j =
    if off == 0
    then (if size == 1
        then (if j == n - 1 then none else if j == i then at (n - 1) else at j)
        else if j == i
        then some (start + 1, size - 1)
        else at j)
    else if off == size - 1
    then (if j == i then some (start, size - 1) else at j)
    else if j == i
    then some (start, off)
    else if j == n
    then some (start + off + 1, size - off - 1)
    else at j

-- The numbers of a draw are in range, and the slots below its number of slots are filled.
pub record Fits (d : Draw) (db : Db) : Type 0 where
  pub index : d.range_index < d.ranges_len
  pub len : slots_len d.tick db ≡ d.ranges_len
  pub len_bound : d.ranges_len < u64_max
  pub low : d.start ≤ d.value_id
  pub high : d.value_id < d.start + d.size
  pub end_bound : d.start + d.size ≤ u64_max

abbrev pub is_removed : Draw → Bool
is_removed d = (d.value_id - d.start == 0) && (d.size == 1)

abbrev pub is_split : Draw → Bool
is_split d = not (d.value_id - d.start == 0) && not (d.value_id - d.start == d.size - 1)

-- What a draw leaves: the slots and their number, the metadata, and all that is other ticks'.
pub record Drawn (d : Draw) (db db' : Db) : Type 0 where
  pub len : slots_len d.tick db' ≡ drawn_len d.ranges_len d.size (d.value_id - d.start)
  pub started : is_some (get d.tick db'.range_lengths) ≡ true
  pub slots :
      (j : ℕ)
      → slot d.tick db' j
        ≡ drawn_slot d.ranges_len d.range_index d.start d.size
            (d.value_id - d.start)
            (slot d.tick db)
            j
  pub metas :
      (u : Tick) (id : ℕ)
      → meta u db' id ≡ (
          if (u == d.tick) && (id == d.value_id)
          then some (pre_mod_range d (is_removed d) (is_split d))
          else meta u db id)
  pub other_len : (u : Tick) → u ≢ d.tick → slots_len u db' ≡ slots_len u db
  pub other_slots : (u : Tick) (j : ℕ) → u ≢ d.tick → slot u db' j ≡ slot u db j
