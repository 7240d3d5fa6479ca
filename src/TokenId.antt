-- ===== src/TokenId.antt =====
-- nexus/src/processor/token_id.rs: random token ids are drawn from the ranges of ids that a
-- collection has left, and a draw can be undone.
-- The slots 0, …, n - 1 of `available_ranges` hold the ranges of a tick, `range_lengths` holds n.
pub mod Frame
pub mod Slots
pub mod Update
pub mod Ranges
pub mod Mass
pub mod Undo
pub mod Pool
pub mod Draws
pub mod Generate
pub mod Tests
use krc721_protocol.Prelude.{
  ℕ, ◌%◌, Bool, true, false, Option, some, ltb, ◌==◌, if◌then◌else◌, get_or, add_u64, sub_u64,
}
use krc721_protocol.Partition.{get, insert, remove}
use krc721_protocol.Model.{Tick}
use krc721_protocol.Keys.{
  PreModRange, range_key, token_meta_key, number_key, range_key_instance, token_meta_key_instance,
}
use krc721_protocol.Db.{Db}
use krc721_protocol.Outcome.{Outcome, ok, err, panic, expect, ◌>>=◌}

-- A draw from slot `range_index`, which holds `size` ids from `start` on.
pub record Draw : Type 0 where
  pub tick : Tick
  pub range_index : ℕ
  pub value_id : ℕ
  pub start : ℕ
  pub size : ℕ
  pub ranges_len : ℕ
  pub is_initial : Bool

abbrev pub pre_mod_range : Draw → Bool → Bool → PreModRange
pre_mod_range d removed split = record {
  range_index = d.range_index;
  start = d.start;
  size = d.size;
  removed = removed;
  split = split;
  is_initial = d.is_initial;
}

-- The metadata is stored before the range is changed, so that the draw can be undone.
abbrev pub store_meta : Draw → Bool → Bool → Db → Db
store_meta d removed split db = record db {
  token_id_meta =
      insert (token_meta_key d.tick d.value_id) (pre_mod_range d removed split) db.token_id_meta;
}

abbrev pub put_range : Tick → ℕ → ℕ → ℕ → Db → Db
put_range t i start size db = record db {
  available_ranges = insert (range_key t i) (start, size) db.available_ranges;
}

abbrev pub drop_range : Tick → ℕ → Db → Db
drop_range t i db = record db { available_ranges = remove (range_key t i) db.available_ranges }

abbrev pub put_length : Tick → ℕ → Db → Db
put_length t n db = record db { range_lengths = insert t n db.range_lengths }

-- The last range is moved over the removed one.
remove_range : Draw → Db → Outcome Db
remove_range d db =
    let last_idx = sub_u64 d.ranges_len 1 in
    let db1 = store_meta d true false db in
    if ltb d.range_index last_idx
    then (do
      (start, size) ← expect (get (range_key d.tick last_idx) db1.available_ranges)
      ok (
          put_length d.tick last_idx
            (drop_range d.tick last_idx (put_range d.tick d.range_index start size db1))))
    else ok (put_length d.tick last_idx (drop_range d.tick d.range_index db1))

shrink_range : Draw → Bool → Db → Db
shrink_range d from_start db =
    put_range d.tick d.range_index (if from_start then add_u64 d.start 1 else d.start)
      (sub_u64 d.size 1) (store_meta d false false db)

split_range : Draw → ℕ → Db → Db
split_range d value_offset db =
    let right_start = add_u64 d.value_id 1 in
    let right_size = sub_u64 (sub_u64 d.size value_offset) 1 in
    put_length d.tick (add_u64 d.ranges_len 1) (
      put_range d.tick d.ranges_len right_start right_size
        (put_range d.tick d.range_index d.start value_offset (store_meta d false true db)))

pub record Selection : Type 0 where
  pub range_index : ℕ
  pub range : Option (ℕ × ℕ)
  pub is_initial : Bool
  pub ranges_len : ℕ
  pub db : Db

-- A tick without ranges starts with all the ids after the premint, which stand in no slot yet.
pub select_range : Tick → ℕ → ℕ → ℕ → Db → Selection
select_range t entropy max_supply premint db =
    let n = get_or (get t db.range_lengths) 0 in
    if n == 0
    then record {
      range_index = 0;
      range = some (add_u64 1 premint, sub_u64 max_supply premint);
      is_initial = true;
      ranges_len = 1;
      db = put_length t 1 db;
    }
    else record {
      range_index = entropy % n;
      range = get (range_key t (entropy % n)) db.available_ranges;
      is_initial = false;
      ranges_len = n;
      db = db;
    }

-- Which of the four cases of a draw applies.
pub update_range : Draw → Db → Outcome Db
update_range d db =
    let value_offset = sub_u64 d.value_id d.start in
    if value_offset == 0
    then (if d.size == 1 then remove_range d db else ok (shrink_range d true db))
    else if value_offset == sub_u64 d.size 1
    then ok (shrink_range d false db)
    else ok (split_range d value_offset db)

abbrev pub draw_of : Tick → Selection → ℕ → ℕ → ℕ → Draw
draw_of t sel start size value_id = record {
  tick = t;
  range_index = sel.range_index;
  value_id = value_id;
  start = start;
  size = size;
  ranges_len = sel.ranges_len;
  is_initial = sel.is_initial;
}

-- The draw from a range that was found; `% size` panics at 0, as do the two assertions.
pub draw_id : Tick → ℕ → ℕ → Selection → ℕ → ℕ → Outcome (ℕ × Db)
draw_id t entropy max_supply sel start size =
    let value_id = add_u64 start (entropy % size) in
    if size == 0 then err panic else if ltb max_supply value_id then err panic else (do
      db ← update_range (draw_of t sel start size value_id) sel.db
      if value_id == 0 then err panic else ok (value_id, db))

pub generate_token_id : Tick → ℕ → ℕ → ℕ → Db → Outcome (ℕ × Db)
generate_token_id t entropy max_supply premint db =
    let sel = select_range t entropy max_supply premint db in
    (do (start, size) ← expect sel.range; draw_id t entropy max_supply sel start size)

-- What stands in the slot now is moved to the end, and the removed range comes back.
revert_removed_range : Tick → PreModRange → ℕ → Db → Outcome (ℕ × Db)
revert_removed_range t p ranges_len db =
    let done = λ (db1 : Db).
      put_length t (add_u64 ranges_len 1) (put_range t p.range_index p.start p.size db1) in
    if ltb p.range_index ranges_len
    then (do
      (start, size) ← expect (get (range_key t p.range_index) db.available_ranges)
      ok (add_u64 ranges_len 1, done (put_range t ranges_len start size db)))
    else ok (add_u64 ranges_len 1, done db)

restore_range_maybe_split : Tick → PreModRange → ℕ → Db → ℕ × Db
restore_range_maybe_split t p ranges_len db =
    let db1 = put_range t p.range_index p.start p.size db in
    let n = sub_u64 ranges_len 1 in
    if p.split then (n, put_length t n (drop_range t n db1)) else (ranges_len, db1)

-- The first draw of a tick is undone with its length; `assert_eq!` demands that no range is left.
undo_initial : Tick → PreModRange → ℕ → Db → Outcome Db
undo_initial t p ranges_len db =
    let db1 = drop_range t p.range_index db in
    if p.is_initial
    then (if sub_u64 ranges_len 1 == 0
        then ok (record db1 { range_lengths = remove t db1.range_lengths })
        else err panic)
    else ok db

pub rollback_token_generation : Tick → ℕ → Db → Outcome Db
rollback_token_generation t token_id db = do
  p ← expect (get (token_meta_key t token_id) db.token_id_meta)
  let n = get_or (get t db.range_lengths) 0
  (n1, db1) ←
      if p.removed then revert_removed_range t p n db else ok (restore_range_maybe_split t p n db)
  undo_initial t p n1
      (record db1 { token_id_meta = remove (token_meta_key t token_id) db1.token_id_meta })
