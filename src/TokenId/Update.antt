-- ===== src/TokenId/Update.antt =====
-- The four cases of a draw of nexus/src/processor/token_id.rs, against the effect on the slots that
-- `Drawn` states.
use krc721_protocol.Prelude.{
  ℕ, ◌-◌, ◌<◌, ◌≡◌, refl, ◌≢◌, true, false, none, some, ◌==◌, arith, ==_iff, add_u64-lt, sub_u64-le,
  Bool-cases, Option-cases, inl, inr,
}
use krc721_protocol.Partition.Laws.{get-insert, get-remove}
use krc721_protocol.Keys.{
  number_key, range_key_instance, token_meta_key_instance, number_key-eq, range_key-eq,
  token_meta_key-eq,
}
use krc721_protocol.Db.{Db}
use krc721_protocol.Outcome.{ok}
use krc721_protocol.TokenId.Slots.{slot, Fits, Drawn}
use krc721_protocol.TokenId.{
  Draw, put_length, drop_range, put_range, store_meta, remove_range, shrink_range, split_range,
  update_range,
}

ruleset reads = (get-insert, get-remove, range_key-eq, token_meta_key-eq, number_key-eq)

module _ (d : Draw) (db : Db) (f : Fits d db) where
  shrink_start-Drawn : d.value_id - d.start ≡ 0 → d.size ≢ 1 → Drawn d db (shrink_range d true db)
  unfolding shrink_range
  shrink_start-Drawn off one = record {
    len = ground (arith, f.len);
    started = ground (arith, f.len, f.index);
    slots = λ j. simp reads (ground (arith, add_u64-lt d.start 1, sub_u64-le d.size 1));
    metas = λ u id. simp reads (ground arith);
    other_len = λ u h. refl;
    other_slots = λ u j h. simp reads (ground arith);
  }

  shrink_end-Drawn :
      d.value_id - d.start ≢ 0
      → d.value_id - d.start ≡ d.size - 1
      → Drawn d db (shrink_range d false db)
  unfolding shrink_range
  shrink_end-Drawn off end = record {
    len = ground (arith, f.len);
    started = ground (arith, f.len, f.index);
    slots = λ j. simp reads (ground (arith, sub_u64-le d.size 1));
    metas = λ u id. simp reads (ground arith);
    other_len = λ u h. refl;
    other_slots = λ u j h. simp reads (ground arith);
  }

  split-Drawn :
      d.value_id - d.start ≢ 0
      → d.value_id - d.start ≢ d.size - 1
      → Drawn d db (split_range d (d.value_id - d.start) db)
  unfolding split_range
  split-Drawn off end = record {
    len = simp reads (ground (arith, add_u64-lt d.ranges_len 1));
    started = simp reads (ground (arith, f.len));
    slots = λ j. simp reads (
        ground (
          arith,
          add_u64-lt d.value_id 1,
          sub_u64-le d.size (d.value_id - d.start),
          sub_u64-le (d.size - (d.value_id - d.start)) 1,
        ));
    metas = λ u id. simp reads (ground arith);
    other_len = λ u h. simp reads (ground arith);
    other_slots = λ u j h. simp reads (ground arith);
  }

  -- The slot that is removed is the last one.
  remove_last-Drawn :
      d.value_id - d.start ≡ 0
      → d.size ≡ 1
      → d.range_index ≡ d.ranges_len - 1
      → (db' : Db) × (remove_range d db ≡ ok db') × Drawn d db db'
  unfolding remove_range
  remove_last-Drawn off one last = (
    put_length d.tick (d.ranges_len - 1)
        (drop_range d.tick d.range_index (store_meta d true false db)),
    ground (arith, sub_u64-le d.ranges_len 1),
    record {
      len = simp reads (ground arith);
      started = simp reads (ground (arith, f.len));
      slots = λ j. simp reads (ground arith);
      metas = λ u id. simp reads (ground arith);
      other_len = λ u h. simp reads (ground arith);
      other_slots = λ u j h. simp reads (ground arith);
    },
  )

  -- The last slot, which is filled, moves over the one that is removed.
  remove_inner-Drawn :
      d.value_id - d.start ≡ 0
      → d.size ≡ 1
      → d.range_index ≢ d.ranges_len - 1
      → {r : ℕ × ℕ} → slot d.tick db (d.ranges_len - 1) ≡ some r
      → (db' : Db) × (remove_range d db ≡ ok db') × Drawn d db db'
  unfolding remove_range
  remove_inner-Drawn off one inner {r} filled = (
    put_length d.tick (d.ranges_len - 1) (
        drop_range d.tick (d.ranges_len - 1)
          (put_range d.tick d.range_index r.0 r.1 (store_meta d true false db))),
    ground (arith, sub_u64-le d.ranges_len 1),
    record {
      len = simp reads (ground arith);
      started = simp reads (ground (arith, f.len));
      slots = λ j. simp reads (ground arith);
      metas = λ u id. simp reads (ground arith);
      other_len = λ u h. simp reads (ground arith);
      other_slots = λ u j h. simp reads (ground arith);
    },
  )

  -- A draw whose numbers are in range succeeds, in whichever case it is.
  pub update_range-Drawn :
      ((j : ℕ) → j < d.ranges_len → j ≢ d.range_index → slot d.tick db j ≢ none)
      → (db' : Db) × (update_range d db ≡ ok db') × Drawn d db db'
  unfolding update_range
  update_range-Drawn filled = elim (Bool-cases (d.value_id - d.start == 0)) [
    | inl off ↦ elim (Bool-cases (d.size == 1)) [
      | inl one ↦ elim (Bool-cases (d.range_index == d.ranges_len - 1)) [
        | inl last ↦
            removed one off
              (remove_last-Drawn ((==_iff _ _).0 off) ((==_iff _ _).0 one) ((==_iff _ _).0 last))
        | inr inner ↦ elim (Option-cases (slot d.tick db (d.ranges_len - 1))) [
          | inl empty ↦ absurd (filled (d.ranges_len - 1) (omega arith) (ground arith) empty)
          | inr (r, e) ↦
              removed one off
                (remove_inner-Drawn ((==_iff _ _).0 off) ((==_iff _ _).0 one) (ground arith) e)
        ]
      ]
      | inr more ↦ (
        shrink_range d true db,
        ground (arith, sub_u64-le d.value_id d.start, sub_u64-le d.size 1),
        shrink_start-Drawn (ground arith) (ground arith),
      )
    ]
    | inr off ↦ elim (Bool-cases (d.value_id - d.start == d.size - 1)) [
      | inl end ↦ (
        shrink_range d false db,
        ground (arith, sub_u64-le d.value_id d.start, sub_u64-le d.size 1),
        shrink_end-Drawn (ground arith) (ground arith),
      )
      | inr mid ↦ (
        split_range d (d.value_id - d.start) db,
        ground (arith, sub_u64-le d.value_id d.start, sub_u64-le d.size 1),
        split-Drawn (ground arith) (ground arith),
      )
    ]
  ]
    where
      removed :
          d.size == 1 ≡ true
          → d.value_id - d.start == 0 ≡ true
          → (db' : Db) × (remove_range d db ≡ ok db') × Drawn d db db'
          → (db' : Db) × (update_range d db ≡ ok db') × Drawn d db db'
      removed one off (db', e, h) = (db', ground (arith, sub_u64-le d.value_id d.start), h)
