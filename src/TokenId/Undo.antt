-- ===== src/TokenId/Undo.antt =====
-- `rollback_token_generation` of nexus/src/processor/token_id.rs, from the state that a draw left.
use krc721_protocol.Prelude.{
  ℕ, ◌+◌, ◌-◌, ◌<◌, ◌≡◌, refl, ◌≢◌, true, false, Option, none, some, ◌==◌, if◌then◌else◌, get_or,
  is_some, arith, ==_iff, if_of_true, if_of_false, add_u64-lt, sub_u64-le, Bool-cases, Option-cases,
  inl, inr, sym, ap, ◌∙◌,
}
use krc721_protocol.Partition.{get, remove}
use krc721_protocol.Partition.Laws.{get-insert, get-remove, get-remove_self, get-insert_self}
use krc721_protocol.Keys.{
  number_key, range_key_instance, token_meta_key_instance, PreModRange, token_meta_key,
  number_key-eq, range_key-eq, token_meta_key-eq,
}
use krc721_protocol.Db.{Db}
use krc721_protocol.Outcome.{ok}
use krc721_protocol.TokenId.{
  Draw, pre_mod_range, put_length, drop_range, put_range, revert_removed_range,
  restore_range_maybe_split, undo_initial, rollback_token_generation,
}
use krc721_protocol.TokenId.Slots.{slot, slots_len, meta, Fits, Drawn, is_removed, is_split}

-- The range that a draw changed stands in its slot again, and nothing else differs.
pub record Reverted (d : Draw) (db db' db1 : Db) : Type 0 where
  pub len : get d.tick db1.range_lengths ≡ some d.ranges_len
  pub slots :
      (j : ℕ)
      → slot d.tick db1 j
        ≡ (if j == d.range_index then some (d.start, d.size) else slot d.tick db j)
  pub metas : (id : ℕ) → meta d.tick db1 id ≡ meta d.tick db' id

-- The state after the rollback of a draw: the first draw of a tick is undone with its length.
pub record Undone (d : Draw) (db db2 : Db) : Type 0 where
  pub len : get d.tick db2.range_lengths ≡ (if d.is_initial then none else some d.ranges_len)
  pub slots :
      (j : ℕ)
      → slot d.tick db2 j ≡ (
          if j == d.range_index
          then (if d.is_initial then none else some (d.start, d.size))
          else slot d.tick db j)
  pub metas : (id : ℕ) → meta d.tick db2 id ≡ (if id == d.value_id then none else meta d.tick db id)

some-get_or : (o : Option ℕ) (n : ℕ) → is_some o ≡ true → get_or o 0 ≡ n → o ≡ some n
some-get_or o n h e = ground arith

ruleset reads = (get-insert, get-remove, range_key-eq, token_meta_key-eq, number_key-eq)

module _ (d : Draw) (db db' : Db) (f : Fits d db) (w : Drawn d db db') where
  abbrev changed : PreModRange
  changed = pre_mod_range d (is_removed d) (is_split d)

  abbrev len' : ℕ
  len' = slots_len d.tick db'

  revert_last :
      is_removed d ≡ true
      → d.range_index ≡ d.ranges_len - 1
      → (db1 : Db) × (revert_removed_range d.tick changed len' db' ≡ ok (d.ranges_len, db1))
        × Reverted d db db' db1
  unfolding revert_removed_range
  revert_last gone last = (
    put_length d.tick d.ranges_len (put_range d.tick d.range_index d.start d.size db'),
    ground (arith, w.len, add_u64-lt (d.ranges_len - 1) 1),
    record {
      len = rw get-insert_self refl;
      slots = λ j. simp reads (ground (arith, w.slots j));
      metas = λ id. refl;
    },
  )

  revert_inner :
      is_removed d ≡ true
      → d.range_index ≢ d.ranges_len - 1
      → {r : ℕ × ℕ} → slot d.tick db (d.ranges_len - 1) ≡ some r
      → (db1 : Db) × (revert_removed_range d.tick changed len' db' ≡ ok (d.ranges_len, db1))
        × Reverted d db db' db1
  unfolding revert_removed_range
  revert_inner gone inner {r} filled = (
    put_length d.tick d.ranges_len (
        put_range d.tick d.range_index d.start d.size
          (put_range d.tick (d.ranges_len - 1) r.0 r.1 db')),
    ground (arith, w.len, add_u64-lt (d.ranges_len - 1) 1, w.slots d.range_index),
    record {
      len = rw get-insert_self refl;
      slots = λ j. simp reads (ground (arith, w.slots j));
      metas = λ id. refl;
    },
  )

  restore_split :
      is_removed d ≡ false
      → is_split d ≡ true
      → slot d.tick db d.ranges_len ≡ none
      → (db1 : Db) × (restore_range_maybe_split d.tick changed len' db' ≡ (d.ranges_len, db1))
        × Reverted d db db' db1
  unfolding restore_range_maybe_split
  restore_split kept split beyond = (
    put_length d.tick d.ranges_len
        (drop_range d.tick d.ranges_len (put_range d.tick d.range_index d.start d.size db')),
    ground (arith, w.len, sub_u64-le (d.ranges_len + 1) 1),
    record {
      len = rw get-insert_self refl;
      slots = λ j. simp reads (ground (arith, w.slots j));
      metas = λ id. refl;
    },
  )

  restore_shrunk :
      is_removed d ≡ false
      → is_split d ≡ false
      → (db1 : Db) × (restore_range_maybe_split d.tick changed len' db' ≡ (d.ranges_len, db1))
        × Reverted d db db' db1
  unfolding restore_range_maybe_split
  restore_shrunk kept whole = (
    put_range d.tick d.range_index d.start d.size db',
    ground (arith, w.len),
    record {
      len = some-get_or _ d.ranges_len w.started (ground (arith, w.len));
      slots = λ j. simp reads (ground (arith, w.slots j));
      metas = λ id. refl;
    },
  )

  module _ (filled : (j : ℕ) → j < d.ranges_len → j ≢ d.range_index → slot d.tick db j ≢ none)
      (beyond : slot d.tick db d.ranges_len ≡ none) where
    -- Whichever of the two ways applies, the range comes back.
    reverted :
        (db1 : Db) × ((if is_removed d
            then revert_removed_range d.tick changed len' db'
            else ok (restore_range_maybe_split d.tick changed len' db'))
          ≡ ok (d.ranges_len, db1))
        × Reverted d db db' db1
    reverted = elim (Bool-cases (is_removed d)) [
      | inl gone ↦ elim (Bool-cases (d.range_index == d.ranges_len - 1)) [
        | inl last ↦
            let (db1, e, h) = revert_last gone ((==_iff _ _).0 last) in
            (db1, if_of_true _ _ gone ∙ e, h)
        | inr inner ↦ elim (Option-cases (slot d.tick db (d.ranges_len - 1))) [
          | inl empty ↦
              absurd (filled (d.ranges_len - 1) (ground (arith, f.index)) (ground arith) empty)
          | inr (r, filled_last) ↦
              let (db1, e, h) = revert_inner gone (ground arith) filled_last in
              (db1, if_of_true _ _ gone ∙ e, h)
        ]
      ]
      | inr kept ↦ elim (Bool-cases (is_split d)) [
        | inl split ↦
            let (db1, e, h) = restore_split kept split beyond in
            (db1, if_of_false _ _ kept ∙ ap ok e, h)
        | inr whole ↦
            let (db1, e, h) = restore_shrunk kept whole in (db1, if_of_false _ _ kept ∙ ap ok e, h)
      ]
    ]

    found : meta d.tick db' d.value_id ≡ some changed
    found = w.metas d.tick d.value_id ∙ ground arith

    forget : Db → Db
    forget db1 = record db1 {
      token_id_meta = remove (token_meta_key d.tick d.value_id) db1.token_id_meta;
    }

    rollback-eq :
        (db1 : Db)
        → (if is_removed d
            then revert_removed_range d.tick changed len' db'
            else ok (restore_range_maybe_split d.tick changed len' db'))
          ≡ ok (d.ranges_len, db1)
        → rollback_token_generation d.tick d.value_id db'
          ≡ undo_initial d.tick changed d.ranges_len (forget db1)
    unfolding rollback_token_generation forget
    rollback-eq db1 e = rw found (rw e refl)

    undo_first :
        (db1 : Db)
        → Reverted d db db' db1
        → d.is_initial ≡ true
        → d.ranges_len ≡ 1
        → (db2 : Db) × (undo_initial d.tick changed d.ranges_len (forget db1) ≡ ok db2)
          × Undone d db db2
    unfolding undo_initial forget
    undo_first db1 h first one = (
      record (drop_range d.tick d.range_index (forget db1)) {
        range_lengths = remove d.tick db1.range_lengths;
      },
      ground (arith, sub_u64-le d.ranges_len 1),
      record {
        len = get-remove_self d.tick db1.range_lengths ∙ sym (if_of_true _ _ first);
        slots = λ j. simp reads (ground (arith, h.slots j));
        metas = λ id. simp reads (ground (arith, h.metas id, w.metas d.tick id));
      },
    )

    undo_later :
        (db1 : Db)
        → Reverted d db db' db1
        → d.is_initial ≡ false
        → (db2 : Db) × (undo_initial d.tick changed d.ranges_len (forget db1) ≡ ok db2)
          × Undone d db db2
    unfolding undo_initial forget
    undo_later db1 h later = (
      forget db1,
      if_of_false _ _ later,
      record {
        len = h.len ∙ sym (if_of_false _ _ later);
        slots = λ j. ground (arith, h.slots j);
        metas = λ id. simp reads (ground (arith, h.metas id, w.metas d.tick id));
      },
    )

    -- The rollback of a draw succeeds.
    pub rollback-Undone :
        (d.is_initial ≡ true → d.ranges_len ≡ 1)
        → (db2 : Db) × (rollback_token_generation d.tick d.value_id db' ≡ ok db2) × Undone d db db2
    rollback-Undone single =
        let (db1, e, h) = reverted in
        elim (Bool-cases d.is_initial) [
          | inl first ↦
              let (db2, e2, u) = undo_first db1 h first (single first) in
              (db2, rollback-eq db1 e ∙ e2, u)
          | inr later ↦
              let (db2, e2, u) = undo_later db1 h later in (db2, rollback-eq db1 e ∙ e2, u)
        ]
