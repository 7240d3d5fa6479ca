-- ===== src/TokenId/Draws.antt =====
-- A draw from a filled slot (nexus/src/processor/token_id.rs), seen on the set of ids that are left.
use mathlib.Core.Path.{fun_ext, subst}
use krc721_protocol.Prelude.{
  ℕ, ◌+◌, ◌-◌, ◌≤◌, ◌<◌, ◌≡◌, sym, ap, ◌∙◌, ◌≢◌, ◌↔◌, inl, inr, true, none, some, arith,
  Option-cases, u64_max,
}
use krc721_protocol.Keys.{number_key, range_key_instance}
use krc721_protocol.Db.{Db}
use krc721_protocol.Outcome.{ok}
use krc721_protocol.TokenId.{Draw, update_range, rollback_token_generation}
use krc721_protocol.TokenId.Slots.{slot, slots_len, drawn_slot, Fits, Drawn}
use krc721_protocol.TokenId.Update.{update_range-Drawn}
use krc721_protocol.TokenId.Ranges.{Slots, Ranges, Available, drawn-Ranges, drawn-Available}
use krc721_protocol.TokenId.Mass.{mass, mass-drawn, len-le-mass}
use krc721_protocol.TokenId.Undo.{Undone, rollback-Undone}
use krc721_protocol.TokenId.Pool.{
  WellFormed, Pool, Takes, pool_size, PoolOf-started, pool_size_of-started, drawn_slot-same,
}

-- The draw from slot `i` of the slots `at`, which are those of the database but for slot `i`.
module _ (max premint : ℕ) (d : Draw) (db : Db) (at : Slots) (small : max < u64_max)
    (r : Ranges (1 + premint) (max + 1) d.ranges_len at) (m : mass d.ranges_len at ≤ max - premint)
    (here : at d.range_index ≡ some (d.start, d.size))
    (agree : (j : ℕ) → j ≢ d.range_index → slot d.tick db j ≡ at j)
    (len : slots_len d.tick db ≡ d.ranges_len) (low : d.start ≤ d.value_id)
    (high : d.value_id < d.start + d.size) where
  pub draw-Fits : Fits d db
  draw-Fits = ground (arith, r.bounds d.range_index d.start d.size here, len-le-mass _ _ _ at r)

  pub draw-filled : (j : ℕ) → j < d.ranges_len → j ≢ d.range_index → slot d.tick db j ≢ none
  draw-filled j h ne = rw (agree j ne) (r.filled j h)

  module _ (db' : Db) (w : Drawn d db db') where
    slots-drawn :
        slot d.tick db'
        ≡ drawn_slot d.ranges_len d.range_index d.start d.size (d.value_id - d.start) at
    slots-drawn = fun_ext λ j.
        w.slots j
        ∙ drawn_slot-same d.ranges_len d.range_index d.start d.size (d.value_id - d.start)
            (slot d.tick db) at agree j

    draw-mass : mass (slots_len d.tick db') (slot d.tick db') + 1 ≡ mass d.ranges_len at
    draw-mass =
        rw (w.len, slots-drawn)
          (mass-drawn (1 + premint) (max + 1) d.ranges_len at r d.range_index d.start d.size
            (d.value_id - d.start) here (omega arith))

    draw-WellFormed : WellFormed d.tick max premint db'
    draw-WellFormed = record {
      ranges =
          rw (w.len, slots-drawn)
            (drawn-Ranges (1 + premint) (max + 1) d.ranges_len d.range_index d.start d.size
              (d.value_id - d.start) at r here (omega arith));
      mass_bound = omega (arith, draw-mass);
    }

    draw-Pool : (j : ℕ) → Pool d.tick max premint db' j ↔ (Available at j × (j ≢ d.value_id))
    draw-Pool j =
        subst (λ (P : Type 0). P ↔ (Available at j × (j ≢ d.value_id)))
          (sym (PoolOf-started (1 + premint) (max + 1) _ (slot d.tick db') j w.started))
          (subst (λ (s : Slots). Available s j ↔ (Available at j × (j ≢ d.value_id)))
            (sym slots-drawn)
            (subst
              (λ (v : ℕ).
                Available
                  (drawn_slot d.ranges_len d.range_index d.start d.size (d.value_id - d.start) at) j
                ↔ (Available at j × (j ≢ v)))
              (omega arith)
              (drawn-Available (1 + premint) (max + 1) d.ranges_len d.range_index d.start d.size
                (d.value_id - d.start) at r here (omega arith) j)))

    draw-size : pool_size d.tick max premint db' + 1 ≡ mass d.ranges_len at
    draw-size =
        ap (λ k. k + 1) (pool_size_of-started (max - premint) _ (slot d.tick db') w.started)
        ∙ draw-mass

    -- The draw, for a database `db0` before it whose ids are those of `at`.
    pub draw-Takes :
        (db0 : Db)
        → ((j : ℕ) → Pool d.tick max premint db0 j ↔ Available at j)
        → pool_size d.tick max premint db0 ≡ mass d.ranges_len at
        → Takes d.tick max premint db0 d.value_id db'
    draw-Takes db0 same size = record {
      was_available = (same d.value_id).1 (d.range_index, d.start, d.size, here, low, high);
      others_stay = λ j. (
        λ h. ((same j).1 ((draw-Pool j).0 h).0, ((draw-Pool j).0 h).1),
        λ h. (draw-Pool j).1 ((same j).0 h.0, h.1),
      );
      one_less = draw-size ∙ sym size;
      well_formed = draw-WellFormed;
    }

  pub draw_lem : (db' : Db) × (update_range d db ≡ ok db') × Drawn d db db'
  draw_lem = update_range-Drawn d db draw-Fits draw-filled

  draw-beyond : slot d.tick db d.ranges_len ≡ none
  draw-beyond = elim (Option-cases (slot d.tick db d.ranges_len)) [
    | inl none_there ↦ none_there
    | inr (p, e) ↦ absurd (
        ground (
          arith,
          agree d.ranges_len,
          r.bounds d.ranges_len p.0 p.1,
          r.bounds d.range_index d.start d.size here,
          e,
        ))
  ]

  -- The rollback of the draw.
  pub draw_undo :
      (db' : Db)
      → Drawn d db db'
      → (d.is_initial ≡ true → d.ranges_len ≡ 1)
      → (db2 : Db) × (rollback_token_generation d.tick d.value_id db' ≡ ok db2) × Undone d db db2
  draw_undo db' w single = rollback-Undone d db db' draw-Fits w draw-filled draw-beyond single
