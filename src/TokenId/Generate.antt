-- ===== src/TokenId/Generate.antt =====
-- `generate_token_id` and `rollback_token_generation` of nexus/src/processor/token_id.rs, against
-- the set of the ids that are left.
use mathlib.Core.Path.{subst}
use krc721_protocol.Prelude.{
  ℕ, ◌+◌, ◌-◌, ◌%◌, ◌≤◌, ◌<◌, ◌≡◌, refl, sym, ap, ◌∙◌, ◌≢◌, ◌↔◌, inl, inr, true, false, none, some,
  ◌==◌, if◌then◌else◌, arith, Option-cases, get_or, u64_max, add_u64, add_u64-lt, sub_u64-le,
}
use krc721_protocol.Partition.{get}
use krc721_protocol.Partition.Laws.{get-insert_self}
use krc721_protocol.Model.{Tick}
use krc721_protocol.Keys.{number_key, range_key_instance}
use krc721_protocol.Db.{Db}
use krc721_protocol.Outcome.{Outcome, ok, err}
use krc721_protocol.TokenId.{
  draw_of, draw_id, select_range, Selection, generate_token_id, rollback_token_generation,
  update_range, put_length,
}
use krc721_protocol.TokenId.Slots.{slot, slots_len, meta}
use krc721_protocol.TokenId.Ranges.{Slots, Ranges, Available}
use krc721_protocol.TokenId.Mass.{mass, mass_one, put_slot}
use native.Mathlib.Nat.{mod-lt}
use krc721_protocol.TokenId.Pool.{WellFormed, Pool, Takes, Undoable, pool_size}
use krc721_protocol.TokenId.Draws.{draw_lem, draw-Takes, draw_undo}
use krc721_protocol.TokenId.Undo.{Undone}

-- The draw of an id from a range whose update succeeds.
draw_id-eq :
    (t : Tick) (entropy max : ℕ) (sel : Selection) (start size : ℕ) (db' : Db)
    → max < u64_max
    → 0 < start
    → 0 < size
    → start + size ≤ max + 1
    → update_range (draw_of t sel start size (start + entropy % size)) sel.db ≡ ok db'
    → draw_id t entropy max sel start size ≡ ok (start + entropy % size, db')
unfolding draw_id
draw_id-eq t entropy max sel start size db' small pos some_left fits e =
    let lt : entropy % size < size = mod-lt entropy some_left in
    let plain : add_u64 start (entropy % size) ≡ start + entropy % size =
      add_u64-lt start (entropy % size) (omega arith) in
    rw plain (ground (arith, e, lt))

abbrev selected : Tick → ℕ → ℕ → Db → Selection
selected t entropy n db = record {
  range_index = entropy % n;
  range = slot t db (entropy % n);
  is_initial = false;
  ranges_len = n;
  db = db;
}

select_range-started :
    (t : Tick) (entropy max premint n : ℕ) (db : Db)
    → get t db.range_lengths ≡ some n
    → n ≢ 0
    → select_range t entropy max premint db ≡ selected t entropy n db
unfolding select_range
select_range-started t entropy max premint n db e ne = rw e (ground arith)

abbrev first_selection : Tick → ℕ → ℕ → Db → Selection
first_selection t max premint db = record {
  range_index = 0;
  range = some (1 + premint, max - premint);
  is_initial = true;
  ranges_len = 1;
  db = put_length t 1 db;
}

select_range-first :
    (t : Tick) (entropy max premint : ℕ) (db : Db)
    → max < u64_max
    → premint < max
    → get t db.range_lengths ≡ none
    → select_range t entropy max premint db ≡ first_selection t max premint db
unfolding select_range
select_range-first t entropy max premint db small lt e =
    rw (e, add_u64-lt 1 premint (omega arith), sub_u64-le max premint (omega arith) (omega arith))

-- The slots at the first draw: one that holds all the ids.
abbrev first_slots : Tick → ℕ → ℕ → Db → Slots
first_slots t max premint db = put_slot 0 (some (1 + premint, max - premint)) (slot t db)

first-Ranges :
    (lo hi size : ℕ) (at : Slots)
    → 0 < size
    → lo + size ≤ hi
    → Ranges lo hi 0 at
    → Ranges lo hi 1 (put_slot 0 (some (lo, size)) at)
first-Ranges lo hi size at some_left fits r = record {
  filled = λ i h. ground arith;
  bounds = λ i s z h. ground (arith, r.bounds i s z);
  disjoint = λ i j s z s' z' h h' ne. ground (arith, r.bounds i s z, r.bounds j s' z');
}

first-Available :
    (lo hi size id : ℕ) (at : Slots)
    → lo + size ≡ hi
    → Ranges lo hi 0 at
    → ((lo ≤ id) × (id < hi)) ↔ Available (put_slot 0 (some (lo, size)) at) id
first-Available lo hi size id at all r = (
  λ h. (0, lo, size, refl, h.0, omega arith),
  λ (i, s, z, e, l, h). ground (arith, r.bounds i s z),
)

module _ (t : Tick) (entropy max premint : ℕ) (db : Db) (small : max < u64_max)
    (some_ids : premint < max) (w : WellFormed t max premint db) where
  abbrev Result : Type 0
  Result =
      (id : ℕ) × (db' : Db) × (generate_token_id t entropy max premint db ≡ ok (id, db'))
      × Takes t max premint db id db'
      × Undoable t id db db'

  generate-eq :
      (sel : Selection) (start size : ℕ)
      → select_range t entropy max premint db ≡ sel
      → sel.range ≡ some (start, size)
      → generate_token_id t entropy max premint db ≡ draw_id t entropy max sel start size
  unfolding generate_token_id
  generate-eq sel start size e h = rw e (rw h refl)

  -- The ranges before the draw, against the database that the draw starts from.
  record Before (sel : Selection) (start size : ℕ) : Type 0 where
    len : get t db.range_lengths ≡ (if sel.is_initial then none else some sel.ranges_len)
    slots :
        (j : ℕ)
        → slot t db j ≡ (
            if j == sel.range_index
            then (if sel.is_initial then none else some (start, size))
            else slot t sel.db j)
    metas : (j : ℕ) → meta t sel.db j ≡ meta t db j

  restore :
      (id : ℕ) (sel : Selection) (start size : ℕ)
      → Before sel start size
      → (db' : Db)
      → (db2 : Db) × (rollback_token_generation t id db' ≡ ok db2)
        × Undone (draw_of t sel start size id) sel.db db2
      → Undoable t id db db'
  restore id sel start size b db' (db2, e, u) = (
    db2,
    e,
    record {
      len = u.len ∙ sym b.len;
      slots = λ j. u.slots j ∙ sym (b.slots j);
      metas = λ j. ground (arith, u.metas j, b.metas j);
    },
  )

  -- A draw from the selected range, where the slots `at` hold the ids that are left.
  generate_from :
      (sel : Selection) (at : Slots) (start size : ℕ)
      → select_range t entropy max premint db ≡ sel
      → sel.range ≡ some (start, size)
      → Ranges (1 + premint) (max + 1) sel.ranges_len at
      → mass sel.ranges_len at ≤ max - premint
      → at sel.range_index ≡ some (start, size)
      → ((j : ℕ) → j ≢ sel.range_index → slot t sel.db j ≡ at j)
      → slots_len t sel.db ≡ sel.ranges_len
      → ((j : ℕ) → Pool t max premint db j ↔ Available at j)
      → pool_size t max premint db ≡ mass sel.ranges_len at
      → (sel.is_initial ≡ true → sel.ranges_len ≡ 1)
      → Before sel start size
      → Result
  generate_from sel at start size es er r m here agree len same total single before =
      let b = r.bounds sel.range_index start size here in
      let lt : entropy % size < size = mod-lt entropy b.1 in
      let d = draw_of t sel start size (start + entropy % size) in
      let low : start ≤ start + entropy % size = omega arith in
      let high : start + entropy % size < start + size = omega arith in
      let (db', u, drawn) = draw_lem max premint d sel.db at small r m here agree len low high in
      (
        start + entropy % size,
        db',
        generate-eq sel start size es er
            ∙ draw_id-eq t entropy max sel start size db' small (omega arith) b.1 b.3 u,
        draw-Takes max premint d sel.db at small r m here agree len low high db' drawn db same
            total,
        restore (start + entropy % size) sel start size before db'
            (draw_undo max premint d sel.db at small r m here agree len low high db' drawn single),
      )

  -- Any later draw takes an id from a slot that the entropy selects.
  generate_started : (n : ℕ) → get t db.range_lengths ≡ some n → n ≢ 0 → Result
  generate_started n e ne = elim (Option-cases (slot t db (entropy % n))) [
    | inl empty ↦ absurd (w.ranges.filled (entropy % n) (rw e (mod-lt entropy (omega arith))) empty)
    | inr (range, here) ↦
        generate_from (selected t entropy n db) (slot t db) range.0 range.1
          (select_range-started t entropy max premint n db e ne) here (rw e at w.ranges)
          (rw e at w.mass_bound) here (λ j h. refl) (rw e) (λ j. rw e (λ h. h, λ h. h)) (rw e)
          (λ h. cc) (record { len = e; slots = λ j. ground arith; metas = λ j. refl })
  ]

  -- The first draw takes an id from all those of the collection.
  generate_first : get t db.range_lengths ≡ none → Result
  generate_first e =
      generate_from (first_selection t max premint db) (first_slots t max premint db) (1 + premint)
        (max - premint) (select_range-first t entropy max premint db small some_ids e) refl
        (first-Ranges _ _ (max - premint) (slot t db) (omega arith) (omega arith)
          (rw e at w.ranges))
        (rw mass_one (omega arith)) refl (λ j h. ground arith) (rw get-insert_self)
        (λ j.
          rw e (first-Available _ _ (max - premint) j (slot t db) (omega arith) (rw e at w.ranges)))
        (rw (e, mass_one)) (λ h. refl)
        (record { len = e; slots = λ j. first_slot j; metas = λ j. refl })
    where
      first_slot : (j : ℕ) → slot t db j ≡ (if j == 0 then none else slot t db j)
      first_slot j = elim (Option-cases (slot t db j)) [
        | inl free ↦ ground arith
        | inr (p, taken) ↦
            absurd (omega (arith, w.ranges.bounds j p.0 p.1 taken, ap (λ o. get_or o 0) e))
      ]

  generated : get t db.range_lengths ≢ some 0 → Result
  generated left = elim (Option-cases (get t db.range_lengths)) [
    | inl e ↦ generate_first e
    | inr (n, e) ↦ generate_started n e (λ z. left (e ∙ ap some z))
  ]

  -- In a collection with a maximum below u64::MAX and some ids after the premint, a draw from
  -- well-formed ranges that are not all drawn does not panic: it returns an id that was available
  -- and takes it, and nothing else, out of the available ids, one fewer than before, and the
  -- ranges stay well formed.
  pub generate_token_id-Takes :
      get t db.range_lengths ≢ some 0
      → (id : ℕ) × (db' : Db) × (generate_token_id t entropy max premint db ≡ ok (id, db'))
        × Takes t max premint db id db'
  generate_token_id-Takes left = let (id, db', e, takes, _) = generated left in (id, db', e, takes)

  -- In a collection with a maximum below u64::MAX and some ids after the premint, whose ranges are
  -- well formed and not all drawn, the rollback of a drawn id does not panic, brings the ranges
  -- and their number back as they were before the draw, and leaves no metadata of the id.
  pub rollback-generate :
      get t db.range_lengths ≢ some 0
      → (id : ℕ) (db' : Db) → generate_token_id t entropy max premint db ≡ ok (id, db')
      → Undoable t id db db'
  rollback-generate left id db' e =
      let (id0, db0, e0, _, undoable) = generated left in
      let same : ok (id0, db0) ≡ ok (id, db') = sym e0 ∙ e in
      subst (λ (o : Outcome (ℕ × Db)). undoable_in o) same undoable
    where
      undoable_in : Outcome (ℕ × Db) → Type 0
      undoable_in o = elim o [ ok p ↦ Undoable t p.0 db p.1 | err _ ↦ Unit ]
