-- ===== src/TokenId/Frame.antt =====
-- What else than the ranges a draw of nexus/src/processor/token_id.rs and its rollback write.
use krc721_protocol.Prelude.{ℕ, ◌%◌, ◌≡◌, ap, ◌∙◌, add_u64, sub_u64, inl, inr, Option-cases, arith}
use krc721_protocol.Partition.{get}
use krc721_protocol.Model.{Tick}
use krc721_protocol.Keys.{
  number_key, range_key_instance, token_meta_key_instance, range_key, token_meta_key,
}
use krc721_protocol.Db.{Db}
use krc721_protocol.Outcome.{ok, Outcome-cases}
use krc721_protocol.TokenId.{
  Draw, Selection, remove_range, shrink_range, split_range, update_range, select_range, draw_of,
  draw_id, generate_token_id, revert_removed_range, restore_range_maybe_split, undo_initial,
  rollback_token_generation,
}

-- All but the ranges is as it was.
abbrev pub Outside : Db → Db → Type 0
Outside db db' = db' ≡ record db {
  available_ranges = db'.available_ranges;
  range_lengths = db'.range_lengths;
  token_id_meta = db'.token_id_meta;
}

Outside-trans : (a b c : Db) → Outside a b → Outside b c → Outside a c
Outside-trans a b c p q =
    q
    ∙ ap
        (λ (x : Db). record x {
          available_ranges = c.available_ranges;
          range_lengths = c.range_lengths;
          token_id_meta = c.token_id_meta;
        })
        p

update_range-Outside : (d : Draw) (db db' : Db) → update_range d db ≡ ok db' → Outside db db'
unfolding update_range remove_range shrink_range split_range
update_range-Outside d db db' h =
    elim (Option-cases (get (range_key d.tick (sub_u64 d.ranges_len 1)) db.available_ranges)) [
      | inl e ↦ ground arith
      | inr (r, e) ↦ ground arith
    ]

select_range-Outside :
    (t : Tick) (entropy max premint : ℕ) (db : Db)
    → Outside db (select_range t entropy max premint db).db
unfolding select_range
select_range-Outside t entropy max premint db = ground arith

draw_id-Outside :
    (t : Tick) (entropy max : ℕ) (sel : Selection) (start size : ℕ) (id : ℕ) (db' : Db)
    → draw_id t entropy max sel start size ≡ ok (id, db')
    → Outside sel.db db'
unfolding draw_id
draw_id-Outside t entropy max sel start size id db' h =
    elim (Outcome-cases
      (update_range (draw_of t sel start size (add_u64 start (entropy % size))) sel.db)) [
        | inl (e, u) ↦ ground arith
        | inr (db1, u) ↦ ground (
          arith,
          update_range-Outside (draw_of t sel start size (add_u64 start (entropy % size))) sel.db
              db1 u,
        )
      ]

-- A draw writes nothing but ranges.
pub generate_token_id-Outside :
    (t : Tick) (entropy max premint : ℕ) (db : Db) (id : ℕ) (db' : Db)
    → generate_token_id t entropy max premint db ≡ ok (id, db')
    → Outside db db'
unfolding generate_token_id
generate_token_id-Outside t entropy max premint db id db' h =
    elim (Option-cases (select_range t entropy max premint db).range) [
      | inl none_left ↦ absurd (ground arith)
      | inr (r, e) ↦
          Outside-trans db (select_range t entropy max premint db).db db'
            (select_range-Outside t entropy max premint db)
            (draw_id-Outside t entropy max (select_range t entropy max premint db) r.0 r.1 id db'
              (ground arith))
    ]

-- Neither does the rollback of a draw.
pub rollback-Outside :
    (t : Tick) (id : ℕ) (db db' : Db) → rollback_token_generation t id db ≡ ok db' → Outside db db'
unfolding rollback_token_generation revert_removed_range restore_range_maybe_split undo_initial
rollback-Outside t id db db' h = elim (Option-cases (get (token_meta_key t id) db.token_id_meta)) [
  | inl none_left ↦ ground arith
  | inr (p, e) ↦ elim (Option-cases (get (range_key t p.range_index) db.available_ranges)) [
    | inl f ↦ ground arith
    | inr (r, f) ↦ ground arith
  ]
]
