-- ===== src/TokenId/Tests.antt =====
-- The theorems on nexus/src/processor/token_id.rs at concrete inputs: a collection of ten ids, of
-- which none is drawn, and the draw of the fourth.
use krc721_protocol.Prelude.{
  ℕ, ◌≡◌, ◌≢◌, refl, some, [], ◌∷◌, arith, add_u64, sub_u64, words_eq, words_lt, false, true,
}
use krc721_protocol.Partition.{get, insert}
use krc721_protocol.Keys.{
  number_key, range_key_instance, token_meta_key_instance, range_key, token_meta_key,
}
use krc721_protocol.Db.{Db, empty_db}
use krc721_protocol.Outcome.{ok}
use krc721_protocol.TokenId.{generate_token_id, draw_id, select_range, update_range, split_range}
use krc721_protocol.TokenId.Mass.{mass}
use krc721_protocol.TokenId.Pool.{WellFormed, Takes, Undoable}
use krc721_protocol.TokenId.Generate.{generate_token_id-Takes, rollback-generate}

empty-WellFormed : WellFormed 7 10 0 empty_db
unfolding get mass
empty-WellFormed = record {
  ranges = record {
    filled = λ i h. absurd (omega (arith, h));
    bounds = λ i s z h. absurd (cc);
    disjoint = λ i j s z s' z' h h' ne. absurd (cc);
  };
  mass_bound = omega arith;
}

not_empty : get 7 empty_db.range_lengths ≢ some 0
unfolding get
not_empty e = cc

-- The range from 1 to 10 is split at 4.
abbrev drawn_db : Db
drawn_db = record empty_db {
  range_lengths = (7, 2) ∷ [];
  available_ranges = (range_key 7 0, (1, 3)) ∷ (range_key 7 1, (5, 6)) ∷ [];
  token_id_meta =
      (
        token_meta_key 7 4,
        record {
          range_index = 0;
          start = 1;
          size = 10;
          removed = false;
          split = true;
          is_initial = true;
        },
      )
      ∷ [];
}

draw_four : generate_token_id 7 3 10 0 empty_db ≡ ok (4, drawn_db)
unfolding generate_token_id draw_id select_range update_range split_range get insert words_eq
    words_lt add_u64 sub_u64
draw_four = refl

generate_token_id-Takes_example :
    (id : ℕ) × (db' : Db) × (generate_token_id 7 3 10 0 empty_db ≡ ok (id, db'))
    × Takes 7 10 0 empty_db id db'
generate_token_id-Takes_example =
    generate_token_id-Takes 7 3 10 0 empty_db (omega arith) (omega arith) empty-WellFormed not_empty

rollback-generate_example : Undoable 7 4 empty_db drawn_db
rollback-generate_example =
    rollback-generate 7 3 10 0 empty_db (omega arith) (omega arith) empty-WellFormed not_empty 4
      drawn_db draw_four
