-- ===== src/Processor/Chain/Queue.antt =====
-- The queue of historical changes of nexus/src/processor.rs: `process_queue` puts changes at its end,
-- and `process_queue_application` applies them from its front.
use mathlib.Core.Path.{subst}
use krc721_protocol.Prelude.{
  ℕ, suc, ◌+◌, ◌-◌, ◌<◌, ◌≡◌, refl, sym, ap, ◌∙◌, false, some, List, [], ◌∷◌, ◌++◌, arith, inl, inr,
  if◌then◌else◌, length, ◌==◌, u64_max, ◌↔◌, add_u64, mul_u64, words_eq, words_lt, if_of_false,
}
use krc721_protocol.Partition.{
  Partition, get, insert, remove, remove_if_exists, first_entry, last_entry,
}
use krc721_protocol.Model.{VirtualChainChanges}
use krc721_protocol.Keys.{number_key}
use krc721_protocol.Db.{Db}
use krc721_protocol.Outcome.{Outcome, ok, err, Outcome-cases, ok_inj}
use krc721_protocol.External.{External}
use krc721_protocol.Processor.Apply.{process_additions}
use krc721_protocol.Processor.Chain.{
  entry_key, removal_phase, addition_phase, process_chain_changes_wtx, next_key, process_queue,
  apply_queue, process_queue_application_wtx, stats_addition, stats_removal, process_removal,
}
use krc721_protocol.Processor.Chain.Additions.{process_additions-queue}
use krc721_protocol.Processor.Chain.Removals.{SameQueue, process_removal-queue}

removal_phase-queue :
    (ext : External) (vcc : VirtualChainChanges) (db : Db) {db' : Db}
    → removal_phase ext vcc db ≡ ok db'
    → SameQueue db' db
unfolding removal_phase stats_removal
removal_phase-queue ext vcc db e =
    elim (Outcome-cases
      (process_removal ext vcc.removed_chain_block_hashes vcc.forced_rollback_blue_score db)) [
        | inl (x, f) ↦ ground (arith, e, f)
        | inr ((d, db1), f) ↦ ground (
          arith,
          e,
          f,
          process_removal-queue ext vcc.removed_chain_block_hashes vcc.forced_rollback_blue_score db
              f,
        )
      ]

addition_phase-queue :
    (ext : External) (vcc : VirtualChainChanges) (db : Db) {db' : Db}
    → addition_phase ext vcc db ≡ ok db'
    → SameQueue db' db
unfolding addition_phase stats_addition
addition_phase-queue ext vcc db e = elim (Outcome-cases (process_additions ext vcc.mergesets db)) [
  | inl (x, f) ↦ ground (arith, e, f)
  | inr ((d, db1), f) ↦ ground (arith, e, f, process_additions-queue ext vcc.mergesets db f)
]

-- Chain changes leave the queue as it is.
pub process_chain_changes_wtx-queue :
    (ext : External) (vcc : VirtualChainChanges) (db : Db) {db' : Db}
    → process_chain_changes_wtx ext vcc db ≡ ok db'
    → SameQueue db' db
unfolding process_chain_changes_wtx
process_chain_changes_wtx-queue ext vcc db {db'} e =
    elim (Outcome-cases (removal_phase ext vcc db)) [
      | inl (x, f) ↦ ground (arith, e, f)
      | inr (db1, f) ↦
          let rest : addition_phase ext vcc db1 ≡ ok db' = ground (arith, e, f) in
          addition_phase-queue ext vcc db1 rest ∙ removal_phase-queue ext vcc db f
    ]

-- The entries have consecutive keys, and carry these changes in this order.
pub data Holds : ℕ → List VirtualChainChanges → Partition ℕ VirtualChainChanges → Type 0 where
  empty : (k : ℕ) → Holds k [] []
  entry :
      (k : ℕ) (vcc : VirtualChainChanges) (vccs : List VirtualChainChanges)
      (queue : Partition ℕ VirtualChainChanges)
      → Holds (k + 1) vccs queue
      → Holds k (vcc ∷ vccs) ((k, vcc) ∷ queue)

remove_below :
    (i j : ℕ) {vccs : List VirtualChainChanges} {queue : Partition ℕ VirtualChainChanges}
    → i < j
    → Holds j vccs queue
    → remove i queue ≡ queue
unfolding remove words_eq
remove_below i j l (empty _) = refl
remove_below i j l (entry _ vcc vccs queue h) =
    ground (arith, l, remove_below i (j + 1) (omega (arith, l)) h)

remove_front :
    (i : ℕ) (vcc : VirtualChainChanges) {vccs : List VirtualChainChanges}
    {queue : Partition ℕ VirtualChainChanges}
    → Holds (i + 1) vccs queue
    → remove_if_exists i ((i, vcc) ∷ queue) ≡ (some vcc, queue)
unfolding remove_if_exists get remove words_eq
remove_front i vcc h = ground (arith, remove_below i (i + 1) (omega arith) h)

abbrev tail_of : Partition ℕ VirtualChainChanges → Partition ℕ VirtualChainChanges
tail_of [] = []
tail_of (e ∷ queue) = queue

-- The database without the front of the queue.
abbrev pub dequeued : Db → Db
dequeued db = record db { notification_queue = tail_of db.notification_queue }

-- A queue of changes that is applied from its front: each change is one step of the processor, on the
-- database without it.
pub data Applied (ext : External) : List VirtualChainChanges → Db → Db → Type 0 where
  done : (db : Db) → db.notification_queue ≡ [] → Applied ext [] db db
  step :
      (vcc : VirtualChainChanges) (vccs : List VirtualChainChanges) (db db1 db' : Db)
      → process_chain_changes_wtx ext vcc (dequeued db) ≡ ok db1
      → Applied ext vccs db1 db'
      → Applied ext (vcc ∷ vccs) db db'

module _ (ext : External) where
  apply_queue-front :
      (n i : ℕ) (vcc : VirtualChainChanges) {vccs : List VirtualChainChanges}
      {queue : Partition ℕ VirtualChainChanges} (db : Db)
      → db.notification_queue ≡ (i, vcc) ∷ queue
      → Holds (i + 1) vccs queue
      → apply_queue ext (suc n) i db ≡ elim (process_chain_changes_wtx ext vcc (dequeued db)) [
        | err e ↦ err e
        | ok db1 ↦ apply_queue ext n (i + 1) db1
      ]
  unfolding apply_queue
  apply_queue-front n i vcc db e h = rw (apply_queue, e, remove_front i vcc h) refl

  kept_queue :
      (i : ℕ) (vcc : VirtualChainChanges) {queue : Partition ℕ VirtualChainChanges} (db : Db)
      {db1 : Db}
      → db.notification_queue ≡ (i, vcc) ∷ queue
      → process_chain_changes_wtx ext vcc (dequeued db) ≡ ok db1
      → db1.notification_queue ≡ queue
  kept_queue i vcc {queue} db e run =
      process_chain_changes_wtx-queue ext vcc (dequeued db) run ∙ ap (λ q. tail_of q) e

  Applied-apply_queue :
      (i : ℕ) {vccs : List VirtualChainChanges} {queue : Partition ℕ VirtualChainChanges}
      {db db' : Db}
      → db.notification_queue ≡ queue
      → Holds i vccs queue
      → Applied ext vccs db db'
      → apply_queue ext (length vccs) i db ≡ ok db'
  unfolding apply_queue
  Applied-apply_queue i e (empty _) (done db none_left) = refl
  Applied-apply_queue i e (entry _ vcc vccs queue h) (step _ _ db db1 db' run rest) =
      let applied = Applied-apply_queue (i + 1) (kept_queue i vcc db e run) h rest in
      apply_queue-front (length vccs) i vcc db e h ∙ ground (arith, run, applied)

  apply_queue-Applied :
      (i : ℕ) {vccs : List VirtualChainChanges} {queue : Partition ℕ VirtualChainChanges}
      {db db' : Db}
      → db.notification_queue ≡ queue
      → Holds i vccs queue
      → apply_queue ext (length vccs) i db ≡ ok db'
      → Applied ext vccs db db'
  unfolding apply_queue
  apply_queue-Applied i {db = db} e (empty _) a =
      subst (λ x. Applied ext [] db x) (ok_inj a) (done db e)
  apply_queue-Applied i {db = db} {db' = db'} e (entry _ vcc vccs queue h) a =
      elim (Outcome-cases (process_chain_changes_wtx ext vcc (dequeued db))) [
        | inl (x, run) ↦ ground (arith, run, sym (apply_queue-front (length vccs) i vcc db e h) ∙ a)
        | inr (db1, run) ↦
            let rest : apply_queue ext (length vccs) (i + 1) db1 ≡ ok db' =
              ground (arith, run, sym (apply_queue-front (length vccs) i vcc db e h) ∙ a) in
            step vcc vccs db db1 db' run
              (apply_queue-Applied (i + 1) (kept_queue i vcc db e run) h rest)
      ]

-- The last entry and its key.
last_of :
    (k j : ℕ) (vcc : VirtualChainChanges) {vccs : List VirtualChainChanges}
    {queue : Partition ℕ VirtualChainChanges}
    → j ≡ k + 1
    → Holds j vccs queue
    → (x : ℕ × VirtualChainChanges) × (last_entry ((k, vcc) ∷ queue) ≡ some x)
      × (x.0 ≡ k + length vccs)
last_of k j vcc e (empty _) = ((k, vcc), refl, omega arith)
last_of k j vcc e (entry _ after vccs queue h) =
    let (x, f, g) = last_of j (j + 1) after refl h in (x, f, omega (arith, e, g))

insert_last :
    (k n : ℕ) (vcc : VirtualChainChanges) {vccs : List VirtualChainChanges}
    {queue : Partition ℕ VirtualChainChanges}
    → n ≡ k + length vccs
    → Holds k vccs queue
    → Holds k (vccs ++ vcc ∷ []) (insert n vcc queue)
unfolding insert words_eq words_lt
insert_last k n vcc e (empty _) =
    let same : n ≡ k = omega (arith, e) in
    subst (λ m. Holds k (vcc ∷ []) ((m, vcc) ∷ [])) (sym same) (entry k vcc [] [] (empty (k + 1)))
insert_last k n vcc e (entry _ first vccs queue h) =
    let after : insert n vcc ((k, first) ∷ queue) ≡ (k, first) ∷ insert n vcc queue =
      ground (arith, e) in
    subst (λ q. Holds k (first ∷ (vccs ++ vcc ∷ [])) q) (sym after)
      (entry k first (vccs ++ vcc ∷ []) (insert n vcc queue)
        (insert_last (k + 1) n vcc (omega (arith, e)) h))

next_key-Holds :
    {vccs : List VirtualChainChanges} {queue : Partition ℕ VirtualChainChanges} (db : Db)
    → db.notification_queue ≡ queue
    → Holds 1 vccs queue
    → length vccs < u64_max
    → next_key db ≡ 1 + length vccs
unfolding next_key add_u64
next_key-Holds db e (empty _) room = rw e refl
next_key-Holds db e (entry _ vcc vccs queue h) room =
    let (x, f, g) = last_of 1 (1 + 1) vcc refl h in
    let from_last : next_key db ≡ add_u64 x.0 1 = rw (next_key, e, f) refl in
    from_last ∙ omega (arith, g, room)

application :
    (ext : External) {vccs : List VirtualChainChanges} {queue : Partition ℕ VirtualChainChanges}
    (db : Db)
    → db.notification_queue ≡ queue
    → Holds 1 vccs queue
    → length vccs < u64_max
    → process_queue_application_wtx ext db ≡ apply_queue ext (length vccs) 1 db
unfolding process_queue_application_wtx mul_u64 apply_queue
application ext db e (empty _) room = rw e refl
application ext db e (entry _ vcc vccs queue h) room =
    let (x, f, g) = last_of 1 (1 + 1) vcc refl h in
    let full : (mul_u64 1 x.0 == 0) ≡ false = ground (arith, g, room) in
    let rounds : x.0 + 1 - 1 ≡ length (vcc ∷ vccs) = omega (arith, g) in
    let between : ℕ → ℕ → Outcome Db =
      λ a b. if mul_u64 a b == 0 then ok db else apply_queue ext (b + 1 - a) a db in
    let first : entry_key (first_entry db.notification_queue) ≡ 1 =
      ap (λ q. entry_key (first_entry q)) e in
    let last : entry_key (last_entry db.notification_queue) ≡ x.0 =
      ap (λ q. entry_key (last_entry q)) e ∙ ap (λ o. entry_key o) f in
    ap (λ a. between a (entry_key (last_entry db.notification_queue))) first
    ∙ ap (λ b. between 1 b) last
    ∙ if_of_false (ok db) (apply_queue ext (x.0 + 1 - 1) 1 db) full
    ∙ ap (λ n. apply_queue ext n 1 db) rounds

module _ (ext : External) (vcc : VirtualChainChanges) (vccs : List VirtualChainChanges)
    (db db' : Db) where
  -- A queue of fewer than u64::MAX changes, with keys that count from 1, is a first-in, first-out
  -- queue: new changes go behind those that wait, under the next key, and the application of the
  -- queue returns a database exactly if the waiting changes, each taken from the front and applied
  -- as one step of the processor to what the steps before it left, lead to that database with an
  -- empty queue.
  pub process_queue-refines :
      length vccs < u64_max
      → Holds 1 vccs db.notification_queue
      → Holds 1 (vccs ++ vcc ∷ []) (process_queue vcc db).notification_queue
        × ((process_queue_application_wtx ext db ≡ ok db') ↔ Applied ext vccs db db')
  unfolding process_queue
  process_queue-refines room h =
      let same = application ext db refl h room in
      (
        insert_last 1 (next_key db) vcc (next_key-Holds db refl h room) h,
        (
          λ a. apply_queue-Applied ext 1 refl h (sym same ∙ a),
          λ a. same ∙ Applied-apply_queue ext 1 refl h a,
        ),
      )
