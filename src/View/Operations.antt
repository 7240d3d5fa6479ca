-- ===== src/View/Operations.antt =====
-- The pages of `krc721_op_list` of nexus/src/accessor.rs, asked for one after the other.
use mathlib.Core.List.{reverse-append, reverse-reverse, reverse-cons, append_assoc}
use krc721_protocol.Prelude.{
  ℕ, ◌<◌, ◌≡◌, refl, sym, ap, ◌∙◌, Option, some, List, [], ◌∷◌, ◌++◌, length, reverse, arith, ltb,
  if◌then◌else◌, get_or, u64_max,
}
use krc721_protocol.Partition.Order.{Sorted}
use krc721_protocol.Model.{CheckedOperation}
use krc721_protocol.Keys.{number_key}
use krc721_protocol.Db.{Db}
use krc721_protocol.View.{
  done, Direction, forward, backward, RequestArgs, operations_in, resolve_u64_iter_args,
  krc721_op_list, max_iterator_limit,
}
use krc721_protocol.View.Requests.{op_list}
use krc721_protocol.View.Ranges.{range_from-middle, range_to-middle}
use krc721_protocol.View.Follow.{follow, Paged, page-short, page-long, follow-shows}

-- Where a reader without an offset starts.
abbrev pub first_offset : Direction → ℕ
first_offset forward = 0
first_offset backward = u64_max

abbrev pub resolved_limit : ℕ → ℕ
resolved_limit n = if ltb max_iterator_limit n then max_iterator_limit else n

abbrev pub asking : Direction → ℕ → Option ℕ → RequestArgs ℕ
asking d n o = record { offset = o; direction = some d; limit = some n }

-- What there is from an offset on.
abbrev pub operations_from : Direction → Db → Option ℕ → List (ℕ × CheckedOperation)
operations_from d db o = operations_in d (get_or o (first_offset d)) db

module _ {ℓ} {A : Type ℓ} (m xs : List A) (t : A) (ys : List A) where
  -- What a list has before an element, when the list reads so from its end.
  pub turned : reverse m ≡ xs ++ (t ∷ ys) → m ≡ reverse ys ++ (t ∷ reverse xs)
  turned e =
      sym (reverse-reverse m)
      ∙ ap (λ l. reverse l) e
      ∙ reverse-append xs (t ∷ ys)
      ∙ ap (λ l. l ++ reverse xs) (reverse-cons t ys)
      ∙ append_assoc (reverse ys) (t ∷ []) (reverse xs)

  pub turned_back : m ≡ reverse ys ++ (t ∷ []) → reverse m ≡ t ∷ ys
  turned_back e =
      ap (λ l. reverse l) e
      ∙ reverse-append (reverse ys) (t ∷ [])
      ∙ ap (λ l. t ∷ l) (reverse-reverse ys)

operations_in-resumes :
    (d : Direction) (o : ℕ) (db : Db) (xs : List (ℕ × CheckedOperation)) (t : ℕ × CheckedOperation)
    (ys : List (ℕ × CheckedOperation))
    → Sorted db.operation_history
    → operations_in d o db ≡ xs ++ (t ∷ ys)
    → operations_in d t.0 db ≡ t ∷ ys
operations_in-resumes forward o db xs t ys s e =
    range_from-middle (o ∷ []) db.operation_history xs t.0 t.1 ys s e
operations_in-resumes backward o db xs t ys s e = turned_back _ xs t ys (
    range_to-middle (o ∷ []) db.operation_history (reverse ys) t.0 t.1 (reverse xs) s
      (turned _ xs t ys e))

module _ (d : Direction) (n : ℕ) (db : Db) (s : Sorted db.operation_history) where
  op_list-Paged :
      Paged
        (λ (e : ℕ × CheckedOperation). e.0)
        (resolved_limit n)
        (λ o. op_list (asking d n o) db)
        (operations_from d db)
  unfolding op_list resolve_u64_iter_args krc721_op_list
  op_list-Paged = record {
    short =
        λ o. page-short (λ e. done e) (λ e. e.0) (operations_from d db o) _ refl (resolved_limit n);
    long =
        λ o. page-long (λ e. done e) (λ e. e.0) (operations_from d db o) _ refl (resolved_limit n);
    resumes = λ o xs t ys e. operations_in-resumes d _ db xs t ys s e;
  }

  -- In a sorted history, the pages of the operations, asked for one after the other in either
  -- direction and with any limit but 0, come without an error, end after as many requests as there
  -- are operations and one, and give every operation from the offset on (or, with no offset, from
  -- the end where the direction starts), once and in order.
  pub op_list-follow :
      (fuel : ℕ) (o : Option ℕ)
      → 0 < n
      → length (operations_from d db o) < fuel
      → follow (λ p. op_list (asking d n p) db) fuel o ≡ done (operations_from d db o)
  op_list-follow fuel o room enough =
      follow-shows (λ (e : ℕ × CheckedOperation). e.0) (resolved_limit n)
        (λ p. op_list (asking d n p) db) (operations_from d db) op_list-Paged (ground (arith, room))
        fuel o enough
