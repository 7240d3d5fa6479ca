-- ===== src/Analyzer/Parse.antt =====
-- `parse_script` of nexus/src/analyzer.rs: the items of a script, read one after the other; and
-- what its callers do with them (`nth(1)`, and `collect` into a `Result`).
use krc721_protocol.Prelude.{
  ℕ, zero, suc, ◌≤◌, ◌<◌, ◌≡◌, Option, none, some, List, [], ◌∷◌, length, arith, Option-cases, inl,
  inr,
}
use krc721_protocol.Inscription.Codes.{Script, Opcode, Item, opcode, tx_script_error}
use krc721_protocol.Analyzer.Result.{Result, ok, err, ◌>>=◌, tx_script}

-- The iterator ends when there is no next opcode. The fuel is the number of calls left.
unfoldable pub read_items : Script → ℕ → List ℕ → List Item
read_items s zero bytes = []
read_items s (suc fuel) bytes = elim (s.deserialize_next_opcode bytes) [
  | none ↦ []
  | some next ↦ next.0 ∷ read_items s fuel next.1
]

unfoldable pub parse_script : Script → List ℕ → List Item
parse_script s bytes = read_items s (length bytes) bytes

-- `nth(1)` of the iterator, whose first item may be an error.
abbrev pub second_item : List Item → Option Item
second_item [] = none
second_item (x ∷ []) = none
second_item (x ∷ y ∷ rest) = some y

-- `collect::<Result<Vec<_>, _>>` stops at the first error.
unfoldable pub collect_opcodes : List Item → Result (List Opcode)
collect_opcodes [] = ok []
collect_opcodes (opcode o ∷ rest) = do os ← collect_opcodes rest; ok (o ∷ os)
collect_opcodes (tx_script_error e ∷ rest) = err (tx_script e)

-- The iterator read to its end: the last call finds no opcode.
pub data Reads (s : Script) : List ℕ → List Item → Type 0 where
  end : (bytes : List ℕ) → s.deserialize_next_opcode bytes ≡ none → Reads s bytes []
  next :
      (bytes : List ℕ) (item : Item) (left : List ℕ) (items : List Item)
      → s.deserialize_next_opcode bytes ≡ some (item, left)
      → Reads s left items
      → Reads s bytes (item ∷ items)

-- A call that finds an opcode takes at least the byte of its code.
unfoldable pub Consumes : Script → Type 0
Consumes s =
    (bytes : List ℕ) (item : Item) (left : List ℕ)
    → s.deserialize_next_opcode bytes ≡ some (item, left)
    → length left < length bytes

module _ (s : Script) (consumes : Consumes s) where
  read_items-Reads :
      (fuel : ℕ) (bytes : List ℕ) → length bytes ≤ fuel → Reads s bytes (read_items s fuel bytes)
  unfolding read_items Consumes
  read_items-Reads zero bytes h = elim (Option-cases (s.deserialize_next_opcode bytes)) [
    | inl e ↦ end bytes e
    | inr (p, e) ↦ absurd (omega (arith, h, consumes bytes p.0 p.1 e))
  ]
  read_items-Reads (suc fuel) bytes h = elim (Option-cases (s.deserialize_next_opcode bytes)) [
    | inl e ↦ rw (read_items, e) (end bytes e)
    | inr (p, e) ↦
        rw (read_items, e)
          (next bytes p.0 p.1 (read_items s fuel p.1) e
            (read_items-Reads fuel p.1 (omega (arith, h, consumes bytes p.0 p.1 e))))
  ]

  -- Where an opcode takes at least one byte of a script, the fuel that is the length of the script
  -- is enough: the reader comes to the call that finds no opcode, and no item is left out.
  pub parse_script-Reads : (bytes : List ℕ) → Reads s bytes (parse_script s bytes)
  unfolding parse_script
  parse_script-Reads bytes = read_items-Reads (length bytes) bytes (omega arith)
