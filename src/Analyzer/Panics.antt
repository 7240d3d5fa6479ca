-- ===== src/Analyzer/Panics.antt =====
-- The inputs on which `detect_krc721` of nexus/src/analyzer.rs panics.
use krc721_protocol.Prelude.{◌≡◌, none, List}
use krc721_protocol.Inscription.Codes.{Opcode, Item}
use krc721_protocol.Inscription.Ticks.{as_str}
use krc721_protocol.Analyzer.Result.{ok}
use krc721_protocol.Analyzer.Source.{ContextTransaction}
use krc721_protocol.Analyzer.Arms.{UserOperation, Analyzer, Scope, Libraries, Op}
use krc721_protocol.Analyzer.Faults.{WrongLength, NoListing}
use krc721_protocol.Analyzer.Opened.{Opened, OnNetwork}
use krc721_protocol.Model.{ScriptPublicKey}
use krc721_protocol.Analyzer.Detect.{scope_of, reveal_sender}

module _ (l : Libraries) (a : Analyzer) (t : ContextTransaction) where
  -- Where a panic comes from.
  pub data Panics (items : List Item) : Type 0 where
    wrong_key :
        (ops : List Opcode) (key check : Opcode) (model : UserOperation)
        → Opened l a t items ops key check model
        → OnNetwork l a t model
        → WrongLength l a t key check
        → Panics items
    no_text :
        (ops : List Opcode) (key check : Opcode) (model : UserOperation) (sender : ScriptPublicKey)
        → Opened l a t items ops key check model
        → OnNetwork l a t model
        → reveal_sender l a t key check ≡ ok sender
        → as_str l.unicode model.tick ≡ none
        → Panics items
    no_listing :
        (ops : List Opcode) (key check : Opcode) (model : UserOperation) (c : Scope)
        → Opened l a t items ops key check model
        → scope_of l a t ops model ≡ ok c
        → model.op ≡ Op.list
        → NoListing l a t c model
        → Panics items
