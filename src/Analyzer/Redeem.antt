-- ===== src/Analyzer/Redeem.antt =====
-- The redeem script that `compute_listing_p2sh` of core/src/inscriptions/krc721.rs builds, read by
-- `parse_script` and `validate_redeem_envelope` of nexus/src/analyzer.rs.
use mathlib.Core.Path.{subst}
use mathlib.Core.List.{append_assoc, append-nil}
use krc721_protocol.Prelude.{
  ℕ, ◌≤◌, ◌≡◌, refl, sym, ap, ◌∙◌, true, Option, none, some, List, [], ◌∷◌, ◌++◌, map, arith,
  length, ◌-◌,
}
use krc721_protocol.External.{External}
use krc721_protocol.Inscription.Codes.{Script, Opcode, Item, opcode, protocol_kspr_namespace}
use krc721_protocol.Inscription.Ticks.{Text, Unicode}
use krc721_protocol.Inscription.Listing.{
  Builder, Address, redeem_pubkey, send_json, compute_listing_p2sh, bind_some,
}
use krc721_protocol.Analyzer.Result.{ok, index}
use krc721_protocol.Analyzer.Parse.{
  parse_script, collect_opcodes, Reads, end, next, Consumes, parse_script-Reads,
}
use krc721_protocol.Analyzer.Envelope.{Envelope, plain, Content}

-- The reader finds the same items whenever it reads a script to its end.
Reads-unique :
    (s : Script) {bytes : List ℕ} {xs ys : List Item}
    → Reads s bytes xs
    → Reads s bytes ys
    → xs ≡ ys
Reads-unique s (end _ e) (end _ f) = refl
Reads-unique s (end _ e) (next _ item left items f r) = ground (arith, e, f)
Reads-unique s (next _ item left items e r) (end _ f) = ground (arith, e, f)
Reads-unique s (next _ i j k e r) (next _ i' j' k' f q) =
    let found : ◌≡◌ {A = Option (Item × List ℕ)} (some (i, j)) (some (i', j')) = sym e ∙ f in
    let head : i ≡ i' = ground (arith, found) in
    let left : j' ≡ j = ground (arith, found) in
    ap (λ x. x ∷ k) head ∙ ap (λ t. i' ∷ t) (Reads-unique s r (subst (λ x. Reads s x k') left q))

-- Bytes that the reader takes as one opcode, whatever follows them.
unfoldable pub ReadAs : Script → List ℕ → Opcode → Type 0
ReadAs s bytes o =
    (rest : List ℕ) → s.deserialize_next_opcode (bytes ++ rest) ≡ some (opcode o, rest)

-- The opcodes other than pushes of data that the script of a listing has, and the empty push.
pub data Single (s : Script) : ℕ → Type 0 where
  is_check_sig : Single s s.op_check_sig
  is_false : Single s s.op_false
  is_if : Single s s.op_if
  is_end_if : Single s s.op_end_if

-- What the script crate promises of its builder and its reader. Data of two bytes or more is appended
-- as a push that the reader takes as it was added (an empty or a one-byte text may become an opcode
-- of its own, and is not spoken of); each of the single opcodes is appended as itself, and the number
-- 0 as the empty push; and the reader finds nothing in an empty script.
pub record ScriptLaws (b : Builder) (s : Script) : Type 0 where
  pub consumes : Consumes s
  pub empty : s.deserialize_next_opcode [] ≡ none
  pub data_read :
      (script payload longer : List ℕ)
      → 2 ≤ length payload
      → b.add_data script payload ≡ some longer
      → (bytes : List ℕ) × (o : Opcode) × (longer ≡ script ++ bytes)
        × ReadAs s bytes o
        × (o.get_data ≡ payload)
        × Content o
  pub op_read :
      (script : List ℕ) (op : ℕ) (longer : List ℕ)
      → Single s op
      → b.add_op script op ≡ some longer
      → (bytes : List ℕ) × (o : Opcode) × (longer ≡ script ++ bytes)
        × ReadAs s bytes o
        × (o.value ≡ op)
  pub zero_read :
      (script longer : List ℕ)
      → b.add_i64 script 0 ≡ some longer
      → (bytes : List ℕ) × (o : Opcode) × (longer ≡ script ++ bytes)
        × ReadAs s bytes o
        × (o.value ≡ s.op_false)

-- A script that is read as a list of opcodes.
Opens : Script → List ℕ → List Opcode → Type 0
Opens s script ops =
    (rest : List ℕ) (items : List Item)
    → Reads s rest items
    → Reads s (script ++ rest) (map (λ o. opcode o) ops ++ items)

-- An envelope with a given key and inscription.
pub record Redeems (s : Script) (pubkey inscription : List ℕ) (ops : List Opcode) : Type 0 where
  pub key : Opcode
  pub check : Opcode
  pub content : Opcode
  pub envelope : Envelope s ops
  pub key_at : index ops 0 ≡ ok key
  pub check_at : index ops 1 ≡ ok check
  pub content_at : index ops (length ops - 2) ≡ ok content
  pub key_data : key.get_data ≡ pubkey
  pub check_value : check.value ≡ s.op_check_sig
  pub content_data : content.get_data ≡ inscription

collect_opcodes-map : (ops : List Opcode) → collect_opcodes (map (λ o. opcode o) ops) ≡ ok ops
unfolding collect_opcodes
collect_opcodes-map [] = refl
collect_opcodes-map (o ∷ ops) = rw (collect_opcodes-map ops) refl

module _ (s : Script) where
  items_of :
      (ops : List Opcode) (o : Opcode) (items : List Item)
      → map (λ o. opcode o) (ops ++ o ∷ []) ++ items ≡ map (λ o. opcode o) ops ++ opcode o ∷ items
  items_of [] o items = refl
  items_of (x ∷ ops) o items = ap (λ t. opcode x ∷ t) (items_of ops o items)

  nothing : Opens s [] []
  unfolding Opens
  nothing rest items r = r

  grow :
      (script : List ℕ) (ops : List Opcode) (bytes longer : List ℕ) (o : Opcode)
      → Opens s script ops
      → longer ≡ script ++ bytes
      → ReadAs s bytes o
      → Opens s longer (ops ++ o ∷ [])
  unfolding Opens ReadAs
  grow script ops bytes longer o opens e read rest items r =
      let script_bytes : longer ++ rest ≡ script ++ (bytes ++ rest) =
        ap (λ x. x ++ rest) e ∙ append_assoc script bytes rest in
      rw (script_bytes, items_of ops o items)
        (opens (bytes ++ rest) (opcode o ∷ items) (next _ (opcode o) rest items (read rest) r))

  redeems :
      {pubkey inscription : List ℕ} (o1 o2 o3 o4 o5 o6 o7 o8 : Opcode)
      → o1.get_data ≡ pubkey
      → o2.value ≡ s.op_check_sig
      → o3.value ≡ s.op_false
      → o4.value ≡ s.op_if
      → o5.is_push_opcode ≡ true
      → o5.get_data ≡ protocol_kspr_namespace
      → o6.value ≡ s.op_false
      → Content o7
      → o7.get_data ≡ inscription
      → o8.value ≡ s.op_end_if
      → Redeems s pubkey inscription (o1 ∷ o2 ∷ o3 ∷ o4 ∷ o5 ∷ o6 ∷ o7 ∷ o8 ∷ [])
  redeems o1 o2 o3 o4 o5 o6 o7 o8 d1 d2 d3 d4 p5 d5 d6 c7 d7 d8 = record {
    key = o1;
    check = o2;
    content = o7;
    envelope = plain o1 o2 o3 o4 o5 o6 o7 o8 d3 d4 p5 d5 d6 c7 d8;
    key_at = refl;
    check_at = refl;
    content_at = refl;
    key_data = d1;
    check_value = d2;
    content_data = d7;
  }

  Opens-parse :
      (consumes : Consumes s) (script : List ℕ) (ops : List Opcode)
      → s.deserialize_next_opcode [] ≡ none
      → Opens s script ops
      → collect_opcodes (parse_script s script) ≡ ok ops
  unfolding Opens
  Opens-parse consumes script ops empty opens =
      let reads = opens [] [] (end [] empty) in
      let same : Reads s script (map (λ o. opcode o) ops) =
        subst (λ items. Reads s script items) (append-nil (map (λ o. opcode o) ops))
          (subst (λ x. Reads s x (map (λ o. opcode o) ops ++ [])) (append-nil script) reads) in
      ap (λ items. collect_opcodes items)
        (Reads-unique s (parse_script-Reads s consumes script) same)
      ∙ collect_opcodes-map ops

send_json-length :
    (u : Unicode) (tick : Text) (token_id : ℕ) → 2 ≤ length (send_json u tick token_id)
unfolding send_json
send_json-length u tick token_id = ground arith

module _ (b : Builder) (s : Script) (laws : ScriptLaws b s) where
  pub redeem_pubkey-Redeems :
      (pubkey inscription script : List ℕ)
      → 2 ≤ length pubkey
      → 2 ≤ length inscription
      → redeem_pubkey b s protocol_kspr_namespace inscription pubkey ≡ some script
      → (ops : List Opcode) × (collect_opcodes (parse_script s script) ≡ ok ops)
        × Redeems s pubkey inscription ops
  unfolding redeem_pubkey
  redeem_pubkey-Redeems pubkey inscription script keyed full e =
      let (s1, e1, f1) = bind_some (b.add_data [] pubkey) (λ _. _) e in
      let (s2, e2, f2) = bind_some (b.add_op s1 s.op_check_sig) (λ _. _) f1 in
      let (s3, e3, f3) = bind_some (b.add_op s2 s.op_false) (λ _. _) f2 in
      let (s4, e4, f4) = bind_some (b.add_op s3 s.op_if) (λ _. _) f3 in
      let (s5, e5, f5) = bind_some (b.add_data s4 protocol_kspr_namespace) (λ _. _) f4 in
      let (s6, e6, f6) = bind_some (b.add_i64 s5 0) (λ _. _) f5 in
      let (s7, e7, f7) = bind_some (b.add_data s6 inscription) (λ _. _) f6 in
      let (b1, o1, l1, r1, d1, _) = laws.data_read [] pubkey s1 keyed e1 in
      let (b2, o2, l2, r2, d2) = laws.op_read s1 s.op_check_sig s2 is_check_sig e2 in
      let (b3, o3, l3, r3, d3) = laws.op_read s2 s.op_false s3 is_false e3 in
      let (b4, o4, l4, r4, d4) = laws.op_read s3 s.op_if s4 is_if e4 in
      let (b5, o5, l5, r5, d5, c5) =
        laws.data_read s4 protocol_kspr_namespace s5 (omega arith) e5 in
      let (b6, o6, l6, r6, d6) = laws.zero_read s5 s6 e6 in
      let (b7, o7, l7, r7, d7, c7) = laws.data_read s6 inscription s7 full e7 in
      let (b8, o8, l8, r8, d8) = laws.op_read s7 s.op_end_if script is_end_if f7 in
      let g1 = grow s [] [] b1 s1 o1 (nothing s) l1 r1 in
      let g2 = grow s s1 _ b2 s2 o2 g1 l2 r2 in
      let g3 = grow s s2 _ b3 s3 o3 g2 l3 r3 in
      let g4 = grow s s3 _ b4 s4 o4 g3 l4 r4 in
      let g5 = grow s s4 _ b5 s5 o5 g4 l5 r5 in
      let g6 = grow s s5 _ b6 s6 o6 g5 l6 r6 in
      let g7 = grow s s6 _ b7 s7 o7 g6 l7 r7 in
      let g8 = grow s s7 _ b8 script o8 g7 l8 r8 in
      (
        o1 ∷ o2 ∷ o3 ∷ o4 ∷ o5 ∷ o6 ∷ o7 ∷ o8 ∷ [],
        Opens-parse s laws.consumes script _ laws.empty g8,
        redeems s o1 o2 o3 o4 o5 o6 o7 o8 d1 d2 d3 d4 c5.push d5 d6 c7 d7 d8,
      )

  -- Where the reader takes a push of two bytes or more, each of the single opcodes of the script,
  -- and the empty push as the builder added them, and every opcode takes at least a byte, the
  -- redeem script that is computed for a listing by a key of two bytes or more is read by the
  -- analyzer as an envelope with that key, a Schnorr check, and the inscription of the send.
  pub compute_listing_p2sh-Redeems :
      (ext : External) (u : Unicode) (pubkey : List ℕ) (tick : Text) (token_id prefix : ℕ)
      (listing : Address × List ℕ)
      → 2 ≤ length pubkey
      → compute_listing_p2sh ext u b s pubkey tick token_id prefix ≡ some listing
      → (ops : List Opcode) × (collect_opcodes (parse_script s listing.1) ≡ ok ops)
        × Redeems s pubkey (send_json u tick token_id) ops
  unfolding compute_listing_p2sh
  compute_listing_p2sh-Redeems ext u pubkey tick token_id prefix listing keyed e =
      let (script, e1, f1) =
        bind_some (redeem_pubkey b s protocol_kspr_namespace (send_json u tick token_id) pubkey)
          (λ _. _) e in
      let (addr, e2, f2) =
        bind_some (b.extract_script_pub_key_address (ext.pay_to_script_hash_script script) prefix)
          (λ _. _) f1 in
      let same : script ≡ listing.1 = ground (arith, f2) in
      rw (← same) (
        redeem_pubkey-Redeems pubkey (send_json u tick token_id) script keyed
          (send_json-length u tick token_id) e1)
