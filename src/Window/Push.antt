-- ===== src/Window/Push.antt =====
-- One chunk that is accepted, and the state after it.
use eez_rollup.Base.{
  ℕ, ◌+◌, ◌≤◌, ◌≡◌, refl, List, [], ◌∷◌, ◌++◌, Bool, true, not, ◌==◌, if◌then◌else◌, length,
  bytes_eq→eq, Option, some, none, arith,
}
use eez_rollup.Base.Results.{Result, ok, err, >>=-eq-ok}
use eez_rollup.Window.{
  Bytes, ExecutionWitness, ProveChunk, BlockWitness, AdmittedBlock, WindowError, WindowAssembler,
  charge, ok_or, hash_of, wire_witness_item_count, into_execution_witness, check_link, range_nth,
  push_block, extra_block, wrong_block_number, missing_witness, witness_item_limit,
  block_hash_length, parent_hash_length,
}

pub charge-eq-ok :
    (current add max total : ℕ) (over : ℕ → ℕ → WindowError)
    → charge current add max over ≡ ok total
    → (total ≡ current + add) × (total ≤ max)
unfolding charge
charge-eq-ok current add max total over e = ground arith

-- Every block of the list links to the one before it, and the last one to `parent`.
abbrev pub LinksTo : List AdmittedBlock → Bytes → Type 0
LinksTo [] parent = Unit {0}
LinksTo (p ∷ []) parent = parent ≡ p.claimed_hash
LinksTo (p ∷ q ∷ ps) parent = LinksTo (q ∷ ps) parent

check_link-eq-ok :
    (ps : List AdmittedBlock) (b : BlockWitness)
    → check_link ps b ≡ ok tt
    → LinksTo ps b.parent_hash
unfolding check_link
check_link-eq-ok [] b e = tt
check_link-eq-ok (p ∷ []) b e = bytes_eq→eq b.parent_hash p.claimed_hash (ground arith)
check_link-eq-ok (p ∷ q ∷ ps) b e = check_link-eq-ok (q ∷ ps) b e

abbrev pub admitted_of : BlockWitness → ExecutionWitness → AdmittedBlock
admitted_of b w = record {
  declared_number = b.number;
  claimed_hash = b.hash;
  claimed_parent_hash = b.parent_hash;
  rlp = b.rlp;
  witness = into_execution_witness w;
}

pub record Accepted (a : WindowAssembler true) (b : BlockWitness) (w : ExecutionWitness)
    : Type 0 where
  pub in_span : a.header.declared_from_block + length a.blocks ≤ a.header.declared_to_block
  pub number : b.number ≡ a.header.declared_from_block + length a.blocks
  pub hash_length : length b.hash ≡ 32
  pub parent_hash_length : length b.parent_hash ≡ 32
  pub has_witness : b.witness ≡ some w
  pub items : a.accounted_witness_items + wire_witness_item_count w ≤ a.limits.witness_items
  pub links : LinksTo a.blocks b.parent_hash

nth-eq :
    (from to i n : ℕ) (e : WindowError)
    → ok_or (range_nth from to i) e ≡ ok n
    → (n ≡ from + i) × (from + i ≤ to)
nth-eq from to i n e h = ground arith

witness_eq :
    (o : Option ExecutionWitness) (w : ExecutionWitness) (e : WindowError)
    → ok_or o e ≡ ok w
    → o ≡ some w
witness_eq none w e h = cc
witness_eq (some v) w e h = cc

unit_eq : (r : Result WindowError (Unit {0})) {u : Unit {0}} → r ≡ ok u → r ≡ ok tt
unit_eq r h = h

hash_eq : (bytes h : Bytes) (e : WindowError) → hash_of bytes e ≡ ok h → h ≡ bytes
hash_eq bytes h e eq = ground arith

guarded :
    (c : Bool) (e : WindowError) (a' x : WindowAssembler true)
    → (if not c then err e else ok x) ≡ ok a'
    → a' ≡ x
guarded c e a' x h = ground arith

placed :
    (a a' : WindowAssembler true) (b : BlockWitness) (w : ExecutionWitness) (hash parent : Bytes)
    (items : ℕ)
    → items ≡ a.accounted_witness_items + wire_witness_item_count w
    → hash ≡ b.hash
    → parent ≡ b.parent_hash
    → a' ≡ record a {
      accounted_witness_items = items;
      blocks =
          a.blocks
          ++ (record {
            declared_number = b.number;
            claimed_hash = hash;
            claimed_parent_hash = parent;
            rlp = b.rlp;
            witness = into_execution_witness w;
          }
              ∷ []);
    }
    → a' ≡ record a {
      accounted_witness_items = a.accounted_witness_items + wire_witness_item_count w;
      blocks = a.blocks ++ (admitted_of b w ∷ []);
    }
placed a a' b w hash parent items total h p same = let x = same in rw (same, total, h, p) refl

module _ (reserves : ℕ → Bool) where
  pub push_block-eq-ok :
      (encoded_len : ProveChunk → ℕ) (a a' : WindowAssembler true) (b : BlockWitness)
      → push_block encoded_len reserves a b ≡ ok a'
      → (w : ExecutionWitness) × Accepted a b w
        × (a' ≡ record a {
          accounted_witness_items = a.accounted_witness_items + wire_witness_item_count w;
          blocks = a.blocks ++ (admitted_of b w ∷ []);
        })
  unfolding push_block
  push_block-eq-ok encoded_len a a' b e =
      let from = a.header.declared_from_block in
      let index = length a.blocks in
      let (expected, is_nth, e1) =
        >>=-eq-ok
          (ok_or (range_nth from a.header.declared_to_block index)
            (extra_block a.declared_block_count))
          _ e in
      let (_, same_number, e2) =
        >>=-eq-ok
          (if b.number == expected
            then ok (tt {0})
            else err (wrong_block_number index expected b.number))
          _ e1 in
      let (hash, is_hash, e3) =
        >>=-eq-ok (hash_of b.hash (block_hash_length b.number (length b.hash))) _ e2 in
      let (parent, is_parent, e4) =
        >>=-eq-ok (hash_of b.parent_hash (parent_hash_length b.number (length b.parent_hash))) _
          e3 in
      let (w, is_witness, e5) = >>=-eq-ok (ok_or b.witness (missing_witness b.number)) _ e4 in
      let (items, charged, e6) =
        >>=-eq-ok
          (charge a.accounted_witness_items (wire_witness_item_count w) a.limits.witness_items
            witness_item_limit)
          _ e5 in
      let (_, linked, e7) = >>=-eq-ok (check_link a.blocks b) _ e6 in
      let (total, fits) =
        charge-eq-ok a.accounted_witness_items (wire_witness_item_count w) a.limits.witness_items
          items witness_item_limit charged in
      let nth = nth-eq from a.header.declared_to_block index expected _ is_nth in
      let number : b.number ≡ expected = ground arith in
      (
        w,
        record {
          in_span = ground (arith, nth);
          number = ground (arith, nth, number);
          hash_length = ground arith;
          parent_hash_length = ground arith;
          has_witness = witness_eq b.witness w _ is_witness;
          items = ground arith;
          links = check_link-eq-ok a.blocks b (unit_eq _ linked);
        },
        placed a a' b w hash parent items total (hash_eq b.hash hash _ is_hash)
            (hash_eq b.parent_hash parent _ is_parent) (guarded _ _ a' _ e7),
      )
