-- ===== src/Window/Sound.antt =====
-- The windows that are admitted.
use eez_rollup.Base.{
  ℕ, ◌+◌, ◌≤◌, ◌≡◌, refl, sym, ◌∙◌, ap, List, [], ◌∷◌, ◌++◌, map, Bool, true, length, All,
  All-append, length-append, append_assoc, flatten, Option, some, none, arith,
}
use eez_rollup.Base.Results.{ok, err, >>=-eq-ok}
use eez_rollup.Window.{
  ExecutionWitness, ProveChunk, Kind, header, block, BlockWitness, AdmittedBlock, WindowAssembler,
  charge, wire_witness_item_count, into_execution_witness, push_block, push, missing_kind,
  duplicate_header, payload_limit,
}
use eez_rollup.Window.Push.{charge-eq-ok, LinksTo, admitted_of, Accepted, push_block-eq-ok}

-- Consecutive numbers from `n`.
abbrev pub Numbered : ℕ → List AdmittedBlock → Type 0
Numbered n [] = Unit {0}
Numbered n (b ∷ bs) = (b.declared_number ≡ n) × Numbered (n + 1) bs

-- Every block names the hash of the one before it as its parent.
abbrev pub Linked : List AdmittedBlock → Type 0
Linked [] = Unit {0}
Linked (p ∷ []) = Unit {0}
Linked (p ∷ q ∷ bs) = (q.claimed_parent_hash ≡ p.claimed_hash) × Linked (q ∷ bs)

abbrev pub HasHashes : AdmittedBlock → Type 0
HasHashes b = (length b.claimed_hash ≡ 32) × (length b.claimed_parent_hash ≡ 32)

abbrev pub items_of : List AdmittedBlock → ℕ
items_of [] = 0
items_of (b ∷ bs) = wire_witness_item_count b.witness + items_of bs

-- The block that a chunk carries.
abbrev pub carried : ProveChunk → List AdmittedBlock
carried c = elim c.kind [
  | none ↦ []
  | some (header h) ↦ []
  | some (block b) ↦ elim b.witness [ none ↦ [] | some w ↦ admitted_of b w ∷ [] ]
]

abbrev pub bytes_of : (ProveChunk → ℕ) → List ProveChunk → ℕ
bytes_of encoded_len [] = 0
bytes_of encoded_len (c ∷ cs) = encoded_len c + bytes_of encoded_len cs

Numbered-snoc :
    (n : ℕ) (bs : List AdmittedBlock) (b : AdmittedBlock)
    → Numbered n bs
    → b.declared_number ≡ n + length bs
    → Numbered n (bs ++ (b ∷ []))
Numbered-snoc n [] b v e = (omega arith, tt)
Numbered-snoc n (x ∷ bs) b v e = (v.0, Numbered-snoc (n + 1) bs b v.1 (omega arith))

Linked-snoc :
    (bs : List AdmittedBlock) (b : AdmittedBlock)
    → Linked bs
    → LinksTo bs b.claimed_parent_hash
    → Linked (bs ++ (b ∷ []))
Linked-snoc [] b v e = tt
Linked-snoc (p ∷ []) b v e = (e, tt)
Linked-snoc (p ∷ q ∷ bs) b v e = (v.0, Linked-snoc (q ∷ bs) b v.1 e)

items_of-snoc :
    (bs : List AdmittedBlock) (b : AdmittedBlock)
    → items_of (bs ++ (b ∷ [])) ≡ items_of bs + wire_witness_item_count b.witness
items_of-snoc [] b = omega arith
items_of-snoc (x ∷ bs) b = omega (arith, items_of-snoc bs b)

-- What holds of the assembler between two chunks.
pub record IsSound (a : WindowAssembler true) : Type 0 where
  pub numbered : Numbered a.header.declared_from_block a.blocks
  pub linked : Linked a.blocks
  pub hashes : All HasHashes a.blocks
  pub items : a.accounted_witness_items ≡ items_of a.blocks
  pub items_bound : a.accounted_witness_items ≤ a.limits.witness_items
  pub bytes_bound : a.accounted_payload_bytes ≤ a.limits.payload_bytes

-- From one state to another by the chunks `cs`.
pub record Reads (encoded_len : ProveChunk → ℕ) (a a' : WindowAssembler true) (cs : List ProveChunk)
    : Type 0 where
  pub sound : IsSound a'
  pub same_limits : a'.limits ≡ a.limits
  pub same_header : a'.header ≡ a.header
  pub same_count : a'.declared_block_count ≡ a.declared_block_count
  pub blocks : a'.blocks ≡ a.blocks ++ flatten (map carried cs)
  pub count : length a'.blocks ≡ length a.blocks + length cs
  pub bytes : a'.accounted_payload_bytes ≡ a.accounted_payload_bytes + bytes_of encoded_len cs

carried-block :
    (c : ProveChunk) (b : BlockWitness) (w : ExecutionWitness)
    → c.kind ≡ some (block b)
    → b.witness ≡ some w
    → carried c ≡ admitted_of b w ∷ []
carried-block c b w k e = rw (k, e) refl

same_items :
    (w : ExecutionWitness)
    → wire_witness_item_count (into_execution_witness w) ≡ wire_witness_item_count w
unfolding into_execution_witness wire_witness_item_count
same_items w = refl

Accepted-Reads :
    (encoded_len : ProveChunk → ℕ) (a a' : WindowAssembler true) (c : ProveChunk) (b : BlockWitness)
    (w : ExecutionWitness) (n : ℕ)
    → IsSound a
    → c.kind ≡ some (block b)
    → n ≡ a.accounted_payload_bytes + encoded_len c
    → n ≤ a.limits.payload_bytes
    → Accepted (record a { accounted_payload_bytes = n }) b w
    → a' ≡ record a {
      accounted_payload_bytes = n;
      accounted_witness_items = a.accounted_witness_items + wire_witness_item_count w;
      blocks = a.blocks ++ (admitted_of b w ∷ []);
    }
    → Reads encoded_len a a' (c ∷ [])
Accepted-Reads encoded_len a a' c b w n v is_block total fits good same = rw same (record {
  sound = record {
    numbered = Numbered-snoc _ a.blocks (admitted_of b w) v.numbered good.number;
    linked = Linked-snoc a.blocks (admitted_of b w) v.linked good.links;
    hashes =
        All-append HasHashes a.blocks (admitted_of b w ∷ []) v.hashes
          ((good.hash_length, good.parent_hash_length), tt);
    items = omega (arith, v.items, same_items w, items_of-snoc a.blocks (admitted_of b w));
    items_bound = good.items;
    bytes_bound = fits;
  };
  same_limits = refl;
  same_header = refl;
  same_count = refl;
  blocks = ap (◌++◌ a.blocks) (sym (rw (carried-block c b w is_block good.has_witness) refl));
  count = length-append a.blocks (admitted_of b w ∷ []);
  bytes = omega (arith, total);
})

block_only :
    (encoded_len : ProveChunk → ℕ) (reserves : ℕ → Bool) (a charged a' : WindowAssembler true)
    (kind : Option Kind)
    → (elim kind [
      | none ↦ err (missing_kind (1 + length a.blocks))
      | some (header h) ↦ err duplicate_header
      | some (block b) ↦ push_block encoded_len reserves charged b
    ])
      ≡ ok a'
    → (b : BlockWitness) × (kind ≡ some (block b))
      × (push_block encoded_len reserves charged b ≡ ok a')
block_only encoded_len reserves a charged a' none e = cc
block_only encoded_len reserves a charged a' (some (header h)) e = cc
block_only encoded_len reserves a charged a' (some (block b)) e = (b, refl, e)

pub push-Reads :
    (encoded_len : ProveChunk → ℕ) (reserves : ℕ → Bool) (a a' : WindowAssembler true)
    (c : ProveChunk)
    → IsSound a
    → push encoded_len reserves a c ≡ ok a'
    → Reads encoded_len a a' (c ∷ [])
unfolding push
push-Reads encoded_len reserves a a' c v e =
    let (n, charged, e') =
      >>=-eq-ok
        (charge a.accounted_payload_bytes (encoded_len c) a.limits.payload_bytes payload_limit) _
        e in
    let (total, fits) =
      charge-eq-ok a.accounted_payload_bytes (encoded_len c) a.limits.payload_bytes n payload_limit
        charged in
    let charged_a : WindowAssembler true = record a { accounted_payload_bytes = n } in
    let (b, is_block, e'') = block_only encoded_len reserves a charged_a a' c.kind e' in
    let (w, good, same) = push_block-eq-ok reserves encoded_len charged_a a' b e'' in
    Accepted-Reads encoded_len a a' c b w n v is_block total fits good same

pub both_Reads :
    (encoded_len : ProveChunk → ℕ) (a b c : WindowAssembler true) (xs ys : List ProveChunk)
    → Reads encoded_len a b xs
    → Reads encoded_len b c ys
    → Reads encoded_len a c (xs ++ ys)
both_Reads encoded_len a b c xs ys u v = record {
  sound = v.sound;
  same_limits = v.same_limits ∙ u.same_limits;
  same_header = v.same_header ∙ u.same_header;
  same_count = v.same_count ∙ u.same_count;
  blocks =
      v.blocks
      ∙ ap (λ (bs : List AdmittedBlock). bs ++ flatten (map carried ys)) u.blocks
      ∙ append_assoc a.blocks (flatten (map carried xs)) (flatten (map carried ys))
      ∙ ap (◌++◌ a.blocks) (sym (carried-append xs ys));
  count = omega (arith, u.count, v.count, length-append xs ys);
  bytes = omega (arith, u.bytes, v.bytes, bytes_of-append encoded_len xs ys);
}
  where
    bytes_of-append :
        (f : ProveChunk → ℕ) (xs ys : List ProveChunk)
        → bytes_of f (xs ++ ys) ≡ bytes_of f xs + bytes_of f ys
    bytes_of-append f [] ys = omega arith
    bytes_of-append f (x ∷ xs) ys = omega (arith, bytes_of-append f xs ys)

    carried-append :
        (xs ys : List ProveChunk)
        → flatten (map carried (xs ++ ys)) ≡ flatten (map carried xs) ++ flatten (map carried ys)
    carried-append [] ys = refl
    carried-append (x ∷ xs) ys = rw (carried-append xs ys) (sym (append_assoc (carried x) _ _))
