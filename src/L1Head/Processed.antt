-- ===== src/L1Head/Processed.antt =====
-- Which posts count as processed: `is_processed`, after a replay of posts of one chain.
use eez_rollup.Base.{
  ℕ, ◌≡◌, refl, ap, ◌∙◌, List, [], ◌∷◌, ◌++◌, Bool, true, false, ◌==◌, ◌||◌, Bool-cases,
  Option-cases, All, none, some, inl, inr, last, last-snoc, arith,
}
use eez_rollup.L1Head.{
  PostId, BatchRecord, L1CanonicalHead, at_or_before, position_leb, behind_tail, append,
  append_many, is_processed, empty_head,
}
use eez_rollup.L1Head.Reachable.{append_pushed, append_ignored}
use eez_rollup.L1Head.Replay.{append_each, append_many_lem}

-- The posts of one chain, whose blocks have the hashes `hash_of`.
abbrev pub OnChain : (ℕ → ℕ) → BatchRecord → Type 0
OnChain hash_of r = r.post.l1_block_hash ≡ hash_of r.post.l1_block

-- Some post of the list is at the position of `id` or after it.
abbrev pub passed_by : PostId → List BatchRecord → Bool
passed_by id [] = false
passed_by id (r ∷ rs) = position_leb id r.post || passed_by id rs

on_chain_at_or_before :
    (hash_of : ℕ → ℕ) (id tail : PostId)
    → id.l1_block_hash ≡ hash_of id.l1_block
    → tail.l1_block_hash ≡ hash_of tail.l1_block
    → at_or_before id tail ≡ position_leb id tail
unfolding at_or_before
on_chain_at_or_before hash_of id tail hi ht = elim (Bool-cases (id.l1_block == tail.l1_block)) [
  | inl level ↦
      let same : id.l1_block ≡ tail.l1_block = ground arith in
      let hashes : id.l1_block_hash ≡ tail.l1_block_hash = cc in ground arith
  | inr apart ↦ ground arith
]

position_leb_trans :
    (a b c : PostId) → position_leb a b ≡ true → position_leb b c ≡ true → position_leb a c ≡ true
position_leb_trans a b c h k = ground arith

or_absorb : (a b : Bool) → (b ≡ true → a ≡ true) → a ≡ (a || b)
or_absorb true b h = refl
or_absorb false true h = h refl
or_absorb false false h = refl

absorb_or : (a b : Bool) → (a ≡ true → b ≡ true) → b ≡ (a || b)
absorb_or false b h = refl
absorb_or true b h = h refl

or_false : (a : Bool) → a ≡ (a || false)
or_false true = refl
or_false false = refl

or_assoc : (a b c : Bool) → ((a || b) || c) ≡ (a || (b || c))
or_assoc true b c = refl
or_assoc false b c = refl

position_leb_total : (a b : PostId) → position_leb a b ≡ false → position_leb b a ≡ true
position_leb_total a b h = ground arith

module _ (hash_of : ℕ → ℕ) where
  abbrev LastOnChain : List BatchRecord → Type 0
  LastOnChain bs = elim (last bs) [ none ↦ Unit {0} | some t ↦ OnChain hash_of t ]

  last_on_chain :
      (bs : List BatchRecord) (t : BatchRecord)
      → last bs ≡ some t
      → LastOnChain bs
      → OnChain hash_of t
  last_on_chain bs t e h = rw (e, LastOnChain) at h

  LastOnChain-snoc :
      (bs : List BatchRecord) (r : BatchRecord) → OnChain hash_of r → LastOnChain (bs ++ (r ∷ []))
  LastOnChain-snoc bs r h = rw (last-snoc bs r, LastOnChain) h

  LastOnChain-append :
      (s : L1CanonicalHead) (r : BatchRecord)
      → OnChain hash_of r
      → LastOnChain s.batches
      → LastOnChain (append s r).batches
  LastOnChain-append s r h v = elim (Bool-cases (behind_tail r.post s.batches)) [
    | inl behind ↦ rw (append_ignored s r behind) v
    | inr ahead ↦ rw (append_pushed s r ahead) (LastOnChain-snoc s.batches r h)
  ]

  behind_tail-snoc :
      (id : PostId) (bs : List BatchRecord) (r : BatchRecord)
      → behind_tail id (bs ++ (r ∷ [])) ≡ at_or_before id r.post
  behind_tail-snoc id bs r = rw (last-snoc bs r, behind_tail) refl

  behind_tail_at :
      (id : PostId) (bs : List BatchRecord) (t : BatchRecord)
      → last bs ≡ some t
      → behind_tail id bs ≡ at_or_before id t.post
  behind_tail_at id bs t e = rw (e, behind_tail) refl

  behind_on_chain :
      (id : PostId) (bs : List BatchRecord) (t : BatchRecord)
      → id.l1_block_hash ≡ hash_of id.l1_block
      → last bs ≡ some t
      → LastOnChain bs
      → behind_tail id bs ≡ position_leb id t.post
  behind_on_chain id bs t hi e v =
      behind_tail_at id bs t e ∙ on_chain_at_or_before hash_of id t.post hi (last_on_chain bs t e v)

  behind_empty : (id : PostId) (bs : List BatchRecord) → last bs ≡ none → behind_tail id bs ≡ false
  behind_empty id bs e = rw (e, behind_tail) refl

  pushed_behind :
      (s : L1CanonicalHead) (r : BatchRecord) (id : PostId)
      → id.l1_block_hash ≡ hash_of id.l1_block
      → OnChain hash_of r
      → behind_tail r.post s.batches ≡ false
      → behind_tail id (append s r).batches ≡ position_leb id r.post
  pushed_behind s r id hi hr ahead =
      rw (append_pushed s r ahead)
        (behind_tail-snoc id s.batches r ∙ on_chain_at_or_before hash_of id r.post hi hr)

  behind-append :
      (s : L1CanonicalHead) (r : BatchRecord) (id : PostId)
      → id.l1_block_hash ≡ hash_of id.l1_block
      → OnChain hash_of r
      → LastOnChain s.batches
      → behind_tail id (append s r).batches ≡ (behind_tail id s.batches || position_leb id r.post)
  behind-append s r id hi hr v = elim (Option-cases (last s.batches)) [
    | inl empty ↦
        rw (behind_empty id s.batches empty)
          (pushed_behind s r id hi hr (behind_empty r.post s.batches empty))
    | inr (t, tail) ↦
        let at_tail = behind_on_chain id s.batches t hi tail v in
        let r_at_tail = behind_on_chain r.post s.batches t hr tail v in
        elim (Bool-cases (position_leb r.post t.post)) [
          | inl behind ↦
              rw (append_ignored s r (r_at_tail ∙ behind), at_tail)
                (or_absorb (position_leb id t.post) (position_leb id r.post)
                  λ h. position_leb_trans id r.post t.post h behind)
          | inr ahead ↦
              let later = position_leb_total r.post t.post ahead in
              rw (at_tail) (
                pushed_behind s r id hi hr (r_at_tail ∙ ahead)
                ∙ absorb_or (position_leb id t.post) (position_leb id r.post)
                    λ h. position_leb_trans id t.post r.post h later)
        ]
  ]

  behind-append_each :
      (s : L1CanonicalHead) (rs : List BatchRecord) (id : PostId)
      → id.l1_block_hash ≡ hash_of id.l1_block
      → All (OnChain hash_of) rs
      → LastOnChain s.batches
      → behind_tail id (append_each s rs).batches ≡ (behind_tail id s.batches || passed_by id rs)
  behind-append_each s [] id hi hs v = or_false (behind_tail id s.batches)
  behind-append_each s (r ∷ rs) id hi hs v =
      behind-append_each (append s r) rs id hi hs.1 (LastOnChain-append s r hs.0 v)
      ∙ ap (λ b. b || passed_by id rs) (behind-append s r id hi hs.0 v)
      ∙ or_assoc (behind_tail id s.batches) (position_leb id r.post) (passed_by id rs)

  -- When the posts of one chain are replayed, in any order, from an empty index, a post of that
  -- chain counts as processed exactly when some replayed post is at its position or after it.
  pub is_processed-append_many :
      (rs : List BatchRecord) (id : PostId)
      → id.l1_block_hash ≡ hash_of id.l1_block
      → All (OnChain hash_of) rs
      → is_processed (append_many empty_head rs) id ≡ passed_by id rs
  unfolding is_processed
  is_processed-append_many rs id hi hs =
      rw (append_many_lem empty_head rs) (behind-append_each empty_head rs id hi hs tt)
