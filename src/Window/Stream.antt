-- ===== src/Window/Stream.antt =====
-- The window that `read_window` returns, and the stream it was read from.
use eez_rollup.Base.{
  ℕ, ◌+◌, ◌-◌, ◌≤◌, ◌<◌, ◌≡◌, refl, sym, ◌∙◌, ap, ap₂, List, [], ◌∷◌, ◌++◌, map, Bool, true, false,
  length, All, append-nil, flatten, Option, some, none, arith,
}
use eez_rollup.Base.Results.{Result, ok, err, >>=-eq-ok}
use eez_rollup.Window.{
  WindowLimits, ProveHeader, ProveChunk, Kind, header, block, AdmittedBlock, AdmittedHeader,
  AdmittedWindow, WindowError, WindowAssembler, Received, message, idle_timeout, out_of_range,
  failed, next_message, window_status, identity_status, charge, push, start, finish,
  verify_rollup_identity, check_header, check_bounds, read_rest, read_window, payload_limit,
  missing_post_batch, ok_or, missing_kind, block_before_header, ParsedHeader,
}
use eez_rollup.Window.Push.{charge-eq-ok}
use eez_rollup.Window.Sound.{
  Numbered, Linked, HasHashes, items_of, carried, bytes_of, IsSound, Reads, push-Reads, both_Reads,
}

next_message-eq-ok : (r : Received) (c : ProveChunk) → next_message r ≡ ok c → r ≡ message c
unfolding next_message
next_message-eq-ok (message d) c e = ground arith
next_message-eq-ok idle_timeout c e = cc
next_message-eq-ok out_of_range c e = cc
next_message-eq-ok (failed code) c e = cc

window_status-eq-ok {ℓ} :
    {A : Type ℓ} (r : Result WindowError A) (a : A) → window_status r ≡ ok a → r ≡ ok a
window_status-eq-ok (ok b) a e = ground arith
window_status-eq-ok (err f) a e = cc

identity_status-eq-ok {ℓ} :
    {A : Type ℓ} (r : Result (ℕ × ℕ) A) (a : A) → identity_status r ≡ ok a → r ≡ ok a
identity_status-eq-ok (ok b) a e = ground arith
identity_status-eq-ok (err f) a e = cc

finish-eq-ok :
    (a : WindowAssembler true) (w : AdmittedWindow)
    → finish a ≡ ok w
    → (length a.blocks ≡ a.declared_block_count)
      × (w ≡ record { header = a.header; blocks = a.blocks })
unfolding finish
finish-eq-ok a w e = ground arith

no_chunks : (f : ProveChunk → ℕ) (a : WindowAssembler true) → IsSound a → Reads f a a []
no_chunks f a v = record {
  sound = v;
  same_limits = refl;
  same_header = refl;
  same_count = refl;
  blocks = sym (append-nil a.blocks);
  count = omega arith;
  bytes = omega arith;
}

read_rest-Reads :
    (f : ProveChunk → ℕ) (reserves : ℕ → Bool) (a : WindowAssembler true) (rs : List Received)
    (w : AdmittedWindow)
    → IsSound a
    → read_rest f reserves a rs ≡ ok w
    → (cs : List ProveChunk) × (a' : WindowAssembler true) × (rs ≡ map message cs)
      × Reads f a a' cs
      × (finish a' ≡ ok w)
unfolding read_rest
read_rest-Reads f reserves a [] w v e =
    ([], a, refl, no_chunks f a v, window_status-eq-ok (finish a) w e)
read_rest-Reads f reserves a (r ∷ rs) w v e =
    let (c, is_message, e1) = >>=-eq-ok (next_message r) _ e in
    let (b, pushed, e2) = >>=-eq-ok (window_status (push f reserves a c)) _ e1 in
    let one = push-Reads f reserves a b c v (window_status-eq-ok (push f reserves a c) b pushed) in
    let (cs, a', all_messages, more, finished) = read_rest-Reads f reserves b rs w one.sound e2 in
    (
      c ∷ cs,
      a',
      ap₂ ◌∷◌ (next_message-eq-ok r c is_message) all_messages,
      both_Reads f a b a' (c ∷ []) cs one more,
      finished,
    )

-- A header that is accepted, and what the assembler keeps of it.
record Started (f : ProveChunk → ℕ) (limits : WindowLimits) (c : ProveChunk) (h : ProveHeader)
    (a : WindowAssembler false) : Type 0 where
  is_header : c.kind ≡ some (header h)
  positive : 0 < h.from_block
  ordered : h.from_block ≤ h.to_block
  span : h.to_block - h.from_block + 1 ≤ limits.blocks
  count : a.declared_block_count ≡ h.to_block - h.from_block + 1
  from : a.header.declared_from_block ≡ h.from_block
  to : a.header.declared_to_block ≡ h.to_block
  rollup : a.claimed_rollup_id ≡ h.rollup_id
  bytes : a.accounted_payload_bytes ≡ f c
  bytes_bound : f c ≤ limits.payload_bytes
  no_items : a.accounted_witness_items ≡ 0
  no_blocks : a.blocks ≡ []
  same_limits : a.limits ≡ limits

check_header-eq-ok :
    (h : ProveHeader) (limits : WindowLimits) (p : ParsedHeader)
    → check_header h limits ≡ ok p
    → (0 < h.from_block)
      × (h.from_block ≤ h.to_block)
      × (h.to_block - h.from_block + 1 ≤ limits.blocks)
      × (p.declared_block_count ≡ h.to_block - h.from_block + 1)
      × (p.admitted.declared_from_block ≡ h.from_block)
      × (p.admitted.declared_to_block ≡ h.to_block)
      × (p.claimed_rollup_id ≡ h.rollup_id)
unfolding check_header check_bounds
check_header-eq-ok h limits p e =
    let (batch, has_batch, e1) = >>=-eq-ok (ok_or h.post_batch missing_post_batch) _ e in
    ground arith

header_only :
    (limits : WindowLimits) (kind : Option Kind) (p : ParsedHeader)
    → (elim kind [
      | none ↦ err (missing_kind 0)
      | some (block b) ↦ err (block_before_header b.number)
      | some (header h) ↦ check_header h limits
    ])
      ≡ ok p
    → (h : ProveHeader) × (kind ≡ some (header h)) × (check_header h limits ≡ ok p)
header_only limits none p e = cc
header_only limits (some (block b)) p e = cc
header_only limits (some (header h)) p e = (h, refl, e)

start-eq-ok :
    (f : ProveChunk → ℕ) (reserves : ℕ → Bool) (limits : WindowLimits) (c : ProveChunk)
    (a : WindowAssembler false)
    → start f reserves limits c ≡ ok a
    → (h : ProveHeader) × Started f limits c h a
unfolding start
start-eq-ok f reserves limits c a e =
    let (n, charged, e1) = >>=-eq-ok (charge 0 (f c) limits.payload_bytes payload_limit) _ e in
    let (p, parsed, e2) =
      >>=-eq-ok
        (elim c.kind as (λ _. Result WindowError ParsedHeader) [
          | none ↦ err (missing_kind 0)
          | some (block b) ↦ err (block_before_header b.number)
          | some (header h) ↦ check_header h limits
        ])
        _ e1 in
    let (total, fits) = charge-eq-ok 0 (f c) limits.payload_bytes n payload_limit charged in
    let (h, is_header, checked) = header_only limits c.kind p parsed in
    let (positive, ordered, span, count, from, to, rollup) =
      check_header-eq-ok h limits p checked in
    (
      h,
      record {
        is_header = is_header;
        positive = positive;
        ordered = ordered;
        span = span;
        count = ground (arith, count);
        from = ground (arith, from);
        to = ground (arith, to);
        rollup = ground (arith, rollup);
        bytes = ground (arith, total);
        bytes_bound = omega (arith, total, fits);
        no_items = ground arith;
        no_blocks = ground arith;
        same_limits = ground arith;
      },
    )

verify-eq-ok :
    (a : WindowAssembler false) (id : ℕ) (b : WindowAssembler true)
    → verify_rollup_identity a id ≡ ok b
    → (a.claimed_rollup_id ≡ id)
      × (b ≡ record {
        limits = a.limits;
        accounted_payload_bytes = a.accounted_payload_bytes;
        accounted_witness_items = a.accounted_witness_items;
        claimed_rollup_id = id;
        header = a.header;
        declared_block_count = a.declared_block_count;
        blocks = a.blocks;
      })
unfolding verify_rollup_identity
verify-eq-ok a id b e = ground arith

-- A window against the chunks it was read from: the header `h` in `first`, the blocks in `cs`.
pub record IsWindow (encoded_len : ProveChunk → ℕ) (limits : WindowLimits) (expected_rollup_id : ℕ)
    (first : ProveChunk) (h : ProveHeader) (cs : List ProveChunk) (w : AdmittedWindow)
    : Type 0 where
  pub header_first : first.kind ≡ some (header h)
  pub identity : h.rollup_id ≡ expected_rollup_id
  pub positive : 0 < h.from_block
  pub complete : h.from_block + length w.blocks ≡ h.to_block + 1
  pub one_each : length cs ≡ length w.blocks
  pub as_streamed : w.blocks ≡ flatten (map carried cs)
  pub numbered : Numbered h.from_block w.blocks
  pub linked : Linked w.blocks
  pub hashes : All HasHashes w.blocks
  pub block_quota : length w.blocks ≤ limits.blocks
  pub item_quota : items_of w.blocks ≤ limits.witness_items
  pub byte_quota : bytes_of encoded_len (first ∷ cs) ≤ limits.payload_bytes

Started-IsSound :
    (f : ProveChunk → ℕ) (limits : WindowLimits) (first : ProveChunk) (h : ProveHeader)
    (a : WindowAssembler false) (b : WindowAssembler true) (id : ℕ)
    → Started f limits first h a
    → verify_rollup_identity a id ≡ ok b
    → IsSound b
Started-IsSound f limits first h a b id s verified =
    let (identity, same) = verify-eq-ok a id b verified in
    rw same (record {
      numbered = rw s.no_blocks tt;
      linked = rw s.no_blocks tt;
      hashes = rw s.no_blocks tt;
      items = rw (s.no_blocks, s.no_items) refl;
      items_bound = rw s.no_items (omega arith);
      bytes_bound = rw (s.bytes, s.same_limits) s.bytes_bound;
    })

IsWindow-of :
    (f : ProveChunk → ℕ) (limits : WindowLimits) (id : ℕ) (first : ProveChunk) (h : ProveHeader)
    (cs : List ProveChunk) (w : AdmittedWindow) (a : WindowAssembler false)
    (b a' : WindowAssembler true)
    → Started f limits first h a
    → verify_rollup_identity a id ≡ ok b
    → Reads f b a' cs
    → finish a' ≡ ok w
    → IsWindow f limits id first h cs w
IsWindow-of f limits id first h cs w a b a' s verified reads finished =
    let (identity, same) = verify-eq-ok a id b verified in
    let (full, result) = finish-eq-ok a' w finished in
    let blocks : w.blocks ≡ a'.blocks = ap (λ (v : AdmittedWindow). v.blocks) result in
    let no_blocks : b.blocks ≡ [] =
      ap (λ (x : WindowAssembler true). x.blocks) same ∙ s.no_blocks in
    let bytes : b.accounted_payload_bytes ≡ f first =
      ap (λ (x : WindowAssembler true). x.accounted_payload_bytes) same ∙ s.bytes in
    let limits_kept : a'.limits ≡ limits =
      reads.same_limits ∙ ap (λ (x : WindowAssembler true). x.limits) same ∙ s.same_limits in
    let from : a'.header.declared_from_block ≡ h.from_block =
      ap (λ (x : AdmittedHeader). x.declared_from_block)
        (reads.same_header ∙ ap (λ (x : WindowAssembler true). x.header) same)
      ∙ s.from in
    let span : a'.declared_block_count ≡ h.to_block - h.from_block + 1 =
      reads.same_count ∙ ap (λ (x : WindowAssembler true). x.declared_block_count) same ∙ s.count in
    let payload = ap (λ (x : WindowLimits). x.payload_bytes) limits_kept in
    let items = ap (λ (x : WindowLimits). x.witness_items) limits_kept in
    let empty : length b.blocks ≡ 0 = rw no_blocks refl in
    let size : length w.blocks ≡ length a'.blocks = rw blocks refl in
    record {
      header_first = s.is_header;
      identity = sym s.rollup ∙ identity;
      positive = s.positive;
      complete = omega (arith, full, span, s.ordered, size);
      one_each = omega (arith, size, reads.count, empty);
      as_streamed =
          blocks
          ∙ reads.blocks
          ∙ ap (λ (x : List AdmittedBlock). x ++ flatten (map carried cs)) no_blocks;
      numbered = rw (blocks, sym from) reads.sound.numbered;
      linked = rw blocks reads.sound.linked;
      hashes = rw blocks reads.sound.hashes;
      block_quota = omega (arith, size, full, span, s.span);
      item_quota = rw blocks (omega (arith, reads.sound.items, reads.sound.items_bound, items));
      byte_quota = omega (arith, reads.sound.bytes_bound, reads.bytes, bytes, payload);
    }

-- Whatever a stream sends, in whatever order and with whatever outcome of the allocations: if a
-- window is returned, then the stream was a header and block chunks alone and ended; the header had
-- the expected rollup; the window holds every block of the declared span once, as streamed, with
-- ascending numbers, linked hashes and 32-byte hashes; and the blocks, the witness items and the
-- bytes of all chunks are within the limits.
pub read_window-IsWindow :
    (encoded_len : ProveChunk → ℕ) (reserves : ℕ → Bool) (expected_rollup_id : ℕ)
    (limits : WindowLimits) (rs : List Received) (w : AdmittedWindow)
    → read_window encoded_len reserves expected_rollup_id limits rs ≡ ok w
    → (first : ProveChunk) × (h : ProveHeader) × (cs : List ProveChunk) × (rs
        ≡ map message (first ∷ cs))
      × IsWindow encoded_len limits expected_rollup_id first h cs w
unfolding read_window
read_window-IsWindow f reserves id limits [] w e = cc
read_window-IsWindow f reserves id limits (r ∷ rs) w e =
    let (first, is_message, e1) = >>=-eq-ok (next_message r) _ e in
    let (a, started, e2) = >>=-eq-ok (window_status (start f reserves limits first)) _ e1 in
    let (b, verified, e3) = >>=-eq-ok (identity_status (verify_rollup_identity a id)) _ e2 in
    let (h, s) =
      start-eq-ok f reserves limits first a
        (window_status-eq-ok (start f reserves limits first) a started) in
    let checked = identity_status-eq-ok (verify_rollup_identity a id) b verified in
    let (cs, a', all_messages, reads, finished) =
      read_rest-Reads f reserves b rs w (Started-IsSound f limits first h a b id s checked) e3 in
    (
      first,
      h,
      cs,
      ap₂ ◌∷◌ (next_message-eq-ok r first is_message) all_messages,
      IsWindow-of f limits id first h cs w a b a' s checked reads finished,
    )
