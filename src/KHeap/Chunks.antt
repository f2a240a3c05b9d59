-- ===== src/KHeap/Chunks.antt =====
-- Splitting and merging chunks, src/kheap.c.
use nibras_os.Prelude.{
  ℕ, ◌+◌, ◌-◌, ◌*◌, ◌%◌, ◌≤◌, ◌<◌, ◌≡◌, refl, ◌≢◌, inl, inr, Bool, true, false, ◌&&◌, not, arith,
  if◌then◌else◌, ◌==◌, ltb, ne→==, eq→==, ==→eq, Bool-cases, ap, sym, ◌∙◌,
}
use nibras_os.KHeap.{
  Chunk, KHeap, state_free, state_used, kunit, put, kmerge, ksplit, take_chunk, split_for, kfree,
  release,
}

pub put_self : (chunks : ℕ → Chunk) (a : ℕ) (c : Chunk) → put chunks a c a ≡ c
unfolding put
put_self chunks a c = rw (eq→== a a refl) refl

pub put-ne : (chunks : ℕ → Chunk) (a b : ℕ) (c : Chunk) → b ≢ a → put chunks a c b ≡ chunks b
unfolding put
put-ne chunks a b c ne = rw (ne→== b a ne) refl

-- A write that keeps the state keeps all states.
put-state :
    (chunks : ℕ → Chunk) (a b : ℕ) (c : Chunk)
    → c.state ≡ (chunks a).state
    → (put chunks a c b).state ≡ (chunks b).state
unfolding put
put-state chunks a b c e = elim (Bool-cases (b == a)) [
  | inl q ↦ rw (q, ==→eq b a q) e
  | inr q ↦ rw q refl
]

put-length :
    (chunks : ℕ → Chunk) (a b : ℕ) (c : Chunk)
    → c.length ≡ (chunks a).length
    → (put chunks a c b).length ≡ (chunks b).length
unfolding put
put-length chunks a b c e = elim (Bool-cases (b == a)) [
  | inl q ↦ rw (q, ==→eq b a q) e
  | inr q ↦ rw q refl
]

-- Merging changes the state of no chunk.
kmerge-state : (chunks : ℕ → Chunk) (c b : ℕ) → (kmerge chunks c b).state ≡ (chunks b).state
unfolding kmerge
kmerge-state chunks c b =
    let next = (chunks c).next in
    let after = (chunks next).next in
    let linked = put chunks after (record (chunks after) { prev = c }) in
    elim (Bool-cases (
      not (c == 0)
      && (chunks c).state == state_free
      && not (next == 0)
      && (chunks next).state == state_free)) [
        | inr q ↦ rw q refl
        | inl q ↦ elim (Bool-cases (after == 0)) [
          | inl z ↦
              rw (q, z)
                (put-state chunks c b
                  (record (chunks c) {
                    length = (chunks c).length + (chunks next).length;
                    next = after;
                  })
                  refl)
          | inr z ↦
              rw (q, z)
                (put-state linked c b
                    (record (linked c) {
                      length = (chunks c).length + (chunks next).length;
                      next = after;
                    })
                    refl
                  ∙ put-state chunks after b (record (chunks after) { prev = c }) refl)
        ]
      ]

abbrev resize : ℕ → ℕ → Chunk → Chunk
resize n size t = record t { next = n; length = size }

abbrev follow : ℕ → Chunk → Chunk
follow n t = record t { prev = n }

if_true : (b : Bool) (t u : Chunk) → b ≡ true → t ≡ (if b then t else u)
if_true b t u e = rw e refl

if_false : (b : Bool) (t u : Chunk) → b ≡ false → u ≡ (if b then t else u)
if_false b t u e = rw e refl

-- For a size that is not 0, and when the chunk that follows is neither the chunk itself nor at the
-- place of the new one, splitting leaves the chunk with the wanted size and its state and makes a
-- free chunk of the rest behind it, linked between it and the chunk that followed; no other chunk
-- changes but for the prev of that one.
pub ksplit-Split :
    (chunks : ℕ → Chunk) (c size : ℕ)
    → size ≢ 0
    → (chunks c).next ≢ c
    → (chunks c).next ≢ c + size
    → (ksplit chunks c size c ≡ record (chunks c) { next = c + size; length = size })
      × (ksplit chunks c size (c + size) ≡ record {
        state = state_free;
        length = (chunks c).length - size;
        next = (chunks c).next;
        prev = c;
      })
      × ((x : ℕ)
          → x ≢ c
          → x ≢ c + size
          → ksplit chunks c size x ≡ (
              if not ((chunks c).next == 0) && x == (chunks c).next
              then record (chunks x) { prev = c + size }
              else chunks x))
unfolding ksplit
ksplit-Split chunks c size nz nc nn =
    let n = c + size in
    let next = (chunks c).next in
    let cn : c ≢ n = omega arith in
    let rest : Chunk = record {
      state = state_free;
      length = (chunks c).length - size;
      next = next;
      prev = c;
    } in
    let made = put chunks n rest in
    elim (Bool-cases (next == 0)) [
      | inl z ↦
          let top = record (made c) { next = n; length = size } in
          rw z (
            put_self made c top ∙ ap (resize n size) (put-ne chunks n c rest cn),
            put-ne made c n top (λ e. cn (sym e)) ∙ put_self chunks n rest,
            λ x xc xn. put-ne made c x top xc ∙ put-ne chunks n x rest xn,
          )
      | inr z ↦
          let linked = put made next (record (made next) { prev = n }) in
          let top = record (linked c) { next = n; length = size } in
          rw z (
            put_self linked c top
                ∙ ap (resize n size) (
                    put-ne made next c (record (made next) { prev = n }) (λ e. nc (sym e))
                    ∙ put-ne chunks n c rest cn),
            put-ne linked c n top (λ e. cn (sym e))
                ∙ put-ne made next n (record (made next) { prev = n }) (λ e. nn (sym e))
                ∙ put_self chunks n rest,
            λ x xc xn. put-ne linked c x top xc ∙ elim (Bool-cases (x == next)) [
              | inl q ↦
                  let xe : x ≡ next = ==→eq x next q in
                  ap (put made next (follow n (made next))) xe
                  ∙ put_self made next (follow n (made next))
                  ∙ ap (follow n) (put-ne chunks n next rest nn ∙ ap chunks (sym xe))
                  ∙ if_true (x == next) (follow n (chunks x)) (chunks x) q
              | inr q ↦
                  put-ne made next x (follow n (made next)) (ground arith)
                  ∙ put-ne chunks n x rest xn
                  ∙ if_false (x == next) (follow n (chunks x)) (chunks x) q
            ],
          )
    ]

ksplit-length : (chunks : ℕ → Chunk) (c size : ℕ) → (ksplit chunks c size c).length ≡ size
unfolding ksplit
ksplit-length chunks c size =
    let next = (chunks c).next in
    let made =
      put chunks (c + size)
        (record { state = state_free; length = (chunks c).length - size; next = next; prev = c }) in
    elim (Bool-cases (next == 0)) [
      | inl z ↦ rw z (ap (λ t. t.length) (put_self made c (resize (c + size) size (made c))))
      | inr z ↦
          let linked = put made next (follow (c + size) (made next)) in
          rw z (ap (λ t. t.length) (put_self linked c (resize (c + size) size (linked c))))
    ]

split_for-length :
    (chunks : ℕ → Chunk) (c size : ℕ)
    → size ≤ (chunks c).length
    → (size ≤ (split_for chunks c size c).length)
      × ((split_for chunks c size c).length ≤ size + 2 * kunit)
unfolding split_for
split_for-length chunks c size l =
    elim (Bool-cases (ltb size ((chunks c).length) && ltb (2 * kunit) ((chunks c).length - size))) [
      | inl q ↦
          rw q
            (omega (arith, ksplit-length chunks c size), omega (arith, ksplit-length chunks c size))
      | inr q ↦ rw q (l, ground arith)
    ]

-- Taking a chunk of at least `size` bytes returns the pointer behind its header, marks it as used,
-- leaves it with at least `size` bytes and at most two units more, and counts what it keeps.
pub take_chunk-Taken :
    (h : KHeap) (c size : ℕ)
    → size ≤ (h.chunks c).length
    → ((take_chunk h c size).1 ≡ c + kunit)
      × (((take_chunk h c size).0.chunks c).state ≡ state_used)
      × (size ≤ ((take_chunk h c size).0.chunks c).length)
      × (((take_chunk h c size).0.chunks c).length ≤ size + 2 * kunit)
      × ((take_chunk h c size).0.allocated_size
          ≡ (h.allocated_size + ((take_chunk h c size).0.chunks c).length) % 4294967296)
unfolding take_chunk
take_chunk-Taken h c size l =
    let split = split_for (h.chunks) c size in
    let used : Chunk = record (split c) { state = state_used } in
    let self = put_self split c used in
    let (lo, hi) = split_for-length (h.chunks) c size l in rw self (refl, refl, lo, hi, refl)

pub kfree-release :
    (h : KHeap) (c : ℕ) → (h.chunks c).state ≡ state_used → kfree h (c + kunit) ≡ release h c
unfolding kfree
kfree-release h c used =
    let back : c + kunit - kunit ≡ c = omega arith in
    rw (kfree, ne→== (c + kunit) 0 (omega arith), back, eq→== ((h.chunks c).state) state_used used)
      refl

release-state :
    (h : KHeap) (c x : ℕ)
    → ((release h c).chunks x).state
      ≡ (put (h.chunks) c (record (h.chunks c) { state = state_free }) x).state
unfolding release
release-state h c x =
    let freed = put (h.chunks) c (record (h.chunks c) { state = state_free }) in
    kmerge-state (kmerge freed c) ((kmerge freed c c).prev) x ∙ kmerge-state freed c x

release-free : (h : KHeap) (c : ℕ) → ((release h c).chunks c).state ≡ state_free
release-free h c =
    release-state h c c
    ∙ ap (λ t. t.state) (put_self (h.chunks) c (record (h.chunks c) { state = state_free }))

release-other : (h : KHeap) (c x : ℕ) → x ≢ c → ((release h c).chunks x).state ≡ (h.chunks x).state
release-other h c x ne =
    release-state h c x
    ∙ ap (λ t. t.state) (put-ne (h.chunks) c x (record (h.chunks c) { state = state_free }) ne)

release-size :
    (h h1 : KHeap) (c : ℕ)
    → h.allocated_size < 4294967296
    → (h1.chunks c).length < 4294967296
    → h1.allocated_size ≡ (h.allocated_size + (h1.chunks c).length) % 4294967296
    → (release h1 c).allocated_size ≡ h.allocated_size
unfolding release
release-size h h1 c a l e = omega arith

release-counters :
    (h : KHeap) (c size : ℕ)
    → h.blocks_counter < 4294967296
    → h.kmallocs < 4294967296
    → ((release (take_chunk h c size).0 c).blocks_counter ≡ h.blocks_counter)
      × ((release (take_chunk h c size).0 c).kmallocs ≡ h.kmallocs)
unfolding release take_chunk
release-counters h c size b k = (omega arith, omega arith)

-- When the chunk has the wanted size and the counters and the size are 32-bit numbers, freeing what
-- `kmalloc` has just handed out restores the size and the two counters of the heap, marks the chunk
-- as free, and changes the state of no other chunk.
pub kfree-take_chunk :
    (h : KHeap) (c size : ℕ)
    → size ≤ (h.chunks c).length
    → h.allocated_size < 4294967296
    → h.blocks_counter < 4294967296
    → h.kmallocs < 4294967296
    → size + 2 * kunit < 4294967296
    → (h2 : KHeap) × (kfree (take_chunk h c size).0 (take_chunk h c size).1 ≡ h2)
      × (h2.allocated_size ≡ h.allocated_size)
      × (h2.blocks_counter ≡ h.blocks_counter)
      × (h2.kmallocs ≡ h.kmallocs)
      × ((h2.chunks c).state ≡ state_free)
      × ((x : ℕ) → x ≢ c → (h2.chunks x).state ≡ ((take_chunk h c size).0.chunks x).state)
kfree-take_chunk h c size l a b k s =
    let (e, used, lo, hi, sum) = take_chunk-Taken h c size l in
    let h1 = (take_chunk h c size).0 in
    let (b1, k1) = release-counters h c size b k in
    (
      release h1 c,
      ap (kfree h1) e ∙ kfree-release h1 c used,
      release-size h h1 c a (omega arith) sum,
      b1,
      k1,
      release-free h1 c,
      release-other h1 c,
    )
