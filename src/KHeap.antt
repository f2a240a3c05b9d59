-- ===== src/KHeap.antt =====
-- src/kheap.c, the kernel's heap: a list of chunks that are linked through the memory they manage. A
-- pointer is a number and NULL is 0; `chunks` reads the chunk header at an address.
pub mod Chunks
pub mod Search
pub mod Tiling
pub mod Steps
pub mod Segments
pub mod Invariant
pub mod Release
pub mod Blocks
mod Tests
use nibras_os.Prelude.{
  ℕ, zero, suc, ◌+◌, ◌-◌, ◌*◌, ◌/◌, ◌%◌, ◌≤◌, ◌<◌, ◌≡◌, Bool, true, false, ◌&&◌, ◌||◌, not, Option,
  none, some, List, [], ◌∷◌, if◌then◌else◌, ◌==◌, ltb, leb,
}

abbrev pub state_free : ℕ
state_free = 14593280

abbrev pub state_used : ℕ
state_used = 16706816

abbrev pub kheap_end : ℕ
kheap_end = 4026531840

-- `sizeof(struct kmalloc_chunk)`, and the memory of one page table.
abbrev pub kunit : ℕ
kunit = 16

abbrev pub table_size : ℕ
table_size = 4194304

pub record Chunk : Type 0 where
  state : ℕ
  length : ℕ
  next : ℕ
  prev : ℕ

pub record KHeap : Type 0 where
  head : ℕ
  tail : ℕ
  max_length : ℕ
  allocated_size : ℕ
  blocks_counter : ℕ
  kmallocs : ℕ
  chunks : ℕ → Chunk

unfoldable pub put : (ℕ → Chunk) → ℕ → Chunk → ℕ → Chunk
put chunks a c b = if b == a then c else chunks b

-- `c` takes in its free successor, whose own successor is told.
unfoldable pub kmerge : (ℕ → Chunk) → ℕ → ℕ → Chunk
unfolding put
kmerge chunks c =
    let next = (chunks c).next in
    let after = (chunks next).next in
    let grown = (chunks c).length + (chunks next).length in
    let relinked =
      if after == 0 then chunks else put chunks after (record (chunks after) { prev = c }) in
    if not (c == 0)
      && (chunks c).state == state_free
      && not (next == 0)
      && (chunks next).state == state_free
    then put relinked c (record (relinked c) { length = grown; next = after })
    else chunks

unfoldable pub ksplit : (ℕ → Chunk) → ℕ → ℕ → ℕ → Chunk
unfolding put
ksplit chunks c length =
    let n = c + length in
    let next = (chunks c).next in
    let made =
      put chunks n (record {
        state = state_free;
        length = (chunks c).length - length;
        next = next;
        prev = c;
      }) in
    let relinked = if next == 0 then made else put made next (record (made next) { prev = n }) in
    put relinked c (record (relinked c) { next = n; length = length })

unfoldable pub kheap_init : KHeap → ℕ → ℕ → KHeap
unfolding put
kheap_init h start_address length = if length == 0 then h else record h {
  head = start_address;
  tail = start_address;
  max_length = length;
  chunks =
      put (h.chunks) start_address
        (record { state = state_free; length = length; next = 0; prev = 0 });
}

-- `while (temp_size % 0x400000 > 0 && temp_size % 0x400000 != temp_size)`.
unfoldable pub extra_blocks : ℕ → ℕ → ℕ
extra_blocks zero temp_size = 0
extra_blocks (suc n) temp_size =
    let rest = extra_blocks n (temp_size - table_size) in
    if ltb 0 (temp_size % table_size) && not (temp_size % table_size == temp_size)
    then rest + 1
    else 0

-- The new chunk is put behind the one behind `tail`, or behind `tail` when that is the last.
unfoldable pub link_expansion : KHeap → ℕ → ℕ → KHeap
unfolding put
link_expansion h a length =
    let fresh = record (h.chunks a) { state = state_free; length = length; next = 0 } in
    let chunks = put (h.chunks) a fresh in
    let last = if (chunks (h.tail)).next == 0 then h.tail else (chunks (h.tail)).next in
    let linked = put chunks a (record fresh { prev = last }) in
    if h.tail == 0
    then record h { tail = a; chunks = chunks }
    else if h.tail == a
    then record h { chunks = chunks }
    else record h { chunks = put linked last (record (linked last) { next = a }) }

-- `tables` is how many page tables `mem_alloc_page` hands out before it fails. `none` stands for -1.
unfoldable pub kexpand : ℕ → KHeap → ℕ → Option KHeap
unfolding extra_blocks link_expansion kmerge
kexpand tables h size =
    let a = h.head + h.max_length in
    let blocks_count = size / table_size + 1 + extra_blocks 1024 size in
    let mapped = if ltb tables blocks_count then tables else blocks_count in
    let linked =
      link_expansion (record h { max_length = h.max_length + mapped * table_size }) a
        (table_size * blocks_count) in
    if size == 0 || leb kheap_end a || ltb kheap_end (a + table_size)
    then none
    else some (record linked { chunks = kmerge (linked.chunks) ((linked.chunks a).prev) })

-- The length that is looked for: a multiple of the unit, and a unit for the header.
unfoldable pub rounded : ℕ → ℕ
rounded length =
    let extra = length % kunit in
    ((if extra == 0 then length else length + (kunit - extra)) + kunit) % 4294967296

-- The first chunk from `temp` on that is free and long enough: `some none` when the list ends, `none`
-- without the fuel.
unfoldable pub find_chunk : ℕ → (ℕ → Chunk) → ℕ → ℕ → Option (Option ℕ)
find_chunk zero chunks temp length = none
find_chunk (suc n) chunks temp length =
    let rest = find_chunk n chunks ((chunks temp).next) length in
    if temp == 0
    then some none
    else if (chunks temp).state == state_free && leb length ((chunks temp).length)
    then some (some temp)
    else rest

-- The chunk is split when more than two units would be left.
unfoldable pub split_for : (ℕ → Chunk) → ℕ → ℕ → ℕ → Chunk
unfolding ksplit
split_for chunks c length =
    if ltb length ((chunks c).length) && ltb (2 * kunit) ((chunks c).length - length)
    then ksplit chunks c length
    else chunks

-- The chunk `c` is taken for `length` bytes; the pointer behind its header is returned.
unfoldable pub take_chunk : KHeap → ℕ → ℕ → KHeap × ℕ
unfolding split_for put
take_chunk h c length =
    let split = split_for (h.chunks) c length in
    (
      record h {
        chunks = put split c (record (split c) { state = state_used });
        tail = if (split c).next == 0 then c else (split c).next;
        allocated_size = (h.allocated_size + (split c).length) % 4294967296;
        blocks_counter = (h.blocks_counter + 1) % 4294967296;
        kmallocs = (h.kmallocs + 1) % 4294967296;
      },
      c + kunit,
    )

-- The search and what follows it: at the end of the list the heap grows, and the chunk is `tail`.
unfoldable pub search_chunk : ℕ → ℕ → KHeap → ℕ → ℕ → Option (KHeap × ℕ)
unfolding find_chunk kexpand take_chunk
search_chunk fuel tables h temp length = elim (find_chunk fuel (h.chunks) temp length) [
  | none ↦ none
  | some (some c) ↦ some (take_chunk h c length)
  | some none ↦ elim (kexpand tables h length) [
    | none ↦ some (h, 0)
    | some h1 ↦ some (take_chunk h1 (h1.tail) length)
  ]
]

-- `none`: the loop has not ended within the fuel. A length of 0 returns nothing in the source; here 0.
unfoldable pub kmalloc : ℕ → ℕ → KHeap → ℕ → Option (KHeap × ℕ)
unfolding search_chunk kexpand rounded
kmalloc fuel tables h length =
    let wanted = rounded length in
    let total = (h.allocated_size + wanted) % 4294967296 in
    let grown = kexpand tables h (total - h.max_length) in
    if length == 0
    then some (h, 0)
    else if ltb (h.max_length) total
    then elim grown [ none ↦ some (h, 0) | some h1 ↦ search_chunk fuel tables h1 (h1.tail) wanted ]
    else search_chunk fuel tables h (h.head) wanted

-- What `kfree` does with a used chunk. The zeroing of the data is not modelled: `chunks` holds headers
-- only.
unfoldable pub release : KHeap → ℕ → KHeap
unfolding kmerge put
release h c =
    let freed = put (h.chunks) c (record (h.chunks c) { state = state_free }) in
    let merged = kmerge freed c in
    record h {
      chunks = kmerge merged ((merged c).prev);
      tail = if (h.chunks c).next == 0 then c else h.tail;
      allocated_size = (h.allocated_size + 4294967296 - (h.chunks c).length) % 4294967296;
      blocks_counter = (h.blocks_counter + 4294967295) % 4294967296;
      kmallocs = (h.kmallocs + 4294967295) % 4294967296;
    }

unfoldable pub kfree : KHeap → ℕ → KHeap
unfolding release
kfree h ptr =
    let c = ptr - kunit in
    if ptr == 0 then h else if (h.chunks c).state == state_used then release h c else h

-- `memset(a, 0, n)` and `memcpy(dst, src, n)` on the bytes of the blocks.
unfoldable pub zero_block : (ℕ → ℕ) → ℕ → ℕ → ℕ → ℕ
zero_block bytes a n b = if leb a b && ltb b (a + n) then 0 else bytes b

unfoldable pub copy_block : (ℕ → ℕ) → ℕ → ℕ → ℕ → ℕ → ℕ
copy_block bytes dst src n b =
    if leb dst b && ltb b (dst + n) then bytes (src + (b - dst)) else bytes b

-- The bytes of a block that `kfree` frees become 0.
unfoldable pub kfree_bytes : KHeap → (ℕ → ℕ) → ℕ → ℕ → ℕ
unfolding zero_block
kfree_bytes h bytes ptr =
    let c = ptr - kunit in
    if ptr == 0
    then bytes
    else if (h.chunks c).state == state_used
    then zero_block bytes ptr ((h.chunks c).length - kunit)
    else bytes

unfoldable pub kcalloc : ℕ → ℕ → KHeap → (ℕ → ℕ) → ℕ → Bool → Option (KHeap × (ℕ → ℕ) × ℕ)
kcalloc fuel tables h bytes size clear =
    if size == 0 then some (h, bytes, 0) else elim (kmalloc fuel tables h size) [
      | none ↦ none
      | some (h1, block) ↦ some (h1, (if clear then zero_block bytes block size else bytes), block)
    ]

-- The old block is copied whole, then freed.
unfoldable pub move_block : KHeap → (ℕ → ℕ) → ℕ → ℕ → KHeap × (ℕ → ℕ) × ℕ
unfolding copy_block kfree kfree_bytes
move_block h bytes ptr block =
    let length = (h.chunks (ptr - kunit)).length - kunit in
    (kfree h ptr, kfree_bytes h (copy_block bytes block ptr length) ptr, block)

unfoldable pub krealloc : ℕ → ℕ → KHeap → (ℕ → ℕ) → ℕ → ℕ → Option (KHeap × (ℕ → ℕ) × ℕ)
krealloc fuel tables h bytes ptr size =
    if size == 0 || ptr == 0 || not ((h.chunks (ptr - kunit)).state == state_used)
    then some (h, bytes, 0)
    else elim (kmalloc fuel tables h size) [
      | none ↦ none
      | some (h1, block) ↦
          if block == 0 then some (h1, bytes, 0) else some (move_block h1 bytes ptr block)
    ]
