-- ===== src/Ext2/Cache.antt =====
-- The block cache of src/ext2_fs.c over the disk. A block is the list of its sectors, and a sector
-- is a value of any type `S`. The disk is a function from sector numbers; `ide_write_sector_retry`
-- writes until the sector reads back equal, so a write is an update of that function.
pub mod Sectors
pub mod Entries
pub mod Coherent
pub mod Write
pub mod Read
mod Tests
use nibras_os.Prelude.{
  ℕ, zero, suc, ◌+◌, ◌*◌, ◌%◌, ◌≡◌, Bool, true, false, Option, none, some, List, [], ◌∷◌,
  if◌then◌else◌, ◌==◌, ltb, get_elem?, set, length, u32_mod,
}

-- The drive sees the lowest 28 bits of a sector number: `ide_read_sector` and
-- `ide_write_sector_retry` of src/ata.c send four bits beside the drive bits, and three bytes.
abbrev pub lba_mod : ℕ
lba_mod = 0x1000_0000

-- `ext2_disk_cache_entry_t`.
pub record Entry (S : Type 0) : Type 0 where
  pub block_no : ℕ
  pub last_use : ℕ
  pub dirty : Bool
  pub block : List S

-- The static variables. `present` says that `DC` is not NULL, `per_block` is
-- `BLOCKSIZE / SECTORSIZE`, `now` is `_now`, and `disk` holds the sectors.
pub record Cache (S : Type 0) : Type 0 where
  pub present : Bool
  pub entries : List (Entry S)
  pub per_block : ℕ
  pub ext2_offset : ℕ
  pub now : ℕ
  pub disk : ℕ → S

-- What the loop over the cache finds: the entry of the block, or the least recently used one.
pub data Found : Type 0 where
  hit : ℕ → Found
  miss : Option ℕ → Found

module _ {S : Type 0} where
  -- Sector numbers are reduced where a sector is accessed.
  unfoldable pub btos : Cache S → ℕ → ℕ
  btos c block = c.ext2_offset + block * c.per_block

  -- `for (i = 0; i < BLOCKSIZE / SECTORSIZE; ++i) ide_read_sector(..., btos(block_no) + i, ...)`.
  unfoldable pub read_sectors : ℕ → ℕ → (ℕ → S) → List S
  read_sectors zero lba disk = []
  read_sectors (suc n) lba disk = disk (lba % lba_mod) ∷ read_sectors n (lba + 1) disk

  unfoldable pub write_sectors : List S → ℕ → (ℕ → S) → ℕ → S
  write_sectors [] lba disk = disk
  write_sectors (s ∷ ss) lba disk =
      write_sectors ss (lba + 1) (λ a. if a == lba % lba_mod then s else disk a)

  -- `btos` of the entry's block, as `ext2_flush_dirty` writes it.
  unfoldable pub flush_entry : Cache S → Entry S → ℕ → S
  unfolding write_sectors btos
  flush_entry c e = write_sectors e.block (btos c e.block_no) c.disk

  unfoldable pub ext2_flush_dirty : Cache S → ℕ → Cache S
  unfolding flush_entry
  ext2_flush_dirty c i = elim (get_elem? c.entries i) [
    | none ↦ c
    | some e ↦ record c {
      disk = flush_entry c e;
      entries = set c.entries i (record e { dirty = false });
    }
  ]

  -- The loop of both block operations: from entry `i` on, with the oldest entry so far.
  unfoldable pub find_entry : ℕ → List (Entry S) → ℕ → Option ℕ → ℕ → Found
  find_entry i [] block_no oldest oldest_age = miss oldest
  find_entry i (e ∷ es) block_no oldest oldest_age =
      let older : Bool = ltb e.last_use oldest_age in
      let rest =
        find_entry (i + 1) es block_no (if older then some i else oldest)
          (if older then e.last_use else oldest_age) in
      if e.block_no == block_no then hit i else rest

  -- `block_no` beside `ext2_time()`, which returns the old value of `_now`.
  unfoldable pub fill_entry : Cache S → ℕ → Entry S → Cache S
  fill_entry c i e = record c {
    entries = set c.entries i (record e { last_use = c.now });
    now = (c.now + 1) % u32_mod;
  }

  -- The victim `i` gets the sectors of the block, is flushed if it is dirty, and is then renamed.
  unfoldable pub read_miss : Cache S → ℕ → ℕ → Entry S → List S × Cache S
  unfolding read_sectors btos ext2_flush_dirty fill_entry
  read_miss c block_no i e =
      let data' = read_sectors c.per_block (btos c block_no) c.disk in
      let loaded = record c { entries = set c.entries i (record e { block = data' }) } in
      let flushed = if e.dirty then ext2_flush_dirty loaded i else loaded in
      (
        data',
        fill_entry flushed i
            (record { block_no = block_no; last_use = c.now; dirty = false; block = data' }),
      )

  -- Where no entry is younger than `UINT32_MAX` the C code indexes the cache by -1; here nothing
  -- changes.
  unfoldable pub read_found : Cache S → ℕ → List S → Found → List S × Cache S
  unfolding read_miss fill_entry
  read_found c block_no buf (hit i) = elim (get_elem? c.entries i) [
    | none ↦ (buf, c)
    | some e ↦ (e.block, fill_entry c i e)
  ]
  read_found c block_no buf (miss none) = (buf, c)
  read_found c block_no buf (miss (some i)) = elim (get_elem? c.entries i) [
    | none ↦ (buf, c)
    | some e ↦ read_miss c block_no i e
  ]

  -- `ext2_disk_read_block`: what `buf` holds afterwards, and the new state.
  unfoldable pub ext2_disk_read_block : Cache S → ℕ → List S → List S × Cache S
  unfolding read_sectors btos find_entry read_found
  ext2_disk_read_block c block_no buf =
      if block_no == 0
      then (buf, c)
      else if c.present
      then read_found c block_no buf (find_entry 0 c.entries block_no none 0xffff_ffff)
      else (read_sectors c.per_block (btos c block_no) c.disk, c)

  unfoldable pub write_miss : Cache S → ℕ → List S → ℕ → Entry S → Cache S
  unfolding ext2_flush_dirty fill_entry
  write_miss c block_no buf i e =
      let flushed = if e.dirty then ext2_flush_dirty c i else c in
      fill_entry flushed i
        (record { block_no = block_no; last_use = c.now; dirty = true; block = buf })

  unfoldable pub ext2_disk_write_block : Cache S → ℕ → List S → Cache S
  unfolding find_entry write_miss fill_entry
  ext2_disk_write_block c block_no buf =
      if block_no == 0 then c else elim (find_entry 0 c.entries block_no none 0xffff_ffff) [
        | hit i ↦ elim (get_elem? c.entries i) [
          | none ↦ c
          | some e ↦ fill_entry c i (record e { dirty = true; block = buf })
        ]
        | miss none ↦ c
        | miss (some i) ↦ elim (get_elem? c.entries i) [
          | none ↦ c
          | some e ↦ write_miss c block_no buf i e
        ]
      ]

  -- `ext2_disk_sync`'s loop: entries from `i` on, `n` of them left.
  unfoldable pub sync_from : ℕ → ℕ → Cache S → Cache S
  unfolding ext2_flush_dirty
  sync_from zero i c = c
  sync_from (suc n) i c = sync_from n (i + 1) (elim (get_elem? c.entries i) [
    | none ↦ c
    | some e ↦ if e.dirty then ext2_flush_dirty c i else c
  ])

  unfoldable pub ext2_disk_sync : Cache S → Cache S
  unfolding sync_from
  ext2_disk_sync c = sync_from (length c.entries) 0 c
