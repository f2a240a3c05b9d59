-- ===== src/Fat32.antt =====
-- src/fat32.c: the layout of a partition, the loading of a file along its chain of clusters, the kinds
-- of directory records. A sector is the list of its 512 bytes, as `ide_read_sector` of src/ata.c returns it.
pub mod Chain
pub mod Layout
mod Tests
use nibras_os.Prelude.{
  ℕ, zero, suc, ◌+◌, ◌-◌, ◌*◌, ◌/◌, ◌%◌, ◌^◌, ◌<◌, ◌≡◌, ◌&&◌, ◌||◌, Bool, true, false, Option, none,
  some, List, [], ◌∷◌, ◌++◌, if◌then◌else◌, ◌==◌, ltb, leb, get_or, take, drop, bit_and, bit_or,
  length, replicate,
}

-- The fields of `struct bpb` and of `struct mbr_partition_entry` that `fat32_init` uses.
pub record Bpb : Type 0 where
  secs_per_clus : ℕ
  rsvd_sec_count : ℕ
  fats_count : ℕ
  secs_per_fat32 : ℕ
  root_directory_first_clus : ℕ
  volume_id : ℕ

pub record MbrPartitionEntry : Type 0 where
  type_code : ℕ
  lba_begin : ℕ

pub record PartitionInfo : Type 0 where
  fat_lba : ℕ
  fat_size : ℕ
  data_lba : ℕ
  root_lba : ℕ
  root_clus_num : ℕ
  type_code : ℕ

pub record FatEntry : Type 0 where
  name : List ℕ
  ext : List ℕ
  attr : ℕ
  clus_num_high : ℕ
  clus_num_low : ℕ
  size : ℕ

-- `unsigned int` arithmetic.
abbrev pub u32 : ℕ → ℕ
u32 n = n % 4294967296

-- The assignments for one partition.
unfoldable pub partition_of : MbrPartitionEntry → Bpb → PartitionInfo
partition_of e b =
    let fat_lba = u32 (e.lba_begin + b.rsvd_sec_count) in
    let data_lba = u32 (fat_lba + b.secs_per_fat32 * b.fats_count) in
    record {
      fat_lba = fat_lba;
      fat_size = b.secs_per_fat32;
      data_lba = data_lba;
      root_lba = u32 (data_lba + b.secs_per_clus * u32 (b.root_directory_first_clus + 4294967294));
      root_clus_num = b.root_directory_first_clus;
      type_code = e.type_code;
    }

abbrev no_partition : PartitionInfo
no_partition = record {
  fat_lba = 0;
  fat_size = 0;
  data_lba = 0;
  root_lba = 0;
  root_clus_num = 0;
  type_code = 0;
}

-- The partitions in their order, with the block that `ide_read_sector_n` reads for each: the first that
-- begins and has no volume ends the function, and the partitions behind it stay cleared. The result says
-- whether the function went on to the end.
unfoldable pub init_partitions : List (MbrPartitionEntry × Bpb) → List PartitionInfo × Bool
unfolding partition_of
init_partitions [] = ([], true)
init_partitions ((e, b) ∷ rest) =
    let (infos, done) = init_partitions rest in
    if e.lba_begin == 0
    then (no_partition ∷ infos, done)
    else if b.volume_id == 0
    then (no_partition ∷ replicate (length rest) no_partition, false)
    else (partition_of e b ∷ infos, done)

-- Without the magic code nothing is read.
unfoldable pub fat32_init : ℕ → List (MbrPartitionEntry × Bpb) → List PartitionInfo × Bool
unfolding init_partitions
fat32_init magic_code partitions =
    if magic_code == 43605 then init_partitions partitions else ([], false)

-- The sector that a cluster begins at.
unfoldable pub cluster_lba : PartitionInfo → Bpb → ℕ → ℕ
cluster_lba p b clus = u32 (p.data_lba + b.secs_per_clus * u32 (clus + 4294967294))

-- The `i`th 32-bit word of a sector.
unfoldable pub word_of : List ℕ → ℕ → ℕ
word_of sector i =
    get_or sector (4 * i) 0
    + 256 * get_or sector (4 * i + 1) 0
    + 65536 * get_or sector (4 * i + 2) 0
    + 16777216 * get_or sector (4 * i + 3) 0

-- The entry of the table for a cluster, without its highest 4 bits.
unfoldable pub next_cluster : (ℕ → List ℕ) → PartitionInfo → ℕ → ℕ
unfolding word_of
next_cluster sectors p clus =
    word_of (sectors (u32 (p.fat_lba + clus / 128))) (clus % 128) % 268435456

unfoldable pub first_cluster : FatEntry → ℕ
first_cluster file = file.clus_num_high * 65536 + file.clus_num_low

-- The loop of `fat32_load_file_into_buf`, `n` sectors at most: the bytes that are written from `s` on.
unfoldable pub load_loop : (ℕ → List ℕ) → PartitionInfo → Bpb → ℕ → ℕ → ℕ → ℕ → ℕ → ℕ → List ℕ
unfolding next_cluster cluster_lba
load_loop sectors p b size zero s file_next_clus file_sec sec_counter = []
load_loop sectors p b size (suc n) s file_next_clus file_sec sec_counter =
    let over = leb (b.secs_per_clus) sec_counter in
    let next = next_cluster sectors p file_next_clus in
    let clus = if over then next else file_next_clus in
    let sec = if over then cluster_lba p b next else file_sec in
    let counter = if over then 0 else sec_counter in
    let bytes = sectors (u32 (sec + counter)) in
    let rest = load_loop sectors p b size n (s + 512) clus sec (counter + 1) in
    if leb size s
    then []
    else if over && leb 4294967288 next
    then []
    else if ltb (size - s) 512
    then take (size - s) bytes
    else bytes ++ rest

-- The cluster 0 is taken for 2, and so is 1, in the first sector only.
unfoldable pub fat32_load_file_into_buf : (ℕ → List ℕ) → PartitionInfo → Bpb → FatEntry → List ℕ
unfolding load_loop cluster_lba first_cluster
fat32_load_file_into_buf sectors p b file =
    let file_clus = first_cluster file in
    let start = if file_clus == 0 then 2 else if file_clus == 1 then 2 else file_clus in
    let file_sec = cluster_lba p b start in
    load_loop sectors p b (file.size) (file.size / 512 + 1) 0 file_clus file_sec
      (file_sec % b.secs_per_clus)

-- The bytes up to the first space, of 8 at most.
unfoldable pub base_name : ℕ → List ℕ → List ℕ
base_name zero name = []
base_name (suc n) [] = []
base_name (suc n) (c ∷ name) = if c == 32 then [] else c ∷ base_name n name

-- `strcpy` ends at the first 0.
unfoldable pub truncate_file_name : List ℕ → List ℕ → List ℕ
unfolding base_name
truncate_file_name file_name ext = up_to_zero (base_name 8 file_name ++ b'.' ∷ take 3 ext)
  where
    up_to_zero : List ℕ → List ℕ
    up_to_zero [] = []
    up_to_zero (c ∷ cs) = if c == 0 then [] else c ∷ up_to_zero cs
