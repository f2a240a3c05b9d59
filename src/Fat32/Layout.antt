-- ===== src/Fat32/Layout.antt =====
-- Where the sectors of a partition lie, `fat32_init` and the loops of src/fat32.c.
use nibras_os.Prelude.{ℕ, ◌+◌, ◌-◌, ◌*◌, ◌%◌, ◌≤◌, ◌<◌, ◌≡◌, ◌≢◌, arith}
use native.Mathlib.Decide.{dec_le}
use nibras_os.Fat32.{MbrPartitionEntry, Bpb, partition_of, cluster_lba}

-- The partition up to the end of the cluster `clus` has 32-bit sector numbers.
abbrev pub Fits : MbrPartitionEntry → Bpb → ℕ → Type 0
Fits e b clus =
    e.lba_begin + b.rsvd_sec_count + b.secs_per_fat32 * b.fats_count + b.secs_per_clus * (clus + 1)
    < 4294967296

le-product : (a c : ℕ) → 0 < a → c ≤ a * c
le-product a c h = grind arith

product-le : (a i j : ℕ) → i ≤ j → a * i ≤ a * j
product-le a i j h = grind arith

product_suc : (a i : ℕ) → a * (i + 1) ≡ a * i + a
product_suc a i = omega arith

-- The sector that a cluster begins at, without the wrap.
cluster_lba_lem :
    (e : MbrPartitionEntry) (b : Bpb) (clus : ℕ)
    → 0 < b.secs_per_clus
    → 2 ≤ clus
    → Fits e b clus
    → cluster_lba (partition_of e b) b clus
      ≡ e.lba_begin
        + b.rsvd_sec_count
        + b.secs_per_fat32 * b.fats_count
        + b.secs_per_clus * (clus - 2)
unfolding cluster_lba partition_of
cluster_lba_lem e b clus some_sectors two fits =
    let small = le-product (b.secs_per_clus) (clus + 1) some_sectors in
    let less = product-le (b.secs_per_clus) (clus - 2) (clus + 1) (omega arith) in
    let index : (clus + 4294967294) % 4294967296 ≡ clus - 2 = omega arith in rw index (omega arith)

-- In a partition that has 32-bit sector numbers up to the ends of two different clusters from 2 on,
-- of one sector at least, no sector of the one is a sector of the other, and no sector of the first
-- is one of the file allocation tables.
pub clusters_apart :
    (e : MbrPartitionEntry) (b : Bpb) (c1 c2 i j : ℕ)
    → 0 < b.secs_per_clus
    → 2 ≤ c1
    → 2 ≤ c2
    → Fits e b c1
    → Fits e b c2
    → c1 ≢ c2
    → i < b.secs_per_clus
    → j < b.secs_per_clus
    → (cluster_lba (partition_of e b) b c1 + i ≢ cluster_lba (partition_of e b) b c2 + j)
      × ((k : ℕ)
          → k < b.secs_per_fat32 * b.fats_count
          → e.lba_begin + b.rsvd_sec_count + k ≢ cluster_lba (partition_of e b) b c1 + i)
clusters_apart e b c1 c2 i j some_sectors two1 two2 fits1 fits2 ne li lj =
    let p1 = cluster_lba_lem e b c1 some_sectors two1 fits1 in
    let p2 = cluster_lba_lem e b c2 some_sectors two2 fits2 in
    let s1 = product_suc (b.secs_per_clus) (c1 - 2) in
    let s2 = product_suc (b.secs_per_clus) (c2 - 2) in
    (
      λ same. elim (dec_le c1 c2) [
        | yes le ↦
            let far = product-le (b.secs_per_clus) (c1 - 2 + 1) (c2 - 2) (omega arith) in
            omega arith
        | no gt ↦
            let far = product-le (b.secs_per_clus) (c2 - 2 + 1) (c1 - 2) (omega arith) in
            omega arith
      ],
      λ k lk same. omega arith,
    )
