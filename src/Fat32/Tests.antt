-- ===== src/Fat32/Tests.antt =====
-- The theorems on src/fat32.c at a disk whose sector `n` is full of `n`, with clusters of two sectors.
use nibras_os.Prelude.{
  ℕ, ◌+◌, ◌<◌, ◌≢◌, ◌≡◌, refl, List, [], ◌∷◌, arith, replicate, length-replicate, take,
}
use nibras_os.Fat32.{
  MbrPartitionEntry, PartitionInfo, partition_of, Bpb, FatEntry, cluster_lba, first_cluster,
  fat32_load_file_into_buf, truncate_file_name,
}
use nibras_os.Fat32.Layout.{clusters_apart}
use nibras_os.Fat32.Chain.{chain_bytes, load_file-chain}

abbrev sectors : ℕ → List ℕ
sectors n = replicate 512 n

abbrev bpb : Bpb
bpb = record {
  secs_per_clus = 2;
  rsvd_sec_count = 32;
  fats_count = 2;
  secs_per_fat32 = 4;
  root_directory_first_clus = 2;
  volume_id = 1;
}

abbrev info : PartitionInfo
info = record {
  fat_lba = 0;
  fat_size = 4;
  data_lba = 40;
  root_lba = 40;
  root_clus_num = 2;
  type_code = 11;
}

abbrev file : FatEntry
file = record { name = []; ext = []; attr = 32; clus_num_high = 0; clus_num_low = 3; size = 1500 }

truncate_run :
    truncate_file_name (b'S' ∷ b'H' ∷ 32 ∷ 32 ∷ []) (b'B' ∷ b'I' ∷ b'N' ∷ [])
    ≡ b'S' ∷ b'H' ∷ b'.' ∷ b'B' ∷ b'I' ∷ b'N' ∷ []
unfolding truncate_file_name
truncate_run = refl

load_file-chain_example :
    fat32_load_file_into_buf sectors info bpb file ≡ take 1500 (chain_bytes sectors info bpb 2 3)
unfolding first_cluster cluster_lba
load_file-chain_example =
    load_file-chain sectors info bpb file 2 (λ n. length-replicate 512 n) (omega arith)
      (omega arith) refl (omega arith)

-- The data area begins at an odd sector.
abbrev odd_info : PartitionInfo
odd_info = record info { data_lba = 41 }

abbrev partition : MbrPartitionEntry
partition = record { type_code = 11; lba_begin = 63 }

clusters_apart_example :
    (cluster_lba (partition_of partition bpb) bpb 3 + 1
      ≢ cluster_lba (partition_of partition bpb) bpb 5 + 0)
    × ((k : ℕ) → k < 8 → 95 + k ≢ cluster_lba (partition_of partition bpb) bpb 3 + 1)
clusters_apart_example =
    clusters_apart partition bpb 3 5 1 0 (omega arith) (omega arith) (omega arith) (omega arith)
      (omega arith) (omega arith) (omega arith) (omega arith)
