-- ===== src/Fat32/Chain.antt =====
-- `fat32_load_file_into_buf` of src/fat32.c reads the clusters of the chain one after the other.
use nibras_os.Prelude.{
  ℕ, zero, suc, ◌+◌, ◌-◌, ◌*◌, ◌/◌, ◌%◌, ◌≤◌, ◌<◌, ◌≡◌, refl, inl, inr, true, false, List, [], ◌∷◌,
  ◌++◌, arith, ◌==◌, ltb, leb, Bool-cases, ap, sym, ◌∙◌, length, take, append_assoc,
}
use nibras_os.Fat32.{
  PartitionInfo, Bpb, FatEntry, u32, cluster_lba, next_cluster, first_cluster, load_loop,
  fat32_load_file_into_buf,
}

take_within {ℓ} :
    {A : Type ℓ} (n : ℕ) (xs ys : List A) → n ≤ length xs → take n (xs ++ ys) ≡ take n xs
take_within zero xs ys h = refl
take_within (suc n) [] ys h = absurd (omega arith)
take_within (suc n) (x ∷ xs) ys h = ap (λ zs. x ∷ zs) (take_within n xs ys (omega arith))

take_beyond {ℓ} :
    {A : Type ℓ} (n : ℕ) (xs ys : List A)
    → length xs ≤ n
    → take n (xs ++ ys) ≡ xs ++ take (n - length xs) ys
take_beyond n [] ys h = ap (λ (k : ℕ). take k ys) (omega arith)
take_beyond zero (x ∷ xs) ys h = absurd (omega arith)
take_beyond (suc n) (x ∷ xs) ys h =
    let e : suc n - suc (length xs) ≡ n - length xs = omega arith in
    ap (λ zs. x ∷ zs) (take_beyond n xs ys (omega arith) ∙ ap (λ (k : ℕ). xs ++ take k ys) (sym e))

module _ (sectors : ℕ → List ℕ) (p : PartitionInfo) (b : Bpb) where
  -- `n` sectors of a cluster, from the sector `i` on.
  abbrev pub cluster_bytes : ℕ → ℕ → ℕ → List ℕ
  cluster_bytes zero i clus = []
  cluster_bytes (suc n) i clus =
      sectors (u32 (cluster_lba p b clus + i)) ++ cluster_bytes n (i + 1) clus

  -- The contents of `m` clusters of a chain.
  abbrev pub chain_bytes : ℕ → ℕ → List ℕ
  chain_bytes zero clus = []
  chain_bytes (suc m) clus =
      cluster_bytes (b.secs_per_clus) 0 clus ++ chain_bytes m (next_cluster sectors p clus)

  module _ (size : ℕ) (sized : (n : ℕ) → length (sectors n) ≡ 512)
      (some_sectors : 0 < b.secs_per_clus) where
    -- A sector within the cluster, with `left` sectors behind it.
    load_loop-sector :
        (n s clus k : ℕ) (rest : List ℕ)
        → s < size
        → k < b.secs_per_clus
        → (512 ≤ size - s
            → load_loop sectors p b size n (s + 512) clus (cluster_lba p b clus) (k + 1)
              ≡ take (size - s - 512) rest)
        → load_loop sectors p b size (suc n) s clus (cluster_lba p b clus) k
          ≡ take (size - s) (sectors (u32 (cluster_lba p b clus + k)) ++ rest)
    unfolding load_loop
    load_loop-sector n s clus k rest ls lk ih =
        let within : leb (b.secs_per_clus) k ≡ false = ground arith in
        let more : leb size s ≡ false = ground arith in
        let bytes = sectors (u32 (cluster_lba p b clus + k)) in
        let len = sized (u32 (cluster_lba p b clus + k)) in
        rw (within, more)
          (elim (Bool-cases (ltb (size - s) 512)) [
            | inl e ↦ rw e (sym (take_within (size - s) bytes rest (ground (arith, len))))
            | inr e ↦
                let whole : 512 ≤ size - s = ground arith in
                rw e (
                  ap (λ (r : List ℕ). bytes ++ r)
                    (ih whole ∙ ap (λ (k : ℕ). take (size - s - k) rest) (sym len))
                  ∙ sym (take_beyond (size - s) bytes rest (omega (arith, len))))
          ])

    next_cluster-lt : (clus : ℕ) → next_cluster sectors p clus < 4294967288
    unfolding next_cluster
    next_cluster-lt clus = omega arith

    -- The last sector of the cluster is read: the next one in the table follows, whatever it is.
    load_loop-next :
        (n s clus k : ℕ)
        → b.secs_per_clus ≤ k
        → load_loop sectors p b size (suc n) s clus (cluster_lba p b clus) k
          ≡ load_loop sectors p b size
              (suc n)
              s
              (next_cluster sectors p clus)
              (cluster_lba p b (next_cluster sectors p clus))
              0
    unfolding load_loop
    load_loop-next n s clus k le =
        let over : leb (b.secs_per_clus) k ≡ true = ground arith in
        let start : leb (b.secs_per_clus) 0 ≡ false = ground arith in
        let no_end : leb 4294967288 (next_cluster sectors p clus) ≡ false =
          ground (arith, next_cluster-lt clus) in
        rw (over, start, no_end) refl

    load_loop_done :
        (n s clus sec k : ℕ) → size ≤ s → load_loop sectors p b size n s clus sec k ≡ []
    unfolding load_loop
    load_loop_done zero s clus sec k le = refl
    load_loop_done (suc n) s clus sec k le =
        let done : leb size s ≡ true = ground arith in rw done refl

    load_loop-chain :
        (n m left s clus k : ℕ)
        → k + left ≡ b.secs_per_clus
        → size < s + 512 * n
        → size ≤ s + 512 * left + 512 * (b.secs_per_clus * m)
        → load_loop sectors p b size n s clus (cluster_lba p b clus) k
          ≡ take
              (size - s)
              (cluster_bytes left k clus ++ chain_bytes m (next_cluster sectors p clus))
    load_loop-chain zero m left s clus k e fuel enough =
        let z : size - s ≡ 0 = omega arith in
        load_loop_done zero s clus (cluster_lba p b clus) k (omega arith) ∙ rw z refl
    load_loop-chain (suc n) m (suc left) s clus k e fuel enough = elim (Bool-cases (leb size s)) [
      | inl done ↦
          let z : size - s ≡ 0 = ground arith in
          load_loop_done (suc n) s clus (cluster_lba p b clus) k (ground arith) ∙ rw z refl
      | inr more ↦
          let rest =
            cluster_bytes left (k + 1) clus ++ chain_bytes m (next_cluster sectors p clus) in
          load_loop-sector n s clus k rest (ground arith) (omega arith) (λ whole.
            load_loop-chain n m left (s + 512) clus (k + 1) (omega arith) (omega arith)
              (omega arith)
            ∙ ap (λ (r : ℕ). take r rest) (omega arith))
          ∙ ap (take (size - s)) (
              sym (
                append_assoc (sectors (u32 (cluster_lba p b clus + k)))
                  (cluster_bytes left (k + 1) clus) (chain_bytes m (next_cluster sectors p clus))))
    ]
    load_loop-chain (suc n) zero zero s clus k e fuel enough =
        let z : size - s ≡ 0 = omega arith in
        load_loop_done (suc n) s clus (cluster_lba p b clus) k (omega arith) ∙ rw z refl
    load_loop-chain (suc n) (suc m) zero s clus k e fuel enough = elim (Bool-cases (leb size s)) [
      | inl done ↦
          let z : size - s ≡ 0 = ground arith in
          load_loop_done (suc n) s clus (cluster_lba p b clus) k (ground arith) ∙ rw z refl
      | inr more ↦
          let next = next_cluster sectors p clus in
          let left = b.secs_per_clus - 1 in
          let whole : b.secs_per_clus ≡ suc left = omega arith in
          let rest = cluster_bytes left 1 next ++ chain_bytes m (next_cluster sectors p next) in
          let room = ap (λ (c : ℕ). c * suc m) whole in
          let room_m = ap (λ (c : ℕ). c * m) whole in
          load_loop-next n s clus k (omega arith)
          ∙ load_loop-sector n s next 0 rest (ground arith) some_sectors (λ full.
            load_loop-chain n m left (s + 512) next 1 (omega arith) (omega arith) (omega arith)
            ∙ ap (λ (r : ℕ). take r rest) (omega arith))
          ∙ ap (take (size - s)) (
              sym (
                append_assoc (sectors (u32 (cluster_lba p b next + 0))) (cluster_bytes left 1 next)
                  (chain_bytes m (next_cluster sectors p next))))
          ∙ ap
              (λ (c : ℕ).
                take (size - s)
                  (cluster_bytes c 0 next ++ chain_bytes m (next_cluster sectors p next)))
              (sym whole)
    ]

-- With sectors of 512 bytes, a first cluster of 2 or more that begins at a multiple of the sectors
-- of a cluster, and enough clusters for the size, fat32_load_file_into_buf loads as many bytes as
-- the file has of the contents of its clusters, one cluster of the chain after the other.
pub load_file-chain :
    (sectors : ℕ → List ℕ) (p : PartitionInfo) (b : Bpb) (file : FatEntry) (m : ℕ)
    → ((n : ℕ) → length (sectors n) ≡ 512)
    → 0 < b.secs_per_clus
    → 2 ≤ first_cluster file
    → cluster_lba p b (first_cluster file) % b.secs_per_clus ≡ 0
    → file.size ≤ 512 * (b.secs_per_clus * m)
    → fat32_load_file_into_buf sectors p b file
      ≡ take (file.size) (chain_bytes sectors p b m (first_cluster file))
unfolding fat32_load_file_into_buf
load_file-chain sectors p b file m sized some_sectors two start enough =
    let c = first_cluster file in
    let n0 : (c == 0) ≡ false = ground arith in
    let n1 : (c == 1) ≡ false = ground arith in rw n0 (rw n1 (rw start (loads m enough)))
  where
    loads :
        (m : ℕ)
        → file.size ≤ 512 * (b.secs_per_clus * m)
        → load_loop sectors p b
            (file.size)
            (file.size / 512 + 1)
            0
            (first_cluster file)
            (cluster_lba p b (first_cluster file))
            0
          ≡ take (file.size) (chain_bytes sectors p b m (first_cluster file))
    loads zero enough =
        let z : file.size ≡ 0 = omega arith in
        load_loop_done sectors p b (file.size) sized some_sectors (file.size / 512 + 1) 0
          (first_cluster file) (cluster_lba p b (first_cluster file)) 0 (omega arith)
        ∙ ap (λ (r : ℕ). take r []) (sym z)
    loads (suc m) enough =
        load_loop-chain sectors p b (file.size) sized some_sectors (file.size / 512 + 1) m
          (b.secs_per_clus) 0 (first_cluster file) 0 (omega arith) (omega arith) (omega arith)
        ∙ ap (λ (r : ℕ). take r (chain_bytes sectors p b (suc m) (first_cluster file)))
            (omega arith)

-- The first sector that is loaded of a file of 512 bytes or more, with a first cluster of 2 or more
-- and clusters of one sector at least, is not the first of its cluster but the one at the index
-- that is the remainder of the number of that first sector by the sectors of a cluster.
pub load_file_skips :
    (sectors : ℕ → List ℕ) (p : PartitionInfo) (b : Bpb) (file : FatEntry)
    → 0 < b.secs_per_clus
    → 2 ≤ first_cluster file
    → 512 ≤ file.size
    → (rest : List ℕ) × (fat32_load_file_into_buf sectors p b file
        ≡ sectors (
            u32 (
              cluster_lba p b (first_cluster file)
              + cluster_lba p b (first_cluster file) % b.secs_per_clus))
          ++ rest)
unfolding fat32_load_file_into_buf
load_file_skips sectors p b file some_sectors two large =
    let c = first_cluster file in
    let n0 : (c == 0) ≡ false = ground arith in
    let n1 : (c == 1) ≡ false = ground arith in
    let lba = cluster_lba p b c in
    let n : file.size / 512 + 1 ≡ suc (file.size / 512) = omega arith in
    let first =
      load_first (file.size) (file.size / 512) lba (lba % b.secs_per_clus) large (remainder lba) in
    (
      first.0,
      rw n0 (
          rw n1 (
            ap (λ (k : ℕ). load_loop sectors p b (file.size) k 0 c lba (lba % b.secs_per_clus)) n
            ∙ first.1)),
    )
  where
    remainder : (lba : ℕ) → lba % b.secs_per_clus < b.secs_per_clus
    remainder lba = grind arith

    load_first :
        (size n sec k : ℕ)
        → 512 ≤ size
        → k < b.secs_per_clus
        → (rest : List ℕ) × (load_loop sectors p b size (suc n) 0 (first_cluster file) sec k
            ≡ sectors (u32 (sec + k)) ++ rest)
    load_first size n sec k large lk =
        let within : leb (b.secs_per_clus) k ≡ false = ground arith in
        let more : leb size 0 ≡ false = ground arith in
        let full : ltb (size - 0) 512 ≡ false = ground arith in
        (
          load_loop sectors p b size n (0 + 512) (first_cluster file) sec (k + 1),
          unfold load_loop in rw (within, more, full) refl,
        )
