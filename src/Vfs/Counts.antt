-- ===== src/Vfs/Counts.antt =====
-- The reference counts of src/vfs.c: `vfs_open` and `vfs_close`.
use nibras_os.Prelude.{
  ℕ, zero, suc, ◌+◌, ◌<◌, ◌≡◌, refl, ◌≢◌, inl, inr, List, ◌∷◌, ◌++◌, arith, if◌then◌else◌, ◌==◌,
  Bool-cases, ==→eq, eq→==, ne→==, ap, sym, ◌∙◌, ℤ, pos, replicate,
}
use nibras_os.Vfs.{
  Vfs, VfsNode, Call, open_call, close_call, set_node, count_up, vfs_open, vfs_close,
}

-- `k` times.
abbrev pub opens : ℕ → Vfs → ℕ → ℕ → Vfs
opens zero s node flags = s
opens (suc k) s node flags = opens k (vfs_open s node flags) node flags

abbrev pub closes : ℕ → Vfs → ℕ → Vfs
closes zero s node = s
closes (suc k) s node = closes k (vfs_close s node) node

-- `t` is `s` but for the count of the node and the calls.
abbrev pub Counts : Vfs → ℕ → ℤ → List Call → Vfs → Type 0
Counts s node count calls t =
    (t.vfs_root ≡ s.vfs_root)
    × (t.root_file ≡ s.root_file)
    × (t.calls ≡ calls)
    × (t.nodes node ≡ record (s.nodes node) { refcount = count })
    × ((x : ℕ) → x ≢ node → t.nodes x ≡ s.nodes x)

set_node_self : (s : Vfs) (node : ℕ) (n : VfsNode) → (set_node s node n).nodes node ≡ n
unfolding set_node
set_node_self s node n = rw (eq→== node node refl) refl

set_node_ne :
    (s : Vfs) (node x : ℕ) (n : VfsNode) → x ≢ node → (set_node s node n).nodes x ≡ s.nodes x
unfolding set_node
set_node_ne s node x n ne = rw (ne→== x node ne) refl

vfs_close_lem :
    (t : Vfs) (node k : ℕ)
    → node ≢ 0
    → node ≢ t.vfs_root
    → (t.nodes node).refcount ≡ pos (suc k)
    → vfs_close t node ≡ (
        let t1 = set_node t node (record (t.nodes node) { refcount = pos k }) in
        if k == 0 then record t1 { calls = close_call node ∷ t.calls } else t1)
unfolding vfs_close
vfs_close_lem t node k nonzero other e =
    rw (ne→== node 0 nonzero, ne→== node (t.vfs_root) other, e) refl

count_up-pos : (k : ℕ) → k < 0x7fff_ffff → count_up (pos k) ≡ pos (k + 1)
count_up-pos k small = rw (ne→== k 0x7fff_ffff (omega arith)) refl

module _ (s : Vfs) (node flags : ℕ) (calls : List Call) (t : Vfs) where
  vfs_open-Counts :
      (k : ℕ)
      → k < 0x7fff_ffff
      → node ≢ 0
      → Counts s node (pos k) calls t
      → Counts s node (pos (k + 1)) (open_call node flags ∷ calls) (vfs_open t node flags)
  unfolding vfs_open
  vfs_open-Counts k small ne (root, file, c, n, others) =
      let again : VfsNode = record (t.nodes node) {
        refcount = count_up ((t.nodes node).refcount);
      } in
      rw (ne→== node 0 ne) (
        unfold set_node in root,
        unfold set_node in file,
        ap (λ (cs : List Call). open_call node flags ∷ cs) c,
        set_node_self t node again
            ∙ ap (λ (m : VfsNode). record m { refcount = count_up (m.refcount) }) n
            ∙ ap (λ (r : ℤ). record (s.nodes node) { refcount = r }) (count_up-pos k small),
        λ x nx. set_node_ne t node x again nx ∙ others x nx,
      )

  module _ (k : ℕ) (nonzero : node ≢ 0) (other : node ≢ s.vfs_root)
      (related : Counts s node (pos (suc k)) calls t) where
    abbrev lowered : Vfs
    lowered = set_node t node (record (t.nodes node) { refcount = pos k })

    lowered-Counts : Counts s node (pos k) calls lowered
    lowered-Counts =
        let (root, file, c, n, others) = related in
        (
          unfold set_node in root,
          unfold set_node in file,
          unfold set_node in c,
          set_node_self t node (record (t.nodes node) { refcount = pos k })
              ∙ ap (λ (m : VfsNode). record m { refcount = pos k }) n,
          λ x nx.
              set_node_ne t node x (record (t.nodes node) { refcount = pos k }) nx ∙ others x nx,
        )

    closed :
        vfs_close t node
        ≡ (if k == 0 then record lowered { calls = close_call node ∷ t.calls } else lowered)
    closed =
        let (root, file, c, n, others) = related in
        vfs_close_lem t node k nonzero (λ e. other (e ∙ root)) (ap (λ (m : VfsNode). m.refcount) n)

    vfs_close-more : k ≢ 0 → Counts s node (pos k) calls (vfs_close t node)
    vfs_close-more more = rw (closed, ne→== k 0 more) lowered-Counts

    vfs_close_last : k ≡ 0 → Counts s node (pos k) (close_call node ∷ calls) (vfs_close t node)
    vfs_close_last last =
        let (root, file, c, n, others) = lowered-Counts in
        let (root1, file1, c1, n1, others1) = related in
        rw (closed, eq→== k 0 last)
          (root, file, ap (λ (cs : List Call). close_call node ∷ cs) c1, n, others)

replicate-cons {ℓ} :
    {A : Type ℓ} (k : ℕ) (c : A) (cs : List A)
    → replicate k c ++ (c ∷ cs) ≡ c ∷ (replicate k c ++ cs)
replicate-cons zero c cs = refl
replicate-cons (suc k) c cs = ap (λ xs. c ∷ xs) (replicate-cons k c cs)

-- The calls of `k` openings.
opens-Counts :
    (k j : ℕ) (s : Vfs) (node flags : ℕ) (calls : List Call) (t : Vfs)
    → j + k < 0x8000_0000
    → node ≢ 0
    → Counts s node (pos j) calls t
    → Counts s node
        (pos (j + k))
        (replicate k (open_call node flags) ++ calls)
        (opens k t node flags)
opens-Counts zero j s node flags calls t small ne related =
    let z : j + 0 ≡ j = omega arith in rw z related
opens-Counts (suc k) j s node flags calls t small ne related =
    let e : j + suc k ≡ j + 1 + k = omega arith in
    let rest =
      opens-Counts k (j + 1) s node flags (open_call node flags ∷ calls) (vfs_open t node flags)
        (omega arith) ne (vfs_open-Counts s node flags calls t j (omega arith) ne related) in
    rw e (rw (replicate-cons k (open_call node flags) calls) at rest)

closes-Counts :
    (k : ℕ) (s : Vfs) (node flags : ℕ) (calls : List Call) (t : Vfs)
    → node ≢ 0
    → node ≢ s.vfs_root
    → Counts s node (pos (suc k)) calls t
    → Counts s node (pos 0) (close_call node ∷ calls) (closes (suc k) t node)
closes-Counts zero s node flags calls t ne other related =
    vfs_close_last s node flags calls t 0 ne other related refl
closes-Counts (suc k) s node flags calls t ne other related =
    closes-Counts k s node flags calls (vfs_close t node) ne other
      (vfs_close-more s node flags calls t (suc k) ne other related (omega arith))

-- When a node that is not NULL and not the root of the tree has the count 0, at least one opening,
-- fewer than 2^31 of them, and as many closings leave every node as it was, and the close of its
-- file system is called once, by the last of them.
pub closes-opens :
    (k : ℕ) (s : Vfs) (node flags : ℕ)
    → suc k < 0x8000_0000
    → node ≢ 0
    → node ≢ s.vfs_root
    → (s.nodes node).refcount ≡ pos 0
    → (((x : ℕ) → (closes (suc k) (opens (suc k) s node flags) node).nodes x ≡ s.nodes x)
        × ((closes (suc k) (opens (suc k) s node flags) node).calls
            ≡ close_call node ∷ (replicate (suc k) (open_call node flags) ++ s.calls)))
closes-opens k s node flags small ne other unused =
    let start : Counts s node (pos 0) (s.calls) s = (
      refl,
      refl,
      refl,
      ap (λ (r : ℤ). record (s.nodes node) { refcount = r }) unused,
      λ x nx. refl,
    ) in
    let up = opens-Counts (suc k) 0 s node flags (s.calls) s (omega arith) ne start in
    let e : 0 + suc k ≡ suc k = omega arith in
    let (root, file, c, n, others) =
      closes-Counts k s node flags _ (opens (suc k) s node flags) ne other (rw e at up) in
    (
      λ x. elim (Bool-cases (x == node)) [
        | inl same ↦
            let xn = ==→eq x node same in
            ap (closes (suc k) (opens (suc k) s node flags) node).nodes xn
            ∙ n
            ∙ ap (λ (r : ℤ). record (s.nodes node) { refcount = r }) (sym unused)
            ∙ ap (s.nodes) (sym xn)
        | inr differs ↦ others x (ground arith)
      ],
      c,
    )
