-- ===== src/Vfs/Paths.antt =====
-- The parent and the name of a path, and `vfs_create_file`, src/vfs.c.
use native.Mathlib.Decide.{dec_le}
use nibras_os.Prelude.{
  ℕ, zero, suc, ◌+◌, ◌≤◌, ◌<◌, ◌≡◌, refl, ◌≢◌, ◌⊎◌, ◌||◌, inl, inr, Bool, true, false, Option, none,
  some, List, [], ◌∷◌, ◌++◌, arith, if◌then◌else◌, ◌==◌, Bool-cases, ==→eq, eq→==, ne→==, ap, sym,
  ◌∙◌, get_or, take, drop, length, ℤ, negsuc,
}
use nibras_os.Strings.{strlen}
use nibras_os.Strings.Compare.{head_byte}
use nibras_os.Vfs.{
  Vfs, VfsNode, Call, open_call, create_call, slash, set_node, vfs_open, vfs_close, file_open,
  get_mountpoint, last_slash, split_path, in_parent, vfs_create_file, count_up,
}
use nibras_os.Vfs.Mounts.{file_open-mounted, open_loop_done}

-- The byte at a place of a string, 0 behind its end.
abbrev pub byte : List ℕ → ℕ → ℕ
byte s i = get_or s i 0

head_byte-byte : (s : List ℕ) → head_byte s ≡ byte s 0
head_byte-byte [] = refl
head_byte-byte (c ∷ s) = refl

-- The last slash among the first `i + 1` bytes.
abbrev IsLast : List ℕ → ℕ → Option ℕ → Type 0
IsLast s i none = (m : ℕ) → m ≤ i → byte s m ≢ 47
IsLast s i (some j) = (j ≤ i) × (byte s j ≡ 47) × ((m : ℕ) → j < m → m ≤ i → byte s m ≢ 47)

-- The next byte is no slash either.
extend :
    (i : ℕ) (s : List ℕ) (o : Option ℕ) → byte s (suc i) ≢ 47 → IsLast s i o → IsLast s (suc i) o
extend i s none ne h = λ m le. elim (Bool-cases (m == suc i)) [
  | inl e ↦ rw (==→eq m (suc i) e) ne
  | inr e ↦ h m (ground arith)
]
extend i s (some j) ne (le, at, after) = (
  omega arith,
  at,
  λ m lo hi. elim (Bool-cases (m == suc i)) [
    | inl e ↦ rw (==→eq m (suc i) e) ne
    | inr e ↦ after m lo (ground arith)
  ],
)

last_slash-IsLast : (i : ℕ) (s : List ℕ) → IsLast s i (last_slash i s)
unfolding last_slash
last_slash-IsLast zero s = elim (Bool-cases (head_byte s == 47)) [
  | inl e ↦ rw e (
    omega arith,
    sym (head_byte-byte s) ∙ ==→eq (head_byte s) 47 e,
    λ m lo hi. absurd (omega arith),
  )
  | inr e ↦
      rw e (λ m le. let z : m ≡ 0 = omega arith in rw (z, sym (head_byte-byte s)) (ground arith))
]
last_slash-IsLast (suc i) s = elim (Bool-cases (byte s (suc i) == 47)) [
  | inl e ↦ rw e (omega arith, ==→eq (byte s (suc i)) 47 e, λ m lo hi. absurd (omega arith))
  | inr e ↦ rw e (extend i s (last_slash i s) (ground arith) (last_slash-IsLast i s))
]

byte-drop : (k m : ℕ) (s : List ℕ) → byte (drop k s) m ≡ byte s (k + m)
byte-drop zero m s = let z : m ≡ 0 + m = omega arith in ap (byte s) z
byte-drop (suc k) m [] = refl
byte-drop (suc k) m (c ∷ s) =
    let e : suc (k + m) ≡ suc k + m = omega arith in byte-drop k m s ∙ ap (byte (c ∷ s)) e

at_slash : (s : List ℕ) (i : ℕ) → byte s i ≡ 47 → s ≡ take i s ++ (47 ∷ drop (suc i) s)
at_slash [] i e = absurd (omega arith)
at_slash (c ∷ s) zero e = ap (λ (x : ℕ). x ∷ s) e
at_slash (c ∷ s) (suc i) e = ap (λ (t : List ℕ). c ∷ t) (at_slash s i e)

byte_end : (s : List ℕ) (m : ℕ) → length s ≤ m → byte s m ≡ 0
byte_end [] m le = refl
byte_end (c ∷ s) zero le = absurd (omega arith)
byte_end (c ∷ s) (suc m) le = byte_end s m (omega arith)

-- A path, its parent as the source gives it, and its name.
abbrev pub IsSplit : List ℕ → List ℕ × List ℕ → Type 0
IsSplit name (parent, dirname) =
    ((m : ℕ) → byte dirname m ≢ 47)
    × (((parent ≡ slash) × (dirname ≡ name))
        ⊎ (((parent ≡ slash) × (name ≡ 47 ∷ dirname))
            ⊎ ((parent ≢ []) × (name ≡ parent ++ (47 ∷ dirname)))))

-- For a path whose bytes are none of them 0, the name has no slash, and the parent is the root when
-- the path has no slash or only the one that it begins with; otherwise the path is the parent, a
-- slash and the name.
pub split_path-IsSplit :
    (name : List ℕ) → strlen name ≡ length name → IsSplit name (split_path name)
unfolding split_path
split_path-IsSplit name whole =
    cases (last_slash (strlen name) name) (last_slash-IsLast (strlen name) name)
  where
    beyond : (m : ℕ) → strlen name < m → byte name m ≢ 47
    beyond m lt e = let z = byte_end name m (omega arith) in omega arith

    anywhere : ((m : ℕ) → m ≤ strlen name → byte name m ≢ 47) → (m : ℕ) → byte name m ≢ 47
    anywhere h m = elim (dec_le m (strlen name)) [
      | yes le ↦ h m le
      | no gt ↦ beyond m (omega arith)
    ]

    behind :
        (i : ℕ)
        → ((m : ℕ) → i < m → m ≤ strlen name → byte name m ≢ 47)
        → (m : ℕ) → byte (drop (i + 1) name) m ≢ 47
    behind i after m = rw (byte-drop (i + 1) m name) (elim (dec_le (i + 1 + m) (strlen name)) [
      | yes le ↦ after (i + 1 + m) (omega arith) le
      | no gt ↦ beyond (i + 1 + m) (omega arith)
    ])

    take_some : (s : List ℕ) (i : ℕ) → byte s (suc i) ≡ 47 → take (suc i) s ≢ []
    take_some [] i e = absurd (omega arith)
    take_some (c ∷ s) i e = λ empty. cc

    cases :
        (o : Option ℕ)
        → IsLast name (strlen name) o
        → IsSplit name (elim o as (λ _. List ℕ × List ℕ) [
          | none ↦ (slash, name)
          | some i ↦ (if i == 0 then slash else take i name, drop (i + 1) name)
        ])
    cases none h = (anywhere h, inl (refl, refl))
    cases (some zero) (le, at, after) = (behind 0 after, inr (inl (refl, at_slash name 0 at)))
    cases (some (suc i)) (le, at, after) =
        let e : suc (suc i) ≡ suc i + 1 = omega arith in
        (
          behind (suc i) after,
          rw (ne→== (suc i) 0 (λ z. absurd (omega arith))) (
              inr (
                inr (
                  take_some name i at,
                  at_slash name (suc i) at
                      ∙ ap (λ (k : ℕ). take (suc i) name ++ (47 ∷ drop k name)) e,
                ))),
        )

-- A name without a slash stands in the root.
split_path-plain : (name : List ℕ) → ((m : ℕ) → byte name m ≢ 47) → split_path name ≡ (slash, name)
unfolding split_path
split_path-plain name plain =
    rw (split_path, no_slash (last_slash (strlen name) name) (last_slash-IsLast (strlen name) name))
      refl
  where
    no_slash : (o : Option ℕ) → IsLast name (strlen name) o → o ≡ none
    no_slash none h = refl
    no_slash (some j) (le, at, after) = absurd (plain j at)

file_open_root :
    (finddir : ℕ → List ℕ → ℕ) (s : Vfs) (flags : ℕ)
    → s.root_file ≢ 0
    → file_open finddir s slash flags ≡ some (s.root_file, vfs_open s (s.root_file) flags)
file_open_root finddir s flags mounted =
    file_open-mounted finddir s slash flags none (s.root_file) (at_root s) mounted
      (open_loop_done (strlen slash + 2) finddir s (s.root_file) (omega arith))
    ∙ rw (ne→== (s.root_file) 0 mounted) refl
  where
    at_root : (s : Vfs) → get_mountpoint s slash ≡ some (s.root_file, none)
    at_root s = unfold get_mountpoint in unfold strlen in refl

vfs_open_mounted :
    (s : Vfs) (node flags : ℕ) (x : ℕ)
    → node ≢ 0
    → (s.nodes node).refcount ≡ negsuc 0
    → (((vfs_open s node flags).nodes x) ≡ s.nodes x)
      × ((vfs_open s node flags).calls ≡ open_call node flags ∷ s.calls)
unfolding vfs_open set_node
vfs_open_mounted s node flags x nonzero mounted = rw (ne→== node 0 nonzero) (
  elim (Bool-cases (x == node)) [
    | inl e ↦
        rw (==→eq x node e, eq→== node node refl)
          (ap (λ (r : ℤ). record (s.nodes node) { refcount = r })
            (ap count_up mounted ∙ sym mounted))
    | inr e ↦ rw e refl
  ],
  refl,
)

or_true : (a b : Bool) → (a || b || true) ≡ true
or_true false false = refl
or_true false true = refl
or_true true b = refl

vfs_close_mounted : (s : Vfs) (node : ℕ) → (s.nodes node).refcount ≡ negsuc 0 → vfs_close s node ≡ s
unfolding vfs_close
vfs_close_mounted s node mounted = rw (mounted, or_true (node == 0) (node == s.vfs_root)) refl

create_lem :
    (finddir : ℕ → List ℕ → ℕ) (s : Vfs) (name : List ℕ) (permission : ℕ)
    (parent_path dirname : List ℕ) (parent : ℕ) (s0 : Vfs)
    → split_path name ≡ (parent_path, dirname)
    → file_open finddir s parent_path 0 ≡ some (parent, s0)
    → parent ≢ 0
    → vfs_create_file finddir s name permission
      ≡ some (
        true,
        in_parent s0 parent ((s0.nodes parent).create) (create_call parent dirname permission),
      )
unfolding vfs_create_file
create_lem finddir s name permission parent_path dirname parent s0 parts found there =
    let first : (split_path name).0 ≡ parent_path = ap (λ (t : List ℕ × List ℕ). t.0) parts in
    let second : (split_path name).1 ≡ dirname = ap (λ (t : List ℕ × List ℕ). t.1) parts in
    rw (vfs_create_file, first, found, ne→== parent 0 there, second) refl

in_parent_lem :
    (s : Vfs) (parent : ℕ) (call : Call)
    → (s.nodes parent).refcount ≡ negsuc 0
    → in_parent s parent true call ≡ record s { calls = call ∷ s.calls }
unfolding in_parent
in_parent_lem s parent call mounted =
    vfs_close_mounted (record s { calls = call ∷ s.calls }) parent mounted

-- When a file system that can create files is mounted at the root, with the count -1 that mounting
-- gives it, and the name has no slash, vfs_create_file succeeds, opens the root of that file system
-- and lets it create the name there, and leaves every node as it was.
pub vfs_create_file-root :
    (finddir : ℕ → List ℕ → ℕ) (s : Vfs) (name : List ℕ) (permission : ℕ)
    → ((m : ℕ) → byte name m ≢ 47)
    → s.root_file ≢ 0
    → (s.nodes (s.root_file)).refcount ≡ negsuc 0
    → (s.nodes (s.root_file)).create ≡ true
    → (s1 : Vfs) × (vfs_create_file finddir s name permission ≡ some (true, s1))
      × (s1.calls ≡ create_call (s.root_file) name permission ∷ open_call (s.root_file) 0 ∷ s.calls)
      × ((x : ℕ) → s1.nodes x ≡ s.nodes x)
vfs_create_file-root finddir s name permission plain there mounted creates =
    let root = s.root_file in
    let s0 = vfs_open s root 0 in
    let call = create_call root name permission in
    let s1 = record s0 { calls = call ∷ s0.calls } in
    let node_root = vfs_open_mounted s root 0 root there mounted in
    (
      s1,
      create_lem finddir s name permission slash name root s0 (split_path-plain name plain)
            (file_open_root finddir s 0 there) there
          ∙ ap (λ (there : Bool). some (true, in_parent s0 root there call))
              (ap (λ (n : VfsNode). n.create) (node_root.0) ∙ creates)
          ∙ ap (λ (t : Vfs). some (true, t))
              (in_parent_lem s0 root call
                (ap (λ (n : VfsNode). n.refcount) (node_root.0) ∙ mounted)),
      ap (λ (cs : List Call). call ∷ cs) (node_root.1),
      λ x. (vfs_open_mounted s root 0 x there mounted).0,
    )
