-- ===== src/Vfs/Mounts.antt =====
-- Where `vfs_mount` of src/vfs.c mounts, and what `file_open` opens.
use nibras_os.Prelude.{
  ℕ, zero, suc, ◌+◌, ◌-◌, ◌≤◌, ◌<◌, ◌≡◌, refl, ◌≢◌, inl, inr, ◌&&◌, Bool, true, false, Option, none,
  some, List, [], ◌∷◌, arith, if◌then◌else◌, ◌==◌, ltb, Bool-cases, Option-cases, eq→==, ne→==, ap,
  sym, ◌∙◌, get_or, negsuc,
}
use nibras_os.Strings.{text, strlen}
use nibras_os.Strings.Compare.{same_str, strcmp_loop, head_byte, tail_bytes}
use nibras_os.Strings.Tokens.{
  mem_byte, strsep, strsep_scan, split_on, strsep_scan-end, strsep_scan-more,
}
use nibras_os.Vfs.{
  Vfs, slash, set_node, mount_root, vfs_mount_recur, vfs_mount, get_mountpoint_recur,
  get_mountpoint, vfs_finddir, open_loop, opened, open_from, file_open,
}

-- Every string equals the empty one for `strcmp`.
pub same_str_empty : (s : List ℕ) → same_str s [] ≡ true
unfolding same_str text
same_str_empty s = common (text s)
  where
    common : (t : List ℕ) → (strcmp_loop t [] == 0) ≡ true
    common [] = unfold strcmp_loop in refl
    common (c ∷ t) = unfold strcmp_loop in refl

vfs_mount_recur_root :
    (s : Vfs) (path : List ℕ) (fs_obj : ℕ)
    → vfs_mount_recur s (some path) fs_obj
      ≡ some (mount_root s fs_obj (same_str (s.root_name) slash))
unfolding vfs_mount_recur strsep
vfs_mount_recur_root s path fs_obj = rw (same_str_empty ((strsep_scan path slash).0)) refl

-- The node as `vfs_mount` leaves it.
abbrev pub marked : Vfs → ℕ → Vfs
marked s fs_obj = set_node s fs_obj (record (s.nodes fs_obj) { refcount = negsuc 0; fs_type = 0 })

mount_root_file :
    (s : Vfs) (fs_obj : ℕ) (shortcut : Bool)
    → (mount_root s fs_obj shortcut).root_file ≡ (if s.root_file == 0 then fs_obj else s.root_file)
unfolding mount_root
mount_root_file s fs_obj shortcut = elim (Bool-cases (s.root_file == 0)) [
  | inl e ↦ rw e refl
  | inr e ↦ rw e refl
]

-- Whatever path that is not empty a file system is to be mounted at, vfs_mount puts it at the root
-- of the tree when nothing is mounted there, and leaves what is mounted there otherwise.
pub vfs_mount-root_file :
    (s : Vfs) (path : List ℕ) (fs_obj : ℕ)
    → strlen path ≢ 0
    → (s1 : Vfs) × (vfs_mount s path fs_obj ≡ some s1)
      × (s1.root_file ≡ (if s.root_file == 0 then fs_obj else s.root_file))
unfolding vfs_mount
vfs_mount-root_file s path fs_obj some_bytes =
    elim (Bool-cases (head_byte path == 47 && strlen path == 1)) [
      | inl e ↦ (
        mount_root (marked s fs_obj) fs_obj true,
        rw e refl,
        kept (mount_root_file (marked s fs_obj) fs_obj true),
      )
      | inr e ↦ (
        mount_root (marked s fs_obj) fs_obj (same_str ((marked s fs_obj).root_name) slash),
        rw (e, ne→== (strlen path) 0 some_bytes)
            (vfs_mount_recur_root (marked s fs_obj) (tail_bytes path) fs_obj),
        kept (mount_root_file (marked s fs_obj) fs_obj _),
      )
    ]
  where
    kept :
        {x : ℕ}
        → x ≡ (if (marked s fs_obj).root_file == 0 then fs_obj else (marked s fs_obj).root_file)
        → x ≡ (if s.root_file == 0 then fs_obj else s.root_file)
    kept e = unfold set_node in e

no_zero : mem_byte 0 slash ≡ false
unfolding mem_byte
no_zero = refl

-- The nodes that the components of a path lead to, one after the other, or 0.
abbrev pub walk : (ℕ → List ℕ → ℕ) → Vfs → List (List ℕ) → ℕ → ℕ
walk finddir s [] node = node
walk finddir s (name ∷ names) node =
    let rest = walk finddir s names (vfs_finddir finddir s node name) in
    if vfs_finddir finddir s node name == 0 then 0 else rest

pub open_loop_done :
    (n : ℕ) (finddir : ℕ → List ℕ → ℕ) (s : Vfs) (node : ℕ)
    → 0 < n
    → open_loop n finddir s none node ≡ some node
unfolding open_loop strsep
open_loop_done zero finddir s node lt = absurd (omega arith)
open_loop_done (suc n) finddir s node lt = refl

chosen :
    (next w : ℕ) (o : Option ℕ)
    → o ≡ some w
    → (if next == 0 then some 0 else o) ≡ some (if next == 0 then 0 else w)
chosen next w o e = elim (Bool-cases (next == 0)) [ inl z ↦ rw z refl | inr p ↦ rw p e ]

open_loop_next :
    (n : ℕ) (finddir : ℕ → List ℕ → ℕ) (s : Vfs) (path : List ℕ) (node : ℕ)
    → open_loop (suc n) finddir s (some path) node ≡ (
        let next = vfs_finddir finddir s node ((strsep_scan path slash).0) in
        if next == 0 then some 0 else open_loop n finddir s ((strsep_scan path slash).1) next)
unfolding open_loop strsep
open_loop_next n finddir s path node = refl

open_loop-walk :
    (n : ℕ) (finddir : ℕ → List ℕ → ℕ) (s : Vfs) (path : List ℕ) (node : ℕ)
    → strlen path + 2 ≤ n
    → open_loop n finddir s (some path) node
      ≡ some (walk finddir s (split_on slash (text path)) node)
open_loop-walk zero finddir s path node le = absurd (omega arith)
open_loop-walk (suc n) finddir s path node le =
    let next = vfs_finddir finddir s node ((strsep_scan path slash).0) in
    open_loop_next n finddir s path node ∙ elim (Option-cases ((strsep_scan path slash).1)) [
      | inl h ↦
          chosen next next (open_loop n finddir s ((strsep_scan path slash).1) next) (
            ap (λ (p : Option (List ℕ)). open_loop n finddir s p next) h
            ∙ open_loop_done n finddir s next (omega arith))
          ∙ ap (λ (toks : List (List ℕ)). some (walk finddir s toks node))
              (sym (strsep_scan-end path slash no_zero h))
      | inr (r, h) ↦
          let (parts, lt) = strsep_scan-more path slash r no_zero h in
          chosen next (walk finddir s (split_on slash (text r)) next)
            (open_loop n finddir s ((strsep_scan path slash).1) next)
            (ap (λ (p : Option (List ℕ)). open_loop n finddir s p next) h
              ∙ open_loop-walk n finddir s r next (omega arith))
          ∙ ap (λ (toks : List (List ℕ)). some (walk finddir s toks node)) (sym parts)
    ]

get_mountpoint_below :
    (s : Vfs) (path : List ℕ)
    → 1 < strlen path
    → head_byte path ≡ 47
    → get_or path (strlen path - 1) 0 ≢ 47
    → get_mountpoint s path ≡ some (s.root_file, (strsep_scan (tail_bytes path) slash).1)
unfolding get_mountpoint get_mountpoint_recur strsep
get_mountpoint_below s path long first last =
    let one : (strlen path == 1) ≡ false = ground arith in
    let more : ltb 1 (strlen path) ≡ true = ground arith in
    rw
      (
        more,
        ne→== (get_or path (strlen path - 1) 0) 47 last,
        eq→== (head_byte path) 47 first,
        one,
        same_str_empty ((strsep_scan (tail_bytes path) slash).0),
      )
      refl

open_from-opened :
    (n : ℕ) (finddir : ℕ → List ℕ → ℕ) (s : Vfs) (flags : ℕ) (below : Option (List ℕ)) (node : ℕ)
    → s.root_file ≢ 0
    → open_loop n finddir s below (s.root_file) ≡ some node
    → open_from n finddir s flags (s.root_file, below) ≡ some (opened s node flags)
unfolding open_from
open_from-opened n finddir s flags below node mounted walked = rw (ne→== (s.root_file) 0 mounted) (
    ap
      (λ (o : Option ℕ). elim o as (λ _. Option (ℕ × Vfs)) [
        | none ↦ none
        | some node ↦ some (opened s node flags)
      ])
      walked)

pub file_open-mounted :
    (finddir : ℕ → List ℕ → ℕ) (s : Vfs) (path : List ℕ) (flags : ℕ) (below : Option (List ℕ))
    (node : ℕ)
    → get_mountpoint s path ≡ some (s.root_file, below)
    → s.root_file ≢ 0
    → open_loop (strlen path + 2) finddir s below (s.root_file) ≡ some node
    → file_open finddir s path flags ≡ some (opened s node flags)
unfolding file_open
file_open-mounted finddir s path flags below node there mounted walked =
    ap
      (λ (o : Option (ℕ × Option (List ℕ))). elim o as (λ _. Option (ℕ × Vfs)) [
        | none ↦ none
        | some start ↦ open_from (strlen path + 2) finddir s flags start
      ])
      there
    ∙ open_from-opened (strlen path + 2) finddir s flags below node mounted walked

-- The components behind the first.
abbrev behind : List (List ℕ) → List (List ℕ)
behind [] = []
behind (t ∷ ts) = ts

strlen-tail_bytes : (path : List ℕ) → head_byte path ≡ 47 → strlen (tail_bytes path) ≤ strlen path
unfolding strlen
strlen-tail_bytes [] e = omega arith
strlen-tail_bytes (c ∷ s) e = let test : (c == 0) ≡ false = ground arith in rw test (omega arith)

-- When a file system is mounted at the root, and the path begins with a slash, has a byte more and
-- does not end with a slash, file_open opens the node that the components of the path behind the
-- first one lead to from the root of that file system, and returns NULL and changes nothing when
-- one of them is not found: the first component is never looked for.
pub file_open-walk :
    (finddir : ℕ → List ℕ → ℕ) (s : Vfs) (path : List ℕ) (flags : ℕ) (first : List ℕ)
    (others : List (List ℕ))
    → 1 < strlen path
    → head_byte path ≡ 47
    → get_or path (strlen path - 1) 0 ≢ 47
    → s.root_file ≢ 0
    → split_on slash (text (tail_bytes path)) ≡ first ∷ others
    → file_open finddir s path flags ≡ some (opened s (walk finddir s others (s.root_file)) flags)
file_open-walk finddir s path flags first others long begins ends mounted parts =
    let rest = tail_bytes path in
    let point = get_mountpoint_below s path long begins ends in
    file_open-mounted finddir s path flags ((strsep_scan rest slash).1)
      (walk finddir s others (s.root_file)) point mounted
      (elim (Option-cases ((strsep_scan rest slash).1)) [
        | inl h ↦
            ap (λ (p : Option (List ℕ)). open_loop (strlen path + 2) finddir s p (s.root_file)) h
            ∙ open_loop_done (strlen path + 2) finddir s (s.root_file) (omega arith)
            ∙ ap (λ (ts : List (List ℕ)). some (walk finddir s (behind ts) (s.root_file)))
                (sym (strsep_scan-end rest slash no_zero h) ∙ parts)
        | inr (r, h) ↦
            let (ps, lt) = strsep_scan-more rest slash r no_zero h in
            ap (λ (p : Option (List ℕ)). open_loop (strlen path + 2) finddir s p (s.root_file)) h
            ∙ open_loop-walk (strlen path + 2) finddir s r (s.root_file)
                (omega (arith, strlen-tail_bytes path begins))
            ∙ ap (λ (ts : List (List ℕ)). some (walk finddir s (behind ts) (s.root_file)))
                (sym ps ∙ parts)
      ])
