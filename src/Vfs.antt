-- ===== src/Vfs.antt =====
-- src/vfs.c: the mount tree, opening of paths, reference counts, and the operations on the parent of a path. A
-- string is the list of its bytes before the terminator. A `vfs_node_t *` is an address, 0 for NULL; the nodes that
-- `finddir` of a file system returns are among `nodes`. A file system's `open` and `close` are not NULL.
pub mod Mounts
pub mod Counts
pub mod Paths
mod Tests
use nibras_os.Prelude.{
  ℕ, zero, suc, ◌+◌, ◌-◌, ◌*◌, ◌/◌, ◌%◌, ◌<◌, ◌≡◌, ◌&&◌, ◌||◌, Bool, true, false, not, Option, none,
  some, List, [], ◌∷◌, ◌++◌, if◌then◌else◌, ◌==◌, ltb, leb, get_or, take, drop, length, ℤ, pos,
  negsuc,
}
use nibras_os.Strings.{strlen}
use nibras_os.Strings.Compare.{same_str, head_byte, tail_bytes}
use nibras_os.Strings.Tokens.{strsep}

abbrev pub slash : List ℕ
slash = 47 ∷ []

-- `refcount` is an `int`; the other fields say whether the callbacks are there.
pub record VfsNode : Type 0 where
  pub flags : ℕ
  pub refcount : ℤ
  pub fs_type : ℕ
  pub finddir : Bool
  pub mkdir : Bool
  pub create : Bool
  pub unlink : Bool

-- The calls of callbacks, but for `finddir`.
pub data Call : Type 0 where
  open_call : ℕ → ℕ → Call
  close_call : ℕ → Call
  mkdir_call : ℕ → List ℕ → ℕ → Call
  create_call : ℕ → List ℕ → ℕ → Call
  unlink_call : ℕ → List ℕ → Call

-- `vfs_tree` is its root, a `struct vfs_entry` with a name and a file, which the tree holds a copy of: it is made
-- with `strcpy`, and whole as long as no byte of the pointer to the name is 0. No node gets a child, since
-- `list_insert_front` of src/list.c writes through NULL on the empty list that each node begins with. `calls` has
-- the latest call first.
pub record Vfs : Type 0 where
  pub root_name : List ℕ
  pub root_file : ℕ
  pub vfs_root : ℕ
  pub nodes : ℕ → VfsNode
  pub calls : List Call

unfoldable pub vfs_init : (ℕ → VfsNode) → Vfs
vfs_init nodes = record {
  root_name = b'r' ∷ b'o' ∷ b'o' ∷ b't' ∷ [];
  root_file = 0;
  vfs_root = 0;
  nodes = nodes;
  calls = [];
}

unfoldable pub set_node : Vfs → ℕ → VfsNode → Vfs
set_node s n node = record s { nodes = λ x. if x == n then node else s.nodes x }

-- An entry that has a file keeps it.
unfoldable pub mount_root : Vfs → ℕ → Bool → Vfs
mount_root s fs_obj shortcut =
    let mounted = record s {
      root_file = fs_obj;
      vfs_root = if shortcut then fs_obj else s.vfs_root;
    } in
    if s.root_file == 0 then mounted else s

-- `none` is the write through NULL of the insertion of a child.
unfoldable pub vfs_mount_recur : Vfs → Option (List ℕ) → ℕ → Option Vfs
unfolding strsep same_str mount_root
vfs_mount_recur s path fs_obj =
    let here = mount_root s fs_obj (same_str (s.root_name) slash) in
    elim ((strsep path slash).0) [
      | none ↦ some here
      | some curr_token ↦ if same_str curr_token [] then some here else none
    ]

-- `none` is also an empty path, whose second byte is behind its end.
unfoldable pub vfs_mount : Vfs → List ℕ → ℕ → Option Vfs
unfolding set_node mount_root vfs_mount_recur
vfs_mount s path fs_obj =
    let s1 = set_node s fs_obj (record (s.nodes fs_obj) { refcount = negsuc 0; fs_type = 0 }) in
    let below = vfs_mount_recur s1 (some (tail_bytes path)) fs_obj in
    if head_byte path == 47 && strlen path == 1
    then some (mount_root s1 fs_obj true)
    else if strlen path == 0
    then none
    else below

-- The file, and what `*path` becomes: a place in the path, given by the rest of the path from there on, or NULL.
unfoldable pub get_mountpoint_recur : Vfs → List ℕ → ℕ × Option (List ℕ)
unfolding strsep same_str
get_mountpoint_recur s path =
    let (curr_token, rest) = strsep (some path) slash in
    elim curr_token [
      | none ↦ (s.root_file, rest)
      | some token ↦ if same_str token [] then (s.root_file, rest) else (s.root_file, some path)
    ]

-- `none`: at a path that ends with a slash, `*(path)[strlen(*path) - 1]` reads behind the variable of the caller.
unfoldable pub get_mountpoint : Vfs → List ℕ → Option (ℕ × Option (List ℕ))
unfolding get_mountpoint_recur
get_mountpoint s path =
    let last = get_or path (strlen path - 1) 0 in
    if ltb 1 (strlen path) && last == 47
    then none
    else if not (head_byte path == 47)
    then some (0, some path)
    else if strlen path == 1
    then some (s.root_file, none)
    else some (get_mountpoint_recur s (tail_bytes path))

-- `finddir` is the callback of the file system of a node.
unfoldable pub vfs_finddir : (ℕ → List ℕ → ℕ) → Vfs → ℕ → List ℕ → ℕ
vfs_finddir finddir s node name =
    let found = finddir node name in
    if not (node == 0) && ((s.nodes node).flags / 2 % 2 == 1) && (s.nodes node).finddir
    then found
    else 0

-- `refcount++` on an `int` of 32 bits, which wraps; a negative count stays.
abbrev pub count_up : ℤ → ℤ
count_up (pos n) = if n == 0x7fff_ffff then negsuc 0x7fff_ffff else pos (n + 1)
count_up (negsuc n) = negsuc n

unfoldable pub vfs_open : Vfs → ℕ → ℕ → Vfs
unfolding set_node
vfs_open s node flags =
    let n = s.nodes node in
    let s1 = set_node s node (record n { refcount = count_up (n.refcount) }) in
    if node == 0 then s else record s1 { calls = open_call node flags ∷ s.calls }

abbrev pub count_down : ℤ → ℤ
count_down (pos zero) = negsuc 0
count_down (pos (suc n)) = pos n
count_down (negsuc n) = if n == 0x7fff_ffff then pos 0x7fff_ffff else negsuc (n + 1)

abbrev pub is_int : ℤ → ℤ → Bool
is_int (pos a) (pos b) = a == b
is_int (negsuc a) (negsuc b) = a == b
is_int (pos a) (negsuc b) = false
is_int (negsuc a) (pos b) = false

unfoldable pub vfs_close : Vfs → ℕ → Vfs
unfolding set_node
vfs_close s node =
    let n = s.nodes node in
    let left = count_down (n.refcount) in
    let s1 = set_node s node (record n { refcount = left }) in
    if node == 0 || node == s.vfs_root || is_int (n.refcount) (negsuc 0)
    then s
    else if is_int left (pos 0)
    then record s1 { calls = close_call node ∷ s.calls }
    else s1

-- The loop of `file_open`, with fuel for each component; a node, or 0 when a component is not found.
unfoldable pub open_loop : ℕ → (ℕ → List ℕ → ℕ) → Vfs → Option (List ℕ) → ℕ → Option ℕ
unfolding strsep vfs_finddir
open_loop zero finddir s path node = none
open_loop (suc n) finddir s path node =
    let (curr_token, rest) = strsep path slash in
    elim curr_token [
      | none ↦ some node
      | some token ↦
          let next = vfs_finddir finddir s node token in
          let opened = open_loop n finddir s rest next in if next == 0 then some 0 else opened
    ]

-- `nextnode`, opened, or NULL.
abbrev pub opened : Vfs → ℕ → ℕ → ℕ × Vfs
opened s node flags = if node == 0 then (0, s) else (node, vfs_open s node flags)

-- `file_open` behind the search for the mount point. `strstr` finds the place in the copy of the path where
-- `filename` is in the path.
unfoldable pub open_from : ℕ → (ℕ → List ℕ → ℕ) → Vfs → ℕ → ℕ × Option (List ℕ) → Option (ℕ × Vfs)
open_from n finddir s flags (startpoint, filename) =
    let found : Option (ℕ × Vfs) = elim (open_loop n finddir s filename startpoint) [
      | none ↦ none
      | some node ↦ some (opened s node flags)
    ] in
    if startpoint == 0 then some (0, s) else found

unfoldable pub file_open : (ℕ → List ℕ → ℕ) → Vfs → List ℕ → ℕ → Option (ℕ × Vfs)
file_open finddir s file_name flags = elim (get_mountpoint s file_name) [
  | none ↦ none
  | some start ↦ open_from (strlen file_name + 2) finddir s flags start
]

-- The search for the last slash, from the byte `i` down.
unfoldable pub last_slash : ℕ → List ℕ → Option ℕ
last_slash zero dirname = if head_byte dirname == 47 then some 0 else none
last_slash (suc i) dirname =
    let before = last_slash i dirname in
    if get_or dirname (suc i) 0 == 47 then some (suc i) else before

-- `parent_path` and `dirname`.
unfoldable pub split_path : List ℕ → List ℕ × List ℕ
split_path name = elim (last_slash (strlen name) name) [
  | none ↦ (slash, name)
  | some i ↦ (if i == 0 then slash else take i name, drop (i + 1) name)
]

-- What follows the opening of the parent: `none` when that is NULL.
unfoldable pub in_parent : Vfs → ℕ → Bool → Call → Vfs
in_parent s parent there call =
    vfs_close (if there then record s { calls = call ∷ s.calls } else s) parent

-- `none` is a read through NULL: the parent is not found.
unfoldable pub vfs_mkdir : (ℕ → List ℕ → ℕ) → Vfs → List ℕ → ℕ → Option Vfs
vfs_mkdir finddir s name permission =
    let (parent_path, dirname) = split_path name in
    elim (file_open finddir s parent_path 0) [
      | none ↦ none
      | some (parent, s1) ↦
          if parent == 0
          then none
          else some
              (in_parent s1 parent ((s1.nodes parent).mkdir) (mkdir_call parent dirname permission))
    ]

-- The result is 0, or -1 as `false`.
unfoldable pub vfs_create_file : (ℕ → List ℕ → ℕ) → Vfs → List ℕ → ℕ → Option (Bool × Vfs)
vfs_create_file finddir s name permission =
    let (parent_path, dirname) = split_path name in
    elim (file_open finddir s parent_path 0) [
      | none ↦ none
      | some (parent, s1) ↦
          if parent == 0
          then some (false, s1)
          else some (
            true,
            in_parent s1 parent ((s1.nodes parent).create) (create_call parent dirname permission),
          )
    ]

unfoldable pub vfs_unlink : (ℕ → List ℕ → ℕ) → Vfs → List ℕ → Option Vfs
vfs_unlink finddir s name =
    let (parent_path, dirname) = split_path name in
    elim (file_open finddir s parent_path 0) [
      | none ↦ none
      | some (parent, s1) ↦
          if parent == 0
          then none
          else some (in_parent s1 parent ((s1.nodes parent).unlink) (unlink_call parent dirname))
    ]
