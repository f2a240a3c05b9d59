-- ===== src/Vfs/Tests.antt =====
-- The theorems on src/vfs.c at a small tree: a root with one directory.
use nibras_os.Prelude.{
  ℕ, zero, suc, ◌-◌, ◌<◌, ◌≡◌, ◌≢◌, refl, true, some, List, [], ◌∷◌, arith, if◌then◌else◌, ◌==◌,
  pos, negsuc,
}
use nibras_os.Strings.{text, strlen}
use nibras_os.Strings.Tokens.{split_on}
use nibras_os.Vfs.{
  Vfs, VfsNode, open_call, close_call, create_call, vfs_mount, file_open, opened, split_path,
  vfs_create_file,
}
use nibras_os.Vfs.Mounts.{vfs_mount-root_file, file_open-walk, walk}
use nibras_os.Vfs.Counts.{opens, closes, closes-opens}
use nibras_os.Vfs.Paths.{byte, IsSplit, split_path-IsSplit, vfs_create_file-root}

abbrev directory : VfsNode
directory = record {
  flags = 2;
  refcount = pos 0;
  fs_type = 0;
  finddir = true;
  mkdir = true;
  create = true;
  unlink = true;
}

-- The root is the node 4, the node 8 is a directory in it.
abbrev small : Vfs
small = record {
  root_name = b'r' ∷ b'o' ∷ b'o' ∷ b't' ∷ [];
  root_file = 4;
  vfs_root = 4;
  nodes = λ x. if x == 4 then record directory { refcount = negsuc 0 } else directory;
  calls = [];
}

abbrev find : ℕ → List ℕ → ℕ
find node name = if node == 4 then 8 else 0

-- `/home/x`, and `x`.
abbrev path : List ℕ
path = 47 ∷ 104 ∷ 111 ∷ 109 ∷ 101 ∷ 47 ∷ 120 ∷ []

abbrev name : List ℕ
name = 120 ∷ []

name_plain : (m : ℕ) → byte name m ≢ 47
name_plain zero = omega arith
name_plain (suc m) = omega arith

path_long : 1 < strlen path
unfolding strlen
path_long = omega arith

path_ends : byte path (strlen path - 1) ≢ 47
unfolding strlen
path_ends = omega arith

vfs_mount-root_file_example : (s1 : Vfs) × (vfs_mount small path 12 ≡ some s1) × (s1.root_file ≡ 4)
vfs_mount-root_file_example = vfs_mount-root_file small path 12 (omega (arith, path_long))

file_open-walk_example :
    file_open find small path 0 ≡ some (opened small (walk find small (name ∷ []) 4) 0)
unfolding strlen split_on text
file_open-walk_example =
    file_open-walk find small path 0 (104 ∷ 111 ∷ 109 ∷ 101 ∷ []) (name ∷ []) (omega arith) refl
      path_ends (omega arith) refl

closes-opens_example :
    ((x : ℕ) → (closes 2 (opens 2 small 8 0) 8).nodes x ≡ small.nodes x)
    × ((closes 2 (opens 2 small 8 0) 8).calls ≡ close_call 8 ∷ open_call 8 0 ∷ open_call 8 0 ∷ [])
closes-opens_example = closes-opens 1 small 8 0 (omega arith) (omega arith) (omega arith) refl

split_path-IsSplit_example : IsSplit path (split_path path)
unfolding strlen
split_path-IsSplit_example = split_path-IsSplit path refl

vfs_create_file-root_example :
    (s1 : Vfs) × (vfs_create_file find small name 7 ≡ some (true, s1))
    × (s1.calls ≡ create_call 4 name 7 ∷ open_call 4 0 ∷ [])
    × ((x : ℕ) → s1.nodes x ≡ small.nodes x)
vfs_create_file-root_example =
    vfs_create_file-root find small name 7 name_plain (omega arith) refl refl
