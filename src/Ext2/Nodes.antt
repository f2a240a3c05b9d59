-- ===== src/Ext2/Nodes.antt =====
-- The nodes of the virtual file system that src/ext2_fs.c makes of inodes and entries, the search of a name, the
-- allocation of inodes, and the insertion of entries.
use nibras_os.Prelude.{
  ℕ, zero, suc, ◌+◌, ◌-◌, ◌*◌, ◌/◌, ◌%◌, ◌^◌, Bool, ◌&&◌, not, Option, none, some, List, [], ◌∷◌,
  if◌then◌else◌, ◌==◌, ltb, leb, get_or, set, length, bit_or, bit_and,
}
use nibras_os.Strings.{strlen}
use nibras_os.Ext2.Inodes.{
  Group, Volume, ext2_disk_inode, ext2_disk_write_inode, read_block, write_block, clear_bit,
  mark_bit, group_words, mode_to_filetype, size_word, blocks_word,
}
use nibras_os.Ext2.Files.{patch, ext2_disk_inode_write_block}
use nibras_os.Ext2.Directories.{
  Direntry, Place, entry_at, entry_name, next_place, start_place, is_dir, find_direntry,
}

-- What the fields `create` and `mkdir` hold: what `kmalloc` left there, NULL, or the functions of ext2.
pub data Maker : Type 0 where
  unset : Maker
  null : Maker
  ext2_maker : Maker

pub record FsNode : Type 0 where
  pub inode : ℕ
  pub name : List ℕ
  pub uid : ℕ
  pub gid : ℕ
  pub length : ℕ
  pub mask : ℕ
  pub flags : ℕ
  pub maker : Maker
  pub atime : ℕ
  pub mtime : ℕ
  pub ctime : ℕ

abbrev pub mode_of : List ℕ → ℕ
mode_of inode = get_or inode 0 0 % 65536

-- `(mode & type) == type`.
abbrev pub has_type : ℕ → ℕ → Bool
has_type mode type = bit_and mode type == type

abbrev pub flag : ℕ → ℕ → ℕ → ℕ
flag mode type value = if has_type mode type then value else 0

abbrev pub ifreg : ℕ
ifreg = 32768

abbrev pub ifdir : ℕ
ifdir = 16384

abbrev pub ifblk : ℕ
ifblk = 24576

abbrev pub ifchr : ℕ
ifchr = 8192

abbrev pub ififo : ℕ
ififo = 4096

abbrev pub iflnk : ℕ
iflnk = 40960

-- Each test adds its flag; the flags are FS_FILE, FS_DIRECTORY, FS_BLOCKDEVICE, FS_CHARDEVICE, FS_PIPE and
-- FS_SYMLINK.
unfoldable pub flags_of : ℕ → ℕ
flags_of mode =
    flag mode ifreg 1
    + flag mode ifdir 2
    + flag mode ifblk 8
    + flag mode ifchr 4
    + flag mode ififo 16
    + flag mode iflnk 32

unfoldable pub maker_of : ℕ → Maker
maker_of mode =
    if has_type mode ifdir then ext2_maker else if has_type mode ifreg then null else unset

unfoldable pub node_of : List ℕ → ℕ → List ℕ → FsNode
unfolding flags_of maker_of
node_of inode number name = record {
  inode = number;
  name = name;
  uid = get_or inode 0 0 / 65536;
  gid = get_or inode 6 0 % 65536;
  length = get_or inode size_word 0;
  mask = mode_of inode % 4096;
  flags = flags_of (mode_of inode);
  maker = maker_of (mode_of inode);
  atime = get_or inode 2 0;
  mtime = get_or inode 4 0;
  ctime = get_or inode 3 0;
}

unfoldable pub ext2_disk_node_from_file : List ℕ → Direntry → Option FsNode
ext2_disk_node_from_file inode d = elim (entry_name d) [
  | none ↦ none
  | some name ↦ some (node_of inode (d.inode) name)
]

-- The node of "/" is the inode 2; `none` is the result 0, for a root that is a file or no directory.
unfoldable pub ext2_disk_node_root : List ℕ → Option FsNode
ext2_disk_node_root inode =
    if not (has_type (mode_of inode) ifreg) && has_type (mode_of inode) ifdir
    then some (node_of inode 2 (47 ∷ []))
    else none

-- `some none` is NULL: no entry has the name.
unfoldable pub finddir_ext2_disk : ℕ → Volume → ℕ → List ℕ → Option (Option FsNode)
finddir_ext2_disk fuel v number name = elim (ext2_disk_inode v number) [
  | none ↦ none
  | some inode ↦
      if is_dir inode
      then elim (find_direntry fuel v inode (start_place v inode) name) [
        | none ↦ none
        | some none ↦ some none
        | some (some d) ↦ elim (ext2_disk_inode v (d.inode)) [
          | none ↦ none
          | some found ↦ elim (ext2_disk_node_from_file found d) [
            | none ↦ none
            | some node ↦ some (some node)
          ]
        ]
      ]
      else none
]

-- `while (d_ent->rec_len % 4 > 0) d_ent->rec_len++`, from the length of the name and the nine bytes of
-- `sizeof(ext2_dir_t)`.
unfoldable pub short_len : ℕ → ℕ
short_len name_len = let n = name_len + 9 in if n % 4 == 0 then n else n + (4 - n % 4)

-- The walk to the end of the directory: the last entry becomes as short as its name allows.
unfoldable pub last_place : ℕ → Volume → List ℕ → Place → Option Place
last_place zero v inode p = none
last_place (suc n) v inode p =
    let size = get_or inode size_word 0 in
    if ltb (p.total_offset) size
    then elim (entry_at (p.words) (p.dir_offset)) [
      | none ↦ none
      | some d ↦
          let short = short_len (d.name_len) in
          let w = short + 65536 * d.name_len + 16777216 * d.file_type in
          let rest = last_place n v inode (next_place v inode 4294967296 p (d.rec_len)) in
          if (d.rec_len + p.total_offset) % 4294967296 == size
          then some (record p {
            words = set (p.words) (p.dir_offset + 1) w;
            dir_offset = p.dir_offset + short;
            total_offset = (p.total_offset + short) % 4294967296;
          })
          else rest
    ]
    else some p

-- The bytes of the new entry; behind the name stands what `kmalloc` left there.
unfoldable pub entry_byte : (ℕ → ℕ) → ℕ → ℕ → List ℕ → ℕ → ℕ → ℕ
entry_byte left number rec_len name type k =
    if ltb k 4
    then number / 256 ^ k % 256
    else if ltb k 6
    then rec_len / 256 ^ (k - 4) % 256
    else if k == 6
    then strlen name % 256
    else if k == 7
    then type
    else if ltb (k - 8) (strlen name)
    then get_or name (k - 8) 0
    else left k

-- The entry and four zeros behind it are put into the block, the entry as long as the rest of the
-- directory. The number is that of the zeros that stand behind the buffer of the block, which are no part
-- of the volume; `none` is an entry that is itself not inside the block, or too short for its name.
unfoldable pub put_entry : (ℕ → ℕ) → List ℕ → ℕ → ℕ → ℕ → List ℕ → ℕ → Option (List ℕ × ℕ)
put_entry left words o size number name type =
    let rec_len = size % 65536 in
    let room = 4 * length words - (o + rec_len) in
    let inside = if ltb room 4 then room else 4 in
    if leb 8 size && leb (8 + strlen name) size
    then elim (patch (entry_byte left number rec_len name type) o size words) [
      | none ↦ none
      | some words1 ↦ elim (patch (λ k. 0) (o + rec_len) inside words1) [
        | none ↦ none
        | some words2 ↦ some (words2, 4 - inside)
      ]
    ]
    else none

-- The volume, and the number of bytes that are written behind the buffer.
unfoldable pub insertdir_ext2_disk :
    ℕ → (ℕ → ℕ) → Volume → List ℕ → ℕ → ℕ → List ℕ → ℕ → Option (Volume × ℕ)
insertdir_ext2_disk fuel left v p_node inode_no number name type =
    if is_dir p_node
    then elim (last_place fuel v p_node (start_place v p_node)) [
      | none ↦ none
      | some p ↦
          let size = (get_or p_node size_word 0 + 4294967296 - p.total_offset) % 4294967296 in
          elim (put_entry left (p.words) (p.dir_offset) size number name type) [
            | none ↦ none
            | some (words, behind) ↦
                elim (ext2_disk_inode_write_block fuel v p_node inode_no (p.block_nr) words) [
                  | none ↦ none
                  | some (v1, p_node1, _) ↦ some (ext2_disk_write_inode v1 p_node1 inode_no, behind)
                ]
          ]
    ]
    else some (v, 0)

-- The first group with free inodes, and its number.
unfoldable pub inode_group : ℕ → List Group → Option (ℕ × Group)
inode_group i [] = none
inode_group i (g ∷ groups) =
    if ltb 0 (g.free_inodes_count) then some (i, g) else inode_group (i + 1) groups

-- The bit `node_offset` of the group `i` is marked, and the group counts one inode less.
unfoldable pub claim_inode : Volume → ℕ → Group → ℕ → Volume
claim_inode v i g node_offset =
    let v1 =
      write_block v (g.inode_bitmap) (mark_bit (read_block v (g.inode_bitmap)) node_offset) in
    let groups1 = set (v1.groups) i (record g { free_inodes_count = g.free_inodes_count - 1 }) in
    write_block (record v1 { groups = groups1 }) 2 (group_words groups1)

-- The inode with the new mode and neither bytes nor blocks.
unfoldable pub fresh_inode : List ℕ → ℕ → List ℕ
fresh_inode inode mode =
    let w = get_or inode 0 0 in
    set (set (set inode size_word 0) blocks_word 0) 0 (w / 65536 * 65536 + mode % 65536)

-- The volume, the inode and its number; `some none` is NULL.
unfoldable pub ext2_disk_alloc_inode :
    ℕ → (ℕ → ℕ) → Volume → List ℕ → ℕ → List ℕ → ℕ → Option (Option (Volume × List ℕ × ℕ))
ext2_disk_alloc_inode fuel left v parent parent_no name mode =
    if is_dir parent
    then elim (inode_group 0 (v.groups)) [
      | none ↦ some none
      | some (i, g) ↦ elim (clear_bit (32 * v.ptrs_per_block) (read_block v (g.inode_bitmap)) 0) [
        | none ↦ none
        | some node_offset ↦
            let node_no = node_offset + v.inodes_per_group * i + 1 in
            let v1 = claim_inode v i g node_offset in
            elim (ext2_disk_inode v1 node_no) [
              | none ↦ none
              | some old ↦
                  let inode = fresh_inode old mode in
                  let v2 = ext2_disk_write_inode v1 inode node_no in
                  elim (insertdir_ext2_disk fuel left v2 parent parent_no node_no name
                    (mode_to_filetype mode)) [
                      | none ↦ none
                      | some (v3, _) ↦ some (some (v3, inode, node_no))
                    ]
            ]
      ]
    ]
    else some none

-- Nothing is created when the name is there, or when no inode is left.
unfoldable pub ext2_create : ℕ → (ℕ → ℕ) → Volume → ℕ → List ℕ → ℕ → Option Volume
ext2_create fuel left v parent name permission = elim (ext2_disk_inode v parent) [
  | none ↦ none
  | some parent_inode ↦ elim (finddir_ext2_disk fuel v parent name) [
    | none ↦ none
    | some (some node) ↦ some v
    | some none ↦
        elim (ext2_disk_alloc_inode fuel left v parent_inode parent name
          (bit_or permission ifreg)) [
            | none ↦ none
            | some none ↦ some v
            | some (some (v1, inode, number)) ↦ some v1
          ]
  ]
]

unfoldable pub ext2_mkdir : ℕ → (ℕ → ℕ) → Volume → ℕ → List ℕ → ℕ → Option Volume
ext2_mkdir fuel left v parent name permission = elim (ext2_disk_inode v parent) [
  | none ↦ none
  | some parent_inode ↦ elim (finddir_ext2_disk fuel v parent name) [
    | none ↦ none
    | some (some node) ↦ some v
    | some none ↦
        elim (ext2_disk_alloc_inode fuel left v parent_inode parent name
          (bit_or permission ifdir)) [
            | none ↦ none
            | some none ↦ some v
            | some (some (v1, inode, number)) ↦
                elim (insertdir_ext2_disk fuel left v1 inode number 0 (46 ∷ []) 2) [
                  | none ↦ none
                  | some (v2, _) ↦
                      elim (insertdir_ext2_disk fuel left v2 inode number 0 (46 ∷ 46 ∷ []) 2) [
                        | none ↦ none
                        | some (v3, _) ↦ some v3
                      ]
                ]
          ]
  ]
]
