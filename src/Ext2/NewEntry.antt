-- ===== src/Ext2/NewEntry.antt =====
-- The entry that `insertdir_ext2_disk` of src/ext2_fs.c puts at the end of a block.
use nibras_os.Prelude.{
  ℕ, ◌/◌, ◌^◌, lt→ltb, le→ltb, ne→==, ◌+◌, ◌-◌, ◌*◌, ◌%◌, ◌≤◌, ◌<◌, ◌≡◌, refl, true, false, ◌&&◌,
  some, List, arith, ltb, leb, length, get_or, if◌then◌else◌, ap, ◌∙◌,
}
use nibras_os.Strings.{strlen}
use nibras_os.Ext2.Files.{byte_at, patch}
use nibras_os.Ext2.Files.Patching.{length-patch, patch-bytes}
use nibras_os.Ext2.Nodes.{entry_byte, put_entry}

-- The bytes of a block whose last entry begins at the place `o` and has `size` bytes: the header and the
-- name, and what the block held before.
pub record EndsWith (bytes : ℕ → ℕ) (words : List ℕ) (o size number : ℕ) (name : List ℕ) (type : ℕ)
    : Type 0 where
  pub kept : (k : ℕ) → k < o → bytes k ≡ byte_at words k
  pub number_bytes : (i : ℕ) → i < 4 → bytes (o + i) ≡ number / 256 ^ i % 256
  pub rec_len_bytes : (i : ℕ) → i < 2 → bytes (o + (4 + i)) ≡ size / 256 ^ i % 256
  pub name_len_byte : bytes (o + 6) ≡ strlen name % 256
  pub type_byte : bytes (o + 7) ≡ type % 256
  pub name_bytes : (i : ℕ) → i < strlen name → bytes (o + (8 + i)) ≡ get_or name i 0 % 256

-- The bytes of a block with an entry at its end: `size` bytes of the entry from the place `o` on.
abbrev pub with_entry : (ℕ → ℕ) → List ℕ → ℕ → ℕ → ℕ → List ℕ → ℕ → ℕ → ℕ
with_entry left words o size number name type k =
    if leb o k && ltb k (o + size)
    then entry_byte left number size name type (k - o) % 256
    else byte_at words k

module _ (left : ℕ → ℕ) (words : List ℕ) (o size number : ℕ) (name : List ℕ) (type : ℕ)
    (room : 8 + strlen name ≤ size) where
  with_entry-inside :
      (i : ℕ)
      → i < size
      → with_entry left words o size number name type (o + i)
        ≡ entry_byte left number size name type i % 256
  with_entry-inside i l =
      let test : (leb o (o + i) && ltb (o + i) (o + size)) ≡ true = ground arith in
      let back : o + i - o ≡ i = omega arith in rw (test, back) refl

  with_entry-kept :
      (k : ℕ) → k < o → with_entry left words o size number name type k ≡ byte_at words k
  with_entry-kept k l =
      let test : (leb o k && ltb k (o + size)) ≡ false = ground arith in rw test refl

  entry_byte-number :
      (i : ℕ) → i < 4 → entry_byte left number size name type i ≡ number / 256 ^ i % 256
  unfolding entry_byte
  entry_byte-number i l = rw (lt→ltb i 4 l) refl

  entry_byte-rec_len :
      (i : ℕ) → i < 2 → entry_byte left number size name type (4 + i) ≡ size / 256 ^ i % 256
  unfolding entry_byte
  entry_byte-rec_len i l =
      let back : 4 + i - 4 ≡ i = omega arith in
      rw (le→ltb (4 + i) 4 (omega arith), lt→ltb (4 + i) 6 (omega arith), back) refl

  entry_byte-name_len : entry_byte left number size name type 6 ≡ strlen name % 256
  unfolding entry_byte
  entry_byte-name_len = refl

  entry_byte-type : entry_byte left number size name type 7 ≡ type
  unfolding entry_byte
  entry_byte-type = refl

  entry_byte-name :
      (i : ℕ) → i < strlen name → entry_byte left number size name type (8 + i) ≡ get_or name i 0
  unfolding entry_byte
  entry_byte-name i l =
      let back : 8 + i - 8 ≡ i = omega arith in
      rw
        (
          le→ltb (8 + i) 4 (omega arith),
          le→ltb (8 + i) 6 (omega arith),
          ne→== (8 + i) 6 (omega arith),
          ne→== (8 + i) 7 (omega arith),
          back,
          lt→ltb i (strlen name) l,
        )
        refl

  pub EndsWith-with_entry :
      (bytes : ℕ → ℕ)
      → ((k : ℕ) → k < o + size → bytes k ≡ with_entry left words o size number name type k)
      → EndsWith bytes words o size number name type
  EndsWith-with_entry bytes same =
      let at : (i : ℕ) → i < size → bytes (o + i) ≡ entry_byte left number size name type i % 256 =
        λ i l. same (o + i) (omega arith) ∙ with_entry-inside i l in
      record {
        kept = λ k l. same k (omega arith) ∙ with_entry-kept k l;
        number_bytes =
            λ i l. at i (omega arith) ∙ ap (λ x. x % 256) (entry_byte-number i l) ∙ omega arith;
        rec_len_bytes = λ i l.
            at (4 + i) (omega arith) ∙ ap (λ x. x % 256) (entry_byte-rec_len i l) ∙ omega arith;
        name_len_byte = at 6 (omega arith) ∙ ap (λ x. x % 256) entry_byte-name_len ∙ omega arith;
        type_byte = at 7 (omega arith) ∙ ap (λ x. x % 256) entry_byte-type;
        name_bytes = λ i l. at (8 + i) (omega arith) ∙ ap (λ x. x % 256) (entry_byte-name i l);
      }

put_entry-eq :
    (left : ℕ → ℕ) (words words1 words2 : List ℕ) (o size number : ℕ) (name : List ℕ) (type : ℕ)
    → (leb 8 size && leb (8 + strlen name) size) ≡ true
    → size % 65536 ≡ size
    → 4 * length words - (o + size) ≡ 0
    → patch (entry_byte left number size name type) o size words ≡ some words1
    → patch (λ k. 0) (o + size) 0 words1 ≡ some words2
    → put_entry left words o size number name type ≡ some (words2, 4)
unfolding put_entry
put_entry-eq left words words1 words2 o size number name type test m room e e2 =
    let e1 : patch (entry_byte left number (size % 65536) name type) o size words ≡ some words1 =
      ap (λ r. patch (entry_byte left number r name type) o size words) m ∙ e in
    rw (test, e1, m, room, e2) (rw (m, room) refl)

-- An entry that reaches to the end of its block is put there, and all four zeros stand behind the block.
pub put_entry-end :
    (left : ℕ → ℕ) (words : List ℕ) (o size number : ℕ) (name : List ℕ) (type : ℕ)
    → 8 + strlen name ≤ size
    → size < 65536
    → o + size ≡ 4 * length words
    → (words1 : List ℕ) × (put_entry left words o size number name type ≡ some (words1, 4))
      × (length words1 ≡ length words)
      × ((k : ℕ)
          → k < 4 * length words
          → byte_at words1 k ≡ with_entry left words o size number name type k)
put_entry-end left words o size number name type room small full =
    let test : (leb 8 size && leb (8 + strlen name) size) ≡ true = ground arith in
    let m : size % 65536 ≡ size = omega arith in
    let none_left : 4 * length words - (o + size) ≡ 0 = omega arith in
    let (words1, e, at) =
      patch-bytes (entry_byte left number size name type) o size words (omega arith) in
    let len = length-patch (entry_byte left number size name type) o size words words1 e in
    let (words2, e2, at2) = patch-bytes (λ k. 0) (o + size) 0 words1 (omega arith) in
    let len2 = length-patch (λ k. 0) (o + size) 0 words1 words2 e2 in
    (
      words2,
      put_entry-eq left words words1 words2 o size number name type test m none_left e e2,
      len2 ∙ len,
      λ k hk.
          let before : ltb k (o + size + 0) ≡ true = ground arith in
          let not_in : leb (o + size) k ≡ false = ground arith in
          at2 k (omega arith) ∙ rw (not_in) (at k hk),
    )
