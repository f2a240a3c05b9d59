-- ===== src/Ext2/Names.antt =====
-- The names of directory entries in src/ext2_fs.c, as `finddir_ext2_disk` compares them.
use nibras_os.Prelude.{
  ℕ, suc, ◌+◌, ◌*◌, ◌%◌, ◌/◌, ◌≤◌, ◌<◌, ◌≡◌, ◌≢◌, inl, inr, refl, true, false, some, List, [], ◌∷◌,
  arith, ◌==◌, leb, length, get_or, get_elem?, drop, Bool-cases, ==→eq, eq→==, ne→==, ap, sym, ◌∙◌,
}
use mathlib.Core.Path.{ap₂}
use nibras_os.Strings.{strlen, text}
use nibras_os.Strings.Compare.{strcmp_loop, same_str}
use nibras_os.Ext2.Files.{byte_at}
use nibras_os.Ext2.Directories.{Direntry, entry_at, bytes_from, entry_name, has_name}

-- The words of an entry stand at the word `o`: its number, the lengths with the type, and the rest.
pub record IsEntry (words : List ℕ) (o : ℕ) (d : Direntry) : Type 0 where
  pub number : get_elem? words o ≡ some (d.inode)
  pub header :
      get_elem? words (o + 1) ≡ some (d.rec_len + 65536 * d.name_len + 16777216 * d.file_type)
  pub short : d.rec_len < 65536
  pub name_byte : d.name_len < 256
  pub type_byte : d.file_type < 256
  pub behind : d.rest ≡ drop (o + 2) words

-- The name of an entry is the string `n`.
pub record IsNamed (d : Direntry) (n : List ℕ) : Type 0 where
  pub size : d.name_len ≡ length n
  pub inside : d.name_len ≤ 4 * length (d.rest)
  pub bytes : (k : ℕ) → k < length n → byte_at (d.rest) k ≡ get_or n k 0
  pub plain : text n ≡ n

abbrev entry_of : ℕ → ℕ → ℕ → ℕ → List ℕ → Direntry
entry_of number rec_len name_len file_type rest = record {
  inode = number;
  rec_len = rec_len;
  name_len = name_len;
  file_type = file_type;
  rest = rest;
}

entry_at-words :
    (words : List ℕ) (o number w : ℕ)
    → get_elem? words o ≡ some number
    → get_elem? words (o + 1) ≡ some w
    → entry_at words o
      ≡ some
          (entry_of number (w % 65536) (w / 65536 % 256) (w / 16777216 % 256) (drop (o + 2) words))
unfolding entry_at
entry_at-words words o number w e1 e2 = rw (entry_at, e1, e2) refl

pub entry_at-IsEntry :
    (words : List ℕ) (o : ℕ) (d : Direntry) → IsEntry words o d → entry_at words o ≡ some d
entry_at-IsEntry words o d e =
    let w = d.rec_len + 65536 * d.name_len + 16777216 * d.file_type in
    let short = e.short in
    let name_byte = e.name_byte in
    let type_byte = e.type_byte in
    let a : w % 65536 ≡ d.rec_len = omega arith in
    let b : w / 65536 % 256 ≡ d.name_len = omega arith in
    let c : w / 16777216 % 256 ≡ d.file_type = omega arith in
    entry_at-words words o (d.inode) w (e.number) (e.header)
    ∙ ap
        (λ x.
          some (entry_of (d.inode) x (w / 65536 % 256) (w / 16777216 % 256) (drop (o + 2) words)))
        a
    ∙ ap (λ x. some (entry_of (d.inode) (d.rec_len) x (w / 16777216 % 256) (drop (o + 2) words))) b
    ∙ ap (λ x. some (entry_of (d.inode) (d.rec_len) (d.name_len) x (drop (o + 2) words))) c
    ∙ ap (λ x. some (entry_of (d.inode) (d.rec_len) (d.name_len) (d.file_type) x)) (sym (e.behind))

bytes_from-eq :
    (n : List ℕ) (k : ℕ) (words : List ℕ)
    → ((i : ℕ) → i < length n → byte_at words (k + i) ≡ get_or n i 0)
    → bytes_from (length n) k words ≡ n
unfolding bytes_from
bytes_from-eq [] k words same = refl
bytes_from-eq (c ∷ n) k words same =
    let z : k + 0 ≡ k = omega arith in
    ap₂ ◌∷◌ (ap (byte_at words) (sym z) ∙ same 0 (omega arith)) (
      bytes_from-eq n (k + 1) words (λ i l.
        let next : k + 1 + i ≡ k + suc i = omega arith in
        ap (byte_at words) next ∙ same (suc i) (omega arith)))

strcmp_loop_self : (a : List ℕ) → strcmp_loop a a ≡ 0
unfolding strcmp_loop
strcmp_loop_self [] = refl
strcmp_loop_self (x ∷ a) = rw (eq→== x x refl) (strcmp_loop_self a)

-- Of two strings with one length, the comparison finds every difference.
strcmp_loop-eq : (a b : List ℕ) → length a ≡ length b → strcmp_loop a b ≡ 0 → a ≡ b
unfolding strcmp_loop
strcmp_loop-eq [] [] l h = refl
strcmp_loop-eq [] (y ∷ b) l h = absurd (omega arith)
strcmp_loop-eq (x ∷ a) [] l h = absurd (omega arith)
strcmp_loop-eq (x ∷ a) (y ∷ b) l h = elim (Bool-cases (x == y)) [
  | inl e ↦ ap₂ ◌∷◌ (==→eq x y e) (strcmp_loop-eq a b (omega arith) (rw e at h))
  | inr e ↦ let h' : ◌≡◌ {A = ℕ} 1 0 = rw e at h in absurd (omega arith)
]

length-text : (s : List ℕ) → length (text s) ≡ strlen s
unfolding text strlen
length-text [] = refl
length-text (c ∷ s) = elim (Bool-cases (c == 0)) [
  | inl e ↦ rw e refl
  | inr e ↦ rw e (omega (arith, length-text s))
]

entry_name-IsNamed : (d : Direntry) (n : List ℕ) → IsNamed d n → entry_name d ≡ some n
unfolding entry_name
entry_name-IsNamed d n named =
    let fits : leb (d.name_len) (4 * length (d.rest)) ≡ true =
      (let inside = named.inside in ground arith) in
    rw fits (
      ap some (
        ap (λ k. bytes_from k 0 (d.rest)) (named.size)
        ∙ bytes_from-eq n 0 (d.rest)
            (λ i l. let z : 0 + i ≡ i = omega arith in ap (byte_at (d.rest)) z ∙ named.bytes i l)))

pub has_name-eq :
    (d : Direntry) (n name : List ℕ) → IsNamed d n → n ≡ text name → has_name d name ≡ some true
unfolding has_name same_str
has_name-eq d n name named e =
    let len : strlen name ≡ d.name_len =
      sym (length-text name) ∙ ap length (sym e) ∙ sym (named.size) in
    let same : strcmp_loop (text n) (text name) ≡ 0 =
      ap (λ a. strcmp_loop a (text name)) (named.plain ∙ e) ∙ strcmp_loop_self (text name) in
    rw (eq→== (strlen name) (d.name_len) len, entry_name-IsNamed d n named, same) refl

pub has_name-ne :
    (d : Direntry) (n name : List ℕ) → IsNamed d n → n ≢ text name → has_name d name ≡ some false
unfolding has_name same_str
has_name-ne d n name named ne = elim (Bool-cases (strlen name == d.name_len)) [
  | inr other ↦ rw other refl
  | inl len ↦
      let e : length n ≡ length (text name) =
        sym (named.size) ∙ sym (==→eq (strlen name) (d.name_len) len) ∙ sym (length-text name) in
      let differs : (strcmp_loop (text n) (text name) == 0) ≡ false = ne→== _ 0 (λ z. ne (
        strcmp_loop-eq n (text name) e
          (ap (λ a. strcmp_loop a (text name)) (sym (named.plain)) ∙ z))) in
      rw (len, entry_name-IsNamed d n named, differs) refl
]
