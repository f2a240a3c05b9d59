-- ===== src/Ext2/Files/Patching.antt =====
-- The bytes of a block of src/ext2_fs.c some of which are replaced.
use nibras_os.Prelude.{
  ℕ, zero, suc, ◌+◌, ◌-◌, ◌*◌, ◌/◌, ◌%◌, ◌^◌, ◌≤◌, ◌<◌, ◌≡◌, refl, ◌&&◌, true, false, none, some,
  List, [], ◌∷◌, arith, if◌then◌else◌, ltb, leb, length, get_or, ap, ◌∙◌,
}
use nibras_os.Ext2.Files.{byte_at, patched_byte, patched_word, patch_from, patch}

patched_byte-lt : (bytes : ℕ → ℕ) (off n old k : ℕ) → patched_byte bytes off n old k < 256
unfolding patched_byte
patched_byte-lt bytes off n old k = ground arith

digit0 : (a b c d : ℕ) → a < 256 → (a + 256 * b + 65536 * c + 16777216 * d) / 1 % 256 ≡ a
digit0 a b c d p = omega arith

digit1 :
    (a b c d : ℕ) → a < 256 → b < 256 → (a + 256 * b + 65536 * c + 16777216 * d) / 256 % 256 ≡ b
digit1 a b c d p q = omega arith

digit2 :
    (a b c d : ℕ)
    → a < 256
    → b < 256
    → c < 256
    → (a + 256 * b + 65536 * c + 16777216 * d) / 65536 % 256 ≡ c
digit2 a b c d p q r = omega arith

digit3 :
    (a b c d : ℕ)
    → a < 256
    → b < 256
    → c < 256
    → d < 256
    → (a + 256 * b + 65536 * c + 16777216 * d) / 16777216 % 256 ≡ d
digit3 a b c d p q r s = omega arith

-- Each byte of a patched word.
patched_word-byte :
    (bytes : ℕ → ℕ) (off n w i r : ℕ)
    → r < 4
    → patched_word bytes off n w i / 256 ^ r % 256
      ≡ patched_byte bytes off n (w / 256 ^ r) (4 * i + r)
unfolding patched_word
patched_word-byte bytes off n w i zero lt =
    digit0 _ _ _ _ (patched_byte-lt bytes off n w (4 * i))
    ∙ (let e : w / 1 ≡ w = omega arith in let f : 4 * i + 0 ≡ 4 * i = omega arith in rw (e, f) refl)
patched_word-byte bytes off n w i (suc zero) lt =
    digit1 _ _ _ _ (patched_byte-lt bytes off n w (4 * i))
      (patched_byte-lt bytes off n (w / 256) (4 * i + 1))
patched_word-byte bytes off n w i (suc (suc zero)) lt =
    digit2 _ _ _ _ (patched_byte-lt bytes off n w (4 * i))
      (patched_byte-lt bytes off n (w / 256) (4 * i + 1))
      (patched_byte-lt bytes off n (w / 65536) (4 * i + 2))
patched_word-byte bytes off n w i (suc (suc (suc zero))) lt =
    digit3 _ _ _ _ (patched_byte-lt bytes off n w (4 * i))
      (patched_byte-lt bytes off n (w / 256) (4 * i + 1))
      (patched_byte-lt bytes off n (w / 65536) (4 * i + 2))
      (patched_byte-lt bytes off n (w / 16777216) (4 * i + 3))
patched_word-byte bytes off n w i (suc (suc (suc (suc r)))) lt = absurd (omega arith)

get_or-patch_from :
    (bytes : ℕ → ℕ) (off n i j : ℕ) (ws : List ℕ)
    → j < length ws
    → get_or (patch_from i bytes off n ws) j 0 ≡ patched_word bytes off n (get_or ws j 0) (i + j)
unfolding patch_from
get_or-patch_from bytes off n i j [] lt = elim lt [ ]
get_or-patch_from bytes off n i zero (w ∷ ws) lt = let e : i + 0 ≡ i = omega arith in rw e refl
get_or-patch_from bytes off n i (suc j) (w ∷ ws) lt =
    let e : i + 1 + j ≡ i + suc j = omega arith in
    get_or-patch_from bytes off n (i + 1) j ws (omega arith)
    ∙ ap (patched_word bytes off n (get_or ws j 0)) e

-- A patched block has the new bytes in their places, and its own elsewhere.
pub patch-bytes :
    (bytes : ℕ → ℕ) (off n : ℕ) (ws : List ℕ)
    → off + n ≤ 4 * length ws
    → (ws' : List ℕ) × (patch bytes off n ws ≡ some ws')
      × ((k : ℕ)
          → k < 4 * length ws
          → byte_at ws' k
            ≡ (if leb off k && ltb k (off + n) then bytes (k - off) % 256 else byte_at ws k))
unfolding patch byte_at patched_byte
patch-bytes bytes off n ws fits =
    let test : leb (off + n) (4 * length ws) ≡ true = ground arith in
    (
      patch_from 0 bytes off n ws,
      rw test refl,
      λ k hk.
          let place : 4 * (0 + k / 4) + k % 4 ≡ k = omega arith in
          ap (λ (w : ℕ). w / 256 ^ (k % 4) % 256)
            (get_or-patch_from bytes off n 0 (k / 4) ws (omega arith))
          ∙ patched_word-byte bytes off n (get_or ws (k / 4) 0) (0 + k / 4) (k % 4) (omega arith)
          ∙ ap (patched_byte bytes off n (get_or ws (k / 4) 0 / 256 ^ (k % 4))) place,
    )

length-patch_from :
    (bytes : ℕ → ℕ) (off n i : ℕ) (ws : List ℕ) → length (patch_from i bytes off n ws) ≡ length ws
unfolding patch_from
length-patch_from bytes off n i [] = refl
length-patch_from bytes off n i (w ∷ ws) = ap suc (length-patch_from bytes off n (i + 1) ws)

pub length-patch :
    (bytes : ℕ → ℕ) (off n : ℕ) (ws ws' : List ℕ)
    → patch bytes off n ws ≡ some ws'
    → length ws' ≡ length ws
unfolding patch
length-patch bytes off n ws ws' e = ground (arith, length-patch_from bytes off n 0 ws)

pub patch-outside :
    (bytes : ℕ → ℕ) (off n : ℕ) (ws : List ℕ)
    → 4 * length ws < off + n
    → patch bytes off n ws ≡ none
unfolding patch
patch-outside bytes off n ws far =
    let test : leb (off + n) (4 * length ws) ≡ false = ground arith in rw test refl
