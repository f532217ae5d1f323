-- ===== src/Database/Words.antt =====
-- The words that `interpret_command` reads with `sscanf` of database/db.c.
use c_course_projects.Common.{
  ℕ, zero, suc, ◌≤◌, ◌≡◌, ◌≢◌, subst, inl, inr, false, Option, none, some, [], ◌∷◌, arith, length,
  List-cases,
}
use c_course_projects.Common.Bytes.{Bytes, isspace}
use c_course_projects.Database.Command.{skip_spaces, word, scan_word}

skip_spaces-cons : (s rest : Bytes) (c : ℕ) → skip_spaces s ≡ c ∷ rest → isspace c ≡ false
unfolding skip_spaces
skip_spaces-cons [] rest c h = cc
skip_spaces-cons (a ∷ s) rest c h = ground (arith, skip_spaces-cons s rest c)

length-word : (n : ℕ) (s : Bytes) → length (word n s).0 ≤ n
unfolding word
length-word zero s = omega arith
length-word (suc n) [] = omega arith
length-word (suc n) (c ∷ s) = ground (arith, length-word n s)

-- A word that `sscanf` reads.
pub record IsWord (w : Bytes) : Type 0 where
  pub ne_nil : w ≢ []
  pub short : length w ≤ 255

first_word : (n : ℕ) (c : ℕ) (s : Bytes) → isspace c ≡ false → (word (suc n) (c ∷ s)).0 ≢ []
unfolding word
first_word n c s h e = ground arith

abbrev Scanned : Option (Bytes × Bytes) → Type 0
Scanned none = Unit
Scanned (some (w, _)) = IsWord w

scan_word-Scanned : (s : Bytes) → Scanned (scan_word s)
unfolding scan_word
scan_word-Scanned s = elim (List-cases (skip_spaces s)) [
  | inl e ↦ rw (e, scan_word) tt
  | inr (c, rest, e) ↦
      rw (e, scan_word)
        (record {
          ne_nil = first_word 254 c rest (skip_spaces-cons s rest c e);
          short = length-word 255 (c ∷ rest);
        })
]

pub scan_word-IsWord : (s w rest : Bytes) → scan_word s ≡ some (w, rest) → IsWord w
scan_word-IsWord s w rest e = subst Scanned e (scan_word-Scanned s)
