-- ===== src/Maze/Distinct.antt =====
-- maze/generator.c: a shuffled list has each direction at one index only.
use c_course_projects.Common.{
  ℕ, ◌<◌, ◌≡◌, ◌≢◌, refl, ap, sym, ◌∙◌, subst, arith, List, [], ◌∷◌, length,
}
use c_course_projects.Maze.{Direction, north, south, west, east}
use c_course_projects.Maze.Generator.{at}
use c_course_projects.Maze.Shuffle.{IsShuffle, Position, Each, Each-at}

abbrev pub four : List Direction
four = north ∷ south ∷ west ∷ east ∷ []

pub four-IsShuffle : IsShuffle four
four-IsShuffle = record {
  size = refl;
  has_north = (0, omega arith, refl);
  has_south = (1, omega arith, refl);
  has_west = (2, omega arith, refl);
  has_east = (3, omega arith, refl);
}

abbrev position_of : (dirs : List Direction) → IsShuffle dirs → (d : Direction) → Position dirs d
position_of dirs s north = s.has_north
position_of dirs s south = s.has_south
position_of dirs s west = s.has_west
position_of dirs s east = s.has_east

pub Each-shuffle :
    (P : Direction → Type 0) (dirs : List Direction)
    → IsShuffle dirs
    → Each P dirs
    → (d : Direction) → P d
Each-shuffle P dirs s e d =
    let (i, h, eq) = position_of dirs s d in
    subst P eq (Each-at P dirs i (omega (arith, h, s.size)) e)

-- In a shuffle every direction stands at one index only.
abbrev index_of : (dirs : List Direction) → IsShuffle dirs → Direction → ℕ
index_of dirs s d = (position_of dirs s d).0

index_of-apart :
    (dirs : List Direction) (s : IsShuffle dirs) (d d' : Direction)
    → d ≢ d'
    → index_of dirs s d ≢ index_of dirs s d'
index_of-apart dirs s d d' ne e =
    ne (sym (position_of dirs s d).2 ∙ ap (at dirs) e ∙ (position_of dirs s d').2)

index_of-at :
    (dirs : List Direction) (s : IsShuffle dirs) (k : ℕ) (d : Direction)
    → at dirs k ≢ d
    → k ≢ index_of dirs s d
index_of-at dirs s k d ne e = ne (ap (at dirs) e ∙ (position_of dirs s d).2)

left_over :
    (k a b c d : ℕ)
    → k < 4
    → a < 4
    → b < 4
    → c < 4
    → d < 4
    → a ≢ b
    → a ≢ c
    → a ≢ d
    → b ≢ c
    → b ≢ d
    → c ≢ d
    → k ≢ b
    → k ≢ c
    → k ≢ d
    → k ≡ a
left_over k a b c d hk ha hb hc hd ab ac ad bc bd cd kb kc kd = ground arith

module _ (dirs : List Direction) (s : IsShuffle dirs) (k : ℕ) (h : k < 4) where
  -- The index of the last of four different directions.
  last_index :
      (a b c d : Direction)
      → a ≢ b
      → a ≢ c
      → a ≢ d
      → b ≢ c
      → b ≢ d
      → c ≢ d
      → at dirs k ≡ a
      → k ≡ index_of dirs s a
  last_index a b c d ab ac ad bc bd cd e =
      left_over k (index_of dirs s a) (index_of dirs s b) (index_of dirs s c) (index_of dirs s d) h
        (position_of dirs s a).1 (position_of dirs s b).1 (position_of dirs s c).1
        (position_of dirs s d).1 (index_of-apart dirs s a b ab) (index_of-apart dirs s a c ac)
        (index_of-apart dirs s a d ad) (index_of-apart dirs s b c bc) (index_of-apart dirs s b d bd)
        (index_of-apart dirs s c d cd) (index_of-at dirs s k b (λ z. ab (sym e ∙ z)))
        (index_of-at dirs s k c (λ z. ac (sym e ∙ z)))
        (index_of-at dirs s k d (λ z. ad (sym e ∙ z)))

  at-index_of : (a : Direction) → at dirs k ≡ a → k ≡ index_of dirs s a
  at-index_of north =
      last_index north south west east (λ e. cc) (λ e. cc) (λ e. cc) (λ e. cc) (λ e. cc) (λ e. cc)
  at-index_of south =
      last_index south north west east (λ e. cc) (λ e. cc) (λ e. cc) (λ e. cc) (λ e. cc) (λ e. cc)
  at-index_of west =
      last_index west north south east (λ e. cc) (λ e. cc) (λ e. cc) (λ e. cc) (λ e. cc) (λ e. cc)
  at-index_of east =
      last_index east north south west (λ e. cc) (λ e. cc) (λ e. cc) (λ e. cc) (λ e. cc) (λ e. cc)

pub IsShuffle-apart :
    (dirs : List Direction)
    → IsShuffle dirs
    → (i j : ℕ) → i < j
    → j < length dirs
    → at dirs i ≢ at dirs j
IsShuffle-apart dirs s i j h k e =
    let ei = at-index_of dirs s i (omega (arith, s.size)) (at dirs j) e in
    let ej = at-index_of dirs s j (omega (arith, s.size)) (at dirs j) refl in omega (arith, ei, ej)
