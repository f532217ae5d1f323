-- ===== src/Maze/Shuffle.antt =====
-- `shuffle_array` and `get_opposite_dir`.
use c_course_projects.Common.{
  ℕ, zero, suc, [], ◌∷◌, ◌+◌, ◌%◌, ◌<◌, ◌≡◌, ap, sym, ◌∙◌, Bool-cases, inl, inr, ◌==◌, ==_iff, true,
  List, arith, set, get_or-set_self, get_or-set_ne, length, length-set,
}
use c_course_projects.Maze.{Direction, north, south, west, east, direction_index, row_of, col_of}
use c_course_projects.Maze.Grid.{InGrid}
use c_course_projects.Maze.Generator.{get_opposite_dir, at, swap, Random, shuffle_array}

-- Each direction is at one of the four indices.
abbrev pub Position : List Direction → Direction → Type 0
Position dirs d = (i : ℕ) × (i < 4) × (at dirs i ≡ d)

swap-Position :
    (dirs : List Direction) (i j : ℕ) (d : Direction)
    → length dirs ≡ 4
    → i < 4
    → j < 4
    → Position dirs d
    → Position (swap dirs i j) d
unfolding swap
swap-Position dirs i j d n hi hj (k, hk, e) =
    let first = set dirs i (at dirs j) in
    let size : length first ≡ 4 = length-set dirs i (at dirs j) ∙ n in
    let at_j = get_or-set_self first j (at dirs i) north (omega arith) in
    elim (Bool-cases (k == i)) [
      | inl ki ↦ (j, hj, at_j ∙ ap (at dirs) (sym ((==_iff k i).0 ki)) ∙ e)
      | inr ki ↦ elim (Bool-cases (k == j)) [
        | inl kj ↦ (
          i,
          hi,
          get_or-set_ne first j i (at dirs i) north (ground arith)
              ∙ get_or-set_self dirs i (at dirs j) north (omega arith)
              ∙ ap (at dirs) (sym ((==_iff k j).0 kj))
              ∙ e,
        )
        | inr kj ↦ (
          k,
          hk,
          get_or-set_ne first j k (at dirs i) north (ground arith)
              ∙ get_or-set_ne dirs i k (at dirs j) north (ground arith)
              ∙ e,
        )
      ]
    ]

length-swap : (dirs : List Direction) (i j : ℕ) → length (swap dirs i j) ≡ length dirs
unfolding swap
length-swap dirs i j =
    length-set (set dirs i (at dirs j)) j (at dirs i) ∙ length-set dirs i (at dirs j)

-- A list of four entries that has every direction: each stands at exactly one index.
pub record IsShuffle (dirs : List Direction) : Type 0 where
  pub size : length dirs ≡ 4
  pub has_north : Position dirs north
  pub has_south : Position dirs south
  pub has_west : Position dirs west
  pub has_east : Position dirs east

swap-IsShuffle :
    (dirs : List Direction) (i j : ℕ) → i < 4 → j < 4 → IsShuffle dirs → IsShuffle (swap dirs i j)
swap-IsShuffle dirs i j hi hj s = record {
  size = length-swap dirs i j ∙ s.size;
  has_north = swap-Position dirs i j north s.size hi hj s.has_north;
  has_south = swap-Position dirs i j south s.size hi hj s.has_south;
  has_west = swap-Position dirs i j west s.size hi hj s.has_west;
  has_east = swap-Position dirs i j east s.size hi hj s.has_east;
}

-- Whatever `rand` returns, shuffling a list of the four directions gives a list of the four
-- directions.
pub shuffle_array-IsShuffle :
    (rand : Random) (calls : ℕ) (dirs : List Direction)
    → IsShuffle dirs
    → IsShuffle (shuffle_array rand calls dirs)
unfolding shuffle_array
shuffle_array-IsShuffle rand calls dirs s =
    let s0 = swap-IsShuffle dirs 0 (rand calls % 4) (omega arith) (omega arith) s in
    let s1 = swap-IsShuffle _ 1 (rand (calls + 1) % 4) (omega arith) (omega arith) s0 in
    let s2 = swap-IsShuffle _ 2 (rand (calls + 2) % 4) (omega arith) (omega arith) s1 in
    swap-IsShuffle _ 3 (rand (calls + 3) % 4) (omega arith) (omega arith) s2

-- From a room of the grid with a neighbor, the opposite direction leads back from that neighbor.
pub get_opposite_dir-back :
    (num_rows num_cols row col : ℕ) (dir : Direction)
    → InGrid num_rows num_cols row col
    → direction_index row col dir num_rows num_cols ≡ true
    → (direction_index (row_of row dir) (col_of col dir) (get_opposite_dir dir) num_rows num_cols
        ≡ true)
      × (row_of (row_of row dir) (get_opposite_dir dir) ≡ row)
      × (col_of (col_of col dir) (get_opposite_dir dir) ≡ col)
unfolding get_opposite_dir direction_index
get_opposite_dir-back num_rows num_cols row col north g h =
    (ground arith, ground arith, ground arith)
get_opposite_dir-back num_rows num_cols row col south g h =
    (ground arith, ground arith, ground arith)
get_opposite_dir-back num_rows num_cols row col west g h =
    (ground arith, ground arith, ground arith)
get_opposite_dir-back num_rows num_cols row col east g h =
    (ground arith, ground arith, ground arith)

-- A property of all directions of a list.
abbrev pub Each : (Direction → Type 0) → List Direction → Type 0
Each P [] = Unit
Each P (d ∷ dirs) = P d × Each P dirs

pub Each-at :
    (P : Direction → Type 0) (dirs : List Direction) (i : ℕ)
    → i < length dirs
    → Each P dirs
    → P (at dirs i)
Each-at P [] i h p = absurd (omega arith)
Each-at P (d ∷ dirs) zero h p = p.0
Each-at P (d ∷ dirs) (suc i) h p = Each-at P dirs i (omega arith) p.1
