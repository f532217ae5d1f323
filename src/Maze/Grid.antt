-- ===== src/Maze/Grid.antt =====
-- Rooms and their indices in the array.
use c_course_projects.Common.{ℕ, ◌+◌, ◌*◌, ◌<◌, ◌≡◌, ap, true, arith, some}
use c_course_projects.Maze.{
  Direction, north, south, west, east, get_index, is_in_range, direction_index, row_of, col_of,
  neighbor_index, get_neighbor,
}

-- The room lies in the grid.
pub record InGrid (num_rows num_cols row col : ℕ) : Type 0 where
  pub row_lt : row < num_rows
  pub col_lt : col < num_cols

-- The index of a room lies in the array.
pub get_index-lt :
    (num_rows num_cols row col : ℕ)
    → InGrid num_rows num_cols row col
    → get_index row col num_cols < num_rows * num_cols
unfolding get_index
get_index-lt num_rows num_cols row col g = grind arith

row_first :
    (num_cols row col row' col' : ℕ)
    → row < row'
    → col < num_cols
    → row * num_cols + col < row' * num_cols + col'
row_first num_cols row col row' col' h k = grind arith

-- Two rooms of the grid with the same index have the same row and the same column.
pub get_index-injective :
    (num_rows num_cols row col row' col' : ℕ)
    → InGrid num_rows num_cols row col
    → InGrid num_rows num_cols row' col'
    → get_index row col num_cols ≡ get_index row' col' num_cols
    → (row ≡ row') × (col ≡ col')
unfolding get_index
get_index-injective num_rows num_cols row col row' col' g g' e =
    let rows : row ≡ row' =
      ground (arith, row_first num_cols row col row' col', row_first num_cols row' col' row col) in
    (rows, omega (arith, ap (λ (t : ℕ). t * num_cols) rows))

-- From a room of the grid, where `direction_index` holds the next room lies in the grid.
pub direction_index-InGrid :
    (row col : ℕ) (dir : Direction) (num_rows num_cols : ℕ)
    → InGrid num_rows num_cols row col
    → direction_index row col dir num_rows num_cols ≡ true
    → InGrid num_rows num_cols (row_of row dir) (col_of col dir)
unfolding direction_index
direction_index-InGrid row col north num_rows num_cols g h = ground arith
direction_index-InGrid row col south num_rows num_cols g h = ground arith
direction_index-InGrid row col west num_rows num_cols g h = ground arith
direction_index-InGrid row col east num_rows num_cols g h = ground arith

-- In the grid the assertion of `get_neighbor` holds.
pub get_neighbor-InGrid :
    (num_rows num_cols row col : ℕ) (dir : Direction)
    → InGrid num_rows num_cols row col
    → get_neighbor num_rows num_cols row col dir ≡ some (neighbor_index num_cols row col dir)
unfolding get_neighbor is_in_range
get_neighbor-InGrid num_rows num_cols row col dir g = ground arith
