-- ===== src/Maze.antt =====
-- maze/common.c and maze/common.h: the grid of rooms that the generator and the solver share.
pub mod Grid
pub mod Rooms
pub mod Generator
pub mod Solver
pub mod Codes
pub mod Shuffle
pub mod Sound
pub mod Connect
pub mod Place
pub mod Walk
pub mod Loop
pub mod Distinct
pub mod Spanning
pub mod Spanned
pub mod Trail
pub mod Looped
pub mod Search
pub mod Print
pub mod Program
pub mod Generate
pub mod Solved
pub mod Written
pub mod Together
mod Tests
use c_course_projects.Common.{
  ℕ, ◌+◌, ◌-◌, ◌*◌, Bool, true, false, not, ◌&&◌, Option, none, some, if◌then◌else◌,
}
use c_course_projects.Common.Int.{ℤ, pos, ◌-ℤ◌, ltb_ℤ}

-- `Direction`, in the order of its numbers.
pub data Direction : Type 0 where
  north south west east : Direction

-- An entry of `connections`: -1 is `unset`, 0 is `opening`, 1 is `wall`.
pub data Connection : Type 0 where
  unset opening wall : Connection

-- `connections[4]`
pub record Connections : Type 0 where
  pub to_north : Connection
  pub to_south : Connection
  pub to_west : Connection
  pub to_east : Connection

abbrev pub connection : Connections → Direction → Connection
connection k north = k.to_north
connection k south = k.to_south
connection k west = k.to_west
connection k east = k.to_east

abbrev pub set_connection : Connections → Direction → Connection → Connections
set_connection k north v = record k { to_north = v }
set_connection k south v = record k { to_south = v }
set_connection k west v = record k { to_west = v }
set_connection k east v = record k { to_east = v }

unfoldable pub get_index : (row col num_cols : ℕ) → ℕ
get_index row col num_cols = row * num_cols + col

-- The arguments are `int`, and may be -1.
unfoldable pub is_in_range : (row col : ℤ) (num_rows num_cols : ℕ) → Bool
is_in_range row col num_rows num_cols =
    ltb_ℤ row (pos num_rows)
    && (not (ltb_ℤ row (pos 0)) && (ltb_ℤ col (pos num_cols) && not (ltb_ℤ col (pos 0))))

-- Whether the grid goes on in the direction.
unfoldable pub direction_index : (row col : ℕ) → Direction → (num_rows num_cols : ℕ) → Bool
unfolding is_in_range ◌-ℤ◌
direction_index row col north num_rows num_cols =
    is_in_range (pos row -ℤ pos 1) (pos col) num_rows num_cols
direction_index row col south num_rows num_cols =
    is_in_range (pos (row + 1)) (pos col) num_rows num_cols
direction_index row col west num_rows num_cols =
    is_in_range (pos row) (pos col -ℤ pos 1) num_rows num_cols
direction_index row col east num_rows num_cols =
    is_in_range (pos row) (pos (col + 1)) num_rows num_cols

-- The row and the column next to a room. It is called only where `direction_index` holds, so that
-- the subtraction does not stop at 0.
abbrev pub row_of : ℕ → Direction → ℕ
row_of row north = row - 1
row_of row south = row + 1
row_of row west = row
row_of row east = row

abbrev pub col_of : ℕ → Direction → ℕ
col_of col north = col
col_of col south = col
col_of col west = col - 1
col_of col east = col + 1

-- The index of the room that `get_neighbor` points to.
unfoldable pub neighbor_index : (num_cols row col : ℕ) → Direction → ℕ
unfolding get_index
neighbor_index num_cols row col dir = get_index (row_of row dir) (col_of col dir) num_cols

-- `get_neighbor` of the room whose fields `r` and `c` are given; `none` is a failed assertion.
unfoldable pub get_neighbor : (num_rows num_cols row col : ℕ) → Direction → Option ℕ
unfolding is_in_range neighbor_index
get_neighbor num_rows num_cols row col dir =
    if is_in_range (pos row) (pos col) num_rows num_cols
    then some (neighbor_index num_cols row col dir)
    else none
