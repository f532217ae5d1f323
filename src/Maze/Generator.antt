-- ===== src/Maze/Generator.antt =====
-- maze/generator.c: the random walk that builds a maze, and the numbers that stand for its rooms.
use c_course_projects.Common.{
  ℕ, zero, suc, ◌+◌, ◌%◌, true, Option, none, some, List, [], ◌∷◌, map, if◌then◌else◌, get_or, set,
}
use c_course_projects.Common.Int.{ℤ, pos, negsuc, ◌+ℤ◌, ◌*ℤ◌}
use c_course_projects.Maze.{
  Direction, north, south, west, east, Connection, unset, opening, wall, Connections, connection,
  set_connection, get_index, direction_index, get_neighbor, row_of, col_of,
}
use c_course_projects.Maze.Solver.{Maze, room}

unfoldable pub get_opposite_dir : Direction → Direction
get_opposite_dir north = south
get_opposite_dir south = north
get_opposite_dir west = east
get_opposite_dir east = west

-- The four directions, and the swap of two of them.
abbrev pub at : List Direction → ℕ → Direction
at dirs i = get_or dirs i north

unfoldable pub swap : List Direction → ℕ → ℕ → List Direction
swap dirs i j = set (set dirs i (at dirs j)) j (at dirs i)

-- `rand()`: the numbers that it returns, by the count of the calls before.
abbrev pub Random : Type 0
Random = ℕ → ℕ

-- The loop of `shuffle_array`, from the call with the given count.
unfoldable pub shuffle_array : Random → ℕ → List Direction → List Direction
unfolding swap
shuffle_array rand calls dirs =
    let d0 = swap dirs 0 (rand calls % 4) in
    let d1 = swap d0 1 (rand (calls + 1) % 4) in
    let d2 = swap d1 2 (rand (calls + 2) % 4) in swap d2 3 (rand (calls + 3) % 4)

-- The maze and the count of calls of `rand`.
pub record Walk : Type 0 where
  pub maze : Maze
  pub calls : ℕ

-- `neighbor->connections[opposite_dir]` if it is set, and a wall if not.
abbrev pub copied : Connection → Connection
copied unset = wall
copied opening = opening
copied wall = wall

module _ (rand : Random) (num_rows num_cols : ℕ) where
  -- `room->connections[dir] = value`
  unfoldable pub connect : Maze → ℕ → Direction → Connection → Maze
  connect maze i dir value =
      let k = set_connection (room maze i).connections dir value in
      set maze i (record (room maze i) { connections = k })

  -- The loop over the directions; `call` is the recursive call.
  unfoldable pub walk_directions :
      (ℕ → ℕ → Walk → Option Walk) → (row col : ℕ) → List Direction → Walk → Option Walk
  unfolding connect get_opposite_dir
  walk_directions call row col [] w = some w
  walk_directions call row col (dir ∷ dirs) w =
      let here = get_index row col num_cols in
      let border =
        walk_directions call row col dirs (record w { maze = connect w.maze here dir wall }) in
      if direction_index row col dir num_rows num_cols
      then (elim (get_neighbor num_rows num_cols (room w.maze here).r (room w.maze here).c dir) [
        | none ↦ none
        | some i ↦
            let neighbor = room w.maze i in
            let open_maze = connect w.maze here dir opening in
            let moved =
              set open_maze i
                (record (room open_maze i) { r = row_of row dir; c = col_of col dir }) in
            let onward : Option Walk =
              elim (call (room moved i).r (room moved i).c (record w { maze = moved })) [
                | none ↦ none
                | some w' ↦ walk_directions call row col dirs w'
              ] in
            let value = copied (connection neighbor.connections (get_opposite_dir dir)) in
            let copy =
              walk_directions call row col dirs
                (record w { maze = connect w.maze here dir value }) in
            if neighbor.visited then copy else onward
      ])
      else border

  -- `drunken_walk`; each call visits a room, so that the number of rooms is enough fuel.
  unfoldable pub drunken_walk : ℕ → (row col : ℕ) → Walk → Option Walk
  unfolding walk_directions shuffle_array
  drunken_walk zero row col w = none
  drunken_walk (suc fuel) row col w =
      let here = get_index row col num_cols in
      let entered = record (room w.maze here) { visited = true; r = row; c = col; next = none } in
      walk_directions (drunken_walk fuel) row col
        (shuffle_array rand w.calls (north ∷ south ∷ west ∷ east ∷ []))
        (record { maze = set w.maze here entered; calls = w.calls + 4 })

-- The number of a connection.
abbrev pub number : Connection → ℤ
number unset = negsuc 0
number opening = pos 0
number wall = pos 1

unfoldable pub encode_room : Connections → ℤ
unfolding ◌+ℤ◌ ◌*ℤ◌
encode_room k =
    number k.to_north *ℤ pos 1
    +ℤ number k.to_south *ℤ pos 2
    +ℤ number k.to_west *ℤ pos 4
    +ℤ number k.to_east *ℤ pos 8

-- `encode_maze`: one number for each room, in order.
unfoldable pub encode_maze : Maze → List ℤ
unfolding encode_room
encode_maze maze = map (λ m. encode_room m.connections) maze
