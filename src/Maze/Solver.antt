-- ===== src/Maze/Solver.antt =====
-- maze/solver.c: reading the rooms, the depth-first search, and the path that it leaves.
use c_course_projects.Common.{
  ℕ, zero, suc, ◌-◌, Bool, true, false, not, ◌&&◌, Option, none, some, List, [], ◌∷◌, if◌then◌else◌,
  leb, ◌==◌, get_or, set,
}
use c_course_projects.Maze.{
  Direction, north, south, west, east, Connection, unset, opening, wall, Connections, connection,
  get_index, direction_index, get_neighbor,
}

-- One test of `create_room_connections`: what is left of the number, and the connection.
abbrev bit : ℕ → ℕ → ℕ × Connection
bit hex value = if leb value hex then (hex - value, wall) else (hex, opening)

-- The last test is `hex == 1`.
unfoldable pub create_room_connections : ℕ → Connections
create_room_connections hex =
    let (hex3, east_) = bit hex 8 in
    let (hex2, west_) = bit hex3 4 in
    let (hex1, south_) = bit hex2 2 in
    record {
      to_north = if hex1 == 1 then wall else opening;
      to_south = south_;
      to_west = west_;
      to_east = east_;
    }

-- `struct maze_room`; `next` is the index of the room that it points to, `none` is NULL.
pub record Room : Type 0 where
  pub r : ℕ
  pub c : ℕ
  pub visited : Bool
  pub connections : Connections
  pub next : Option ℕ

abbrev pub Maze : Type 0
Maze = List Room

-- What a read beyond the array would give. `InGrid` rules such reads out.
abbrev pub no_room : Room
no_room = record {
  r = 0;
  c = 0;
  visited = false;
  connections = record { to_north = unset; to_south = unset; to_west = unset; to_east = unset };
  next = none;
}

abbrev pub room : Maze → ℕ → Room
room maze i = get_or maze i no_room

-- The body of the loop in `main` that fills the array.
unfoldable pub load_room : ℕ → ℕ → ℕ → Room
unfolding create_room_connections
load_room i j hex = record {
  r = i;
  c = j;
  visited = false;
  connections = create_room_connections hex;
  next = none;
}

abbrev pub is_opening : Connection → Bool
is_opening opening = true
is_opening _ = false

-- The state in which a call of `dfs` ends, with its result; `none` is too little fuel, or the
-- failed assertion of `get_neighbor`.
abbrev pub Result : Type 0
Result = Option (Bool × Maze)

module _ (goal_row goal_col num_rows num_cols : ℕ) where
  -- The loop over the directions, from the room at `row` and `col`; `call` is the recursive call.
  unfoldable pub try_directions :
      (ℕ → ℕ → Maze → Result) → (row col : ℕ) → List Direction → Maze → Result
  try_directions call row col [] maze = some (false, maze)
  try_directions call row col (dir ∷ dirs) maze =
      let here = get_index row col num_cols in
      let skip = try_directions call row col dirs maze in
      if direction_index row col dir num_rows num_cols
      then (elim (get_neighbor num_rows num_cols (room maze here).r (room maze here).c dir) [
        | none ↦ none
        | some neighbor ↦
            let pointed = set maze here (record (room maze here) { next = some neighbor }) in
            let to_next = room pointed neighbor in
            let visit : Result = elim (call to_next.r to_next.c pointed) [
              | none ↦ none
              | some (true, maze') ↦ some (true, maze')
              | some (false, maze') ↦ try_directions call row col dirs maze'
            ] in
            let pass = try_directions call row col dirs pointed in
            if is_opening (connection (room pointed here).connections dir) && not to_next.visited
            then visit
            else pass
      ])
      else skip

  -- `dfs`, without the printing of the macro FULL. Each call visits a room, so that the number of
  -- rooms is enough fuel.
  unfoldable pub dfs : ℕ → (row col : ℕ) → Maze → Result
  dfs zero row col maze = none
  dfs (suc fuel) row col maze =
      let here = get_index row col num_cols in
      let rest =
        try_directions (dfs fuel) row col (north ∷ south ∷ west ∷ east ∷ [])
          (set maze here (record (room maze here) { visited = true })) in
      if row == goal_row && col == goal_col
      then some (true, set maze here (record (room maze here) { next = some here; visited = true }))
      else rest

  -- `print_prunned`: the rooms that it prints. `none` is too little fuel, or a NULL `next`.
  unfoldable pub print_prunned : ℕ → Maze → ℕ → Option (List (ℕ × ℕ))
  print_prunned zero maze i = none
  print_prunned (suc fuel) maze i =
      let here = room maze i in
      let rest : Option (List (ℕ × ℕ)) = elim here.next [
        | none ↦ none
        | some n ↦ elim (print_prunned fuel maze n) [
          | none ↦ none
          | some path ↦ some ((here.r, here.c) ∷ path)
        ]
      ] in
      if here.r == goal_row && here.c == goal_col then some ((here.r, here.c) ∷ []) else rest
