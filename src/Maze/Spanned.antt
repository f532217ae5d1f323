-- ===== src/Maze/Spanned.antt =====
-- maze/generator.c: what the program writes is a maze in which every room is reached.
use c_course_projects.Common.{
  ℕ, zero, suc, ◌+◌, ◌*◌, ◌<◌, ◌≡◌, ◌≢◌, refl, ap, sym, ◌∙◌, subst, true, false, arith, length,
  some, length-replicate,
}
use c_course_projects.Maze.{
  Direction, north, south, west, east, unset, wall, connection, get_index, direction_index, row_of,
  col_of,
}
use c_course_projects.Maze.Solver.{Maze, room, no_room}
use c_course_projects.Maze.Grid.{InGrid, direction_index-InGrid}
use c_course_projects.Maze.Rooms.{unvisited}
use c_course_projects.Maze.Generator.{Random, get_opposite_dir, encode_maze}
use c_course_projects.Maze.Generate.{fresh_maze, rows_of, generate}
use c_course_projects.Maze.Sound.{conn, visited, GoesOn, IsSound, IsFinished, Reaches}
use c_course_projects.Maze.Place.{Walked}
use c_course_projects.Maze.Spanning.{drunken_walk-Ends}

-- All connections of all rooms are set, those of neighbors agree, at the border there are walls, and
-- openings lead from the first room to every room.
pub record IsSpanned (num_rows num_cols : ℕ) (m : Maze) : Type 0 where
  pub size : length m ≡ num_rows * num_cols
  pub is_set :
      (row col : ℕ) (d : Direction)
      → InGrid num_rows num_cols row col
      → conn num_rows num_cols m row col d ≢ unset
  pub agree :
      (row col : ℕ) (d : Direction)
      → InGrid num_rows num_cols row col
      → GoesOn num_rows num_cols row col d
      → conn num_rows num_cols m row col d
        ≡ conn num_rows num_cols m (row_of row d) (col_of col d) (get_opposite_dir d)
  pub border :
      (row col : ℕ) (d : Direction)
      → InGrid num_rows num_cols row col
      → direction_index row col d num_rows num_cols ≡ false
      → conn num_rows num_cols m row col d ≡ wall
  pub reach :
      (row col : ℕ) → InGrid num_rows num_cols row col → Reaches num_rows num_cols m 0 0 row col

true-not_false : true ≢ false
true-not_false e = cc

no_room-unset : (d : Direction) → connection no_room.connections d ≡ unset
no_room-unset north = refl
no_room-unset south = refl
no_room-unset west = refl
no_room-unset east = refl

room-fresh : (count i : ℕ) → room (fresh_maze count) i ≡ no_room
room-fresh zero i = refl
room-fresh (suc count) zero = refl
room-fresh (suc count) (suc i) = room-fresh count i

unvisited-fresh : (count : ℕ) → unvisited (fresh_maze count) ≡ count
unvisited-fresh zero = refl
unvisited-fresh (suc count) = ap suc (unvisited-fresh count)

goes_south :
    (num_rows num_cols row col : ℕ)
    → InGrid num_rows num_cols (suc row) col
    → GoesOn num_rows num_cols row col south
unfolding direction_index
goes_south num_rows num_cols row col g = ground (arith, g.row_lt, g.col_lt)

goes_east :
    (num_rows num_cols row col : ℕ)
    → InGrid num_rows num_cols row (suc col)
    → GoesOn num_rows num_cols row col east
unfolding direction_index
goes_east num_rows num_cols row col g = ground (arith, g.row_lt, g.col_lt)

module _ (num_rows num_cols : ℕ) where
  abbrev fresh : Maze
  fresh = fresh_maze (num_cols * num_rows)

  conn-fresh : (row col : ℕ) (d : Direction) → conn num_rows num_cols fresh row col d ≡ unset
  conn-fresh row col d =
      ap (λ x. connection x.connections d)
        (room-fresh (num_cols * num_rows) (get_index row col num_cols))
      ∙ no_room-unset d

  visited-fresh : (row col : ℕ) → visited num_rows num_cols fresh row col ≡ false
  visited-fresh row col =
      ap (λ x. x.visited) (room-fresh (num_cols * num_rows) (get_index row col num_cols))

  fresh-IsSound : IsSound num_rows num_cols fresh
  fresh-IsSound = record {
    size = length-replicate (num_cols * num_rows) no_room ∙ omega arith;
    places = λ row col g old. absurd (true-not_false (sym old ∙ visited-fresh row col));
    blank = λ row col g new d. conn-fresh row col d;
    agree = λ row col d g go z1 z2. absurd (z1 (conn-fresh row col d));
    border = λ row col d g b z. absurd (z (conn-fresh row col d));
  }

  -- A walk from the first room of the fresh array.
  module _ (m : Maze) (p : Walked num_rows num_cols 0 0 fresh m) where
    finished :
        (row col : ℕ)
        → InGrid num_rows num_cols row col
        → visited num_rows num_cols m row col ≡ true
        → IsFinished num_rows num_cols m row col
    finished row col g = p.done row col g (visited-fresh row col)

    first_column :
        (row : ℕ) → InGrid num_rows num_cols row 0 → visited num_rows num_cols m row 0 ≡ true
    first_column zero g = p.entered
    first_column (suc row) g =
        let above : InGrid num_rows num_cols row 0 = record {
          row_lt = omega (arith, g.row_lt);
          col_lt = g.col_lt;
        } in
        subst (λ r. visited num_rows num_cols m r 0 ≡ true) {x = row + 1} {y = suc row}
          (omega arith)
          ((finished row 0 above (first_column row above) south).1
            (goes_south num_rows num_cols row 0 g))

    all_visited :
        (row col : ℕ)
        → InGrid num_rows num_cols row col
        → visited num_rows num_cols m row col ≡ true
    all_visited row zero g = first_column row g
    all_visited row (suc col) g =
        let before : InGrid num_rows num_cols row col = record {
          row_lt = g.row_lt;
          col_lt = omega (arith, g.col_lt);
        } in
        subst (λ c. visited num_rows num_cols m row c ≡ true) {x = col + 1} {y = suc col}
          (omega arith)
          ((finished row col before (all_visited row col before) east).1
            (goes_east num_rows num_cols row col g))

    all_set :
        (row col : ℕ) (d : Direction)
        → InGrid num_rows num_cols row col
        → conn num_rows num_cols m row col d ≢ unset
    all_set row col d g = (finished row col g (all_visited row col g) d).0

    walked-IsSpanned : IsSpanned num_rows num_cols m
    walked-IsSpanned = record {
      size = p.sound.size;
      is_set = all_set;
      agree = λ row col d g go. p.sound.agree row col d g go (all_set row col d g) (
          all_set (row_of row d) (col_of col d) (get_opposite_dir d)
            (direction_index-InGrid row col d num_rows num_cols g go));
      border = λ row col d g b. p.sound.border row col d g b (all_set row col d g);
      reach = λ row col g. p.reach row col g (visited-fresh row col) (all_visited row col g);
    }

-- Whatever `rand` returns, for at least one row and one column the walk ends with one unit of
-- fuel for each room, and the rows that are written stand for a maze of that size: all
-- connections of all rooms are set, a connection and the one on the other side of the wall are
-- the same, at the border there are only walls, and openings lead from the first room to every
-- room.
pub generate-IsSpanned :
    (rand : Random) (num_rows num_cols : ℕ)
    → 0 < num_rows
    → 0 < num_cols
    → (m : Maze) × (generate rand num_rows num_cols
        ≡ some (rows_of num_cols num_rows (encode_maze m)))
      × IsSpanned num_rows num_cols m
unfolding generate
generate-IsSpanned rand num_rows num_cols hr hc =
    let (w, e, p) =
      drunken_walk-Ends rand num_rows num_cols (num_rows * num_cols) 0 0
        (record { maze = fresh_maze (num_cols * num_rows); calls = 0 })
        (record { row_lt = hr; col_lt = hc }) (fresh-IsSound num_rows num_cols)
        (visited-fresh num_rows num_cols 0 0)
        (omega (arith, unvisited-fresh (num_cols * num_rows))) in
    (w.maze, rw (e, generate) refl, walked-IsSpanned num_rows num_cols w.maze p)
