-- ===== src/Maze/Tests.antt =====
-- Concrete runs on a maze of two rooms side by side, with an opening between them.
use c_course_projects.Common.{ℕ, List, ◌+◌, zero, suc, ◌≡◌, refl, true, some, [], ◌∷◌, arith}
use c_course_projects.Common.Int.{ℤ, pos}
use c_course_projects.Maze.{
  Connections, opening, wall, get_index, direction_index, get_neighbor, neighbor_index,
}
use c_course_projects.Maze.Grid.{InGrid}
use c_course_projects.Maze.Rooms.{unvisited}
use c_course_projects.Maze.Generator.{
  encode_room, encode_maze, drunken_walk, walk_directions, connect, get_opposite_dir, shuffle_array,
  swap,
}
use c_course_projects.Maze.Generate.{rows_of, generate}
use c_course_projects.Maze.Spanned.{IsSpanned, generate-IsSpanned}
use c_course_projects.Maze.Solver.{
  Maze, room, load_room, create_room_connections, try_directions, dfs,
}
use c_course_projects.Maze.Trail.{IsGrid, Ends}
use c_course_projects.Maze.Search.{dfs-Ends}
use c_course_projects.Maze.Program.{solve, solved}
use c_course_projects.Maze.Solved.{Solves, loaded, solve-Solves}
use c_course_projects.Maze.Written.{written}
use c_course_projects.Maze.Together.{generate-solved}
use c_course_projects.Maze.Print.{Prints, Route, dfs-print}

abbrev two_rooms : Maze
two_rooms = load_room 0 0 7 ∷ load_room 0 1 11 ∷ []

two_rooms-IsGrid : IsGrid 0 1 1 2 two_rooms
unfolding get_index load_room create_room_connections
two_rooms-IsGrid = record { size = refl; places = places }
  where
    places :
        (row col : ℕ)
        → InGrid 1 2 row col
        → ((room two_rooms (get_index row col 2)).r ≡ row)
          × ((room two_rooms (get_index row col 2)).c ≡ col)
    places zero zero g = (refl, refl)
    places zero (suc zero) g = (refl, refl)
    places zero (suc (suc col)) g = absurd (omega (arith, g.col_lt))
    places (suc row) col g = absurd (omega (arith, g.row_lt))

first-InGrid : InGrid 1 2 0 0
first-InGrid = record { row_lt = omega arith; col_lt = omega arith }

second-InGrid : InGrid 1 2 0 1
second-InGrid = record { row_lt = omega arith; col_lt = omega arith }

abbrev corridor : Connections
corridor = record { to_north = wall; to_south = wall; to_west = opening; to_east = opening }

generate-IsSpanned_example :
    (m : Maze) × (generate (λ n. n + 3) 2 2 ≡ some (rows_of 2 2 (encode_maze m))) × IsSpanned 2 2 m
generate-IsSpanned_example = generate-IsSpanned (λ n. n + 3) 2 2 (omega arith) (omega arith)

dfs-Ends_example : Ends 0 1 1 2 0 0 two_rooms (dfs 0 1 1 2 (unvisited two_rooms) 0 0 two_rooms)
unfolding get_index load_room
dfs-Ends_example = dfs-Ends 0 1 1 2 0 0 two_rooms first-InGrid two_rooms-IsGrid refl

abbrev searched : Maze
searched =
    record (load_room 0 0 7) { visited = true; next = some 1 }
    ∷ record (load_room 0 1 11) { visited = true; next = some 1 }
    ∷ []

dfs-print_example : Prints 0 1 1 2 searched 0 0
unfolding get_index load_room create_room_connections dfs try_directions direction_index
    get_neighbor neighbor_index
dfs-print_example = dfs-print 0 1 1 2 0 0 two_rooms searched first-InGrid two_rooms-IsGrid refl refl

-- The numbers of the two rooms.
abbrev two_numbers : ℕ → ℕ
two_numbers zero = 7
two_numbers (suc k) = 11

solve-Solves_example :
    (fuel : ℕ) × Solves two_numbers 1 2 0 0 0 1 (solve two_numbers fuel 1 2 0 0 0 1)
solve-Solves_example = solve-Solves two_numbers 1 2 0 0 0 1 first-InGrid

abbrev two_lines : List (List ℤ)
two_lines = (pos 7 ∷ pos 11 ∷ []) ∷ []

two_lines-generated : generate (λ n. n + 3) 1 2 ≡ some two_lines
unfolding generate drunken_walk walk_directions connect get_opposite_dir shuffle_array swap
    encode_maze encode_room rows_of get_index direction_index get_neighbor neighbor_index
two_lines-generated = refl

two_numbers-read :
    (row col : ℕ)
    → InGrid 1 2 row col
    → pos (two_numbers (get_index row col 2)) ≡ written two_lines row col
unfolding get_index
two_numbers-read zero zero g = refl
two_numbers-read zero (suc zero) g = refl
two_numbers-read zero (suc (suc col)) g = absurd (omega (arith, g.col_lt))
two_numbers-read (suc row) col g = absurd (omega (arith, g.row_lt))

generate-solved_example :
    (fuel : ℕ) × (path : List (ℕ × ℕ)) × (solve two_numbers fuel 1 2 0 0 0 1 ≡ solved path)
    × Route 0 1 1 2 (loaded two_numbers 1 2 0 0 0 1) 0 0 path
generate-solved_example =
    generate-solved (λ n. n + 3) 1 2 0 0 0 1 two_numbers first-InGrid second-InGrid two_lines
      two_lines-generated two_numbers-read
