-- ===== src/Maze/Codes.antt =====
-- The number of a room and its connections stand for one another.
use c_course_projects.Common.{ℕ, ◌<◌, ◌≡◌, ◌≢◌, refl, arith}
use c_course_projects.Common.Int.{pos}
use c_course_projects.Maze.{Connection, unset, opening, wall, Connections}
use c_course_projects.Maze.Solver.{create_room_connections}
use c_course_projects.Maze.Generator.{encode_room}

-- All four connections are set.
pub record AllSet (k : Connections) : Type 0 where
  pub north_set : k.to_north ≢ unset
  pub south_set : k.to_south ≢ unset
  pub west_set : k.to_west ≢ unset
  pub east_set : k.to_east ≢ unset

abbrev four : (n s w e : Connection) → Connections
four n s w e = record { to_north = n; to_south = s; to_west = w; to_east = e }

create_set :
    (n s w e : Connection)
    → n ≢ unset
    → s ≢ unset
    → w ≢ unset
    → e ≢ unset
    → (k : ℕ) × (encode_room (four n s w e) ≡ pos k) × (create_room_connections k ≡ four n s w e)
unfolding create_room_connections encode_room
create_set unset s w e hn hs hw he = absurd (hn refl)
create_set opening unset w e hn hs hw he = absurd (hs refl)
create_set opening opening unset e hn hs hw he = absurd (hw refl)
create_set opening opening opening unset hn hs hw he = absurd (he refl)
create_set opening opening opening opening hn hs hw he = (0, refl, refl)
create_set opening opening opening wall hn hs hw he = (8, refl, refl)
create_set opening opening wall unset hn hs hw he = absurd (he refl)
create_set opening opening wall opening hn hs hw he = (4, refl, refl)
create_set opening opening wall wall hn hs hw he = (12, refl, refl)
create_set opening wall unset e hn hs hw he = absurd (hw refl)
create_set opening wall opening unset hn hs hw he = absurd (he refl)
create_set opening wall opening opening hn hs hw he = (2, refl, refl)
create_set opening wall opening wall hn hs hw he = (10, refl, refl)
create_set opening wall wall unset hn hs hw he = absurd (he refl)
create_set opening wall wall opening hn hs hw he = (6, refl, refl)
create_set opening wall wall wall hn hs hw he = (14, refl, refl)
create_set wall unset w e hn hs hw he = absurd (hs refl)
create_set wall opening unset e hn hs hw he = absurd (hw refl)
create_set wall opening opening unset hn hs hw he = absurd (he refl)
create_set wall opening opening opening hn hs hw he = (1, refl, refl)
create_set wall opening opening wall hn hs hw he = (9, refl, refl)
create_set wall opening wall unset hn hs hw he = absurd (he refl)
create_set wall opening wall opening hn hs hw he = (5, refl, refl)
create_set wall opening wall wall hn hs hw he = (13, refl, refl)
create_set wall wall unset e hn hs hw he = absurd (hw refl)
create_set wall wall opening unset hn hs hw he = absurd (he refl)
create_set wall wall opening opening hn hs hw he = (3, refl, refl)
create_set wall wall opening wall hn hs hw he = (11, refl, refl)
create_set wall wall wall unset hn hs hw he = absurd (he refl)
create_set wall wall wall opening hn hs hw he = (7, refl, refl)
create_set wall wall wall wall hn hs hw he = (15, refl, refl)

-- Reading back what `encode_room` wrote for a room with all connections set, which is not negative,
-- gives the room's connections.
pub create-encode :
    (k : Connections)
    → AllSet k
    → (n : ℕ) × (encode_room k ≡ pos n) × (create_room_connections n ≡ k)
create-encode k h =
    create_set k.to_north k.to_south k.to_west k.to_east h.north_set h.south_set h.west_set
      h.east_set

-- A hexadecimal digit is read as a room with all connections set, which is written as that digit.
pub encode-create :
    (hex : ℕ)
    → hex < 16
    → (encode_room (create_room_connections hex) ≡ pos hex) × AllSet (create_room_connections hex)
unfolding create_room_connections encode_room
encode-create hex h = ground arith
