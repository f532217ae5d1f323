-- ===== src/Maze/Sound.antt =====
-- The array during the random walk: what its connections satisfy, and how a walk may change it.
use c_course_projects.Common.{
  ℕ, ◌*◌, ◌≤◌, ◌≡◌, ◌≢◌, ◌⊎◌, inl, inr, refl, ap, sym, ◌∙◌, Bool, true, false, arith, length,
  Bool-cases,
}
use c_course_projects.Maze.{
  Direction, north, south, west, east, Connection, unset, opening, wall, Connections, connection,
  set_connection, get_index, direction_index, row_of, col_of,
}
use c_course_projects.Maze.Solver.{Maze, room}
use c_course_projects.Maze.Grid.{InGrid}
use c_course_projects.Maze.Rooms.{unvisited}
use c_course_projects.Maze.Generator.{get_opposite_dir}

-- Reading a connection after it was set.
pub connection-set_connection :
    (k : Connections) (d d' : Direction) (v : Connection)
    → ((d ≡ d') × (connection (set_connection k d v) d' ≡ v))
      ⊎ ((d ≢ d') × (connection (set_connection k d v) d' ≡ connection k d'))
connection-set_connection k north north v = inl (refl, refl)
connection-set_connection k north south v = inr (λ e. cc, refl)
connection-set_connection k north west v = inr (λ e. cc, refl)
connection-set_connection k north east v = inr (λ e. cc, refl)
connection-set_connection k south north v = inr (λ e. cc, refl)
connection-set_connection k south south v = inl (refl, refl)
connection-set_connection k south west v = inr (λ e. cc, refl)
connection-set_connection k south east v = inr (λ e. cc, refl)
connection-set_connection k west north v = inr (λ e. cc, refl)
connection-set_connection k west south v = inr (λ e. cc, refl)
connection-set_connection k west west v = inl (refl, refl)
connection-set_connection k west east v = inr (λ e. cc, refl)
connection-set_connection k east north v = inr (λ e. cc, refl)
connection-set_connection k east south v = inr (λ e. cc, refl)
connection-set_connection k east west v = inr (λ e. cc, refl)
connection-set_connection k east east v = inl (refl, refl)

pub opposite_twice : (d : Direction) → get_opposite_dir (get_opposite_dir d) ≡ d
unfolding get_opposite_dir
opposite_twice north = refl
opposite_twice south = refl
opposite_twice west = refl
opposite_twice east = refl

module _ (num_rows num_cols : ℕ) where
  abbrev pub conn : Maze → ℕ → ℕ → Direction → Connection
  conn m row col d = connection (room m (get_index row col num_cols)).connections d

  abbrev pub visited : Maze → ℕ → ℕ → Bool
  visited m row col = (room m (get_index row col num_cols)).visited

  abbrev pub GoesOn : ℕ → ℕ → Direction → Type 0
  GoesOn row col d = direction_index row col d num_rows num_cols ≡ true

  -- Visited rooms know their place, and no connection of the others is set. Two connections between
  -- the same rooms that are both set are the same, and at the border there are only walls.
  pub record IsSound (m : Maze) : Type 0 where
    pub size : length m ≡ num_rows * num_cols
    pub places :
        (row col : ℕ)
        → InGrid num_rows num_cols row col
        → visited m row col ≡ true
        → ((room m (get_index row col num_cols)).r ≡ row)
          × ((room m (get_index row col num_cols)).c ≡ col)
    pub blank :
        (row col : ℕ)
        → InGrid num_rows num_cols row col
        → visited m row col ≡ false
        → (d : Direction) → conn m row col d ≡ unset
    pub agree :
        (row col : ℕ) (d : Direction)
        → InGrid num_rows num_cols row col
        → GoesOn row col d
        → conn m row col d ≢ unset
        → conn m (row_of row d) (col_of col d) (get_opposite_dir d) ≢ unset
        → conn m row col d ≡ conn m (row_of row d) (col_of col d) (get_opposite_dir d)
    pub border :
        (row col : ℕ) (d : Direction)
        → InGrid num_rows num_cols row col
        → direction_index row col d num_rows num_cols ≡ false
        → conn m row col d ≢ unset
        → conn m row col d ≡ wall

  -- All connections of the room are set, and all rooms beside it are visited.
  abbrev pub IsFinished : Maze → ℕ → ℕ → Type 0
  IsFinished m row col =
      (d : Direction)
      → (conn m row col d ≢ unset)
        × (GoesOn row col d → visited m (row_of row d) (col_of col d) ≡ true)

  -- Going through openings, each to a neighbor, leads from the first place to the second.
  pub data Reaches (m : Maze) : ℕ → ℕ → ℕ → ℕ → Type 0 where
    stop : {row col : ℕ} → Reaches m row col row col
    through :
        {row col r c : ℕ} (d : Direction)
        → GoesOn row col d
        → conn m row col d ≡ opening
        → Reaches m (row_of row d) (col_of col d) r c
        → Reaches m row col r c

  -- Each opening of the one array is an opening of the other.
  abbrev pub KeepsOpenings : Maze → Maze → Type 0
  KeepsOpenings m m' =
      (i : ℕ) (d : Direction)
      → connection (room m i).connections d ≡ opening
      → connection (room m' i).connections d ≡ opening

  pub Reaches-kept :
      {m m' : Maze}
      → KeepsOpenings m m'
      → {row col r c : ℕ} → Reaches m row col r c
      → Reaches m' row col r c
  Reaches-kept k stop = stop
  Reaches-kept k (through d go o rest) = through d go (k _ d o) (Reaches-kept k rest)

  -- What the walk changes while it is at the place of room `e`: visited rooms other than `e` stay as they are, `e`
  -- stays visited and keeps its connections set, openings stay, and the rooms that are visited
  -- meanwhile are finished and reached from the place of `e`.
  pub record Advances (e_row e_col : ℕ) (m m' : Maze) : Type 0 where
    pub opens : KeepsOpenings m m'
    pub reach :
        (row col : ℕ)
        → InGrid num_rows num_cols row col
        → visited m row col ≡ false
        → visited m' row col ≡ true
        → Reaches m' e_row e_col row col
    pub stays : (i : ℕ) → (room m i).visited ≡ true → (room m' i).visited ≡ true
    pub kept :
        (i : ℕ)
        → i ≢ get_index e_row e_col num_cols
        → (room m i).visited ≡ true
        → room m' i ≡ room m i
    pub set_stays :
        (d : Direction)
        → connection (room m (get_index e_row e_col num_cols)).connections d ≢ unset
        → connection (room m' (get_index e_row e_col num_cols)).connections d ≢ unset
    pub done :
        (row col : ℕ)
        → InGrid num_rows num_cols row col
        → visited m row col ≡ false
        → visited m' row col ≡ true
        → IsFinished m' row col
    pub sound : IsSound m'
    pub fewer : unvisited m' ≤ unvisited m

  pub Advances-refl : (e_row e_col : ℕ) (m : Maze) → IsSound m → Advances e_row e_col m m
  Advances-refl e_row e_col m s = record {
    opens = λ i d h. h;
    reach = λ row col g new old. cc;
    stays = λ i h. h;
    kept = λ i n h. refl;
    set_stays = λ d h. h;
    done = λ row col g new old. cc;
    sound = s;
    fewer = omega arith;
  }

  pub IsFinished-kept :
      (m m' : Maze) (row col : ℕ)
      → room m' (get_index row col num_cols) ≡ room m (get_index row col num_cols)
      → ((i : ℕ) → (room m i).visited ≡ true → (room m' i).visited ≡ true)
      → IsFinished m row col
      → IsFinished m' row col
  IsFinished-kept m m' row col same stays f d =
      (λ z. (f d).0 (ap (λ x. connection x.connections d) (sym same) ∙ z), λ g. stays _ ((f d).1 g))

  pub Advances-trans :
      {e_row e_col : ℕ} {a b c : Maze}
      → (room a (get_index e_row e_col num_cols)).visited ≡ true
      → Advances e_row e_col a b
      → Advances e_row e_col b c
      → Advances e_row e_col a c
  Advances-trans {e_row} {e_col} {a} {b} {c} here p q = record {
    opens = λ i d h. q.opens i d (p.opens i d h);
    reach = λ row col g new old. elim (Bool-cases (visited b row col)) [
      | inl v ↦ Reaches-kept q.opens (p.reach row col g new v)
      | inr v ↦ q.reach row col g v old
    ];
    stays = λ i h. q.stays i (p.stays i h);
    kept = λ i n h. q.kept i n (p.stays i h) ∙ p.kept i n h;
    set_stays = λ d h. q.set_stays d (p.set_stays d h);
    done = λ row col g new old. elim (Bool-cases (visited b row col)) [
      | inl v ↦
          IsFinished-kept b c row col
            (q.kept (get_index row col num_cols) (λ z. cc (ap (λ i. (room a i).visited) z)) v)
            q.stays (p.done row col g new v)
      | inr v ↦ q.done row col g v old
    ];
    sound = q.sound;
    fewer = omega (arith, p.fewer, q.fewer);
  }
