-- ===== src/Maze/Place.antt =====
-- Writing the place of a room that is not visited, and what one call of the walk changes.
use c_course_projects.Common.{
  ℕ, ◌<◌, ◌≤◌, ◌≡◌, inl, inr, refl, ap, sym, ◌∙◌, subst, true, false, arith, length, length-set,
  set,
}
use c_course_projects.Maze.{Direction, connection, get_index}
use c_course_projects.Maze.Solver.{Room, Maze, room}
use c_course_projects.Maze.Grid.{InGrid, get_index-lt, get_index-injective}
use c_course_projects.Maze.Rooms.{unvisited, unvisited-set_kept, room-set}
use c_course_projects.Maze.Sound.{
  conn, visited, IsSound, IsFinished, Advances, Reaches, KeepsOpenings,
}

-- What a call of the walk changes: visited rooms stay as they are, the room of the call becomes
-- visited, openings stay, and all rooms that become visited are finished and reached from it.
pub record Walked (num_rows num_cols row col : ℕ) (m m' : Maze) : Type 0 where
  pub stays : (i : ℕ) → (room m i).visited ≡ true → (room m' i).visited ≡ true
  pub kept : (i : ℕ) → (room m i).visited ≡ true → room m' i ≡ room m i
  pub entered : visited num_rows num_cols m' row col ≡ true
  pub done :
      (r c : ℕ)
      → InGrid num_rows num_cols r c
      → visited num_rows num_cols m r c ≡ false
      → visited num_rows num_cols m' r c ≡ true
      → IsFinished num_rows num_cols m' r c
  pub reach :
      (r c : ℕ)
      → InGrid num_rows num_cols r c
      → visited num_rows num_cols m r c ≡ false
      → visited num_rows num_cols m' r c ≡ true
      → Reaches num_rows num_cols m' row col r c
  pub opens : KeepsOpenings num_rows num_cols m m'
  pub sound : IsSound num_rows num_cols m'
  pub fewer : unvisited m' ≤ unvisited m

-- The room `x` at an unvisited place of the grid, with that place and the connections as before.
module _ (num_rows num_cols row col : ℕ) (g : InGrid num_rows num_cols row col) (m : Maze)
    (s : IsSound num_rows num_cols m) (new : visited num_rows num_cols m row col ≡ false) (x : Room)
    (xr : x.r ≡ row) (xc : x.c ≡ col)
    (xk : x.connections ≡ (room m (get_index row col num_cols)).connections) where
  abbrev index : ℕ
  index = get_index row col num_cols

  abbrev pub placed : Maze
  placed = set m index x

  pub place_in_array : index < length m
  place_in_array = subst (λ n. index < n) (sym s.size) (get_index-lt num_rows num_cols row col g)

  pub placed_self : room placed index ≡ x
  placed_self = elim (room-set m index index x place_in_array) [
    | inl (eq, at) ↦ at
    | inr (ne, at) ↦ absurd (ne refl)
  ]

  pub placed-visited : (i : ℕ) → (room m i).visited ≡ true → room placed i ≡ room m i
  placed-visited i h = elim (room-set m index i x place_in_array) [
    | inl (eq, at) ↦ cc
    | inr (ne, at) ↦ at
  ]

  conn_at-placed :
      (i : ℕ) (d : Direction)
      → connection (room placed i).connections d ≡ connection (room m i).connections d
  conn_at-placed i d = elim (room-set m index i x place_in_array) [
    | inl (eq, at) ↦
        ap (λ y. connection y.connections d) at
        ∙ ap (λ k. connection k d) xk
        ∙ ap (λ k. connection (room m k).connections d) eq
    | inr (ne, at) ↦ ap (λ y. connection y.connections d) at
  ]

  pub placed-KeepsOpenings : KeepsOpenings num_rows num_cols m placed
  placed-KeepsOpenings i d o = conn_at-placed i d ∙ o

  pub conn-placed :
      (r c : ℕ) (d : Direction)
      → conn num_rows num_cols placed r c d ≡ conn num_rows num_cols m r c d
  conn-placed r c d = conn_at-placed (get_index r c num_cols) d

  pub placed-IsSound : IsSound num_rows num_cols placed
  placed-IsSound = record {
    size = length-set m index x ∙ s.size;
    places = λ r c g' old. elim (room-set m index (get_index r c num_cols) x place_in_array) [
      | inl (eq, at) ↦
          let (er, ec) = get_index-injective num_rows num_cols row col r c g g' eq in
          (ap (λ y. y.r) at ∙ xr ∙ er, ap (λ y. y.c) at ∙ xc ∙ ec)
      | inr (ne, at) ↦
          let p = s.places r c g' (sym (ap (λ y. y.visited) at) ∙ old) in
          (ap (λ y. y.r) at ∙ p.0, ap (λ y. y.c) at ∙ p.1)
    ];
    blank = λ r c g' old d. elim (room-set m index (get_index r c num_cols) x place_in_array) [
      | inl (eq, at) ↦
          conn-placed r c d ∙ s.blank r c g' (sym (ap (λ k. (room m k).visited) eq) ∙ new) d
      | inr (ne, at) ↦ conn-placed r c d ∙ s.blank r c g' (sym (ap (λ y. y.visited) at) ∙ old) d
    ];
    agree = λ r c d g' go z1 z2.
        conn-placed r c d
        ∙ s.agree r c d g' go (λ z. z1 (conn-placed r c d ∙ z)) (λ z. z2 (conn-placed _ _ _ ∙ z))
        ∙ sym (conn-placed _ _ _);
    border =
        λ r c d g' b z. conn-placed r c d ∙ s.border r c d g' b (λ y. z (conn-placed r c d ∙ y));
  }

  -- A walk that starts there from the array with only the place written.
  module _ (xv : x.visited ≡ false) (m' : Maze)
      (p : Walked num_rows num_cols row col placed m') where
    visited-placed : (i : ℕ) → (room placed i).visited ≡ (room m i).visited
    visited-placed i = elim (room-set m index i x place_in_array) [
      | inl (eq, at) ↦ ap (λ y. y.visited) at ∙ xv ∙ sym new ∙ ap (λ k. (room m k).visited) eq
      | inr (ne, at) ↦ ap (λ y. y.visited) at
    ]

    -- It is started from a place from which all is reached that is reached from there.
    pub walked-Advances :
        (e_row e_col : ℕ)
        → visited num_rows num_cols m e_row e_col ≡ true
        → ((r c : ℕ)
            → Reaches num_rows num_cols m' row col r c
            → Reaches num_rows num_cols m' e_row e_col r c)
        → Advances num_rows num_cols e_row e_col m m'
    walked-Advances e_row e_col here from = record {
      opens = λ i d o. p.opens i d (placed-KeepsOpenings i d o);
      reach = λ r c g' old now. from r c (p.reach r c g' (visited-placed _ ∙ old) now);
      stays = λ i h. p.stays i (visited-placed i ∙ h);
      kept = λ i n h. p.kept i (visited-placed i ∙ h) ∙ placed-visited i h;
      set_stays = λ d z y. z (
          sym (
            ap (λ k. connection k.connections d)
              (p.kept (get_index e_row e_col num_cols) (visited-placed _ ∙ here)
                ∙ placed-visited _ here))
          ∙ y);
      done = λ r c g' old. p.done r c g' (visited-placed _ ∙ old);
      sound = p.sound;
      fewer = omega (arith, p.fewer, unvisited-set_kept m index x (xv ∙ sym new));
    }
