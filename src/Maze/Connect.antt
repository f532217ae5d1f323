-- ===== src/Maze/Connect.antt =====
-- Setting one connection of the room that the walk is at.
use c_course_projects.Common.{
  ℕ, ◌<◌, ◌≡◌, ◌≢◌, ◌⊎◌, inl, inr, refl, ap, sym, ◌∙◌, subst, true, false, arith, length,
  length-set, set, get_or-set_ne,
}
use c_course_projects.Maze.{
  Direction, north, south, west, east, Connection, unset, opening, wall, connection, set_connection,
  get_index, direction_index, row_of, col_of,
}
use c_course_projects.Maze.Solver.{Room, Maze, room, no_room}
use c_course_projects.Maze.Grid.{InGrid, get_index-lt, get_index-injective, direction_index-InGrid}
use c_course_projects.Maze.Rooms.{unvisited-set_kept, room-set}
use c_course_projects.Maze.Generator.{get_opposite_dir}
use c_course_projects.Maze.Shuffle.{get_opposite_dir-back}
use c_course_projects.Maze.Sound.{
  connection-set_connection, opposite_twice, conn, visited, GoesOn, IsSound, Advances,
  KeepsOpenings,
}

unset-not_opening : unset ≢ opening
unset-not_opening e = cc

-- A room is not beside itself.
not-beside_self :
    (num_rows num_cols row col : ℕ) (d : Direction)
    → direction_index row col d num_rows num_cols ≡ true
    → row_of row d ≡ row
    → col_of col d ≢ col
unfolding direction_index
not-beside_self num_rows num_cols row col north g h k = ground arith
not-beside_self num_rows num_cols row col south g h k = absurd (omega arith)
not-beside_self num_rows num_cols row col west g h k = ground arith
not-beside_self num_rows num_cols row col east g h k = absurd (omega arith)

module _ (num_rows num_cols row col : ℕ) (g : InGrid num_rows num_cols row col) (m : Maze)
    (s : IsSound num_rows num_cols m) (here : visited num_rows num_cols m row col ≡ true)
    (d : Direction) (v : Connection) where
  abbrev index : ℕ
  index = get_index row col num_cols

  abbrev changed : Room
  changed = record (room m index) { connections = set_connection (room m index).connections d v }

  abbrev pub connected : Maze
  connected = set m index changed

  in_array : index < length m
  in_array = subst (λ n. index < n) (sym s.size) (get_index-lt num_rows num_cols row col g)

  pub field_kept :
      {A : Type 0} (f : Room → A)
      → f changed ≡ f (room m index)
      → (i : ℕ) → f (room connected i) ≡ f (room m i)
  field_kept f e i = elim (room-set m index i changed in_array) [
    | inl (eq, at) ↦ ap f at ∙ e ∙ ap (λ k. f (room m k)) eq
    | inr (ne, at) ↦ ap f at
  ]

  -- Which connections have changed.
  conn-connected :
      (r c : ℕ) (d' : Direction)
      → InGrid num_rows num_cols r c
      → ((row ≡ r) × (col ≡ c) × (d ≡ d') × (conn num_rows num_cols connected r c d' ≡ v))
        ⊎ (conn num_rows num_cols connected r c d' ≡ conn num_rows num_cols m r c d')
  conn-connected r c d' g' = elim (room-set m index (get_index r c num_cols) changed in_array) [
    | inr (ne, at) ↦ inr (ap (λ x. connection x.connections d') at)
    | inl (eq, at) ↦
        let (er, ec) = get_index-injective num_rows num_cols row col r c g g' eq in
        elim (connection-set_connection (room m index).connections d d' v) [
          | inl (ed, e) ↦ inl (er, ec, ed, ap (λ x. connection x.connections d') at ∙ e)
          | inr (ne, e) ↦ inr (
              ap (λ x. connection x.connections d') at
              ∙ e
              ∙ ap (λ k. connection (room m k).connections d') eq)
        ]
  ]

  -- The other connections of the room stay as they are.
  pub conn-connected_other :
      (d' : Direction)
      → d' ≢ d
      → conn num_rows num_cols connected row col d' ≡ conn num_rows num_cols m row col d'
  conn-connected_other d' other = elim (conn-connected row col d' g) [
    | inl (er, ec, ed, e) ↦ absurd (other (sym ed))
    | inr e ↦ e
  ]

  pub conn-connected_self : conn num_rows num_cols connected row col d ≡ v
  conn-connected_self = elim (room-set m index index changed in_array) [
    | inr (ne, at) ↦ absurd (ne refl)
    | inl (eq, at) ↦ elim (connection-set_connection (room m index).connections d d v) [
      | inl (ed, e) ↦ ap (λ x. connection x.connections d) at ∙ e
      | inr (ne, e) ↦ absurd (ne refl)
    ]
  ]

  -- The value fits the connection on the other side of the wall, and the border.
  abbrev pub Matches : ℕ → ℕ → Direction → Type 0
  Matches r c d' =
      GoesOn num_rows num_cols r c d'
      → conn num_rows num_cols m (row_of r d') (col_of c d') (get_opposite_dir d') ≢ unset
      → v ≡ conn num_rows num_cols m (row_of r d') (col_of c d') (get_opposite_dir d')

  abbrev pub Bordered : ℕ → ℕ → Direction → Type 0
  Bordered r c d' = direction_index r c d' num_rows num_cols ≡ false → v ≡ wall

  at_place :
      (P : ℕ → ℕ → Direction → Type 0)
      → P row col d
      → (r c : ℕ) (d' : Direction) → row ≡ r
      → col ≡ c
      → d ≡ d'
      → P r c d'
  at_place P p r c d' er ec ed =
      subst (λ x. P x c d') er (subst (λ y. P row y d') ec (subst (λ z. P row col z) ed p))

  same_conn :
      (r c r' c' : ℕ) (d1 d2 : Direction)
      → r ≡ r'
      → c ≡ c'
      → d1 ≡ d2
      → conn num_rows num_cols m r c d1 ≡ conn num_rows num_cols m r' c' d2
  same_conn r c r' c' d1 d2 er ec ed = cc

  other_room : (r c : ℕ) → row ≡ r → col ≡ c → visited num_rows num_cols m r c ≢ false
  other_room r c er ec h = cc

  module _ (was_unset : conn num_rows num_cols m row col d ≡ unset) (is_set : v ≢ unset)
      (matches : Matches row col d) (bordered : Bordered row col d) where
    connected-agree :
        (r c : ℕ) (d' : Direction)
        → InGrid num_rows num_cols r c
        → GoesOn num_rows num_cols r c d'
        → conn num_rows num_cols connected r c d' ≢ unset
        → conn num_rows num_cols connected (row_of r d') (col_of c d') (get_opposite_dir d') ≢ unset
        → conn num_rows num_cols connected r c d'
          ≡ conn num_rows num_cols connected (row_of r d') (col_of c d') (get_opposite_dir d')
    connected-agree r c d' g' go set1 set2 =
        let gn = direction_index-InGrid r c d' num_rows num_cols g' go in
        let back = get_opposite_dir-back num_rows num_cols r c d' g' go in
        elim (conn-connected r c d' g') [
          | inl (er, ec, ed, e) ↦
              elim (conn-connected (row_of r d') (col_of c d') (get_opposite_dir d') gn) [
                | inl (er', ec', ed', e') ↦
                    absurd
                      (not-beside_self num_rows num_cols r c d' go (sym er' ∙ er) (sym ec' ∙ ec))
                | inr e' ↦
                    e ∙ at_place Matches matches r c d' er ec ed go (λ z. set2 (e' ∙ z)) ∙ sym e'
              ]
          | inr e ↦ elim (conn-connected (row_of r d') (col_of c d') (get_opposite_dir d') gn) [
            | inl (er', ec', ed', e') ↦
                let same = same_conn _ _ r c _ d' back.1 back.2 (opposite_twice d') in
                e
                ∙ sym same
                ∙ sym (
                    at_place Matches matches _ _ _ er' ec' ed' back.0
                      (λ z. set1 (e ∙ sym same ∙ z)))
                ∙ sym e'
            | inr e' ↦ e ∙ s.agree r c d' g' go (λ z. set1 (e ∙ z)) (λ z. set2 (e' ∙ z)) ∙ sym e'
          ]
        ]

    pub connected-IsSound : IsSound num_rows num_cols connected
    connected-IsSound = record {
      size = length-set m index _ ∙ s.size;
      places = λ r c g' old.
          let old' = sym (field_kept (λ x. x.visited) refl (get_index r c num_cols)) ∙ old in
          (
            field_kept (λ x. x.r) refl (get_index r c num_cols) ∙ (s.places r c g' old').0,
            field_kept (λ x. x.c) refl (get_index r c num_cols) ∙ (s.places r c g' old').1,
          );
      blank = λ r c g' new d'.
          let new' = sym (field_kept (λ x. x.visited) refl (get_index r c num_cols)) ∙ new in
          elim (conn-connected r c d' g') [
            | inl (er, ec, ed, e) ↦ absurd (other_room r c er ec new')
            | inr e ↦ e ∙ s.blank r c g' new' d'
          ];
      agree = connected-agree;
      border = λ r c d' g' b z. elim (conn-connected r c d' g') [
        | inl (er, ec, ed, e) ↦ e ∙ at_place Bordered bordered r c d' er ec ed b
        | inr e ↦ e ∙ s.border r c d' g' b (λ y. z (e ∙ y))
      ];
    }

    connected-KeepsOpenings : KeepsOpenings num_rows num_cols m connected
    connected-KeepsOpenings i d' o = elim (room-set m index i changed in_array) [
      | inr (ne, at) ↦ ap (λ x. connection x.connections d') at ∙ o
      | inl (eq, at) ↦
          let o' : conn num_rows num_cols m row col d' ≡ opening =
            ap (λ k. connection (room m k).connections d') eq ∙ o in
          elim (connection-set_connection (room m index).connections d d' v) [
            | inl (ed, e) ↦ absurd (
                unset-not_opening
                  (sym was_unset ∙ ap (λ x. conn num_rows num_cols m row col x) ed ∙ o'))
            | inr (ne, e) ↦ ap (λ x. connection x.connections d') at ∙ e ∙ o'
          ]
    ]

    pub connected-Advances : Advances num_rows num_cols row col m connected
    connected-Advances = record {
      opens = connected-KeepsOpenings;
      reach = λ r c g' new old.
          let old' = sym (field_kept (λ x. x.visited) refl (get_index r c num_cols)) ∙ old in
          cc (sym new ∙ old');
      stays = λ i h. field_kept (λ x. x.visited) refl i ∙ h;
      kept = λ i n h. get_or-set_ne m index i _ no_room (λ q. n (sym q));
      set_stays = λ d' z. elim (conn-connected row col d' g) [
        | inl (er, ec, ed, e) ↦ λ y. is_set (sym e ∙ y)
        | inr e ↦ λ y. z (sym e ∙ y)
      ];
      done = λ r c g' new old.
          let old' = sym (field_kept (λ x. x.visited) refl (get_index r c num_cols)) ∙ old in
          cc (sym new ∙ old');
      sound = connected-IsSound;
      fewer = omega (arith, unvisited-set_kept m index changed refl);
    }
