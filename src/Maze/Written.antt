-- ===== src/Maze/Written.antt =====
-- maze/generator.c: the numbers in the lines of the file that the generator writes.
use c_course_projects.Common.{
  ℕ, zero, suc, ◌+◌, ◌*◌, ◌<◌, ◌≡◌, refl, ap, ◌∙◌, arith, List, [], ◌∷◌, length, get_or, take, drop,
}
use c_course_projects.Common.Int.{ℤ, pos}
use c_course_projects.Maze.Solver.{Maze, room}
use c_course_projects.Maze.Generator.{encode_room, encode_maze}
use c_course_projects.Maze.Generate.{rows_of}

module _ {A : Type 0} where
  get_or-take : (xs : List A) (n i : ℕ) (d : A) → i < n → get_or (take n xs) i d ≡ get_or xs i d
  get_or-take [] zero i d h = refl
  get_or-take [] (suc n) i d h = refl
  get_or-take (x ∷ xs) zero i d h = absurd (omega arith)
  get_or-take (x ∷ xs) (suc n) zero d h = refl
  get_or-take (x ∷ xs) (suc n) (suc i) d h = get_or-take xs n i d (omega arith)

  get_or-drop : (xs : List A) (n i : ℕ) (d : A) → get_or (drop n xs) i d ≡ get_or xs (n + i) d
  get_or-drop xs zero i d = ap (λ k. get_or xs k d) {x = i} {y = 0 + i} (omega arith)
  get_or-drop [] (suc n) i d = refl
  get_or-drop (x ∷ xs) (suc n) i d =
      get_or-drop xs n i d
      ∙ ap (λ k. get_or (x ∷ xs) k d) {x = suc (n + i)} {y = suc n + i} (omega arith)

-- The number in a line of the file.
abbrev pub written : List (List ℤ) → ℕ → ℕ → ℤ
written lines row col = get_or (get_or lines row []) col (pos 0)

pub written-rows_of :
    (num_cols num_rows : ℕ) (xs : List ℤ) (row col : ℕ)
    → row < num_rows
    → col < num_cols
    → written (rows_of num_cols num_rows xs) row col ≡ get_or xs (row * num_cols + col) (pos 0)
unfolding rows_of
written-rows_of num_cols zero xs row col hr hc = absurd (omega arith)
written-rows_of num_cols (suc num_rows) xs zero col hr hc =
    get_or-take xs num_cols col (pos 0) hc
    ∙ ap (λ k. get_or xs k (pos 0)) {x = col} {y = 0 * num_cols + col} (omega arith)
written-rows_of num_cols (suc num_rows) xs (suc row) col hr hc =
    written-rows_of num_cols num_rows (drop num_cols xs) row col (omega arith) hc
    ∙ get_or-drop xs num_cols (row * num_cols + col) (pos 0)
    ∙ ap (λ k. get_or xs k (pos 0)) {x = num_cols + (row * num_cols + col)}
        {y = suc row * num_cols + col} (omega arith)

pub encode_maze-at :
    (m : Maze) (i : ℕ)
    → i < length m
    → get_or (encode_maze m) i (pos 0) ≡ encode_room (room m i).connections
unfolding encode_maze
encode_maze-at [] i h = absurd (omega arith)
encode_maze-at (x ∷ m) zero h = refl
encode_maze-at (x ∷ m) (suc i) h = encode_maze-at m i (omega arith)
