-- ===== src/Shell/Total.antt =====
-- The loop of `parse` ends.
use c_course_projects.Common.{
  take, ◌-◌, ◌++◌, leb, ap, ◌∙◌, ℕ, zero, suc, ◌+◌, ◌<◌, ◌≤◌, ◌≡◌, ◌≢◌, refl, Bool, false, ◌&&◌, [],
  ◌∷◌, arith, Bool-cases, inl, inr, ◌==◌, length, drop, get_or,
}
use c_course_projects.Common.Bytes.{Bytes, codes}
use c_course_projects.Common.Int.{pos, eqb_ℤ}
use c_course_projects.Strings.{text_at}
use c_course_projects.Shell.Parse.{
  until_zero, zeros, find_next, mark_words, Line, Parsed, out_of_fuel, is_text, any_symbol,
  all_symbols, redirect_output, redirect_input, ampersand, word_at, parse_words, parse,
}

find_next-le : (str : Bytes) (c len : ℕ) → c ≤ find_next str c len
unfolding find_next
find_next-le str c len = ground arith

until_zero-pos : (s : Bytes) → get_or s 0 0 ≢ 0 → 0 < until_zero s
unfolding until_zero
until_zero-pos [] h = absurd (h refl)
until_zero-pos (zero ∷ s) h = absurd (h refl)
until_zero-pos (suc c ∷ s) h = omega arith

get_or-drop : (s : Bytes) (c : ℕ) → get_or (drop c s) 0 0 ≡ get_or s c 0
get_or-drop s zero = refl
get_or-drop [] (suc c) = refl
get_or-drop (x ∷ s) (suc c) = get_or-drop s c

-- From a byte of a word `find_next` moves on.
find_next-lt : (str : Bytes) (c len : ℕ) → c ≤ len → get_or str c 0 ≢ 0 → c < find_next str c len
unfolding find_next
find_next-lt str c len le h =
    let more = until_zero-pos (drop c str) (λ e. h (rw (← get_or-drop str c) e)) in
    ground (arith, more)

until_zero-le : (s : Bytes) (k : ℕ) → get_or s k 0 ≡ 0 → until_zero s ≤ k
unfolding until_zero
until_zero-le [] k h = omega arith
until_zero-le (zero ∷ s) k h = omega arith
until_zero-le (suc c ∷ s) zero h = absurd (omega arith)
until_zero-le (suc c ∷ s) (suc k) h = omega (arith, until_zero-le s k h)

zeros-take : (n : ℕ) (s : Bytes) → zeros (take n s) ≤ n
unfolding zeros
zeros-take zero s = omega arith
zeros-take (suc n) [] = omega arith
zeros-take (suc n) (zero ∷ s) = omega (arith, zeros-take n s)
zeros-take (suc n) (suc c ∷ s) = omega arith

get_or-drop_at : (s : Bytes) (c k : ℕ) → get_or (drop c s) k 0 ≡ get_or s (c + k) 0
get_or-drop_at s zero k = ap (λ i. get_or s i 0) {x = k} {y = 0 + k} (omega arith)
get_or-drop_at [] (suc c) k = refl
get_or-drop_at (x ∷ s) (suc c) k =
    get_or-drop_at s c k
    ∙ ap (λ i. get_or (x ∷ s) i 0) {x = suc (c + k)} {y = suc c + k} (omega arith)

-- Where the terminator is at `len`, `find_next` goes at most one further.
find_next-bound :
    (str : Bytes) (c len : ℕ) → get_or str len 0 ≡ 0 → c ≤ len + 1 → find_next str c len ≤ len + 1
unfolding find_next
find_next-bound str c len end le = elim (Bool-cases (leb c len)) [
  | inr e ↦ rw e le
  | inl e ↦
      let inside : c ≤ len = ground arith in
      let at : c + (len - c) ≡ len = omega arith in
      let word =
        until_zero-le (drop c str) (len - c)
          (get_or-drop_at str c (len - c) ∙ ap (λ i. get_or str i 0) at ∙ end) in
      let d = c + until_zero (drop c str) in
      let gap = zeros-take (len + 1 - d) (drop d str) in rw e (omega arith)
]

get_or-append_end : (xs ys : Bytes) → get_or (xs ++ (0 ∷ ys)) (length xs) 0 ≡ 0
get_or-append_end [] ys = refl
get_or-append_end (x ∷ xs) ys = get_or-append_end xs ys

get_or-append_behind : (xs ys : Bytes) → get_or (xs ++ (0 ∷ ys)) (length xs + 1) 0 ≡ get_or ys 0 0
get_or-append_behind [] ys = refl
get_or-append_behind (x ∷ xs) ys =
    ap (λ i. get_or (x ∷ (xs ++ (0 ∷ ys))) i 0) {x = suc (length xs) + 1} {y = suc (length xs + 1)}
      (omega arith)
    ∙ get_or-append_behind xs ys

abbrev pub Finishes : Parsed → Type 0
Finishes p = p ≢ out_of_fuel

redirect_output-Finishes :
    (symbol : Bytes → Bool) (flag : ℕ) (str : Bytes) (c : ℕ) (line : Line) (go_on : Line → Parsed)
    → ((l : Line) → Finishes (go_on l))
    → Finishes (redirect_output symbol flag str c line go_on)
unfolding redirect_output
redirect_output-Finishes symbol flag str c line go_on h = elim (Bool-cases (line.oflag == 0)) [
  | inr e ↦ rw (e, redirect_output) (λ q. cc)
  | inl e ↦ elim (Bool-cases (symbol (text_at str c))) [
    | inl s ↦ rw (e, s, redirect_output) (λ q. cc)
    | inr s ↦ elim (Bool-cases (length (text_at str c) == 0)) [
      | inl n ↦ rw (e, s, n, redirect_output) (λ q. cc)
      | inr n ↦ rw (e, s, n, redirect_output) (h _)
    ]
  ]
]

redirect_input-Finishes :
    (str : Bytes) (c : ℕ) (line : Line) (go_on : Line → Parsed)
    → ((l : Line) → Finishes (go_on l))
    → Finishes (redirect_input str c line go_on)
unfolding redirect_input
redirect_input-Finishes str c line go_on h = elim (Bool-cases (line.iflag == 0)) [
  | inr e ↦ rw (e, redirect_input) (λ q. cc)
  | inl e ↦ elim (Bool-cases (all_symbols (text_at str c))) [
    | inl s ↦ rw (e, s, redirect_input) (λ q. cc)
    | inr s ↦ elim (Bool-cases (length (text_at str c) == 0)) [
      | inl n ↦ rw (e, s, n, redirect_input) (λ q. cc)
      | inr n ↦ rw (e, s, n, redirect_input) (h _)
    ]
  ]
]

-- A buffer with the terminator at `len`, and another 0 behind it.
module _ (str : Bytes) (len : ℕ) (end : get_or str len 0 ≡ 0)
    (behind : get_or str (len + 1) 0 ≡ 0) where
  -- A turn of the loop that moves past `b`.
  word_at-Finishes :
      (b c : ℕ) (line : Line) (go_on : ℕ → Line → Parsed)
      → c ≤ len + 1
      → b < find_next str c len
      → ((e : ℕ) (l : Line) → b < e → e ≤ len + 1 → Finishes (go_on e l))
      → Finishes (word_at str len c line go_on)
  unfolding word_at
  word_at-Finishes b c line go_on le lt h =
      let d = find_next str c len in
      let bound = find_next-bound str c len end le in
      let further = find_next-le str d len in
      let bound' = find_next-bound str d len end bound in
      let on : (l : Line) → Finishes (go_on (find_next str d len) l) =
        λ l. h _ l (omega (arith, lt, further)) bound' in
      elim (Bool-cases (is_text (text_at str c) (codes ">>"))) [
        | inl e ↦ rw (e, word_at) (redirect_output-Finishes any_symbol 2 str d line _ on)
        | inr e ↦ elim (Bool-cases (is_text (text_at str c) (codes ">"))) [
          | inl e1 ↦ rw (e, e1, word_at) (redirect_output-Finishes all_symbols 1 str d line _ on)
          | inr e1 ↦ elim (Bool-cases (is_text (text_at str c) (codes "<"))) [
            | inl e2 ↦ rw (e, e1, e2, word_at) (redirect_input-Finishes str d line _ on)
            | inr e2 ↦ rw (e, e1, e2, word_at) (h d _ lt bound)
          ]
        ]
      ]

  ampersand-lt :
      (c : ℕ) (line : Line)
      → c ≤ len
      → get_or str c 0 ≢ 0
      → ((ampersand str len c line).0 ≤ len + 1)
        × (c < find_next str (ampersand str len c line).0 len)
  unfolding ampersand
  ampersand-lt c line le h =
      let once = find_next-lt str c len le h in
      let bound = find_next-bound str c len end (omega arith) in
      let twice = find_next-le str (find_next str c len) len in
      elim (Bool-cases
        (is_text (text_at str c) (codes "&") && eqb_ℤ (pos (length line.argc + 1)) line.narg)) [
          | inl e ↦ rw (e, ampersand) (bound, omega (arith, once, twice))
          | inr e ↦ rw (e, ampersand) (omega arith, once)
        ]

  parse_words-Finishes :
      (fuel c : ℕ) (line : Line)
      → 0 < fuel
      → c ≤ len + 1
      → len < fuel + c
      → Finishes (parse_words fuel str len c line)
  unfolding parse_words
  parse_words-Finishes zero c line h le k = absurd (omega arith)
  parse_words-Finishes (suc fuel) c line h le k = elim (Bool-cases (get_or str c 0 == 0)) [
    | inl e ↦ rw (e, parse_words) (λ q. cc)
    | inr e ↦
        let byte : get_or str c 0 ≢ 0 = ground arith in
        let not_end : c ≢ len = λ q. byte (ap (λ i. get_or str i 0) q ∙ end) in
        let not_behind : c ≢ len + 1 = λ q. byte (ap (λ i. get_or str i 0) q ∙ behind) in
        let inside : c < len = ground (arith, not_end, not_behind) in
        let (d, line') = ampersand str len c line in
        let (bound, on) = ampersand-lt c line (omega arith) byte in
        rw (e, parse_words)
          (word_at-Finishes c d line' (parse_words fuel str len) bound on
            (λ e l lt le'. parse_words-Finishes fuel e l (omega arith) le' (omega arith)))
  ]

-- Where the byte behind the line's terminator is 0, `parse` ends on every line, with a result or
-- with an error, after at most two turns of its loop more than the line has bytes.
pub parse-Finishes :
    (line behind : Bytes)
    → get_or behind 0 0 ≡ 0
    → Finishes (parse (length (mark_words false line).0 + 2) line behind)
unfolding parse
parse-Finishes line behind h = elim (Bool-cases ((mark_words false line).1 == 0)) [
  | inl e ↦ rw (e, parse) (λ q. cc)
  | inr e ↦
      let marked = (mark_words false line).0 in
      let str = marked ++ (0 ∷ behind) in
      rw (e, parse)
        (parse_words-Finishes str (length marked) (get_or-append_end marked behind)
          (get_or-append_behind marked behind ∙ h) _ _ _ (omega arith)
          (zeros-take (length marked + 1) str) (omega arith))
]
