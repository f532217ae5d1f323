-- ===== src/Shell/Symbols.antt =====
-- The tests of `parse` for a redirection symbol in the place of a file name.
use c_course_projects.Common.{
  ℕ, ◌≡◌, ◌≢◌, refl, ◌∙◌, sym, subst, false, [], ◌∷◌, arith, Bool-cases, inl, inr, ◌==◌, length,
}
use c_course_projects.Common.Bytes.{Bytes, codes, strcmp, eq_of_strcmp}
use c_course_projects.Common.Int.{pos, ◌-ℤ◌}
use c_course_projects.Strings.{text_at}
use c_course_projects.Shell.Parse.{
  find_next, word_at, Line, Parsed, is_text, all_symbols, redirect_output, redirect_input,
}

-- No text is three texts at once.
all_symbols-false : (s : Bytes) → all_symbols s ≡ false
unfolding strcmp
all_symbols-false s = elim (Bool-cases (is_text s (codes ">>"))) [
  | inl e ↦
      let at : s ≡ codes ">>" = eq_of_strcmp s (codes ">>") (ground arith) in
      subst (λ t. all_symbols t ≡ false) (sym at) refl
  | inr e ↦ rw e refl
]

nonempty : (s : Bytes) → s ≢ [] → (length s == 0) ≡ false
nonempty [] h = absurd (h refl)
nonempty (c ∷ s) h = ground arith

-- The branches of `word_at` for a word that is `>` or `<`.
word_at-output :
    (str : Bytes) (len c : ℕ) (line : Line) (go_on : ℕ → Line → Parsed)
    → text_at str c ≡ codes ">"
    → word_at str len c line go_on
      ≡ redirect_output all_symbols 1 str
          (find_next str c len)
          line
          (go_on (find_next str (find_next str c len) len))
unfolding word_at strcmp
word_at-output str len c line go_on e = rw (e, word_at) refl

word_at-input :
    (str : Bytes) (len c : ℕ) (line : Line) (go_on : ℕ → Line → Parsed)
    → text_at str c ≡ codes "<"
    → word_at str len c line go_on
      ≡ redirect_input str
          (find_next str c len)
          line
          (go_on (find_next str (find_next str c len) len))
unfolding word_at strcmp
word_at-input str len c line go_on e = rw (e, word_at) refl

-- At the word `>`, where no output file is known, and at the word `<`, where no input file is,
-- `parse` takes any next word that is not empty for the name of the file and goes on behind it,
-- a redirection symbol too.
pub redirects-unchecked :
    (str : Bytes) (len c c' : ℕ) (line : Line) (go_on : ℕ → Line → Parsed)
    → text_at str c ≡ codes ">"
    → text_at str c' ≡ codes "<"
    → line.oflag ≡ 0
    → line.iflag ≡ 0
    → text_at str (find_next str c len) ≢ []
    → text_at str (find_next str c' len) ≢ []
    → (word_at str len c line go_on
        ≡ go_on (find_next str (find_next str c len) len) (record line {
          oflag = 1;
          narg = line.narg -ℤ pos 2;
          oname = text_at str (find_next str c len);
        }))
      × (word_at str len c' line go_on
          ≡ go_on (find_next str (find_next str c' len) len) (record line {
            iflag = 3;
            narg = line.narg -ℤ pos 2;
            iname = text_at str (find_next str c' len);
          }))
unfolding redirect_output redirect_input
redirects-unchecked str len c c' line go_on out in_ ho hi ne ne' =
    let d = find_next str c len in
    let d' = find_next str c' len in
    (
      word_at-output str len c line go_on out
          ∙ rw (ho, redirect_output, all_symbols-false (text_at str d), nonempty (text_at str d) ne)
              refl,
      word_at-input str len c' line go_on in_
          ∙ rw
              (
                hi,
                redirect_input,
                all_symbols-false (text_at str d'),
                nonempty (text_at str d') ne',
              )
              refl,
    )
