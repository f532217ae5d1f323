-- ===== src/Shell/Tests.antt =====
-- Concrete lines of the shell.
use c_course_projects.Common.{◌≡◌, refl, [], ◌∷◌, ◌++◌}
use c_course_projects.Common.Bytes.{Bytes, codes, isspace, strcmp}
use c_course_projects.Common.Int.{pos, ◌-ℤ◌}
use c_course_projects.Strings.{text_of}
use c_course_projects.Shell.Parse.{
  start_line, Line, parsed, parse, redirect_output, mark_words, zeros, find_next, until_zero,
  ampersand, word_at, parse_words,
}
use c_course_projects.Shell.Total.{Finishes, parse-Finishes}
use c_course_projects.Shell.Symbols.{redirects-unchecked}

parse-Finishes_example : Finishes (parse 19 (codes "cat < in > out &\n") (0 ∷ []))
unfolding mark_words isspace
parse-Finishes_example = parse-Finishes (codes "cat < in > out &\n") (0 ∷ []) refl

-- The line is cut into its words, with its terminator and a 0 behind it.
abbrev words : Bytes
words = codes "ls" ++ (0 ∷ (codes ">" ++ (0 ∷ codes "<"))) ++ (0 ∷ 0 ∷ [])

abbrev fresh : Line
fresh = start_line 3

-- The line `ls > < <`: `>` is at index 3, and the first `<` at index 5.
abbrev both : Bytes
both = codes "ls" ++ (0 ∷ (codes ">" ++ (0 ∷ (codes "<" ++ (0 ∷ (codes "<" ++ (0 ∷ 0 ∷ [])))))))

redirects-unchecked_example :
    (word_at both 8 3 fresh (λ d. parsed both)
      ≡ parsed both (record fresh { oflag = 1; narg = fresh.narg -ℤ pos 2; oname = codes "<" }))
    × (word_at both 8 5 fresh (λ d. parsed both)
        ≡ parsed both (record fresh { iflag = 3; narg = fresh.narg -ℤ pos 2; iname = codes "<" }))
unfolding text_of find_next until_zero zeros
redirects-unchecked_example =
    redirects-unchecked both 8 3 5 fresh (λ d. parsed both) refl refl refl refl (λ e. cc) (λ e. cc)

-- Where the file name should be there is a symbol: the line is accepted.
symbol_accepted :
    parse 8 (codes "ls > <") (0 ∷ [])
    ≡ parsed words (record fresh { oflag = 1; narg = pos 1; oname = codes "<"; argc = 0 ∷ [] })
unfolding parse mark_words zeros find_next until_zero ampersand word_at redirect_output parse_words
    text_of ◌-ℤ◌ isspace strcmp
symbol_accepted = refl
