-- ===== src/Strings/Tests.antt =====
-- Concrete runs of the string functions.
use c_course_projects.Common.{true, false, arith}
use c_course_projects.Common.Bytes.{Bytes, codes}
use c_course_projects.Strings.{strspn, strcspn, strncmp, strstr}
use c_course_projects.Strings.Span.{IsSpan, spans-IsSpan}
use c_course_projects.Strings.Compare.{IsText, Compares, strncmp-Compares}
use c_course_projects.Strings.Find.{Finds, strstr-Finds}

abbrev hay : Bytes
hay = codes "abab,c"

abbrev pin : Bytes
pin = codes "ab,"

hay-IsText : IsText hay
hay-IsText = ground arith

pin-IsText : IsText pin
pin-IsText = ground arith

spans-IsSpan_example :
    IsSpan true (codes "ab") hay (strspn hay (codes "ab"))
    × IsSpan false (codes "ab") hay (strcspn hay (codes "ab"))
spans-IsSpan_example = spans-IsSpan hay (codes "ab")

strncmp-Compares_example : Compares hay pin 5 (strncmp hay pin 5)
strncmp-Compares_example = strncmp-Compares hay pin 5 hay-IsText pin-IsText

strstr-Finds_example : Finds hay pin (strstr hay pin)
strstr-Finds_example = strstr-Finds hay pin hay-IsText pin-IsText (λ e. cc)
