-- ===== src/OpenFiles/Tests.antt =====
-- A list of two files in two parts, and a name that needs the prefix.
use mysqlproxy.Base.{ℕ, true, ◌&&◌, some, List, [], ◌∷◌, none, arith, ◌≡◌, refl}
use mysqlproxy.Base.Runs.{Returns, ok}
use mysqlproxy.Parts.{PartList, end_part, part}
use mysqlproxy.OpenFiles.{OpenFile, open_file, search_or_add, find, strcmp, find_in}
use mysqlproxy.OpenFiles.Answers.{Answer, open_file-Answer}

abbrev in_root : OpenFile
in_root = record { fd = none; name = b'/' ∷ b'a' ∷ [] }

abbrev in_prefix : OpenFile
in_prefix = record { fd = none; name = b'/' ∷ b'p' ∷ b'/' ∷ b'b' ∷ [] }

abbrev two_files : PartList OpenFile
two_files = record { parts = part (in_root ∷ []) (end_part (in_prefix ∷ [])); nalloc = 1 }

abbrev prefix : List ℕ
prefix = b'/' ∷ b'p' ∷ b'/' ∷ []

open_b : open_file prefix (some λ i. 9) true true two_files (b'b' ∷ []) ≡ ok (some 1, two_files)
unfolding open_file search_or_add find strcmp find_in
open_b = refl

open_file-Answer_example :
    Returns
      (Answer prefix (some λ i. 9) (true && true) two_files (b'c' ∷ []))
      (open_file prefix (some λ i. 9) true true two_files (b'c' ∷ []))
open_file-Answer_example =
    open_file-Answer prefix (some λ i. 9) true true two_files (b'c' ∷ []) (omega arith)
      (
        (refl, omega arith),
        (omega arith, tt),
        (((refl, (refl, tt)), tt), ((refl, (refl, (refl, (refl, tt)))), tt)),
      )
      (refl, (refl, (refl, tt))) (refl, tt)
