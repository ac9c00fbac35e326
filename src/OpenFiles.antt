-- ===== src/OpenFiles.antt =====
-- core/spy_conf_file.c: the list of open files, and the full names of files. A string is the list of
-- the bytes in front of its terminator.
pub mod Names
pub mod Opened
pub mod Added
pub mod Answers
mod Tests
use mysqlproxy.Base.{
  ℕ, zero, suc, ◌+◌, Bool, true, false, ◌&&◌, Option, none, some, List, [], ◌∷◌, ◌++◌, ◌==◌,
  map_option, if◌then◌else◌,
}
use mysqlproxy.Base.Runs.{Run, ok, fault, ◌>>=◌}
use mysqlproxy.Parts.{Parts, end_part, part, PartList, count, push}

-- `spy_open_file_s`, less its buffer
pub record OpenFile : Type 0 where
  pub fd : Option ℕ
  pub name : List ℕ

-- `spy_strcmp(a, b) == 0`: up to the first zero, or the terminator, of both
unfoldable pub strcmp : List ℕ → List ℕ → Bool
strcmp [] [] = true
strcmp [] (b ∷ bs) = b == 0
strcmp (a ∷ xs) [] = a == 0
strcmp (a ∷ xs) (b ∷ bs) =
    let rest = strcmp xs bs in if a == b then (if a == 0 then true else rest) else false

-- the two tests in the loop of `spy_conf_open_file`
abbrev pub same_name : List ℕ → List ℕ → Bool
same_name a b = (count a == count b) && strcmp a b

-- `spy_conf_test_full_name`: whether it gives SPY_OK; `data[0]` of an empty name is its terminator
abbrev pub test_full_name : List ℕ → Bool
test_full_name [] = false
test_full_name (c ∷ cs) = c == b'/'

-- what was in the memory before, from place `i` on
abbrev pub remains : (ℕ → ℕ) → ℕ → List ℕ → List ℕ
remains stale i [] = []
remains stale i (c ∷ cs) = stale i ∷ remains stale (suc i) cs

-- the bytes that `spy_cpystrn` leaves in the room for a string: the string up to its first zero, and
-- behind that what was there
abbrev pub copied : (ℕ → ℕ) → ℕ → List ℕ → List ℕ
copied stale i [] = []
copied stale i (c ∷ cs) = c ∷ (if c == 0 then remains stale (suc i) cs else copied stale (suc i) cs)

-- `spy_conf_full_name`, where `prefix` is the one that `conf_prefix` chooses, and `room` the memory that
-- the pool has for the name, if any
abbrev pub full_name : List ℕ → Option (ℕ → ℕ) → List ℕ → Option (List ℕ)
full_name prefix room name =
    if test_full_name name
    then some name
    else map_option (λ stale. prefix ++ copied stale (count prefix) name) room

-- the loop over the elements of a part, from number `i` of the list on
unfoldable pub find_in : List ℕ → ℕ → List OpenFile → Option ℕ
find_in full i [] = none
find_in full i (f ∷ fs) =
    let rest = find_in full (suc i) fs in if same_name full f.name then some i else rest

abbrev pub first_count : Parts OpenFile → ℕ
first_count (end_part xs) = count xs
first_count (part xs ps) = count xs

-- The loop of `spy_conf_open_file`, over the parts. Moving on to a part it reads the first element
-- without a test.
unfoldable pub find : List ℕ → ℕ → Parts OpenFile → Run (Option ℕ)
unfolding find_in
find full i (end_part xs) = ok (find_in full i xs)
find full i (part xs ps) =
    let behind = if first_count ps == 0 then fault else find full (i + count xs) ps in
    elim (find_in full i xs) as (λ _. Run (Option ℕ)) [ none ↦ behind | some j ↦ ok (some j) ]

-- how many elements there are
abbrev pub total : Parts OpenFile → ℕ
total (end_part xs) = count xs
total (part xs ps) = count xs + total ps

-- `file = spy_list_push(&global->open_files)`, filled in with `f`
abbrev pub add_file : Bool → Bool → PartList OpenFile → OpenFile → Option ℕ × PartList OpenFile
add_file got_part got_elements l f = elim (push got_part got_elements l f) [
  | none ↦ (none, l)
  | some l' ↦ (some (total l.parts), l')
]

-- `spy_stderr`
abbrev pub stderr_fd : ℕ
stderr_fd = 2

-- `spy_conf_open_file` from the search on, which adds the file if no element has its name
unfoldable pub search_or_add :
    Bool → Bool → PartList OpenFile → List ℕ → Run (Option ℕ × PartList OpenFile)
search_or_add got_part got_elements l full = find full 0 l.parts >>= λ o.
    elim o as (λ _. Run (Option ℕ × PartList OpenFile)) [
      | some j ↦ ok (some j, l)
      | none ↦ ok (add_file got_part got_elements l (record { fd = none; name = full }))
    ]

-- `spy_conf_open_file`: the number of the file in the list
unfoldable pub open_file :
    List ℕ
    → Option (ℕ → ℕ)
    → Bool
    → Bool
    → PartList OpenFile
    → List ℕ
    → Run (Option ℕ × PartList OpenFile)
open_file prefix room got_part got_elements l [] =
    ok (add_file got_part got_elements l (record { fd = some stderr_fd; name = [] }))
open_file prefix room got_part got_elements l (c ∷ cs) =
    elim (full_name prefix room (c ∷ cs)) as (λ _. Run (Option ℕ × PartList OpenFile)) [
      | none ↦ ok (none, l)
      | some full ↦ search_or_add got_part got_elements l full
    ]
