-- ===== src/Reopen/Tests.antt =====
-- Three files in two parts, of which the last one cannot be opened.
use mysqlproxy.Base.{
  ◌+◌, ℕ, Bool, true, Option, none, some, List, [], ◌∷◌, ◌++◌, ◌==◌, arith, ◌≡◌, refl,
  if◌then◌else◌,
}
use mysqlproxy.Base.Runs.{ok, ◌>>=◌, Returns}
use mysqlproxy.Parts.{Parts, end_part, part}
use mysqlproxy.Parts.Push.{elements}
use mysqlproxy.OpenFiles.{OpenFile}
use mysqlproxy.Reopen.{Walk, open_in, walk, close_in, close_files, try_files}
use mysqlproxy.Reopen.Walked.{passed, try_files-closed}

abbrev file : ℕ → OpenFile
file c = record { fd = none; name = b'/' ∷ c ∷ [] }

abbrev three_files : Parts OpenFile
three_files = part (file 97 ∷ []) (end_part (file 98 ∷ file 99 ∷ []))

abbrev fds : ℕ → Option ℕ
fds k = if k == 2 then none else some (k + 5)

abbrev sets : ℕ → Bool
sets k = true

-- descriptor 5 is not among those that are closed
closed_only_6 : (try_files fds sets three_files >>= λ r. ok r.1) ≡ ok (6 ∷ [])
unfolding try_files walk open_in close_files close_in
closed_only_6 = refl

try_files-closed_example :
    Returns
      (λ (r : Walk fds sets × List ℕ).
        (record { files = elements r.0.parts; failed = r.0.failed }
          ≡ open_in fds sets 0 (elements three_files))
        × (close_in (elements r.0.parts) ≡ close_in (passed fds sets 0 three_files) ++ r.1))
      (try_files fds sets three_files)
try_files-closed_example = try_files-closed fds sets three_files (omega arith, tt)
