-- ===== src/Reopen.antt =====
-- core/spy_global.c: how a new configuration opens its files, closes those of the old one, and closes
-- its own when it is given up. The files are numbered through all parts of the list.
pub mod Walked
mod Tests
use mysqlproxy.Base.{
  ℕ, suc, ◌+◌, Bool, true, false, Option, none, some, List, [], ◌∷◌, ◌++◌, ◌==◌, if◌then◌else◌,
}
use mysqlproxy.Base.Runs.{Run, ok, fault, ◌>>=◌}
use mysqlproxy.Parts.{Parts, end_part, part, count}
use mysqlproxy.OpenFiles.{OpenFile, stderr_fd, first_count, total}

-- how many elements the list of open files is created for
abbrev pub file_room : Parts OpenFile → ℕ
file_room ps = if first_count ps == 0 then 20 else total ps

-- a part after the loop, and whether the loop has left by `goto failed`
pub record Opening : Type 0 where
  pub files : List OpenFile
  pub failed : Bool

-- One file `f`, in front of `fs`: by its name, by what open() answers, and by whether fcntl() succeeds;
-- `rest` is what becomes of `fs` where the loop goes on.
abbrev pub open_one : List ℕ → Option ℕ → Bool → OpenFile → List OpenFile → Opening → Opening
open_one [] o b f fs rest = record rest { files = f ∷ rest.files }
open_one (c ∷ cs) none b f fs rest = record { files = record f { fd = none } ∷ fs; failed = true }
open_one (c ∷ cs) (some s) false f fs rest = record {
  files = record f { fd = some s } ∷ fs;
  failed = true;
}
open_one (c ∷ cs) (some s) true f fs rest = record rest {
  files = record f { fd = some s } ∷ rest.files;
}

-- What open() answers for file number `k`, and whether fcntl() then succeeds, are `fds k` and `sets k`.
module _ (fds : ℕ → Option ℕ) (sets : ℕ → Bool) where
  -- the loop that opens the files of a part, from number `k` on
  unfoldable pub open_in : ℕ → List OpenFile → Opening
  open_in k [] = record { files = []; failed = false }
  open_in k (f ∷ fs) = open_one f.name (fds k) (sets k) f fs (open_in (suc k) fs)

  -- the list after the loop, the part of it from `part` on, and whether the loop has failed
  pub record Walk : Type 0 where
    pub parts : Parts OpenFile
    pub rest : Parts OpenFile
    pub failed : Bool

  -- The loop over the parts. Moving on to a part it uses the first element without a test.
  unfoldable pub walk : ℕ → Parts OpenFile → Run Walk
  unfolding open_in
  walk k (end_part xs) =
      let o = open_in k xs in
      let ps = end_part o.files in ok (record { parts = ps; rest = ps; failed = o.failed })
  walk k (part xs ps) =
      let o = open_in k xs in
      let qs = part o.files ps in
      let behind = walk (k + count xs) ps in
      if o.failed
      then ok (record { parts = qs; rest = qs; failed = true })
      else if first_count ps == 0
      then fault
      else behind >>= λ w. ok (record w { parts = part o.files w.parts })

-- one file: its descriptor is closed, unless there is none or it is that of standard error
abbrev pub close_file : Option ℕ → List ℕ → List ℕ
close_file none rest = rest
close_file (some s) rest = if s == stderr_fd then rest else s ∷ rest

-- the descriptors that a loop of spy_close_file closes in a part
unfoldable pub close_in : List OpenFile → List ℕ
close_in [] = []
close_in (f ∷ fs) = close_file f.fd (close_in fs)

-- The loop over the parts, for the old configuration from the first part on, and behind `failed` from the
-- part on where the opening has stopped.
unfoldable pub close_files : Parts OpenFile → Run (List ℕ)
unfolding close_in
close_files (end_part xs) = ok (close_in xs)
close_files (part xs ps) =
    let behind = close_files ps in
    if first_count ps == 0 then fault else behind >>= λ fs. ok (close_in xs ++ fs)

-- opening the files and, from `failed` on, the roll back: the walk, and the descriptors that are closed
unfoldable pub try_files :
    (fds : ℕ → Option ℕ) (sets : ℕ → Bool) → Parts OpenFile → Run (Walk fds sets × List ℕ)
unfolding walk close_files
try_files fds sets ps = walk fds sets 0 ps >>= λ w. close_files w.rest >>= λ cs. ok (w, cs)
