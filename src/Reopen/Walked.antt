-- ===== src/Reopen/Walked.antt =====
-- The walks over the parts against loops over the sequence that the list stands for.
use mysqlproxy.Base.{
  ℕ, suc, ◌+◌, ◌<◌, ◌≡◌, ◌∙◌, sym, ap, refl, inl, inr, Bool, true, false, Option, none, some, List,
  [], ◌∷◌, ◌++◌, ◌==◌, if◌then◌else◌, arith, Bool-cases,
}
use mysqlproxy.Base.Runs.{ok, Returns, returns, Returns-then, Returns-branch}
use mysqlproxy.Parts.{Parts, end_part, part, count}
use mysqlproxy.Parts.Push.{elements, append_assoc}
use mysqlproxy.OpenFiles.{OpenFile, first_count, stderr_fd, total}
use mysqlproxy.OpenFiles.Opened.{IsSolid}
use mysqlproxy.Reopen.{
  Opening, open_one, open_in, Walk, walk, file_room, try_files, close_file, close_in, close_files,
}

close_file-append :
    (o : Option ℕ) (fs gs : List ℕ) → close_file o (fs ++ gs) ≡ close_file o fs ++ gs
close_file-append none fs gs = refl
close_file-append (some s) fs gs = elim (Bool-cases (s == stderr_fd)) [
  | inl z ↦ rw z refl
  | inr z ↦ rw z refl
]

close_in-append : (xs ys : List OpenFile) → close_in (xs ++ ys) ≡ close_in xs ++ close_in ys
unfolding close_in
close_in-append [] ys = refl
close_in-append (x ∷ xs) ys =
    ap (close_file x.fd) (close_in-append xs ys)
    ∙ close_file-append x.fd (close_in xs) (close_in ys)

pub close_files-closed :
    (ps : Parts OpenFile) → IsSolid ps → close_files ps ≡ ok (close_in (elements ps))
unfolding close_files
close_files-closed (end_part xs) s = refl
close_files-closed (part xs ps) s = elim (Bool-cases (first_count ps == 0)) [
  | inl z ↦ absurd (ground (arith, s.0, z))
  | inr z ↦ rw (z, close_files-closed ps s.1, close_in-append xs (elements ps)) refl
]

-- a loop over `xs ++ ys`, from the one over `xs` and, where that goes on, the one over `ys`
abbrev stitch : Opening → List OpenFile → Opening → Opening
stitch a ys b =
    if a.failed
    then record { files = a.files ++ ys; failed = true }
    else record { files = a.files ++ b.files; failed = b.failed }

stitch-open_one :
    (n : List ℕ) (o : Option ℕ) (t : Bool) (f : OpenFile) (xs ys : List OpenFile) (a b : Opening)
    → open_one n o t f (xs ++ ys) (stitch a ys b) ≡ stitch (open_one n o t f xs a) ys b
stitch-open_one [] o t f xs ys a b = elim (Bool-cases a.failed) [
  | inl z ↦ rw z refl
  | inr z ↦ rw z refl
]
stitch-open_one (c ∷ cs) none t f xs ys a b = refl
stitch-open_one (c ∷ cs) (some s) false f xs ys a b = refl
stitch-open_one (c ∷ cs) (some s) true f xs ys a b = elim (Bool-cases a.failed) [
  | inl z ↦ rw z refl
  | inr z ↦ rw z refl
]

-- the list of open files is created with room for an element
pub file_room-some : (ps : Parts OpenFile) → 0 < file_room ps
file_room-some ps = elim (Bool-cases (first_count ps == 0)) [
  | inl z ↦ rw z (omega arith)
  | inr z ↦ rw z (some_total ps z)
]
  where
    some_total : (qs : Parts OpenFile) → (first_count qs == 0) ≡ false → 0 < total qs
    some_total (end_part xs) y = ground (arith, y)
    some_total (part xs qs) y = ground (arith, y)

module _ (fds : ℕ → Option ℕ) (sets : ℕ → Bool) where
  open_in-append :
      (k : ℕ) (xs ys : List OpenFile)
      → open_in fds sets k (xs ++ ys)
        ≡ stitch (open_in fds sets k xs) ys (open_in fds sets (k + count xs) ys)
  unfolding open_in
  open_in-append k [] ys =
      let e : k ≡ k + 0 = omega arith in ap (λ (i : ℕ). open_in fds sets i ys) e
  open_in-append k (x ∷ xs) ys =
      let e : suc k + count xs ≡ k + suc (count xs) = omega arith in
      ap (open_one x.name (fds k) (sets k) x (xs ++ ys)) (open_in-append (suc k) xs ys)
      ∙ ap
          (λ (i : ℕ).
            open_one x.name (fds k) (sets k) x (xs ++ ys)
              (stitch (open_in fds sets (suc k) xs) ys (open_in fds sets i ys)))
          e
      ∙ stitch-open_one x.name (fds k) (sets k) x xs ys (open_in fds sets (suc k) xs)
          (open_in fds sets (k + suc (count xs)) ys)

  -- the elements of the parts that the walk has left behind when it stops
  abbrev pub passed : ℕ → Parts OpenFile → List OpenFile
  passed k (end_part xs) = []
  passed k (part xs ps) =
      if (open_in fds sets k xs).failed
      then []
      else (open_in fds sets k xs).files ++ passed (k + count xs) ps

  -- A walk against the loop over the sequence: what it makes of the elements, and where it has stopped.
  abbrev pub IsWalk : ℕ → Parts OpenFile → Walk fds sets → Type 0
  IsWalk k ps w =
      (record { files = elements w.parts; failed = w.failed } ≡ open_in fds sets k (elements ps))
      × (elements w.parts ≡ passed k ps ++ elements w.rest)
      × IsSolid w.rest

  IsWalk-stopped :
      (k : ℕ) (xs : List OpenFile) (ps : Parts OpenFile)
      → IsSolid (part xs ps)
      → (open_in fds sets k xs).failed ≡ true
      → IsWalk k (part xs ps) (record {
        parts = part (open_in fds sets k xs).files ps;
        rest = part (open_in fds sets k xs).files ps;
        failed = true;
      })
  IsWalk-stopped k xs ps s z = (sym (open_in-append k xs (elements ps) ∙ rw z refl), rw z refl, s)

  IsWalk-behind :
      (k : ℕ) (xs : List OpenFile) (ps : Parts OpenFile) (w : Walk fds sets)
      → (open_in fds sets k xs).failed ≡ false
      → IsWalk (k + count xs) ps w
      → IsWalk k (part xs ps) (record w { parts = part (open_in fds sets k xs).files w.parts })
  IsWalk-behind k xs ps w z (e, p, q) =
      let fs = (open_in fds sets k xs).files in
      let joined : Opening → Opening = λ o. record { files = fs ++ o.files; failed = o.failed } in
      (
        ap joined e ∙ sym (open_in-append k xs (elements ps) ∙ rw z refl),
        rw z (
            ap (λ (l : List OpenFile). fs ++ l) p
            ∙ sym (append_assoc fs (passed (k + count xs) ps) (elements w.rest))),
        q,
      )

  pub walk-IsWalk :
      (k : ℕ) (ps : Parts OpenFile) → IsSolid ps → Returns (IsWalk k ps) (walk fds sets k ps)
  unfolding walk
  walk-IsWalk k (end_part xs) s = returns (refl, refl, tt)
  walk-IsWalk k (part xs ps) s =
      Returns-branch (open_in fds sets k xs).failed (λ z. returns (IsWalk-stopped k xs ps s z))
        λ z.
          Returns-branch (first_count ps == 0) (λ y. absurd (ground (arith, s.0, y)))
            λ y.
              Returns-then (walk-IsWalk (k + count xs) ps s.1)
                λ w h. returns (IsWalk-behind k xs ps w z h)

  -- For a list of files in which no part behind the first one is empty, opening the files, and the roll
  -- back behind it, end. The walk over the parts does to the elements what one loop over their sequence
  -- does, up to the first file that fails. The descriptors that it leaves are, in order, those of the
  -- parts that it has passed, which the roll back does not close, and those that the roll back closes.
  pub try_files-closed :
      (ps : Parts OpenFile)
      → IsSolid ps
      → Returns
          (λ (r : Walk fds sets × List ℕ).
            (record { files = elements r.0.parts; failed = r.0.failed }
              ≡ open_in fds sets 0 (elements ps))
            × (close_in (elements r.0.parts) ≡ close_in (passed 0 ps) ++ r.1))
          (try_files fds sets ps)
  unfolding try_files
  try_files-closed ps s = Returns-then (walk-IsWalk 0 ps s) λ w h.
      rw (close_files-closed w.rest h.2)
        (returns (h.0, ap close_in h.1 ∙ close_in-append (passed 0 ps) (elements w.rest)))
