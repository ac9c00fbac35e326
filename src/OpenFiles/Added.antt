-- ===== src/OpenFiles/Added.antt =====
-- What opening a file does to the list of open files.
use mysqlproxy.Base.{
  ℕ, ◌+◌, ◌<◌, ◌≡◌, refl, inl, inr, Bool, false, ◌&&◌, Option, none, some, List, [], ◌∷◌, ◌++◌,
  ◌==◌, arith, Bool-cases, map_option,
}
use mysqlproxy.Parts.{Parts, end_part, part, PartList, count, push_part, push}
use mysqlproxy.Parts.Push.{elements, IsFilled, Pushed, refused, pushed, part-Pushed}
use mysqlproxy.OpenFiles.{OpenFile, first_count, total, add_file}
use mysqlproxy.OpenFiles.Names.{IsText, AreTexts, IsUnnamed, name_at}
use mysqlproxy.OpenFiles.Opened.{IsSolid, ArePartTexts}

-- a list of open files as the code keeps it
abbrev pub IsOpenFiles : ℕ → Parts OpenFile → Type 0
IsOpenFiles n ps = IsFilled n ps × IsSolid ps × ArePartTexts ps

-- what a push on the parts `ps` keeps
abbrev AreKept : Parts OpenFile → Option (Parts OpenFile) → Type 0
AreKept ps none = Unit
AreKept ps (some qs) = (0 < first_count ps → 0 < first_count qs) × IsSolid qs × ArePartTexts qs

AreTexts-snoc :
    (xs : List OpenFile) (f : OpenFile) → AreTexts xs → IsText f.name → AreTexts (xs ++ f ∷ [])
AreTexts-snoc [] f t u = (u, tt)
AreTexts-snoc (x ∷ xs) f t u = (t.0, AreTexts-snoc xs f t.1 u)

AreKept-part :
    (xs : List OpenFile) (ps : Parts OpenFile) (o : Option (Parts OpenFile))
    → 0 < first_count ps
    → AreTexts xs
    → AreKept ps o
    → AreKept (part xs ps) (map_option (part xs) o)
AreKept-part xs ps none h t k = tt
AreKept-part xs ps (some qs) h t k = ((λ z. z), (k.0 h, k.1), (t, k.2))

push_part-AreKept :
    (got got' : Bool) (n : ℕ) (ps : Parts OpenFile) (f : OpenFile)
    → IsSolid ps
    → ArePartTexts ps
    → IsText f.name
    → AreKept ps (push_part got got' n ps f)
unfolding push_part
push_part-AreKept got got' n (end_part xs) f s t u = elim (Bool-cases (count xs == n)) [
  | inr e ↦ rw (push_part, e) ((λ z. some_count xs), tt, AreTexts-snoc xs f t u)
  | inl e ↦ elim (Bool-cases (got && got')) [
    | inr g ↦ rw (push_part, e, g) tt
    | inl g ↦ rw (push_part, e, g) ((λ z. z), (omega arith, tt), (t, (u, tt)))
  ]
]
  where
    some_count : (ys : List OpenFile) → 0 < count (ys ++ f ∷ [])
    some_count [] = omega arith
    some_count (y ∷ ys) = omega arith
push_part-AreKept got got' n (part xs ps) f s t u =
    AreKept-part xs ps (push_part got got' n ps f) s.0 t.0
      (push_part-AreKept got got' n ps f s.1 t.1 u)

count-append : (xs ys : List OpenFile) → count (xs ++ ys) ≡ count xs + count ys
count-append [] ys = omega arith
count-append (x ∷ xs) ys = omega (arith, count-append xs ys)

total-count : (ps : Parts OpenFile) → total ps ≡ count (elements ps)
total-count (end_part xs) = refl
total-count (part xs ps) = omega (arith, count-append xs (elements ps), total-count ps)

-- what adding the file `f` answers
pub data Added (got : Bool) (l : PartList OpenFile) (f : OpenFile)
    : Option ℕ × PartList OpenFile → Type 0 where
  not_added : got ≡ false → Added got l f (none, l)
  added :
      {l' : PartList OpenFile}
      → elements l'.parts ≡ elements l.parts ++ f ∷ []
      → IsOpenFiles l.nalloc l'.parts
      → l'.nalloc ≡ l.nalloc
      → Added got l f (some (count (elements l.parts)), l')

-- what opening a file under its full name answers
pub data Opened (got : Bool) (l : PartList OpenFile) (full : List ℕ)
    : Option ℕ × PartList OpenFile → Type 0 where
  known : (j : ℕ) → name_at (elements l.parts) j ≡ some full → Opened got l full (some j, l)
  opened :
      {r : Option ℕ × PartList OpenFile}
      → IsUnnamed full (elements l.parts)
      → Added got l (record { fd = none; name = full }) r
      → Opened got l full r

pub add_file-Added :
    (got got' : Bool) (l : PartList OpenFile) (f : OpenFile)
    → 0 < l.nalloc
    → IsOpenFiles l.nalloc l.parts
    → IsText f.name
    → Added (got && got') l f (add_file got got' l f)
unfolding push
add_file-Added got got' l f h i u =
    answered (push_part got got' l.nalloc l.parts f) (part-Pushed got got' l.nalloc l.parts f h i.0)
      (push_part-AreKept got got' l.nalloc l.parts f i.1 i.2 u)
  where
    answered :
        (o : Option (Parts OpenFile))
        → Pushed (got && got') l.nalloc l.parts f o
        → AreKept l.parts o
        → Added
            (got && got')
            l
            f
            (elim (map_option (λ ps. record l { parts = ps }) o)
              as (λ _. Option ℕ × PartList OpenFile) [
                | none ↦ (none, l)
                | some l' ↦ (some (total l.parts), l')
              ])
    answered none (refused t) k = not_added t
    answered (some qs) (pushed t v) k = rw (total-count l.parts) (added t (v, k.1, k.2) refl)
