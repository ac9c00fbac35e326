-- ===== src/OpenFiles/Opened.antt =====
-- Opening a file: the search over all parts of the list, and the file that is added.
use mysqlproxy.Base.{
  ◌∙◌, ℕ, zero, suc, ◌∙◌, ap, if◌then◌else◌, ◌+◌, ◌<◌, ◌≡◌, inl, inr, Option, none, some, List, [],
  ◌∷◌, ◌++◌, ◌==◌, arith, Bool-cases,
}
use mysqlproxy.Base.Runs.{Run, ok, fault, Returns, returns, Returns-weaken}
use mysqlproxy.Parts.{Parts, end_part, part, count}
use mysqlproxy.Parts.Push.{elements}
use mysqlproxy.OpenFiles.{OpenFile, find_in, first_count, find}
use mysqlproxy.OpenFiles.Names.{
  IsText, AreTexts, IsUnnamed, name_at, Found, nowhere, found, find_in-Found,
}

-- every part behind the first one holds an element
abbrev pub IsSolid : Parts OpenFile → Type 0
IsSolid (end_part xs) = Unit
IsSolid (part xs ps) = (0 < first_count ps) × IsSolid ps

-- the elements of all parts have names without a zero
abbrev pub ArePartTexts : Parts OpenFile → Type 0
ArePartTexts (end_part xs) = AreTexts xs
ArePartTexts (part xs ps) = AreTexts xs × ArePartTexts ps

name_at-here :
    (xs ys : List OpenFile) (j : ℕ) {n : List ℕ}
    → name_at xs j ≡ some n
    → name_at (xs ++ ys) j ≡ some n
name_at-here [] ys j h = cc
name_at-here (x ∷ xs) ys zero h = h
name_at-here (x ∷ xs) ys (suc j) h = name_at-here xs ys j h

pub name_at-behind :
    (xs ys : List OpenFile) (j : ℕ) → name_at (xs ++ ys) (count xs + j) ≡ name_at ys j
name_at-behind [] ys j = ap (name_at ys) (omega arith)
name_at-behind (x ∷ xs) ys j =
    let e : suc (count xs) + j ≡ suc (count xs + j) = omega arith in
    ap (name_at (x ∷ xs ++ ys)) e ∙ name_at-behind xs ys j

IsUnnamed-append :
    (full : List ℕ) (xs ys : List OpenFile)
    → IsUnnamed full xs
    → IsUnnamed full ys
    → IsUnnamed full (xs ++ ys)
IsUnnamed-append full [] ys u v = v
IsUnnamed-append full (x ∷ xs) ys u v = (u.0, IsUnnamed-append full xs ys u.1 v)

Found-here :
    (full : List ℕ) (i : ℕ) (xs ys : List OpenFile) (k : ℕ)
    → Found full i xs (some k)
    → Found full i (xs ++ ys) (some k)
Found-here full i xs ys k (found j _ e t) = found j k e (name_at-here xs ys j t)

Found-behind :
    (full : List ℕ) (i : ℕ) (xs ys : List OpenFile) (o : Option ℕ)
    → Found full i xs none
    → Found full (i + count xs) ys o
    → Found full i (xs ++ ys) o
Found-behind full i xs ys o (nowhere u) (nowhere v) = nowhere (IsUnnamed-append full xs ys u v)
Found-behind full i xs ys o (nowhere u) (found j k e t) =
    found (count xs + j) k (omega (arith, e)) (name_at-behind xs ys j ∙ t)

pub find-Found :
    (full : List ℕ) (i : ℕ) (ps : Parts OpenFile)
    → IsText full
    → ArePartTexts ps
    → IsSolid ps
    → Returns (Found full i (elements ps)) (find full i ps)
unfolding find
find-Found full i (end_part xs) t ts s = returns (find_in-Found full i xs t ts)
find-Found full i (part xs ps) t ts s =
    found_in (find_in full i xs) (find_in-Found full i xs t ts.0)
      (find-Found full (i + count xs) ps t ts.1 s.1)
  where
    found_in :
        (o : Option ℕ)
        → Found full i xs o
        → Returns (Found full (i + count xs) (elements ps)) (find full (i + count xs) ps)
        → Returns (Found full i (xs ++ elements ps)) (elim o as (λ _. Run (Option ℕ)) [
          | none ↦ if first_count ps == 0 then fault else find full (i + count xs) ps
          | some j ↦ ok (some j)
        ])
    found_in (some k) h r = returns (Found-here full i xs (elements ps) k h)
    found_in none h r = elim (Bool-cases (first_count ps == 0)) [
      | inl z ↦ absurd (ground (arith, s.0, z))
      | inr z ↦ rw z (Returns-weaken r (λ o v. Found-behind full i xs (elements ps) o h v))
    ]
