-- ===== src/OpenFiles/Names.antt =====
-- Comparing names, and the search for one in the list of open files.
use mysqlproxy.Base.{
  ℕ, zero, suc, ◌+◌, ◌≡◌, ◌∙◌, sym, subst, ap, refl, inl, inr, true, false, Option, none, some,
  List, [], ◌∷◌, ◌==◌, arith, Bool-cases,
}
use mysqlproxy.OpenFiles.{OpenFile, strcmp, same_name, find_in}

-- no byte is zero
abbrev pub IsText : List ℕ → Type 0
IsText [] = Unit
IsText (c ∷ cs) = ((c == 0) ≡ false) × IsText cs

strcmp-eq : (a b : List ℕ) → IsText a → IsText b → strcmp a b ≡ true → a ≡ b
unfolding strcmp
strcmp-eq [] [] p q h = refl
strcmp-eq [] (b ∷ bs) p q h = absurd (ground (arith, q.0))
strcmp-eq (a ∷ xs) [] p q h = absurd (ground (arith, p.0))
strcmp-eq (a ∷ xs) (b ∷ bs) p q h =
    ap (λ (c : ℕ). c ∷ xs) same_head
    ∙ ap (λ (l : List ℕ). b ∷ l) (strcmp-eq xs bs p.1 q.1 same_tail)
  where
    same_head : a ≡ b
    same_head = ground (arith, p.0, h)

    same_tail : strcmp xs bs ≡ true
    same_tail = ground (arith, p.0, h)

strcmp_self : (a : List ℕ) → strcmp a a ≡ true
unfolding strcmp
strcmp_self [] = refl
strcmp_self (a ∷ xs) = ground (arith, strcmp_self xs)

abbrev pub AreTexts : List OpenFile → Type 0
AreTexts [] = Unit
AreTexts (f ∷ fs) = IsText f.name × AreTexts fs

-- no file has the name
abbrev pub IsUnnamed : List ℕ → List OpenFile → Type 0
IsUnnamed full [] = Unit
IsUnnamed full (f ∷ fs) = (¬ (full ≡ f.name)) × IsUnnamed full fs

-- the name of element `j`
abbrev pub name_at : List OpenFile → ℕ → Option (List ℕ)
name_at [] j = none
name_at (f ∷ fs) zero = some f.name
name_at (f ∷ fs) (suc j) = name_at fs j

-- what the search in a sequence finds, whose first element has number `i`
pub data Found (full : List ℕ) (i : ℕ) (fs : List OpenFile) : Option ℕ → Type 0 where
  nowhere : IsUnnamed full fs → Found full i fs none
  found : (j k : ℕ) → k ≡ i + j → name_at fs j ≡ some full → Found full i fs (some k)

same_name-eq : (a b : List ℕ) → IsText a → IsText b → same_name a b ≡ true → a ≡ b
same_name-eq a b p q h = strcmp-eq a b p q (ground (arith, h))

same_name-differ : (a b : List ℕ) → same_name a b ≡ false → ¬ (a ≡ b)
same_name-differ a b h e =
    absurd (ground (arith, subst (λ (x : List ℕ). same_name a x ≡ false) (sym e) h, strcmp_self a))

Found-later :
    (full : List ℕ) (i : ℕ) (f : OpenFile) (fs : List OpenFile) (o : Option ℕ)
    → ¬ (full ≡ f.name)
    → Found full (suc i) fs o
    → Found full i (f ∷ fs) o
Found-later full i f fs o n (nowhere u) = nowhere (n, u)
Found-later full i f fs o n (found j k e t) = found (suc j) k (omega (arith, e)) t

pub find_in-Found :
    (full : List ℕ) (i : ℕ) (fs : List OpenFile)
    → IsText full
    → AreTexts fs
    → Found full i fs (find_in full i fs)
unfolding find_in
find_in-Found full i [] t ts = nowhere tt
find_in-Found full i (f ∷ fs) t ts = elim (Bool-cases (same_name full f.name)) [
  | inl h ↦ rw h (found 0 i (omega arith) (ap some (sym (same_name-eq full f.name t ts.0 h))))
  | inr h ↦ rw h (
      Found-later full i f fs (find_in full (suc i) fs) (same_name-differ full f.name h)
        (find_in-Found full (suc i) fs t ts.1))
]
