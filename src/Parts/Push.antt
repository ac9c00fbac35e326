-- ===== src/Parts/Push.antt =====
-- A list in parts stands for the sequence of its elements, and pushing appends to it.
use mysqlproxy.Base.{
  map_option, ℕ, suc, ◌≤◌, ◌<◌, ◌≡◌, inl, inr, ◌∙◌, sym, refl, ap, Bool, false, ◌&&◌, Option, none,
  some, List, [], ◌∷◌, ◌++◌, ◌==◌, arith, Bool-cases,
}
use mysqlproxy.Parts.{Parts, end_part, part, PartList, count, push_part, push}

module _ {ℓ} {A : Type ℓ} where
  -- the elements, in order
  abbrev pub elements : Parts A → List A
  elements (end_part xs) = xs
  elements (part xs ps) = xs ++ elements ps

  -- every part but the last one is full
  abbrev pub IsFilled : ℕ → Parts A → Type 0
  IsFilled n (end_part xs) = count xs ≤ n
  IsFilled n (part xs ps) = (count xs ≡ n) × IsFilled n ps

  pub append_assoc : (xs ys zs : List A) → (xs ++ ys) ++ zs ≡ xs ++ (ys ++ zs)
  append_assoc [] ys zs = refl
  append_assoc (x ∷ xs) ys zs = ap (λ (l : List A). x ∷ l) (append_assoc xs ys zs)

  count-snoc : (xs : List A) (x : A) → count (xs ++ x ∷ []) ≡ suc (count xs)
  count-snoc [] x = refl
  count-snoc (y ∷ xs) x = ap suc (count-snoc xs x)

  -- what pushing `x` answers
  pub data Pushed (got : Bool) (n : ℕ) (ps : Parts A) (x : A) : Option (Parts A) → Type ℓ where
    refused : got ≡ false → Pushed got n ps x none
    pushed :
        {qs : Parts A}
        → elements qs ≡ elements ps ++ x ∷ []
        → IsFilled n qs
        → Pushed got n ps x (some qs)

  Pushed-behind :
      {got : Bool} {n : ℕ} {xs : List A} {ps : Parts A} {x : A} {o : Option (Parts A)}
      → count xs ≡ n
      → Pushed got n ps x o
      → Pushed got n (part xs ps) x (map_option (part xs) o)
  Pushed-behind full (refused t) = refused t
  Pushed-behind {xs = xs} {ps} {x} full (pushed {qs} t f) =
      pushed (ap (λ (l : List A). xs ++ l) t ∙ sym (append_assoc xs (elements ps) (x ∷ [])))
        (full, f)

  pub part-Pushed :
      (got got' : Bool) (n : ℕ) (ps : Parts A) (x : A)
      → 0 < n
      → IsFilled n ps
      → Pushed (got && got') n ps x (push_part got got' n ps x)
  unfolding push_part
  part-Pushed got got' n (end_part xs) x some_room f = elim (Bool-cases (count xs == n)) [
    | inr t ↦ rw (push_part, t) (pushed refl (omega (arith, count-snoc xs x, filling t f)))
    | inl t ↦ elim (Bool-cases (got && got')) [
      | inr u ↦ rw (push_part, t, u) (refused refl)
      | inl u ↦ rw (push_part, t, u) (pushed refl (ground arith, some_room))
    ]
  ]
    where
      filling : (count xs == n) ≡ false → count xs ≤ n → count xs < n
      filling t f = ground arith
  part-Pushed got got' n (part xs ps) x some_room (full, f) =
      Pushed-behind full (part-Pushed got got' n ps x some_room f)

  -- the answer for the whole list
  abbrev pub answer : PartList A → Option (Parts A) → Option (PartList A)
  answer l o = map_option (λ ps. record l { parts = ps }) o

  -- Pushing an element on a list whose parts have room for at least one element appends it to the
  -- sequence that the list stands for, and all parts but the last one stay full; it fails only if the
  -- pool has no memory.
  pub push-Pushed :
      (got got' : Bool) (l : PartList A) (x : A)
      → 0 < l.nalloc
      → IsFilled l.nalloc l.parts
      → (o : Option (Parts A)) × (push got got' l x ≡ answer l o)
        × Pushed (got && got') l.nalloc l.parts x o
  unfolding push
  push-Pushed got got' l x some_room f = (
    push_part got got' l.nalloc l.parts x,
    refl,
    part-Pushed got got' l.nalloc l.parts x some_room f,
  )
