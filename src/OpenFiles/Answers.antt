-- ===== src/OpenFiles/Answers.antt =====
-- What `spy_conf_open_file` answers, and what it does to the list of open files.
use mysqlproxy.Base.{
  ℕ, subst, suc, ◌<◌, ◌≡◌, ◌∙◌, sym, ap, refl, inl, inr, Bool, false, ◌&&◌, Option, none, some,
  List, [], ◌∷◌, ◌++◌, ◌==◌, arith, Bool-cases,
}
use mysqlproxy.Base.Runs.{Run, ok, Returns, returns, Returns-then, Returns-weaken}
use mysqlproxy.Parts.{PartList, count}
use mysqlproxy.Parts.Push.{elements}
use mysqlproxy.OpenFiles.{OpenFile, add_file, copied, search_or_add, open_file, stderr_fd}
use mysqlproxy.OpenFiles.Names.{IsText, name_at, Found, nowhere, found}
use mysqlproxy.OpenFiles.Opened.{find-Found}
use mysqlproxy.OpenFiles.Added.{IsOpenFiles, Added, Opened, known, opened, add_file-Added}

copied_text : (stale : ℕ → ℕ) (i : ℕ) (name : List ℕ) → IsText name → copied stale i name ≡ name
copied_text stale i [] t = refl
copied_text stale i (c ∷ cs) t =
    rw t.0 (ap (λ (l : List ℕ). c ∷ l) (copied_text stale (suc i) cs t.1))

IsText-append : (xs ys : List ℕ) → IsText xs → IsText ys → IsText (xs ++ ys)
IsText-append [] ys t u = u
IsText-append (x ∷ xs) ys t u = (t.0, IsText-append xs ys t.1 u)

search_or_add-Opened :
    (got got' : Bool) (l : PartList OpenFile) (full : List ℕ)
    → 0 < l.nalloc
    → IsOpenFiles l.nalloc l.parts
    → IsText full
    → Returns (Opened (got && got') l full) (search_or_add got got' l full)
unfolding search_or_add
search_or_add-Opened got got' l full h i t =
    Returns-then (find-Found full 0 l.parts t i.2 i.1) λ o. at_place o
  where
    at_place :
        (o : Option ℕ)
        → Found full 0 (elements l.parts) o
        → Returns
            (Opened (got && got') l full)
            (elim o as (λ _. Run (Option ℕ × PartList OpenFile)) [
              | some j ↦ ok (some j, l)
              | none ↦ ok (add_file got got' l (record { fd = none; name = full }))
            ])
    at_place (some k) (found j _ e n) =
        returns (known k (ap (name_at (elements l.parts)) (omega (arith, e)) ∙ n))
    at_place none (nowhere u) =
        returns (opened u (add_file-Added got got' l (record { fd = none; name = full }) h i t))

-- what a call answers for a name
pub data Answer (prefix : List ℕ) (room : Option (ℕ → ℕ)) (got : Bool) (l : PartList OpenFile)
    : List ℕ → Option ℕ × PartList OpenFile → Type 0 where
  standard_error :
      {r : Option ℕ × PartList OpenFile}
      → Added got l (record { fd = some stderr_fd; name = [] }) r
      → Answer prefix room got l [] r
  absolute :
      {cs : List ℕ} {r : Option ℕ × PartList OpenFile}
      → Opened got l (b'/' ∷ cs) r
      → Answer prefix room got l (b'/' ∷ cs) r
  relative :
      {c : ℕ} {cs : List ℕ} {r : Option ℕ × PartList OpenFile}
      → ¬ (c ≡ b'/')
      → Opened got l (prefix ++ c ∷ cs) r
      → Answer prefix room got l (c ∷ cs) r
  no_room :
      {c : ℕ} {cs : List ℕ}
      → ¬ (c ≡ b'/')
      → room ≡ none
      → Answer prefix room got l (c ∷ cs) (none, l)

-- The call to open a file ends, where the names have no zero byte in them and the list is kept well:
-- parts with room for an element, full but for the last one, none behind the first one empty. Without a
-- name it adds standard error. A name that starts with a slash is looked up as it is, any other one with
-- the prefix in front, for which the pool must have memory. If an element has that name, the call answers
-- its number and leaves the list alone; only if none has it is a file added: it goes to the end of
-- the sequence that the list stands for, under the number that the call answers, and the list is kept well.
-- Without memory for the new element nothing is added.
pub open_file-Answer :
    (prefix : List ℕ) (room : Option (ℕ → ℕ)) (got got' : Bool) (l : PartList OpenFile)
    (name : List ℕ)
    → 0 < l.nalloc
    → IsOpenFiles l.nalloc l.parts
    → IsText prefix
    → IsText name
    → Returns (Answer prefix room (got && got') l name) (open_file prefix room got got' l name)
unfolding open_file
open_file-Answer prefix room got got' l [] h i p t =
    returns (
      standard_error (add_file-Added got got' l (record { fd = some stderr_fd; name = [] }) h i tt))
open_file-Answer prefix room got got' l (c ∷ cs) h i p t = elim (Bool-cases (c == b'/')) [
  | inl e ↦ at_root (ground (arith, e))
  | inr e ↦ at_prefix room e
]
  where
    at_root :
        c ≡ b'/'
        → Returns
            (Answer prefix room (got && got') l (c ∷ cs))
            (open_file prefix room got got' l (c ∷ cs))
    at_root e =
        subst
          (λ (x : ℕ).
            Returns (Answer prefix room (got && got') l (x ∷ cs))
              (open_file prefix room got got' l (x ∷ cs)))
          (sym e)
          (Returns-weaken
            (search_or_add-Opened got got' l (b'/' ∷ cs) h i
              (subst (λ (x : ℕ). IsText (x ∷ cs)) e t))
            (λ r o. absolute o))

    at_prefix :
        (m : Option (ℕ → ℕ))
        → (c == b'/') ≡ false
        → Returns
            (Answer prefix m (got && got') l (c ∷ cs))
            (open_file prefix m got got' l (c ∷ cs))
    at_prefix none e = rw (open_file, e) (returns (no_room (λ z. ground (arith, e, z)) refl))
    at_prefix (some stale) e =
        rw (open_file, e, copied_text stale (count prefix) (c ∷ cs) t)
          (Returns-weaken
            (search_or_add-Opened got got' l (prefix ++ c ∷ cs) h i
              (IsText-append prefix (c ∷ cs) p t))
            (λ r o. relative (λ z. ground (arith, e, z)) o))
