-- ===== src/Log/Lined.antt =====
-- A message of the log, of items that fit, is a line of its parts.
use mysqlproxy.Base.{ℕ, ◌+◌, ◌≡◌, List, [], ◌∷◌, ◌++◌}
use mysqlproxy.Format.{Out}
use mysqlproxy.Printf.Items.{Item, plain, slice, Rendered, Wrote}
use mysqlproxy.Log.{Line}

-- the items of " [%S] "
abbrev pub level_items : List ℕ → List Item
level_items name = plain b' ' ∷ plain b'[' ∷ slice name ∷ plain b']' ∷ plain b' ' ∷ []

-- The line: what was in front of `errstr` is kept, and from there on stand the text `time`, a text for the
-- level, one for the items of the message, and a line feed, which are all that is written to `fds`.
pub record Logged (time name : List ℕ) (is : List Item) (errstr : ℕ) (mem : ℕ → ℕ) (fds : List ℕ)
    (l : Line) : Type 0 where
  pub level_text : List ℕ
  pub message : List ℕ
  pub level_rendered : Rendered (level_items name) level_text
  pub rendered : Rendered is message
  pub wrote :
      Wrote
        (record { mem = mem; buf = errstr })
        (((time ++ level_text) ++ message) ++ 10 ∷ [])
        (record { mem = l.mem; buf = errstr + l.size })
  pub written : l.fds ≡ fds

-- the text so far, behind the level and the message
abbrev Told : List ℕ → List ℕ → List Item → ℕ → (ℕ → ℕ) → Out → Type 0
Told time name is errstr mem o =
    (lt : List ℕ) × (t : List ℕ) × Rendered (level_items name) lt
    × Rendered is t
    × Wrote (record { mem = mem; buf = errstr }) ((time ++ lt) ++ t) o
