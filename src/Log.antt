-- ===== src/Log.antt =====
-- core/spy_log.c: the printing of a message of the log, and spy_strerror of os/unix/spy_errno.c.
pub mod Lined
mod Tests
use mysqlproxy.Base.{
  ℕ, zero, suc, ◌+◌, ◌-◌, ◌%◌, Bool, true, false, ◌||◌, not, Option, none, some, List, [], ◌∷◌,
  ◌==◌, ltb, leb, if◌then◌else◌,
}
use mysqlproxy.Base.Runs.{Run, ok, fault, ◌>>=◌}
use mysqlproxy.State.{word}
use mysqlproxy.Posted.Process.{length}
use mysqlproxy.Text.{copy}
use mysqlproxy.Format.{Arg, integer, counted, Out, Fpu, bytes, put}
use mysqlproxy.Printf.{vslprintf, slprintf}
use mysqlproxy.OpenFiles.{stderr_fd}

-- `SPY_MAX_ERROR_STR`
abbrev pub max_error_str : ℕ
max_error_str = 2048

-- `err_levels[level]`
abbrev pub err_level : ℕ → Option (List ℕ)
err_level zero = some []
err_level (suc zero) = some (b'e' ∷ b'm' ∷ b'e' ∷ b'r' ∷ b'g' ∷ [])
err_level (suc (suc zero)) = some (b'a' ∷ b'l' ∷ b'e' ∷ b'r' ∷ b't' ∷ [])
err_level (suc (suc (suc zero))) = some (b'c' ∷ b'r' ∷ b'i' ∷ b't' ∷ [])
err_level (suc (suc (suc (suc zero)))) = some (b'e' ∷ b'r' ∷ b'r' ∷ b'o' ∷ b'r' ∷ [])
err_level (suc (suc (suc (suc (suc zero))))) = some (b'w' ∷ b'a' ∷ b'r' ∷ b'n' ∷ [])
err_level (suc (suc (suc (suc (suc (suc zero)))))) =
    some (b'n' ∷ b'o' ∷ b't' ∷ b'i' ∷ b'c' ∷ b'e' ∷ [])
err_level (suc (suc (suc (suc (suc (suc (suc zero))))))) = some (b'i' ∷ b'n' ∷ b'f' ∷ b'o' ∷ [])
err_level (suc (suc (suc (suc (suc (suc (suc (suc zero)))))))) =
    some (b'd' ∷ b'e' ∷ b'b' ∷ b'u' ∷ b'g' ∷ [])
err_level (suc (suc (suc (suc (suc (suc (suc (suc (suc n))))))))) = none

-- `spy_strerror`, where `message` is the text that the C library has for the error, or the unknown one
abbrev pub strerror : List ℕ → Out → ℕ → Out
strerror message o size =
    let len = if ltb size (length message) then size else length message in
    record { mem = copy o.mem o.buf (bytes message) len; buf = o.buf + len }

-- " (%d: "
abbrev pub errno_format : List ℕ
errno_format = b' ' ∷ b'(' ∷ b'%' ∷ b'd' ∷ b':' ∷ b' ' ∷ []

-- " [%S] "
abbrev pub level_format : List ℕ
level_format = b' ' ∷ b'[' ∷ b'%' ∷ b'S' ∷ b']' ∷ b' ' ∷ []

-- the start of `spy_log_errno`, which leaves a space for the code
abbrev pub leave_space : Out → ℕ → Out
leave_space o last =
    if ltb (last - 50) o.buf
    then put (put (put (record o { buf = last - 50 }) b'.') b'.') b'.'
    else o

-- `spy_log_errno`; `last - buf` is a word
unfoldable pub log_errno : Fpu → ℕ → (ℕ → List ℕ) → Out → ℕ → ℕ → Run Out
log_errno fpu k messages o last err =
    slprintf fpu k (leave_space o last) last errno_format (integer err ∷ []) >>= λ o'.
    let o'' = strerror (messages err) o' ((word + last - o'.buf) % word) in
    ok (if ltb o''.buf last then put o'' b')' else o'')

-- the end of a line: the last byte of the buffer is kept for it
abbrev pub end_line : ℕ → Out → Out
end_line last o = put (if ltb (last - 1) o.buf then record o { buf = last - 1 } else o) 10

-- `if (err) p = spy_log_errno(p, last, err)`
abbrev pub with_errno : Fpu → ℕ → (ℕ → List ℕ) → Out → ℕ → ℕ → Run Out
with_errno fpu k messages o last err =
    if err == 0 then ok o else log_errno fpu k messages o last err

-- a line that is written: the memory with the buffer, how many of its bytes, and to which descriptors
pub record Line : Type 0 where
  pub mem : ℕ → ℕ
  pub size : ℕ
  pub fds : List ℕ

-- the descriptors that `spy_log_error_core` writes to
abbrev pub targets : Bool → ℕ → List ℕ
targets use_stderr fd = if not use_stderr || (fd == stderr_fd) then fd ∷ [] else fd ∷ stderr_fd ∷ []

-- the line from `p` on, in the buffer at `errstr`
abbrev pub line_at : ℕ → List ℕ → Out → Line
line_at errstr fds o =
    let o' = end_line (errstr + max_error_str) o in
    record { mem = o'.mem; size = o'.buf - errstr; fds = fds }

-- the printing has stayed in front of `last`; a write from there on is undefined
abbrev pub within : ℕ → Out → Run Out
within last o = if ltb last o.buf then fault else ok o

-- the buffer behind `spy_memcpy(errstr, ...)`
abbrev pub begun : ℕ → (ℕ → ℕ) → List ℕ → Out
begun errstr mem text = record {
  mem = copy mem errstr (bytes text) (length text);
  buf = errstr + length text;
}

-- `spy_log_error_core`: the line, unless the log has no file. `time` is the cached time, or `none` where
-- its pointer is NULL.
unfoldable pub log_error_core :
    Fpu
    → ℕ
    → (ℕ → List ℕ)
    → Bool
    → Option ℕ
    → (time : Option (List ℕ)) → (errstr : ℕ) → (ℕ → ℕ)
    → (level : ℕ) → List ℕ
    → List Arg
    → (err : ℕ) → Run (Option Line)
log_error_core fpu k messages use_stderr none time errstr mem level fmt xs err = ok none
log_error_core fpu k messages use_stderr (some fd) none errstr mem level fmt xs err = fault
log_error_core fpu k messages use_stderr (some fd) (some time) errstr mem level fmt xs err =
    let last = errstr + max_error_str in
    elim (err_level level) as (λ _. Run (Option Line)) [
      | none ↦ fault
      | some text ↦
          within last (begun errstr mem time)
          >>= (λ p. slprintf fpu k p last level_format (counted text ∷ []))
          >>= (λ p. within last p)
          >>= (λ p. vslprintf fpu k p last fmt xs)
          >>= (λ p. within last p)
          >>= (λ p. with_errno fpu k messages p last err)
          >>= λ p. ok (some (line_at errstr (targets use_stderr fd) p))
    ]

-- `spy_log_error`, where `log_level` is that of the log
abbrev pub log_error :
    Fpu
    → ℕ
    → (ℕ → List ℕ)
    → Bool
    → Option ℕ
    → (log_level : ℕ) → (time : Option (List ℕ)) → (errstr : ℕ) → (ℕ → ℕ)
    → (level : ℕ) → List ℕ
    → List Arg
    → (err : ℕ) → Run (Option Line)
log_error fpu k messages use_stderr file log_level time errstr mem level fmt xs err =
    if leb level log_level
    then log_error_core fpu k messages use_stderr file time errstr mem level fmt xs err
    else ok none

-- "spy: "
abbrev pub spy_text : List ℕ
spy_text = b's' ∷ b'p' ∷ b'y' ∷ b':' ∷ b' ' ∷ []

-- `spy_log_stderr`, and with `err` 0 and descriptor 1 `spy_log_stdout`
unfoldable pub log_to :
    Fpu → ℕ → (ℕ → List ℕ) → (fd errstr : ℕ) → (ℕ → ℕ) → List ℕ → List Arg → (err : ℕ) → Run Line
log_to fpu k messages fd errstr mem fmt xs err =
    let last = errstr + max_error_str in
    vslprintf fpu k (begun errstr mem spy_text) last fmt xs
    >>= (λ p. within last p)
    >>= (λ p. with_errno fpu k messages p last err)
    >>= λ p. ok (line_at errstr (fd ∷ []) p)
