-- ===== src/Files.antt =====
-- os/unix/spy_files.c: reading and writing a file at an offset. The state is the file's two offsets, the
-- system's position in it and its content, a function of the position.
pub mod Write
mod Tests
use mysqlproxy.Base.{
  ℕ, zero, suc, ◌+◌, ◌-◌, Bool, true, false, Option, none, some, leb, ltb, ◌==◌, if◌then◌else◌,
}
use mysqlproxy.Base.Runs.{Run, ok, out_of_fuel, ◌>>=◌}

pub record File : Type 0 where
  pub offset : ℕ
  pub sys_offset : ℕ
  pub position : ℕ
  pub content : ℕ → ℕ

-- the first `n` bytes of `buf`, at `t`
abbrev pub with_bytes : (ℕ → ℕ) → ℕ → (ℕ → ℕ) → ℕ → ℕ → ℕ
with_bytes m t buf n a = if leb t a then (if ltb a (t + n) then buf (a - t) else m a) else m a

-- `if (file->sys_offset != offset) lseek(...)`, `none` where that fails
abbrev pub seek : Bool → File → ℕ → Option File
seek can f offset =
    if f.sys_offset == offset
    then some f
    else if can
    then some (record f { position = offset; sys_offset = offset })
    else none

-- what write() does with `n` bytes of `buf`, behind the first `written`
abbrev pub wrote : File → (ℕ → ℕ) → ℕ → ℕ → File
wrote f buf written n = record f {
  content = with_bytes f.content f.position (λ j. buf (written + j)) n;
  position = f.position + n;
  offset = f.offset + n;
}

-- the loop of `spy_write_file`, where `takes i size` is how much of `size` bytes call `i` writes, and
-- `none` is its failure
pub write_loop : (ℕ → ℕ → Option ℕ) → ℕ → ℕ → File → (ℕ → ℕ) → ℕ → ℕ → Run (Option ℕ × File)
write_loop takes zero i f buf written size = out_of_fuel
write_loop takes (suc k) i f buf written size = elim (takes i size) [
  | none ↦ ok (none, f)
  | some n ↦
      let rest = write_loop takes k (suc i) (wrote f buf written n) buf (written + n) (size - n) in
      if n == size then ok (some (written + n), wrote f buf written n) else rest
]

-- `spy_write_file`; `none` is SPY_ERROR
unfoldable pub write_file :
    (ℕ → ℕ → Option ℕ) → Bool → ℕ → File → (ℕ → ℕ) → ℕ → ℕ → Run (Option ℕ × File)
unfolding write_loop
write_file takes can fuel f buf size offset = elim (seek can f offset) [
  | none ↦ ok (none, f)
  | some f' ↦ write_loop takes fuel 0 f' buf 0 size
]

-- `spy_read_file`, with the number of bytes that read() gives, and the buffer that it fills
unfoldable pub read_file : Option ℕ → Bool → File → (ℕ → ℕ) → ℕ → Option ℕ × File × (ℕ → ℕ)
read_file gives can f buf offset = elim (seek can f offset) [
  | none ↦ (none, f, buf)
  | some f' ↦ elim gives [
    | none ↦ (none, f', buf)
    | some n ↦ (
      some n,
      record f' {
        sys_offset = f'.sys_offset + n;
        offset = f'.offset + n;
        position = f'.position + n;
      },
      with_bytes buf 0 (λ j. f'.content (f'.position + j)) n,
    )
  ]
]
