-- ===== src/Files/Write.antt =====
-- `spy_write_file`: where the bytes go.
use mysqlproxy.Base.{
  ◌≢◌, ℕ, zero, suc, ◌+◌, ◌-◌, ◌≤◌, ◌<◌, ◌≡◌, ◌⊎◌, inl, inr, ◌∙◌, sym, refl, ap, subst, true, false,
  Option, some, ltb, ◌==◌, if◌then◌else◌, arith, Bool-cases,
}
use mysqlproxy.Base.Runs.{◌>>=◌, Returns-branch, Returns, returns, Returns-weaken, Returns-then}
use mysqlproxy.Files.{File, wrote, write_loop, write_file}

-- write() takes some of what it is given, if it is given anything, and no more than that
abbrev pub IsTaking : (ℕ → ℕ → Option ℕ) → Type 0
IsTaking takes = (i size : ℕ) → (n : ℕ) × (takes i size ≡ some n) × (n ≤ size) × (0 < size → 0 < n)

-- `size` bytes of `buf`, behind the first `skipped`, have been written at the position `at` of `f`
pub record Written (f : File) (from at : ℕ) (buf : ℕ → ℕ) (skipped size : ℕ) (r : Option ℕ × File)
    : Type 0 where
  pub result : r.0 ≡ some (skipped + size)
  pub written : (j : ℕ) → j < size → r.1.content (at + j) ≡ buf (skipped + j)
  pub kept : (a : ℕ) → (a < at) ⊎ (at + size ≤ a) → r.1.content a ≡ f.content a
  pub position : r.1.position ≡ at + size
  pub offset : r.1.offset ≡ f.offset + size
  pub stale : r.1.sys_offset ≡ from

module _ (f : File) (buf : ℕ → ℕ) (skipped n : ℕ) where
  wrote-Written :
      Written f f.sys_offset f.position buf skipped n (some (skipped + n), wrote f buf skipped n)
  wrote-Written = record {
    result = refl;
    written =
        λ j p. let same : f.position + j - f.position ≡ j = omega arith in ground (arith, same);
    kept = λ a p. ground arith;
    position = refl;
    offset = refl;
    stale = refl;
  }

  Written-later :
      (size : ℕ) {r : Option ℕ × File}
      → n ≤ size
      → Written (wrote f buf skipped n) f.sys_offset (f.position + n) buf (skipped + n) (size - n) r
      → Written f f.sys_offset f.position buf skipped size r
  Written-later size {r} p h = record {
    result = h.result ∙ ap some (omega arith);
    written = λ j q. elim (Bool-cases (ltb j n)) [
      | inl t ↦
          h.kept (f.position + j) (inl (ground arith)) ∙ (wrote-Written).written j (ground arith)
      | inr t ↦
          let here : f.position + j ≡ f.position + n + (j - n) = ground arith in
          let there : skipped + j ≡ skipped + n + (j - n) = ground arith in
          rw (here, there) (h.written (j - n) (ground arith))
    ];
    kept = λ a q. h.kept a (ground arith) ∙ ground arith;
    position = h.position ∙ omega arith;
    offset = h.offset ∙ omega arith;
    stale = h.stale;
  }

loop-Written :
    {takes : ℕ → ℕ → Option ℕ} (k i : ℕ) (f : File) (buf : ℕ → ℕ) (skipped size : ℕ)
    → IsTaking takes
    → size < k
    → Returns
        (Written f f.sys_offset f.position buf skipped size)
        (write_loop takes k i f buf skipped size)
unfolding write_loop
loop-Written zero i f buf skipped size t p = absurd (omega arith)
loop-Written {takes} (suc k) i f buf skipped size t p =
    let (n, e, q, q') = t i size in
    rw (write_loop, e)
      (Returns-branch (n == size)
        (λ all.
          let whole : n ≡ size = ground arith in
          returns (
            subst
              (λ s.
                Written f f.sys_offset f.position buf skipped s
                  (some (skipped + n), wrote f buf skipped n))
              whole (wrote-Written f buf skipped n)))
        (λ more.
          Returns-weaken
            (loop-Written k (suc i) (wrote f buf skipped n) buf (skipped + n) (size - n) t
              (ground arith))
            (λ r h. Written-later f buf skipped n size q h)))

-- the position at which `spy_write_file` begins
abbrev pub start : File → ℕ → ℕ
start f offset = if f.sys_offset == offset then f.position else offset

-- If the system can seek and each write takes something, `spy_write_file` writes all the bytes and
-- nothing else, and moves the file's offset behind them. It writes them at the offset that is asked
-- for, except if that is the one recorded in `sys_offset`: then it writes at the system's position,
-- and `sys_offset` stays at the offset asked for while the position moves. If it seeks, `sys_offset` becomes
-- the offset asked for and does not move with the position.
pub write_file-Written :
    {takes : ℕ → ℕ → Option ℕ} (f : File) (buf : ℕ → ℕ) (size offset : ℕ)
    → IsTaking takes
    → Returns
        (λ r. Written f offset (start f offset) buf 0 size r)
        (write_file takes true (suc size) f buf size offset)
unfolding write_file
write_file-Written f buf size offset t = elim (Bool-cases (f.sys_offset == offset)) [
  | inl same ↦
      let there : f.sys_offset ≡ offset = ground arith in
      rw (write_file, same)
        (Returns-weaken (loop-Written (suc size) 0 f buf 0 size t (omega arith))
          (λ r h. subst (λ o. Written f o f.position buf 0 size r) there h))
  | inr moved ↦
      rw (write_file, moved)
        (Returns-weaken
          (loop-Written (suc size) 0 (record f { position = offset; sys_offset = offset }) buf 0
            size t (omega arith))
          (λ r h. record {
            result = h.result;
            written = h.written;
            kept = h.kept;
            position = h.position;
            offset = h.offset;
            stale = h.stale;
          }))
]

-- So writing twice at one offset, in a file whose position is another one's, puts the second text
-- behind the first one and not over it.
pub write_file-misplaced :
    {takes : ℕ → ℕ → Option ℕ} (f : File) (buf buf' : ℕ → ℕ) (size size' offset : ℕ)
    → IsTaking takes
    → f.sys_offset ≢ offset
    → Returns
        (λ r.
          (j : ℕ)
          → (j < size → r.1.content (offset + j) ≡ buf j)
            × (j < size' → r.1.content (offset + size + j) ≡ buf' j))
        (write_file takes true (suc size) f buf size offset >>= λ r.
          write_file takes true (suc size') r.1 buf' size' offset)
write_file-misplaced f buf buf' size size' offset t other =
    let away : (f.sys_offset == offset) ≡ false = ground arith in
    Returns-then (write_file-Written f buf size offset t) (λ r h.
      let here : (r.1.sys_offset == offset) ≡ true = ground (arith, h.stale) in
      let h' : Written f offset offset buf 0 size r = rw away at h in
      Returns-weaken (write_file-Written r.1 buf' size' offset t) (λ r' g.
        let g' : Written r.1 offset r.1.position buf' 0 size' r' = rw here at g in
        λ j.
          let from_start : 0 + j ≡ j = omega arith in
          let next : r.1.position + j ≡ offset + size + j = omega (arith, h'.position) in
          (
            λ p.
                g'.kept (offset + j) (inl (omega (arith, h'.position)))
                ∙ h'.written j p
                ∙ ap buf from_start,
            λ p. sym (ap r'.1.content next) ∙ g'.written j p ∙ ap buf' from_start,
          )))
