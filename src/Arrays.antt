-- ===== src/Arrays.antt =====
-- core/spy_array.c and core/spy_array.h: arrays that grow in a pool. The elements are the bytes of the
-- memory from `elts` on; pointers are numbers, and sizes wrap at 64 bits.
pub mod Push
pub mod Drop
mod Tests
use mysqlproxy.Base.{
  true, ℕ, ◌+◌, ◌-◌, ◌*◌, ◌%◌, Bool, ◌&&◌, Option, none, some, List, [], ◌∷◌, leb, ◌==◌,
  if◌then◌else◌,
}
use mysqlproxy.Base.Runs.{Run, ok, ◌>>=◌}
use mysqlproxy.State.{word}
use mysqlproxy.Text.{copy}
use mysqlproxy.Pool.{Block, Pool}
use mysqlproxy.Pool.Large.{System, Outcome, palloc}

-- `spy_array_s`; the pool that it points at is passed beside it
pub record Array : Type 0 where
  pub elts : ℕ
  pub nelts : ℕ
  pub size : ℕ
  pub nalloc : ℕ

-- an array with its pool and the memory
pub record Place : Type 0 where
  pub array : Array
  pub pool : Pool
  pub mem : ℕ → ℕ

-- `p->d`: the first block of the pool
abbrev pub first_last : List Block → ℕ
first_last [] = 0
first_last (b ∷ bs) = b.last

abbrev pub first_end : List Block → ℕ
first_end [] = 0
first_end (b ∷ bs) = b.end

-- the pool with another `p->d.last`
abbrev pub set_last : List Block → ℕ → List Block
set_last [] l = []
set_last (b ∷ bs) l = record b { last = l } ∷ bs

abbrev pub with_last : Pool → ℕ → Pool
with_last p l = record p { blocks = set_last p.blocks l }

-- the size of `n` elements, as a `size_t`
abbrev pub bytes_of : ℕ → ℕ → ℕ
bytes_of n size = n * size % word

-- sizeof(spy_array_t)
abbrev pub array_header : ℕ
array_header = 40

abbrev pub fresh_array : ℕ → ℕ → ℕ → Array
fresh_array elts n size = record { elts = elts; nelts = 0; size = size; nalloc = n }

-- `spy_array_init`: `none` is SPY_ERROR
unfoldable pub init : ℕ → System → Pool → ℕ → ℕ → Run (Option Array × Pool)
init k sys p n size = palloc k sys true p (bytes_of n size) >>= λ o. elim o.answer [
  | none ↦ ok (none, o.pool)
  | some e ↦ ok (some (fresh_array e n size), o.pool)
]

-- `spy_array_create`: the address of the array, and the array
unfoldable pub create : ℕ → System → System → Pool → ℕ → ℕ → Run (Option (ℕ × Array) × Pool)
create k sys sys' p n size = palloc k sys true p array_header >>= λ o. elim o.answer [
  | none ↦ ok (none, o.pool)
  | some a ↦ palloc k sys' true o.pool (bytes_of n size) >>= λ o'. elim o'.answer [
    | none ↦ ok (none, o'.pool)
    | some e ↦ ok (some (a, fresh_array e n size), o'.pool)
  ]
]

-- `spy_array_destroy`, for an array at the address `at`
unfoldable pub destroy : ℕ → Array → Pool → Pool
destroy at a p =
    let room = bytes_of a.nalloc a.size in
    let p' =
      if a.elts + room == first_last p.blocks
      then with_last p (first_last p.blocks - room)
      else p in
    if at + array_header == first_last p'.blocks then with_last p' at else p'

-- whether the array can grow by `more` bytes where it is
abbrev pub can_extend : Place → ℕ → Bool
can_extend s more =
    s.array.elts + bytes_of s.array.nalloc s.array.size == first_last s.pool.blocks
    && leb (first_last s.pool.blocks + more) (first_end s.pool.blocks)

-- growing where it is, by `n` elements
abbrev pub extended : Place → ℕ → ℕ → Place
extended s n more = record s {
  array = record (s.array) { nalloc = s.array.nalloc + n };
  pool = with_last s.pool (first_last s.pool.blocks + more);
}

-- growing elsewhere, to `n` elements, of which `len` bytes are copied
abbrev pub moved : Place → Outcome → ℕ → ℕ → Option Place
moved s o n len = elim o.answer [
  | none ↦ none
  | some e ↦ some (record {
    array = record (s.array) { elts = e; nalloc = n };
    pool = o.pool;
    mem = copy s.mem e (λ i. s.mem (s.array.elts + i)) len;
  })
]

-- the outcome of pushing: the address of the first new element, or NULL
pub data Pushing : Type 0 where
  element : ℕ → Place → Pushing
  no_memory : Pool → Pushing

-- the end of `spy_array_push` and `spy_array_push_n`
abbrev pub append : Place → ℕ → Pushing
append s n =
    element (s.array.elts + s.array.size * s.array.nelts)
      (record s { array = record (s.array) { nelts = s.array.nelts + n } })

abbrev pub append_moved : Outcome → Option Place → ℕ → Pushing
append_moved o none n = no_memory o.pool
append_moved o (some s) n = append s n

-- `spy_array_push`
unfoldable pub push : ℕ → System → Place → Run Pushing
push k sys s =
    let size = bytes_of s.array.nalloc s.array.size in
    let grown =
      if can_extend s s.array.size
      then ok (append (extended s 1 s.array.size) 1)
      else palloc k sys true s.pool (2 * size % word)
        >>= (λ o. ok (append_moved o (moved s o (2 * s.array.nalloc) size) 1)) in
    if s.array.nelts == s.array.nalloc then grown else ok (append s 1)

-- `spy_array_push_n`
unfoldable pub push_n : ℕ → System → Place → ℕ → Run Pushing
push_n k sys s n =
    let size = bytes_of n s.array.size in
    let nalloc = 2 * (if leb s.array.nalloc n then n else s.array.nalloc) in
    let grown =
      if can_extend s size
      then ok (append (extended s n size) n)
      else palloc k sys true s.pool (bytes_of nalloc s.array.size)
        >>= (λ o. ok (append_moved o (moved s o nalloc (bytes_of s.array.nelts s.array.size)) n)) in
    if leb (s.array.nelts + n) s.array.nalloc then ok (append s n) else grown
