-- ===== src/Handshake.antt =====
-- proxy/spy_mysql_packet.c: the initial handshake packet, with the byte order of the machine as
-- core/spy_inet.c finds it. A buffer is the list of the bytes written to it and its size.
pub mod Layout
mod Tests
use mysqlproxy.Base.{
  ℕ, zero, suc, ◌+◌, ◌*◌, ◌/◌, ◌%◌, ◌^◌, Bool, true, false, List, [], ◌∷◌, ◌++◌, leb, if◌then◌else◌,
}
use mysqlproxy.Base.Runs.{Run, ok, fault, ◌>>=◌}
use mysqlproxy.Posted.Process.{length}

-- what `spy_get_endian` answers: 0, 1 or -1
pub data Endian : Type 0 where
  big little mixed : Endian

-- `endian ? ... : ...`
abbrev pub nonzero : Endian → Bool
nonzero big = false
nonzero little = true
nonzero mixed = true

abbrev pub take : ℕ → List ℕ → List ℕ
take zero bs = []
take (suc n) [] = []
take (suc n) (b ∷ bs) = b ∷ take n bs

abbrev pub little_bytes : ℕ → List ℕ
little_bytes v =
    v % 256
    ∷ v / 2 ^ 8 % 256
    ∷ v / 2 ^ 16 % 256
    ∷ v / 2 ^ 24 % 256
    ∷ v / 2 ^ 32 % 256
    ∷ v / 2 ^ 40 % 256
    ∷ v / 2 ^ 48 % 256
    ∷ v / 2 ^ 56 % 256
    ∷ []

-- the bytes of a 64-bit word in memory; no theorem depends on those of a mixed order
abbrev pub word_bytes : Endian → ℕ → List ℕ
word_bytes big v =
    v / 2 ^ 56 % 256
    ∷ v / 2 ^ 48 % 256
    ∷ v / 2 ^ 40 % 256
    ∷ v / 2 ^ 32 % 256
    ∷ v / 2 ^ 24 % 256
    ∷ v / 2 ^ 16 % 256
    ∷ v / 2 ^ 8 % 256
    ∷ v % 256
    ∷ []
word_bytes little v = little_bytes v
word_bytes mixed v = little_bytes v

-- `spy_cpymem(p, (&v) + words, n)`, which must stay inside of the variable
pub read_word : Endian → ℕ → ℕ → ℕ → Run (List ℕ)
read_word e v words n = if leb (8 * words + n) 8 then ok (take n (word_bytes e v)) else fault

-- the bytes behind those that the buffer holds
pub put : ℕ → List ℕ → List ℕ → Run (List ℕ)
put size p bs = if leb (length p + length bs) size then ok (p ++ bs) else fault

-- `i = endian ? (&v) + words : &v; p = spy_cpymem(p, i, n)`
pub put_field : Endian → ℕ → List ℕ → ℕ → ℕ → ℕ → Run (List ℕ)
unfolding read_word put
put_field e size p v words n = do
  bs ← read_word e v (if nonzero e then words else 0) n
  put size p bs

-- `spy_cpymem(p, &v, n)`
pub put_word : Endian → ℕ → List ℕ → ℕ → ℕ → Run (List ℕ)
unfolding read_word put
put_word e size p v n = do bs ← read_word e v 0 n; put size p bs

-- `spy_memzero`
abbrev pub zeros : ℕ → List ℕ
zeros zero = []
zeros (suc n) = 0 ∷ zeros n

-- SPY_MYSQL_SERVER_VERSION with its end, "5.5.12"
abbrev pub server_version : List ℕ
server_version = 53 ∷ 46 ∷ 53 ∷ 46 ∷ 49 ∷ 50 ∷ 0 ∷ []

-- `spy_proxy_create_acl`, into a buffer of `size` bytes, with the random number as a parameter
unfoldable pub create_acl : Endian → ℕ → ℕ → Run (List ℕ)
unfolding put_field put_word put
create_acl e size rand = do
  p1 ← put_field e size [] 52 1 3
  p2 ← put_field e size p1 0 1 1
  p3 ← put size p2 server_version
  p4 ← put_word e size p3 10 4
  p5 ← put_word e size p4 rand 8
  p6 ← put size p5 (0 ∷ [])
  p7 ← put_field e size p6 0xfff7 2 2
  p8 ← put_field e size p7 0x21 3 1
  p9 ← put_field e size p8 0x0200 2 2
  p10 ← put_field e size p9 0x0f80 2 2
  p11 ← put_field e size p10 0x15 3 1
  p12 ← put size p11 (zeros 10)
  p13 ← put size p12 (zeros 13)
  put size p13 (0 ∷ [])

-- the size that `spy_proxy_send_acl` allocates
abbrev pub packet_size : ℕ
packet_size = 52
