-- ===== src/Handshake/Layout.antt =====
-- What `spy_proxy_create_acl` writes.
use mysqlproxy.Base.{inr, inl, true, ◌≢◌, leb, ◌⊎◌, ℕ, ◌≤◌, ◌<◌, ◌≡◌, refl, ◌++◌, arith}
use mysqlproxy.Base.Runs.{ok, fault}
use mysqlproxy.Handshake.{Endian, big, little, mixed, word_bytes, zeros, server_version, create_acl}

-- Whatever the byte order and the random number, `spy_proxy_create_acl` makes an access outside of its
-- objects: on a machine that is not big-endian it reads each number beyond its variable, whatever the size of
-- the buffer, and on a big-endian one it writes 56 bytes, which a smaller buffer, such as the one of
-- 52 bytes that `spy_proxy_send_acl` allocates, has no room for.
pub create_acl-fault :
    (e : Endian) (size rand : ℕ) → (e ≢ big) ⊎ (size < 56) → create_acl e size rand ≡ fault
unfolding create_acl
create_acl-fault little size rand h = refl
create_acl-fault mixed size rand h = refl
create_acl-fault big size rand (inl h) = absurd (h refl)
create_acl-fault big size rand (inr h) = ground arith

-- On a big-endian machine and with room, the packet has 56 bytes, and every number in it but the
-- random one is written as zero, also the length of what follows.
pub create_acl-zeros :
    (size rand : ℕ)
    → 56 ≤ size
    → create_acl big size rand
      ≡ ok (zeros 4 ++ server_version ++ zeros 4 ++ word_bytes big rand ++ zeros 33)
unfolding create_acl
create_acl-zeros size rand room =
    let h3 : leb 3 size ≡ true = ground arith in
    let h4 : leb 4 size ≡ true = ground arith in
    let h11 : leb 11 size ≡ true = ground arith in
    let h15 : leb 15 size ≡ true = ground arith in
    let h23 : leb 23 size ≡ true = ground arith in
    let h24 : leb 24 size ≡ true = ground arith in
    let h26 : leb 26 size ≡ true = ground arith in
    let h27 : leb 27 size ≡ true = ground arith in
    let h29 : leb 29 size ≡ true = ground arith in
    let h31 : leb 31 size ≡ true = ground arith in
    let h32 : leb 32 size ≡ true = ground arith in
    let h42 : leb 42 size ≡ true = ground arith in
    let h55 : leb 55 size ≡ true = ground arith in
    let h56 : leb 56 size ≡ true = ground arith in
    rw (h3, h4, h11, h15, h23, h24, h26, h27, h29, h31, h32, h42, h55, h56) refl
