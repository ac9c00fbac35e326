-- ===== src/Arrays/Drop.antt =====
-- Creating an array and destroying it gives its room back to the pool.
use mysqlproxy.Pool.{Pool}
