-- ===== src/Files/Tests.antt =====
-- Writing two bytes, twice, at offset 4, to a system that takes one byte at a time.
use mysqlproxy.Base.{ℕ, ◌+◌, refl, true, Option, some, ltb, if◌then◌else◌, arith}
use mysqlproxy.Base.Runs.{Returns}
use mysqlproxy.Files.{File, write_file}
use mysqlproxy.Files.Write.{IsTaking, Written, start, write_file-Written}

abbrev one_byte : ℕ → ℕ → Option ℕ
one_byte i size = some (if ltb 0 size then 1 else 0)

one_byte-IsTaking : IsTaking one_byte
one_byte-IsTaking i size = (if ltb 0 size then 1 else 0, refl, ground arith, λ p. ground arith)

abbrev fresh : File
fresh = record { offset = 0; sys_offset = 0; position = 0; content = λ a. 0 }

write_file-Written_example :
    Returns
      (λ r. Written fresh 4 (start fresh 4) (λ j. j + 65) 0 2 r)
      (write_file one_byte true 3 fresh (λ j. j + 65) 2 4)
write_file-Written_example = write_file-Written fresh (λ j. j + 65) 2 4 one_byte-IsTaking
