-- ===== src/Lifted/Byte/Tests.antt =====
-- The operators of lbool at two values.
use riss.Base.{◌≡◌, true, false, refl, arith}
use riss.Lifted.{lxor}
use riss.Lifted.Byte.{equal, both, either, flip, of_byte, and, or, same, byte_lem}

byte_lem_example :
    (equal 3 1 ≡ same (of_byte 3) (of_byte 1))
    × (of_byte (both 3 1) ≡ and (of_byte 3) (of_byte 1))
    × (of_byte (either 3 1) ≡ or (of_byte 3) (of_byte 1))
    × (of_byte (flip 3 true) ≡ lxor (of_byte 3) true)
    × (of_byte (flip 3 false) ≡ lxor (of_byte 3) false)
byte_lem_example = byte_lem 3 1 (omega arith) (omega arith)

-- true && undefined is the second byte for undefined
both_test : both 0 2 ≡ 3
unfolding both
both_test = refl
