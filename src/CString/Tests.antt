-- ===== src/CString/Tests.antt =====
-- Runs of `memmove` of kernel/lib/string.c on blocks that overlap.
use vmwos.Prelude.{◌≡◌, arith}
use vmwos.CString.{Ram, memmove}
use vmwos.CString.Move.{memmove-moved}

-- Every byte holds its address.
abbrev addresses : Ram
addresses a = a

memmove-moved_example : memmove addresses 102 100 8 105 ≡ 103
memmove-moved_example =
    memmove-moved addresses 102 100 8 105 (omega arith) (omega arith) (omega arith)
