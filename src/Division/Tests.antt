-- ===== src/Division/Tests.antt =====
-- Divisions by kernel/lib/div.arm1176.c.
use vmwos.Prelude.{◌-◌, ◌^◌, ◌≡◌, refl, arith, none, some}
use vmwos.Division.{divide_from, aeabi_uidiv}
use vmwos.Division.Quotient.{aeabi_uidiv-div, divide_from-none}

aeabi_uidiv-div_example : aeabi_uidiv 1000000000 7 ≡ some 142857142
aeabi_uidiv-div_example = aeabi_uidiv-div 1000000000 7 (omega arith)

divide_from-none_test : divide_from 100000 (2 ^ 32 - 1) 10 0 10 ≡ none
divide_from-none_test = divide_from-none 100000 10 0 10 (omega arith)

run_test : divide_from 20 100 7 0 7 ≡ some 14
unfolding divide_from
run_test = refl
