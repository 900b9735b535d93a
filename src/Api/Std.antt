-- ===== src/Api/Std.antt =====
-- simulator/api/std.c
use cvm.Base.{bit_and}
use cvm.Api.{Host, Call, return}

unfoldable pub cpu0_time : {W : Type 0} → Host W → Call W
cpu0_time host vm tid w =
    let (timestamp, w') = host.clock w in return vm (bit_and timestamp 0xFFFFFFFF, w')
