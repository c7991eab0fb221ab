-- ===== src/Examples/Calls.antt =====
-- The theorems on the program state and on the calls, at the small world.
use open_dsu.Prelude.{◌≡◌, refl, arith}
use open_dsu.State.{search}
use open_dsu.Calls.{accept, close}
use open_dsu.Calls.Roles.{roles}
use open_dsu.Calls.Close.{close_keeps}
use open_dsu.Calls.Accept.{accept-close}
use open_dsu.Examples.World.{small, start, server}

close_keeps_example : roles 15 (close small 14 server start).0.1 ≡ 1
unfolding search
close_keeps_example = close_keeps small 14 15 server start (omega arith) (omega arith) refl

accept-close_example : (close small 20 (accept small 5 server start).0.1 start).0.1 ≡ server
unfolding search accept
accept-close_example =
    accept-close small 5 server start start refl (omega arith) (omega arith, refl)
