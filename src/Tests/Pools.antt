-- ===== src/Tests/Pools.antt =====
-- A pool of two contexts with three guards, the first of which is dropped.
use distributed_systems_hw.Base.{◌≡◌, refl}
use distributed_systems_hw.NetUtils.IoContextPool.{
  Pool, construct, get_least_loaded, smallest_loop, increase, dec_load, dec_loop,
}

abbrev one : Pool
one = (get_least_loaded (construct 2)).1

abbrev two : Pool
two = (get_least_loaded one).1

abbrev three : Pool
three = (get_least_loaded two).1

abbrev dropped : Pool
dropped = dec_load 1 three

now_the_second : (get_least_loaded dropped).0 ≡ 1
unfolding construct get_least_loaded smallest_loop increase dec_load dec_loop
now_the_second = refl
