-- ===== src/SeatBooking/Tests.antt =====
-- A schedule of the pool, and each theorem at an input.
use design_pocs.Common.{ℕ, ◌+◌, ◌≡◌, ◌≢◌, refl, List, [], ◌∷◌}
use design_pocs.SeatBooking.Pool.{
  Pool, new_pool, Event, receive, pop, send, push, next, blocked, pop_from, step, run,
}
use design_pocs.SeatBooking.PoolSafety.{count, AllOwn, run_safe}

abbrev two : Pool
two = new_pool (7 ∷ 8 ∷ [])

abbrev schedule : List Event
schedule = receive ∷ receive ∷ receive ∷ pop ∷ pop ∷ push 7 ∷ receive ∷ send ∷ []

pool_after : run schedule two ≡ next (record two { channel = 1; conns = 7 ∷ []; held = 8 ∷ [] })
unfolding run step pop_from
pool_after = refl

schedule-AllOwn : AllOwn schedule two
unfolding AllOwn step pop_from
schedule-AllOwn = (tt, (tt, (tt, (tt, (tt, (refl, (tt, (tt, tt))))))))

run_safe_example :
    (p : Pool) × (run schedule (new_pool (7 ∷ 8 ∷ [])) ≡ next p)
    × ((c : ℕ) → count c p.conns + count c p.held ≡ count c (7 ∷ 8 ∷ []))
    × (p.putting ≢ 0 → step send p ≢ blocked)
run_safe_example = run_safe (7 ∷ 8 ∷ []) schedule schedule-AllOwn
