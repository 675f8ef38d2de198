-- ===== src/MinHeapTimer/Tests.antt =====
-- `expire_timer` at a heap of two timers.
use basic_component_design.Common.{ℕ, ◌≡◌, refl, some, List, []}
use basic_component_design.MinHeap.Tests.{two, time, two-IsValid}
use basic_component_design.MinHeapTimer.{Timers, expire_timer}
use basic_component_design.MinHeapTimer.Expire.{Fires, expire_timer-Fires}

abbrev sample : Timers
sample = record { heap = two; time = time; handler = λ _. 0; freed = [] }

-- A callback that does nothing, such as `hello_world`.
abbrev idle : ℕ → Timers → Timers
idle e s = s

expire_timer-Fires_example :
    (fired : List ℕ) × (t : Timers) × (expire_timer idle 75 sample ≡ some (fired, t))
    × Fires time 75 sample fired t
expire_timer-Fires_example = expire_timer-Fires idle 75 sample (λ e s. (refl, refl)) two-IsValid
