-- ===== src/TimeWheel.antt =====
-- The timers over a wheel: timewheel.c and timewheel.h under
-- 3.2高性能组件/3.2.2定时器方案红黑树，时间轮，最小堆/timers_src/example/timewheel.
-- A linked list of nodes is a list: `link` puts a node at its end. A node is known by its address
-- `ptr`; `cancel` is a map from addresses, since del_timer writes it through a pointer. What a
-- callback does is the argument `run`, and `malloc` answers with an address and with what the byte
-- for `cancel` holds there.
pub mod Slots
pub mod Placed
pub mod Shift
pub mod Tick
pub mod Handlers
pub mod Execute
pub mod Punctual
pub mod Adding
pub mod Clear
pub mod Tests
use basic_component_design.Common.{
  ℕ, zero, suc, ◌+◌, ◌-◌, ◌*◌, ◌/◌, ◌%◌, Bool, true, false, Option, none, some, List, [], ◌∷◌, ◌++◌,
  ltb, leb, ◌==◌, if◌then◌else◌, update, u32_mod, add_u32, sub_u32,
}

abbrev pub u64_mod : ℕ
u64_mod = 18446744073709551616

abbrev pub time_near : ℕ
time_near = 256

abbrev pub time_level : ℕ
time_level = 64

-- `1 << (TIME_NEAR_SHIFT + k * TIME_LEVEL_SHIFT)`: how long a slot of level `k` lasts.
abbrev pub span : ℕ → ℕ
span zero = time_near
span (suc k) = time_level * span k

pub record TimerNode : Type 0 where
  pub ptr : ℕ
  pub expire : ℕ
  pub callback : ℕ
  pub id : ℕ

-- `fired` lists the callbacks run by dispatch_list with the time of the wheel, the last first, and
-- `freed` the nodes given back.
pub record Wheel : Type 0 where
  pub near : ℕ → List TimerNode
  pub t : ℕ → ℕ → List TimerNode
  pub time : ℕ
  pub current_point : ℕ
  pub cancel : ℕ → ℕ
  pub calls : ℕ
  pub fired : List (TimerNode × ℕ)
  pub freed : List TimerNode

unfoldable pub timer_create_timer : Wheel
timer_create_timer = record {
  near = λ _. [];
  t = λ _ _. [];
  time = 0;
  current_point = 0;
  cancel = λ _. 0;
  calls = 0;
  fired = [];
  freed = [];
}

-- One of the lists of the wheel.
pub data Slot : Type 0 where
  near_slot : ℕ → Slot
  level_slot : ℕ → ℕ → Slot

unfoldable pub set_level :
    (ℕ → ℕ → List TimerNode) → ℕ → ℕ → List TimerNode → ℕ → ℕ → List TimerNode
set_level t k i v j = if k == j then update (t j) i v else t j

unfoldable pub link : Slot → TimerNode → Wheel → Wheel
unfolding set_level
link (near_slot i) n w = record w { near = update w.near i (w.near i ++ n ∷ []) }
link (level_slot k i) n w = record w { t = set_level w.t k i (w.t k i ++ n ∷ []) }

-- Where add_node puts a node.
unfoldable pub slot_of : ℕ → ℕ → Slot
slot_of current_time time =
    let msec = sub_u32 time current_time in
    if ltb msec time_near
    then near_slot (time % time_near)
    else if ltb msec (span 1)
    then level_slot 0 (time / span 0 % time_level)
    else if ltb msec (span 2)
    then level_slot 1 (time / span 1 % time_level)
    else if ltb msec (span 3)
    then level_slot 2 (time / span 2 % time_level)
    else level_slot 3 (time / span 3 % time_level)

unfoldable pub add_node : TimerNode → Wheel → Wheel
unfolding link slot_of
add_node n w = link (slot_of w.time n.expire) n w

unfoldable pub add_nodes : List TimerNode → Wheel → Wheel
add_nodes [] w = w
add_nodes (n ∷ ns) w = add_nodes ns (add_node n w)

unfoldable pub move_list : ℕ → ℕ → Wheel → Wheel
unfolding set_level
move_list level idx w = add_nodes (w.t level idx) (record w { t = set_level w.t level idx [] })

-- The loop of timer_shift, with `mask`, `time` and `i`.
unfoldable pub shift_loop : ℕ → ℕ → ℕ → ℕ → ℕ → Wheel → Wheel
shift_loop zero ct mask time i w = w
shift_loop (suc fuel) ct mask time i w =
    let rest = shift_loop fuel ct (mask * time_level) (time / time_level) (suc i) w in
    let idx = time % time_level in
    if ct % mask == 0 then if idx == 0 then rest else move_list i idx w else w

unfoldable pub timer_shift : Wheel → Wheel
timer_shift w =
    let ct = add_u32 w.time 1 in
    let w' = record w { time = ct } in
    if ct == 0 then move_list 3 0 w' else shift_loop 4 ct time_near (ct / time_near) 0 w'

unfoldable pub del_timer : ℕ → Wheel → Wheel
del_timer ptr w = record w { cancel = update w.cancel ptr 1 }

module _ (run : TimerNode → Wheel → Wheel) where
  -- One turn of dispatch_list.
  unfoldable pub dispatch : TimerNode → Wheel → Wheel
  dispatch n w =
      let w' =
        if w.cancel n.ptr == 0 then run n (record w { fired = (n, w.time) ∷ w.fired }) else w in
      record w' { freed = n ∷ w'.freed }

  unfoldable pub dispatch_list : List TimerNode → Wheel → Wheel
  unfolding dispatch
  dispatch_list [] w = w
  dispatch_list (n ∷ ns) w = dispatch_list ns (dispatch n w)

  -- The loop of timer_execute.
  unfoldable pub execute_loop : ℕ → ℕ → Wheel → Wheel
  execute_loop zero idx w = w
  execute_loop (suc fuel) idx w = elim (w.near idx) [
    | [] ↦ w
    | n ∷ ns ↦
        execute_loop fuel idx (dispatch_list (n ∷ ns) (record w { near = update w.near idx [] }))
  ]

  unfoldable pub timer_execute : ℕ → Wheel → Wheel
  timer_execute fuel w = execute_loop fuel (w.time % time_near) w

  unfoldable pub timer_update : ℕ → Wheel → Wheel
  timer_update fuel w = timer_execute fuel (timer_shift (timer_execute fuel w))

  unfoldable pub timer_updates : ℕ → ℕ → Wheel → Wheel
  timer_updates fuel zero w = w
  timer_updates fuel (suc k) w = timer_updates fuel k (timer_update fuel w)

  -- `cp` is the answer of gettime.
  unfoldable pub expire_timer : ℕ → ℕ → Wheel → Wheel
  expire_timer fuel cp w =
      let diff = (cp + u64_mod - w.current_point) % u64_mod % u32_mod in
      if cp == w.current_point then w else timer_updates fuel diff (record w { current_point = cp })

  -- `time` is an int in 32 bits: it is not above 0 at 0 and from 2 ^ 31 on.
  unfoldable pub add_timer : (ℕ → ℕ × ℕ) → ℕ → ℕ → ℕ → Wheel → Option ℕ × Wheel
  add_timer malloc time func threadid w =
      let (ptr, junk) = malloc w.calls in
      let n : TimerNode = record {
        ptr = ptr;
        expire = add_u32 time w.time;
        callback = func;
        id = threadid;
      } in
      let w' = record w { calls = suc w.calls; cancel = update w.cancel ptr junk } in
      let w'' = run n w' in
      if time == 0
      then (none, record w'' { freed = n ∷ w''.freed })
      else if leb 2147483648 time
      then (none, record w'' { freed = n ∷ w''.freed })
      else (some ptr, add_node n w')

unfoldable pub gettime : ℕ → ℕ → ℕ
gettime tv_sec tv_nsec = (tv_sec * 100 + tv_nsec / 10000000) % u64_mod

unfoldable pub init_timer : ℕ → Wheel
unfolding timer_create_timer
init_timer cp = record timer_create_timer { current_point = cp }

-- A loop of clear_timer: the nodes of a list are freed from the first on.
unfoldable pub free_list : List TimerNode → List TimerNode → List TimerNode
free_list [] freed = freed
free_list (n ∷ ns) freed = free_list ns (n ∷ freed)

-- The loop over near[], for `k` lists from the index `i` on.
unfoldable pub clear_near : ℕ → ℕ → Wheel → Wheel
clear_near zero i w = w
clear_near (suc k) i w =
    clear_near k (suc i)
      (record w { near = update w.near i []; freed = free_list (w.near i) w.freed })

unfoldable pub clear_level : ℕ → ℕ → ℕ → Wheel → Wheel
clear_level level zero i w = w
clear_level level (suc k) i w =
    clear_level level k (suc i)
      (record w { t = set_level w.t level i []; freed = free_list (w.t level i) w.freed })

unfoldable pub clear_timer : Wheel → Wheel
clear_timer w = clear_level 3 time_level 0 (
    clear_level 2 time_level 0
      (clear_level 1 time_level 0 (clear_level 0 time_level 0 (clear_near time_near 0 w))))
