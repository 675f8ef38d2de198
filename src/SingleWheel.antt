-- ===== src/SingleWheel.antt =====
-- The wheel of seconds that drops idle connections: single_tw.c under
-- 3.2高性能组件/3.2.2定时器方案红黑树，时间轮，最小堆/timers_src/example/timewheel_single.
-- Connections and timer nodes are known by their indices in conn_nodes and timer_nodes. An entry of a
-- list is a timer node with the connection that its `node` points to.
pub mod Beats
pub mod Adding
pub mod Tests
use basic_component_design.Common.{
  ℕ, zero, suc, ◌+◌, ◌-◌, ◌*◌, ◌%◌, Bool, true, false, Option, none, some, List, [], ◌∷◌, ◌++◌, ltb,
  ◌==◌, if◌then◌else◌, update,
}

abbrev pub max_timer : ℕ
max_timer = 131071

abbrev pub max_conn : ℕ
max_conn = 65535

abbrev pub tw_size : ℕ
tw_size = 16

abbrev pub expire : ℕ
expire = 10

pub record TimerNode : Type 0 where
  pub self : ℕ
  pub node : ℕ

-- The global variables, with the ids that check_conn has printed as killed, the last first. `used`
-- counts modulo 256.
pub record Wheel : Type 0 where
  pub tw : ℕ → List TimerNode
  pub idx : ℕ → ℕ
  pub used : ℕ → ℕ
  pub t_iter : ℕ
  pub c_iter : ℕ
  pub tick : ℕ
  pub killed : List ℕ

-- The loops of get_timer_node and get_conn_node: from `iter` on to the first free index under the
-- mask; `none` is that the fuel ran out.
unfoldable pub find_free : ℕ → (ℕ → ℕ) → ℕ → ℕ → Option ℕ
find_free zero taken mask iter = none
find_free (suc fuel) taken mask iter =
    let rest = find_free fuel taken mask (suc iter) in
    if ltb 0 (taken (iter % suc mask)) then rest else some iter

-- `none` also stands for a write past the end of the array, since the index is not masked there.
unfoldable pub get_timer_node : ℕ → Wheel → Option (ℕ × Wheel)
get_timer_node fuel w = elim (find_free fuel w.idx max_timer (suc w.t_iter)) [
  | none ↦ none
  | some i ↦
      if ltb i max_timer then some (i, record w { t_iter = i; idx = update w.idx i i }) else none
]

unfoldable pub get_conn_node : ℕ → Wheel → Option (ℕ × Wheel)
get_conn_node fuel w = elim (find_free fuel w.used max_conn (suc w.c_iter)) [
  | none ↦ none
  | some i ↦ if ltb i max_conn then some (i, record w { c_iter = i }) else none
]

-- What add_conn does once it has a timer node.
unfoldable pub link_conn : ℕ → ℕ → ℕ → Wheel → Wheel
link_conn tnode cnode delay w =
    let i = (w.tick + expire + delay) % tw_size in
    record w {
      tw = update w.tw i (w.tw i ++ record { self = tnode; node = cnode } ∷ []);
      used = update w.used cnode ((w.used cnode + 1) % 256);
    }

unfoldable pub add_conn : ℕ → ℕ → ℕ → Wheel → Option Wheel
add_conn fuel cnode delay w = elim (get_timer_node fuel w) [
  | none ↦ none
  | some (tnode, w') ↦ some (link_conn tnode cnode delay w')
]

-- One turn of the loop of check_conn.
unfoldable pub check_node : TimerNode → Wheel → Wheel
check_node t w =
    let left = (w.used t.node + 255) % 256 in
    record w {
      used = update w.used t.node left;
      idx = update w.idx t.self 0;
      killed = if left == 0 then t.node ∷ w.killed else w.killed;
    }

unfoldable pub check_nodes : List TimerNode → Wheel → Wheel
check_nodes [] w = w
check_nodes (t ∷ ts) w = check_nodes ts (check_node t w)

unfoldable pub check_conn : Wheel → Wheel
check_conn w =
    let i = w.tick % tw_size in
    let w' = check_nodes (w.tw i) (record w { tick = (w.tick + 1) % 4294967296 }) in
    record w' { tw = update w'.tw i [] }
