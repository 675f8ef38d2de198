-- ===== src/SkipList/Timers.antt =====
-- The timers of skl-timer.c over the skip list. What a handler does to the list is an argument; the
-- nodes whose handlers ran are kept, in their order. zslDeleteHead does not free the node.
pub mod Expire
pub mod Refines
mod Tests
use basic_component_design.Common.{
  ℕ, zero, suc, ◌+◌, ◌*◌, ◌/◌, ◌%◌, Option, none, some, List, [], ◌∷◌, ◌++◌, ltb, ◌==◌,
  if◌then◌else◌, add_u32, u32_mod,
}
use basic_component_design.SkipList.{
  SkipList, zsl_create, zsl_insert, zsl_delete, zsl_min, zsl_delete_head,
}

unfoldable pub current_time : ℕ → ℕ → ℕ
current_time tv_sec tv_nsec = (tv_sec % u32_mod * 1000 % u32_mod + tv_nsec / 1000000) % u32_mod

unfoldable pub init_timer : (ℕ → ℕ → ℕ) → ℕ → ℕ → SkipList
unfolding zsl_create
init_timer memory header default_handler = zsl_create memory header default_handler

-- `x` is malloc's answer, `level` is drawn, and `now` is the time.
unfoldable pub add_timer : ℕ → ℕ → ℕ → ℕ → ℕ → ℕ → SkipList → SkipList
unfolding zsl_insert
add_timer fuel x level now msec func s = zsl_insert fuel x level (add_u32 msec now) func s

unfoldable pub del_timer : ℕ → ℕ → SkipList → SkipList
unfolding zsl_delete
del_timer fuel zn s = zsl_delete fuel zn s

pub record Run : Type 0 where
  pub list : SkipList
  pub fired : List ℕ

-- The loop of expire_timer; `none` is that the fuel ran out.
unfoldable pub expire_loop : (ℕ → SkipList → SkipList) → ℕ → ℕ → Run → Option Run
unfolding zsl_delete_head zsl_min
expire_loop call zero now r = none
expire_loop call (suc fuel) now r =
    let x = zsl_min r.list in
    let rest =
      expire_loop call fuel now
        (record { list = zsl_delete_head (call x r.list); fired = r.fired ++ (x ∷ []) }) in
    if x == 0 then some r else if ltb now (r.list.score x) then some r else rest

unfoldable pub expire_timer : (ℕ → SkipList → SkipList) → ℕ → ℕ → SkipList → Option Run
unfolding expire_loop
expire_timer call fuel now s = expire_loop call fuel now (record { list = s; fired = [] })
