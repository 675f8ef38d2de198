-- ===== src/SkipList.antt =====
-- The skip list of timers: skiplist.c and skiplist.h under
-- 3.2高性能组件/3.2.2定时器方案红黑树，时间轮，最小堆/timers_src/example/skiplist.
-- A node is known by its address, 0 is the null pointer, and the fields are maps from addresses;
-- `forward x i` is x->level[i].forward. malloc's answers and the level that zslRandomLevel draws are
-- arguments.
pub mod Order
pub mod Rows
pub mod Placed
pub mod Find
pub mod Create
pub mod Link
pub mod Insert
pub mod Dropped
pub mod Unlink
pub mod Delete
pub mod First
pub mod Remove
pub mod Timers
pub mod Tests
use basic_component_design.Common.{
  ℕ, zero, suc, ◌+◌, ◌-◌, ◌*◌, ◌%◌, Bool, true, false, not, ◌&&◌, Option, none, some, List, [], ◌∷◌,
  ltb, ◌==◌, if◌then◌else◌, update,
}

abbrev pub zskiplist_maxlevel : ℕ
zskiplist_maxlevel = 32

-- The list with the memory of its nodes, and the nodes given back, the last first.
pub record SkipList : Type 0 where
  pub header : ℕ
  pub length : ℕ
  pub level : ℕ
  pub score : ℕ → ℕ
  pub handler : ℕ → ℕ
  pub forward : ℕ → ℕ → ℕ
  pub freed : List ℕ

-- x->level[i].forward = y
unfoldable pub set_forward : ℕ → ℕ → ℕ → SkipList → SkipList
set_forward x i y s = record s { forward = update s.forward x (update (s.forward x) i y) }

-- zslCreateNode at the address `zn`; the pointers are left as they are.
unfoldable pub zsl_create_node : ℕ → ℕ → ℕ → SkipList → SkipList
zsl_create_node zn score func s = record s {
  score = update s.score zn score;
  handler = update s.handler zn func;
}

-- The loop of zslCreate over `n` levels from `j` on.
unfoldable pub clear_levels : ℕ → ℕ → SkipList → SkipList
unfolding set_forward
clear_levels zero j s = s
clear_levels (suc n) j s = clear_levels n (suc j) (set_forward s.header j 0 s)

-- `memory` is what the pointers of the new structs hold before.
unfoldable pub zsl_create : (ℕ → ℕ → ℕ) → ℕ → ℕ → SkipList
unfolding zsl_create_node
zsl_create memory header default_handler = clear_levels zskiplist_maxlevel 0 (
    zsl_create_node header 0 default_handler (record {
      header = header;
      length = 0;
      level = 1;
      score = λ _. 0;
      handler = λ _. 0;
      forward = memory;
      freed = [];
    }))

-- The loop of zslFree along level 0, on fuel.
unfoldable pub free_from : ℕ → ℕ → SkipList → List ℕ → List ℕ
free_from zero node s freed = freed
free_from (suc fuel) node s freed =
    let rest = free_from fuel (s.forward node 0) s (node ∷ freed) in
    if node == 0 then freed else rest

unfoldable pub zsl_free : ℕ → SkipList → List ℕ
zsl_free fuel s = free_from fuel (s.forward s.header 0) s (s.header ∷ s.freed)

-- zslRandomLevel: `coin k` says whether the k-th rand() & 0xFFFF is below a quarter of 0xFFFF.
unfoldable pub draw_level : ℕ → (ℕ → Bool) → ℕ → ℕ
draw_level zero coin level = level
draw_level (suc fuel) coin level =
    let rest = draw_level fuel coin (suc level) in if coin level then rest else level

unfoldable pub zsl_random_level : ℕ → (ℕ → Bool) → ℕ
zsl_random_level fuel coin =
    let level = draw_level fuel coin 1 in
    if ltb level zskiplist_maxlevel then level else zskiplist_maxlevel

-- The inner loop of zslInsert and zslDelete at level `i`, on fuel.
unfoldable pub walk : ℕ → SkipList → ℕ → ℕ → ℕ → ℕ
walk zero s i score x = x
walk (suc fuel) s i score x =
    let rest = walk fuel s i score (s.forward x i) in
    if not (s.forward x i == 0) && ltb (s.score (s.forward x i)) score then rest else x

-- The outer loop over the levels below `n`, downwards: the array update[] and the last `x`.
unfoldable pub find : ℕ → SkipList → ℕ → ℕ → ℕ → (ℕ → ℕ) → (ℕ → ℕ) × ℕ
find fuel s zero score x upd = (upd, x)
find fuel s (suc i) score x upd =
    let y = walk fuel s i score x in find fuel s i score y (update upd i y)

-- The loop that fills update[] for the new levels of zslInsert, `n` of them from `i` on.
unfoldable pub fill : ℕ → ℕ → ℕ → (ℕ → ℕ) → ℕ → ℕ
fill zero i header upd = upd
fill (suc n) i header upd = fill n (suc i) header (update upd i header)

-- The loop of zslInsert that links the node `x`, over `n` levels from `i` on.
unfoldable pub link_levels : ℕ → ℕ → ℕ → (ℕ → ℕ) → SkipList → SkipList
link_levels zero i x upd s = s
link_levels (suc n) i x upd s =
    link_levels n (suc i) x upd (set_forward (upd i) i x (set_forward x i (s.forward (upd i) i) s))

-- zslInsert of the node `x` from malloc with the drawn level.
unfoldable pub zsl_insert : ℕ → ℕ → ℕ → ℕ → ℕ → SkipList → SkipList
zsl_insert fuel x level score func s =
    let (upd, last) = find fuel s s.level score s.header (λ _. 0) in
    let upd' = if ltb s.level level then fill (level - s.level) s.level s.header upd else upd in
    let top = if ltb s.level level then level else s.level in
    let s' = link_levels level 0 x upd' (zsl_create_node x score func (record s { level = top })) in
    record s' { length = s'.length + 1 }

unfoldable pub zsl_min : SkipList → ℕ
zsl_min s = s.forward s.header 0

-- The loop that lowers the level, at most `n` times.
unfoldable pub lower : ℕ → SkipList → SkipList
lower zero s = s
lower (suc n) s =
    let rest = lower n (record s { level = s.level - 1 }) in
    if ltb 1 s.level && s.forward s.header (s.level - 1) == 0 then rest else s

-- The loop of zslDeleteHead over the levels below `n`, downwards.
unfoldable pub unlink_head : ℕ → ℕ → SkipList → SkipList
unlink_head zero x s = s
unlink_head (suc i) x s =
    unlink_head i x
      (if s.forward s.header i == x then set_forward s.header i (s.forward x i) s else s)

unfoldable pub zsl_delete_head : SkipList → SkipList
zsl_delete_head s =
    let x = zsl_min s in
    let s' = lower s.level (unlink_head s.level x s) in
    if x == 0 then s else record s' { length = s'.length - 1 }

-- The loop of zslDeleteNode over `n` levels from `i` on.
unfoldable pub unlink_node : ℕ → ℕ → ℕ → (ℕ → ℕ) → SkipList → SkipList
unlink_node zero i x upd s = s
unlink_node (suc n) i x upd s =
    unlink_node n (suc i) x upd
      (if s.forward (upd i) i == x then set_forward (upd i) i (s.forward x i) s else s)

unfoldable pub zsl_delete_node : ℕ → (ℕ → ℕ) → SkipList → SkipList
zsl_delete_node x upd s =
    let s' = lower s.level (unlink_node s.level 0 x upd s) in record s' { length = s'.length - 1 }

unfoldable pub zsl_delete : ℕ → ℕ → SkipList → SkipList
unfolding zsl_delete_node
zsl_delete fuel zn s =
    let (upd, last) = find fuel s s.level (s.score zn) s.header (λ _. 0) in
    let x = s.forward last 0 in
    let s' = zsl_delete_node x upd s in
    if x == 0 then s else if s.score zn == s.score x then record s' { freed = x ∷ s'.freed } else s
