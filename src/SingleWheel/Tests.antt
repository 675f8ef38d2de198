-- ===== src/SingleWheel/Tests.antt =====
-- A wheel with one connection.
use basic_component_design.Common.{ℕ, ◌%◌, ◌<◌, ◌≡◌, ◌⊎◌, ◌↔◌, refl, some, [], arith, In}
use basic_component_design.SingleWheel.{Wheel, tw_size, link_conn, add_conn, check_conn}
use basic_component_design.SingleWheel.Adding.{Added, add_conn-Added}
use basic_component_design.SingleWheel.Beats.{
  count, total, Counted, check_conn-kills, link_conn-Counted,
}

abbrev empty : Wheel
empty = record {
  tw = λ _. [];
  idx = λ _. 0;
  used = λ _. 0;
  t_iter = 0;
  c_iter = 0;
  tick = 0;
  killed = [];
}

empty-Counted : Counted empty
empty-Counted c = (refl, omega arith)

abbrev one : Wheel
one = link_conn 1 7 0 empty

add_conn-Added_example :
    (w' : Wheel) × (add_conn 3 7 0 empty ≡ some w') × (i : ℕ) × Added 7 0 i empty w'
add_conn-Added_example =
    add_conn-Added 0 3 7 0 empty refl (omega arith) (omega arith) (omega arith) empty-Counted

-- Ten seconds later.
abbrev due : Wheel
due = record one { tick = 10 }

due-Counted : Counted due
due-Counted = link_conn-Counted 1 7 0 empty (omega arith) empty-Counted

check_conn-kills_example :
    Counted (check_conn due)
    × (In 7 (check_conn due).killed ↔ (
        In 7 due.killed
        ⊎ ((0 < count 7 (due.tw (10 % tw_size))) × (total tw_size 7 (check_conn due).tw ≡ 0))))
check_conn-kills_example = check_conn-kills due 7 due-Counted
