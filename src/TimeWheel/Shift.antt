-- ===== src/TimeWheel/Shift.antt =====
-- timer_shift: which list it moves, and that every node is then where it is due at the next tick.
use basic_component_design.Common.{
  ℕ, zero, suc, ◌+◌, ◌*◌, ◌/◌, ◌%◌, ◌<◌, ◌≡◌, ◌≢◌, ◌⊎◌, inl, inr, refl, ◌==◌, true, false, arith,
  u32_mod, add_u32,
}
use native.Mathlib.Decide.{ℕ_discrete}
use basic_component_design.TimeWheel.{
  Wheel, span, move_list, shift_loop, timer_shift, time_near, time_level,
}
use basic_component_design.TimeWheel.Slots.{Hits}

-- One turn of the loop.
loop-off :
    (fuel ct mask time i : ℕ) (w : Wheel)
    → ct % mask ≢ 0
    → shift_loop (suc fuel) ct mask time i w ≡ w
unfolding shift_loop
loop-off fuel ct mask time i w h =
    let e : (ct % mask == 0) ≡ false = ground arith in rw (e, shift_loop) refl

loop-move :
    (fuel ct mask time i : ℕ) (w : Wheel)
    → ct % mask ≡ 0
    → time % time_level ≢ 0
    → shift_loop (suc fuel) ct mask time i w ≡ move_list i (time % time_level) w
unfolding shift_loop
loop-move fuel ct mask time i w h k =
    let e : (ct % mask == 0) ≡ true = ground arith in
    let f : (time % time_level == 0) ≡ false = ground arith in
    rw (e, shift_loop) (rw (f, shift_loop) refl)

loop-on :
    (fuel ct mask time i : ℕ) (w : Wheel)
    → ct % mask ≡ 0
    → time % time_level ≡ 0
    → shift_loop (suc fuel) ct mask time i w
      ≡ shift_loop fuel ct (mask * time_level) (time / time_level) (suc i) w
unfolding shift_loop
loop-on fuel ct mask time i w h k =
    let e : (ct % mask == 0) ≡ true = ground arith in
    let f : (time % time_level == 0) ≡ true = ground arith in
    rw (e, shift_loop) (rw (f, shift_loop) refl)

-- What the loop does: nothing, where no list is hit, or it moves the list that is.
abbrev pub Shifted : ℕ → Wheel → Wheel → Type 0
Shifted ct w w' =
    ((w' ≡ w) × (ct % 256 ≢ 0))
    ⊎ ((k : ℕ) × (i : ℕ) × (k < 4) × Hits ct k i × (w' ≡ move_list k i w))

-- On to the next level, where the index is 0; there is one, unless `ct` is 0.
next_level :
    (ct k : ℕ)
    → ct ≢ 0
    → ct < u32_mod
    → k < 4
    → ct % span k ≡ 0
    → ct / span k % 64 ≡ 0
    → (suc k < 4)
      × (ct % (span k * 64) ≡ 0)
      × (ct / span k / 64 ≡ ct / span (suc k))
      × (span k * 64 ≡ span (suc k))
next_level ct zero z u l h m = (omega arith, omega (arith, h, m), omega arith, omega arith)
next_level ct (suc zero) z u l h m = (omega arith, omega (arith, h, m), omega arith, omega arith)
next_level ct (suc (suc zero)) z u l h m =
    (omega arith, omega (arith, h, m), omega arith, omega arith)
next_level ct (suc (suc (suc zero))) z u l h m = absurd (omega (arith, h, m))
next_level ct (suc (suc (suc (suc k)))) z u l h m = absurd (omega arith)

levels-Shifted :
    (fuel ct k time mask : ℕ) (w : Wheel)
    → ct ≢ 0
    → ct < u32_mod
    → fuel + k ≡ 4
    → k < 4
    → mask ≡ span k
    → time ≡ ct / span k
    → ct % mask ≡ 0
    → Shifted ct w (shift_loop fuel ct mask time k w)
levels-Shifted zero ct k time mask w z u f l p q h = absurd (omega arith)
levels-Shifted (suc fuel) ct k time mask w z u f l p q h = elim (ℕ_discrete (time % 64) 0) [
  | no a ↦ inr (
    k,
    time % 64,
    l,
    record { whole = rw (← p) h; index = rw q refl; moved = a },
    loop-move fuel ct mask time k w h a,
  )
  | yes a ↦
      let (l', h', q', p') = next_level ct k z u l (rw (← p) h) (rw (← q) a) in
      let rest =
        levels-Shifted fuel ct (suc k) (time / 64) (mask * 64) w z u (omega arith) l' (rw p p')
          (rw q q') (rw p h') in
      let e = loop-on fuel ct mask time k w h a in rw e rest
]

shift_loop-Shifted :
    (ct : ℕ) (w : Wheel)
    → ct ≢ 0
    → ct < u32_mod
    → Shifted ct w (shift_loop 4 ct time_near (ct / time_near) 0 w)
shift_loop-Shifted ct w z u = elim (ℕ_discrete (ct % time_near) 0) [
  | no n ↦ inl (loop-off 3 ct time_near (ct / time_near) 0 w n, n)
  | yes n ↦ levels-Shifted 4 ct 0 (ct / time_near) time_near w z u refl (omega arith) refl refl n
]

pub timer_shift-Shifted :
    (w : Wheel)
    → w.time + 1 < u32_mod
    → Shifted (w.time + 1) (record w { time = w.time + 1 }) (timer_shift w)
unfolding timer_shift
timer_shift-Shifted w u =
    let e : add_u32 w.time 1 ≡ w.time + 1 = omega arith in
    let f : (w.time + 1 == 0) ≡ false = ground arith in
    rw e (rw f (shift_loop-Shifted (w.time + 1) (record w { time = w.time + 1 }) (omega arith) u))
