-- ===== src/Deadlock/Locks/Slots.antt =====
-- How lockidx moves: a slot that is given back is used again, and lockidx grows all the same.
use basic_component_design.Common.{
  ℕ, zero, suc, ◌+◌, ◌≡◌, ◌≢◌, inl, inr, refl, true, false, Option, none, some, arith, update, ◌==◌,
  Option-cases,
}
use basic_component_design.Deadlock.Graph.{SourceType}
use basic_component_design.Deadlock.Locks.{
  TaskGraph, search_lock, search_empty_lock, take_slot, lock_before_from, lock_before, lock_after,
  unlock_after, pthread_mutex_lock, pthread_mutex_unlock, start_check,
}
use basic_component_design.Deadlock.Locks.Owner.{search_lock_from_lem, take_slot-owner}

-- One thread takes a lock that nobody waits for and gives it back.
unfoldable pub lock_unlock : ℕ → ℕ → TaskGraph → Option TaskGraph
lock_unlock t a tg = pthread_mutex_unlock t a (pthread_mutex_lock t a tg)

unfoldable pub rounds : ℕ → ℕ → ℕ → TaskGraph → Option TaskGraph
rounds zero t a tg = some tg
rounds (suc n) t a tg = elim (lock_unlock t a tg) [ none ↦ none | some tg' ↦ rounds n t a tg' ]

-- All slots are free, the unused ones too, and nobody is counted as waiting.
abbrev pub IsBlank : TaskGraph → Type 0
IsBlank tg = (i : ℕ) → ((tg.locklist i).lock_id ≡ 0) × ((tg.locklist i).degress ≡ 0)

search_lock-blank : (a : ℕ) (tg : TaskGraph) → a ≢ 0 → IsBlank tg → search_lock tg a ≡ none
unfolding search_lock
search_lock-blank a tg ne b = elim (Option-cases (search_lock tg a)) [
  | inl e ↦ e
  | inr (j, e) ↦
      absurd (omega (arith, (search_lock_from_lem tg.locklist a tg.lockidx 0 j e).2, (b j).0))
]

abbrev freed_at : ℕ → TaskGraph → TaskGraph
freed_at i tg = record tg {
  locklist = update tg.locklist i (record (tg.locklist i) { id = 0; lock_id = 0 });
}

unlock_after-free :
    (t a i : ℕ) (tg : TaskGraph)
    → search_lock tg a ≡ some i
    → (tg.locklist i).degress ≡ 0
    → unlock_after t a tg ≡ some (freed_at i tg)
unfolding unlock_after
unlock_after-free t a i tg e d =
    let z : ((tg.locklist i).degress == 0) ≡ true = ground arith in rw (e, unlock_after) (rw z refl)

lock_after-take :
    (t a : ℕ) (tg : TaskGraph) → search_lock tg a ≡ none → lock_after t a tg ≡ take_slot t a tg
unfolding lock_after
lock_after-take t a tg e = rw (e, lock_after) refl

lock_before_from-blank :
    (t a n i : ℕ) (tg : TaskGraph) → a ≢ 0 → IsBlank tg → lock_before_from t a n i tg ≡ tg
unfolding lock_before_from
lock_before_from-blank t a zero i tg ne b = refl
lock_before_from-blank t a (suc n) i tg ne b =
    let e : ((tg.locklist i).lock_id == a) ≡ false = ground (arith, b i) in
    rw (e, lock_before_from) (lock_before_from-blank t a n (suc i) tg ne b)

lock_unlock-IsBlank :
    (t a : ℕ) (tg : TaskGraph)
    → a ≢ 0
    → IsBlank tg
    → (tg' : TaskGraph) × (lock_unlock t a tg ≡ some tg')
      × IsBlank tg'
      × (tg'.lockidx ≡ tg.lockidx + 1)
unfolding lock_unlock take_slot pthread_mutex_lock pthread_mutex_unlock lock_before
lock_unlock-IsBlank t a tg ne b =
    let missing = search_lock-blank a tg ne b in
    let (i, s, o) = take_slot-owner t a tg missing in
    let (_, _, h, _) =
      search_lock_from_lem (take_slot t a tg).locklist a (take_slot t a tg).lockidx 0 i
        (unfold search_lock in s) in
    let here : i ≡ search_empty_lock tg = ground (arith, b i) in
    let d : ((take_slot t a tg).locklist i).degress ≡ 0 = ground (arith, b i) in
    (
      freed_at i (take_slot t a tg),
      rw (lock_before_from-blank t a tg.lockidx 0 tg ne b, lock_after-take t a tg missing)
          (unlock_after-free t a i (take_slot t a tg) s d),
      λ k. ground (arith, b k, b i),
      refl,
    )

rounds-IsBlank :
    (n t a : ℕ) (tg : TaskGraph)
    → a ≢ 0
    → IsBlank tg
    → (tg' : TaskGraph) × (rounds n t a tg ≡ some tg') × (tg'.lockidx ≡ tg.lockidx + n)
unfolding rounds
rounds-IsBlank zero t a tg ne b = (tg, refl, omega arith)
rounds-IsBlank (suc n) t a tg ne b =
    let (tg1, e, b1, k) = lock_unlock-IsBlank t a tg ne b in
    let (tg2, e2, k2) = rounds-IsBlank n t a tg1 ne b1 in (tg2, rw (e, rounds) e2, omega arith)

-- On memory that starts as zeros, n rounds in which one thread takes and gives back one lock
-- bring lockidx to n, so that it passes MAX and the loops leave the array of MAX slots.
pub rounds-lockidx :
    (n t a : ℕ) (memory : ℕ → SourceType)
    → a ≢ 0
    → ((i : ℕ) → ((memory i).lock_id ≡ 0) × ((memory i).degress ≡ 0))
    → (tg : TaskGraph) × (rounds n t a (start_check memory) ≡ some tg) × (tg.lockidx ≡ n)
unfolding start_check
rounds-lockidx n t a memory ne b =
    let (tg, e, k) = rounds-IsBlank n t a (start_check memory) ne b in (tg, e, omega arith)
