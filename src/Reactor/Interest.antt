-- ===== src/Reactor/Interest.antt =====
-- What epoll watches the descriptor of a connection for, while the callbacks of adapter.h change the
-- mask of its event.
use basic_component_design.Common.{
  ℕ, ◌≡◌, refl, ◌⊎◌, Bool, true, false, not, Option, none, some, if◌then◌else◌, update_self, ◌==◌,
  inl, inr, Bool-cases, Option-cases,
}
use Prim.Native.Nat.{bit_and, bit_or}
use basic_component_design.Reactor.{
  epollin, epollout, Watch, Reactor, add_event, del_event, enable_event, next_mask, tell_epoll,
}

-- The masks that the adapter uses.
pub data Mask : Type 0 where
  idle : Mask
  reading : Mask
  writing : Mask
  both : Mask

abbrev pub bits : Mask → ℕ
bits idle = 0
bits reading = 1
bits writing = 4
bits both = 5

abbrev pub bits_of : Option Mask → Option ℕ
bits_of none = none
bits_of (some m) = some (bits m)

pub data Flag : Type 0 where
  input : Flag
  output : Flag

abbrev pub bit : Flag → ℕ
bit input = epollin
bit output = epollout

abbrev turned_on : Flag → Mask → Option Mask
turned_on input idle = some reading
turned_on input writing = some both
turned_on input reading = none
turned_on input both = none
turned_on output idle = some writing
turned_on output reading = some both
turned_on output writing = none
turned_on output both = none

abbrev turned_off : Flag → Mask → Option Mask
turned_off input reading = some idle
turned_off input both = some writing
turned_off input idle = none
turned_off input writing = none
turned_off output writing = some idle
turned_off output both = some reading
turned_off output idle = none
turned_off output reading = none

abbrev pub turned : Flag → Bool → Mask → Option Mask
turned f true m = turned_off f m
turned f false m = turned_on f m

abbrev pub Watched : ℕ → (ℕ → Type 0) → Option Watch → Type 0
Watched address P x = (w : Watch) × (x ≡ some w) × (w.target ≡ address) × P w.events

-- What epoll has for the descriptor under each mask.
abbrev pub Agrees : ℕ → Mask → Option Watch → Type 0
Agrees address idle x = x ≡ none
Agrees address reading x = Watched address (λ v. (v ≡ 0) ⊎ (v ≡ 1)) x
Agrees address writing x = Watched address (λ v. (v ≡ 0) ⊎ (v ≡ 4)) x
Agrees address both x = Watched address (λ v. (v ≡ 1) ⊎ (v ≡ 4)) x

-- epoll_ctl fails for no other reason than the descriptor.
abbrev pub Grants : Reactor → Type 0
Grants r = (n : ℕ) → r.refuses n ≡ false

add_event-refuses :
    (fd events p : ℕ) (r : Reactor) → (add_event fd events p r).0.refuses ≡ r.refuses
unfolding add_event
add_event-refuses fd events p r = elim (Bool-cases (r.refuses r.calls)) [
  | inl t ↦ rw (t, add_event) refl
  | inr f ↦ elim (Option-cases (r.interest fd)) [
    | inl h ↦ rw (f, h, add_event) refl
    | inr (w, h) ↦ rw (f, h, add_event) refl
  ]
]

enable_event-refuses :
    (fd p : ℕ) (readable writeable : Bool) (r : Reactor)
    → (enable_event fd p readable writeable r).0.refuses ≡ r.refuses
unfolding enable_event
enable_event-refuses fd p readable writeable r = elim (Bool-cases (r.refuses r.calls)) [
  | inl t ↦ rw (t, enable_event) refl
  | inr f ↦ elim (Option-cases (r.interest fd)) [
    | inl h ↦ rw (f, h, enable_event) refl
    | inr (w, h) ↦ rw (f, h, enable_event) refl
  ]
]

-- Whatever is told to epoll, what it answers stays.
pub tell_epoll-refuses :
    (flag : ℕ) (enable : Bool) (prev mask fd p : ℕ) (r : Reactor)
    → (tell_epoll flag enable prev mask fd p r).refuses ≡ r.refuses
unfolding tell_epoll del_event
tell_epoll-refuses flag enable prev mask fd p r = elim (Bool-cases (mask == 0)) [
  | inl t ↦ rw (t, tell_epoll) refl
  | inr t ↦ elim (Bool-cases (prev == 0)) [
    | inl u ↦ rw (t, u, tell_epoll) (add_event-refuses fd mask p r)
    | inr u ↦ elim (Bool-cases (bit_and flag epollin == 0)) [
      | inr v ↦ rw (t, u, v, tell_epoll) (enable_event-refuses fd p enable false r)
      | inl v ↦ elim (Bool-cases (bit_and flag epollout == 0)) [
        | inr x ↦ rw (t, u, v, x, tell_epoll) (enable_event-refuses fd p false enable r)
        | inl x ↦ rw (t, u, v, x, tell_epoll) refl
      ]
    ]
  ]
]

add_event-interest :
    (fd events p : ℕ) (r : Reactor)
    → Grants r
    → r.interest fd ≡ none
    → (add_event fd events p r).0.interest fd ≡ some (record { events = events; target = p })
unfolding add_event
add_event-interest fd events p r g h = rw (add_event, g r.calls, h) (update_self r.interest fd _)

enable_event-interest :
    (fd p : ℕ) (readable writeable : Bool) (r : Reactor) (w : Watch)
    → Grants r
    → r.interest fd ≡ some w
    → (enable_event fd p readable writeable r).0.interest fd
      ≡ some (record {
        events = bit_or (if readable then epollin else 0) (if writeable then epollout else 0);
        target = p;
      })
unfolding enable_event
enable_event-interest fd p readable writeable r w g h =
    rw (enable_event, g r.calls, h) (update_self r.interest fd _)

del_event-interest : (fd : ℕ) (r : Reactor) → (del_event fd r).interest fd ≡ none
unfolding del_event
del_event-interest fd r = update_self r.interest fd none

pub next_mask-turned :
    (f : Flag) (remove : Bool) (m : Mask)
    → next_mask (bit f) remove (bits m) ≡ bits_of (turned f remove m)
unfolding next_mask
next_mask-turned input true idle = refl
next_mask-turned input true reading = refl
next_mask-turned input true writing = refl
next_mask-turned input true both = refl
next_mask-turned input false idle = refl
next_mask-turned input false reading = refl
next_mask-turned input false writing = refl
next_mask-turned input false both = refl
next_mask-turned output true idle = refl
next_mask-turned output true reading = refl
next_mask-turned output true writing = refl
next_mask-turned output true both = refl
next_mask-turned output false idle = refl
next_mask-turned output false reading = refl
next_mask-turned output false writing = refl
next_mask-turned output false both = refl

abbrev pub When : Option Mask → (Mask → Type 0) → Type 0
When none P = Unit
When (some m) P = P m

-- What the reactor has after the flag has been turned.
abbrev pub Told : Flag → Bool → Mask → ℕ → ℕ → Reactor → Mask → Type 0
Told f remove m fd address r m' =
    Agrees address m'
      ((tell_epoll (bit f) (not remove) (bits m) (bits m') fd address r).interest fd)

-- From the event's own watch, the reactor comes to that of the new mask, if no call is refused.
pub tell_epoll-Agrees :
    (f : Flag) (remove : Bool) (m : Mask) (fd address : ℕ) (r : Reactor)
    → Grants r
    → Agrees address m (r.interest fd)
    → When (turned f remove m) (Told f remove m fd address r)
unfolding tell_epoll
tell_epoll-Agrees input true idle fd address r g h = tt
tell_epoll-Agrees input true reading fd address r g h = del_event-interest fd r
tell_epoll-Agrees input true writing fd address r g h = tt
tell_epoll-Agrees input true both fd address r g (w, e, k, l) =
    (_, enable_event-interest fd address false false r w g e, refl, inl refl)
tell_epoll-Agrees input false idle fd address r g h =
    (_, add_event-interest fd 1 address r g h, refl, inr refl)
tell_epoll-Agrees input false reading fd address r g h = tt
tell_epoll-Agrees input false writing fd address r g (w, e, k, l) =
    (_, enable_event-interest fd address true false r w g e, refl, inl refl)
tell_epoll-Agrees input false both fd address r g h = tt
tell_epoll-Agrees output true idle fd address r g h = tt
tell_epoll-Agrees output true reading fd address r g h = tt
tell_epoll-Agrees output true writing fd address r g h = del_event-interest fd r
tell_epoll-Agrees output true both fd address r g (w, e, k, l) =
    (_, enable_event-interest fd address false false r w g e, refl, inl refl)
tell_epoll-Agrees output false idle fd address r g h =
    (_, add_event-interest fd 4 address r g h, refl, inr refl)
tell_epoll-Agrees output false reading fd address r g (w, e, k, l) =
    (_, enable_event-interest fd address false true r w g e, refl, inr refl)
tell_epoll-Agrees output false writing fd address r g h = tt
tell_epoll-Agrees output false both fd address r g h = tt
