-- ===== src/Dns/Async/Sockets.antt =====
-- The watched sockets as a list: what `EPOLL_CTL_DEL` and `close` take out, and what they leave.
use basic_component_design.Common.{
  ℕ, ◌+◌, ◌≡◌, refl, sym, ap, ◌∙◌, ◌≢◌, inl, inr, List, [], ◌∷◌, true, false, All, All-mono, In,
  All-In, arith, ◌==◌, if◌then◌else◌,
}
use basic_component_design.Dns.Async.{EpArg, unwatch, close}
use native.Mathlib.Decide.{ℕ_discrete}

abbrev pub is_cb : ℕ → ℕ → ℕ
is_cb x cb = if cb == x then 1 else 0

abbrev pub count_args : ℕ → List EpArg → ℕ
count_args x [] = 0
count_args x (a ∷ rest) = is_cb x a.cb + count_args x rest

abbrev pub OtherFd : ℕ → EpArg → Type 0
OtherFd fd b = b.sockfd ≢ fd

abbrev pub Distinct : List EpArg → Type 0
Distinct [] = Unit
Distinct (a ∷ rest) = All (OtherFd a.sockfd) rest × Distinct rest

abbrev pub IsOpen : List ℕ → EpArg → Type 0
IsOpen os a = In a.sockfd os

unwatch_other : (fd : ℕ) (args : List EpArg) → All (OtherFd fd) args → unwatch fd args ≡ args
unfolding unwatch
unwatch_other fd [] h = refl
unwatch_other fd (a ∷ rest) (h, hs) = ground (arith, unwatch_other fd rest hs)

pub All-unwatch :
    (P : EpArg → Type 0) (fd : ℕ) (args : List EpArg) → All P args → All P (unwatch fd args)
unfolding unwatch
All-unwatch P fd [] h = tt
All-unwatch P fd (a ∷ rest) (h, hs) = elim (ℕ_discrete a.sockfd fd) [
  | yes e ↦
      let t : (a.sockfd == fd) ≡ true = ground arith in rw (unwatch, t) (All-unwatch P fd rest hs)
  | no n ↦
      let t : (a.sockfd == fd) ≡ false = ground arith in
      rw (unwatch, t) (h, All-unwatch P fd rest hs)
]

pub unwatch-OtherFd : (fd : ℕ) (args : List EpArg) → All (OtherFd fd) (unwatch fd args)
unfolding unwatch
unwatch-OtherFd fd [] = tt
unwatch-OtherFd fd (a ∷ rest) = elim (ℕ_discrete a.sockfd fd) [
  | yes e ↦
      let t : (a.sockfd == fd) ≡ true = ground arith in rw (unwatch, t) (unwatch-OtherFd fd rest)
  | no n ↦
      let t : (a.sockfd == fd) ≡ false = ground arith in
      rw (unwatch, t) (n, unwatch-OtherFd fd rest)
]

pub Distinct-unwatch : (fd : ℕ) (args : List EpArg) → Distinct args → Distinct (unwatch fd args)
unfolding unwatch
Distinct-unwatch fd [] h = tt
Distinct-unwatch fd (a ∷ rest) (h, hs) = elim (ℕ_discrete a.sockfd fd) [
  | yes e ↦
      let t : (a.sockfd == fd) ≡ true = ground arith in
      rw (unwatch, t) (Distinct-unwatch fd rest hs)
  | no n ↦
      let t : (a.sockfd == fd) ≡ false = ground arith in
      rw (unwatch, t) (All-unwatch (OtherFd a.sockfd) fd rest h, Distinct-unwatch fd rest hs)
]

unwatch_head :
    (a : EpArg) (rest : List EpArg)
    → All (OtherFd a.sockfd) rest
    → unwatch a.sockfd (a ∷ rest) ≡ rest
unfolding unwatch
unwatch_head a rest h = ground (arith, unwatch_other a.sockfd rest h)

-- Exactly the one entry goes.
pub count-unwatch :
    (x : ℕ) (arg : EpArg) (args : List EpArg)
    → Distinct args
    → In arg args
    → count_args x args ≡ is_cb x arg.cb + count_args x (unwatch arg.sockfd args)
unfolding unwatch
count-unwatch x arg [] h i = absurd i
count-unwatch x arg (a ∷ rest) (h, hs) (inl e) =
    ap (λ (n : ℕ). is_cb x a.cb + n) (sym (ap (count_args x) (unwatch_head a rest h)))
    ∙ ap (λ (b : EpArg). is_cb x b.cb + count_args x (unwatch b.sockfd (a ∷ rest))) (sym e)
count-unwatch x arg (a ∷ rest) (h, hs) (inr i) =
    let other : arg.sockfd ≢ a.sockfd = All-In (OtherFd a.sockfd) rest h i in
    let t : (a.sockfd == arg.sockfd) ≡ false = ground arith in
    rw (unwatch, t) (omega (arith, count-unwatch x arg rest hs i))

close_other : (fd o : ℕ) (os : List ℕ) → o ≢ fd → In o os → In o (close fd os)
unfolding close
close_other fd o [] n i = absurd i
close_other fd o (p ∷ os) n (inl e) =
    let t : (p == fd) ≡ false = ground arith in rw (close, t) (inl e)
close_other fd o (p ∷ os) n (inr i) = elim (ℕ_discrete p fd) [
  | yes e ↦ let t : (p == fd) ≡ true = ground arith in rw (close, t) (close_other fd o os n i)
  | no m ↦ let t : (p == fd) ≡ false = ground arith in rw (close, t) (inr (close_other fd o os n i))
]

pub opened :
    (fd : ℕ) (os : List ℕ) (args : List EpArg)
    → All (λ o. o ≢ fd) os
    → All (IsOpen os) args
    → All (OtherFd fd) args
opened fd os args h = All-mono (IsOpen os) (OtherFd fd) args (λ a i. All-In (λ o. o ≢ fd) os h i)

pub closed :
    (fd : ℕ) (os : List ℕ) (args : List EpArg)
    → All (OtherFd fd) args
    → All (IsOpen os) args
    → All (IsOpen (close fd os)) args
closed fd os [] h i = tt
closed fd os (a ∷ rest) (h, hs) (i, is) = (close_other fd a.sockfd os h i, closed fd os rest hs is)
