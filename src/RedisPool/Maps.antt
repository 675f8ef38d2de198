-- ===== src/RedisPool/Maps.antt =====
-- A map that is stored by hmset and read back by hgetAll, and what mget puts into the map.
use mathlib.Core.List.{append-nil, append_assoc}
use basic_component_design.Common.{
  sym, ℕ, ◌%◌, ◌≡◌, ◌≢◌, All, refl, ap, ◌∙◌, Bool, true, false, ◌&&◌, List, [], ◌∷◌, ◌++◌, Option,
  none, some, ◌==◌, ==_iff, if◌then◌else◌, ℤ, pos, is_zero, Text, TextMap, text_eq, insert, map,
  length, codes, arith,
}
use basic_component_design.RedisPool.{
  string, array, is_array, Child, Reply, Server, State, Request, c_str, arguments, formatted, text,
  init, drop_context, free_reply, redis_command, Event, connects, opens, frees_context, sends,
  replies, frees_reply,
}
use basic_component_design.RedisPool.Traced.{redis_command-cases}
use basic_component_design.RedisPool.Commands.{
  take_pairs, flatten, ask, with_conn, read_reply, request_reply, hget_all, hmset,
}

text_eq_refl : (a : Text) → text_eq a a ≡ true
text_eq_refl [] = refl
text_eq_refl (x ∷ a) = let ih = text_eq_refl a in ground arith

text_eq_comm : (a b : Text) → text_eq a b ≡ text_eq b a
text_eq_comm [] [] = refl
text_eq_comm [] (y ∷ b) = refl
text_eq_comm (x ∷ a) [] = refl
text_eq_comm (x ∷ a) (y ∷ b) = let ih = text_eq_comm a b in ground arith

-- No entry of the map has the key.
abbrev pub Lacks : Text → TextMap → Type 0
Lacks k [] = Unit
Lacks k (e ∷ m) = (text_eq k e.0 ≡ false) × Lacks k m

-- No two entries have one key.
abbrev pub OneEach : TextMap → Type 0
OneEach [] = Unit
OneEach (e ∷ m) = Lacks e.0 m × OneEach m

-- No byte is a NUL.
abbrev pub IsPlain : Text → Type 0
IsPlain = All (λ b. b ≢ 0)

abbrev pub ArePlain : TextMap → Type 0
ArePlain [] = Unit
ArePlain (e ∷ m) = IsPlain e.0 × IsPlain e.1 × ArePlain m

c_str-IsPlain : (t : Text) → IsPlain t → c_str t ≡ t
c_str-IsPlain [] p = refl
c_str-IsPlain (b ∷ bs) (n, p) =
    let f : (b == 0) ≡ false = ground arith in rw f (ap (λ v. b ∷ v) (c_str-IsPlain bs p))

-- The names and values of a map as they are.
abbrev entries : TextMap → List Text
entries [] = []
entries (e ∷ m) = e.0 ∷ e.1 ∷ entries m

flatten-entries : (m : TextMap) → ArePlain m → flatten m ≡ entries m
unfolding flatten
flatten-entries [] p = refl
flatten-entries (e ∷ m) (a, b, p) =
    rw (c_str-IsPlain e.0 a, c_str-IsPlain e.1 b, flatten-entries m p) refl

-- The elements of a reply that sends these texts.
abbrev pub sent_back : List Text → List Child
sent_back = map (λ t. record { kind = string; str = t })

insert-Lacks : (k v : Text) (m : TextMap) → Lacks k m → insert k v m ≡ m ++ ((k, v) ∷ [])
insert-Lacks k v [] l = refl
insert-Lacks k v (e ∷ m) (n, l) = rw (n, insert-Lacks k v m l) refl

append-Lacks :
    (k : Text) (m : TextMap) (e : Text × Text)
    → Lacks k m
    → text_eq k e.0 ≡ false
    → Lacks k (m ++ (e ∷ []))
append-Lacks k [] e l n = (n, tt)
append-Lacks k (d ∷ m) e (h, l) n = (h, append-Lacks k m e l n)

-- The first map has no key of the second.
abbrev Apart : TextMap → TextMap → Type 0
Apart m [] = Unit
Apart m (e ∷ h) = Lacks e.0 m × Apart m h

append-Apart : (m h : TextMap) (e : Text × Text) → Apart m h → Lacks e.0 h → Apart (m ++ (e ∷ [])) h
append-Apart m [] e a l = tt
append-Apart m (d ∷ h) e (al, a) (n, l) =
    (append-Lacks d.0 m e al (text_eq_comm d.0 e.0 ∙ n), append-Apart m h e a l)

take_pairs-entries :
    (m h : TextMap) → Apart m h → OneEach h → take_pairs (sent_back (entries h)) m ≡ m ++ h
unfolding take_pairs
take_pairs-entries m [] a o = sym (append-nil m)
take_pairs-entries m (e ∷ h) (l, a) (n, o) =
    ap (take_pairs (sent_back (entries h))) (insert-Lacks e.0 e.1 m l)
    ∙ take_pairs-entries (m ++ (e ∷ [])) h (append-Apart m h e a n) o
    ∙ append_assoc m (e ∷ []) h

empty-Apart : (h : TextMap) → Apart [] h
empty-Apart [] = tt
empty-Apart (e ∷ h) = (tt, empty-Apart h)

entries_even : (h : TextMap) → length (sent_back (entries h)) % 2 ≡ 0
entries_even [] = refl
entries_even (e ∷ h) = omega (arith, entries_even h)

-- The last request in the log, and what it sends behind the command and the key.
abbrev pub last_request : List Event → Option Request
last_request [] = none
last_request (connects t ∷ l) = last_request l
last_request (opens c ∷ l) = last_request l
last_request (frees_context c ∷ l) = last_request l
last_request (sends c r ∷ l) = some r
last_request (replies ∷ l) = last_request l
last_request (frees_reply ∷ l) = last_request l

abbrev pub hash_of : Option Request → List Text
hash_of (some (arguments (command ∷ key ∷ ts))) = ts
hash_of _ = []

module _ (server : Server) (password : Text) where
  connected_init : (s : State) (c : ℕ) → s.context ≡ some c → init server password s ≡ (s, pos 0)
  unfolding init
  connected_init s c e = simp (init, e)

  connected_ask {ℓ} :
      {A : Type ℓ} (request : Request) (fail : A) (read : Reply → A) (s : State) (c : ℕ)
      → s.context ≡ some c
      → ask server password request fail read s ≡ request_reply server password request fail read s
  unfolding ask with_conn
  connected_ask request fail read s c e =
      ap
        (λ (r : State × ℤ).
          if is_zero r.1 then request_reply server password request fail read r.0 else (r.0, fail))
        (connected_init s c e)

  hmset-hash :
      (key : Text) (h : TextMap) (s : State) (c : ℕ)
      → s.context ≡ some c
      → hash_of (last_request (hmset server password key h s).0.log) ≡ flatten h
  unfolding hmset request_reply read_reply drop_context free_reply
  hmset-hash key h s c e =
      ap (λ (r : State × Text). hash_of (last_request r.0.log)) (connected_ask _ _ _ s c e)
      ∙ redis_command-cases server
          (λ r. hash_of (last_request (read_reply [] (λ t. t.str) r).0.log) ≡ flatten h) _ s refl
          (λ r. refl)

  hget_all-reply :
      (key : Text) (m : TextMap) (s : State) (c : ℕ) (r : Reply)
      → s.context ≡ some c
      → server.command s.calls (formatted (codes "HGETALL %s") (text (c_str key) ∷ [])) ≡ some r
      → (hget_all server password key m s).1 ≡ (
        true,
        if is_array r.kind && (length r.element % 2 == 0) then take_pairs r.element m else m,
      )
  unfolding hget_all request_reply read_reply redis_command
  hget_all-reply key m s c r e answer =
      ap (λ (r : State × (Bool × TextMap)). r.1) (connected_ask _ _ _ s c e)
      ∙ simp (redis_command, answer)

  -- A map without two entries of one key, and without a NUL in its keys and values, where hmset would
  -- cut them. On connections that are open, when the server answers HGETALL with the texts that hmset
  -- sent behind the key, as an array of strings, then hgetAll into an empty map gives the map that
  -- hmset was given, entry by entry.
  pub hget_all-hmset :
      (key : Text) (h : TextMap) (s t : State) (c d : ℕ) (r : Reply)
      → OneEach h
      → ArePlain h
      → s.context ≡ some c
      → t.context ≡ some d
      → server.command t.calls (formatted (codes "HGETALL %s") (text (c_str key) ∷ [])) ≡ some r
      → r.kind ≡ array
      → r.element ≡ sent_back (hash_of (last_request (hmset server password key h s).0.log))
      → (hget_all server password key [] t).1 ≡ (true, h)
  hget_all-hmset key h s t c d r one plain es et answer kind elements =
      let sent = hmset-hash key h s c es ∙ flatten-entries h plain in
      let back : r.element ≡ sent_back (entries h) = elements ∙ ap sent_back sent in
      let even : (length r.element % 2 == 0) ≡ true =
        (==_iff _ 0).1 (ap (λ (cs : List Child). length cs % 2) back ∙ entries_even h) in
      hget_all-reply key [] t d r et answer
      ∙ rw (kind, even)
          (ap (λ (cs : List Child). (true, take_pairs cs [])) back
            ∙ ap (λ (m : TextMap). (true, m)) (take_pairs-entries [] h (empty-Apart h) one))
