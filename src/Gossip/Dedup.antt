-- ===== src/Gossip/Dedup.antt =====
-- `MessageDedup` of crates/ephemera-gossip/src/plumtree.rs: the hashes of two epochs of five
-- minutes. Instants are seconds; `elapsed` is zero where the clock went back.
use ephemera_social.Base.{
  ℕ, ◌+◌, ◌-◌, ◌≤◌, ◌<◌, ◌≡◌, ◌⊎◌, Bool, true, false, ◌||◌, List, [], ◌∷◌, leb, if◌then◌else◌,
  list_ord, nat_ord, list_self, Bytes, arith, inl, refl,
}
use ephemera_social.Map.{get, insert}
use ephemera_social.Map.Laws.{get-insert}
use ephemera_social.Set
use ephemera_social.Set.{Set}

pub record MessageDedup : Type 0 where
  pub current : Set Bytes
  pub previous : Set Bytes
  pub epoch_start : ℕ
  pub epoch_duration : ℕ

unfoldable pub new : ℕ → MessageDedup
new now = record {
  current = Set.empty;
  previous = Set.empty;
  epoch_start = now;
  epoch_duration = 300;
}

unfoldable pub maybe_rotate : ℕ → MessageDedup → MessageDedup
maybe_rotate now d =
    if leb d.epoch_duration (now - d.epoch_start)
    then record d { current = Set.empty; previous = d.current; epoch_start = now }
    else d

-- `contains` of the two sets.
abbrev pub remembers : Bytes → MessageDedup → Bool
remembers hash d = Set.contains hash d.current || Set.contains hash d.previous

unfoldable pub is_duplicate : ℕ → Bytes → MessageDedup → MessageDedup × Bool
unfolding maybe_rotate get
is_duplicate now hash d = (maybe_rotate now d, remembers hash (maybe_rotate now d))

unfoldable pub mark_seen : Bytes → MessageDedup → MessageDedup
unfolding insert
mark_seen hash d = record d { current = Set.add hash d.current }

-- A sequence of calls, each with the instant of the call.
pub data Call : Type 0 where
  check : ℕ → Bytes → Call
  mark : Bytes → Call

unfoldable pub call : Call → MessageDedup → MessageDedup
unfolding is_duplicate mark_seen
call (check now hash) d = (is_duplicate now hash d).0
call (mark hash) d = mark_seen hash d

unfoldable pub run : List Call → MessageDedup → MessageDedup
unfolding call
run [] d = d
run (c ∷ cs) d = run cs (call c d)

-- The calls of the sequence that read the clock are made from `start` on and before `end`.
abbrev pub Within : ℕ → ℕ → List Call → Type 0
Within start end [] = Unit
Within start end (check now hash ∷ cs) = (start ≤ now) × (now < end) × Within start end cs
Within start end (mark hash ∷ cs) = Within start end cs

-- The hash is in the current epoch, or in the previous one, which then ended at `marked` or later.
abbrev Held : ℕ → ℕ → Bytes → MessageDedup → Type 0
Held marked duration hash d =
    (d.epoch_duration ≡ duration)
    × ((Set.contains hash d.current ≡ true)
        ⊎ ((Set.contains hash d.previous ≡ true) × (marked ≤ d.epoch_start)))

check-Held :
    (marked duration now : ℕ) (hash : Bytes) (d : MessageDedup)
    → marked ≤ now
    → now < marked + duration
    → Held marked duration hash d
    → Held marked duration hash (maybe_rotate now d)
unfolding maybe_rotate
check-Held marked duration now hash d h k held = ground arith

mark-Held :
    (marked duration : ℕ) (hash h : Bytes) (d : MessageDedup)
    → Held marked duration hash d
    → Held marked duration hash (mark_seen h d)
unfolding mark_seen
mark-Held marked duration hash h d held = ground (arith, get-insert hash h tt d.current)

run-Held :
    (marked duration : ℕ) (hash : Bytes) (cs : List Call) (d : MessageDedup)
    → Within marked (marked + duration) cs
    → Held marked duration hash d
    → Held marked duration hash (run cs d)
unfolding run call is_duplicate
run-Held marked duration hash [] d w held = held
run-Held marked duration hash (check now h ∷ cs) d w held =
    run-Held marked duration hash cs (maybe_rotate now d) w.2
      (check-Held marked duration now hash d w.0 w.1 held)
run-Held marked duration hash (mark h ∷ cs) d w held =
    run-Held marked duration hash cs (mark_seen h d) w (mark-Held marked duration hash h d held)

mark_seen-Held :
    (marked : ℕ) (hash : Bytes) (d : MessageDedup)
    → Held marked d.epoch_duration hash (mark_seen hash d)
unfolding mark_seen
mark_seen-Held marked hash d =
    (refl, inl (ground (arith, get-insert hash hash tt d.current, list_self {A = ℕ} hash)))

-- A hash that is marked at some instant is a duplicate at every later instant less than one epoch
-- after it, whatever calls are made in between; and a new memory's epoch is five minutes.
pub is_duplicate_marked :
    (marked now : ℕ) (hash : Bytes) (cs : List Call) (d : MessageDedup)
    → Within marked (marked + d.epoch_duration) cs
    → marked ≤ now
    → now < marked + d.epoch_duration
    → ((is_duplicate now hash (run cs (mark_seen hash d))).1 ≡ true)
      × ((new now).epoch_duration ≡ 300)
unfolding is_duplicate new
is_duplicate_marked marked now hash cs d w h k =
    let held = check-Held marked d.epoch_duration now hash (run cs (mark_seen hash d)) h k (
      run-Held marked d.epoch_duration hash cs (mark_seen hash d) w
        (mark_seen-Held marked hash d)) in
    (ground (arith, held), refl)

-- Two checks, the first at least one epoch after the current one began and the second at least one
-- epoch after the first, with nothing marked between them, forget every hash.
pub is_duplicate_forgets :
    (first second : ℕ) (hash other : Bytes) (d : MessageDedup)
    → d.epoch_start + d.epoch_duration ≤ first
    → first + d.epoch_duration ≤ second
    → (is_duplicate second hash (is_duplicate first other d).0).1 ≡ false
unfolding is_duplicate maybe_rotate get
is_duplicate_forgets first second hash other d h k = ground arith
