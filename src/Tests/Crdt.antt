-- ===== src/Tests/Crdt.antt =====
-- crates/ephemera-crdt at small inputs.
use ephemera_social.Base.{
  ℕ, ◌+◌, ◌≤◌, ◌≡◌, refl, max, [], ◌∷◌, ◌⊎◌, true, false, ◌||◌, arith, nat_ord, pair_ord, ltb, ◌≢◌,
  ◌↔◌, same, if◌then◌else◌, saturating_add,
}
use mathlib.Core.List.Perm
use ephemera_social.Map.{get, values}
use ephemera_social.Set
use ephemera_social.Types.Hlc.{wall_secs, counter}
use ephemera_social.Crdt.Clock.{
  local, receive, issued, Ascending, issued-Ascending, tick, tick_wraps, step,
}
use ephemera_social.Crdt.GCounter
use ephemera_social.Crdt.GCounter.{GCounter}
use ephemera_social.Crdt.GCounter.Merge.{counter_merge_laws, actor_value-ops}
use ephemera_social.Crdt.GCounter.Total.{total, value-merge_le}
use ephemera_social.Crdt.LwwRegister
use ephemera_social.Crdt.LwwRegister.{
  LwwRegister, merge_all, merge_all-perm, Consistent, register_merge_laws,
}
use ephemera_social.Crdt.OrSet
use ephemera_social.Crdt.OrSet.{OrSet, or_default}
use ephemera_social.Crdt.OrSet.Laws.{or_set_merge_laws, contains-ops, removal_undone}
use ephemera_social.Crdt.OrSet.Tags.{IsSound, ops-IsSound, add_fresh}

program : Unit {0}
unfolding GCounter.increment GCounter.merge GCounter.value GCounter.new OrSet.add OrSet.discard
    OrSet.merge OrSet.contains OrSet.elements OrSet.new
program = tt

-- Two replicas of a counter.
abbrev likes : GCounter ℕ
likes = record { counts = (1, 10) ∷ (2, 3) ∷ [] }

abbrev more_likes : GCounter ℕ
more_likes = record { counts = (1, 7) ∷ (4, 4) ∷ [] }

merged_likes : GCounter.merge likes more_likes ≡ record { counts = (1, 10) ∷ (2, 3) ∷ (4, 4) ∷ [] }
unfolding program
merged_likes = refl

-- Concurrent additions on two nodes; the removal on the second saw only its own.
abbrev followers : OrSet ℕ ℕ
followers = record { entries = (5, ((1, 1), tt) ∷ []) ∷ []; counters = (1, 1) ∷ [] }

abbrev other_followers : OrSet ℕ ℕ
other_followers = record { entries = (7, ((2, 2), tt) ∷ []) ∷ []; counters = (2, 2) ∷ [] }

added_followers : OrSet.add 1 5 OrSet.new ≡ (followers, (1, 1))
unfolding program
added_followers = refl

merged_followers : OrSet.elements (OrSet.merge followers other_followers) ≡ 5 ∷ 7 ∷ []
unfolding program
merged_followers = refl

issued-Ascending_example :
    Ascending 6553607
      (issued (local 90 ∷ receive 90 6553700 ∷ local 200 ∷ []) (record { latest = 6553607 }))
unfolding wall_secs counter step
issued-Ascending_example =
    issued-Ascending (local 90 ∷ receive 90 6553700 ∷ local 200 ∷ []) (record { latest = 6553607 })
      (omega arith)

tick_wraps_example : (tick 90 (record { latest = 6619135 })).1 + 65535 ≡ 6619135
unfolding wall_secs counter
tick_wraps_example = tick_wraps 90 (record { latest = 6619135 }) (omega arith) (omega arith) refl

counter_merge_laws_example :
    (GCounter.merge likes more_likes ≡ GCounter.merge more_likes likes)
    × (GCounter.merge (GCounter.merge likes more_likes) likes
        ≡ GCounter.merge likes (GCounter.merge more_likes likes))
    × (GCounter.merge likes likes ≡ likes)
counter_merge_laws_example =
    counter_merge_laws likes more_likes likes (ground arith) (ground arith) (ground arith)

actor_value-ops_example :
    (GCounter.actor_value 4 (GCounter.increment 4 2 likes) ≡ (
      if same {K = ℕ} 4 4
      then saturating_add (GCounter.actor_value 4 likes) 2
      else GCounter.actor_value 4 likes))
    × (GCounter.actor_value 4 (GCounter.merge likes more_likes)
        ≡ max (GCounter.actor_value 4 likes) (GCounter.actor_value 4 more_likes))
actor_value-ops_example = actor_value-ops 4 4 2 likes more_likes (ground arith)

value-merge_le_example :
    (GCounter.value (GCounter.merge likes more_likes)
      ≡ total (values (GCounter.merge likes more_likes).counts))
    × (GCounter.value likes ≤ GCounter.value (GCounter.merge likes more_likes))
    × (GCounter.value more_likes ≤ GCounter.value (GCounter.merge likes more_likes))
unfolding program total
value-merge_le_example = value-merge_le likes more_likes (ground arith) (ground arith) (omega arith)

-- Two writes of a profile field, received in either order.
abbrev bio : ℕ → ℕ
bio t = t + 1

abbrev draft : LwwRegister ℕ
draft = record { value = 1; timestamp = 0 }

abbrev second_bio : LwwRegister ℕ
second_bio = record { value = 201; timestamp = 200 }

abbrev third_bio : LwwRegister ℕ
third_bio = record { value = 301; timestamp = 300 }

merge_all-perm_example :
    (merge_all draft (second_bio ∷ third_bio ∷ []) ≡ merge_all draft (third_bio ∷ second_bio ∷ []))
    × ((LwwRegister.merge second_bio third_bio ≡ LwwRegister.merge third_bio second_bio)
        ↔ ((second_bio.timestamp ≢ third_bio.timestamp) ⊎ (second_bio ≡ third_bio)))
merge_all-perm_example =
    merge_all-perm bio draft second_bio third_bio (second_bio ∷ third_bio ∷ [])
      (third_bio ∷ second_bio ∷ []) refl (refl, (refl, tt)) (refl, (refl, tt))
      (Perm.swap third_bio second_bio [])

register_merge_laws_example :
    ((LwwRegister.set 9 250 second_bio).0 ≡ LwwRegister.merge second_bio (LwwRegister.new 9 250))
    × ((LwwRegister.set 9 250 second_bio).1 ≡ ltb 200 250)
    × (LwwRegister.merge (LwwRegister.merge second_bio third_bio) draft
        ≡ LwwRegister.merge second_bio (LwwRegister.merge third_bio draft))
    × (LwwRegister.merge second_bio second_bio ≡ second_bio)
    × ((LwwRegister.merge second_bio third_bio ≡ LwwRegister.merge third_bio second_bio)
        ↔ ((second_bio.timestamp ≢ third_bio.timestamp) ⊎ (second_bio ≡ third_bio)))
register_merge_laws_example = register_merge_laws second_bio third_bio draft 9 250

followers-IsSound : IsSound followers
unfolding get
followers-IsSound = record { sorted = ground arith; tags = ground arith; counted = ground arith }

other_followers-IsSound : IsSound other_followers
unfolding get
other_followers-IsSound = record {
  sorted = ground arith;
  tags = ground arith;
  counted = ground arith;
}

ops-IsSound_example :
    IsSound {A = ℕ} {V = ℕ} OrSet.new
    × IsSound (OrSet.add 1 7 followers).0
    × IsSound (OrSet.discard 7 followers).0
    × IsSound (OrSet.merge followers other_followers)
unfolding get
ops-IsSound_example =
    ops-IsSound 1 7 followers other_followers (omega arith) followers-IsSound
      other_followers-IsSound

add_fresh_example :
    (Set.contains (OrSet.add 1 7 followers).1 (or_default (get 5 followers.entries)) ≡ false)
    × (Set.contains
          (OrSet.add 1 7 followers).1
          (or_default (get 7 (OrSet.add 1 7 followers).0.entries))
        ≡ true)
unfolding get
add_fresh_example = add_fresh 1 7 5 followers (omega arith) followers-IsSound

removal_undone_example :
    OrSet.contains 5 (OrSet.merge (OrSet.discard 5 followers).0 followers)
    ≡ OrSet.contains 5 followers
removal_undone_example = removal_undone 5 followers followers

followers-IsValid : OrSet.Laws.IsValid followers
followers-IsValid = record { sorted = ground arith; live = ground arith; counted = ground arith }

other_followers-IsValid : OrSet.Laws.IsValid other_followers
other_followers-IsValid = record {
  sorted = ground arith;
  live = ground arith;
  counted = ground arith;
}

or_set_merge_laws_example :
    (OrSet.merge followers other_followers ≡ OrSet.merge other_followers followers)
    × (OrSet.merge (OrSet.merge followers other_followers) followers
        ≡ OrSet.merge followers (OrSet.merge other_followers followers))
    × (OrSet.merge followers followers ≡ followers)
or_set_merge_laws_example =
    or_set_merge_laws followers other_followers followers followers-IsValid other_followers-IsValid
      followers-IsValid

contains-ops_example :
    (OrSet.contains 5 (OrSet.add 1 7 followers).0
      ≡ (same {K = ℕ} 5 7 || OrSet.contains 5 followers))
    × (OrSet.contains 5 (OrSet.discard 7 followers).0
        ≡ (if same {K = ℕ} 5 7 then false else OrSet.contains 5 followers))
    × ((OrSet.discard 7 followers).1 ≡ OrSet.contains 7 followers)
    × (OrSet.contains 5 (OrSet.merge followers other_followers)
        ≡ (OrSet.contains 5 followers || OrSet.contains 5 other_followers))
contains-ops_example = contains-ops 5 7 1 followers other_followers followers-IsValid
