-- ===== src/Message/DeadDrop/Lifetime.antt =====
-- How long the table keeps a message: one row for each id, none beyond the longest lifetime.
use ephemera_social.Base.{
  ℕ, ◌+◌, ◌≤◌, ◌≡◌, refl, Option, none, some, List, [], ◌∷◌, ltb, min, All, Bool, true, false,
  if◌then◌else◌, list_ord, nat_ord, Bytes, keep, arith, All-imp, All-keep, Bool-cases, inl, inr,
}
use ephemera_social.Map
use ephemera_social.Map.{Map, get, insert, remove, contains_key}
use ephemera_social.Map.Laws.{Values, Values-insert, Values-remove}
use ephemera_social.Map.Sorted.{IsSorted, insert-IsSorted, remove-IsSorted, retain-IsSorted}
use ephemera_social.Message.DeadDrop.{
  Row, Table, deposit, deposit_raw, deposit_sealed, insert_or_ignore, acknowledge, gc,
  dead_drop_max_ttl_secs, Result,
}

-- The table at an instant: one row for each id, none of which outlives the longest lifetime.
pub record IsValid (now : ℕ) (table : Table) : Type 0 where
  pub sorted : IsSorted table
  pub bounded : Values (λ r. r.expires_at ≤ now + dead_drop_max_ttl_secs) table

module _ (mailbox_key hash : Bytes → Bytes) where
  IsValid-later :
      (before now : ℕ) (table : Table) → before ≤ now → IsValid before table → IsValid now table
  IsValid-later before now table h v = record {
    sorted = v.sorted;
    bounded = All-imp (λ e k. omega (arith, k)) table v.bounded;
  }

  insert_or_ignore-IsValid :
      (now : ℕ) (id : Bytes) (row : Row) (table : Table)
      → row.expires_at ≤ now + dead_drop_max_ttl_secs
      → IsValid now table
      → IsValid now (insert_or_ignore id row table)
  unfolding insert_or_ignore
  insert_or_ignore-IsValid now id row table h v = elim (Bool-cases (contains_key id table)) [
    | inl old ↦ rw old v
    | inr new ↦ rw new (record {
      sorted = insert-IsSorted id row table v.sorted;
      bounded =
          Values-insert (λ r. r.expires_at ≤ now + dead_drop_max_ttl_secs) id row table h v.bounded;
    })
  ]

  deposit_sealed-IsValid :
      (now : ℕ) (mailbox : Bytes) (sealed : Option Bytes) (table : Table)
      → IsValid now table
      → IsValid now (deposit_sealed hash now mailbox sealed table).0
  deposit_sealed-IsValid now mailbox none table v = v
  deposit_sealed-IsValid now mailbox (some blob) table v =
      insert_or_ignore-IsValid now (hash blob)
        (record {
          mailbox_key = mailbox;
          sealed_data = blob;
          deposited_at = now;
          expires_at = now + dead_drop_max_ttl_secs;
        })
        table (omega arith) v

  -- Every operation keeps the table valid as the clock goes on: one row for each id, and no row
  -- that expires later than fourteen days after the operation.
  pub dead_drop-IsValid :
      (before now : ℕ) (recipient mailbox id blob : Bytes) (sealed : Option Bytes)
      (deposited_at expires_at : ℕ) (table : Table)
      → before ≤ now
      → IsValid before table
      → IsValid now (deposit mailbox_key hash now recipient sealed table).0
        × IsValid now (deposit_raw now mailbox id blob deposited_at expires_at table).0
        × IsValid now (acknowledge id table).0
        × IsValid now (gc now table).0
  unfolding deposit deposit_raw acknowledge gc
  dead_drop-IsValid before now recipient mailbox id blob sealed deposited_at expires_at table h v =
      let w = IsValid-later before now table h v in
      let bound = λ (r : Row). r.expires_at ≤ now + dead_drop_max_ttl_secs in
      let row : Row = record {
        mailbox_key = mailbox;
        sealed_data = blob;
        deposited_at = deposited_at;
        expires_at = min expires_at (now + dead_drop_max_ttl_secs);
      } in
      (
        deposit_sealed-IsValid now (mailbox_key recipient) sealed table w,
        ground (arith, w, insert_or_ignore-IsValid now id row table (omega arith) w),
        ground (
          arith,
          w.sorted,
          w.bounded,
          remove-IsSorted id table w.sorted,
          Values-remove bound id table w.bounded,
        ),
        record {
          sorted = retain-IsSorted (λ e. ltb now (e.1.expires_at)) table w.sorted;
          bounded = All-keep (λ e. bound (e.1)) (λ e. ltb now (e.1.expires_at)) table w.bounded;
        },
      )

keep_none :
    (now : ℕ) (table : Table)
    → Values (λ r. r.expires_at ≤ now) table
    → keep (λ e. ltb now (e.1.expires_at)) table ≡ []
unfolding keep
keep_none now [] h = refl
keep_none now ((j, r) ∷ table) h = ground (arith, keep_none now table h.1, h.0)

-- A call of the service that changes the table, with the clock's reading.
pub data Call : Type 0 where
  deposits : (now : ℕ) → (recipient : Bytes) → (sealed : Option Bytes) → Call
  deposits_raw : (now : ℕ) → (mailbox id blob : Bytes) → (deposited_at expires_at : ℕ) → Call
  acknowledges : (id : Bytes) → Call
  collects : (now : ℕ) → Call

-- A deposit was made fourteen days or more before `now`.
abbrev pub IsOld : ℕ → Call → Type 0
IsOld now (deposits at recipient sealed) = at + dead_drop_max_ttl_secs ≤ now
IsOld now (deposits_raw at mailbox id blob deposited_at expires_at) =
    at + dead_drop_max_ttl_secs ≤ now
IsOld now c = Unit

insert_or_ignore-bounded :
    (now : ℕ) (id : Bytes) (row : Row) (table : Table)
    → row.expires_at ≤ now
    → Values (λ r. r.expires_at ≤ now) table
    → Values (λ r. r.expires_at ≤ now) (insert_or_ignore id row table)
unfolding insert_or_ignore
insert_or_ignore-bounded now id row table h v = elim (Bool-cases (contains_key id table)) [
  | inl old ↦ rw old v
  | inr new ↦ rw new (Values-insert (λ r. r.expires_at ≤ now) id row table h v)
]

either-bounded :
    (now : ℕ) (b : Bool) (x y : Table × Result Unit)
    → Values (λ r. r.expires_at ≤ now) x.0
    → Values (λ r. r.expires_at ≤ now) y.0
    → Values (λ r. r.expires_at ≤ now) (if b then x else y).0
either-bounded now true x y v w = v
either-bounded now false x y v w = w

acknowledge-bounded :
    (now : ℕ) (id : Bytes) (table : Table)
    → Values (λ r. r.expires_at ≤ now) table
    → Values (λ r. r.expires_at ≤ now) (acknowledge id table).0
unfolding acknowledge
acknowledge-bounded now id table v =
    either-bounded now (contains_key id table) _ _
      (Values-remove (λ r. r.expires_at ≤ now) id table v) v

module _ (mailbox_key hash : Bytes → Bytes) where
  unfoldable pub perform : Call → Table → Table
  unfolding deposit deposit_raw acknowledge gc
  perform (deposits now recipient sealed) table =
      (deposit mailbox_key hash now recipient sealed table).0
  perform (deposits_raw now mailbox id blob deposited_at expires_at) table =
      (deposit_raw now mailbox id blob deposited_at expires_at table).0
  perform (acknowledges id) table = (acknowledge id table).0
  perform (collects now) table = (gc now table).0

  unfoldable pub perform_all : List Call → Table → Table
  unfolding perform
  perform_all [] table = table
  perform_all (c ∷ cs) table = perform_all cs (perform c table)

  perform-bounded :
      (now : ℕ) (c : Call) (table : Table)
      → IsOld now c
      → Values (λ r. r.expires_at ≤ now) table
      → Values (λ r. r.expires_at ≤ now) (perform c table)
  unfolding perform
  perform-bounded now (deposits at recipient none) table h v = v
  perform-bounded now (deposits at recipient (some blob)) table h v =
      insert_or_ignore-bounded now (hash blob) _ table h v
  perform-bounded now (deposits_raw at mailbox id blob deposited_at expires_at) table h v =
      let row : Row = record {
        mailbox_key = mailbox;
        sealed_data = blob;
        deposited_at = deposited_at;
        expires_at = min expires_at (at + dead_drop_max_ttl_secs);
      } in
      let kept = insert_or_ignore-bounded now id row table (omega (arith, h)) v in
      ground (arith, v, kept)
  perform-bounded now (acknowledges id) table h v = acknowledge-bounded now id table v
  perform-bounded now (collects at) table h v =
      All-keep (λ e. e.1.expires_at ≤ now) (λ e. ltb at e.1.expires_at) table v

  perform_all-bounded :
      (now : ℕ) (cs : List Call) (table : Table)
      → All (IsOld now) cs
      → Values (λ r. r.expires_at ≤ now) table
      → Values (λ r. r.expires_at ≤ now) (perform_all cs table)
  unfolding perform_all
  perform_all-bounded now [] table h v = v
  perform_all-bounded now (c ∷ cs) table h v =
      perform_all-bounded now cs (perform c table) h.1 (perform-bounded now c table h.0 v)

  -- Whatever calls of the service have filled a table that was empty at first, and whatever expiry and
  -- instants the raw deposits claimed: if every deposit was made at least fourteen days before `now`,
  -- collecting garbage at `now` removes every row that is left and returns their number.
  pub gc_empties :
      (now : ℕ) (cs : List Call)
      → All (IsOld now) cs
      → gc now (perform_all cs []) ≡ ([], Map.size (perform_all cs []))
  unfolding gc
  gc_empties now cs h =
      ground (arith, keep_none now (perform_all cs []) (perform_all-bounded now cs [] h tt))
