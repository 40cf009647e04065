-- ===== src/Message/DeadDrop/Sees.antt =====
-- What a recipient sees in their mailbox after each operation.
use ephemera_social.Base.{
  ℕ, ◌+◌, ◌≤◌, ◌≡◌, refl, ◌∙◌, Option, none, some, List, [], ◌∷◌, Bool, true, false, not, ◌&&◌,
  length, ltb, min, if◌then◌else◌, same, list_ord, nat_ord, list_eq, Bytes, keep, map, any, Ascends,
  sort_by_key-Ascends, sort_by_key-perm, any-sort_by_key, length-sort_by_key, list_flip, ◌↔◌, arith,
  length-keep-le,
}
use mathlib.Core.List.{Perm}
use ephemera_social.Map
use ephemera_social.Map.{Map, get, insert, remove, contains_key}
use ephemera_social.Map.Laws.{get-insert, get-remove}
use ephemera_social.Map.Sorted.{
  IsSorted, insert-IsSorted, remove-IsSorted, retain-IsSorted, get-keep, get-Above,
}
use ephemera_social.Message.DeadDrop.{
  Row, Table, expired, ok, err, deposit, deposit_raw, insert_or_ignore, is_pending, pending_message,
  pending_rows, check_mailbox, mailbox_count, acknowledge, gc, dead_drop_max_ttl_secs,
}

length-map {ℓ κ} :
    {A : Type ℓ} {B : Type κ} (f : A → B) (xs : List A) → length (map f xs) ≡ length xs
length-map f [] = refl
length-map f (x ∷ xs) = omega (arith, length-map f xs)

any-map {ℓ κ} :
    {A : Type ℓ} {B : Type κ} (p : B → Bool) (f : A → B) (xs : List A)
    → any p (map f xs) ≡ any (λ x. p (f x)) xs
unfolding any
any-map p f [] = refl
any-map p f (x ∷ xs) = ground (arith, any-map p f xs)

-- Whether a slot of the table holds a message that its recipient can see.
abbrev visible : ℕ → Bytes → Option Row → Bool
visible now mailbox none = false
visible now mailbox (some row) = is_pending now mailbox row

any-pending :
    (now : ℕ) (mailbox q : Bytes) (table : Table)
    → IsSorted table
    → any (λ e. same e.0 q) (pending_rows now mailbox table) ≡ visible now mailbox (get q table)
unfolding any keep get
any-pending now mailbox q [] s = refl
any-pending now mailbox q ((j, r) ∷ table) s = ground (
  arith,
  any-pending now mailbox q table s.1,
  get-Above q table,
  list_flip {A = ℕ} j q,
  list_eq {A = ℕ} j q,
  s.0,
)

module _ (mailbox_key hash : Bytes → Bytes) where
  -- A recipient sees exactly the pending rows of their mailbox, oldest deposit first, and
  -- `mailbox_count` is how many they are.
  pub check_mailbox_rows :
      (now : ℕ) (pubkey : Bytes) (table : Table)
      → Perm
          (check_mailbox mailbox_key now pubkey table)
          (map pending_message (pending_rows now (mailbox_key pubkey) table))
        × Ascends (λ m. m.deposited_at) (check_mailbox mailbox_key now pubkey table)
        × (mailbox_count mailbox_key now pubkey table
            ≡ length (check_mailbox mailbox_key now pubkey table))
  unfolding check_mailbox mailbox_count
  check_mailbox_rows now pubkey table =
      let rows = map pending_message (pending_rows now (mailbox_key pubkey) table) in
      (
        sort_by_key-perm (λ m. m.deposited_at) rows,
        sort_by_key-Ascends (λ m. m.deposited_at) rows,
        omega (
          arith,
          length-sort_by_key (λ m. m.deposited_at) rows,
          length-map pending_message (pending_rows now (mailbox_key pubkey) table),
        ),
      )

  -- Whether the recipient finds the message when they check their mailbox.
  abbrev pub sees : ℕ → Bytes → Bytes → Table → Bool
  sees now pubkey q table = any (λ m. same m.id q) (check_mailbox mailbox_key now pubkey table)

  sees-get :
      (now : ℕ) (pubkey q : Bytes) (table : Table)
      → IsSorted table
      → sees now pubkey q table ≡ visible now (mailbox_key pubkey) (get q table)
  unfolding check_mailbox
  sees-get now pubkey q table s =
      any-sort_by_key (λ m. m.deposited_at) (λ m. same m.id q)
        (map pending_message (pending_rows now (mailbox_key pubkey) table))
      ∙ any-map (λ m. same m.id q) pending_message (pending_rows now (mailbox_key pubkey) table)
      ∙ any-pending now (mailbox_key pubkey) q table s

  insert_or_ignore-IsSorted :
      (id : Bytes) (row : Row) (table : Table)
      → IsSorted table
      → IsSorted (insert_or_ignore id row table)
  unfolding insert_or_ignore
  insert_or_ignore-IsSorted id row table s = ground (arith, insert-IsSorted id row table s)

  get-insert_or_ignore :
      (q id : Bytes) (row : Row) (table : Table)
      → get q (insert_or_ignore id row table)
        ≡ (if same q id && not (contains_key id table) then some row else get q table)
  unfolding insert_or_ignore
  get-insert_or_ignore q id row table = ground (arith, get-insert q id row table)

  -- In a table with one row for each id: a serialized message that is deposited under a new id is
  -- seen by its recipient for fourteen days, and by nobody whose mailbox has another key; a
  -- message whose id is in the table changes nothing; and every other message is seen as before.
  pub sees-deposit :
      (now later : ℕ) (recipient pubkey q blob : Bytes) (table : Table)
      → IsSorted table
      → sees later pubkey q (deposit mailbox_key hash now recipient (some blob) table).0 ≡ (
          if same q (hash blob) && not (contains_key (hash blob) table)
          then same (mailbox_key recipient) (mailbox_key pubkey)
            && ltb later (now + dead_drop_max_ttl_secs)
          else sees later pubkey q table)
  unfolding deposit
  sees-deposit now later recipient pubkey q blob table s =
      let row : Row = record {
        mailbox_key = mailbox_key recipient;
        sealed_data = blob;
        deposited_at = now;
        expires_at = now + dead_drop_max_ttl_secs;
      } in
      ground (
        arith,
        sees-get later pubkey q (insert_or_ignore (hash blob) row table)
            (insert_or_ignore-IsSorted (hash blob) row table s),
        sees-get later pubkey q table s,
        get-insert_or_ignore q (hash blob) row table,
      )

  -- In a table with one row for each id: a relayed message that has not expired and whose id is
  -- new is seen by the owner of its mailbox until the earlier of its expiry and fourteen days
  -- from now; one that has expired is refused and one whose id is in the table is ignored; and
  -- every other message is seen as before.
  pub sees-deposit_raw :
      (now later : ℕ) (mailbox id blob pubkey q : Bytes) (deposited_at expires_at : ℕ)
      (table : Table)
      → IsSorted table
      → (sees later pubkey q (deposit_raw now mailbox id blob deposited_at expires_at table).0 ≡ (
          if same q id && (ltb now expires_at && not (contains_key id table))
          then same mailbox (mailbox_key pubkey)
            && (ltb later expires_at && ltb later (now + dead_drop_max_ttl_secs))
          else sees later pubkey q table))
        × ((deposit_raw now mailbox id blob deposited_at expires_at table).1
            ≡ (if ltb now expires_at then ok tt else err expired))
  unfolding deposit_raw
  sees-deposit_raw now later mailbox id blob pubkey q deposited_at expires_at table s =
      let row : Row = record {
        mailbox_key = mailbox;
        sealed_data = blob;
        deposited_at = deposited_at;
        expires_at = min expires_at (now + dead_drop_max_ttl_secs);
      } in
      ground (
        arith,
        sees-get later pubkey q (insert_or_ignore id row table)
            (insert_or_ignore-IsSorted id row table s),
        sees-get later pubkey q table s,
        get-insert_or_ignore q id row table,
      )

  -- In a table with one row for each id: an acknowledged message is seen no more, all others as
  -- before, and the call succeeds exactly if the table has the message. Collecting garbage
  -- changes nothing that is seen then or later, and returns how many rows are gone.
  pub sees-acknowledge :
      (now later : ℕ) (id pubkey q : Bytes) (table : Table)
      → IsSorted table
      → now ≤ later
      → (sees later pubkey q (acknowledge id table).0
          ≡ (if same q id then false else sees later pubkey q table))
        × (((acknowledge id table).1 ≡ ok tt) ↔ (contains_key id table ≡ true))
        × (sees later pubkey q (gc now table).0 ≡ sees later pubkey q table)
        × (Map.size (gc now table).0 + (gc now table).1 ≡ Map.size table)
  unfolding acknowledge gc
  sees-acknowledge now later id pubkey q table s h =
      let live = λ (e : Bytes × Row). ltb now (e.1.expires_at) in
      (
        ground (
          arith,
          sees-get later pubkey q (remove id table) (remove-IsSorted id table s),
          sees-get later pubkey q table s,
          get-remove q id table,
          list_eq {A = ℕ} q id,
        ),
        ground arith,
        ground (
          arith,
          sees-get later pubkey q (keep live table) (retain-IsSorted live table s),
          sees-get later pubkey q table s,
          get-keep live q table s,
        ),
        omega (arith, length-keep-le live table),
      )
