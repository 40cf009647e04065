-- ===== src/Groups/Owner.antt =====
-- A group has one owner, as long as nobody uses a call that does not look at its target.
use ephemera_social.Base.{
  ℕ, same_cases, ◌≡◌, ◌⊎◌, inl, inr, refl, ap, List, Option, none, some, Bool, true, false,
  if◌then◌else◌, same, list_ord, nat_ord, pair_ord, list_self, Bytes, Result, ok, err, arith,
  Option-cases, Bool-cases,
}
use ephemera_social.Map.{Map, get, remove}
use ephemera_social.Map.Laws.{get-insert, get-remove}
use ephemera_social.Groups.Roles.{
  GroupRole, owner, admin, moderator, member, can_kick, can_ban, can_delete_group,
}
use ephemera_social.Groups.Store
use ephemera_social.Groups.Store.{
  Db, Key, GroupMember, get_member_role, role_of, is_owner, update_role, insert_or_ignore,
  new_member,
}
use ephemera_social.Groups.Service.{
  ServiceError, not_a_member, insufficient_permissions, join_group, invite_to_group, leave_group,
  kick_member, transfer_ownership, ban_member, with_role,
}

-- The group has this owner, and no other.
abbrev pub IsOwnedBy : Bytes → Bytes → Db → Type 0
IsOwnedBy group_id o db = (p : Bytes) → is_owner (get_member_role group_id p db) ≡ same p o

pub same_key : (g p q : Bytes) → same {K = Key} (g, p) (g, q) ≡ same p q
same_key g p q = ground (arith, list_self {A = ℕ} g)

-- A new member is no owner.
ignore-kept :
    (g o q : Bytes) (joined_at : ℕ) (by : Option Bytes) (members : Map Key GroupMember) (p : Bytes)
    → is_owner (role_of (get (g, p) members)) ≡ same p o
    → is_owner (role_of (get (g, p) (insert_or_ignore (g, q) (new_member joined_at by) members)))
      ≡ same p o
ignore-kept g o q joined_at by members p v = elim (Option-cases (get (g, q) members)) [
  | inl e ↦ ground (
    arith,
    v,
    e,
    get-insert (g, p) (g, q) (new_member joined_at by) members,
    same_key g p q,
    same_cases p q,
  )
  | inr (m, e) ↦ ground (arith, v, e)
]

remove-kept :
    (g o q : Bytes) (members : Map Key GroupMember) (p : Bytes)
    → is_owner (role_of (get (g, q) members)) ≡ false
    → is_owner (role_of (get (g, p) members)) ≡ same p o
    → is_owner (role_of (get (g, p) (remove (g, q) members))) ≡ same p o
remove-kept g o q members p e v =
    ground (arith, v, e, get-remove (g, p) (g, q) members, same_key g p q, same_cases p q)

update-role :
    (g p q : Bytes) (role : GroupRole) (members : Map Key GroupMember) (m : GroupMember)
    → get (g, q) members ≡ some m
    → role_of (get (g, p) (update_role (g, q) role (get (g, q) members) members))
      ≡ (if same p q then some role else role_of (get (g, p) members))
update-role g p q role members m e =
    ground (arith, e, get-insert (g, p) (g, q) (record m { role = role }) members, same_key g p q)

-- A row is still there when another's role, or its own, is set.
kept_row :
    (g p q : Bytes) (role : GroupRole) (members : Map Key GroupMember) (k m : GroupMember)
    → get (g, q) members ≡ some k
    → get (g, p) members ≡ some m
    → (j : GroupMember) × (get (g, p) (update_role (g, q) role (get (g, q) members) members)
        ≡ some j)
kept_row g p q role members k m h f = elim (same_cases p q) [
  | inl s ↦ (
    record k { role = role },
    ground (
      arith,
      h,
      f,
      s.0,
      same_key g p q,
      get-insert (g, p) (g, q) (record k { role = role }) members,
    ),
  )
  | inr s ↦ (
    m,
    ground (
      arith,
      h,
      f,
      s.0,
      same_key g p q,
      get-insert (g, p) (g, q) (record k { role = role }) members,
    ),
  )
]

no_role :
    (g p : Bytes) (db : Db) → get (g, p) db.group_members ≡ none → get_member_role g p db ≡ none
unfolding get_member_role
no_role g p db e = ap role_of e

some_role :
    (g p : Bytes) (db : Db) (m : GroupMember)
    → get (g, p) db.group_members ≡ some m
    → get_member_role g p db ≡ some m.role
unfolding get_member_role
some_role g p db m e = ap role_of e

pub with_role-ends :
    (Q : Db × Result {0, 0} Unit ServiceError → Type 0) (r : Option GroupRole)
    (allowed : GroupRole → Bool) (db : Db) (act : GroupRole → Db × Result {0, 0} Unit ServiceError)
    → ((e : ServiceError) → Q (db, err e))
    → ((role : GroupRole) → r ≡ some role → allowed role ≡ true → Q (act role))
    → Q (with_role r allowed db act)
with_role-ends Q none allowed db act f k = f not_a_member
with_role-ends Q (some role) allowed db act f k = elim (Bool-cases (allowed role)) [
  | inl e ↦ rw e (k role refl e)
  | inr e ↦ rw e (f insufficient_permissions)
]

join-kept :
    (now : ℕ) (me g o : Bytes) (db : Db)
    → IsOwnedBy g o db
    → IsOwnedBy g o (join_group now me g db).0
unfolding join_group Store.join_group get_member_role
join-kept now me g o db v p = elim (Option-cases (get g db.groups)) [
  | inl e ↦ ground (arith, e, v p)
  | inr (grp, e) ↦ ground (arith, e, v p, ignore-kept g o me now none db.group_members p)
]

invite-kept :
    (now : ℕ) (me : Bytes) (rate : Bool) (g target o : Bytes) (db : Db)
    → IsOwnedBy g o db
    → IsOwnedBy g o (invite_to_group now me rate g target db).0
unfolding invite_to_group Store.invite_to_group get_member_role
invite-kept now me rate g target o db v p =
    ground (arith, v p, ignore-kept g o target now (some me) db.group_members p)

leave-kept : (me g o : Bytes) (db : Db) → IsOwnedBy g o db → IsOwnedBy g o (leave_group me g db).0
unfolding leave_group Store.leave_group get_member_role
leave-kept me g o db v p = ground (arith, v p, remove-kept g o me db.group_members p)

kick-kept :
    (me g target o : Bytes) (db : Db)
    → IsOwnedBy g o db
    → IsOwnedBy g o (kick_member me g target db).0
unfolding kick_member Store.kick_member get_member_role
kick-kept me g target o db v p =
    with_role-ends (λ r. is_owner (get_member_role g p r.0) ≡ same p o) (get_member_role g me db)
      can_kick db _ (λ e. v p)
      (λ role e f. ground (arith, v p, remove-kept g o target db.group_members p))

only_owner :
    (r : Option GroupRole) (role : GroupRole)
    → r ≡ some role
    → can_delete_group role ≡ true
    → is_owner r ≡ true
unfolding can_delete_group
only_owner r owner e f = ap is_owner e
only_owner r admin e f = absurd (ground arith)
only_owner r moderator e f = absurd (ground arith)
only_owner r member e f = absurd (ground arith)

present : (r : Option GroupMember) → is_owner (role_of r) ≡ true → (m : GroupMember) × (r ≡ some m)
present none e = absurd (ground arith)
present (some m) e = (m, refl)

transferred :
    (me g target o : Bytes) (db : Db) (m : GroupMember)
    → IsOwnedBy g o db
    → is_owner (get_member_role g me db) ≡ true
    → get (g, target) db.group_members ≡ some m
    → (me ≡ o)
      × IsOwnedBy g target
          (Store.set_group_role g target owner (Store.set_group_role g me admin db))
unfolding get_member_role Store.set_group_role
transferred me g target o db m v e f =
    let (k, h) = present (get (g, me) db.group_members) e in
    let first = update_role (g, me) admin (get (g, me) db.group_members) db.group_members in
    let (j, l) = kept_row g target me admin db.group_members k m h f in
    (
      ground (arith, v me, e, same_cases me o),
      λ p. ground (
        arith,
        v p,
        v me,
        e,
        update-role g p me admin db.group_members k h,
        update-role g p target owner first j l,
        same_cases me o,
        same_cases p me,
        same_cases p o,
      ),
    )

-- Handing over is for the owner alone, who then is the owner no longer: the target is, if it is a
-- member.
transfer-kept :
    (me g target o : Bytes) (db : Db)
    → IsOwnedBy g o db
    → ((transfer_ownership me g target db).0 ≡ db)
      ⊎ ((me ≡ o) × IsOwnedBy g target (transfer_ownership me g target db).0)
unfolding transfer_ownership Store.transfer_ownership
transfer-kept me g target o db v =
    with_role-ends (λ r. (r.0 ≡ db) ⊎ ((me ≡ o) × IsOwnedBy g target r.0)) (get_member_role g me db)
      can_delete_group db _ (λ e. inl refl)
      (λ role e f. elim (Option-cases (get (g, target) db.group_members)) [
        | inl n ↦ rw (no_role g target db n) (inl refl)
        | inr (m, n) ↦ rw (some_role g target db m n) (
            inr
              (transferred me g target o db m v (only_owner (get_member_role g me db) role e f) n))
      ])

-- A group keeps its one owner when members join, are invited, leave or are kicked, however these calls
-- end; the owner alone can hand the group over, and then the new owner is the one.
pub owner_ops-IsOwnedBy :
    (now : ℕ) (me g target o : Bytes) (within_rate : Bool) (db : Db)
    → IsOwnedBy g o db
    → IsOwnedBy g o (join_group now me g db).0
      × IsOwnedBy g o (invite_to_group now me within_rate g target db).0
      × IsOwnedBy g o (leave_group me g db).0
      × IsOwnedBy g o (kick_member me g target db).0
      × (((transfer_ownership me g target db).0 ≡ db)
          ⊎ ((me ≡ o) × IsOwnedBy g target (transfer_ownership me g target db).0))
owner_ops-IsOwnedBy now me g target o within_rate db v = (
  join-kept now me g o db v,
  invite-kept now me within_rate g target o db v,
  leave-kept me g o db v,
  kick-kept me g target o db v,
  transfer-kept me g target o db v,
)

-- An admin can ban the owner of a group, which then has none.
pub ban-ownerless :
    (now : ℕ) (me g o : Bytes) (reason : Option (List ℕ)) (db : Db) (p : Bytes)
    → IsOwnedBy g o db
    → get_member_role g me db ≡ some admin
    → ((ban_member now me g o reason db).1 ≡ ok tt)
      × (is_owner (get_member_role g p (ban_member now me g o reason db).0) ≡ false)
unfolding ban_member Store.ban_member get_member_role can_ban
ban-ownerless now me g o reason db p v e =
    ground (arith, e, v p, get-remove (g, p) (g, o) db.group_members, same_key g p o)
