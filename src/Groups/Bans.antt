-- ===== src/Groups/Bans.antt =====
-- Who is banned stays out.
use ephemera_social.Base.{
  ℕ, same_cases, ◌≡◌, ◌≢◌, ◌⊎◌, inl, inr, ap, List, [], ◌∷◌, Option, none, some, Bool, true, false,
  not, same, list_ord, nat_ord, pair_ord, Bytes, Result, ok, err, arith, Option-cases, Bool-cases,
  is_some, any, ◌&&◌,
}
use ephemera_social.Map.{Map, get, remove, contains_key}
use ephemera_social.Map.Laws.{get-insert, get-remove}
use ephemera_social.Handle.Format.{HandleValidationError, validate_handle_format}
use ephemera_social.Groups.Roles.{
  GroupRole, owner, admin, can_kick, can_ban, can_delete_group, can_edit_info, can_invite,
}
use ephemera_social.Groups.Store
use ephemera_social.Groups.Store.{
  Db, Key, GroupMember, get_member_role, role_of, update_role, insert_or_ignore, new_member,
  is_banned, is_member,
}
use ephemera_social.Groups.Owner.{with_role-ends}
use ephemera_social.Groups.Service.{
  ServiceError, join_group, invite_to_group, leave_group, kick_member, transfer_ownership,
  ban_member, set_group_role, post_to_group, delete_group_post, register_group_handle, stored,
}

-- The calls on groups, but for creating and deleting one, each with its caller.
pub data Call : Type 0 where
  join : (now : ℕ) (me group_id : Bytes) → Call
  invite : (now : ℕ) (me : Bytes) (within_rate : Bool) (group_id target : Bytes) → Call
  leave : (me group_id : Bytes) → Call
  set_role : (me group_id target : Bytes) (role : GroupRole) → Call
  kick : (me group_id target : Bytes) → Call
  ban : (now : ℕ) (me group_id target : Bytes) (reason : Option (List ℕ)) → Call
  transfer : (me group_id target : Bytes) → Call
  post delete_post : (now : ℕ) (me group_id hash : Bytes) → Call
  set_handle : (me group_id : Bytes) (handle : List ℕ) → Call

unfoldable pub perform : Call → Db → Db
unfolding join_group invite_to_group leave_group set_group_role kick_member ban_member
    transfer_ownership post_to_group delete_group_post register_group_handle
perform (join now me g) db = (join_group now me g db).0
perform (invite now me rate g target) db = (invite_to_group now me rate g target db).0
perform (leave me g) db = (leave_group me g db).0
perform (set_role me g target role) db = (set_group_role me g target role db).0
perform (kick me g target) db = (kick_member me g target db).0
perform (ban now me g target reason) db = (ban_member now me g target reason db).0
perform (transfer me g target) db = (transfer_ownership me g target db).0
perform (post now me g hash) db = (post_to_group now me g hash db).0
perform (delete_post now me g hash) db = (delete_group_post me g hash db).0
perform (set_handle me g handle) db = (register_group_handle me g handle db).0

unfoldable pub perform_all : List Call → Db → Db
unfolding perform
perform_all [] db = db
perform_all (c ∷ cs) db = perform_all cs (perform c db)

-- Banned, and no member.
abbrev pub IsShutOut : Bytes → Bytes → Db → Type 0
IsShutOut g p db = (contains_key (g, p) db.group_bans ≡ true) × (get (g, p) db.group_members ≡ none)

key_cases : (a b : Key) → (same a b ≡ true) × (a ≡ b) ⊎ (same a b ≡ false) × (a ≢ b)
key_cases a b = ground (arith, same_cases a.0 b.0, same_cases a.1 b.1)

-- Nobody else's new row, role or removal brings a member back.
ignored :
    (k q : Key) (m : GroupMember) (members : Map Key GroupMember)
    → k ≢ q
    → get k members ≡ none
    → get k (insert_or_ignore q m members) ≡ none
ignored k q m members d e = elim (Option-cases (get q members)) [
  | inl f ↦ ground (arith, d, e, f, get-insert k q m members, key_cases k q)
  | inr (j, f) ↦ ground (arith, e, f)
]

updated :
    (k q : Key) (role : GroupRole) (members : Map Key GroupMember)
    → get k members ≡ none
    → get k (update_role q role (get q members) members) ≡ none
updated k q role members e = elim (Option-cases (get q members)) [
  | inl f ↦ ground (arith, e, f)
  | inr (j, f) ↦
      ground (arith, e, f, get-insert k q (record j { role = role }) members, key_cases k q)
]

removed :
    (k q : Key) (members : Map Key GroupMember)
    → get k members ≡ none
    → get k (remove q members) ≡ none
removed k q members e = ground (arith, e, get-remove k q members)

module _ (g p : Bytes) where
  -- A result that keeps them out.
  abbrev Out : Db × Result {0, 0} Unit ServiceError → Type 0
  Out r = IsShutOut g p r.0

  join-Out : (now : ℕ) (me h : Bytes) (db : Db) → IsShutOut g p db → Out (join_group now me h db)
  unfolding join_group Store.join_group
  join-Out now me h db v = elim (Option-cases (get h db.groups)) [
    | inl e ↦ rw e v
    | inr (grp, e) ↦ elim (key_cases (g, p) (h, me)) [
      | inl same_one ↦ ground (arith, e, v, same_one.1)
      | inr other ↦
          ground
            (arith, e, v, ignored (g, p) (h, me) (new_member now none) db.group_members other.1)
    ]
  ]

  invite-Out :
      (now : ℕ) (me : Bytes) (rate : Bool) (h target : Bytes) (db : Db)
      → IsShutOut g p db
      → Out (invite_to_group now me rate h target db)
  unfolding invite_to_group Store.invite_to_group
  invite-Out now me rate h target db v = elim (Bool-cases rate) [
    | inr e ↦ rw e v
    | inl e ↦ rw e (
        with_role-ends Out (get_member_role h me db) can_invite db _ (λ e. v)
          (λ role e f. elim (key_cases (g, p) (h, target)) [
            | inl same_one ↦ ground (arith, v, same_one.1)
            | inr other ↦ ground (
              arith,
              v,
              ignored (g, p) (h, target) (new_member now (some me)) db.group_members other.1,
            )
          ]))
  ]

  leave-Out : (me h : Bytes) (db : Db) → IsShutOut g p db → Out (leave_group me h db)
  unfolding leave_group Store.leave_group
  leave-Out me h db v = ground (arith, v, removed (g, p) (h, me) db.group_members)

  set_role-Out :
      (me h target : Bytes) (role : GroupRole) (db : Db)
      → IsShutOut g p db
      → Out (set_group_role me h target role db)
  unfolding set_group_role Store.set_group_role
  set_role-Out me h target role db v =
      with_role-ends Out (get_member_role h me db) _ db _ (λ e. v)
        (λ r e f. (v.0, updated (g, p) (h, target) role db.group_members v.1))

  kick-Out : (me h target : Bytes) (db : Db) → IsShutOut g p db → Out (kick_member me h target db)
  unfolding kick_member Store.kick_member
  kick-Out me h target db v =
      with_role-ends Out (get_member_role h me db) can_kick db _ (λ e. v)
        (λ r e f. ground (arith, v, removed (g, p) (h, target) db.group_members))

  ban-Out :
      (now : ℕ) (me h target : Bytes) (reason : Option (List ℕ)) (db : Db)
      → IsShutOut g p db
      → Out (ban_member now me h target reason db)
  unfolding ban_member Store.ban_member
  ban-Out now me h target reason db v =
      let row : Store.GroupBan = record { banned_by = me; reason = reason; banned_at = now } in
      with_role-ends Out (get_member_role h me db) can_ban db _ (λ e. v)
        (λ r e f. (
          ground (arith, v.0, get-insert (g, p) (h, target) row db.group_bans),
          removed (g, p) (h, target) db.group_members v.1,
        ))

  transfer-Out :
      (me h target : Bytes) (db : Db) → IsShutOut g p db → Out (transfer_ownership me h target db)
  unfolding transfer_ownership Store.transfer_ownership Store.set_group_role
  transfer-Out me h target db v =
      with_role-ends Out (get_member_role h me db) can_delete_group db _ (λ e. v)
        (λ r e f. elim (Bool-cases (is_some (get_member_role h target db))) [
          | inl s ↦ rw s (
            v.0,
            updated (g, p) (h, target) owner _ (updated (g, p) (h, me) admin db.group_members v.1),
          )
          | inr s ↦ rw s v
        ])

  claim-Out :
      (r : Result {0, 0} Unit HandleValidationError) (h : Bytes) (handle : List ℕ) (db : Db)
      → IsShutOut g p db
      → Out (stored (Store.claim_handle r h handle db))
  claim-Out (err _) h handle db v = v
  claim-Out (ok _) h handle db v =
      elim (Bool-cases
        (any (λ e. Store.has_handle handle e.1.handle && not (same e.0 h)) db.groups)) [
          | inl e ↦ rw e v
          | inr e ↦ elim (Option-cases (get h db.groups)) [
            | inl f ↦ rw (e, f) v
            | inr (grp, f) ↦ rw (e, f) v
          ]
        ]

  handle-Out :
      (me h : Bytes) (handle : List ℕ) (db : Db)
      → IsShutOut g p db
      → Out (register_group_handle me h handle db)
  unfolding register_group_handle Store.register_group_handle
  handle-Out me h handle db v =
      with_role-ends Out (get_member_role h me db) can_edit_info db _ (λ e. v)
        (λ r e f. claim-Out (validate_handle_format handle) h handle db v)

  perform-Out : (c : Call) (db : Db) → IsShutOut g p db → IsShutOut g p (perform c db)
  unfolding perform post_to_group delete_group_post Store.post_to_group Store.delete_group_post
  perform-Out (join now me h) db v = join-Out now me h db v
  perform-Out (invite now me rate h target) db v = invite-Out now me rate h target db v
  perform-Out (leave me h) db v = leave-Out me h db v
  perform-Out (set_role me h target role) db v = set_role-Out me h target role db v
  perform-Out (kick me h target) db v = kick-Out me h target db v
  perform-Out (ban now me h target reason) db v = ban-Out now me h target reason db v
  perform-Out (transfer me h target) db v = transfer-Out me h target db v
  perform-Out (post now me h hash) db v =
      with_role-ends Out (get_member_role h me db) _ db _ (λ e. v) (λ r e f. v)
  perform-Out (delete_post now me h hash) db v =
      with_role-ends Out (get_member_role h me db) _ db _ (λ e. v) (λ r e f. v)
  perform-Out (set_handle me h handle) db v = handle-Out me h handle db v

  perform_all-Out :
      (cs : List Call) (db : Db) → IsShutOut g p db → IsShutOut g p (perform_all cs db)
  unfolding perform_all
  perform_all-Out [] db v = v
  perform_all-Out (c ∷ cs) db v = perform_all-Out cs (perform c db) (perform-Out c db v)

-- Whom an admin or the owner bans from a group is no member of it any more, and does not become one
-- by any sequence of calls of anybody that join, invite, leave, set roles, kick, ban, transfer the
-- ownership, post, delete posts and set handles; no group is created or deleted among them.
pub ban-shuts_out :
    (now : ℕ) (me g p : Bytes) (reason : Option (List ℕ)) (role : GroupRole) (cs : List Call)
    (db : Db)
    → get_member_role g me db ≡ some role
    → can_ban role ≡ true
    → is_member g p (perform_all cs (ban_member now me g p reason db).0) ≡ false
unfolding ban_member Store.ban_member is_member
ban-shuts_out now me g p reason role cs db e f =
    let row : Store.GroupBan = record { banned_by = me; reason = reason; banned_at = now } in
    let start : IsShutOut g p (ban_member now me g p reason db).0 =
      rw (e, f)
        (
          ground (arith, get-insert (g, p) (g, p) row db.group_bans, key_cases (g, p) (g, p)),
          ground (arith, get-remove (g, p) (g, p) db.group_members, key_cases (g, p) (g, p)),
        ) in
    ap is_some (perform_all-Out g p cs _ start).1
