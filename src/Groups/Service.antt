-- ===== src/Groups/Service.antt =====
-- The group calls of crates/ephemera-node/src/services/social.rs, which ask for the caller's role
-- before they reach the store. `me` is the caller's key; whether the rate limiter lets a call pass is
-- an argument.
use ephemera_social.Base.{
  ℕ, List, ◌∷◌, Option, none, some, Bool, true, not, leb, if◌then◌else◌, ◌==◌, length, Bytes,
  Result, ok, err,
}
use ephemera_social.Groups.Roles.{
  Group, GroupRole, GroupVisibility, SocialError, rank, member, can_set_role, can_kick, can_ban,
  can_invite, can_edit_info, can_delete_posts, can_delete_group,
}
use ephemera_social.Groups.Store
use ephemera_social.Groups.Store.{Db, get_member_role}

pub data ServiceError : Type 0 where
  rate_limited not_a_member insufficient_permissions target_not_below bad_hash : ServiceError
  store : SocialError → ServiceError

abbrev pub Outcome : Type 0
Outcome = Db × Result {0, 0} Unit ServiceError

-- `map_err` on what the store gives.
abbrev pub stored : Db × Result {0, 0} Unit SocialError → Db × Result {0, 0} Unit ServiceError
stored (db, ok tt) = (db, ok tt)
stored (db, err e) = (db, err (store e))

-- A call that needs a role for which `allowed` holds.
abbrev pub with_role :
    Option GroupRole
    → (GroupRole → Bool)
    → Db
    → (GroupRole → Db × Result {0, 0} Unit ServiceError)
    → Db × Result {0, 0} Unit ServiceError
with_role none allowed db act = (db, err not_a_member)
with_role (some role) allowed db act =
    if allowed role then act role else (db, err insufficient_permissions)

abbrev pub created : Db × Result Group SocialError → Db × Result {0, 0} Unit ServiceError
created (db, ok _) = (db, ok tt)
created (db, err e) = (db, err (store e))

unfoldable pub create_group :
    (group_id_from_name : List ℕ → Bytes) (now : ℕ) (me : Bytes) (within_rate : Bool)
    (name : List ℕ) (description : Option (List ℕ))
    → GroupVisibility
    → Db
    → Outcome
unfolding Store.create_group
create_group group_id_from_name now me within_rate name description visibility db =
    if not within_rate
    then (db, err rate_limited)
    else created (Store.create_group group_id_from_name name description visibility me now db)

unfoldable pub register_group_handle : (me group_id : Bytes) (handle : List ℕ) → Db → Outcome
unfolding get_member_role Store.register_group_handle
register_group_handle me group_id handle db =
    with_role (get_member_role group_id me db) can_edit_info db
      (λ _. stored (Store.register_group_handle group_id handle db))

unfoldable pub join_group : (now : ℕ) (me group_id : Bytes) → Db → Outcome
unfolding Store.join_group
join_group now me group_id db = stored (Store.join_group group_id me now db)

unfoldable pub invite_to_group :
    (now : ℕ) (me : Bytes) (within_rate : Bool) (group_id target : Bytes) → Db → Outcome
unfolding get_member_role Store.invite_to_group
invite_to_group now me within_rate group_id target db =
    if not within_rate
    then (db, err rate_limited)
    else with_role (get_member_role group_id me db) can_invite db
        (λ _. stored (Store.invite_to_group group_id target me now db))

unfoldable pub leave_group : (me group_id : Bytes) → Db → Outcome
unfolding Store.leave_group
leave_group me group_id db = stored (Store.leave_group group_id me db)

unfoldable pub set_group_role : (me group_id target : Bytes) → GroupRole → Db → Outcome
unfolding get_member_role Store.set_group_role
set_group_role me group_id target target_role db =
    with_role (get_member_role group_id me db) (λ my_role. can_set_role my_role target_role) db
      (λ _. (Store.set_group_role group_id target target_role db, ok tt))

-- `unwrap_or(GroupRole::Member)`
abbrev pub or_member : Option GroupRole → GroupRole
or_member none = member
or_member (some role) = role

unfoldable pub kick_member : (me group_id target : Bytes) → Db → Outcome
unfolding get_member_role Store.kick_member
kick_member me group_id target db =
    with_role (get_member_role group_id me db) can_kick db (λ my_role.
      if leb (rank (or_member (get_member_role group_id target db))) (rank my_role)
      then (db, err target_not_below)
      else (Store.kick_member group_id target db, ok tt))

unfoldable pub ban_member : (now : ℕ) (me group_id target : Bytes) → Option (List ℕ) → Db → Outcome
unfolding get_member_role Store.ban_member
ban_member now me group_id target reason db =
    with_role (get_member_role group_id me db) can_ban db
      (λ _. (Store.ban_member group_id target me reason now db, ok tt))

-- A hash of 32 bytes gets the version byte of the wire format.
abbrev pub wire_bytes : Bytes → Bytes
wire_bytes hash = if length hash == 32 then 1 ∷ hash else hash

-- The hash has been read from its hex.
unfoldable pub post_to_group : (now : ℕ) (me group_id hash : Bytes) → Db → Outcome
unfolding get_member_role Store.post_to_group
post_to_group now me group_id hash db =
    with_role (get_member_role group_id me db) (λ _. true) db
      (λ _. (Store.post_to_group group_id (wire_bytes hash) me now db, ok tt))

unfoldable pub delete_group : (me group_id : Bytes) → Db → Outcome
unfolding get_member_role Store.delete_group
delete_group me group_id db =
    with_role (get_member_role group_id me db) can_delete_group db
      (λ _. (Store.delete_group group_id db, ok tt))

unfoldable pub transfer_ownership : (me group_id new_owner : Bytes) → Db → Outcome
unfolding get_member_role Store.transfer_ownership
transfer_ownership me group_id new_owner db =
    with_role (get_member_role group_id me db) can_delete_group db
      (λ _. stored (Store.transfer_ownership group_id me new_owner db))

unfoldable pub delete_group_post : (me group_id hash : Bytes) → Db → Outcome
unfolding get_member_role Store.delete_group_post
delete_group_post me group_id hash db =
    with_role (get_member_role group_id me db) can_delete_posts db
      (λ _. (Store.delete_group_post group_id hash db, ok tt))
