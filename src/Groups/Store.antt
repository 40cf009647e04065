-- ===== src/Groups/Store.antt =====
-- crates/ephemera-social/src/store/group.rs over the tables of crates/ephemera-store/src/metadata.rs.
-- A member, a ban and a post have the group and a second part as their key. The mutex is always free.
use ephemera_social.Base.{
  ℕ, List, Option, none, some, Bool, true, false, not, ◌&&◌, if◌then◌else◌, same, list_ord, nat_ord,
  pair_ord, Bytes, Result, ok, err, any, keep, is_some,
}
use ephemera_social.Map.{Map, get, insert, remove, contains_key, values, retain}
use ephemera_social.Handle.Format.{HandleValidationError, validate_handle_format}
use ephemera_social.Groups.Roles.{
  Group, GroupRole, GroupVisibility, SocialError, public, owner, admin, member, validation,
  not_found, validate_group_name, validate_group_description,
}

abbrev pub Key : Type 0
Key = Bytes × Bytes

pub record GroupMember : Type 0 where
  pub role : GroupRole
  pub joined_at : ℕ
  pub invited_by : Option Bytes

pub record GroupBan : Type 0 where
  pub banned_by : Bytes
  pub reason : Option (List ℕ)
  pub banned_at : ℕ

pub record GroupPost : Type 0 where
  pub author_pubkey : Bytes
  pub posted_at : ℕ

-- The tables; of the chats, the columns that deleting a group reads.
pub record Db : Type 0 where
  pub groups : Map Bytes Group
  pub group_members : Map Key GroupMember
  pub group_bans : Map Key GroupBan
  pub group_posts : Map Key GroupPost
  pub group_chats : Map Bytes (Option Bytes)
  pub group_chat_members : Map Key ℕ
  pub group_chat_messages : Map Bytes Bytes

abbrev pub Outcome : Type 0
Outcome = Db × Result {0, 0} Unit SocialError

abbrev pub name_taken : List ℕ → Map Bytes Group → Bool
name_taken name groups = any (λ g. same g.name name) (values groups)

-- `group_id_from_name` is a parameter, the hash of the name in hex.
unfoldable pub create_group :
    (group_id_from_name : List ℕ → Bytes) (name : List ℕ) (description : Option (List ℕ))
    → GroupVisibility
    → (creator_pubkey : Bytes) (created_at : ℕ) → Db
    → Db × Result Group SocialError
unfolding get insert any
create_group group_id_from_name name description visibility creator_pubkey created_at db =
    let group_id = group_id_from_name name in
    let group : Group = record {
      name = name;
      handle = none;
      description = description;
      visibility = visibility;
      created_by = creator_pubkey;
      created_at = created_at;
    } in
    if not (validate_group_name name)
    then (db, err validation)
    else if not (validate_group_description description)
    then (db, err validation)
    else if contains_key group_id db.groups
    then (db, err validation)
    else if name_taken name db.groups
    then (db, err validation)
    else (
      record db {
        groups = insert group_id group db.groups;
        group_members =
            insert (group_id, creator_pubkey)
              (record { role = owner; joined_at = created_at; invited_by = none }) db.group_members;
      },
      ok group,
    )

abbrev pub set_handle : Bytes → List ℕ → Option Group → Db → Db
set_handle group_id handle none db = db
set_handle group_id handle (some g) db = record db {
  groups = insert group_id (record g { handle = some handle }) db.groups;
}

abbrev pub has_handle : List ℕ → Option (List ℕ) → Bool
has_handle handle none = false
has_handle handle (some other) = same other handle

abbrev pub claim_handle : Result {0, 0} Unit HandleValidationError → Bytes → List ℕ → Db → Outcome
claim_handle (err _) group_id handle db = (db, err validation)
claim_handle (ok _) group_id handle db =
    if any (λ e. has_handle handle e.1.handle && not (same e.0 group_id)) db.groups
    then (db, err validation)
    else (set_handle group_id handle (get group_id db.groups) db, ok tt)

unfoldable pub register_group_handle : Bytes → List ℕ → Db → Outcome
unfolding get insert any
register_group_handle group_id handle db =
    claim_handle (validate_handle_format handle) group_id handle db

unfoldable pub get_group : Bytes → Db → Option Group
unfolding get
get_group group_id db = get group_id db.groups

-- The chats of a group, whose messages and members go with them.
abbrev pub of_group : Bytes → Option Bytes → Bool
of_group group_id none = false
of_group group_id (some g) = same g group_id

abbrev pub chat_of_group : Bytes → Option (Option Bytes) → Bool
chat_of_group group_id none = false
chat_of_group group_id (some g) = of_group group_id g

unfoldable pub delete_group : Bytes → Db → Db
unfolding get remove keep
delete_group group_id db = record {
  groups = remove group_id db.groups;
  group_members = retain (λ e. not (same e.0.0 group_id)) db.group_members;
  group_bans = retain (λ e. not (same e.0.0 group_id)) db.group_bans;
  group_posts = retain (λ e. not (same e.0.0 group_id)) db.group_posts;
  group_chats = retain (λ e. not (of_group group_id e.1)) db.group_chats;
  group_chat_members =
      retain (λ e. not (chat_of_group group_id (get e.0.0 db.group_chats))) db.group_chat_members;
  group_chat_messages =
      retain (λ e. not (chat_of_group group_id (get e.1 db.group_chats))) db.group_chat_messages;
}

abbrev pub is_banned : Bytes → Bytes → Db → Bool
is_banned group_id pubkey db = contains_key (group_id, pubkey) db.group_bans

-- `INSERT OR IGNORE`
abbrev pub insert_or_ignore {ℓ} : {V : Type ℓ} → Key → V → Map Key V → Map Key V
insert_or_ignore k v m = if contains_key k m then m else insert k v m

abbrev pub new_member : ℕ → Option Bytes → GroupMember
new_member joined_at invited_by = record {
  role = member;
  joined_at = joined_at;
  invited_by = invited_by;
}

abbrev pub is_public : GroupVisibility → Bool
is_public public = true
is_public _ = false

abbrev pub join_open : Option Group → Bytes → Bytes → ℕ → Db → Outcome
join_open none group_id member_pubkey joined_at db = (db, err not_found)
join_open (some g) group_id member_pubkey joined_at db =
    if not (is_public g.visibility)
    then (db, err validation)
    else if is_banned group_id member_pubkey db
    then (db, err validation)
    else (
      record db {
        group_members =
            insert_or_ignore (group_id, member_pubkey) (new_member joined_at none) db.group_members;
      },
      ok tt,
    )

unfoldable pub join_group : Bytes → Bytes → ℕ → Db → Outcome
unfolding get insert
join_group group_id member_pubkey joined_at db =
    join_open (get group_id db.groups) group_id member_pubkey joined_at db

unfoldable pub invite_to_group : Bytes → Bytes → Bytes → ℕ → Db → Outcome
unfolding get insert
invite_to_group group_id target_pubkey invited_by joined_at db =
    if is_banned group_id target_pubkey db then (db, err validation) else (
      record db {
        group_members =
            insert_or_ignore (group_id, target_pubkey) (new_member joined_at (some invited_by))
              db.group_members;
      },
      ok tt,
    )

abbrev pub role_of : Option GroupMember → Option GroupRole
role_of none = none
role_of (some m) = some m.role

unfoldable pub get_member_role : Bytes → Bytes → Db → Option GroupRole
unfolding get
get_member_role group_id pubkey db = role_of (get (group_id, pubkey) db.group_members)

abbrev pub is_owner : Option GroupRole → Bool
is_owner (some owner) = true
is_owner _ = false

unfoldable pub leave_group : Bytes → Bytes → Db → Outcome
unfolding get_member_role remove
leave_group group_id member_pubkey db =
    if is_owner (get_member_role group_id member_pubkey db)
    then (db, err validation)
    else (record db { group_members = remove (group_id, member_pubkey) db.group_members }, ok tt)

-- `UPDATE group_members SET role`
abbrev pub update_role :
    Key → GroupRole → Option GroupMember → Map Key GroupMember → Map Key GroupMember
update_role k role none members = members
update_role k role (some m) members = insert k (record m { role = role }) members

unfoldable pub set_group_role : Bytes → Bytes → GroupRole → Db → Db
unfolding get insert
set_group_role group_id target_pubkey new_role db = record db {
  group_members =
      update_role (group_id, target_pubkey) new_role
        (get (group_id, target_pubkey) db.group_members) db.group_members;
}

unfoldable pub kick_member : Bytes → Bytes → Db → Db
unfolding remove
kick_member group_id target_pubkey db = record db {
  group_members = remove (group_id, target_pubkey) db.group_members;
}

unfoldable pub ban_member : Bytes → Bytes → Bytes → Option (List ℕ) → ℕ → Db → Db
unfolding insert remove
ban_member group_id banned_pubkey banned_by reason banned_at db = record db {
  group_members = remove (group_id, banned_pubkey) db.group_members;
  group_bans =
      insert (group_id, banned_pubkey)
        (record { banned_by = banned_by; reason = reason; banned_at = banned_at }) db.group_bans;
}

unfoldable pub transfer_ownership : Bytes → Bytes → Bytes → Db → Outcome
unfolding get_member_role set_group_role
transfer_ownership group_id current_owner new_owner db =
    if not (is_some (get_member_role group_id new_owner db)) then (db, err validation) else (
      set_group_role group_id new_owner owner (set_group_role group_id current_owner admin db),
      ok tt,
    )

unfoldable pub delete_group_post : Bytes → Bytes → Db → Db
unfolding remove
delete_group_post group_id content_hash db = record db {
  group_posts = remove (group_id, content_hash) db.group_posts;
}

unfoldable pub is_member : Bytes → Bytes → Db → Bool
unfolding get
is_member group_id member_pubkey db = contains_key (group_id, member_pubkey) db.group_members

unfoldable pub post_to_group : Bytes → Bytes → Bytes → ℕ → Db → Db
unfolding get insert
post_to_group group_id content_hash author_pubkey created_at db = record db {
  group_posts =
      insert_or_ignore (group_id, content_hash)
        (record { author_pubkey = author_pubkey; posted_at = created_at }) db.group_posts;
}
