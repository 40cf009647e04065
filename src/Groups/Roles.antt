-- ===== src/Groups/Roles.antt =====
-- crates/ephemera-social/src/group.rs: roles, visibilities and names.
use ephemera_social.Base.{
  ℕ, List, Option, none, some, Bool, true, false, ltb, if◌then◌else◌, length, Bytes,
}

pub data GroupVisibility : Type 0 where
  public restricted secret : GroupVisibility

pub data GroupRole : Type 0 where
  owner admin moderator member : GroupRole

-- `as u8`
abbrev pub rank : GroupRole → ℕ
rank owner = 0
rank admin = 1
rank moderator = 2
rank member = 3

unfoldable pub can_set_role : GroupRole → GroupRole → Bool
can_set_role self target = ltb (rank self) (rank target)

unfoldable pub can_kick : GroupRole → Bool
can_kick member = false
can_kick _ = true

unfoldable pub can_ban : GroupRole → Bool
can_ban owner = true
can_ban admin = true
can_ban _ = false

unfoldable pub can_invite : GroupRole → Bool
can_invite member = false
can_invite _ = true

unfoldable pub can_edit_info : GroupRole → Bool
can_edit_info owner = true
can_edit_info admin = true
can_edit_info _ = false

unfoldable pub can_delete_posts : GroupRole → Bool
can_delete_posts member = false
can_delete_posts _ = true

unfoldable pub can_delete_group : GroupRole → Bool
can_delete_group owner = true
can_delete_group _ = false

pub record Group : Type 0 where
  pub name : List ℕ
  pub handle : Option (List ℕ)
  pub description : Option (List ℕ)
  pub visibility : GroupVisibility
  pub created_by : Bytes
  pub created_at : ℕ

pub data SocialError : Type 0 where
  validation not_found : SocialError

abbrev pub max_group_name_len : ℕ
max_group_name_len = 50

abbrev pub max_group_description_len : ℕ
max_group_description_len = 500

unfoldable pub validate_group_name : List ℕ → Bool
validate_group_name name =
    if ltb (length name) 1
    then false
    else if ltb max_group_name_len (length name)
    then false
    else true

unfoldable pub validate_group_description : Option (List ℕ) → Bool
validate_group_description none = true
validate_group_description (some desc) =
    if ltb max_group_description_len (length desc) then false else true
