-- ===== src/Tests/Groups.antt =====
-- Groups at small inputs.
use ephemera_social.Base.{
  ◌≡◌, ◌⊎◌, refl, List, [], ◌∷◌, none, some, true, false, Bytes, list_ord, nat_ord, pair_ord, ok,
  arith, same_cases,
}
use ephemera_social.Map.{get}
use ephemera_social.Groups.Roles.{GroupRole, owner, admin, member, can_ban}
use ephemera_social.Groups.Store.{Db, GroupMember, get_member_role, is_owner, is_member}
use ephemera_social.Groups.Service.{
  join_group, invite_to_group, leave_group, kick_member, transfer_ownership, ban_member,
}
use ephemera_social.Groups.Owner.{IsOwnedBy, owner_ops-IsOwnedBy, ban-ownerless}
use ephemera_social.Groups.Bans.{Call, join, invite, perform_all, ban-shuts_out}

-- The keys of a group, its owner, an admin and somebody else.
abbrev group : Bytes
group = 1 ∷ []

abbrev ada : Bytes
ada = 2 ∷ []

abbrev bob : Bytes
bob = 3 ∷ []

abbrev eve : Bytes
eve = 4 ∷ []

abbrev row : GroupRole → GroupMember
row role = record { role = role; joined_at = 100; invited_by = none }

abbrev db : Db
db = record {
  groups = [];
  group_members =
      ((group, ada), row owner) ∷ ((group, bob), row admin) ∷ ((group, eve), row member) ∷ [];
  group_bans = [];
  group_posts = [];
  group_chats = [];
  group_chat_members = [];
  group_chat_messages = [];
}

owned : IsOwnedBy group ada db
unfolding get_member_role get
owned p = ground (arith, same_cases p ada, same_cases p bob, same_cases p eve)

owner_ops-IsOwnedBy_example :
    IsOwnedBy group ada (join_group 200 eve group db).0
    × IsOwnedBy group ada (invite_to_group 200 eve true group bob db).0
    × IsOwnedBy group ada (leave_group eve group db).0
    × IsOwnedBy group ada (kick_member eve group bob db).0
    × (((transfer_ownership eve group bob db).0 ≡ db)
        ⊎ ((eve ≡ ada) × IsOwnedBy group bob (transfer_ownership eve group bob db).0))
owner_ops-IsOwnedBy_example = owner_ops-IsOwnedBy 200 eve group bob ada true db owned

bob_role : get_member_role group bob db ≡ some admin
unfolding get_member_role get
bob_role = refl

ban-ownerless_example :
    ((ban_member 200 bob group ada none db).1 ≡ ok tt)
    × (is_owner (get_member_role group eve (ban_member 200 bob group ada none db).0) ≡ false)
ban-ownerless_example = ban-ownerless 200 bob group ada none db eve owned bob_role

bob_bans : can_ban admin ≡ true
unfolding can_ban
bob_bans = refl

abbrev calls : List Call
calls = join 300 eve group ∷ invite 300 ada true group eve ∷ []

ban-shuts_out_example :
    is_member group eve (perform_all calls (ban_member 200 bob group eve none db).0) ≡ false
ban-shuts_out_example = ban-shuts_out 200 bob group eve none admin calls db bob_role bob_bans
