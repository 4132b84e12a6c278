-- ===== src/Ldap/Delete/Tests.antt =====
-- A deletion in the small world.
use klldap.Base.{ok, ◌≡◌, ◌↔◌, refl, true, some, List, find?, [], ◌∷◌}
use klldap.Text.{codes, lower}
use klldap.Domain.{Group, GroupName, compare_chars, compare_str_case_insensitive, group_name_eq}
use klldap.Ldap.Error.{LdapResultCode}
use klldap.Ldap.World.{done, LdapOp}
use klldap.Ldap.World.Sample.{Changed, bob, world, to_lowercase}
use klldap.Ldap.Delete.{delete_user, delete_group}
use klldap.Handlers.{GroupRequestFilter}
use klldap.Ldap.Delete.Laws.{delete_group-done, IsUserDeleted, delete_user_iff}

abbrev shouted : GroupName
shouted = record { text = codes "STAFF" }

deleted-run :
    delete_group world to_lowercase shouted []
    ≡ (done (LdapOp.del_response LdapResultCode.success [] ∷ []), [])
unfolding delete_group group_name_eq compare_str_case_insensitive compare_chars lower
deleted-run = refl

user_deleted-run :
    delete_user world bob [] ≡ (done (LdapOp.del_response LdapResultCode.success [] ∷ []), [])
unfolding delete_user
user_deleted-run = refl

delete_user_iff_example :
    (delete_user world bob [] ≡ (done (LdapOp.del_response LdapResultCode.success [] ∷ []), []))
    ↔ IsUserDeleted world bob [] (LdapOp.del_response LdapResultCode.success [] ∷ []) []
delete_user_iff_example =
    delete_user_iff world bob [] (LdapOp.del_response LdapResultCode.success [] ∷ []) []

delete_group-done_example :
    (groups : List (Group Unit)) × (g : Group Unit) × (s₁ : Changed) × (world.list_groups
        (some (GroupRequestFilter.display_name shouted))
        []
      ≡ (ok groups, s₁))
    × (find? (λ k. group_name_eq to_lowercase k.display_name shouted) groups ≡ some g)
    × (group_name_eq to_lowercase g.display_name shouted ≡ true)
    × (world.delete_group g.id s₁ ≡ (ok tt, []))
delete_group-done_example =
    delete_group-done world to_lowercase shouted []
      (LdapOp.del_response LdapResultCode.success [] ∷ []) [] deleted-run
