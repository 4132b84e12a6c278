-- ===== src/Handlers.antt =====
-- crates/domain-handlers/src/handler.rs: the filters of the list requests, and what they mean.
pub mod Meaning
use klldap.Base.{Option, none, some, List, [], ◌∷◌, ◌++◌, map}
use klldap.Text.{Str, to_ascii_lowercase}
use klldap.Auth.{UserId}
use klldap.Domain.{AttributeName, AttributeValue, GroupName, GroupId, UserColumn}

pub record SubStringFilter : Type 0 where
  pub initial : Option Str
  pub anywhere : List Str
  pub final : Option Str

abbrev lower_or_nothing : Option Str → Str
lower_or_nothing none = []
lower_or_nothing (some s) = to_ascii_lowercase s

-- The loop over `any`.
abbrev sql_parts : List Str → Str
sql_parts [] = []
sql_parts (part ∷ parts) = to_ascii_lowercase part ++ (b'%' ∷ sql_parts parts)

unfoldable pub to_sql_filter : SubStringFilter → Str
to_sql_filter f =
    lower_or_nothing f.initial ++ (b'%' ∷ (sql_parts f.anywhere ++ lower_or_nothing f.final))

mutual
  pub data UserRequestFilter (D : Type 0) : Type 0 where
    true false : UserRequestFilter D
    and or : UserFilters D → UserRequestFilter D
    not : UserRequestFilter D → UserRequestFilter D
    user_id : UserId → UserRequestFilter D
    user_id_sub_string : SubStringFilter → UserRequestFilter D
    equality : UserColumn → Str → UserRequestFilter D
    attribute_equality : AttributeName → AttributeValue D → UserRequestFilter D
    sub_string : UserColumn → SubStringFilter → UserRequestFilter D
    member_of : GroupName → UserRequestFilter D
    member_of_id : GroupId → UserRequestFilter D
    custom_attribute_present : AttributeName → UserRequestFilter D
    greater_or_equal less_or_equal : UserColumn → Str → UserRequestFilter D
    attribute_greater_or_equal attribute_less_or_equal : AttributeName → Str → UserRequestFilter D
    attribute_sub_string : AttributeName → SubStringFilter → UserRequestFilter D

  pub data UserFilters (D : Type 0) : Type 0 where
    nil : UserFilters D
    cons : UserRequestFilter D → UserFilters D → UserFilters D

mutual
  pub data GroupRequestFilter (D : Type 0) : Type 0 where
    true false : GroupRequestFilter D
    and or : GroupFilters D → GroupRequestFilter D
    not : GroupRequestFilter D → GroupRequestFilter D
    display_name : GroupName → GroupRequestFilter D
    display_name_sub_string : SubStringFilter → GroupRequestFilter D
    uuid : Str → GroupRequestFilter D
    group_id : GroupId → GroupRequestFilter D
    member : UserId → GroupRequestFilter D
    attribute_equality : AttributeName → AttributeValue D → GroupRequestFilter D
    custom_attribute_present : AttributeName → GroupRequestFilter D
    greater_or_equal less_or_equal : Str → Str → GroupRequestFilter D
    attribute_greater_or_equal attribute_less_or_equal : AttributeName → Str → GroupRequestFilter D
    attribute_sub_string : AttributeName → SubStringFilter → GroupRequestFilter D

  pub data GroupFilters (D : Type 0) : Type 0 where
    nil : GroupFilters D
    cons : GroupRequestFilter D → GroupFilters D → GroupFilters D

-- The vectors inside the filters, as lists.
abbrev pub user_list : {D : Type 0} → UserFilters D → List (UserRequestFilter D)
user_list nil = []
user_list (cons f fs) = f ∷ user_list fs

abbrev pub user_vec : {D : Type 0} → List (UserRequestFilter D) → UserFilters D
user_vec [] = nil
user_vec (f ∷ fs) = cons f (user_vec fs)

abbrev pub group_list : {D : Type 0} → GroupFilters D → List (GroupRequestFilter D)
group_list nil = []
group_list (cons f fs) = f ∷ group_list fs

abbrev pub group_vec : {D : Type 0} → List (GroupRequestFilter D) → GroupFilters D
group_vec [] = nil
group_vec (f ∷ fs) = cons f (group_vec fs)
