-- ===== src/Utility/Case/Examples.antt =====
-- Names of fields, messages and enum values.
use trpc_proto.Base.{◌≡◌, refl}
use trpc_proto.Base.Text.{codes, split_by}
use trpc_proto.Utility.Case.{to_pascal_case, to_snake_case, to_screaming_snake, to_camel}

pascal : to_pascal_case (codes "user.get-by_id") ≡ codes "UserGetById"
unfolding to_pascal_case split_by
pascal = refl

snake : to_snake_case (codes "userID") ≡ codes "user_i_d"
unfolding to_snake_case
snake = refl

screaming : to_screaming_snake (codes "inProgress--2x") ≡ codes "IN_PROGRESS_2X"
unfolding to_screaming_snake
screaming = refl

camel : to_camel (codes "user__id_2") ≡ codes "user_Id_2"
unfolding to_camel
camel = refl
