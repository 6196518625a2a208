-- ===== src/Controller/Storage/Members.antt =====
-- controller/src/storage/inmemory/member_repository.rs
use fuzzy_chat.Prelude.{String, Option}
use fuzzy_chat.Prelude.Dict
use fuzzy_chat.Prelude.Dict.{Dict}
use fuzzy_chat.Controller.Models.{Member}

abbrev pub MemberRepository : Type 0
MemberRepository = Dict Member

unfoldable pub set_member : Member → MemberRepository → MemberRepository
set_member m r = Dict.insert r m.uid m

unfoldable pub get_member : String → MemberRepository → Option Member
get_member uid r = Dict.get r uid
