-- ===== src/Controller/Membership.antt =====
-- controller/src/membership.rs: `MemberManager`. The records of the CSV file, as the `csv` crate reads
-- them, are an argument.
use fuzzy_chat.Prelude.{
  String, Option, none, some, List, [], ◌∷◌, Status, ok, lift, ◌>>=◌, Outcome, panic,
}
use fuzzy_chat.Controller.Models.{Member}
use fuzzy_chat.Controller.State.{Handler}
use fuzzy_chat.Controller.Storage.Members
use fuzzy_chat.Controller.Storage.Members.{MemberRepository}

unfoldable pub get_member : String → Handler (Option Member)
unfolding Members.get_member
get_member uid s = (ok (Members.get_member uid s.member_manager), s)

unfoldable pub keep_members : List Member → MemberRepository → MemberRepository
keep_members [] r = r
keep_members (m ∷ rest) r = keep_members rest (Members.set_member m r)

unfoldable pub set_members : List Member → Handler Unit
unfolding keep_members
set_members members s = (ok tt, record s { member_manager = keep_members members s.member_manager })

abbrev cons_member : Member → Outcome Status (List Member) → Outcome Status (List Member)
cons_member m (ok rest) = ok (m ∷ rest)
cons_member m r = r

-- `read_members_from_csv`: a record that cannot be read is skipped, and one with fewer than two
-- fields panics.
unfoldable pub read_members : List (Option (List String)) → Outcome Status (List Member)
read_members [] = ok []
read_members (none ∷ rest) = read_members rest
read_members (some (uid ∷ pwd ∷ more) ∷ rest) =
    cons_member (record { uid = uid; pwd = pwd }) (read_members rest)
read_members (some _ ∷ rest) = panic

-- `seed_members_from_csv`
unfoldable pub seed_members_from_csv : List (Option (List String)) → Handler Unit
unfolding read_members set_members
seed_members_from_csv records = do members ← lift (read_members records); set_members members
