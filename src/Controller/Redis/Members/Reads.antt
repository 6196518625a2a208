-- ===== src/Controller/Redis/Members/Reads.antt =====
-- What is read after a member has been set.
use fuzzy_chat.Prelude.{
  String, some, none, ok, ◌≡◌, arith, ◌∙◌, ◌==◌, eq_refl, Bool-cases, Option-cases, inl, inr,
}
use fuzzy_chat.Prelude.Dict.{get-insert}
use fuzzy_chat.Controller.Models.{Member}
use fuzzy_chat.Controller.Storage.Members as InMemory
use fuzzy_chat.Controller.Redis.{Redis, Json}
use fuzzy_chat.Controller.Redis.Laws.{IsRedis, RoundTrips}
use fuzzy_chat.Controller.Redis.Replies.{read_some, read_nil}
use fuzzy_chat.Controller.Redis.Members.{member_key, set_member, get_member}

-- A server that keeps the members of an in-memory repository: its hash has the JSON of each.
pub record Keeps {R : Type 0} {redis : Redis R} (laws : IsRedis redis) (json : Json Member)
    (r : InMemory.MemberRepository) (s : R) : Type 0 where
  pub is_hash : laws.text s member_key ≡ none
  pub fields :
      (uid : String)
      → laws.field s member_key uid
        ≡ elim (InMemory.get_member uid r) [ none ↦ none | some m ↦ some (json.to_string m) ]

module _ {R : Type 0} (redis : Redis R) (laws : IsRedis redis) (json : Json Member) where
  get_member-Keeps :
      (r : InMemory.MemberRepository) (s : R) (uid : String)
      → RoundTrips json
      → Keeps laws json r s
      → get_member redis json uid s ≡ (ok (InMemory.get_member uid r), s)
  unfolding get_member
  get_member-Keeps r s uid trips k = elim (Option-cases (InMemory.get_member uid r)) [
    | inl e ↦
        read_nil json (redis.hget member_key uid) s s
          (laws.hget_field member_key uid s k.is_hash ∙ ground (arith, k.fields uid, e))
        ∙ ground (arith, e)
    | inr (m, e) ↦
        read_some json (redis.hget member_key uid) s s m (trips m)
          (laws.hget_field member_key uid s k.is_hash ∙ ground (arith, k.fields uid, e))
        ∙ ground (arith, e)
  ]

  set_member-Keeps :
      (r : InMemory.MemberRepository) (s : R) (m : Member)
      → Keeps laws json r s
      → (q : R) × (set_member redis json m s ≡ (ok tt, q))
        × Keeps laws json (InMemory.set_member m r) q
  unfolding set_member InMemory.set_member InMemory.get_member
  set_member-Keeps r s m k =
      let (q, e, texts, fields) = laws.hset_field member_key m.uid (json.to_string m) s k.is_hash in
      (
        q,
        ground (arith, e),
        record {
          is_hash = texts member_key ∙ k.is_hash;
          fields = λ uid. fields member_key uid ∙ elim (Bool-cases (m.uid == uid)) [
            | inl h ↦ ground (arith, eq_refl member_key, h, get-insert r m.uid uid m)
            | inr h ↦ ground (arith, eq_refl member_key, h, get-insert r m.uid uid m, k.fields uid)
          ];
        },
      )

  -- A server that keeps the members of an in-memory repository answers as it does: a member that is
  -- set succeeds, and leads to a server that keeps the repository with the member set; a lookup gives
  -- what the repository gives, and changes nothing.
  pub members_refine :
      (r : InMemory.MemberRepository) (s : R)
      → RoundTrips json
      → Keeps laws json r s
      → ((m : Member)
          → (q : R) × (set_member redis json m s ≡ (ok tt, q))
            × Keeps laws json (InMemory.set_member m r) q)
        × ((uid : String) → get_member redis json uid s ≡ (ok (InMemory.get_member uid r), s))
  members_refine r s trips k =
      (λ m. set_member-Keeps r s m k, λ uid. get_member-Keeps r s uid trips k)
