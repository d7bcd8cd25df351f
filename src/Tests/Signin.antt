-- ===== src/Tests/Signin.antt =====
-- The sign-in with an identity provider, on concrete accounts.
use opnsense_hub.Base.{
  ℕ, ◌≡◌, refl, String, Bool, true, false, Option, none, some, List, [], ◌∷◌, ok, arith, Text,
  codes, HasDistinct,
}
use opnsense_hub.Models.{User, Db}
use opnsense_hub.Identities.{
  linked, upsert_external_user, local_ad_bind_candidates, split_display_name,
}
use opnsense_hub.Identities.Linked.{IsLinked, upsert_external_user-IsLinked}
use opnsense_hub.Tests.{alice, db}

abbrev carol : User
carol = record alice {
  id = 3;
  email = codes "carol@example.org";
  auth_provider = some (codes "microsoft");
}

abbrev accounts : Db
accounts = record db { users = alice ∷ carol ∷ [] }

abbrev linked_carol : User
linked_carol = linked (some (codes "Carol")) none (some "admin") (codes "microsoft") carol

upsert_external_user-IsLinked_example :
    IsLinked
      (codes "microsoft")
      (codes "carol@example.org")
      linked_carol
      accounts
      (record accounts { users = alice ∷ linked_carol ∷ [] })
unfolding upsert_external_user opnsense_hub.Identities.upsert_found linked opnsense_hub.Base.find
    opnsense_hub.Base.text_beq opnsense_hub.Base.strip opnsense_hub.Base.lstrip
    opnsense_hub.Base.is_space opnsense_hub.Base.lower opnsense_hub.Base.lower_char
    opnsense_hub.Identities.check_provider
upsert_external_user-IsLinked_example =
    upsert_external_user-IsLinked "hash" 9 (codes " Carol@example.org") (some (codes "Carol")) none
      (some "admin") (codes "microsoft") linked_carol accounts
      (record accounts { users = alice ∷ linked_carol ∷ [] }) ((ground arith, tt), (tt, tt)) refl

bind_candidates_of_name :
    local_ad_bind_candidates (codes "bob ") (some (codes "CN=Users, DC=corp,dc=org"))
    ≡ codes "bob" ∷ codes "bob@corp.org" ∷ []
unfolding local_ad_bind_candidates opnsense_hub.Base.text_beq opnsense_hub.Base.strip
    opnsense_hub.Base.contains opnsense_hub.Base.split opnsense_hub.Base.lower
bind_candidates_of_name = refl

split_display_name_of_two :
    split_display_name (some (codes " Ada  King ")) ≡ (some (codes "Ada"), some (codes "King"))
unfolding split_display_name opnsense_hub.Notifications.clean_optional opnsense_hub.Base.text_beq
    opnsense_hub.Base.strip
split_display_name_of_two = refl
