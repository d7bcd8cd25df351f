-- ===== src/Identities/Linked.antt =====
-- dashboard/app/services/auth_service.py: which accounts a sign-in with an identity provider touches.
use opnsense_hub.Base.{
  ℕ, ◌≡◌, refl, ap, ◌∙◌, ◌⊎◌, inl, inr, Bool, true, false, not, ◌&&◌, Option, none, some, List, [],
  ◌∷◌, ◌++◌, map, String, ok, Text, arith, Bool-cases, ◌==◌, text_eq, nat_eq, select, find, All,
  HasDistinct, find-holds, find-distinct, >>=-eq-ok, text_beq_iff, All-map, text_beq_refl,
  select-snoc_failed, find-snoc_none, lower, strip,
}
use mathlib.Core.List.{map-append}
use opnsense_hub.Models.{User, Db}
use opnsense_hub.Identities.{
  has_email, link_row, linked, new_user, check_provider, upsert_found, upsert_external_user,
}

-- No provider, or another one, named by a nonempty text.
unfoldable pub differs : (auth_provider : Text) → Option Text → Bool
differs auth_provider none = true
differs auth_provider (some provider) = not (provider == []) && not (provider == auth_provider)

abbrev pub is_foreign : (auth_provider : Text) → User → Bool
is_foreign auth_provider u = differs auth_provider u.auth_provider

-- The part of an account that decides how else it is signed in.
abbrev pub credentials : User → ℕ × Text × String × Bool × Option String
credentials u = (u.id, u.email, u.password_hash, u.mfa_enabled, u.mfa_secret)

-- The state after a sign-in, against that before.
pub record IsLinked (auth_provider email : Text) (user : User) (before after : Db) : Type 0 where
  pub named : user.email ≡ email
  pub provider : user.auth_provider ≡ some auth_provider
  pub found : find (has_email email) after.users ≡ some user
  pub foreign :
      select (is_foreign auth_provider) after.users ≡ select (is_foreign auth_provider) before.users
  pub kept :
      (map credentials after.users ≡ map credentials before.users)
      ⊎ (map credentials after.users ≡ map credentials before.users ++ (credentials user ∷ []))

module _ (auth_provider : Text) where
  check_provider-differs :
      (provider : Option Text)
      → check_provider auth_provider provider ≡ ok tt
      → differs auth_provider provider ≡ false
  unfolding check_provider differs
  check_provider-differs none h = absurd (cc)
  check_provider-differs (some provider) h = ground arith

  differs_self : differs auth_provider (some auth_provider) ≡ false
  unfolding differs
  differs_self = ground (arith, text_beq_refl auth_provider)

  module _ (link : User → User) (email : Text) where
    find-link :
        ((u : User) → (link u).email ≡ u.email)
        → (existing : User) (users : List User) → find (has_email email) users ≡ some existing
        → find (has_email email) (map (link_row link existing.id) users) ≡ some (link existing)
    unfolding find
    find-link same existing [] h = ground arith
    find-link same existing (u ∷ users) h = elim (Bool-cases (has_email email u)) [
      | inl e ↦
          let own : u ≡ existing = ground arith in
          let here : (u.id == existing.id) ≡ true = ground (arith, ap (λ (g : User). g.id) own) in
          let read : has_email email (link u) ≡ true = ap (λ s. s == email) (same u) ∙ e in
          rw (here, read) (ap (λ (g : User). some (link g)) own)
      | inr e ↦
          let rest = find-link same existing users (ground arith) in
          elim (Bool-cases (u.id == existing.id)) [
            | inl i ↦
                let read : has_email email (link u) ≡ false = ap (λ s. s == email) (same u) ∙ e in
                rw (i, read) rest
            | inr i ↦ rw (i, e) rest
          ]
    ]

    select-link :
        ((u : User) → is_foreign auth_provider (link u) ≡ false)
        → (id : ℕ) (users : List User)
        → All (λ u. u.id ≡ id → is_foreign auth_provider u ≡ false) users
        → select (is_foreign auth_provider) (map (link_row link id) users)
          ≡ select (is_foreign auth_provider) users
    unfolding select
    select-link own id [] h = refl
    select-link own id (u ∷ users) h = elim (Bool-cases (u.id == id)) [
      | inl e ↦ let rest = select-link own id users h.1 in rw (e, own u, h.0 (ground arith)) rest
      | inr e ↦ rw (e, select-link own id users h.1) refl
    ]

    map-link :
        ((u : User) → credentials (link u) ≡ credentials u)
        → (id : ℕ) (users : List User)
        → map credentials (map (link_row link id) users) ≡ map credentials users
    map-link same id [] = refl
    map-link same id (u ∷ users) = elim (Bool-cases (u.id == id)) [
      | inl e ↦ rw (e, same u, map-link same id users) refl
      | inr e ↦ rw (e, map-link same id users) refl
    ]

    new-IsLinked :
        (created : User) (before : Db)
        → created.email ≡ email
        → created.auth_provider ≡ some auth_provider
        → find (has_email email) before.users ≡ none
        → IsLinked auth_provider email created before
            (record before { users = before.users ++ (created ∷ []) })
    unfolding differs
    new-IsLinked created before named by f = record {
      named = named;
      provider = by;
      found =
          find-snoc_none (has_email email) created before.users f (rw named (text_beq_refl email));
      foreign =
          select-snoc_failed (is_foreign auth_provider) created before.users (rw by differs_self);
      kept = inr (map-append credentials before.users (created ∷ []));
    }

    existing-IsLinked :
        (existing : User) (before : Db)
        → ((u : User) → credentials (link u) ≡ credentials u)
        → ((u : User) → (link u).auth_provider ≡ some auth_provider)
        → HasDistinct (λ (u : User). u.id) before.users
        → find (has_email email) before.users ≡ some existing
        → check_provider auth_provider existing.auth_provider ≡ ok tt
        → IsLinked auth_provider email
            (link existing)
            before
            (record before { users = map (link_row link existing.id) before.users })
    unfolding differs
    existing-IsLinked existing before same own d f h =
        let mail = λ (u : User). ap (λ c. c.1) (same u) in
        record {
          named =
              mail existing
              ∙ (text_beq_iff existing.email email).0
                  (find-holds (has_email email) before.users existing f);
          provider = own existing;
          found = find-link mail existing before.users f;
          foreign =
              select-link (λ u. rw (own u) differs_self) existing.id before.users
                (All-map (λ u. u.id ≡ existing.id → u ≡ existing) _ before.users
                  (λ u w i.
                    ap (is_foreign auth_provider) (w i)
                    ∙ check_provider-differs existing.auth_provider h)
                  (find-distinct (λ (u : User). u.id) (has_email email) before.users existing d f));
          kept = inl (map-link same existing.id before.users);
        }

    pub upsert_found-IsLinked :
        (created user : User) (o : Option User) (before after : Db)
        → ((u : User) → credentials (link u) ≡ credentials u)
        → ((u : User) → (link u).auth_provider ≡ some auth_provider)
        → created.email ≡ email
        → created.auth_provider ≡ some auth_provider
        → HasDistinct (λ (u : User). u.id) before.users
        → find (has_email email) before.users ≡ o
        → upsert_found created link auth_provider o before ≡ ok (user, after)
        → IsLinked auth_provider email user before after
    unfolding upsert_found
    upsert_found-IsLinked created user none before after same own named by d f h =
        let a : created ≡ user = ground arith in
        let b : record before { users = before.users ++ (created ∷ []) } ≡ after = ground arith in
        rw (← a, ← b) (new-IsLinked created before named by f)
    upsert_found-IsLinked created user (some existing) before after same own named by d f h =
        let (_, c, e) = >>=-eq-ok (check_provider auth_provider existing.auth_provider) _ h in
        let a : link existing ≡ user = ground arith in
        let b : record before { users = map (link_row link existing.id) before.users } ≡ after =
          ground arith in
        rw (← a, ← b) (existing-IsLinked existing before same own d f c)

-- An accepted sign-in with an identity provider is for an account of that provider with the email that
-- was asked for, the first of the table with it. No account that is local or linked to another nonempty
-- provider is changed, and none loses its identifier, email, password or second factor; at most one
-- account is added. The accounts have distinct identifiers.
pub upsert_external_user-IsLinked :
    (password_hash : String) (id : ℕ) (email : Text) (first_name last_name : Option Text)
    (role : Option String) (auth_provider : Text) (user : User) (before after : Db)
    → HasDistinct (λ (u : User). u.id) before.users
    → upsert_external_user password_hash id email first_name last_name role auth_provider before
      ≡ ok (user, after)
    → IsLinked auth_provider (lower (strip email)) user before after
unfolding upsert_external_user linked new_user
upsert_external_user-IsLinked password_hash id email first_name last_name role auth_provider user
      before after d h =
    upsert_found-IsLinked auth_provider (linked first_name last_name role auth_provider)
      (lower (strip email)) _ user _ before after (λ u. refl) (λ u. refl) refl refl d refl h
