-- ===== src/Presence/Passes.antt =====
-- The passes of `sweep`, and the entries that every operation leaves: one for each user, under its name.
use voltra.Prelude.{
  ℕ, ◌+◌, ◌≡◌, refl, ◌∙◌, Bool, false, ◌&&◌, Option, none, some, List, [], ◌∷◌, String, arith,
  is_some, any, if◌then◌else◌, ◌==◌, Eq-string, Bool-cases, Option-cases, inl, inr, str_eq_iff,
}
use voltra.Prelude.Map.{
  Map, lookup, insert, remove, lookup-insert, lookup-remove, Distinct, insert-Distinct,
  remove-Distinct,
}
use voltra.Presence.{
  online, idle, status_eq, PresenceEntry, PresenceManager, modify, timed_out, users_where,
  remove_all, set_idle, idle_all, sweep,
}

abbrev pub times : String → List String → ℕ
times u [] = 0
times u (v ∷ vs) = (if v == u then 1 else 0) + times u vs

abbrev pub among : String → List String → Bool
among u users = any (λ v. v == u) users

module _ {J : Type 0} where
  -- What a sweep makes of an entry, and what it reports.
  abbrev pub idled : Option (PresenceEntry J) → Option (PresenceEntry J)
  idled none = none
  idled (some e) = if status_eq e.status online then some (record e { status = idle }) else some e

  abbrev pub holds : (PresenceEntry J → Bool) → Option (PresenceEntry J) → Bool
  holds test none = false
  holds test (some e) = test e

  abbrev pub is_online : PresenceEntry J → Bool
  is_online e = status_eq e.status online

  unfoldable pub Keyed : Map String (PresenceEntry J) → Type 0
  Keyed [] = Unit
  Keyed ((user, entry) ∷ entries) = (entry.user_id ≡ user) × Keyed entries

  pub among-users_where :
      (test : PresenceEntry J → Bool) (u : String) (entries : Map String (PresenceEntry J))
      → Distinct entries
      → Keyed entries
      → among u (users_where test entries) ≡ holds test (lookup u entries)
  unfolding users_where lookup Keyed
  among-users_where test u [] d k = refl
  among-users_where test u ((user, entry) ∷ entries) d k =
      rw k.0 (ground (arith, among-users_where test u entries d.1 k.1, str_eq_iff user u, d.0))

  pub lookup-remove_all :
      (u : String) (users : List String) (entries : Map String (PresenceEntry J))
      → let (removed, left) = remove_all users entries in
        (lookup u left ≡ (if among u users then none else lookup u entries))
        × (times u removed ≡ (if among u users && is_some (lookup u entries) then 1 else 0))
  unfolding remove_all
  lookup-remove_all u [] entries = (refl, refl)
  lookup-remove_all u (user ∷ users) entries =
      let rest = lookup-remove_all u users (remove user entries) in
      ground (arith, rest.0, rest.1, lookup-remove user u entries, str_eq_iff user u)

  pub remove_all-Distinct :
      (users : List String) (entries : Map String (PresenceEntry J))
      → Distinct entries
      → Distinct (remove_all users entries).1
  unfolding remove_all
  remove_all-Distinct [] entries d = d
  remove_all-Distinct (user ∷ users) entries d =
      remove_all-Distinct users (remove user entries) (remove-Distinct user entries d)

  pub lookup-idle_all :
      (u : String) (users : List String) (entries : Map String (PresenceEntry J))
      → let (made, left) = idle_all users entries in
        (lookup u left ≡ (if among u users then idled (lookup u entries) else lookup u entries))
        × (times u made ≡ (if among u users && holds is_online (lookup u entries) then 1 else 0))
  unfolding idle_all
  lookup-idle_all u [] entries = (refl, refl)
  lookup-idle_all u (user ∷ users) entries = elim (Option-cases (lookup user entries)) [
    | inl e ↦
        let same = lookup-idle_all u users entries in
        rw (e, idle_all) (ground (arith, same.0, same.1, str_eq_iff user u))
    | inr (entry, e) ↦
        let same = lookup-idle_all u users entries in
        let after = lookup-idle_all u users (set_idle user entry entries) in
        let set = lookup-insert user u (record entry { status = idle }) entries in
        rw (e, idle_all) (ground (arith, same.0, same.1, after.0, after.1, set, str_eq_iff user u))
  ]

  pub insert-Keyed :
      (user : String) (entry : PresenceEntry J) (entries : Map String (PresenceEntry J))
      → entry.user_id ≡ user
      → Keyed entries
      → Keyed (insert user entry entries)
  unfolding insert Keyed
  insert-Keyed user entry [] e k = (e, tt)
  insert-Keyed user entry ((j, old) ∷ entries) e k =
      ground (arith, insert-Keyed user entry entries e k.1, e, k.0, k.1)

  pub remove-Keyed :
      (user : String) (entries : Map String (PresenceEntry J))
      → Keyed entries
      → Keyed (remove user entries)
  unfolding remove Keyed
  remove-Keyed user [] k = tt
  remove-Keyed user ((j, old) ∷ entries) k = ground (arith, remove-Keyed user entries k.1, k.0)

  pub lookup-Keyed :
      (user : String) (entry : PresenceEntry J) (entries : Map String (PresenceEntry J))
      → Keyed entries
      → lookup user entries ≡ some entry
      → entry.user_id ≡ user
  unfolding lookup Keyed
  lookup-Keyed user entry [] k e = ground (arith, e)
  lookup-Keyed user entry ((j, old) ∷ entries) k e =
      ground (arith, lookup-Keyed user entry entries k.1, k.0, e, str_eq_iff j user)

  abbrev pub Sound : PresenceManager J → Type 0
  Sound p = Distinct p.entries × Keyed p.entries

  pub modify-Sound :
      (user : String) (f : PresenceEntry J → PresenceEntry J) (p : PresenceManager J)
      → ((entry : PresenceEntry J) → (f entry).user_id ≡ entry.user_id)
      → Sound p
      → Sound (modify user f p)
  unfolding modify Keyed
  modify-Sound user f p keeps s = elim (Option-cases (lookup user p.entries)) [
    | inl e ↦ rw (e, modify) s
    | inr (entry, e) ↦
        let named = keeps entry ∙ lookup-Keyed user entry p.entries s.1 e in
        rw (e, modify)
          (
            insert-Distinct user (f entry) p.entries s.0,
            insert-Keyed user (f entry) p.entries named s.1,
          )
  ]

  pub remove_all-Keyed :
      (users : List String) (entries : Map String (PresenceEntry J))
      → Keyed entries
      → Keyed (remove_all users entries).1
  unfolding remove_all
  remove_all-Keyed [] entries k = k
  remove_all-Keyed (user ∷ users) entries k =
      remove_all-Keyed users (remove user entries) (remove-Keyed user entries k)

  pub idle_all-Sound :
      (users : List String) (entries : Map String (PresenceEntry J))
      → Distinct entries
      → Keyed entries
      → Distinct (idle_all users entries).1 × Keyed (idle_all users entries).1
  unfolding idle_all
  idle_all-Sound [] entries d k = (d, k)
  idle_all-Sound (user ∷ users) entries d k = elim (Option-cases (lookup user entries)) [
    | inl e ↦ rw (e, idle_all) (idle_all-Sound users entries d k)
    | inr (entry, e) ↦ elim (Bool-cases (is_online entry)) [
      | inl h ↦
          rw (e, h, idle_all)
            (idle_all-Sound users (set_idle user entry entries)
              (insert-Distinct user (record entry { status = idle }) entries d)
              (insert-Keyed user (record entry { status = idle }) entries
                (lookup-Keyed user entry entries k e) k))
      | inr h ↦ rw (e, h, idle_all) (idle_all-Sound users entries d k)
    ]
  ]

  pub sweep-Sound : (now : ℕ) (p : PresenceManager J) → Sound p → Sound (sweep now p).1
  unfolding sweep
  sweep-Sound now p s =
      let users = users_where (timed_out now p.offline_timeout_ms) p.entries in
      idle_all-Sound _ (remove_all users p.entries).1 (remove_all-Distinct users p.entries s.0)
        (remove_all-Keyed users p.entries s.1)
