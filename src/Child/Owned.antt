-- ===== src/Child/Owned.antt =====
-- child.py: what a child engine must be like for its profile to be taken over.
use openrois.Common.{
  ◌≡◌, Bool, true, Option, none, some, List, [], ◌∷◌, leb, if◌then◌else◌, All, Bool-cases, inl, inr,
  Text, text_eq, Result, ok, err, >>=-eq-ok,
}
use mathlib.Core.Path.{subst}
use openrois.Common.Dict
use openrois.Common.Dict.{Dict}
use openrois.Profiles.Units.{ComponentProfile, EngineProfile}
use openrois.Child.Discovery.{
  ProfileError, missing_profile, foreign_ref, Discovered, engine_ids_of, component_ids_of,
  is_valid_id, count, check_ids, is_owned, collect, check_free, apply_profile,
}

All-keys-put {ℓ} :
    {V : Type ℓ} (P : Text → Type 0) (k : Text) (v : V) (d : Dict V)
    → P k
    → All P (Dict.keys d)
    → All P (Dict.keys (Dict.put k v d))
unfolding Dict.keys Dict.put
All-keys-put P k v [] p h = (p, tt)
All-keys-put P k v ((j, w) ∷ d) p (q, h) = elim (Bool-cases (text_eq j k)) [
  | inl e ↦ rw e (q, h)
  | inr e ↦ rw e (q, All-keys-put P k v d p h)
]

module _ (engine_ids : List Text) where
  abbrev pub IsOwned : Text → Type 0
  IsOwned ref = is_owned engine_ids ref ≡ true

  -- an id that may stand before the slash of a ref, once in the child
  abbrev pub IsOnce : Text → Type 0
  IsOnce i = (is_valid_id i ≡ true) × (leb (count i engine_ids) 1 ≡ true)

  check_ids-IsOnce : (ids : List Text) → check_ids engine_ids ids ≡ ok tt → All IsOnce ids
  unfolding check_ids
  check_ids-IsOnce [] h = tt
  check_ids-IsOnce (i ∷ ids) h = elim (Bool-cases (is_valid_id i)) [
    | inl v ↦ elim (Bool-cases (leb (count i engine_ids) 1)) [
      | inl c ↦ ((v, c), check_ids-IsOnce ids (rw (v, c) at h))
      | inr c ↦ absurd (cc (rw (v, c) at h))
    ]
    | inr v ↦ absurd (cc (rw v at h))
  ]

  collect-IsOwned :
      (sent profiles result : Dict ComponentProfile) (refs : List Text)
      → All IsOwned (Dict.keys profiles)
      → collect engine_ids sent profiles refs ≡ ok result
      → All IsOwned (Dict.keys result)
  unfolding collect
  collect-IsOwned sent profiles result [] owned h =
      let same : profiles ≡ result = cc (h) in rw same at owned
  collect-IsOwned sent profiles result (ref ∷ refs) owned h =
      of_sent (Dict.get ref sent) h
        (λ p o k. collect-IsOwned sent (Dict.put ref p profiles) result refs o k)
    where
      of_sent :
          (found : Option ComponentProfile)
          → (let r : Result ProfileError (Dict ComponentProfile) = elim found [
            | none ↦ if is_owned engine_ids ref then err missing_profile else err foreign_ref
            | some p ↦
                if is_owned engine_ids ref
                then collect engine_ids sent (Dict.put ref p profiles) refs
                else err foreign_ref
          ] in
              r)
            ≡ ok result
          → ((p : ComponentProfile)
              → All IsOwned (Dict.keys (Dict.put ref p profiles))
              → collect engine_ids sent (Dict.put ref p profiles) refs ≡ ok result
              → All IsOwned (Dict.keys result))
          → All IsOwned (Dict.keys result)
      of_sent none k later = elim (Bool-cases (is_owned engine_ids ref)) [
        | inl o ↦ absurd (cc (rw o at k))
        | inr o ↦ absurd (cc (rw o at k))
      ]
      of_sent (some p) k later = elim (Bool-cases (is_owned engine_ids ref)) [
        | inl o ↦ later p (All-keys-put IsOwned ref p profiles o owned) (rw o at k)
        | inr o ↦ absurd (cc (rw o at k))
      ]

nil-IsOwned :
    (engine_ids : List Text) → All (IsOwned engine_ids) (Dict.keys {V = ComponentProfile} [])
unfolding Dict.keys
nil-IsOwned engine_ids = tt

-- Where the profile of a child is taken over, its engine ids are not empty, have no slash and stand
-- once, and every component ref of it starts with one of them and a slash.
pub apply_profile-IsOwned :
    (is_free : List Text → Bool) (profile : EngineProfile) (sent : Dict ComponentProfile)
    (d : Discovered)
    → apply_profile is_free profile sent ≡ ok d
    → All (IsOnce d.engine_ids) d.engine_ids × All (IsOwned d.engine_ids) (Dict.keys d.profiles)
unfolding apply_profile
apply_profile-IsOwned is_free profile sent d h =
    let ids = engine_ids_of profile in
    let (_, valid, h') = >>=-eq-ok (check_ids ids ids) _ h in
    let (profiles, collected, h'') =
      >>=-eq-ok (collect ids sent [] (component_ids_of profile)) _ h' in
    let (_, _, made) = >>=-eq-ok (check_free (is_free ids)) _ h'' in
    let found : Discovered = record { profile = profile; profiles = profiles; engine_ids = ids } in
    let same : found ≡ d = cc (made) in
    let both : All (IsOnce found.engine_ids) found.engine_ids
        × All (IsOwned found.engine_ids) (Dict.keys found.profiles) =
      (
        check_ids-IsOnce ids ids valid,
        collect-IsOwned ids sent [] profiles (component_ids_of profile) (nil-IsOwned ids) collected,
      ) in
    subst
      (λ (x : Discovered).
        All (IsOnce x.engine_ids) x.engine_ids × All (IsOwned x.engine_ids) (Dict.keys x.profiles))
      same both
