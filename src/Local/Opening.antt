-- ===== src/Local/Opening.antt =====
-- local.py: the resources that `start` tries to open, each once.
use openrois.Common.{
  ℕ, ◌≡◌, refl, ap, ◌∙◌, Bool, true, false, ◌&&◌, ◌||◌, List, [], ◌∷◌, ◌++◌, arith, ◌==◌, ==_iff,
  any, all, Bool-cases, inl, inr,
}
use openrois.Local.Hosting.{is_known_resource, Opening, try_open, open_resources}

is_known_resource-snoc :
    (k r : ℕ) (rs : List ℕ) → is_known_resource k (rs ++ r ∷ []) ≡ is_known_resource k rs || r == k
unfolding is_known_resource any
is_known_resource-snoc k r [] = ground arith
is_known_resource-snoc k r (x ∷ rs) = ground (arith, is_known_resource-snoc k r rs)

module _ (opens : List ℕ → ℕ → Bool) where
  -- The calls of `open` that were made, and the resources that did and did not open: no resource is
  -- tried again, and what its only call answered decides.
  pub data Tried : List ℕ → List ℕ → List ℕ → Type 0 where
    none_tried : Tried [] [] []
    did_open :
        {tried opened failed : List ℕ}
        → (r : ℕ) → Tried tried opened failed
        → is_known_resource r tried ≡ false
        → opens tried r ≡ true
        → Tried (tried ++ r ∷ []) (opened ++ r ∷ []) failed
    did_fail :
        {tried opened failed : List ℕ}
        → (r : ℕ) → Tried tried opened failed
        → is_known_resource r tried ≡ false
        → opens tried r ≡ false
        → Tried (tried ++ r ∷ []) opened (failed ++ r ∷ [])

  -- A resource that was tried is open or failed, and never both.
  record IsSplit (tried opened failed : List ℕ) (k : ℕ) : Type 0 where
    is_either : is_known_resource k tried ≡ is_known_resource k opened || is_known_resource k failed
    is_one : is_known_resource k opened && is_known_resource k failed ≡ false

  new_is_other :
      (r k : ℕ) (rs : List ℕ)
      → is_known_resource r rs ≡ false
      → (r == k) && is_known_resource k rs ≡ false
  new_is_other r k rs new = elim (Bool-cases (r == k)) [
    | inl same ↦ ground (arith, same, new, ap (λ x. is_known_resource x rs) ((==_iff r k).0 same))
    | inr distinct ↦ ground (arith, distinct)
  ]

  Tried-IsSplit :
      {tried opened failed : List ℕ} (k : ℕ)
      → Tried tried opened failed
      → IsSplit tried opened failed k
  Tried-IsSplit k none_tried =
      unfold is_known_resource any in record { is_either = refl; is_one = refl }
  Tried-IsSplit k (did_open {tried} {opened} {failed} r before new works) =
      let split = Tried-IsSplit k before in
      let other = new_is_other r k tried new in
      let t = is_known_resource-snoc k r tried in
      let o = is_known_resource-snoc k r opened in
      record {
        is_either = ground (arith, t, o, split.is_either);
        is_one = ground (arith, o, other, split.is_either, split.is_one);
      }
  Tried-IsSplit k (did_fail {tried} {opened} {failed} r before new works) =
      let split = Tried-IsSplit k before in
      let other = new_is_other r k tried new in
      let t = is_known_resource-snoc k r tried in
      let f = is_known_resource-snoc k r failed in
      record {
        is_either = ground (arith, t, f, split.is_either);
        is_one = ground (arith, f, other, split.is_either, split.is_one);
      }

  abbrev pub IsTried : Opening → Type 0
  IsTried o = Tried o.tried o.opened o.failed

  -- what was tried stays as it is
  pub record Keeps (o o' : Opening) (k : ℕ) : Type 0 where
    pub still_tried : is_known_resource k o.tried ≡ true → is_known_resource k o'.tried ≡ true
    pub same :
        is_known_resource k o.tried ≡ true
        → is_known_resource k o'.opened ≡ is_known_resource k o.opened

  pub Keeps-trans : (o o' o'' : Opening) (k : ℕ) → Keeps o o' k → Keeps o' o'' k → Keeps o o'' k
  Keeps-trans o o' o'' k a b = record {
    still_tried = λ h. b.still_tried (a.still_tried h);
    same = λ h. b.same (a.still_tried h) ∙ a.same h;
  }

  pub all_kept :
      (o o' : Opening) (resources : List ℕ)
      → ((k : ℕ) → Keeps o o' k)
      → all (λ r. is_known_resource r o.tried) resources ≡ true
      → (all (λ r. is_known_resource r o'.tried) resources ≡ true)
        × (all (λ r. is_known_resource r o'.opened) resources
            ≡ all (λ r. is_known_resource r o.opened) resources)
  unfolding all
  all_kept o o' [] keeps h = (refl, refl)
  all_kept o o' (r ∷ resources) keeps h =
      let (tried, opened) = all_kept o o' resources keeps (ground (arith, h)) in
      let known : is_known_resource r o.tried ≡ true = ground (arith, h) in
      (
        ground (arith, tried, (keeps r).still_tried known),
        ground (arith, opened, (keeps r).same known),
      )

  -- what is known of the resources of a component behind the loop over them
  pub record IsLooped (o o' : Opening) (resources : List ℕ) (usable result : Bool) : Type 0 where
    pub is_tried : IsTried o'
    pub keeps : (k : ℕ) → Keeps o o' k
    pub all_tried : all (λ r. is_known_resource r o'.tried) resources ≡ true
    pub is_usable : result ≡ usable && all (λ r. is_known_resource r o'.opened) resources

  try_open-IsTried :
      (o : Opening) (r : ℕ) (b : Bool)
      → IsTried o
      → is_known_resource r o.tried ≡ false
      → opens o.tried r ≡ b
      → IsTried (try_open o r b)
  unfolding try_open
  try_open-IsTried o r true before new works = did_open r before new works
  try_open-IsTried o r false before new fails = did_fail r before new fails

  try_open-Keeps :
      (o : Opening) (r : ℕ) (b : Bool) (k : ℕ)
      → is_known_resource r o.tried ≡ false
      → Keeps o (try_open o r b) k
  unfolding try_open
  try_open-Keeps o r true k new = record {
    still_tried = λ h. ground (arith, h, is_known_resource-snoc k r o.tried);
    same =
        λ h. ground (arith, h, new_is_other r k o.tried new, is_known_resource-snoc k r o.opened);
  }
  try_open-Keeps o r false k new = record {
    still_tried = λ h. ground (arith, h, is_known_resource-snoc k r o.tried);
    same = λ h. refl;
  }

  try_open-known :
      (o : Opening) (r : ℕ) (b : Bool)
      → is_known_resource r o.opened ≡ false
      → (is_known_resource r (try_open o r b).tried ≡ true)
        × (is_known_resource r (try_open o r b).opened ≡ b)
  unfolding try_open
  try_open-known o r true new = (
    ground (arith, ==_iff r r, is_known_resource-snoc r r o.tried),
    ground (arith, ==_iff r r, is_known_resource-snoc r r o.opened),
  )
  try_open-known o r false new =
      (ground (arith, ==_iff r r, is_known_resource-snoc r r o.tried), new)

  -- one round, from `o` to `m`, and the later ones
  next_round :
      (o m o' : Opening) (r : ℕ) (resources : List ℕ) (usable later result b : Bool)
      → ((k : ℕ) → Keeps o m k)
      → is_known_resource r m.tried ≡ true
      → is_known_resource r m.opened ≡ b
      → later ≡ usable && b
      → IsLooped m o' resources later result
      → IsLooped o o' (r ∷ resources) usable result
  next_round o m o' r resources usable later result b keeps known opened e looped = record {
    is_tried = looped.is_tried;
    keeps = λ k. Keeps-trans o m o' k (keeps k) (looped.keeps k);
    all_tried = unfold all in ground (arith, looped.all_tried, (looped.keeps r).still_tried known);
    is_usable =
        unfold all in ground (arith, looped.is_usable, (looped.keeps r).same known, opened, e);
  }

  pub Keeps-refl : (o : Opening) (k : ℕ) → Keeps o o k
  Keeps-refl o k = record { still_tried = λ h. h; same = λ h. refl }

  pub open_resources-IsLooped :
      (o : Opening) (resources : List ℕ) (usable : Bool)
      → IsTried o
      → IsLooped o
          (open_resources opens o resources usable).0
          resources
          usable
          (open_resources opens o resources usable).1
  unfolding open_resources
  open_resources-IsLooped o [] usable known = record {
    is_tried = known;
    keeps = Keeps-refl o;
    all_tried = unfold all in refl;
    is_usable = unfold all in ground arith;
  }
  open_resources-IsLooped o (r ∷ resources) usable known =
      let split = Tried-IsSplit r known in
      elim (Bool-cases (is_known_resource r o.failed)) [
        | inl is_failed ↦ rw is_failed (
            next_round o o _ r resources usable false _ false (Keeps-refl o)
              (ground (arith, split.is_either, is_failed)) (ground (arith, split.is_one, is_failed))
              (ground arith) (open_resources-IsLooped o resources false known))
        | inr not_failed ↦ elim (Bool-cases (is_known_resource r o.opened)) [
          | inl is_open ↦
              rw (not_failed, is_open)
                (next_round o o _ r resources usable usable _ true (Keeps-refl o)
                  (ground (arith, split.is_either, is_open)) is_open (ground arith)
                  (open_resources-IsLooped o resources usable known))
          | inr not_open ↦
              let new : is_known_resource r o.tried ≡ false =
                ground (arith, split.is_either, not_open, not_failed) in
              let b = opens o.tried r in
              rw (not_failed, not_open)
                (next_round o (try_open o r b) _ r resources usable (usable && b) _ b
                  (λ k. try_open-Keeps o r b k new) (try_open-known o r b not_open).0
                  (try_open-known o r b not_open).1 refl
                  (open_resources-IsLooped (try_open o r b) resources (usable && b)
                    (try_open-IsTried o r b known new refl)))
        ]
      ]
