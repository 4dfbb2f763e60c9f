-- ===== src/Engine/Busy.antt =====
-- engine.py: what `component_status` shows a session, against what a bind would answer it.
use openrois.Common.{
  ◌≤◌, ◌≡◌, refl, ◌↔◌, Bool, true, false, not, ◌&&◌, ◌||◌, Option, none, some, List, [], ◌∷◌, ◌++◌,
  arith, length, Bool-cases, inl, inr, keep, any, Text, text_eq, text_eq_iff, codes, if◌then◌else◌,
}
use openrois.Condition.Parse.{mem_text}
use openrois.Profiles.Status.{ReturnCode}
use openrois.Profiles.Units.{ComponentProfile, Named}
use openrois.Engine.State.{Engine}
use openrois.Engine.Routes.{profile_of}
use openrois.Engine.Binds.{
  holders, is_empty, is_actuation, bind, discard, bind_request, is_busy_for, is_ready, as_seen_by,
}
use openrois.Engine.Requests.{query_reply}
use openrois.Engine.Exclusive.{IsExclusive}

pub mem_text-append :
    (t : Text) (xs ys : List Text) → mem_text t (xs ++ ys) ≡ mem_text t xs || mem_text t ys
unfolding mem_text any
mem_text-append t [] ys = refl
mem_text-append t (x ∷ xs) ys = ground (arith, mem_text-append t xs ys)

pub mem_text-discard :
    (t u : Text) (xs : List Text) → mem_text t (discard u xs) ≡ (not (text_eq u t) && mem_text t xs)
unfolding mem_text any discard keep
mem_text-discard t u [] = ground arith
mem_text-discard t u (x ∷ xs) =
    ground (arith, mem_text-discard t u xs, text_eq_iff u t, text_eq_iff x t, text_eq_iff x u)

-- no one else: a list with one text at most, without that text
discard-single :
    (t : Text) (xs : List Text)
    → length xs ≤ 1
    → mem_text t xs ≡ true
    → is_empty (discard t xs) ≡ true
unfolding mem_text any discard keep is_empty
discard-single t [] h m = refl
discard-single t (x ∷ []) h m = ground arith
discard-single t (x ∷ y ∷ xs) h m = absurd (omega arith)

discard-absent : (t : Text) (xs : List Text) → mem_text t xs ≡ false → discard t xs ≡ xs
unfolding mem_text any discard keep
discard-absent t [] h = refl
discard-absent t (x ∷ xs) h = ground (arith, discard-absent t xs)

bind-out_of_resources :
    (e : Engine) (s ref : Text) (p : ComponentProfile)
    → IsExclusive e
    → profile_of e ref ≡ some p
    → (is_actuation p && not (is_empty (discard s (holders e ref))) ≡ true)
      ↔ ((bind e s ref p).1 ≡ ReturnCode.out_of_resources)
unfolding bind
bind-out_of_resources e s ref p x h = elim (Bool-cases (mem_text s (holders e ref))) [
  | inl m ↦ (
    ground (arith, x.one_holder ref p, discard-single s (holders e ref)),
    ground (arith, x.one_holder ref p, discard-single s (holders e ref)),
  )
  | inr a ↦ (
    ground (arith, discard-absent s (holders e ref)),
    ground (arith, discard-absent s (holders e ref)),
  )
]

-- the test of `_as_seen_by` against the answer of a bind
is_busy_for_iff :
    (e : Engine) (s ref : Text)
    → IsExclusive e
    → (is_busy_for e s ref ≡ true) ↔ ((bind_request e s ref).1 ≡ ReturnCode.out_of_resources)
unfolding is_busy_for bind_request
is_busy_for_iff e s ref x = of_profile (profile_of e ref) refl
  where
    of_profile :
        (found : Option ComponentProfile)
        → profile_of e ref ≡ found
        → ((let b : Bool = elim found [
          | none ↦ false
          | some profile ↦ is_actuation profile && not (is_empty (discard s (holders e ref)))
        ] in
              b)
            ≡ true)
          ↔ ((let y : Engine × ReturnCode = elim found [
            | none ↦ (e, ReturnCode.unsupported)
            | some profile ↦ bind e s ref profile
          ] in
                y).1
              ≡ ReturnCode.out_of_resources)
    of_profile none h = (λ k. cc, λ k. cc)
    of_profile (some p) h = bind-out_of_resources e s ref p x h

-- A result that says that the component is ready.
pub record IsReady (r : Named) : Type 0 where
  pub is_status : r.name ≡ codes "status"
  pub says_ready : r.value ≡ codes "READY"

is_ready-IsReady : (r : Named) → is_ready r ≡ true → IsReady r
unfolding is_ready
is_ready-IsReady r h = record {
  is_status = (text_eq_iff r.name (codes "status")).0 (ground arith);
  says_ready = (text_eq_iff r.value (codes "READY")).0 (ground arith);
}

IsReady-is_ready : (r : Named) → IsReady r → is_ready r ≡ true
unfolding is_ready
IsReady-is_ready r x = ground (
  arith,
  (text_eq_iff r.name (codes "status")).1 x.is_status,
  (text_eq_iff r.value (codes "READY")).1 x.says_ready,
)

-- How a session is shown one result of a source, where `code` is what a bind would answer it.
pub data IsShown (code : ReturnCode) (r : Named) : Named → Type 0 where
  as_busy :
      IsReady r
      → code ≡ ReturnCode.out_of_resources
      → IsShown code r (record r { value = codes "BUSY" })
  as_it_is : ¬ (IsReady r × (code ≡ ReturnCode.out_of_resources)) → IsShown code r r

pub data AreShown (code : ReturnCode) : List Named → List Named → Type 0 where
  shown_none : AreShown code [] []
  shown_next :
      {r r' : Named} {rs rs' : List Named}
      → IsShown code r r'
      → AreShown code rs rs'
      → AreShown code (r ∷ rs) (r' ∷ rs')

as_seen_by-IsShown :
    (e : Engine) (s ref : Text) (r : Named)
    → IsExclusive e
    → IsShown
        (bind_request e s ref).1
        r
        (if is_busy_for e s ref && is_ready r then record r { value = codes "BUSY" } else r)
as_seen_by-IsShown e s ref r x =
    let is_busy = is_busy_for_iff e s ref x in
    elim (Bool-cases (is_busy_for e s ref && is_ready r)) [
      | inl both ↦ rw both (as_busy (is_ready-IsReady r (ground arith)) (is_busy.0 (ground arith)))
      | inr either ↦ rw either (
          as_it_is (λ (ready, refused).
            ground (arith, either, IsReady-is_ready r ready, is_busy.1 refused)))
    ]

as_seen_by-AreShown :
    (e : Engine) (s ref : Text) (results : List Named)
    → IsExclusive e
    → AreShown (bind_request e s ref).1 results (as_seen_by e s ref results)
unfolding as_seen_by
as_seen_by-AreShown e s ref [] x = shown_none
as_seen_by-AreShown e s ref (r ∷ results) x =
    shown_next (as_seen_by-IsShown e s ref r x) (as_seen_by-AreShown e s ref results x)

-- While every actuation component has one holder at most, `component_status` shows a session BUSY
-- where the source says READY and a bind of that session would be answered with OUT_OF_RESOURCES, and
-- every other result as the source gives it.
pub query_reply-AreShown :
    (e : Engine) (s ref : Text) (results : List Named)
    → IsExclusive e
    → AreShown
        (bind_request e s ref).1
        results
        (query_reply e s ref (codes "component_status") ReturnCode.ok results).1
unfolding query_reply text_eq
query_reply-AreShown e s ref results x = as_seen_by-AreShown e s ref results x
