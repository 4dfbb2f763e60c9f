-- ===== src/Local/Errors.antt =====
-- local.py: no error is kept beyond the status that lists it.
use openrois.Common.{
  ℕ, suc, ◌≡◌, refl, sym, true, false, inl, inr, Option, none, some, List, [], ◌∷◌, ◌++◌, arith,
  Text, codes, text_eq, text_eq_iff, Bool-cases,
}
use openrois.Common.Dict
use openrois.Common.Dict.{Dict, get-put, get-pop_all}
use openrois.Common.Table.{find, erase}
use openrois.Condition.Parse.{mem_text}
use openrois.Profiles.Status.{ComponentStatus, ErrorType}
use openrois.Local.State.{Raised, Error, Hosted, Local, new_id}
use openrois.Local.Statuses.{
  same_status, status_of, errors_of, recorded, report, keep_error, put_hosted, raise_hosted,
  raise_component, clear_hosted, clear_component, raise_each, clear_each, is_raised, raise_engine,
  clear_engine,
}
use openrois.Local.Listed.{
  errors_on, listed_by, IsListed, on_component, on_engine, AllListed, AreListed, mem_text-append,
  errors_on-put, find-recorded, find-erased, listed_by-recorded,
}

AreListed-report :
    (l : Local) (ref id : Text) (t : ErrorType) → AreListed l → AreListed (report l ref id t)
unfolding report
AreListed-report l ref id t all = elim (Bool-cases l.has_on_error) [
  | inl has ↦ rw has all
  | inr quiet ↦ rw quiet all
]

-- A status that is recorded with more errors leaves what is listed listed.
IsListed-recorded :
    (l : Local) (ref : Text) (h : Hosted) (key : ℕ) (s : ComponentStatus) (m : Text)
    (errs : List Text)
    → Dict.get ref l.hosted ≡ some h
    → (id : Text) → (mem_text id (errors_of (find key h.raised)) ≡ true → mem_text id errs ≡ true)
    → IsListed l.hosted l.engine_raised id
    → IsListed (Dict.put ref (recorded h key s m errs) l.hosted) l.engine_raised id
IsListed-recorded l ref h key s m errs known id more (on_component r k listed) =
    on_component r k (listed_by-recorded l.hosted ref h key s m errs known id more r k listed)
IsListed-recorded l ref h key s m errs known id more (on_engine listed) = on_engine listed

-- and one with a new error lists that one
IsListed-new :
    (l : Local) (ref : Text) (h : Hosted) (key : ℕ) (s : ComponentStatus) (m : Text)
    (before : List Text) (new : Text)
    → IsListed (Dict.put ref (recorded h key s m (before ++ new ∷ [])) l.hosted) l.engine_raised new
unfolding listed_by
IsListed-new l ref h key s m before new = on_component ref key (
    ground (
      arith,
      errors_on-put l.hosted ref (recorded h key s m (before ++ new ∷ [])) ref key,
      find-recorded h key key s m (before ++ new ∷ []),
      text_eq_iff ref ref,
      text_eq_iff new new,
      mem_text-append new new before,
    ))

AllListed-put :
    (hosted : Dict Hosted) (engine_raised : Option Raised) (errors : Dict Error) (new : Text)
    (error : Error)
    → IsListed hosted engine_raised new
    → ((id : Text) (e : Error) → Dict.get id errors ≡ some e → IsListed hosted engine_raised id)
    → AllListed hosted engine_raised (Dict.put new error errors)
AllListed-put hosted engine_raised errors new error listed old id e kept =
    elim (Bool-cases (text_eq new id)) [
      | inl same ↦ rw (sym ((text_eq_iff new id).0 same)) listed
      | inr other ↦ old id e (ground (arith, get-put new id error errors))
    ]

AreListed-raise_hosted :
    (l : Local) (ref : Text) (h : Hosted) (key : ℕ) (s : ComponentStatus) (m : Text) (t : ErrorType)
    (now : ℕ)
    → Dict.get ref l.hosted ≡ some h
    → AreListed l
    → AreListed (raise_hosted l ref h key s m t now)
unfolding raise_hosted put_hosted keep_error
AreListed-raise_hosted l ref h key s m t now known all =
    let before = errors_of (find key h.raised) in
    let new = new_id l (codes "err") in
    elim (Bool-cases (same_status (status_of (recorded h key s m before)) (status_of h))) [
      | inl same ↦
          rw same (λ id e kept.
            IsListed-recorded l ref h key s m before known id (λ k. k) (all id e kept))
      | inr other ↦ rw other (
          AreListed-report _ ref new t (
            AllListed-put _ l.engine_raised l.errors new _ (IsListed-new l ref h key s m before new)
              (λ id e kept.
                IsListed-recorded l ref h key s m (before ++ new ∷ []) known id
                  (λ k. ground (arith, mem_text-append id new before, k)) (all id e kept))))
    ]

-- A status that is withdrawn takes the errors of its source with it.
listed_by-erased :
    (l : Local) (ref : Text) (h : Hosted) (key : ℕ)
    → Dict.get ref l.hosted ≡ some h
    → (id : Text) → mem_text id (errors_of (find key h.raised)) ≡ false
    → (r : Text) (k : ℕ) → listed_by l.hosted r k id ≡ true
    → listed_by (Dict.put ref (record h { raised = erase key h.raised }) l.hosted) r k id ≡ true
unfolding listed_by errors_on
listed_by-erased l ref h key known id kept r k listed = ground (
  arith,
  errors_on-put l.hosted ref (record h { raised = erase key h.raised }) r k,
  find-erased h key k,
  text_eq_iff ref r,
  known,
  listed,
  kept,
)

kept-forget :
    (ids : List Text) (errors : Dict Error) (id : Text) (e : Error)
    → Dict.get id (Dict.pop_all ids errors) ≡ some e
    → (mem_text id ids ≡ false) × (Dict.get id errors ≡ some e)
unfolding mem_text
kept-forget ids errors id e kept = ground (arith, get-pop_all ids errors id, kept)

AreListed-clear_hosted :
    (l : Local) (ref : Text) (h : Hosted) (key : ℕ)
    → Dict.get ref l.hosted ≡ some h
    → AreListed l
    → AreListed (clear_hosted l ref h key)
unfolding clear_hosted
AreListed-clear_hosted l ref h key known all id e kept =
    let (free, was) = kept-forget (errors_of (find key h.raised)) l.errors id e kept in
    elim (all id e was) [
      | on_component r k listed ↦
          on_component r k (listed_by-erased l ref h key known id free r k listed)
      | on_engine listed ↦ on_engine listed
    ]

pub AreListed-raise_component :
    (l : Local) (ref : Text) (key : ℕ) (s : ComponentStatus) (m : Text) (t : ErrorType) (now : ℕ)
    → AreListed l
    → AreListed (raise_component l ref key s m t now)
unfolding raise_component
AreListed-raise_component l ref key s m t now all = found (Dict.get ref l.hosted) refl
  where
    found :
        (o : Option Hosted)
        → Dict.get ref l.hosted ≡ o
        → AreListed (elim o [ none ↦ l | some h ↦ raise_hosted l ref h key s m t now ])
    found none known = all
    found (some h) known = AreListed-raise_hosted l ref h key s m t now known all

pub AreListed-clear_component :
    (l : Local) (ref : Text) (key : ℕ) → AreListed l → AreListed (clear_component l ref key)
unfolding clear_component
AreListed-clear_component l ref key all = found (Dict.get ref l.hosted) refl
  where
    found :
        (o : Option Hosted)
        → Dict.get ref l.hosted ≡ o
        → AreListed (elim o [ none ↦ l | some h ↦ clear_hosted l ref h key ])
    found none known = all
    found (some h) known = AreListed-clear_hosted l ref h key known all

pub AreListed-raise_each :
    (l : Local) (refs : List Text) (r : ℕ) (s : ComponentStatus) (m : Text) (now : ℕ)
    → AreListed l
    → AreListed (raise_each l refs r s m now)
unfolding raise_each
AreListed-raise_each l [] r s m now all = all
AreListed-raise_each l (ref ∷ refs) r s m now all =
    AreListed-raise_each (raise_component l ref (suc r) s m ErrorType.component_not_responding now)
      refs r s m now
      (AreListed-raise_component l ref (suc r) s m ErrorType.component_not_responding now all)

pub AreListed-clear_each :
    (l : Local) (refs : List Text) (r : ℕ) → AreListed l → AreListed (clear_each l refs r)
unfolding clear_each
AreListed-clear_each l [] r all = all
AreListed-clear_each l (ref ∷ refs) r all =
    AreListed-clear_each (clear_component l ref (suc r)) refs r
      (AreListed-clear_component l ref (suc r) all)

-- The engine's own status lists its errors in the same way.
IsListed-engine :
    {hosted : Dict Hosted} {before after : Option Raised} {id : Text}
    → (mem_text id (errors_of before) ≡ true → mem_text id (errors_of after) ≡ true)
    → IsListed hosted before id
    → IsListed hosted after id
IsListed-engine more (on_component r k listed) = on_component r k listed
IsListed-engine more (on_engine listed) = on_engine (more listed)

pub AreListed-raise_engine :
    (l : Local) (s : ComponentStatus) (m : Text) (now : ℕ)
    → AreListed l
    → AreListed (raise_engine l s m now)
unfolding raise_engine keep_error errors_of
AreListed-raise_engine l s m now all =
    let new = new_id l (codes "err") in
    elim (Bool-cases (is_raised s l.engine_raised)) [
      | inl same ↦ rw same (λ id e kept. IsListed-engine (λ k. k) (all id e kept))
      | inr other ↦ rw other (
          AreListed-report _ [] new ErrorType.engine_internal_error (
            AllListed-put l.hosted _ l.errors new _
              (on_engine (
                ground (
                  arith,
                  mem_text-append new new (errors_of l.engine_raised),
                  text_eq_iff new new,
                )))
              (λ id e kept.
                IsListed-engine
                  (λ k. ground (arith, mem_text-append id new (errors_of l.engine_raised), k))
                  (all id e kept))))
    ]

pub AreListed-clear_engine : (l : Local) → AreListed l → AreListed (clear_engine l)
unfolding clear_engine
AreListed-clear_engine l all id e kept =
    let (free, was) = kept-forget (errors_of l.engine_raised) l.errors id e kept in
    elim (all id e was) [
      | on_component r k listed ↦ on_component r k listed
      | on_engine listed ↦ absurd (ground arith)
    ]
