-- ===== src/Local/Aborting.antt =====
-- local.py: which steps keep a command in `hosted.aborted`.
use openrois.Common.{
  ℕ, ◌≡◌, ◌≢◌, refl, ap, ◌∙◌, Bool, true, false, Option, none, some, List, [], ◌∷◌, ◌++◌, arith,
  get_elem?, any, keep, Text, text_eq, text_eq_iff, Bool-cases, inl, inr,
}
use openrois.Condition.Parse.{mem_text}
use openrois.Local.State.{Start, Takeover, Hosted}
use openrois.Local.Commands.{
  aborting_start, aborting, begin_start, without_current, time_out_start, take_turn, pass_turn,
  finish_handler,
}
use openrois.Local.Suspensions.{
  lift_at, lift, begin_stop, begin_suspend, lift_if, end_suspend, end_resume,
}
use openrois.Local.Ends.{
  Work, with_id, without_id, is_none, keep_nothing, begin, Outcome, end, ended,
}
use openrois.Local.Steps.{
  Step, starts, times_out, takes_turn, passes_turn, finishes, ends_start, runs, stops, suspends,
  ends, ends_suspend, ends_resume,
}

-- the command is in `hosted.aborted`
abbrev pub IsAborting : Text → Hosted → Type 0
IsAborting id h = mem_text id h.aborted ≡ true

mem_text-with_id : (id : Text) (ids : List Text) → mem_text id (with_id id ids) ≡ true
unfolding with_id mem_text any
mem_text-with_id id ids = elim (Bool-cases (mem_text id ids)) [
  | inl there ↦ rw there there
  | inr new ↦ rw new (at_end ids)
]
  where
    at_end : (xs : List Text) → any (λ x. text_eq x id) (xs ++ id ∷ []) ≡ true
    at_end [] = ground (arith, text_eq_iff id id)
    at_end (x ∷ xs) = ground (arith, at_end xs)

mem_text-aborting_start :
    (ids : List Text) (s : Start) (o : Option Start)
    → o ≡ some s
    → mem_text s.command_id (aborting_start ids o) ≡ true
unfolding aborting_start
mem_text-aborting_start ids s o e = rw e (mem_text-with_id s.command_id ids)

pub mem_text-aborting :
    (h : Hosted) (c : ℕ) (s : Start)
    → h.start ≡ some c
    → get_elem? h.starts c ≡ some s
    → mem_text s.command_id (aborting h h.start) ≡ true
unfolding aborting
mem_text-aborting h c s latest at =
    ap (λ o. mem_text s.command_id (aborting h o)) latest
    ∙ mem_text-aborting_start h.aborted s (get_elem? h.starts c) at

pub start-lift_at : (h : Hosted) (b : Bool) (o : Option ℕ) → (lift_at h b o).start ≡ h.start
unfolding lift_at
start-lift_at h b none = refl
start-lift_at h b (some s) = refl

pub starts-lift_at : (h : Hosted) (b : Bool) (o : Option ℕ) → (lift_at h b o).starts ≡ h.starts
unfolding lift_at
starts-lift_at h b none = refl
starts-lift_at h b (some s) = refl

mem_text-with_id_kept :
    (t id : Text) (ids : List Text) → mem_text t ids ≡ true → mem_text t (with_id id ids) ≡ true
unfolding with_id mem_text any
mem_text-with_id_kept t id ids h = elim (Bool-cases (mem_text id ids)) [
  | inl there ↦ rw there h
  | inr new ↦ rw new (longer ids h)
]
  where
    longer :
        (xs : List Text)
        → any (λ x. text_eq x t) xs ≡ true
        → any (λ x. text_eq x t) (xs ++ id ∷ []) ≡ true
    longer [] h = cc
    longer (x ∷ xs) h = ground (arith, longer xs)

mem_text-without_id :
    (t id : Text) (ids : List Text)
    → id ≢ t
    → mem_text t ids ≡ true
    → mem_text t (without_id id ids) ≡ true
unfolding without_id mem_text any keep
mem_text-without_id t id [] other h = h
mem_text-without_id t id (x ∷ ids) other h =
    ground (arith, mem_text-without_id t id ids other, text_eq_iff x t, text_eq_iff x id, other, h)

aborting-kept :
    (id : Text) (h : Hosted) (o : Option ℕ) → IsAborting id h → mem_text id (aborting h o) ≡ true
unfolding aborting
aborting-kept id h none a = a
aborting-kept id h (some c) a = of_start (get_elem? h.starts c)
  where
    of_start : (o : Option Start) → mem_text id (aborting_start h.aborted o) ≡ true
    of_start none = unfold aborting_start in a
    of_start (some s) = unfold aborting_start in mem_text-with_id_kept id s.command_id h.aborted a

lift_at-kept :
    (id : Text) (h : Hosted) (b : Bool) (o : Option ℕ)
    → IsAborting id h
    → IsAborting id (lift_at h b o)
unfolding lift_at
lift_at-kept id h b none a = a
lift_at-kept id h b (some s) a = a

lift_if-kept :
    (id : Text) (b : Bool) (w : Work) → IsAborting id w.hosted → IsAborting id (lift_if b w).hosted
unfolding lift_if lift
lift_if-kept id true w a = lift_at-kept id w.hosted false w.hosted.suspension a
lift_if-kept id false w a = a

end-kept :
    (id other : Text) (w : Work) (is_start : Bool) (outcome : Outcome)
    → other ≢ id
    → IsAborting id w.hosted
    → IsAborting id (end w other is_start outcome).0.hosted
unfolding end ended
end-kept id other w is_start outcome distinct a =
    mem_text-without_id id other w.hosted.aborted distinct a

take_turn-kept :
    (id other : Text) (w : Work) (c : ℕ) (queue : List Takeover)
    → other ≢ id
    → IsAborting id w.hosted
    → IsAborting id (take_turn w c other queue).0.hosted
unfolding take_turn keep_nothing without_current begin
take_turn-kept id other w c queue distinct a = elim (Bool-cases (mem_text other w.hosted.aborted)) [
  | inl there ↦ rw (take_turn, there) (mem_text-without_id id other w.hosted.aborted distinct a)
  | inr free ↦ rw (take_turn, free) a
]

begin_stop-kept :
    (id other : Text) (w : Work)
    → IsAborting id w.hosted
    → IsAborting id (begin_stop w other).hosted
unfolding begin_stop begin lift
begin_stop-kept id other w a =
    let h = lift_at (record w.hosted { started = false }) true w.hosted.suspension in
    aborting-kept id h h.start (lift_at-kept id _ true w.hosted.suspension a)

begin_suspend-kept :
    (id other : Text) (w : Work)
    → IsAborting id w.hosted
    → IsAborting id (begin_suspend w other).0.hosted
unfolding begin_suspend begin
begin_suspend-kept id other w a = elim (Bool-cases (is_none w.hosted.suspension)) [
  | inl first ↦ rw (begin_suspend, first) a
  | inr again ↦ rw (begin_suspend, again) a
]

-- The step does not end this start: its handler is not done by it, its turn does not come, and its time
-- is not over.
abbrev pub IsOther : {is_start : Text → Bool} {u v : Work} → Text → Step is_start u v → Type 0
IsOther id (times_out a s is_cancelled at waits) = s.command_id ≢ id
IsOther id (takes_turn t queue s first awaited idle at) = s.command_id ≢ id
IsOther id (ends_start a s outcome at done) = s.command_id ≢ id
IsOther id (starts i is at) = Unit
IsOther id (passes_turn t queue first given idle) = Unit
IsOther id (finishes a live) = Unit
IsOther id (runs i other) = Unit
IsOther id (stops i other) = Unit
IsOther id (suspends i other) = Unit
IsOther id (ends i outcome other) = Unit
IsOther id (ends_suspend i outcome fresh s other) = Unit
IsOther id (ends_resume i outcome other) = Unit

not_start :
    (is_start : Text → Bool) (i id : Text) → is_start i ≡ false → is_start id ≡ true → i ≢ id
not_start is_start i id h k e = ground (arith, h, k, ap is_start e)

Step-IsAborting :
    {is_start : Text → Bool} {u v : Work} (id : Text) (step : Step is_start u v)
    → is_start id ≡ true
    → IsOther id step
    → IsAborting id u.hosted
    → IsAborting id v.hosted
unfolding begin_start time_out_start without_current keep_nothing pass_turn finish_handler begin
    end_suspend end_resume
Step-IsAborting {u = u} id (starts i is at) k other a = aborting-kept id u.hosted u.hosted.start a
Step-IsAborting {u = u} id (times_out c s is_cancelled at waits) k other a =
    mem_text-without_id id s.command_id u.hosted.aborted other a
Step-IsAborting {u = u} id (takes_turn t queue s first awaited idle at) k other a =
    take_turn-kept id s.command_id u t.current queue other a
Step-IsAborting id (passes_turn t queue first given idle) k other a = a
Step-IsAborting id (finishes c live) k other a = a
Step-IsAborting {u = u} id (ends_start c s outcome at done) k other a =
    end-kept id s.command_id u true outcome other a
Step-IsAborting id (runs i h) k other a = a
Step-IsAborting {u = u} id (stops i h) k other a = begin_stop-kept id i u a
Step-IsAborting {u = u} id (suspends i h) k other a = begin_suspend-kept id i u a
Step-IsAborting {is_start} {u = u} id (ends i outcome h) k other a =
    end-kept id i u false outcome (not_start is_start i id h k) a
Step-IsAborting {is_start} {u = u} id (ends_suspend i outcome fresh s h) k other a =
    lift_if-kept id _ (end u i false outcome).0
      (end-kept id i u false outcome (not_start is_start i id h k) a)
Step-IsAborting {is_start} {u = u} id (ends_resume i outcome h) k other a =
    lift_if-kept id _ (end u i false outcome).0
      (end-kept id i u false outcome (not_start is_start i id h k) a)

-- Any steps, none of which ends this start.
pub data Passes (is_start : Text → Bool) (id : Text) (w : Work) : Work → Type 0 where
  at_once : Passes is_start id w w
  passing :
      {u v : Work}
      → Passes is_start id w u
      → (step : Step is_start u v) → IsOther id step
      → Passes is_start id w v

pub Passes-IsAborting :
    {is_start : Text → Bool} {w : Work} (id : Text) {v : Work}
    → is_start id ≡ true
    → Passes is_start id w v
    → IsAborting id w.hosted
    → IsAborting id v.hosted
Passes-IsAborting id k at_once a = a
Passes-IsAborting id k (passing before step other) a =
    Step-IsAborting id step k other (Passes-IsAborting id k before a)
