-- ===== src/Child/Pending.antt =====
-- child.py: the requests that wait for a reply. `_request`, `_handle_reply`, `_remember_late` and the
-- replies of `detach`. A hook is a number, and `accepts` says whether `on_reply` takes an OK reply.
-- `_request` is cut at its wait: `begin_request`, then one of its ends.
use openrois.Common.{
  ℕ, suc, Bool, true, false, not, ◌&&◌, Option, none, some, List, [], ◌∷◌, ◌++◌, ◌==◌,
  if◌then◌else◌, drop_oldest,
}
use openrois.Profiles.Status.{ReturnCode}

-- How many requests whose caller stopped waiting are remembered: `_LATE_KEPT`.
abbrev pub late_kept : ℕ
late_kept = 1024

-- A dict with request ids as keys, in insertion order.
abbrev pub Requests : Type 0 → Type 0
Requests V = List (ℕ × V)

unfoldable pub request_at : {V : Type 0} → ℕ → Requests V → Option V
request_at i [] = none
request_at i ((j, v) ∷ d) = if j == i then some v else request_at i d

unfoldable pub without_request : {V : Type 0} → ℕ → Requests V → Requests V
without_request i [] = []
without_request i ((j, v) ∷ d) =
    let rest = without_request i d in if j == i then rest else (j, v) ∷ rest

-- `_late[request_id] = …`
unfoldable pub put_request : {V : Type 0} → ℕ → V → Requests V → Requests V
put_request i v [] = (i, v) ∷ []
put_request i v ((j, w) ∷ d) =
    let rest = put_request i v d in if j == i then (j, v) ∷ d else (j, w) ∷ rest

-- An entry of `_pending`: whether its future is done. It is done before the entry goes where the time
-- is over, or the caller is cancelled, and its task has not run since. The hook of the entry is the
-- argument `accepts` of `handle_reply`.
pub record Wait : Type 0 where
  pub is_done : Bool

-- The requests of one connection; `answers` has the results of futures and `late_hooks` the hooks that
-- ran for a late reply, oldest first.
pub record Calls : Type 0 where
  pub is_open : Bool
  pub next_id : ℕ
  pub pending : Requests Wait
  pub late : Requests ℕ
  pub answers : List (ℕ × ReturnCode)
  pub late_hooks : List ℕ

-- the requests of `__init__`
abbrev pub new_calls : Calls
new_calls = record {
  is_open = true;
  next_id = 0;
  pending = [];
  late = [];
  answers = [];
  late_hooks = [];
}

-- `_request` up to its wait: the id, or no request on a connection that is gone.
unfoldable pub begin_request : Calls → Calls × Option ℕ
begin_request c =
    if c.is_open
    then (
      record c {
        next_id = suc c.next_id;
        pending = c.pending ++ (suc c.next_id, record { is_done = false }) ∷ [];
      },
      some (suc c.next_id),
    )
    else (c, none)

unfoldable pub mark_done : ℕ → Requests Wait → Requests Wait
mark_done i [] = []
mark_done i ((j, w) ∷ d) =
    let rest = mark_done i d in
    if j == i then (j, record w { is_done = true }) ∷ rest else (j, w) ∷ rest

-- The time of a request is over, or its caller is cancelled: its future is cancelled.
unfoldable pub cancel_future : Calls → ℕ → Calls
cancel_future c i = record c { pending = mark_done i c.pending }

-- `_remember_late`
unfoldable pub remember_late : Requests ℕ → ℕ → Option ℕ → Requests ℕ
remember_late late i none = late
remember_late late i (some hook) = drop_oldest late_kept (put_request i hook late)

-- `_request` where its time is over: it is remembered for a late reply, and waits no longer.
unfoldable pub time_out : Calls → ℕ → Option ℕ → Calls × ReturnCode
time_out c i on_late = (
  record c { pending = without_request i c.pending; late = remember_late c.late i on_late },
  ReturnCode.timeout,
)

-- `_request` where the message could not be sent: it waits no longer.
unfoldable pub fail_send : Calls → ℕ → Calls × ReturnCode
fail_send c i = (record c { pending = without_request i c.pending }, ReturnCode.error)

unfoldable pub is_ok : ReturnCode → Bool
is_ok ReturnCode.ok = true
is_ok _ = false

-- what the caller of a request sees of a reply, with the answer of `on_reply`
unfoldable pub seen : Bool → ReturnCode → ReturnCode
seen accepts code = if is_ok code && not accepts then ReturnCode.error else code

unfoldable pub hook_if_ok : List ℕ → ReturnCode → Option ℕ → List ℕ
hook_if_ok hooks code none = hooks
hook_if_ok hooks code (some hook) = if is_ok code then hooks ++ hook ∷ [] else hooks

-- `_request` where its caller is cancelled. `arrived` is the reply, if it resolved the future before.
unfoldable pub leave : Calls → ℕ → Option ℕ → Option ReturnCode → Calls
leave c i on_late none = record c {
  pending = without_request i c.pending;
  late = remember_late c.late i on_late;
}
leave c i on_late (some code) = record c {
  pending = without_request i c.pending;
  late_hooks = hook_if_ok c.late_hooks code on_late;
}

unfoldable pub late_reply : Calls → ℕ → ReturnCode → Option ℕ → Calls
late_reply c i code none = c
late_reply c i code (some hook) = record c {
  late = without_request i c.late;
  late_hooks = hook_if_ok c.late_hooks code (some hook);
}

unfoldable pub reply_to : Calls → ℕ → Bool → ReturnCode → Option Wait → Calls
reply_to c i accepts code none = late_reply c i code (request_at i c.late)
reply_to c i accepts code (some w) = record c {
  pending = without_request i c.pending;
  answers = if w.is_done then c.answers else c.answers ++ (i, seen accepts code) ∷ [];
}

-- `_handle_reply` of a reply with a number as its id
unfoldable pub handle_reply : Calls → ℕ → Bool → ReturnCode → Calls
handle_reply c i accepts code = reply_to c i accepts code (request_at i c.pending)

unfoldable pub all_failed : Requests Wait → List (ℕ × ReturnCode)
all_failed [] = []
all_failed ((i, w) ∷ pending) =
    let rest = all_failed pending in if w.is_done then rest else (i, ReturnCode.error) ∷ rest

-- `detach`: every request that waits is answered with ERROR.
unfoldable pub detach : Calls → Calls
detach c = record c {
  is_open = false;
  pending = [];
  late = [];
  answers = c.answers ++ all_failed c.pending;
}

-- One step of the requests: a request begins, its future is cancelled, it ends in one of four ways, a
-- reply arrives, or the connection goes. Which request it is, and what its reply says, is open.
pub data Step (c : Calls) : Calls → Type 0 where
  begins : Step c (begin_request c).0
  cancels : (i : ℕ) → Step c (cancel_future c i)
  times_out : (i : ℕ) (on_late : Option ℕ) → Step c (time_out c i on_late).0
  fails : (i : ℕ) → Step c (fail_send c i).0
  leaves :
      (i : ℕ) (on_late : Option ℕ) (arrived : Option ReturnCode)
      → Step c (leave c i on_late arrived)
  replies : (i : ℕ) (accepts : Bool) (code : ReturnCode) → Step c (handle_reply c i accepts code)
  detaches : Step c (detach c)

pub data Reach (c : Calls) : Calls → Type 0 where
  here : Reach c c
  next : {d e : Calls} → Reach c d → Step d e → Reach c e
