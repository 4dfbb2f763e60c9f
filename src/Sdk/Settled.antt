-- ===== src/Sdk/Settled.antt =====
-- transport.py: a request is settled once at most, and none waits without a connection.
use openrois.Common.{
  ℕ, ◌+◌, ◌≤◌, ◌≡◌, ◌⊎◌, refl, Bool, true, false, not, ◌&&◌, Option, none, some, [], ◌∷◌, arith,
  if◌then◌else◌, ◌==◌, ltb, Bool-cases, inl, inr, Text, any,
}
use openrois.Common.Table.{Table, find, erase}
use openrois.Sdk.Transport.{
  TransportState, Transport, is_connected, is_disconnected, is_closing, emit, start_connect,
  end_connect, abort_connect, register, done_at, leave, end_send, all_lost, fail_pending,
  start_close, finish, answer_with, settle, settle_request, Message, reply, stray_reply,
  notification, unusable, dispatch, receive,
}
use openrois.Sdk.Times.{
  times, times-all_lost, times-append, times-done_at, times-erase, times-erase_bound, times-find,
  times-single,
}

-- A request is waiting or settled once in all, and only if it was sent.
pub record IsSettledOnce (t : Transport) : Type 0 where
  pub once :
      (id : ℕ) → times id t.pending + times id t.answers ≤ (if ltb id t.next_id then 1 else 0)
  pub open_only : (is_connected t.state ≡ true) ⊎ (t.pending ≡ [])

-- One step: a call up to its wait or from the end of it on, a message, or the end of the connection.
pub data Step (t : Transport) : Transport → Type 0 where
  begins_connect : is_disconnected t.state ≡ true → Step t (start_connect t)
  ends_connect : (is_open : Bool) → is_connected t.state ≡ false → Step t (end_connect t is_open)
  aborts_connect : is_connected t.state ≡ false → Step t (abort_connect t)
  sends : is_connected t.state ≡ true → Step t (register t)
  leaves : (id : ℕ) → Step t (leave t id)
  ends_send : (id : ℕ) (is_cancelled : Bool) → Step t (end_send t id is_cancelled)
  closes : (code : ℕ) (reason : Text) → Step t (start_close t code reason)
  receives : (message : Message) → Step t (receive t message)
  finishes : (outcome : ℕ × Text) → Step t (finish t outcome)

pub data Reach (t : Transport) : Transport → Type 0 where
  here : Reach t t
  next : {u v : Transport} → Reach t u → Step u v → Reach t v

no_pending : (t : Transport) → IsSettledOnce t → is_connected t.state ≡ false → t.pending ≡ []
no_pending t o off = elim (o.open_only) [
  | inl on ↦ absurd (ground arith)
  | inr none_waits ↦ none_waits
]

fail_pending-IsSettledOnce : (t : Transport) → IsSettledOnce t → IsSettledOnce (fail_pending t)
unfolding fail_pending times
fail_pending-IsSettledOnce t o = record {
  once = λ id. omega (
    arith,
    times-append id t.answers (all_lost t.pending),
    times-all_lost id t.pending,
    o.once id,
  );
  open_only = inr refl;
}

erase-open :
    (state : TransportState) (k : ℕ) (pending : Table Bool)
    → (is_connected state ≡ true) ⊎ (pending ≡ [])
    → (is_connected state ≡ true) ⊎ (erase k pending ≡ [])
erase-open state k pending (inl on) = inl on
erase-open state k pending (inr none_waits) = inr (rw none_waits (unfold erase in refl))

done_at-open :
    (state : TransportState) (k : ℕ) (pending : Table Bool)
    → (is_connected state ≡ true) ⊎ (pending ≡ [])
    → (is_connected state ≡ true) ⊎ (done_at k pending ≡ [])
done_at-open state k pending (inl on) = inl on
done_at-open state k pending (inr none_waits) = inr (rw none_waits (unfold done_at in refl))

settle-IsSettledOnce :
    (t : Transport) (id : ℕ) (is_fault : Bool) (o : Option Bool)
    → find id t.pending ≡ o
    → IsSettledOnce t
    → IsSettledOnce (settle t id is_fault o)
unfolding settle emit
settle-IsSettledOnce t id is_fault none e once =
    elim (Bool-cases (any (λ i. i == id) t.abandoned)) [
      | inl known ↦ rw known once
      | inr unknown ↦ rw unknown (record { once = once.once; open_only = once.open_only })
    ]
settle-IsSettledOnce t id is_fault (some true) e once = record {
  once = λ k. omega (arith, times-erase_bound k id t.pending, once.once k);
  open_only = erase-open t.state id t.pending once.open_only;
}
settle-IsSettledOnce t id is_fault (some false) e once = record {
  once = λ k. ground (
    arith,
    times-append k t.answers ((id, answer_with is_fault) ∷ []),
    times-single k id (answer_with is_fault),
    times-erase k id t.pending,
    times-find id t.pending false e,
    once.once k,
  );
  open_only = erase-open t.state id t.pending once.open_only;
}

dispatch-IsSettledOnce :
    (t : Transport) (m : Message) → IsSettledOnce t → IsSettledOnce (dispatch t m)
unfolding dispatch settle_request emit
dispatch-IsSettledOnce t (reply id is_fault) o =
    settle-IsSettledOnce t id is_fault (find id t.pending) refl o
dispatch-IsSettledOnce t stray_reply o = record { once = o.once; open_only = o.open_only }
dispatch-IsSettledOnce t notification o = record { once = o.once; open_only = o.open_only }
dispatch-IsSettledOnce t unusable o = record { once = o.once; open_only = o.open_only }

register-IsSettledOnce :
    (t : Transport) → is_connected t.state ≡ true → IsSettledOnce t → IsSettledOnce (register t)
unfolding register
register-IsSettledOnce t on o = record {
  once = λ k. ground (
    arith,
    times-append k t.pending ((t.next_id, false) ∷ []),
    times-single k t.next_id false,
    o.once k,
  );
  open_only = inl on;
}

off-disconnected :
    (state : TransportState) → is_disconnected state ≡ true → is_connected state ≡ false
unfolding is_disconnected is_connected
off-disconnected TransportState.disconnected h = refl
off-disconnected TransportState.connecting h = refl
off-disconnected TransportState.connected h = absurd (ground arith)
off-disconnected TransportState.closing h = refl

start_connect-IsSettledOnce :
    (t : Transport)
    → is_disconnected t.state ≡ true
    → IsSettledOnce t
    → IsSettledOnce (start_connect t)
unfolding start_connect
start_connect-IsSettledOnce t off o = record {
  once = o.once;
  open_only = inr (no_pending t o (off-disconnected t.state off));
}

end_connect-IsSettledOnce :
    (t : Transport) (is_open : Bool)
    → is_connected t.state ≡ false
    → IsSettledOnce t
    → IsSettledOnce (end_connect t is_open)
unfolding end_connect emit
end_connect-IsSettledOnce t is_open off o =
    elim (Bool-cases (is_open && not (is_closing t.state))) [
      | inl opens ↦ rw opens (record { once = o.once; open_only = inr (no_pending t o off) })
      | inr fails ↦ rw fails (record { once = o.once; open_only = inr (no_pending t o off) })
    ]

start_close-IsSettledOnce :
    (t : Transport) (code : ℕ) (reason : Text)
    → IsSettledOnce t
    → IsSettledOnce (start_close t code reason)
unfolding start_close fail_pending
start_close-IsSettledOnce t code reason o = elim (Bool-cases (is_connected t.state)) [
  | inl on ↦
      let failed = fail_pending-IsSettledOnce t o in
      rw on (record { once = failed.once; open_only = inr refl })
  | inr off ↦ rw off o
]

Step-IsSettledOnce : {t u : Transport} → Step t u → IsSettledOnce t → IsSettledOnce u
unfolding abort_connect leave end_send receive finish emit fail_pending
Step-IsSettledOnce {t} (begins_connect off) o = start_connect-IsSettledOnce t off o
Step-IsSettledOnce {t} (ends_connect is_open off) o = end_connect-IsSettledOnce t is_open off o
Step-IsSettledOnce {t} (aborts_connect off) o = record {
  once = o.once;
  open_only = inr (no_pending t o off);
}
Step-IsSettledOnce {t} (sends on) o = register-IsSettledOnce t on o
Step-IsSettledOnce {t} (leaves id) o = record {
  once = λ k. omega (arith, times-done_at k id t.pending, o.once k);
  open_only = done_at-open t.state id t.pending o.open_only;
}
Step-IsSettledOnce {t} (ends_send id is_cancelled) o = record {
  once = λ k. omega (arith, times-erase_bound k id t.pending, o.once k);
  open_only = erase-open t.state id t.pending o.open_only;
}
Step-IsSettledOnce {t} (closes code reason) o = start_close-IsSettledOnce t code reason o
Step-IsSettledOnce {t} (receives message) o = elim (Bool-cases (is_connected t.state)) [
  | inl on ↦ rw on (dispatch-IsSettledOnce t message o)
  | inr off ↦ rw off o
]
Step-IsSettledOnce {t} (finishes outcome) o = record {
  once = (fail_pending-IsSettledOnce t o).once;
  open_only = inr (unfold fail_pending in refl);
}

Reach-IsSettledOnce : {t u : Transport} → Reach t u → IsSettledOnce t → IsSettledOnce u
Reach-IsSettledOnce here o = o
Reach-IsSettledOnce (next reached step) o = Step-IsSettledOnce step (Reach-IsSettledOnce reached o)

-- In every state that a new transport reaches, each request is settled once at most, by a reply or by
-- the end of the connection, and a request waits only while the transport is connected.
pub Reach-settled :
    (t u : Transport) (id : ℕ)
    → t.pending ≡ []
    → t.answers ≡ []
    → Reach t u
    → (times id u.answers ≤ 1) × ((is_connected u.state ≡ true) ⊎ (u.pending ≡ []))
Reach-settled t u id none_waits none_settled reached =
    let o = Reach-IsSettledOnce reached (record {
      once = λ k. rw (none_waits, none_settled) (unfold times in omega arith);
      open_only = inr none_waits;
    }) in
    (ground (arith, o.once id), o.open_only)
