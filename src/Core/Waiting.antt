-- ===== src/Core/Waiting.antt =====
-- Every call is answered at most once: crates/codex-runtime/src/runtime/core/rpc_io.rs and dispatch.rs.
use coclai.Prelude.{
  ℕ, suc, ◌+◌, ◌<◌, ◌≤◌, eqb, String, ◌≡◌, sym, subst, true, List, [], ◌∷◌, if◌then◌else◌, arith,
  Bool-cases, inl, inr,
}
use coclai.Checked.{Checked, err}
use coclai.Core.{RpcError, RuntimeInner, wrap64}
use coclai.Core.Dispatch.{
  is_waiting, without, resolve_call, close_all, resolve_transport_closed_pending,
}
use coclai.Core.Calls.{
  clear_pending_rpc, register_call, start_call, Waited, answer, sender_dropped, elapsed,
  finish_call,
}

-- How often the id is among the pending calls, and among those that were answered.
unfoldable pub times : ℕ → List ℕ → ℕ
times id [] = 0
times id (j ∷ ids) = (if eqb j id then 1 else 0) + times id ids

unfoldable pub answers : {A : Type 0} → ℕ → List (ℕ × A) → ℕ
answers id [] = 0
answers id ((j, a) ∷ rest) = (if eqb j id then 1 else 0) + answers id rest

without-times :
    (id j : ℕ) (ids : List ℕ) → times j (without id ids) ≡ (if eqb id j then 0 else times j ids)
unfolding times without
without-times id j [] = ground arith
without-times id j (k ∷ ids) = ground (arith, without-times id j ids)

is_waiting-times : (id : ℕ) (ids : List ℕ) → is_waiting id ids ≡ true → 1 ≤ times id ids
unfolding times is_waiting
is_waiting-times id [] h = ground arith
is_waiting-times id (k ∷ ids) h = ground (arith, is_waiting-times id ids)

module _ {Value : Type 0} where
  close_all-answers :
      (id : ℕ) (ids : List ℕ) (answered : List (ℕ × Checked (RpcError Value) Value))
      → answers id (close_all ids answered) ≡ times id ids + answers id answered
  unfolding close_all times answers
  close_all-answers id [] answered = omega arith
  close_all-answers id (j ∷ ids) answered =
      omega (arith, close_all-answers id ids ((j, err RpcError.transport_closed) ∷ answered))

  abbrev pub tally : ℕ → RuntimeInner Value → ℕ
  tally id inner = times id inner.pending + answers id inner.answered

  -- The runtimes that the calls of clients, the responses, the timeouts and the end of a transport
  -- lead to, by the number of calls that were begun.
  pub data Reached : ℕ → RuntimeInner Value → Type 0 where
    begins :
        (inner : RuntimeInner Value)
        → inner.next_rpc_id ≡ 1
        → inner.pending ≡ []
        → inner.answered ≡ []
        → Reached 0 inner
    calls :
        (n : ℕ) (inner : RuntimeInner Value) (method : String) (params : Value)
        → Reached n inner
        → Reached (suc n) (start_call inner method params).0
    responds :
        (n : ℕ) (inner : RuntimeInner Value) (id : ℕ) (result : Checked (RpcError Value) Value)
        → Reached n inner
        → Reached n (resolve_call inner id result)
    finishes :
        (n : ℕ) (inner : RuntimeInner Value) (id : ℕ) (waited : Waited Value)
        → Reached n inner
        → Reached n (finish_call inner id waited).0
    closes :
        (n : ℕ) (inner : RuntimeInner Value)
        → Reached n inner
        → Reached n (resolve_transport_closed_pending inner)

  -- No id is pending or answered more than once, and none that was not given out yet.
  abbrev Once : ℕ → RuntimeInner Value → Type 0
  Once n inner =
      (inner.next_rpc_id ≤ n + 1)
      × ((id : ℕ) → tally id inner ≤ 1)
      × ((id : ℕ) → inner.next_rpc_id ≤ id → tally id inner ≡ 0)

  clear-Once :
      (n : ℕ) (inner : RuntimeInner Value) (id : ℕ)
      → Once n inner
      → Once n (clear_pending_rpc inner id)
  unfolding clear_pending_rpc
  clear-Once n inner id (low, once, unused) = elim (Bool-cases (is_waiting id inner.pending)) [
    | inl there ↦
        rw (clear_pending_rpc, there)
          (
            low,
            λ j. ground (arith, once j, without-times id j inner.pending),
            λ j fresh. ground (arith, unused j fresh, without-times id j inner.pending),
          )
    | inr gone ↦ rw (clear_pending_rpc, gone) (low, once, unused)
  ]

  register-Once :
      (n : ℕ) (inner : RuntimeInner Value)
      → n + 2 < 18446744073709551616
      → Once n inner
      → Once (suc n) (register_call inner)
  unfolding register_call times
  register-Once n inner small (low, once, unused) =
      let next : wrap64 (inner.next_rpc_id + 1) ≡ inner.next_rpc_id + 1 = omega arith in
      let new = unused inner.next_rpc_id (omega arith) in
      (
        omega (arith, next),
        λ j. ground (arith, new, once j, without-times inner.next_rpc_id j inner.pending),
        λ j fresh. ground (
          arith,
          next,
          new,
          unused j (omega (arith, next, fresh)),
          without-times inner.next_rpc_id j inner.pending,
        ),
      )

  start-Once :
      (n : ℕ) (inner : RuntimeInner Value) (method : String) (params : Value)
      → n + 2 < 18446744073709551616
      → Once n inner
      → Once (suc n) (start_call inner method params).0
  unfolding start_call
  start-Once n inner method params small (low, once, unused) =
      elim (Bool-cases inner.outbound_set) [
        | inr unset ↦ rw (start_call, unset) (omega arith, once, unused)
        | inl set ↦ elim (Bool-cases inner.outbound_alive) [
          | inl alive ↦ rw (start_call, set, alive) registered
          | inr dead ↦
              let cleared : (start_call inner method params).0
                  ≡ clear_pending_rpc (register_call inner) inner.next_rpc_id =
                ground arith in
              subst (Once (suc n)) (sym cleared)
                (clear-Once (suc n) (register_call inner) inner.next_rpc_id registered)
        ]
      ]
    where
      registered : Once (suc n) (register_call inner)
      registered = register-Once n inner small (low, once, unused)

  resolve-Once :
      (n : ℕ) (inner : RuntimeInner Value) (id : ℕ) (result : Checked (RpcError Value) Value)
      → Once n inner
      → Once n (resolve_call inner id result)
  unfolding resolve_call answers
  resolve-Once n inner id result (low, once, unused) =
      elim (Bool-cases (is_waiting id inner.pending)) [
        | inl there ↦
            let some_time = is_waiting-times id inner.pending there in
            rw (resolve_call, there)
              (
                low,
                λ j. ground (arith, some_time, once j, without-times id j inner.pending),
                λ j fresh.
                    ground (arith, some_time, unused j fresh, without-times id j inner.pending),
              )
        | inr gone ↦ rw (resolve_call, gone) (low, once, unused)
      ]

  finish-Once :
      (n : ℕ) (inner : RuntimeInner Value) (id : ℕ) (waited : Waited Value)
      → Once n inner
      → Once n (finish_call inner id waited).0
  unfolding finish_call
  finish-Once n inner id (answer result) h = h
  finish-Once n inner id sender_dropped h = h
  finish-Once n inner id elapsed h = clear-Once n inner id h

  close-Once :
      (n : ℕ) (inner : RuntimeInner Value)
      → Once n inner
      → Once n (resolve_transport_closed_pending inner)
  unfolding resolve_transport_closed_pending times
  close-Once n inner (low, once, unused) = (
    low,
    λ j. omega (arith, once j, close_all-answers j inner.pending inner.answered),
    λ j fresh. omega (arith, unused j fresh, close_all-answers j inner.pending inner.answered),
  )

  Reached-Once :
      (n : ℕ) (inner : RuntimeInner Value)
      → Reached n inner
      → n + 1 < 18446744073709551616
      → Once n inner
  unfolding times answers
  Reached-Once _ _ (begins inner first none_pending none_answered) small = (
    omega (arith, first),
    λ j. ground (arith, none_pending, none_answered),
    λ j fresh. ground (arith, none_pending, none_answered),
  )
  Reached-Once _ _ (calls n inner method params r) small =
      start-Once n inner method params (omega (arith, small))
        (Reached-Once n inner r (omega (arith, small)))
  Reached-Once _ _ (responds n inner id result r) small =
      resolve-Once n inner id result (Reached-Once n inner r small)
  Reached-Once _ _ (finishes n inner id waited r) small =
      finish-Once n inner id waited (Reached-Once n inner r small)
  Reached-Once _ _ (closes n inner r) small = close-Once n inner (Reached-Once n inner r small)

  -- Whatever the order of calls, responses, timeouts and ends of a transport, while fewer than
  -- 2^64 − 1 calls were begun, no call is given two answers, and none that was answered still waits.
  pub Reached-answered_once :
      (n : ℕ) (inner : RuntimeInner Value)
      → Reached n inner
      → n + 1 < 18446744073709551616
      → (id : ℕ) → times id inner.pending + answers id inner.answered ≤ 1
  Reached-answered_once n inner r small id = (Reached-Once n inner r small).1 id
