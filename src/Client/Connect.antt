-- ===== src/Client/Connect.antt =====
-- `Client::connect` of src/linear_fcgi_client.cc, against any interleaving with the libuv thread.
use linear_fcgi.Common.{ℕ, ◌≡◌, refl, sym, ◌⊎◌, inl, inr, arith}
use linear_fcgi.Common.{
  Bool, true, false, ◌||◌, List, [], ◌∷◌, ◌++◌, Option, none, some, Bool-cases,
}
use linear_fcgi.Client.State.{
  Client, Effect, fail_connect, is_connecting, is_connected, is_disconnecting, is_fail_connect,
}
use linear_fcgi.Client.Calls.{
  LoopEvent, apply_all, disconnect, Wake, Outcome, give_up, prepend, wait_loop, dial, connect,
}

-- The client is on its way to the backend, or there.
abbrev pub is_open : Client → Bool
is_open c = is_connecting c.state || is_connected c.state

disconnect-closed : (c : Client) → is_open (disconnect c).0 ≡ false
unfolding disconnect
disconnect-closed c = ground arith

give_up-closed :
    (gap : List LoopEvent) (c : Client) (effects : List Effect)
    → ((give_up gap c effects).0 ≡ false) × (is_open (give_up gap c effects).1 ≡ false)
unfolding give_up
give_up-closed gap c effects = (refl, disconnect-closed (apply_all gap c).0)

-- An outcome tells the truth about the client's state.
abbrev Truthful : Option Outcome → Type 0
Truthful none = Unit
Truthful (some (result, c, effects)) = result ≡ is_open c

prepend-Truthful :
    (effects : List Effect) (o : Option Outcome) → Truthful o → Truthful (prepend effects o)
unfolding prepend
prepend-Truthful effects none h = h
prepend-Truthful effects (some (r, c, more)) h = h

fail_connect-closed : (c : Client) → is_fail_connect c.state ≡ true → is_open c ≡ false
fail_connect-closed c h = ground arith

connected-open : (c : Client) → is_connected c.state ≡ true → is_open c ≡ true
connected-open c h = ground arith

wait_loop-Truthful : (wakes : List Wake) (c : Client) → Truthful (wait_loop wakes c)
unfolding wait_loop
wait_loop-Truthful [] c = tt
wait_loop-Truthful (w ∷ ws) c =
    let c' = (apply_all w.events c).0 in
    let effects = (apply_all w.events c).1 in
    elim (Bool-cases (is_connected c'.state)) [
      | inl up ↦ rw up (sym (connected-open c' up))
      | inr not_up ↦ elim (Bool-cases (is_fail_connect c'.state)) [
        | inl failed ↦ rw (not_up, failed) refl
        | inr not_failed ↦ elim (Bool-cases w.timed_out) [
          | inl late ↦ rw (not_up, not_failed, late) (sym (give_up-closed w.gap c' effects).1)
          | inr waiting ↦
              rw (not_up, not_failed, waiting)
                (prepend-Truthful effects (wait_loop ws c') (wait_loop-Truthful ws c'))
        ]
      ]
    ]

connect-Truthful :
    (wakes : List Wake) (host : List ℕ) (port : ℕ) (c : Client)
    → Truthful (connect wakes host port c)
unfolding connect
connect-Truthful wakes host port c = elim (Bool-cases (is_open c)) [
  | inl up ↦ rw up (sym up)
  | inr down ↦ elim (Bool-cases (is_disconnecting c.state)) [
    | inl closing ↦ rw (down, closing) (sym down)
    | inr free ↦
        rw (down, free)
          (prepend-Truthful (dial host port c).1 _ (wait_loop-Truthful wakes (dial host port c).0))
  ]
]

Truthful-of_some :
    (o : Option Outcome) {r : Bool} {c : Client} {effects : List Effect}
    → Truthful o
    → o ≡ some (r, c, effects)
    → r ≡ is_open c
Truthful-of_some none t h = cc
Truthful-of_some (some (r, c, effects)) t h = cc

-- However the libuv thread runs meanwhile, a `connect` that returns answers whether the client that
-- it leaves is connecting or connected; in particular a failed one leaves neither.
pub connect_truthful :
    (wakes : List Wake) (host : List ℕ) (port : ℕ) (c : Client) (r : Bool) (c' : Client)
    (effects : List Effect)
    → connect wakes host port c ≡ some (r, c', effects)
    → r ≡ is_open c'
connect_truthful wakes host port c r c' effects h =
    Truthful-of_some (connect wakes host port c) (connect-Truthful wakes host port c) h

-- Some wait of the sequence runs into its timeout.
abbrev pub TimesOut : List Wake → Type 0
TimesOut [] = ⊥
TimesOut (w ∷ ws) = (w.timed_out ≡ true) ⊎ TimesOut ws

prepend_returns :
    (effects : List Effect) (o : Option Outcome)
    → (out : Outcome) × (o ≡ some out)
    → (out : Outcome) × (prepend effects o ≡ some out)
unfolding prepend
prepend_returns effects none (out, h) = cc
prepend_returns effects (some (r, c, more)) h = ((r, c, effects ++ more), refl)

wait_loop_returns :
    (wakes : List Wake) (c : Client)
    → TimesOut wakes
    → (out : Outcome) × (wait_loop wakes c ≡ some out)
unfolding wait_loop
wait_loop_returns [] c h = absurd h
wait_loop_returns (w ∷ ws) c h =
    let c' = (apply_all w.events c).0 in
    let effects = (apply_all w.events c).1 in
    elim (Bool-cases (is_connected c'.state)) [
      | inl up ↦ ((true, c', effects), rw up)
      | inr not_up ↦ elim (Bool-cases (is_fail_connect c'.state)) [
        | inl failed ↦ ((false, record c' { state = fail_connect }, effects), rw (not_up, failed))
        | inr not_failed ↦ elim (Bool-cases w.timed_out) [
          | inl late ↦ (give_up w.gap c' effects, rw (not_up, not_failed, late))
          | inr waiting ↦
              rw (not_up, not_failed, waiting)
                (prepend_returns effects (wait_loop ws c') (wait_loop_returns ws c' (ground arith)))
        ]
      ]
    ]

-- `connect` returns as soon as one of its waits runs into the timeout, whatever state the client is
-- in and whatever the libuv thread does.
pub connect_returns :
    (wakes : List Wake) (host : List ℕ) (port : ℕ) (c : Client)
    → TimesOut wakes
    → (out : Outcome) × (connect wakes host port c ≡ some out)
unfolding connect
connect_returns wakes host port c h = elim (Bool-cases (is_open c)) [
  | inl up ↦ ((true, c, []), rw up)
  | inr down ↦ elim (Bool-cases (is_disconnecting c.state)) [
    | inl closing ↦ ((false, c, []), rw (down, closing))
    | inr free ↦
        rw (down, free)
          (prepend_returns (dial host port c).1 _ (wait_loop_returns wakes (dial host port c).0 h))
  ]
]
