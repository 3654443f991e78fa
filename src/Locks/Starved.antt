-- ===== src/Locks/Starved.antt =====
-- A callback that wants the lock of the client storage stands still while Server::onConnect holds it,
-- and with it the thread that the handler's `connect` waits for.
use linear_fcgi.Common.{ℕ, ◌≡◌, ◌⊎◌, inl, inr, refl, ap, sym, ◌∙◌, arith}
use linear_fcgi.Common.{
  true, List, [], ◌∷◌, ◌++◌, some, none, Bool-cases, Option-cases, append_assoc,
}
use linear_fcgi.Client.State.{Client}
use linear_fcgi.Client.Calls.{Wake}
use linear_fcgi.Locks.{
  Lock, storage, same_lock, acquire, release, Trace, Thread, System, holds, Acts, takes, gives,
  Step, server_step, loop_step, Run, here, next,
}
use linear_fcgi.Locks.Discipline.{connect-IsTidy}
use linear_fcgi.Locks.Methods
use linear_fcgi.Locks.Methods.{print, prints, debug}
use linear_fcgi.Locks.Order.{Follows}
use linear_fcgi.Locks.Threads.{within, handler, connects}
use linear_fcgi.Locks.Tidy.{IsTidy, IsTidy-lower, IsTidy-append, Every, print-IsTidy}
use linear_fcgi.Log.{Log}
use mathlib.Core.List.{append_cancel_left}
use mathlib.Core.Option
use mathlib.Core.Path.{subst}

-- The storage is held below other locks.
holds_last : (held : List Lock) → holds storage (held ++ (storage ∷ [])) ≡ true
unfolding holds same_lock
holds_last [] = refl
holds_last (l ∷ held) = elim (Bool-cases (same_lock l storage)) [
  | inl same ↦ rw same refl
  | inr other ↦ rw other (holds_last held)
]

Acts-stuck :
    {held others : List Lock} {rest : Trace} {u : Thread}
    → holds storage others ≡ true
    → ¬ (Acts others (record { held = held; rest = acquire storage ∷ rest }) u)
Acts-stuck h (takes _ _ _ free apart) = cc

Acts-acquire :
    {held others : List Lock} {rest : Trace} {l : Lock} {u : Thread}
    → Acts others (record { held = held; rest = acquire l ∷ rest }) u
    → u ≡ record { held = l ∷ held; rest = rest }
Acts-acquire (takes _ _ _ free apart) = refl

Acts-release :
    {held others : List Lock} {rest : Trace} {l m : Lock} {u : Thread}
    → Acts others (record { held = m ∷ held; rest = release l ∷ rest }) u
    → u ≡ record { held = held; rest = rest }
Acts-release (gives _ _ _) = refl

-- The server thread has `rest` to do behind a critical section of the storage, in which the
-- libuv thread wants its lock.
module _ (rest : Trace) (waiting : Thread) (loop_held : List Lock) (loop_rest : Trace)
    (wants : waiting ≡ record { held = loop_held; rest = acquire storage ∷ loop_rest }) where
  -- A place in the section: locks taken in it, and a trace that gives them back.
  abbrev IsInside : System → Type 0
  IsInside s =
      (taken : List Lock) × (left : Trace) × Follows taken left []
      × (s.server
          ≡ record { held = taken ++ (storage ∷ []); rest = left ++ (release storage ∷ rest) })
      × (s.loop ≡ waiting)

  -- The section was gone through while the libuv thread stood still.
  abbrev pub HasPassed : System → System → Type 0
  HasPassed start s =
      (mid : System) × Run start mid
      × Run mid s
      × (mid.server ≡ record { held = []; rest = rest })
      × (mid.loop ≡ waiting)

  server-Acts :
      (taken : List Lock) (left : Trace) {others : List Lock} {u : Thread}
      → Follows taken left []
      → Acts others
          (record { held = taken ++ (storage ∷ []); rest = left ++ (release storage ∷ rest) })
          u
      → ((taken' : List Lock) × (left' : Trace) × Follows taken' left' []
          × (u ≡ record {
            held = taken' ++ (storage ∷ []);
            rest = left' ++ (release storage ∷ rest);
          }))
        ⊎ (u ≡ record { held = []; rest = rest })
  server-Acts taken (acquire l ∷ left) (b, f) acts = inl (l ∷ taken, left, f, Acts-acquire acts)
  server-Acts [] (release l ∷ left) f acts = absurd f
  server-Acts (m ∷ taken) (release l ∷ left) (e, f) acts = inl (taken, left, f, Acts-release acts)
  server-Acts [] [] f acts = inr (Acts-release acts)
  server-Acts (m ∷ taken) [] f acts = cc

  IsInside-step :
      {start s t : System} → Run start s → IsInside s → Step s t → IsInside t ⊎ HasPassed start t
  IsInside-step r (taken, left, f, at, still) (server_step {t = u} s acts) =
      elim (server-Acts taken left f (subst (λ x. Acts s.loop.held x u) at acts)) [
        | inl (taken', left', f', e) ↦ inl (taken', left', f', e, still)
        | inr e ↦ inr (_, next r (server_step s acts), here, e, still)
      ]
  IsInside-step r (taken, left, f, at, still) (loop_step {t = u} s acts) =
      let free = ap (λ (t : Thread). holds storage t.held) at ∙ holds_last taken in
      absurd (Acts-stuck free (subst (λ x. Acts s.server.held x u) (still ∙ wants) acts))

  Run-IsInside : {start s : System} → IsInside start → Run start s → IsInside s ⊎ HasPassed start s
  Run-IsInside at here = inl at
  Run-IsInside at (next r step) = elim (Run-IsInside at r) [
    | inl inside ↦ IsInside-step r inside step
    | inr (mid, before, after, e, still) ↦ inr (mid, before, next after step, e, still)
  ]

-- The part of onConnect from its lock of the storage on.
handler-work :
    (l : Log) (before : List ℕ) (wakes : List Wake) (host : List ℕ) (port : ℕ) (c : Client)
    (work : Trace)
    → handler l (connects before wakes host port c)
      ≡ some (prints l before ++ (acquire storage ∷ work))
    → (t : Trace) × (Methods.connect l wakes host port c ≡ some t)
      × ((print l debug ++ t) ++ (release storage ∷ []) ≡ work)
unfolding handler within
handler-work l before wakes host port c work h =
    elim (Option-cases (Methods.connect l wakes host port c)) [
      | inl waits ↦
          let stopped : none ≡ some (prints l before ++ (acquire storage ∷ work)) =
            ap (Option.map (λ t. prints l before ++ within (print l debug ++ t))) (sym waits) ∙ h in
          cc
      | inr (t, e) ↦
          let both : some (prints l before ++ within (print l debug ++ t))
              ≡ some (prints l before ++ (acquire storage ∷ work)) =
            ap (Option.map (λ t. prints l before ++ within (print l debug ++ t))) (sym e) ∙ h in
          let same : within (print l debug ++ t) ≡ acquire storage ∷ work =
            append_cancel_left (prints l before) _ _ cc in
          (t, e, cc)
    ]

-- When the handler `Server::onConnect` has taken the lock of the storage, a libuv thread that comes
-- to this lock, for a timer or a closed connection, does nothing at all until the handler releases
-- it, which is after `Client::connect` with all its waits: at the end of any run the libuv thread
-- stands where it stood, or the handler has come to its end before, while it stood there.
pub connect_holds_off :
    (l : Log) (before : List ℕ) (wakes : List Wake) (host : List ℕ) (port : ℕ) (c : Client)
    (work rest section loop_rest : Trace) {s : System}
    → handler l (connects before wakes host port c)
      ≡ some (prints l before ++ (acquire storage ∷ work))
    → let waiting : Thread = record { held = []; rest = within section ++ loop_rest } in
      let start : System = record {
        server = record { held = storage ∷ []; rest = work ++ rest };
        loop = waiting;
      } in
      Run start s
      → (s.loop ≡ waiting)
        ⊎ ((mid : System) × Run start mid
            × Run mid s
            × (mid.server ≡ record { held = []; rest = rest })
            × (mid.loop ≡ waiting))
unfolding within
connect_holds_off l before wakes host port c work rest section loop_rest h r =
    let (t, e, same) = handler-work l before wakes host port c work h in
    let tidy : IsTidy 1 t = subst (Every (IsTidy 1)) e (connect-IsTidy l wakes host port c) in
    let all =
      IsTidy-append 1 (print l debug) t (IsTidy-lower 1 2 _ (omega arith) (print-IsTidy l debug))
        tidy in
    let waiting : Thread = record { held = []; rest = within section ++ loop_rest } in
    let left : work ++ rest ≡ (print l debug ++ t) ++ (release storage ∷ rest) =
      ap (λ x. x ++ rest) (sym same)
      ∙ append_assoc (print l debug ++ t) (release storage ∷ []) rest in
    let at : Path Thread (record { held = storage ∷ []; rest = work ++ rest })
        (record { held = storage ∷ []; rest = (print l debug ++ t) ++ (release storage ∷ rest) }) =
      ap (λ x. record { held = storage ∷ []; rest = x }) left in
    elim (Run-IsInside rest waiting [] ((section ++ (release storage ∷ [])) ++ loop_rest) refl
      ([], print l debug ++ t, all [] (omega arith), at, refl) r) [
        | inl (_, _, _, _, still) ↦ inl still
        | inr passed ↦ inr passed
      ]
