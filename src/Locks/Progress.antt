-- ===== src/Locks/Progress.antt =====
-- Two threads that take their locks in the order never block each other for ever.
use linear_fcgi.Common.{ℕ, suc, ◌+◌, ◌≤◌, ◌≡◌, ◌⊎◌, inl, inr, refl, sym, arith}
use linear_fcgi.Common.{true, false, List, [], ◌∷◌, Bool-cases, length}
use linear_fcgi.Locks.{
  Lock, same_lock, acquire, release, Trace, Thread, System, holds, Acts, takes, gives, Step,
  server_step, loop_step, started, Run, here, next,
}
use linear_fcgi.Locks.Order.{
  rank, bound, IsOrdered, Follows, holds-bound, not_held, same_lock_sound,
}
use mathlib.Core.Path.{subst}

-- A thread that has taken its locks in the order, goes on so, and gives all of them back.
pub record Keeps (t : Thread) : Type 0 where
  pub ordered : IsOrdered t.held
  pub follows : Follows t.held t.rest []

-- No lock is held by both threads.
abbrev pub AreApart : List Lock → List Lock → Type 0
AreApart held others = (l : Lock) → holds l held ≡ true → holds l others ≡ false

pub record IsSound (s : System) : Type 0 where
  pub server_keeps : Keeps s.server
  pub loop_keeps : Keeps s.loop
  pub apart : AreApart s.server.held s.loop.held

Keeps-Acts : {others : List Lock} {t u : Thread} → Acts others t u → Keeps t → Keeps u
Keeps-Acts (takes l held rest free apart) k = record {
  ordered = (k.follows.0, k.ordered);
  follows = k.follows.1;
}
Keeps-Acts (gives l held rest) k = record { ordered = k.ordered.1; follows = k.follows.1 }

apart-sym : (held others : List Lock) → AreApart held others → AreApart others held
apart-sym held others a l h = elim (Bool-cases (holds l held)) [
  | inl inside ↦ cc (a l inside)
  | inr outside ↦ outside
]

AreApart-Acts :
    {others : List Lock} {t u : Thread}
    → Acts others t u
    → AreApart others t.held
    → AreApart others u.held
unfolding holds
AreApart-Acts {others} (takes l held rest free apart) a m h = elim (Bool-cases (same_lock l m)) [
  | inl same ↦
      let known : holds m others ≡ false =
        subst (λ k. holds k others ≡ false) (same_lock_sound l m same) apart in
      cc
  | inr other ↦ rw other (a m h)
]
AreApart-Acts (gives l held rest) a m h = elim (Bool-cases (same_lock l m)) [
  | inl same ↦ absurd (cc (rw same at (a m h)))
  | inr other ↦ rw other at (a m h)
]

Step-IsSound : {s t : System} → Step s t → IsSound s → IsSound t
Step-IsSound (server_step s acts) i = record {
  server_keeps = Keeps-Acts acts i.server_keeps;
  loop_keeps = i.loop_keeps;
  apart = apart-sym _ _ (AreApart-Acts acts (apart-sym _ _ i.apart));
}
Step-IsSound (loop_step s acts) i = record {
  server_keeps = i.server_keeps;
  loop_keeps = Keeps-Acts acts i.loop_keeps;
  apart = AreApart-Acts acts i.apart;
}

pub Run-IsSound : {start s : System} → Run start s → IsSound start → IsSound s
Run-IsSound here i = i
Run-IsSound (next r step) i = Step-IsSound step (Run-IsSound r i)

-- A thread acts, or has ended, or wants a lock that the other thread holds.
data Blocked (others : List Lock) (t : Thread) : Type 0 where
  acts : {u : Thread} → Acts others t u → Blocked others t
  ended : t.held ≡ [] → t.rest ≡ [] → Blocked others t
  wants : (l : Lock) → bound t.held ≤ rank l → holds l others ≡ true → Blocked others t

Keeps-Blocked :
    (others held : List Lock) (rest : Trace)
    → IsOrdered held
    → Follows held rest []
    → Blocked others (record { held = held; rest = rest })
Keeps-Blocked others held [] o f = ended f refl
Keeps-Blocked others held (acquire l ∷ rest) o (b, f) = elim (Bool-cases (holds l others)) [
  | inl taken ↦ wants l b taken
  | inr free ↦ acts (takes l held rest (not_held l held o b) free)
]
Keeps-Blocked others [] (release l ∷ rest) o f = absurd f
Keeps-Blocked others (m ∷ held) (release l ∷ rest) o (e, f) =
    subst (λ k. Blocked others (record { held = k ∷ held; rest = release l ∷ rest })) (sym e)
      (acts (gives l held rest))

-- Both threads are through and hold nothing.
abbrev pub IsEnded : System → Type 0
IsEnded s = (s.server.held ≡ []) × (s.server.rest ≡ []) × (s.loop.held ≡ []) × (s.loop.rest ≡ [])

nothing_held : (l : Lock) (held : List Lock) → held ≡ [] → holds l held ≡ true → ⊥
unfolding holds
nothing_held l held e h = cc (subst (λ k. holds l k ≡ true) e h)

Blocked-both :
    (s : System)
    → IsSound s
    → Blocked s.loop.held s.server
    → Blocked s.server.held s.loop
    → ((t : System) × Step s t) ⊎ IsEnded s
Blocked-both s i (acts a) b = inl (_, server_step s a)
Blocked-both s i (ended h e) (acts b) = inl (_, loop_step s b)
Blocked-both s i (wants l low taken) (acts b) = inl (_, loop_step s b)
Blocked-both s i (ended h e) (ended k f) = inr (h, e, k, f)
Blocked-both s i (ended h e) (wants m below taken) = absurd (nothing_held m s.server.held h taken)
Blocked-both s i (wants l low taken) (ended k f) = absurd (nothing_held l s.loop.held k taken)
Blocked-both s i (wants l low taken) (wants m below held_too) =
    let first = holds-bound l s.loop.held i.loop_keeps.ordered taken in
    let second = holds-bound m s.server.held i.server_keeps.ordered held_too in
    absurd (omega (arith, first, second, low, below))

pub IsSound-step : (s : System) → IsSound s → ((t : System) × Step s t) ⊎ IsEnded s
IsSound-step s i =
    Blocked-both s i
      (Keeps-Blocked s.loop.held s.server.held s.server.rest i.server_keeps.ordered
        i.server_keeps.follows)
      (Keeps-Blocked s.server.held s.loop.held s.loop.rest i.loop_keeps.ordered
        i.loop_keeps.follows)

abbrev pub remaining : System → ℕ
remaining s = length s.server.rest + length s.loop.rest

abbrev pub steps : {start s : System} → Run start s → ℕ
steps here = 0
steps (next r step) = suc (steps r)

remaining-step : {s t : System} → Step s t → suc (remaining t) ≡ remaining s
remaining-step (server_step s (takes l held rest free apart)) = omega arith
remaining-step (server_step s (gives l held rest)) = omega arith
remaining-step (loop_step s (takes l held rest free apart)) = omega arith
remaining-step (loop_step s (gives l held rest)) = omega arith

steps-remaining : {start s : System} (r : Run start s) → steps r + remaining s ≡ remaining start
steps-remaining here = omega arith
steps-remaining (next r step) = omega (arith, steps-remaining r, remaining-step step)

-- What holds after a run: the locks are sound, the run is as long as what was done, and there is a
-- next step or both threads have ended.
pub record GoesOn (total : ℕ) {start s : System} (r : Run start s) : Type 0 where
  pub sound : IsSound s
  pub counted : steps r + remaining s ≡ total
  pub goes_on : ((t : System) × Step s t) ⊎ IsEnded s

pub started-GoesOn :
    (p q : Trace) {s : System}
    → Follows [] p []
    → Follows [] q []
    → (r : Run (started p q) s) → GoesOn (length p + length q) r
unfolding holds
started-GoesOn p q f g r =
    let start : IsSound (started p q) = record {
      server_keeps = record { ordered = tt; follows = f };
      loop_keeps = record { ordered = tt; follows = g };
      apart = λ l h. refl;
    } in
    let sound = Run-IsSound r start in
    record { sound = sound; counted = steps-remaining r; goes_on = IsSound-step _ sound }
