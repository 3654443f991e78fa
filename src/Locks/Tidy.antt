-- ===== src/Locks/Tidy.antt =====
-- Traces that take locks in the order and leave what is held as it was, and how they are put together.
use linear_fcgi.Common.{ℕ, suc, ◌≤◌, refl, arith}
use linear_fcgi.Common.{
  Bool, true, false, List, [], ◌∷◌, ◌++◌, Option, none, some, if◌then◌else◌, ltb,
}
use linear_fcgi.Common.Map.{Key}
use linear_fcgi.Locks.{Lock, client, log, acquire, release, Trace}
use linear_fcgi.Locks.Methods.{print, prints, check_state}
use linear_fcgi.Locks.Order.{rank, bound, Follows, Follows-append}
use linear_fcgi.Log.{Log}
use mathlib.Core.Option

-- A trace that may run while only locks below `k` are held, and leaves them as they are.
abbrev pub IsTidy : ℕ → Trace → Type 0
IsTidy k t = (held : List Lock) → bound held ≤ k → Follows held t held

pub IsTidy-nil : (k : ℕ) → IsTidy k []
IsTidy-nil k held h = refl

pub IsTidy-lower : (j k : ℕ) (t : Trace) → j ≤ k → IsTidy k t → IsTidy j t
IsTidy-lower j k t le tidy held h = tidy held (omega arith)

pub IsTidy-append : (k : ℕ) (s t : Trace) → IsTidy k s → IsTidy k t → IsTidy k (s ++ t)
IsTidy-append k s t hs ht held h = Follows-append held s t held held (hs held h) (ht held h)

-- A critical section.
pub IsTidy-section :
    (l : Lock) (t : Trace)
    → IsTidy (suc (rank l)) t
    → IsTidy (rank l) (acquire l ∷ (t ++ (release l ∷ [])))
IsTidy-section l t tidy held h = (
  h,
  Follows-append (l ∷ held) t (release l ∷ []) (l ∷ held) held (tidy (l ∷ held) (omega arith))
      (refl, refl),
)

pub IsTidy-if :
    (k : ℕ) (b : Bool) (s t : Trace) → IsTidy k s → IsTidy k t → IsTidy k (if b then s else t)
IsTidy-if k true s t hs ht = hs
IsTidy-if k false s t hs ht = ht

pub print-IsTidy : (l : Log) (level : ℕ) → IsTidy 2 (print l level)
unfolding print
print-IsTidy l level = IsTidy-if 2 (ltb l.level level) [] _ (IsTidy-nil 2) (written l.file)
  where
    written :
        (o : Option (List ℕ))
        → IsTidy 2 (elim o [ none ↦ [] | some file ↦ acquire log ∷ release log ∷ [] ])
    written none = IsTidy-nil 2
    written (some file) = IsTidy-section log [] (IsTidy-nil 3)

pub prints-IsTidy : (l : Log) (levels : List ℕ) → IsTidy 2 (prints l levels)
unfolding prints
prints-IsTidy l [] = IsTidy-nil 2
prints-IsTidy l (level ∷ levels) =
    IsTidy-append 2 (print l level) (prints l levels) (print-IsTidy l level)
      (prints-IsTidy l levels)

pub check_state-IsTidy : (id : Key) → IsTidy 1 (check_state id)
unfolding check_state
check_state-IsTidy id = IsTidy-section (client id) [] (IsTidy-nil 2)

-- The trace from inside the lock of a client to behind it.
abbrev pub Leaves : Key → Trace → Type 0
Leaves id t = (held : List Lock) → bound held ≤ 1 → Follows (client id ∷ held) t held

pub Leaves-woken :
    (id : Key) (t : Trace) → Leaves id t → Leaves id (release (client id) ∷ acquire (client id) ∷ t)
Leaves-woken id t h held b = (refl, (b, h held b))

-- After a wait: some messages, the end of the section, and what comes behind it.
pub Leaves-section :
    (id : Key) (s t : Trace)
    → IsTidy 2 s
    → IsTidy 1 t
    → Leaves id (release (client id) ∷ acquire (client id) ∷ (s ++ (release (client id) ∷ t)))
Leaves-section id s t hs ht = Leaves-woken id (s ++ (release (client id) ∷ t)) (λ held b.
    Follows-append (client id ∷ held) s (release (client id) ∷ t) (client id ∷ held) held
      (hs (client id ∷ held) (omega arith)) (refl, ht held b))

-- A property of a result, where there is one.
abbrev pub Every : (Trace → Type 0) → Option Trace → Type 0
Every P none = Unit
Every P (some t) = P t

pub Every-if :
    (P : Trace → Type 0) (b : Bool) (x y : Option Trace)
    → Every P x
    → Every P y
    → Every P (if b then x else y)
Every-if P true x y hx hy = hx
Every-if P false x y hx hy = hy

pub Every-map :
    (P Q : Trace → Type 0) (f : Trace → Trace) (o : Option Trace)
    → ((t : Trace) → P t → Q (f t))
    → Every P o
    → Every Q (Option.map f o)
Every-map P Q f none h e = tt
Every-map P Q f (some t) h e = h t e
