-- ===== src/Locks/Order.antt =====
-- The order in which locks are taken: that of the storage, that of one client, that of the log.
use linear_fcgi.Common.{ℕ, suc, ◌≤◌, ◌<◌, ◌≡◌, inl, inr, refl, sym, ap, arith}
use linear_fcgi.Common.{true, false, List, [], ◌∷◌, ◌++◌, bytes_eq_iff, Bool-cases}
use linear_fcgi.Locks.{Lock, storage, client, log, same_lock, acquire, release, Trace, holds}
use mathlib.Core.Path.{subst}

abbrev pub rank : Lock → ℕ
rank storage = 0
rank (client id) = 1
rank log = 2

-- The least rank of a lock that may be taken.
abbrev pub bound : List Lock → ℕ
bound [] = 0
bound (l ∷ held) = suc (rank l)

abbrev pub IsOrdered : List Lock → Type 0
IsOrdered [] = Unit
IsOrdered (l ∷ held) = (bound held ≤ rank l) × IsOrdered held

-- From some held locks a trace takes locks in the order only, gives back the last one first, and
-- ends with some locks.
abbrev pub Follows : List Lock → Trace → List Lock → Type 0
Follows held [] last = held ≡ last
Follows held (acquire l ∷ t) last = (bound held ≤ rank l) × Follows (l ∷ held) t last
Follows [] (release l ∷ t) last = ⊥
Follows (m ∷ held) (release l ∷ t) last = (m ≡ l) × Follows held t last

pub Follows-append :
    (held : List Lock) (s t : Trace) (mid last : List Lock)
    → Follows held s mid
    → Follows mid t last
    → Follows held (s ++ t) last
Follows-append held [] t mid last h k = subst (λ m. Follows m t last) (sym h) k
Follows-append held (acquire l ∷ s) t mid last (b, h) k =
    (b, Follows-append (l ∷ held) s t mid last h k)
Follows-append [] (release l ∷ s) t mid last h k = absurd h
Follows-append (m ∷ held) (release l ∷ s) t mid last (e, h) k =
    (e, Follows-append held s t mid last h k)

pub same_lock_sound : (m l : Lock) → same_lock m l ≡ true → m ≡ l
unfolding same_lock
same_lock_sound storage storage h = refl
same_lock_sound storage (client id) h = cc
same_lock_sound storage log h = cc
same_lock_sound (client id) storage h = cc
same_lock_sound (client id) (client other) h = ap client ((bytes_eq_iff id other).0 h)
same_lock_sound (client id) log h = cc
same_lock_sound log storage h = cc
same_lock_sound log (client id) h = cc
same_lock_sound log log h = refl

-- What is held stands below what may be taken.
pub holds-bound :
    (l : Lock) (held : List Lock) → IsOrdered held → holds l held ≡ true → rank l < bound held
unfolding holds
holds-bound l [] o h = cc
holds-bound l (m ∷ held) (b, o) h = elim (Bool-cases (same_lock m l)) [
  | inl same ↦ omega (arith, ap rank (same_lock_sound m l same))
  | inr other ↦ omega (arith, b, holds-bound l held o (cc))
]

pub not_held :
    (l : Lock) (held : List Lock) → IsOrdered held → bound held ≤ rank l → holds l held ≡ false
not_held l held o b = elim (Bool-cases (holds l held)) [
  | inl inside ↦ absurd (omega (arith, holds-bound l held o inside))
  | inr outside ↦ outside
]
