-- ===== src/Queue/Drain.antt =====
-- The consumer of src/linear_fcgi_queue.h needs no step of the producer to take what is published.
use linear_fcgi.Common.{ℕ, zero, suc, ◌+◌, ◌≤◌, ◌≡◌, refl, sym, ap, ◌∙◌, ◌≢◌, inl, inr, arith}
use linear_fcgi.Common.{List, [], ◌∷◌, ◌++◌, length, length-append, append-nil}
use linear_fcgi.Queue.{Pointer, null}
use linear_fcgi.Queue.Layout.{waiting}
use linear_fcgi.Queue.Threads.{
  Consumer, idle, found, copied, System, started, find_step, copy_step, advance_step, Reach, here,
  next,
}
use linear_fcgi.Queue.Producing.{Inv, ConsumerHas, started-Inv}
use linear_fcgi.Queue.Invariant.{divider-waiting, Step-Inv, Reach-Inv}
use linear_fcgi.Queue.Fifo.{consumer_can}
use mathlib.Core.Path.{subst}

module _ {ℓ} {A : Type ℓ} where
  Reach-trans : {s t u : System A} → Reach s t → Reach t u → Reach s u
  Reach-trans r here = r
  Reach-trans r (next q step) = next (Reach-trans r q) step

  -- Steps after which the consumer rests, the producer stands where it stood, and the consumer has
  -- taken `ts` more.
  abbrev Takes : System A → List A → Type ℓ
  Takes s ts =
      (s' : System A) × Reach s s'
      × (s'.consumer ≡ idle)
      × (s'.producer ≡ s.producer)
      × (s'.produced ≡ s.produced)
      × (s'.consumed ≡ s.consumed ++ ts)

  can_now :
      (s : System A) (c : Consumer A) (inv : Inv s)
      → s.consumer ≡ c
      → ConsumerHas c (waiting inv.taken (inv.end_at, inv.end_value))
  can_now s c inv e =
      subst (λ r. ConsumerHas r (waiting inv.taken (inv.end_at, inv.end_value))) e inv.consumer_has

  take_copied : (s : System A) (t : A) → Inv s → s.consumer ≡ copied t → Takes s (t ∷ [])
  take_copied s t inv holds =
      let (q, e) = consumer_can (copied t) s inv (can_now s (copied t) inv holds) in
      (
        record s { queue = q; consumer = idle; consumed = s.consumed ++ (t ∷ []) },
        next here (advance_step t holds e),
        refl,
        refl,
        refl,
        refl,
      )

  take_found : (s : System A) → Inv s → s.consumer ≡ found → (t : A) × Takes s (t ∷ [])
  take_found s inv finds =
      let (t, e) = consumer_can found s inv (can_now s found inv finds) in
      let step = copy_step t finds e in
      let (s', r, rests, same, produced, consumed) =
        take_copied (record s { consumer = copied t }) t (Step-Inv step inv) refl in
      (t, (s', Reach-trans (next here step) r, rests, same, produced, consumed))

  take_idle :
      (s : System A)
      → Inv s
      → s.consumer ≡ idle
      → s.queue.divider ≢ s.queue.last
      → (t : A) × Takes s (t ∷ [])
  take_idle s inv rests apart =
      let step = find_step rests apart in
      let (t, (s', r, again, same, produced, consumed)) =
        take_found (record s { consumer = found }) (Step-Inv step inv) refl in
      (t, (s', Reach-trans (next here step) r, again, same, produced, consumed))

  abbrev pub Drained : System A → Type ℓ
  Drained s =
      (s' : System A) × Reach s s'
      × (s'.producer ≡ s.producer)
      × (s'.produced ≡ s.produced)
      × (s'.consumed ≡ s.produced)

  -- When nothing waits, all is taken.
  nothing_waits :
      (s : System A) (inv : Inv s) → waiting inv.taken (inv.end_at, inv.end_value) ≡ [] → Drained s
  nothing_waits s inv e =
      (s, here, refl, refl, sym (inv.fifo ∙ ap (λ ts. s.consumed ++ ts) e ∙ append-nil s.consumed))

  -- After some steps, and then all the others.
  Drained-after :
      (s t : System A)
      → Reach s t
      → t.producer ≡ s.producer
      → t.produced ≡ s.produced
      → Drained t
      → Drained s
  Drained-after s t r same produced (u, q, same', produced', all) =
      (u, Reach-trans r q, same' ∙ same, produced' ∙ produced, all ∙ produced)

  drain_idle :
      (n : ℕ) (s : System A)
      → Inv s
      → s.consumer ≡ idle
      → length s.produced ≤ length s.consumed + n
      → Drained s
  drain_idle zero s inv rests enough = elim (divider-waiting s inv) [
    | inl (same, e) ↦ nothing_waits s inv e
    | inr (apart, u, us, seen, e) ↦ absurd (
        omega (
          arith,
          ap length (inv.fifo ∙ ap (λ ts. s.consumed ++ ts) e),
          length-append s.consumed (u ∷ us),
        ))
  ]
  drain_idle (suc n) s inv rests enough = elim (divider-waiting s inv) [
    | inl (same, e) ↦ nothing_waits s inv e
    | inr (apart, u, us, seen, e) ↦
        let (t, (s', r, again, same, produced, consumed)) = take_idle s inv rests apart in
        Drained-after s s' r same produced (
          drain_idle n s' (Reach-Inv r inv) again (
            omega
              (arith, ap length produced, ap length consumed, length-append s.consumed (t ∷ []))))
  ]

  drain_from : (c : Consumer A) (s : System A) → Inv s → s.consumer ≡ c → Drained s
  drain_from idle s inv e = drain_idle (length s.produced) s inv e (omega arith)
  drain_from found s inv e =
      let (t, (s', r, again, same, produced, consumed)) = take_found s inv e in
      Drained-after s s' r same produced
        (drain_idle (length s'.produced) s' (Reach-Inv r inv) again (omega arith))
  drain_from (copied t) s inv e =
      let (s', r, again, same, produced, consumed) = take_copied s t inv e in
      Drained-after s s' r same produced
        (drain_idle (length s'.produced) s' (Reach-Inv r inv) again (omega arith))

  -- Wherever both threads stand, there are steps to a state in which every value published so far
  -- has been taken, in order, with the producer where it stood and nothing more published.
  pub queue_drains :
      (t : A) (at : Pointer) (s : System A) → at ≢ null → Reach (started t at) s → Drained s
  queue_drains t at s ne r = drain_from s.consumer s (Reach-Inv r (started-Inv t at ne)) refl
