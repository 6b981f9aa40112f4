-- ===== src/Runtime/Aligner/Drain.antt =====
-- Phase 1 of `next` in aligner.rs.
use flume_rs.Base.{
  ℕ, zero, suc, ◌+◌, ◌≡◌, ◌≤◌, refl, sym, ap, subst, ◌∙◌, inl, inr, List, [], ◌∷◌, ◌++◌, Option,
  none, some, length, length-set, get_elem?, lt-get_elem?, set, arith, Bool-cases, eqb, eqb_iff,
  ltb,
}
use flume_rs.Core.Record.{StreamElement}
use flume_rs.Runtime.Aligner.{BarrierAligner, drain}
use flume_rs.Runtime.Aligner.Views.{
  at, at-get_elem?, at_out, at-set_self, at-set_ne, front_cases, get_elem?-none, data_of, IsValid,
  Steps, listed, Same-Steps,
}

module _ {T : Type 0} where
  -- An empty buffer at the index of the drain: the next one.
  next_buffer :
      (a : BarrierAligner T)
      → IsValid a
      → at a.blocked_buffers a.drain_index ≡ []
      → IsValid (record a { drain_index = suc a.drain_index })
  next_buffer a v e = (
    v.0,
    λ i lt h. elim (Bool-cases (eqb a.drain_index i)) [
      | inl q ↦ ap (at a.blocked_buffers) (sym ((eqb_iff a.drain_index i).0 q)) ∙ e
      | inr q ↦ v.1 i (ground (arith, eqb_iff a.drain_index i)) h
    ],
  )

  pop_front-Steps :
      (a : BarrierAligner T) (x : StreamElement T) (xs : List (StreamElement T))
      → IsValid a
      → get_elem? a.blocked_buffers a.drain_index ≡ some (x ∷ xs)
      → Steps a
          (some (x ∷ []))
          (record a { blocked_buffers = set a.blocked_buffers a.drain_index xs })
  pop_front-Steps a x xs v e = (
    (
      (length-set a.blocked_buffers a.drain_index xs ∙ v.0.0, v.0.1, v.0.2),
      λ i lt h. at-set_ne a.blocked_buffers a.drain_index i xs (λ q. omega arith) ∙ v.1 i lt h,
    ),
    (
      a.drain_index,
      ap (λ b. b ++ data_of (at a.inputs a.drain_index))
            (at-get_elem? a.blocked_buffers a.drain_index e)
          ∙ ap (λ b. x ∷ b ++ data_of (at a.inputs a.drain_index))
              (sym (
                at-set_self a.blocked_buffers a.drain_index xs
                  (lt-get_elem? a.blocked_buffers a.drain_index e))),
      λ j ne.
          ap (λ b. b ++ data_of (at a.inputs j))
            (sym (at-set_ne a.blocked_buffers a.drain_index j xs ne)),
    ),
  )

  drained :
      (a : BarrierAligner T) → IsValid a → length a.blocked_buffers ≤ a.drain_index → Steps a none a
  drained a v h = (
    (
      v.0,
      λ i r. elim (Bool-cases (ltb i a.drain_index)) [
        | inl q ↦ v.1 i (ground arith) r
        | inr q ↦ at_out a.blocked_buffers i (ground arith)
      ],
    ),
    λ j. refl,
  )

  abbrev skip : BarrierAligner T → BarrierAligner T
  skip a = record a { drain_index = suc a.drain_index }

  drain_end :
      (left : ℕ) (a : BarrierAligner T)
      → get_elem? a.blocked_buffers a.drain_index ≡ none
      → drain (suc left) a ≡ (none, a)
  unfolding drain
  drain_end left a e = rw (e, drain) refl

  drain-skip :
      (left : ℕ) (a : BarrierAligner T)
      → get_elem? a.blocked_buffers a.drain_index ≡ some []
      → drain (suc left) a ≡ drain left (skip a)
  unfolding drain
  drain-skip left a e = rw (e, drain) refl

  drain_pop :
      (left : ℕ) (a : BarrierAligner T) (x : StreamElement T) (xs : List (StreamElement T))
      → get_elem? a.blocked_buffers a.drain_index ≡ some (x ∷ xs)
      → drain (suc left) a
        ≡ (some x, record a { blocked_buffers = set a.blocked_buffers a.drain_index xs })
  unfolding drain
  drain_pop left a x xs e = rw (e, drain) refl

  drain-zero : (a : BarrierAligner T) → drain zero a ≡ (none, a)
  unfolding drain
  drain-zero a = refl

  abbrev pub Drains : BarrierAligner T → Option (StreamElement T) × BarrierAligner T → Type 0
  Drains a r = Steps a (listed r.0) r.1 × (length r.1.inputs ≡ length a.inputs)

  pub drain_lem :
      (left : ℕ) (a : BarrierAligner T)
      → IsValid a
      → length a.blocked_buffers ≤ left + a.drain_index
      → Drains a (drain left a)
  drain_lem zero a v h = subst (Drains a) (sym (drain-zero a)) (drained a v (omega arith), refl)
  drain_lem (suc left) a v h = elim (front_cases (get_elem? a.blocked_buffers a.drain_index)) [
    | inl e ↦
        subst (Drains a) (sym (drain_end left a e))
          (drained a v (get_elem?-none a.blocked_buffers a.drain_index e), refl)
    | inr (inl e) ↦
        let k =
          drain_lem left (skip a) (next_buffer a v (at-get_elem? a.blocked_buffers a.drain_index e))
            (omega arith) in
        subst (Drains a) (sym (drain-skip left a e)) (
          Same-Steps a (skip a) (drain left (skip a)).1 (listed (drain left (skip a)).0) (λ j. refl)
              k.0,
          k.1,
        )
    | inr (inr (x, xs, e)) ↦
        subst (Drains a) (sym (drain_pop left a x xs e)) (pop_front-Steps a x xs v e, refl)
  ]
