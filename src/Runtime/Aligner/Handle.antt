-- ===== src/Runtime/Aligner/Handle.antt =====
-- What an element does in the loop of aligner.rs.
use mathlib.Core.List.{append_assoc}
use flume_rs.Base.{
  ℕ, ◌≡◌, ◌≢◌, ◌<◌, refl, sym, ap, ap₂, subst, ◌∙◌, inl, inr, List, [], ◌∷◌, ◌++◌, some, true,
  false, length, length-set, length-replicate, get_elem?, lt-get_elem?, set, all, arith, Bool-cases,
  eqb, eqb_iff, get_elem?_of_lt, get_elem?-set_self, get_elem?-set_ne,
}
use flume_rs.Core.Record.{StreamElement, CheckpointBarrier, rec, watermark, checkpoint_barrier}
use flume_rs.Runtime.Aligner.{BarrierAligner, is_true, push_back, on_barrier, on_other, handle}
use flume_rs.Runtime.Aligner.Views.{
  at, at-get_elem?, at-set_self, at-set_ne, none_received, one_received, data_of, view, Fits,
  IsDrained, Same, Steps, listed_out,
}

module _ {T : Type 0} where
  pushed :
      (i : ℕ) (x : StreamElement T) (buffers : List (List (StreamElement T)))
      → i < length buffers
      → push_back i x buffers ≡ set buffers i (at buffers i ++ x ∷ [])
  pushed i x buffers lt =
      let k = get_elem?_of_lt buffers i lt in
      rw (k.1, push_back) (ap (λ b. set buffers i (b ++ x ∷ [])) (sym (at-get_elem? buffers i k.1)))

  -- After the input `i` has given its first element to the aligner.
  abbrev pub pop : ℕ → List (StreamElement T) → BarrierAligner T → BarrierAligner T
  pop i xs a = record a { inputs = set a.inputs i xs }

  pub pop_ne :
      (i j : ℕ) (xs : List (StreamElement T)) (a : BarrierAligner T)
      → i ≢ j
      → view j a ≡ view j (pop i xs a)
  pop_ne i j xs a ne =
      ap (λ b. at a.blocked_buffers j ++ data_of b) (sym (at-set_ne a.inputs i j xs ne))

  -- Views agree everywhere if they do at `i` and beside it.
  everywhere :
      (i : ℕ) (a a' : BarrierAligner T)
      → view i a ≡ view i a'
      → ((j : ℕ) → i ≢ j → view j a ≡ view j a')
      → Same a a'
  everywhere i a a' h k j = elim (Bool-cases (eqb i j)) [
    | inl q ↦ subst (λ n. view n a ≡ view n a') ((eqb_iff i j).0 q) h
    | inr q ↦ k j (λ e. ground (arith, eqb_iff i j))
  ]

  module _ (a : BarrierAligner T) (d : IsDrained a) (i : ℕ) (xs : List (StreamElement T)) where
    abbrev a0 : BarrierAligner T
    a0 = pop i xs a

    pub fits : Fits a0
    fits = (
      d.0.0 ∙ sym (length-set a.inputs i xs),
      d.0.1 ∙ sym (length-set a.inputs i xs),
      λ u. d.0.2 (sym (length-set a.inputs i xs) ∙ u),
    )

    pub barrier-Same :
        (b : CheckpointBarrier)
        → get_elem? a.inputs i ≡ some (checkpoint_barrier b ∷ xs)
        → Same a a0
    barrier-Same b e =
        everywhere i a a0
          (ap (λ y. at a.blocked_buffers i ++ data_of y) (at-get_elem? a.inputs i e)
            ∙ ap (λ y. at a.blocked_buffers i ++ data_of y)
                (sym (at-set_self a.inputs i xs (lt-get_elem? a.inputs i e))))
          (λ j ne. pop_ne i j xs a ne)

    received_twice :
        i < length a.inputs → is_true (get_elem? (set a.barrier_received i true) i) ≢ false
    received_twice lt h =
        let k = get_elem?-set_self a.barrier_received i true (omega (arith, d.0.1)) in
        cc (ap is_true (sym k) ∙ h)

    still_received :
        i < length a.inputs
        → (j : ℕ) → is_true (get_elem? (set a.barrier_received i true) j) ≡ false
        → is_true (get_elem? a.barrier_received j) ≡ false
    still_received lt j h = elim (Bool-cases (eqb i j)) [
      | inl q ↦ absurd (
          received_twice lt (
            subst (λ n. is_true (get_elem? (set a.barrier_received i true) n) ≡ false)
              (sym ((eqb_iff i j).0 q)) h))
      | inr q ↦
          ap is_true
            (sym (get_elem?-set_ne a.barrier_received i j true (λ e. ground (arith, eqb_iff i j))))
          ∙ h
    ]

    barrier-Steps :
        (b : CheckpointBarrier)
        → get_elem? a.inputs i ≡ some (checkpoint_barrier b ∷ xs)
        → let r = on_barrier i b a0 in Steps a (listed_out r.0) r.1
    barrier-Steps b e = elim (Bool-cases (all (λ r. r) (set a.barrier_received i true))) [
      | inl q ↦ rw q (
        (
          (
            fits.0,
            length-replicate (length (set a.barrier_received i true)) false
                ∙ length-set a.barrier_received i true
                ∙ fits.1,
            λ u. none_received (length (set a.barrier_received i true)),
          ),
          λ j lt. elim lt [ ],
        ),
        (i, barrier-Same b e i, λ j ne. barrier-Same b e j),
      )
      | inr q ↦ rw q (
        (
          (
            fits.0,
            length-set a.barrier_received i true ∙ fits.1,
            λ u.
                one_received (set a.barrier_received i true)
                  (length-set a.barrier_received i true ∙ fits.1 ∙ u) q,
          ),
          λ j h. d.1 j (still_received (lt-get_elem? a.inputs i e) j h),
        ),
        barrier-Same b e,
      )
    ]

    module _ (x : StreamElement T)
        (h : (ys : List (StreamElement T)) → data_of (x ∷ ys) ≡ x ∷ data_of ys)
        (e : get_elem? a.inputs i ≡ some (x ∷ xs)) where
      view_before : view i a ≡ at a.blocked_buffers i ++ x ∷ data_of xs
      view_before =
          ap (λ y. at a.blocked_buffers i ++ data_of y) (at-get_elem? a.inputs i e)
          ∙ ap (λ y. at a.blocked_buffers i ++ y) (h xs)

      data_after : data_of (at a0.inputs i) ≡ data_of xs
      data_after = ap data_of (at-set_self a.inputs i xs (lt-get_elem? a.inputs i e))

      pub front : is_true (get_elem? a.barrier_received i) ≡ false → view i a ≡ x ∷ view i a0
      front q =
          view_before
          ∙ ap₂ (λ b y. b ++ x ∷ y) (d.1 i q) (sym data_after)
          ∙ ap (λ b. x ∷ b ++ data_of (at a0.inputs i)) (sym (d.1 i q))

      push-Same : Same a (record a0 {
        blocked_buffers = set a.blocked_buffers i (at a.blocked_buffers i ++ x ∷ []);
      })
      push-Same =
          everywhere i a
            (record a0 {
              blocked_buffers = set a.blocked_buffers i (at a.blocked_buffers i ++ x ∷ []);
            })
            (view_before
              ∙ sym (append_assoc (at a.blocked_buffers i) (x ∷ []) (data_of xs))
              ∙ ap₂ (λ b y. b ++ y)
                  (sym (
                    at-set_self a.blocked_buffers i (at a.blocked_buffers i ++ x ∷ [])
                      (omega (arith, lt-get_elem? a.inputs i e, d.0.0))))
                  (sym data_after))
            (λ j ne.
              pop_ne i j xs a ne
              ∙ ap (λ b. b ++ data_of (at a0.inputs j))
                  (sym (at-set_ne a.blocked_buffers i j (at a.blocked_buffers i ++ x ∷ []) ne)))

      other-Steps : let r = on_other i x a0 in Steps a (listed_out r.0) r.1
      other-Steps = elim (Bool-cases (is_true (get_elem? a.barrier_received i))) [
        | inl q ↦
            rw (q, pushed i x a.blocked_buffers (omega (arith, lt-get_elem? a.inputs i e, d.0.0)))
              (
                (
                  (
                    length-set a.blocked_buffers i (at a.blocked_buffers i ++ x ∷ []) ∙ fits.0,
                    fits.1,
                    fits.2,
                  ),
                  λ j k.
                      at-set_ne a.blocked_buffers i j (at a.blocked_buffers i ++ x ∷ [])
                        (λ u. cc (u, k, q))
                      ∙ d.1 j k,
                ),
                push-Same,
              )
        | inr q ↦ rw q ((fits, λ j lt k. d.1 j k), (i, front q, λ j ne. pop_ne i j xs a ne))
      ]

    pub handle-Steps :
        (x : StreamElement T)
        → get_elem? a.inputs i ≡ some (x ∷ xs)
        → let r = handle i x a0 in Steps a (listed_out r.0) r.1
    unfolding handle
    handle-Steps (rec r) e = other-Steps (rec r) (λ ys. refl) e
    handle-Steps (watermark w) e = other-Steps (watermark w) (λ ys. refl) e
    handle-Steps (checkpoint_barrier b) e = barrier-Steps b e
