-- ===== src/Runtime/RingBuffer/Fifo.antt =====
-- ring_buffer.rs as a queue, whatever the interleaving of its two ends.
use native.Mathlib.Nat.{one-le-pow, pow-suc}
use mathlib.Core.List.{append-nil, append_assoc}
use flume_rs.Base.{
  ℕ, zero, suc, ◌+◌, ◌*◌, ◌%◌, ◌^◌, ◌≤◌, ◌<◌, ◌≡◌, ◌≢◌, ◌⊎◌, refl, ap, sym, subst, ◌∙◌, List, [],
  ◌∷◌, ◌++◌, false, length, length-append, take, flat_map, max, ltb, Bool-cases, inl, inr, arith,
}
use flume_rs.Runtime.RingBuffer.{
  double_until, next_power_of_two, Ring, Receiving, Event, ring_buffer, Turn, produces, consumes,
  turn, run,
}
use flume_rs.Runtime.RingBuffer.Valid.{IsValid, After, sent_by, received_by, ReceivingFits}
use flume_rs.Runtime.RingBuffer.Sends.{producer-After}
use flume_rs.Runtime.RingBuffer.Receives.{consumer-After}

-- Doubling reaches the capacity if enough doublings are left, and gives a power of two.
double_until_lem :
    (n i p capacity : ℕ)
    → p ≡ 2 ^ i
    → (j : ℕ) × (double_until n p capacity ≡ 2 ^ j)
      × (p ≤ 2 ^ j)
      × (capacity ≤ 2 ^ (i + n) → capacity ≤ 2 ^ j)
      × (2 ^ j ≤ 2 ^ (i + n))
unfolding double_until
double_until_lem zero i p capacity h = (
  i,
  h,
  omega (arith, h),
  subst (λ x. capacity ≤ 2 ^ x) same,
  subst (λ x. 2 ^ i ≤ 2 ^ x) (sym same) (omega arith),
)
  where
    same : i + 0 ≡ i
    same = omega arith
double_until_lem (suc n) i p capacity h = elim (Bool-cases (ltb p capacity)) [
  | inl e ↦
      let rest = double_until_lem n (suc i) (2 * p) capacity doubled in
      rw e (
        rest.0,
        rest.1,
        omega (arith, rest.2),
        (λ b. rest.3 (subst (λ x. capacity ≤ 2 ^ x) shifted b)),
        subst (λ x. 2 ^ rest.0 ≤ 2 ^ x) (sym shifted) rest.4,
      )
  | inr e ↦
      let rest = double_until_lem n i p capacity h in
      rw e (
        rest.0,
        rest.1,
        rest.2,
        (λ b. omega (arith, reached e, rest.2)),
        omega (arith, rest.4, ap (λ x. 2 ^ x) next, pow-suc 2 (i + n)),
      )
]
  where
    doubled : 2 * p ≡ 2 ^ suc i
    doubled = omega (arith, h, pow-suc 2 i)

    shifted : i + suc n ≡ suc i + n
    shifted = omega arith

    next : i + suc n ≡ suc (i + n)
    next = omega arith

    reached : ltb p capacity ≡ false → capacity ≤ p
    reached e = ground arith

-- Up to 2 ^ 63 the power does not reach 2 ^ 64.
double_until-lt :
    (n p capacity : ℕ) → p < 2 ^ 64 → capacity ≤ 2 ^ 63 → double_until n p capacity < 2 ^ 64
unfolding double_until
double_until-lt zero p capacity h b = h
double_until-lt (suc n) p capacity h b = elim (Bool-cases (ltb p capacity)) [
  | inl e ↦ rw e (double_until-lt n (2 * p) capacity (ground arith) b)
  | inr e ↦ rw e (double_until-lt n p capacity h b)
]

max_two : (n j : ℕ) → n ≡ 2 ^ j → (k : ℕ) × (max n 2 ≡ 2 ^ k) × (n ≤ 2 ^ k)
max_two n zero h = (1, omega (arith, h), omega (arith, h))
max_two n (suc j) h =
    (suc j, omega (arith, h, pow-suc 2 j, one-le-pow j 2 (omega arith)), omega (arith, h))

-- A word of 64 bits, and the first number that wraps.
word_lem :
    (d : ℕ) → ((d < 2 ^ 64) × (d % 2 ^ 64 ≡ d)) ⊎ ((2 ^ 64 ≤ d) × (d ≤ 2 ^ 64 → d % 2 ^ 64 ≡ 0))
word_lem d = elim (Bool-cases (ltb d (2 ^ 64))) [
  | inl e ↦ inl (ground arith)
  | inr e ↦ inr (above e, λ h. at (above e) h)
]
  where
    above : ltb d (2 ^ 64) ≡ false → 2 ^ 64 ≤ d
    above e = ground arith

    at : 2 ^ 64 ≤ d → d ≤ 2 ^ 64 → d % 2 ^ 64 ≡ 0
    at h b = omega arith

-- The number of slots: a power of two that is at least 2, and at least the capacity asked for if that
-- is at most 2 ^ 63.
slots_lem :
    (capacity : ℕ)
    → (k : ℕ) × (max (next_power_of_two capacity) 2 ≡ 2 ^ k)
      × (capacity ≤ 2 ^ 63 → capacity ≤ 2 ^ k)
unfolding next_power_of_two
slots_lem capacity = elim (word_lem (double_until 64 1 capacity)) [
  | inl e ↦
      let m = max_two (double_until 64 1 capacity) p.0 p.1 in
      (m.0, ap (λ n. max n 2) e.1 ∙ m.1, λ b. omega (arith, p.1, p.3 (omega arith), m.2))
  | inr e ↦ (
    1,
    ap (λ n. max n 2) (e.1 (omega (arith, p.1, p.4))),
    λ b. omega (arith, e.0, double_until-lt 64 1 capacity (omega arith) b),
  )
]
  where
    p :
        (j : ℕ) × (double_until 64 1 capacity ≡ 2 ^ j)
        × (1 ≤ 2 ^ j)
        × (capacity ≤ 2 ^ (0 + 64) → capacity ≤ 2 ^ j)
        × (2 ^ j ≤ 2 ^ (0 + 64))
    p = double_until_lem 64 0 1 capacity refl

module _ {T : Type 0} where
  length-take : (i : ℕ) (xs : List T) → i ≤ length xs → length (take i xs) ≡ i
  length-take zero xs h = refl
  length-take (suc i) [] h = elim h [ ]
  length-take (suc i) (x ∷ xs) h = ap suc (length-take i xs (omega arith))

  length-sent_by : (e : Event T) → length (sent_by e) ≤ 1
  length-sent_by Event.quiet = omega arith
  length-sent_by (Event.sent v) = omega arith
  length-sent_by (Event.full v) = omega arith
  length-sent_by (Event.received v) = omega arith
  length-sent_by Event.empty = omega arith

  turn-After :
      (k : ℕ) (t : Turn T) (r : Ring T) (log out : List T)
      → r.write_seq + 1 < 2 ^ 64
      → IsValid k r r.sending r.receiving log out
      → After k log out (turn t r)
  unfolding turn
  turn-After k (produces v) r log out small i = producer-After k r log out r.sending v small i
  turn-After k consumes r log out small i = consumer-After k r log out r.receiving i

  run-IsValid :
      (k : ℕ) (ts : List (Turn T)) (r : Ring T) (log out : List T)
      → r.write_seq + length ts < 2 ^ 64
      → IsValid k r r.sending r.receiving log out
      → let (es, r') = run ts r in
        IsValid k r' r'.sending r'.receiving
          (log ++ flat_map sent_by es)
          (out ++ flat_map received_by es)
  unfolding run
  run-IsValid k [] r log out b i = rw (append-nil log, append-nil out) i
  run-IsValid k (t ∷ ts) r log out b i =
      let e = turn t r in
      let next = turn-After k t r log out (omega (arith, b)) i in
      let rest =
        run-IsValid k ts e.1 (log ++ sent_by e.0) (out ++ received_by e.0)
          (omega (
            arith,
            b,
            i.0.logged,
            next.0.logged,
            length-append log (sent_by e.0),
            length-sent_by e.0,
          ))
          next in
      let s = (run ts e.1).1 in
      let more_sent = flat_map sent_by (run ts e.1).0 in
      let more_received = flat_map received_by (run ts e.1).0 in
      subst (λ l. IsValid k s s.sending s.receiving l (out ++ (received_by e.0 ++ more_received)))
        (append_assoc log (sent_by e.0) more_sent)
        (subst (λ o. IsValid k s s.sending s.receiving ((log ++ sent_by e.0) ++ more_sent) o)
          (append_assoc out (received_by e.0) more_received) rest)

  ring_buffer-IsValid :
      (capacity k : ℕ)
      → max (next_power_of_two capacity) 2 ≡ 2 ^ k
      → let r = ring_buffer {T = T} capacity in IsValid k r r.sending r.receiving [] []
  unfolding ring_buffer
  ring_buffer-IsValid capacity k h = (
    record {
      masked = omega (arith, h);
      logged = refl;
      behind = omega arith;
      sees_read = omega arith;
      sees_write = omega arith;
      room = omega arith;
      small = omega arith;
      fifo = refl;
    },
    tt,
    tt,
    record { held = λ s p q. absurd (omega (arith, p, q)); vacant = λ s p q. refl },
  )

  starts :
      (capacity : ℕ) (ts : List (Turn T))
      → length ts < 2 ^ 64
      → (ring_buffer {T = T} capacity).write_seq + length ts < 2 ^ 64
  unfolding ring_buffer
  starts capacity ts b = omega (arith, b)

  not_broken :
      (c : Receiving T) (read cached : ℕ) (log : List T)
      → ReceivingFits c read cached log
      → c ≢ Receiving.broken
  not_broken Receiving.outside read cached log f = λ e. cc
  not_broken Receiving.reload read cached log f = λ e. cc
  not_broken Receiving.take read cached log f = λ e. cc
  not_broken (Receiving.advance v) read cached log f = λ e. cc
  not_broken Receiving.broken read cached log f = λ e. f

  -- Whatever the interleaving of the two ends, in fewer than 2 ^ 64 steps from an empty ring: the
  -- values received are the first of the values sent, in the order in which they were sent, none of
  -- them lost or repeated; the consumer never reads an uninitialised slot; and the values sent and
  -- not yet received are never more than the slots, which are at least the capacity asked for (if
  -- that is at most 2 ^ 63).
  pub ring_is_fifo :
      (capacity : ℕ) (ts : List (Turn T))
      → length ts < 2 ^ 64
      → let (events, r) = run ts (ring_buffer capacity) in
        let all_sent = flat_map sent_by events in
        let all_received = flat_map received_by events in
        (all_received ≡ take (length all_received) all_sent)
        × (r.receiving ≢ Receiving.broken)
        × (length all_sent ≤ length all_received + max (next_power_of_two capacity) 2)
        × (capacity ≤ 2 ^ 63 → capacity ≤ max (next_power_of_two capacity) 2)
  ring_is_fifo capacity ts b =
      let k = slots_lem capacity in
      let start = ring_buffer {T = T} capacity in
      let v =
        run-IsValid k.0 ts start [] [] (starts capacity ts b)
          (ring_buffer-IsValid capacity k.0 k.1) in
      let r = (run ts start).1 in
      let log = flat_map sent_by (run ts start).0 in
      let n =
        ap length (sym v.0.fifo)
        ∙ length-take r.read_seq log (omega (arith, v.0.behind, v.0.logged)) in
      (
        sym v.0.fifo ∙ ap (λ i. take i log) (sym n),
        not_broken r.receiving r.read_seq r.cached_write_seq log v.2,
        omega (arith, n, v.0.room, v.0.logged, k.1),
        λ c. omega (arith, k.1, k.2 c),
      )
