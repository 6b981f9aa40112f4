-- ===== src/Runtime/RingBuffer/Receives.antt =====
-- The steps of the consumer of ring_buffer.rs keep the ring valid.
use mathlib.Core.List.{append-nil}
use flume_rs.Base.{
  ℕ, suc, ◌+◌, ◌%◌, ◌^◌, ◌≤◌, ◌<◌, ◌≡◌, refl, ap, sym, subst, ◌∙◌, List, [], ◌∷◌, ◌++◌, none, some,
  length, get_elem?, get_elem?_of_lt, add64, leb, Bool-cases, inl, inr, arith,
}
use flume_rs.Runtime.RingBuffer.{
  Ring, Receiving, quiet, received, empty, index, put, begin_recv, refreshed, take_slot, step_recv,
  consumer,
}
use flume_rs.Runtime.RingBuffer.Slots.{Holds, take-Holds, take-suc}
use flume_rs.Runtime.RingBuffer.Valid.{
  IsValid, After, Counts, quiet-After, index-mod, last_held, last_bounds, written,
  get_elem?-written,
}

module _ {T : Type 0} (k : ℕ) (r : Ring T) (log out : List T) where
  begin_recv-After :
      IsValid k r r.sending Receiving.outside log out → After k log out (begin_recv r)
  unfolding begin_recv
  begin_recv-After i = elim (Bool-cases (leb r.cached_write_seq r.read_seq)) [
    | inl e ↦ rw e (
        quiet-After k (record r { receiving = Receiving.reload }) log out quiet refl refl
          (i.0, i.1, tt, i.3))
    | inr e ↦ rw e (
        quiet-After k (record r { receiving = Receiving.take }) log out quiet refl refl
          (i.0, i.1, ground arith, i.3))
  ]

  refresh-After :
      IsValid k r r.sending Receiving.reload log out
      → After k log out (refreshed (record r { cached_write_seq = r.write_seq }))
  unfolding refreshed
  refresh-After i = elim (Bool-cases (leb r.write_seq r.read_seq)) [
    | inl e ↦ rw e (
        quiet-After k (record r { cached_write_seq = r.write_seq; receiving = Receiving.outside })
          log out empty refl refl (counts, i.1, tt, i.3))
    | inr e ↦ rw e (
        quiet-After k (record r { cached_write_seq = r.write_seq; receiving = Receiving.take }) log
          out quiet refl refl (counts, i.1, ground arith, i.3))
  ]
    where
      counts : Counts (2 ^ k) r.mask r.write_seq r.read_seq r.cached_read_seq r.write_seq log out
      counts = record {
        masked = i.0.masked;
        logged = i.0.logged;
        behind = i.0.behind;
        sees_read = i.0.sees_read;
        sees_write = omega arith;
        room = i.0.room;
        small = i.0.small;
        fifo = i.0.fifo;
      }

  take-After :
      IsValid k r r.sending Receiving.take log out
      → After k log out (take_slot (r.slots (index r r.read_seq)) r)
  unfolding take_slot
  take-After i = rw holds (
      quiet-After k
        (record r {
          slots = put r.slots (index r r.read_seq) none;
          receiving = Receiving.advance x.0;
        })
        log out quiet refl refl (i.0, i.1, (i.2, x.1), slots))
    where
      b :
          (r.write_seq ≤ last_held r.sending r.write_seq)
          × (last_held r.sending r.write_seq ≤ r.read_seq + 2 ^ k)
      b = last_bounds i.0 r.sending i.1

      below : r.read_seq < length log
      below = omega (arith, i.0.logged, i.2, i.0.sees_write)

      x : (x : T) × (get_elem? log r.read_seq ≡ some x)
      x = get_elem?_of_lt log r.read_seq below

      at_index : index r r.read_seq ≡ r.read_seq % 2 ^ k
      at_index = index-mod k r r.read_seq i.0.masked

      holds : r.slots (index r r.read_seq) ≡ some x.0
      holds =
          ap r.slots at_index
          ∙ i.3.held r.read_seq (omega arith) (omega (arith, i.2, i.0.sees_write, b.0))
          ∙ get_elem?-written r.sending log r.read_seq below
          ∙ x.1

      slots :
          Holds
            (2 ^ k)
            (put r.slots (index r r.read_seq) none)
            (suc r.read_seq)
            (last_held r.sending r.write_seq)
            (written r.sending log)
      slots =
          subst
            (λ j.
              Holds (2 ^ k) (put r.slots j none) (suc r.read_seq) (last_held r.sending r.write_seq)
                (written r.sending log))
            (sym at_index)
            (take-Holds (2 ^ k) r.slots r.read_seq (last_held r.sending r.write_seq)
              (written r.sending log) i.3 (omega (arith, i.2, i.0.sees_write, b.0)) b.1)

  advance-After :
      (v : T)
      → IsValid k r r.sending (Receiving.advance v) log out
      → After k log out (step_recv (Receiving.advance v) r)
  unfolding step_recv
  advance-After v i =
      subst
        (λ n.
          After k log out (received v, record r { read_seq = n; receiving = Receiving.outside }))
        (sym wraps)
        (subst
          (λ l.
            IsValid k (record r { read_seq = suc r.read_seq; receiving = Receiving.outside })
              r.sending Receiving.outside l (out ++ v ∷ []))
          (sym (append-nil log)) (counts, i.1, tt, i.3))
    where
      wraps : add64 r.read_seq 1 ≡ suc r.read_seq
      wraps = omega (arith, i.0.small, i.2.0, i.0.sees_write)

      counts :
          Counts
            (2 ^ k)
            r.mask
            r.write_seq
            (suc r.read_seq)
            r.cached_read_seq
            r.cached_write_seq
            log
            (out ++ v ∷ [])
      counts = record {
        masked = i.0.masked;
        logged = i.0.logged;
        behind = omega (arith, i.2.0, i.0.sees_write);
        sees_read = omega (arith, i.0.sees_read);
        sees_write = i.0.sees_write;
        room = omega (arith, i.0.room);
        small = i.0.small;
        fifo = take-suc log v r.read_seq i.2.1 ∙ ap (λ o. o ++ v ∷ []) i.0.fifo;
      }

  pub consumer-After :
      (c : Receiving T) → IsValid k r r.sending c log out → After k log out (consumer c r)
  unfolding step_recv
  consumer-After Receiving.outside i = begin_recv-After i
  consumer-After Receiving.reload i = refresh-After i
  consumer-After Receiving.take i = take-After i
  consumer-After (Receiving.advance v) i = advance-After v i
  consumer-After Receiving.broken i = absurd i.2
