-- ===== src/Runtime/RingBuffer/Sends.antt =====
-- The steps of the producer of ring_buffer.rs keep the ring valid.
use mathlib.Core.List.{append-nil}
use flume_rs.Base.{
  ℕ, suc, ◌+◌, ◌^◌, ◌≤◌, ◌<◌, ◌≡◌, refl, sym, subst, ◌∙◌, List, [], ◌∷◌, ◌++◌, true, false, some,
  length-append, add64, sub64, ltb, eqb, if◌then◌else◌, Bool-cases, inl, inr, arith,
}
use flume_rs.Runtime.RingBuffer.{
  Ring, Sending, quiet, sent, full, index, put, begin_send, reloaded, step_send, producer,
}
use flume_rs.Runtime.RingBuffer.Slots.{Holds, put-Holds, take-append}
use flume_rs.Runtime.RingBuffer.Valid.{
  IsValid, After, Counts, quiet-After, index-mod, first_held, first_bounds, receives-append,
}

module _ {T : Type 0} (k : ℕ) (r : Ring T) (log out : List T) where
  begin_send-After :
      (v : T) → IsValid k r Sending.outside r.receiving log out → After k log out (begin_send v r)
  unfolding begin_send
  begin_send-After v i = elim (Bool-cases (ltb r.mask (sub64 r.write_seq r.cached_read_seq))) [
    | inl e ↦ rw e (
        quiet-After k (record r { sending = Sending.reload v }) log out quiet refl refl
          (i.0, tt, i.2, i.3))
    | inr e ↦ rw e (
        quiet-After k (record r { sending = Sending.write v }) log out quiet refl refl
          (i.0, fits e, i.2, i.3))
  ]
    where
      fits :
          ltb r.mask (sub64 r.write_seq r.cached_read_seq) ≡ false
          → r.write_seq ≤ r.cached_read_seq + r.mask
      fits e = ground (arith, i.0.small, i.0.sees_read, i.0.behind)

  reload-After :
      (v : T)
      → IsValid k r (Sending.reload v) r.receiving log out
      → After k log out (reloaded v (record r { cached_read_seq = r.read_seq }))
  unfolding reloaded
  reload-After v i = elim (Bool-cases (ltb r.mask (sub64 r.write_seq r.read_seq))) [
    | inl e ↦ rw e (
        quiet-After k (record r { cached_read_seq = r.read_seq; sending = Sending.outside }) log out
          (full v) refl refl (counts, tt, i.2, i.3))
    | inr e ↦ rw e (
        quiet-After k (record r { cached_read_seq = r.read_seq; sending = Sending.write v }) log out
          quiet refl refl (counts, fits e, i.2, i.3))
  ]
    where
      counts : Counts (2 ^ k) r.mask r.write_seq r.read_seq r.read_seq r.cached_write_seq log out
      counts = record {
        masked = i.0.masked;
        logged = i.0.logged;
        behind = i.0.behind;
        sees_read = omega arith;
        sees_write = i.0.sees_write;
        room = i.0.room;
        small = i.0.small;
        fifo = i.0.fifo;
      }

      fits : ltb r.mask (sub64 r.write_seq r.read_seq) ≡ false → r.write_seq ≤ r.read_seq + r.mask
      fits e = ground (arith, i.0.small, i.0.behind)

  write-After :
      (v : T)
      → IsValid k r (Sending.write v) r.receiving log out
      → After k log out (step_send (Sending.write v) r)
  unfolding step_send
  write-After v i =
      quiet-After k
        (record r {
          slots = put r.slots (index r r.write_seq) (some v);
          sending = Sending.publish v;
        })
        log out quiet refl refl (i.0, i.1, i.2, slots)
    where
      b :
          (r.read_seq ≤ first_held r.receiving r.read_seq)
          × (first_held r.receiving r.read_seq ≤ r.write_seq)
      b = first_bounds i.0 r.receiving i.2

      slots :
          Holds
            (2 ^ k)
            (put r.slots (index r r.write_seq) (some v))
            (first_held r.receiving r.read_seq)
            (suc r.write_seq)
            (log ++ v ∷ [])
      slots =
          subst
            (λ j.
              Holds (2 ^ k) (put r.slots j (some v)) (first_held r.receiving r.read_seq)
                (suc r.write_seq) (log ++ v ∷ []))
            (sym (index-mod k r r.write_seq i.0.masked))
            (put-Holds (2 ^ k) r.slots (first_held r.receiving r.read_seq) r.write_seq log v i.3
              i.0.logged b.1 (omega (arith, i.1, i.0.sees_read, i.0.masked, b.0)))

  publish-After :
      (v : T)
      → r.write_seq + 1 < 2 ^ 64
      → IsValid k r (Sending.publish v) r.receiving log out
      → After k log out (step_send (Sending.publish v) r)
  unfolding step_send
  publish-After v small i =
      subst
        (λ w. After k log out (
          sent v,
          record r {
            write_seq = w;
            permit = if eqb r.write_seq r.cached_read_seq then true else r.permit;
            sending = Sending.outside;
          },
        ))
        (sym wraps)
        (
          subst
              (λ o.
                Counts (2 ^ k) r.mask (suc r.write_seq) r.read_seq r.cached_read_seq
                  r.cached_write_seq (log ++ v ∷ []) o)
              (sym (append-nil out)) counts,
          tt,
          receives-append r.receiving r.read_seq r.cached_write_seq log (v ∷ [])
              (omega (arith, i.0.sees_write, i.0.logged)) i.2,
          i.3,
        )
    where
      wraps : add64 r.write_seq 1 ≡ suc r.write_seq
      wraps = omega (arith, small)

      counts :
          Counts
            (2 ^ k)
            r.mask
            (suc r.write_seq)
            r.read_seq
            r.cached_read_seq
            r.cached_write_seq
            (log ++ v ∷ [])
            out
      counts = record {
        masked = i.0.masked;
        logged = omega (arith, length-append log (v ∷ []), i.0.logged);
        behind = omega (arith, i.0.behind);
        sees_read = i.0.sees_read;
        sees_write = omega (arith, i.0.sees_write);
        room = omega (arith, i.1, i.0.sees_read, i.0.masked);
        small = omega (arith, small);
        fifo =
            take-append log (v ∷ []) r.read_seq (omega (arith, i.0.behind, i.0.logged)) ∙ i.0.fifo;
      }

  pub producer-After :
      (s : Sending T) (v : T)
      → r.write_seq + 1 < 2 ^ 64
      → IsValid k r s r.receiving log out
      → After k log out (producer s v r)
  unfolding step_send
  producer-After Sending.outside v small i = begin_send-After v i
  producer-After (Sending.reload x) v small i = reload-After x i
  producer-After (Sending.write x) v small i = write-After x i
  producer-After (Sending.publish x) v small i = publish-After x small i
