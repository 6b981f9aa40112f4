-- ===== src/Runtime/RingBuffer/Valid.antt =====
-- What every step of either end of ring_buffer.rs keeps.
use mathlib.Core.List.{append-nil}
use flume_rs.Base.{
  get_elem?-append_left, ℕ, suc, ◌+◌, ◌-◌, ◌%◌, ◌^◌, ◌≤◌, ◌<◌, ◌≡◌, refl, ap, sym, subst, ◌∙◌, List,
  [], ◌∷◌, ◌++◌, some, get_elem?, length, take, arith,
}
use Prim.Native.Nat.{bit_and}
use flume_rs.Base.Bits.{and-mask}
use flume_rs.Runtime.RingBuffer.{
  Ring, Sending, Receiving, Event, quiet, sent, full, received, empty, index,
}
use flume_rs.Runtime.RingBuffer.Slots.{Holds}

module _ {T : Type 0} where
  -- What an event says was sent, and what it says was received.
  abbrev pub sent_by : Event T → List T
  sent_by (sent v) = v ∷ []
  sent_by (received v) = []
  sent_by (full v) = []
  sent_by empty = []
  sent_by quiet = []

  abbrev pub received_by : Event T → List T
  received_by (received v) = v ∷ []
  received_by (sent v) = []
  received_by (full v) = []
  received_by empty = []
  received_by quiet = []

  -- The first number whose slot is still full: the consumer empties a slot before it advances.
  abbrev pub first_held : Receiving T → ℕ → ℕ
  first_held (Receiving.advance v) read = suc read
  first_held Receiving.outside read = read
  first_held Receiving.reload read = read
  first_held Receiving.take read = read
  first_held Receiving.broken read = read

  -- The number after the last full slot: the producer fills a slot before it publishes.
  abbrev pub last_held : Sending T → ℕ → ℕ
  last_held (Sending.publish v) write = suc write
  last_held Sending.outside write = write
  last_held (Sending.reload v) write = write
  last_held (Sending.write v) write = write

  -- The values written so far: those sent, and one that is not yet published.
  abbrev pub written : Sending T → List T → List T
  written (Sending.publish v) log = log ++ v ∷ []
  written Sending.outside log = log
  written (Sending.reload v) log = log
  written (Sending.write v) log = log

  -- The producer has seen room before it writes.
  abbrev pub SendingFits : Sending T → ℕ → ℕ → ℕ → Type 0
  SendingFits Sending.outside write cached mask = Unit {0}
  SendingFits (Sending.reload v) write cached mask = Unit {0}
  SendingFits (Sending.write v) write cached mask = write ≤ cached + mask
  SendingFits (Sending.publish v) write cached mask = write ≤ cached + mask

  -- The consumer has seen a published slot before it reads, and has read what was sent there.
  abbrev pub ReceivingFits : Receiving T → ℕ → ℕ → List T → Type 0
  ReceivingFits Receiving.outside read cached log = Unit {0}
  ReceivingFits Receiving.reload read cached log = Unit {0}
  ReceivingFits Receiving.take read cached log = read < cached
  ReceivingFits (Receiving.advance v) read cached log =
      (read < cached) × (get_elem? log read ≡ some v)
  ReceivingFits Receiving.broken read cached log = ⊥

  -- `log` is what was sent so far, `out` what was received, in order.
  pub record Counts (n mask write read cached_read cached_write : ℕ) (log out : List T)
      : Type 0 where
    pub masked : mask + 1 ≡ n
    pub logged : length log ≡ write
    pub behind : read ≤ write
    pub sees_read : cached_read ≤ read
    pub sees_write : cached_write ≤ write
    pub room : write ≤ read + n
    pub small : write < 2 ^ 64
    pub fifo : take read log ≡ out

  abbrev pub IsValid : ℕ → Ring T → Sending T → Receiving T → List T → List T → Type 0
  IsValid k r s c log out =
      Counts (2 ^ k) r.mask r.write_seq r.read_seq r.cached_read_seq r.cached_write_seq log out
      × SendingFits s r.write_seq r.cached_read_seq r.mask
      × ReceivingFits c r.read_seq r.cached_write_seq log
      × Holds (2 ^ k) r.slots (first_held c r.read_seq) (last_held s r.write_seq) (written s log)

  -- The valid state after a step, with its event.
  abbrev pub After : ℕ → List T → List T → Event T × Ring T → Type 0
  After k log out er =
      IsValid k er.1 er.1.sending er.1.receiving (log ++ sent_by er.0) (out ++ received_by er.0)

  -- After a step that ends no call.
  pub quiet-After :
      (k : ℕ) (r : Ring T) (log out : List T) (e : Event T)
      → sent_by e ≡ []
      → received_by e ≡ []
      → IsValid k r r.sending r.receiving log out
      → After k log out (e, r)
  quiet-After k r log out e p q i =
      subst (λ l. IsValid k r r.sending r.receiving l (out ++ received_by e))
        (sym (ap (◌++◌ log) p ∙ append-nil log))
        (subst (λ o. IsValid k r r.sending r.receiving log o)
          (sym (ap (◌++◌ out) q ∙ append-nil out)) i)

  pub index-mod : (k : ℕ) (r : Ring T) (seq : ℕ) → r.mask + 1 ≡ 2 ^ k → index r seq ≡ seq % 2 ^ k
  index-mod k r seq h = ap (bit_and seq) masked ∙ and-mask k seq
    where
      masked : r.mask ≡ 2 ^ k - 1
      masked = omega (arith, h)

  module _ {n mask write read cached_read cached_write : ℕ} {log out : List T}
      (v : Counts n mask write read cached_read cached_write log out) where
    pub first_bounds :
        (c : Receiving T)
        → ReceivingFits c read cached_write log
        → (read ≤ first_held c read) × (first_held c read ≤ write)
    first_bounds Receiving.outside f = (omega arith, v.behind)
    first_bounds Receiving.reload f = (omega arith, v.behind)
    first_bounds Receiving.take f = (omega arith, v.behind)
    first_bounds (Receiving.advance x) f = (omega arith, omega (arith, f.0, v.sees_write))
    first_bounds Receiving.broken f = absurd f

    pub last_bounds :
        (s : Sending T)
        → SendingFits s write cached_read mask
        → (write ≤ last_held s write) × (last_held s write ≤ read + n)
    last_bounds Sending.outside f = (omega arith, v.room)
    last_bounds (Sending.reload x) f = (omega arith, v.room)
    last_bounds (Sending.write x) f = (omega arith, v.room)
    last_bounds (Sending.publish x) f = (omega arith, omega (arith, f, v.sees_read, v.masked))

  pub get_elem?-written :
      (s : Sending T) (log : List T) (i : ℕ)
      → i < length log
      → get_elem? (written s log) i ≡ get_elem? log i
  get_elem?-written Sending.outside log i h = refl
  get_elem?-written (Sending.reload x) log i h = refl
  get_elem?-written (Sending.write x) log i h = refl
  get_elem?-written (Sending.publish x) log i h = get_elem?-append_left log (x ∷ []) i h

  pub receives-append :
      (c : Receiving T) (read cached : ℕ) (log ys : List T)
      → cached ≤ length log
      → ReceivingFits c read cached log
      → ReceivingFits c read cached (log ++ ys)
  receives-append Receiving.outside read cached log ys b f = tt
  receives-append Receiving.reload read cached log ys b f = tt
  receives-append Receiving.take read cached log ys b f = f
  receives-append (Receiving.advance x) read cached log ys b f =
      (f.0, get_elem?-append_left log ys read (omega (arith, f.0, b)) ∙ f.1)
  receives-append Receiving.broken read cached log ys b f = f
