-- ===== src/Runtime/Merge/Step.antt =====
-- What every round of the merger of merge.rs keeps, over a channel that accepts all it is sent.
use mathlib.Core.List.{append-nil, append_assoc}
use flume_rs.Base.{
  ℕ, ◌≡◌, ◌<◌, ◌⊎◌, refl, ◌∙◌, List, [], ◌∷◌, ◌++◌, Bool, true, false, Option, none, some, min,
  arith,
}
use flume_rs.Core.Record.{CheckpointBarrier, StreamElement, rec, watermark, checkpoint_barrier}
use flume_rs.Core.Result.{FlumeResult, ok, for_each}
use flume_rs.Core.Collector.{recorder}
use flume_rs.Runtime.Merge.Views.{
  Output, lefts, rights, records, lefts-append, rights-append, Rises, Rises-append,
}
use flume_rs.Runtime.Merge.{
  Side, first, second, Merge, handle_element1, handle_element2, try_flush_barriers, wait_for_1,
  wait_for_2, read_1, read_2, read_open, dispatch, round, initial, tag1, tag2,
}

module _ {A B : Type 0} (all1 : List (StreamElement A)) (all2 : List (StreamElement B)) where
  -- `sent` is the output so far of a merger that began with the inputs `all1` and `all2`.
  pub record IsValid (m : Merge A B) (sent : Output A B) : Type 0 where
    pub unbuffered1 : m.buffer1 ≡ []
    pub unbuffered2 : m.buffer2 ≡ []
    pub one_waits : (m.pending_barrier_from_1 ≡ none) ⊎ (m.pending_barrier_from_2 ≡ none)
    pub open1 : (m.pending_barrier_from_1 ≡ none) ⊎ (m.input1_open ≡ true)
    pub open2 : (m.pending_barrier_from_2 ≡ none) ⊎ (m.input2_open ≡ true)
    pub drained1 : (m.input1_open ≡ true) ⊎ (m.input1 ≡ [])
    pub drained2 : (m.input2_open ≡ true) ⊎ (m.input2 ≡ [])
    pub records1 : lefts sent ++ records m.input1 ≡ records all1
    pub records2 : rights sent ++ records m.input2 ≡ records all2
    pub rises : Rises 0 sent m.last_forwarded_watermark

  abbrev pub Keeps : FlumeResult (Unit {0}) × (Merge A B × Output A B) → Type 0
  Keeps r = (r.0 ≡ ok tt) × IsValid r.1.0 r.1.1

  -- A rising watermark joins the output.
  sends_watermark :
      (m : Merge A B) (sent : Output A B) (t : ℕ)
      → IsValid m sent
      → let sent' = sent ++ watermark (record { timestamp = t }) ∷ [] in
        (lefts sent' ≡ lefts sent)
        × (rights sent' ≡ rights sent)
        × (m.last_forwarded_watermark < t → Rises 0 sent' t)
  sends_watermark m sent t v = (
    lefts-append sent _ ∙ append-nil (lefts sent),
    rights-append sent _ ∙ append-nil (rights sent),
    λ h. Rises-append 0 m.last_forwarded_watermark t sent _ v.rises (h, refl),
  )

  -- So does a barrier.
  sends_barrier :
      (m : Merge A B) (sent : Output A B) (b : CheckpointBarrier)
      → IsValid m sent
      → let sent' = sent ++ checkpoint_barrier b ∷ [] in
        (lefts sent' ≡ lefts sent)
        × (rights sent' ≡ rights sent)
        × Rises 0 sent' m.last_forwarded_watermark
  sends_barrier m sent b v = (
    lefts-append sent _ ∙ append-nil (lefts sent),
    rights-append sent _ ∙ append-nil (rights sent),
    Rises-append 0 m.last_forwarded_watermark m.last_forwarded_watermark sent _ v.rises refl,
  )

  read_1-Keeps :
      (m : Merge A B) (sent : Output A B) (xs : List (StreamElement A))
      → m.input1 ≡ xs
      → IsValid m sent
      → m.pending_barrier_from_1 ≡ none
      → m.pending_barrier_from_2 ≡ none
      → m.input1_open ≡ true
      → Keeps (read_1 recorder (m, sent))
  unfolding read_1 handle_element1
  read_1-Keeps m sent [] e v p q o = ground arith
  read_1-Keeps m sent (rec r ∷ xs) e v p q o = ground (
    arith,
    lefts-append sent (tag1 r ∷ []),
    rights-append sent (tag1 r ∷ []),
    append_assoc (lefts sent) (r ∷ []) (records xs),
    append-nil (rights sent),
    Rises-append 0 m.last_forwarded_watermark m.last_forwarded_watermark sent (tag1 r ∷ []) v.rises
        refl,
  )
  read_1-Keeps m sent (watermark w ∷ xs) e v p q o =
      ground (arith, sends_watermark m sent (min w.timestamp m.watermark2) v)
  read_1-Keeps m sent (checkpoint_barrier b ∷ xs) e v p q o = ground arith

  read_2-Keeps :
      (m : Merge A B) (sent : Output A B) (xs : List (StreamElement B))
      → m.input2 ≡ xs
      → IsValid m sent
      → m.pending_barrier_from_1 ≡ none
      → m.pending_barrier_from_2 ≡ none
      → m.input2_open ≡ true
      → Keeps (read_2 recorder (m, sent))
  unfolding read_2 handle_element2
  read_2-Keeps m sent [] e v p q o = ground arith
  read_2-Keeps m sent (rec r ∷ xs) e v p q o = ground (
    arith,
    lefts-append sent (tag2 r ∷ []),
    rights-append sent (tag2 r ∷ []),
    append_assoc (rights sent) (r ∷ []) (records xs),
    append-nil (lefts sent),
    Rises-append 0 m.last_forwarded_watermark m.last_forwarded_watermark sent (tag2 r ∷ []) v.rises
        refl,
  )
  read_2-Keeps m sent (watermark w ∷ xs) e v p q o =
      ground (arith, sends_watermark m sent (min m.watermark1 w.timestamp) v)
  read_2-Keeps m sent (checkpoint_barrier b ∷ xs) e v p q o = ground arith

  wait_for_1-Keeps :
      (m : Merge A B) (sent : Output A B) (xs : List (StreamElement A)) (b : CheckpointBarrier)
      → m.input1 ≡ xs
      → IsValid m sent
      → m.pending_barrier_from_2 ≡ some b
      → m.pending_barrier_from_1 ≡ none
      → Keeps (wait_for_1 recorder (m, sent))
  unfolding wait_for_1 handle_element1 try_flush_barriers for_each
  wait_for_1-Keeps m sent [] b e v p q = ground (arith, sends_barrier m sent b v)
  wait_for_1-Keeps m sent (rec r ∷ xs) b e v p q = ground (
    arith,
    lefts-append sent (tag1 r ∷ []),
    rights-append sent (tag1 r ∷ []),
    append_assoc (lefts sent) (r ∷ []) (records xs),
    append-nil (rights sent),
    Rises-append 0 m.last_forwarded_watermark m.last_forwarded_watermark sent (tag1 r ∷ []) v.rises
        refl,
  )
  wait_for_1-Keeps m sent (watermark w ∷ xs) b e v p q =
      ground (arith, sends_watermark m sent (min w.timestamp m.watermark2) v)
  wait_for_1-Keeps m sent (checkpoint_barrier c ∷ xs) b e v p q =
      ground (arith, sends_barrier m sent c v)

  wait_for_2-Keeps :
      (m : Merge A B) (sent : Output A B) (xs : List (StreamElement B)) (b : CheckpointBarrier)
      → m.input2 ≡ xs
      → IsValid m sent
      → m.pending_barrier_from_1 ≡ some b
      → m.pending_barrier_from_2 ≡ none
      → Keeps (wait_for_2 recorder (m, sent))
  unfolding wait_for_2 handle_element2 try_flush_barriers for_each
  wait_for_2-Keeps m sent [] b e v p q = ground (arith, sends_barrier m sent b v)
  wait_for_2-Keeps m sent (rec r ∷ xs) b e v p q = ground (
    arith,
    lefts-append sent (tag2 r ∷ []),
    rights-append sent (tag2 r ∷ []),
    append_assoc (rights sent) (r ∷ []) (records xs),
    append-nil (lefts sent),
    Rises-append 0 m.last_forwarded_watermark m.last_forwarded_watermark sent (tag2 r ∷ []) v.rises
        refl,
  )
  wait_for_2-Keeps m sent (watermark w ∷ xs) b e v p q =
      ground (arith, sends_watermark m sent (min m.watermark1 w.timestamp) v)
  wait_for_2-Keeps m sent (checkpoint_barrier c ∷ xs) b e v p q =
      ground (arith, sends_barrier m sent b v)

  read_open-Keeps :
      (choice : Side) (m : Merge A B) (sent : Output A B) (o1 o2 : Bool)
      → m.input1_open ≡ o1
      → m.input2_open ≡ o2
      → IsValid m sent
      → m.pending_barrier_from_1 ≡ none
      → m.pending_barrier_from_2 ≡ none
      → Keeps (read_open recorder choice o1 o2 (m, sent))
  read_open-Keeps first m sent true true d e v p q = read_1-Keeps m sent m.input1 refl v p q d
  read_open-Keeps second m sent true true d e v p q = read_2-Keeps m sent m.input2 refl v p q e
  read_open-Keeps choice m sent true false d e v p q = read_1-Keeps m sent m.input1 refl v p q d
  read_open-Keeps choice m sent false true d e v p q = read_2-Keeps m sent m.input2 refl v p q e
  read_open-Keeps choice m sent false false d e v p q = (refl, v)

  dispatch-Keeps :
      (choice : Side) (m : Merge A B) (sent : Output A B) (p1 p2 : Option CheckpointBarrier)
      → m.pending_barrier_from_1 ≡ p1
      → m.pending_barrier_from_2 ≡ p2
      → IsValid m sent
      → Keeps (dispatch recorder choice p1 p2 (m, sent))
  dispatch-Keeps choice m sent none none p q v =
      read_open-Keeps choice m sent m.input1_open m.input2_open refl refl v p q
  dispatch-Keeps choice m sent none (some b) p q v = wait_for_1-Keeps m sent m.input1 b refl v q p
  dispatch-Keeps choice m sent (some b) none p q v = wait_for_2-Keeps m sent m.input2 b refl v p q
  dispatch-Keeps choice m sent (some b) (some c) p q v = absurd (ground (arith, v.one_waits))

  pub round-Keeps :
      (choice : Side) (m : Merge A B) (sent : Output A B)
      → IsValid m sent
      → Keeps (round recorder choice (m, sent))
  unfolding round
  round-Keeps choice m sent v =
      dispatch-Keeps choice m sent m.pending_barrier_from_1 m.pending_barrier_from_2 refl refl v

  pub initial-IsValid : IsValid (initial all1 all2) []
  initial-IsValid = ground arith
