-- ===== src/Runtime/Merge/Total.antt =====
-- A whole run of merge.rs.
use mathlib.Core.List.{append-nil}
use flume_rs.Base.{
  ◌+◌, ◌*◌, ◌≤◌, ◌≡◌, refl, List, [], ◌∷◌, true, length, Bool-cases, inl, inr, arith,
}
use flume_rs.Core.Record.{StreamElement}
use flume_rs.Core.Result.{ok, after_ok}
use flume_rs.Core.Collector.{recorder}
use flume_rs.Runtime.Merge.Views.{Output, lefts, rights, records, Rises}
use flume_rs.Runtime.Merge.Step.{IsValid, round-Keeps, initial-IsValid}
use flume_rs.Runtime.Merge.Falls.{work, round-falls}
use flume_rs.Runtime.Merge.{Side, Merge, round, is_done, initial, two_input_merge}

module _ {A B : Type 0} (all1 : List (StreamElement A)) (all2 : List (StreamElement B)) where
  pub run-IsValid :
      (choices : List Side) (m : Merge A B) (sent : Output A B)
      → IsValid all1 all2 m sent
      → work m ≤ length choices
      → let r = two_input_merge recorder choices (m, sent) in
        (r.0 ≡ ok true) × (is_done r.1.0 ≡ true) × IsValid all1 all2 r.1.0 r.1.1
  unfolding two_input_merge
  run-IsValid [] m sent v h = ground arith
  run-IsValid (choice ∷ choices) m sent v h = elim (Bool-cases (is_done m)) [
    | inl e ↦ rw e (refl, e, v)
    | inr e ↦
        let k = round-Keeps all1 all2 choice m sent v in
        let f = round-falls all1 all2 choice m sent v e in
        rw
          (
            e,
            after_ok (round recorder choice (m, sent)) tt (λ _. two_input_merge recorder choices)
                k.0,
          )
          (run-IsValid choices (round recorder choice (m, sent)).1.0
            (round recorder choice (m, sent)).1.1 k.1 (omega arith))
  ]

  -- Whatever the schedule, if it has two choices for every element and one for each input, the
  -- merger of two finite inputs ends without an error on a channel that accepts all it is sent. It
  -- has then sent every record of each input once, in the order of that input, and no other
  -- record; and the watermarks that it sent rise strictly.
  pub two_input_merge_total :
      (choices : List Side)
      → 2 * length all1 + 2 * length all2 + 2 ≤ length choices
      → let r = two_input_merge recorder choices (initial all1 all2, []) in
        (r.0 ≡ ok true)
        × (lefts r.1.1 ≡ records all1)
        × (rights r.1.1 ≡ records all2)
        × Rises 0 r.1.1 r.1.0.last_forwarded_watermark
  two_input_merge_total choices h =
      let k =
        run-IsValid choices (initial all1 all2) [] (initial-IsValid all1 all2) (omega arith) in
      ground (
        arith,
        k,
        append-nil (lefts (two_input_merge recorder choices (initial all1 all2, [])).1.1),
        append-nil (rights (two_input_merge recorder choices (initial all1 all2, [])).1.1),
      )
