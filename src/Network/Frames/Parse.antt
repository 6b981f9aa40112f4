-- ===== src/Network/Frames/Parse.antt =====
-- Frames of crates/flume-network/src/network_collector.rs, read by network_input.rs.
use flume_rs.Base.{
  ℕ, zero, suc, ◌/◌, ◌%◌, ◌^◌, ◌≤◌, ◌<◌, ◌≡◌, refl, sym, ap, subst, ◌∙◌, List, [], ◌∷◌, ◌++◌,
  flat_map, Option, none, some, Bool, length, length-append, take, drop, take-length_append,
  drop-length_append, All, ltb, le→ltb, if◌then◌else◌, arith, Bool-cases, inl, inr,
}
use flume_rs.Core.Record.{Bytes, StreamElement}
use flume_rs.State.Codec.{Codec}
use flume_rs.Network.Frames.{
  DataBatch, NetworkInput, from_le_bytes, frame, decoded, parse, recv_from, recv, received_barrier,
}

le_bytes :
    (n : ℕ)
    → n < 2 ^ 32
    → from_le_bytes (n % 256) (n / 256 % 256) (n / 65536 % 256) (n / 16777216 % 256) ≡ n
le_bytes n h = omega arith

module _ {T : Type 0} (bitcode : Codec (StreamElement T)) where
  -- The codec writes the element in fewer than 2 ^ 32 bytes and reads it back.
  abbrev pub Faithful : StreamElement T → Type 0
  Faithful x =
      (bytes : Bytes) × (bitcode.serialize x ≡ some bytes)
      × (length bytes < 2 ^ 32)
      × (bitcode.deserialize bytes ≡ some x)

  abbrev pub written : Option Bytes → Bytes
  written none = []
  written (some bytes) = frame bytes

  -- The elements one after another, each in its frame.
  abbrev pub frames : List (StreamElement T) → Bytes
  frames xs = flat_map (λ x. written (bitcode.serialize x)) xs

  parse-frame :
      (fuel : ℕ) (bytes rest : Bytes)
      → length bytes < 2 ^ 32
      → parse bitcode (suc fuel) (frame bytes ++ rest)
        ≡ decoded bitcode bytes ++ parse bitcode fuel rest
  unfolding parse
  parse-frame fuel bytes rest h =
      ap after (ap word (omega arith) ∙ le_bytes (length bytes) h)
      ∙ rw
          (le→ltb (length (bytes ++ rest)) (length bytes) (omega (arith, length-append bytes rest)))
          refl
      ∙ ap (λ x. decoded bitcode x ++ parse bitcode fuel (drop (length bytes) (bytes ++ rest)))
          (take-length_append bytes rest)
      ∙ ap (λ x. decoded bitcode bytes ++ parse bitcode fuel x) (drop-length_append bytes rest)
    where
      word : ℕ → ℕ
      word n = from_le_bytes (n % 256) (n / 256 % 256) (n / 65536 % 256) (n / 16777216 % 256)

      after : ℕ → List (StreamElement T)
      after n =
          if ltb (length (bytes ++ rest)) n
          then []
          else decoded bitcode (take n (bytes ++ rest))
            ++ parse bitcode fuel (drop n (bytes ++ rest))

  length-frames : (xs : List (StreamElement T)) → All Faithful xs → length xs ≤ length (frames xs)
  length-frames [] a = omega arith
  length-frames (x ∷ xs) a =
      let (bytes, e, _, _) = a.0 in
      omega (
        arith,
        length-frames xs a.1,
        ap (λ o. length (written o ++ frames xs)) e,
        length-append bytes (frames xs),
      )

  parse-frames :
      (fuel : ℕ) (xs : List (StreamElement T))
      → All Faithful xs
      → length xs ≤ fuel
      → parse bitcode fuel (frames xs) ≡ xs
  unfolding parse
  parse-frames zero [] a h = refl
  parse-frames (suc fuel) [] a h = refl
  parse-frames zero (x ∷ xs) a h = absurd (omega (arith, h))
  parse-frames (suc fuel) (x ∷ xs) a h =
      let (bytes, e, small, back) = a.0 in
      ap (λ o. parse bitcode (suc fuel) (written o ++ frames xs)) e
      ∙ parse-frame fuel bytes (frames xs) small
      ∙ ap (λ o. elim o [ none ↦ [] | some y ↦ y ∷ [] ] ++ parse bitcode fuel (frames xs)) back
      ∙ ap (◌∷◌ x) (parse-frames fuel xs a.1 (omega (arith, h)))

  -- A payload of frames is read as the elements that were written.
  pub parse_payload :
      (xs : List (StreamElement T))
      → All Faithful xs
      → parse bitcode (length (frames xs)) (frames xs) ≡ xs
  parse_payload xs a = parse-frames (length (frames xs)) xs a (length-frames xs a)

  -- What a batch brings.
  abbrev pub elements_of : DataBatch → List (StreamElement T)
  elements_of batch =
      if batch.is_barrier
      then received_barrier batch.checkpoint_id ∷ []
      else parse bitcode (length batch.payload) batch.payload

  -- What the input will still give.
  abbrev pub view : NetworkInput T → List (StreamElement T)
  view input = input.element_buffer ++ flat_map elements_of input.batch_rx

  -- `recv` takes the first element of the view.
  abbrev pub Takes : List (StreamElement T) → Option (StreamElement T) × NetworkInput T → Type 0
  Takes [] (r, input) = (r ≡ none) × (view input ≡ [])
  Takes (x ∷ xs) (r, input) = (r ≡ some x) × (view input ≡ xs)

  recv-Takes :
      (batches : List DataBatch) (elements : List (StreamElement T))
      → Takes (elements ++ flat_map elements_of batches) (recv_from bitcode elements batches)
  unfolding recv_from
  recv-Takes batches (x ∷ elements) = (refl, refl)
  recv-Takes [] [] = (refl, refl)
  recv-Takes (batch ∷ batches) [] = elim (Bool-cases batch.is_barrier) [
    | inl q ↦
        subst (λ b. Takes (by b ++ flat_map elements_of batches) (next b)) (sym q) (refl, refl)
    | inr q ↦
        subst (λ b. Takes (by b ++ flat_map elements_of batches) (next b)) (sym q)
          (recv-Takes batches (parse bitcode (length batch.payload) batch.payload))
  ]
    where
      by : Bool → List (StreamElement T)
      by b =
          if b
          then received_barrier batch.checkpoint_id ∷ []
          else parse bitcode (length batch.payload) batch.payload

      next : Bool → Option (StreamElement T) × NetworkInput T
      next b =
          if b
          then (
            some (received_barrier batch.checkpoint_id),
            record { batch_rx = batches; element_buffer = [] },
          )
          else recv_from bitcode (parse bitcode (length batch.payload) batch.payload) batches

  -- The elements that `n` calls of `recv` give.
  abbrev received :
      (NetworkInput T → List (StreamElement T))
      → Option (StreamElement T) × NetworkInput T
      → List (StreamElement T)
  received more (none, input) = []
  received more (some x, input) = x ∷ more input

  abbrev pub receive : ℕ → NetworkInput T → List (StreamElement T)
  receive zero input = []
  receive (suc n) input = received (receive n) (recv bitcode input)

  received-Takes :
      (n : ℕ) (xs : List (StreamElement T)) (s : Option (StreamElement T) × NetworkInput T)
      → Takes xs s
      → ((input : NetworkInput T) → length (view input) < n → receive n input ≡ view input)
      → length xs ≤ n
      → received (receive n) s ≡ xs
  received-Takes n [] (r, input) t ih h = ap (λ o. received (receive n) (o, input)) t.0
  received-Takes n (x ∷ xs) (r, input) t ih h =
      ap (λ o. received (receive n) (o, input)) t.0
      ∙ ap (◌∷◌ x) (ih input (omega (arith, h, ap length t.1)) ∙ t.1)

  -- Enough calls of `recv` give the whole view.
  pub receive-view :
      (n : ℕ) (input : NetworkInput T) → length (view input) < n → receive n input ≡ view input
  receive-view zero input h = elim h [ ]
  receive-view (suc n) input h =
      received-Takes n (view input) (recv bitcode input)
        (recv-Takes input.batch_rx input.element_buffer) (receive-view n) (omega (arith, h))
