-- ===== src/Network/Exchange/Credits.antt =====
-- The credits and the batches of one channel in exchange.rs.
use Prim.Native.String.{String}
use mathlib.Core.List.{append_assoc, append-nil}
use flume_rs.Base.{
  ℕ, ◌+◌, ◌≡◌, refl, ap, subst, sym, ◌∙◌, inl, inr, List, [], ◌∷◌, ◌++◌, ◌==◌, Option, none, some,
  Bool, true, false, if◌then◌else◌, length, arith, Bool-cases, Option-cases,
}
use flume_rs.Base.Keys.{string_eq}
use flume_rs.Base.HashMap.{get, contains_key, get-insert}
use flume_rs.Network.Frames.{DataBatch}
use flume_rs.Network.Exchange.{
  CreditGrant, BatchSender, Exchange, greet, after_route, on_batch, route, exchange_data,
}

-- The batches of the channel that arrive before an error of the stream.
abbrev pub arrived : String → List (Option DataBatch) → List DataBatch
arrived c [] = []
arrived c (none ∷ inbound) = []
arrived c (some b ∷ inbound) =
    if b.channel_id == c then b ∷ arrived c inbound else arrived c inbound

abbrev pub credits_of : String → List CreditGrant → ℕ
credits_of c [] = 0
credits_of c (g ∷ gs) = (if g.channel_id == c then g.credits else 0) + credits_of c gs

credits_of-append :
    (c : String) (gs : List CreditGrant) (g : CreditGrant)
    → credits_of c (gs ++ g ∷ []) ≡ credits_of c gs + (if g.channel_id == c then g.credits else 0)
credits_of-append c [] g = omega arith
credits_of-append c (h ∷ gs) g = omega (arith, credits_of-append c gs g)

-- The first batch of a channel brings the initial credits.
abbrev pub initial_for : String → Exchange → List DataBatch → ℕ
initial_for c x [] = 0
initial_for c x (b ∷ bs) = if contains_key c x.seen_channels then 0 else x.router.initial_credits

abbrev pub opened : List DataBatch → BatchSender
opened sent = record { is_open = true; sent = sent }

abbrev once : Bool → ℕ → ℕ
once seen n = if seen then 0 else n

greet_lem :
    (c i : String) (x : Exchange)
    → let x' = greet i x in
      (x'.router ≡ x.router)
      × (contains_key c x'.seen_channels
          ≡ (if i == c then true else contains_key c x.seen_channels))
      × (credits_of c x'.granted
          ≡ credits_of c x.granted
            + (if i == c
                then once (contains_key c x.seen_channels) x.router.initial_credits
                else 0))
greet_lem c i x = elim (Bool-cases (contains_key i x.seen_channels)) [
  | inl s ↦
      rw (s, greet)
        (
          refl,
          elim (Bool-cases (i == c)) [
            | inl q ↦ rw q (
                subst (λ j. contains_key j x.seen_channels ≡ true) ((string_eq.equals_iff i c).0 q)
                  s)
            | inr q ↦ rw q refl
          ],
          elim (Bool-cases (i == c)) [
            | inl q ↦
                rw
                  (
                    q,
                    subst (λ j. contains_key j x.seen_channels ≡ true)
                        ((string_eq.equals_iff i c).0 q) s,
                  )
                  (omega arith)
            | inr q ↦ rw q (omega arith)
          ],
        )
  | inr s ↦
      rw (s, greet)
        (
          refl,
          elim (Bool-cases (i == c)) [
            | inl q ↦ ground (arith, get-insert i c true x.seen_channels)
            | inr q ↦ ground (arith, get-insert i c true x.seen_channels)
          ],
          elim (Bool-cases (i == c)) [
            | inl q ↦
                rw
                  (
                    credits_of-append c x.granted
                        (record { channel_id = i; credits = x.router.initial_credits }),
                    q,
                    subst (λ j. contains_key j x.seen_channels ≡ false)
                        ((string_eq.equals_iff i c).0 q) s,
                  )
                  refl
            | inr q ↦
                rw
                  (
                    credits_of-append c x.granted
                        (record { channel_id = i; credits = x.router.initial_credits }),
                    q,
                  )
                  refl
          ],
        )
]

greet_own :
    (c i : String) (x : Exchange)
    → (i == c) ≡ true
    → credits_of c (greet i x).granted
      ≡ credits_of c x.granted + once (contains_key c x.seen_channels) x.router.initial_credits
greet_own c i x q = (greet_lem c i x).2 ∙ rw q refl

greet_other :
    (c i : String) (x : Exchange)
    → (i == c) ≡ false
    → credits_of c (greet i x).granted ≡ credits_of c x.granted
greet_other c i x q = (greet_lem c i x).2 ∙ rw q (omega arith)

abbrev deliver : Exchange → DataBatch → Exchange
deliver x b = after_route b.channel_id x (route b x.router)

deliver_other :
    (c : String) (b : DataBatch) (x : Exchange)
    → (b.channel_id == c) ≡ false
    → let x' = deliver x b in
      (get c x'.router.subscribers ≡ get c x.router.subscribers)
      × (x'.seen_channels ≡ x.seen_channels)
      × (credits_of c x'.granted ≡ credits_of c x.granted)
      × (x'.router.initial_credits ≡ x.router.initial_credits)
deliver_other c b x q = elim (Option-cases (get b.channel_id x.router.subscribers)) [
  | inl e ↦ rw (e, deliver, route) (refl, refl, refl, refl)
  | inr (tx, e) ↦ elim (Bool-cases tx.is_open) [
    | inl o ↦
        rw (e, deliver, route, o)
          (
            get-insert b.channel_id c (opened (tx.sent ++ b ∷ [])) x.router.subscribers ∙ rw q refl,
            refl,
            credits_of-append c x.granted (record { channel_id = b.channel_id; credits = 1 })
                ∙ rw q (omega arith),
            refl,
          )
    | inr o ↦ rw (e, deliver, route, o) (refl, refl, refl, refl)
  ]
]

deliver_own :
    (c : String) (b : DataBatch) (x : Exchange) (sent : List DataBatch)
    → (b.channel_id == c) ≡ true
    → get c x.router.subscribers ≡ some (opened sent)
    → let x' = deliver x b in
      (get c x'.router.subscribers ≡ some (opened (sent ++ b ∷ [])))
      × (x'.seen_channels ≡ x.seen_channels)
      × (credits_of c x'.granted ≡ credits_of c x.granted + 1)
      × (x'.router.initial_credits ≡ x.router.initial_credits)
deliver_own c b x sent q e =
    let k =
      subst (λ j. get j x.router.subscribers ≡ some (opened sent))
        (sym ((string_eq.equals_iff b.channel_id c).0 q)) e in
    rw (k, deliver, route)
      (
        get-insert b.channel_id c (opened (sent ++ b ∷ [])) x.router.subscribers ∙ rw q refl,
        refl,
        credits_of-append c x.granted (record { channel_id = b.channel_id; credits = 1 })
            ∙ rw q refl,
        refl,
      )

seen_once :
    (c : String) (x : Exchange) (bs : List DataBatch)
    → contains_key c x.seen_channels ≡ true
    → initial_for c x bs ≡ 0
seen_once c x [] h = refl
seen_once c x (b ∷ bs) h = rw h refl

same_initial :
    (c : String) (x x' : Exchange) (bs : List DataBatch)
    → contains_key c x'.seen_channels ≡ contains_key c x.seen_channels
    → x'.router.initial_credits ≡ x.router.initial_credits
    → initial_for c x' bs ≡ initial_for c x bs
same_initial c x x' [] h k = refl
same_initial c x x' (b ∷ bs) h k = rw (h, k) refl

-- A stream of batches reaches a channel whose subscriber is open. The subscriber is sent the batches of
-- the channel that arrive before the first error of the stream, in their order, and no other batch.
-- The credits granted to the channel are one for each of these batches, and the initial credits once,
-- with the first batch, unless the channel was seen before.
pub exchange_data_lem :
    (c : String) (inbound : List (Option DataBatch)) (x : Exchange) (sent : List DataBatch)
    → get c x.router.subscribers ≡ some (opened sent)
    → let x' = exchange_data inbound x in
      let batches = arrived c inbound in
      (get c x'.router.subscribers ≡ some (opened (sent ++ batches)))
      × (credits_of c x'.granted
          ≡ credits_of c x.granted + initial_for c x batches + length batches)
unfolding exchange_data
exchange_data_lem c [] x sent e =
    (e ∙ ap (λ l. some (opened l)) (sym (append-nil sent)), omega arith)
exchange_data_lem c (none ∷ inbound) x sent e =
    (e ∙ ap (λ l. some (opened l)) (sym (append-nil sent)), omega arith)
exchange_data_lem c (some b ∷ inbound) x sent e =
    let g = greet_lem c b.channel_id x in
    let y = greet b.channel_id x in
    let e' = ap (λ r. get c r.subscribers) g.0 ∙ e in
    let n = ap (λ r. r.initial_credits) g.0 in
    elim (Bool-cases (b.channel_id == c)) [
      | inl q ↦
          let d = deliver_own c b y sent q e' in
          let k = exchange_data_lem c inbound (on_batch b x) (sent ++ b ∷ []) d.0 in
          let s =
            seen_once c (on_batch b x) (arrived c inbound)
              (ap (contains_key c) d.1 ∙ g.1 ∙ rw q refl) in
          let m = greet_own c b.channel_id x q in
          rw q (
            k.0 ∙ ap (λ l. some (opened l)) (append_assoc sent (b ∷ []) (arrived c inbound)),
            omega (arith, k.1, s, d.2, m),
          )
      | inr q ↦
          let d = deliver_other c b y q in
          let k = exchange_data_lem c inbound (on_batch b x) sent (d.0 ∙ e') in
          let s =
            same_initial c x (on_batch b x) (arrived c inbound)
              (ap (contains_key c) d.1 ∙ g.1 ∙ rw q refl) (d.3 ∙ n) in
          let m = greet_other c b.channel_id x q in rw q (k.0, omega (arith, k.1, s, d.2, m))
    ]
