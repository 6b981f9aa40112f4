-- ===== src/Network/Exchange.antt =====
-- crates/flume-network/src/exchange.rs: the batches that arrive go to the subscriber of their channel,
-- and credits go back. A subscriber is the list of what it has been sent; a send waits for capacity
-- and fails exactly if the receiver is gone. A stream is the list of what it delivers.
pub mod Credits
mod Tests
use Prim.Native.String.{String}
use flume_rs.Base.{ℕ, List, [], ◌∷◌, ◌++◌, Option, none, some, Bool, true, false, if◌then◌else◌}
use flume_rs.Base.Keys.{string_eq}
use flume_rs.Base.HashMap.{HashMap, get, insert, remove, contains_key}
use flume_rs.Network.Frames.{DataBatch}

pub record CreditGrant : Type 0 where
  pub channel_id : String
  pub credits : ℕ

pub record BatchSender : Type 0 where
  pub is_open : Bool
  pub sent : List DataBatch

pub record ExchangeRouter : Type 0 where
  pub subscribers : HashMap String BatchSender
  pub initial_credits : ℕ

abbrev pub new_router : ℕ → ExchangeRouter
new_router initial_credits = record { subscribers = []; initial_credits = initial_credits }

abbrev pub subscribe : String → BatchSender → ExchangeRouter → ExchangeRouter
subscribe channel_id sender router = record router {
  subscribers = insert channel_id sender router.subscribers;
}

abbrev pub unsubscribe : String → ExchangeRouter → ExchangeRouter
unsubscribe channel_id router = record router { subscribers = remove channel_id router.subscribers }

abbrev pub send_to :
    DataBatch → ExchangeRouter → Option BatchSender → Option String × ExchangeRouter
send_to batch router none = (none, router)
send_to batch router (some tx) =
    if tx.is_open
    then (
      some batch.channel_id,
      subscribe batch.channel_id (record tx { sent = tx.sent ++ batch ∷ [] }) router,
    )
    else (none, router)

abbrev pub route : DataBatch → ExchangeRouter → Option String × ExchangeRouter
route batch router = send_to batch router (get batch.channel_id router.subscribers)

-- The local variables of the task, and what it has sent into `credit_tx`.
pub record Exchange : Type 0 where
  pub router : ExchangeRouter
  pub seen_channels : HashMap String Bool
  pub granted : List CreditGrant

abbrev pub grant : String → ℕ → Exchange → Exchange
grant channel_id credits x = record x {
  granted = x.granted ++ record { channel_id = channel_id; credits = credits } ∷ [];
}

abbrev pub greet : String → Exchange → Exchange
greet channel_id x =
    if contains_key channel_id x.seen_channels
    then x
    else grant channel_id x.router.initial_credits
        (record x { seen_channels = insert channel_id true x.seen_channels })

abbrev pub after_route : String → Exchange → Option String × ExchangeRouter → Exchange
after_route channel_id x (none, router) = record x { router = router }
after_route channel_id x (some c, router) = grant channel_id 1 (record x { router = router })

abbrev pub on_batch : DataBatch → Exchange → Exchange
on_batch batch x =
    let greeted = greet batch.channel_id x in
    after_route batch.channel_id greeted (route batch greeted.router)

-- `none` is an error of the stream.
unfoldable pub exchange_data : List (Option DataBatch) → Exchange → Exchange
exchange_data [] x = x
exchange_data (none ∷ inbound) x = x
exchange_data (some batch ∷ inbound) x = exchange_data inbound (on_batch batch x)
