-- ===== src/Network/Exchange/Tests.antt =====
-- Runs of the model of exchange.rs.
use Prim.Native.String.{String}
use flume_rs.Base.{◌+◌, ◌≡◌, refl, List, [], ◌∷◌, ◌++◌, Option, none, some, false, length}
use flume_rs.Base.Keys.{string_eq}
use flume_rs.Base.HashMap.{get, insert}
use flume_rs.Network.Frames.{DataBatch}
use flume_rs.Network.Exchange.{Exchange, new_router, subscribe, exchange_data}
use flume_rs.Network.Exchange.Credits.{opened, arrived, credits_of, initial_for, exchange_data_lem}

abbrev batch_of : String → DataBatch
batch_of c = record {
  channel_id = c;
  payload = 1 ∷ [];
  record_count = 1;
  is_barrier = false;
  checkpoint_id = 0;
}

abbrev inbound : List (Option DataBatch)
inbound = some (batch_of "a") ∷ some (batch_of "b") ∷ some (batch_of "a") ∷ none ∷ []

abbrev start : Exchange
start = record {
  router = subscribe "a" (opened []) (new_router 16);
  seen_channels = [];
  granted = [];
}

-- A channel without a subscriber gets its initial credits and no more.
dropped : credits_of "b" (exchange_data inbound start).granted ≡ 16
unfolding exchange_data get insert
dropped = refl

start_subscribed : get "a" start.router.subscribers ≡ some (opened [])
unfolding get insert
start_subscribed = refl

exchange_data_lem_example :
    let x' = exchange_data inbound start in
    let batches = arrived "a" inbound in
    (get "a" x'.router.subscribers ≡ some (opened ([] ++ batches)))
    × (credits_of "a" x'.granted ≡ 0 + initial_for "a" start batches + length batches)
exchange_data_lem_example = exchange_data_lem "a" inbound start [] start_subscribed
