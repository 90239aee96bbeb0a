-- ===== src/Filters/Examples.antt =====
-- The theorems about filters and subscriptions, at concrete inputs.
use mathlib.Core.List.{Permᴰ}
use tx_indexer.Base.{
  ℕ, ◌≡◌, ◌≢◌, ◌==◌, refl, not, Option, none, some, List, [], ◌∷◌, String, In, keep, map, arith,
  eq_iff,
}
use tx_indexer.Base.Int.{pos}
use tx_indexer.Base.Dict.{find, Unique}
use tx_indexer.Chain.{Header, Block, TxResult, Tx}
use tx_indexer.Types.{NewBlock}
use tx_indexer.Graph.Model.{Coin}
use tx_indexer.Filters.Poll.{
  TxFilterOption, new_block, new_tx, Filter, for_txs, FilterMap, get_last_used,
}
use tx_indexer.Filters.Subscriptions.{
  for_heads, for_transactions, Subscription, SubscriptionMap, Sent, get_type,
  new_transactions_event, send_event,
}
use tx_indexer.Filters.Subscriptions.Sending.{deliveries, stays}
use tx_indexer.Filters.Subscriptions.Pruned.{send_event-stays}
use tx_indexer.Filters.Subscriptions.Removed.{remove_ws_connection-send_event}
use tx_indexer.Filters.Manager.{Manager, poll, apply_new_block}
use tx_indexer.Filters.Manager.Runs.{
  Action, block_comes, client_polls, filter_removed, cleanup_runs, disconnects, range_all, run,
  updates,
}
use tx_indexer.Filters.Manager.Polls.{collected, emptied, run-poll}
use tx_indexer.Filters.Manager.Announced.{announce, announcements, apply_new_block-announce}
use tx_indexer.Serve.Conns.{Conn, remove_ws_connection, get_ws_connection}

abbrev cheap : TxFilterOption
cheap = record {
  gas_used = some (record { min = none; max = some (pos 10) });
  gas_wanted = none;
  gas_limit = none;
}

abbrev tx_of : ℕ → TxResult
tx_of used = record {
  height = 1;
  index = 0;
  tx = [];
  response = record { gas_wanted = pos used; gas_used = pos used; payload = [] };
}

abbrev sample_block : Block
sample_block = record {
  header = record { height = 5; num_txs = 2; total_txs = 2; time = 0; chain_id = [] };
  txs = (1 ∷ []) ∷ (2 ∷ []) ∷ [];
}

abbrev sample_event : NewBlock
sample_event = record { block = sample_block; results = tx_of 20 ∷ tx_of 4 ∷ [] }

abbrev header_text : Header → Option String
header_text h = some "header"

abbrev tx_text : TxResult → Option String
tx_text t = some "tx"

abbrev no_fee : Tx → Option Coin
no_fee tx = none

abbrev in_order : SubscriptionMap → Sent → SubscriptionMap
in_order sm conns = sm

same_order : (sm : SubscriptionMap) → Permᴰ sm sm
same_order [] = Permᴰ.nil
same_order (e ∷ sm) = Permᴰ.cons refl (same_order sm)

-- Two subscriptions to transactions and one to heads, on two connections.
abbrev conn_a : Conn
conn_a = record { ctx = 0; session = 10 }

abbrev conn_b : Conn
conn_b = record { ctx = 1; session = 11 }

abbrev three_subscriptions : SubscriptionMap
three_subscriptions =
    ("x", record { kind = for_transactions; conn = conn_a })
    ∷ ("y", record { kind = for_heads; conn = conn_b })
    ∷ ("z", record { kind = for_transactions; conn = conn_b })
    ∷ []

abbrev other_order : SubscriptionMap
other_order =
    ("y", record { kind = for_heads; conn = conn_b })
    ∷ ("x", record { kind = for_transactions; conn = conn_a })
    ∷ ("z", record { kind = for_transactions; conn = conn_b })
    ∷ []

abbrev two_conns : Sent
two_conns = record {
  conns = ("a", conn_a) ∷ ("b", conn_b) ∷ [];
  contexts = 2;
  cancelled = [];
  written = [];
}

three-Unique : Unique three_subscriptions
three-Unique = (
  (
    (λ q. let y = (eq_iff "y" "x").1 q in absurd (cc)),
    ((λ q. let y = (eq_iff "z" "x").1 q in absurd (cc)), tt),
  ),
  (((λ q. let y = (eq_iff "z" "y").1 q in absurd (cc)), tt), (tt, tt)),
)

send_event-stays_example :
    send_event header_text tx_text no_fee other_order new_transactions_event
      (new_tx (tx_of 4))
      three_subscriptions
      two_conns
    ≡ some (
      keep
          (stays header_text tx_text no_fee new_transactions_event (new_tx (tx_of 4)) [])
          three_subscriptions,
      record two_conns {
        written =
            deliveries header_text tx_text no_fee new_transactions_event
              (new_tx (tx_of 4))
              []
              other_order;
      },
    )
send_event-stays_example =
    send_event-stays header_text tx_text no_fee new_transactions_event (new_tx (tx_of 4))
      other_order three_subscriptions two_conns three-Unique (Permᴰ.swap refl refl)

remove_ws_connection-send_event_example :
    (sm' : SubscriptionMap) × (conns' : Sent) × (send_event header_text tx_text no_fee
        three_subscriptions new_transactions_event
        (new_tx (tx_of 4))
        three_subscriptions
        (remove_ws_connection "a" two_conns)
      ≡ some (sm', conns'))
    × ((e : String × Subscription)
        → In e sm'
        → e.1.conn.ctx ≡ 0
        → get_type e.1.kind ≢ new_transactions_event)
    × (conns'.written
        ≡ deliveries header_text tx_text no_fee new_transactions_event
            (new_tx (tx_of 4))
            (remove_ws_connection "a" two_conns).cancelled
            (keep (λ e. not (e.1.conn.ctx == 0)) three_subscriptions))
unfolding get_ws_connection find
remove_ws_connection-send_event_example =
    remove_ws_connection-send_event header_text tx_text no_fee "a" conn_a new_transactions_event
      (new_tx (tx_of 4)) three_subscriptions three_subscriptions two_conns refl three-Unique
      (same_order three_subscriptions)

abbrev held : Filter
held = for_txs (record { opts = cheap; txs = tx_of 3 ∷ []; last_used = 7 })

abbrev two_filters : FilterMap
two_filters = ("f", held) ∷ ("g", for_txs (record { opts = cheap; txs = []; last_used = 2 })) ∷ []

abbrev sample_manager : Manager
sample_manager = record { filters = two_filters; subscriptions = three_subscriptions }

abbrev some_actions : List Action
some_actions =
    block_comes sample_event
    ∷ client_polls "g" 8
    ∷ cleanup_runs 5
    ∷ disconnects "a"
    ∷ filter_removed "g"
    ∷ block_comes sample_event
    ∷ []

run-poll_example :
    (s : Manager × Sent) × (run header_text tx_text no_fee in_order some_actions
        (sample_manager, two_conns)
      ≡ some s)
    × ((poll "f" 9 s.0).0 ≡ some (collected held (updates some_actions)))
    × (find "f" (poll "f" 9 s.0).1.filters ≡ some (emptied 9 held))
unfolding find get_last_used
run-poll_example =
    run-poll header_text tx_text no_fee in_order "f" 9 some_actions sample_manager two_conns held
      refl (tt, (refl, (omega arith, (tt, (refl, (tt, tt))))))

apply_new_block-announce_example :
    apply_new_block header_text tx_text no_fee in_order sample_event (sample_manager, two_conns)
    ≡ some (
      record {
        filters =
            range_all (new_block sample_block ∷ map new_tx (tx_of 20 ∷ tx_of 4 ∷ [])) two_filters;
        subscriptions =
            (announce header_text tx_text no_fee in_order
              (announcements sample_event)
              (three_subscriptions, two_conns)).0;
      },
      (announce header_text tx_text no_fee in_order
          (announcements sample_event)
          (three_subscriptions, two_conns)).1,
    )
apply_new_block-announce_example =
    apply_new_block-announce header_text tx_text no_fee in_order (λ sm conns. same_order sm)
      sample_event two_filters three_subscriptions two_conns three-Unique
