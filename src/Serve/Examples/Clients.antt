-- ===== src/Serve/Examples/Clients.antt =====
-- A client of filters, at concrete inputs.
use tx_indexer.Base.{ℕ, ◌≡◌, refl, Option, none, some, List, [], ◌∷◌, String, if◌then◌else◌, arith}
use tx_indexer.Base.Dict.{find}
use tx_indexer.Base.Int.{pos}
use tx_indexer.Chain.{Tx, TxResult}
use tx_indexer.Graph.Model.{Coin}
use tx_indexer.Types.{NewBlock}
use tx_indexer.Filters.Manager.{txs}
use tx_indexer.Filters.Manager.Runs.{
  Action, block_comes, client_polls, cleanup_runs, connects, updates, run,
}
use tx_indexer.Filters.Poll.{TxFilterOption, for_txs}
use tx_indexer.Filters.Poll.Changes.{passing}
use tx_indexer.Filters.Subscriptions.{SubscriptionMap, Sent}
use tx_indexer.Serve.Handlers.{Json, Encoder, Service, generate_response_error}
use tx_indexer.Serve.Rpc.{Metadata}
use tx_indexer.Serve.Subs.{
  new_transaction_filter_handler, get_filter_changes_handler, encode_changes,
}
use tx_indexer.Serve.Subs.Clients.{new_filter-changes}

abbrev cheap : TxFilterOption
cheap = record {
  gas_used = some (record { min = none; max = some (pos 10) });
  gas_wanted = none;
  gas_limit = none;
}

abbrev tx_of : ℕ → TxResult
tx_of used = record {
  height = 1;
  index = 0;
  tx = [];
  response = record { gas_wanted = pos used; gas_used = pos used; payload = [] };
}

-- Every object is the options `cheap`.
abbrev text_json : Json String
text_json = record {
  as_string = λ v. some v;
  print = λ v. v;
  print_int = λ n. "n";
  parse_uint = λ v. none;
  parse_object = λ v. some cheap;
  of_string = λ v. v;
  of_bool = λ b. if b then "true" else "false";
  of_strings = λ texts. "texts";
}

abbrev constant_encoder : Encoder
constant_encoder = record {
  prepare_block = λ b. some "block";
  prepare_header = λ h. some "header";
  prepare_tx = λ t. some "tx";
}

abbrev fresh_id : Service → String
fresh_id s = "f"

abbrev at_five : Service → ℕ
at_five s = 5

abbrev no_fee : Tx → Option Coin
no_fee tx = none

abbrev in_order : SubscriptionMap → Sent → SubscriptionMap
in_order sm conns = sm

abbrev empty_service : Service
empty_service = record {
  manager = record { filters = []; subscriptions = [] };
  conns = record { conns = []; contexts = 0; cancelled = []; written = [] };
}

abbrev local : Metadata
local = record { remote_addr = "127.0.0.1"; web_socket_id = none }

abbrev two_results : NewBlock
two_results = record {
  block = record {
    header = record { height = 1; num_txs = 2; total_txs = 2; time = 0; chain_id = [] };
    txs = [];
  };
  results = tx_of 20 ∷ tx_of 4 ∷ [];
}

abbrev some_actions : List Action
some_actions = client_polls "g" 6 ∷ block_comes two_results ∷ cleanup_runs 3 ∷ connects "a" 1 ∷ []

new_filter-changes_example :
    let made =
      new_transaction_filter_handler text_json constant_encoder fresh_id at_five empty_service local
        ("{}" ∷ []) in
    (made.0 ≡ (some "f", none))
    × ((later : Service) × (run constant_encoder.prepare_header constant_encoder.prepare_tx no_fee
            in_order some_actions
            (made.1.manager, made.1.conns)
          ≡ some (later.manager, later.conns))
        × ((get_filter_changes_handler text_json constant_encoder fresh_id at_five later local
              ("f" ∷ [])).0
            ≡ elim (encode_changes text_json constant_encoder fresh_id at_five
                (txs (passing cheap (updates some_actions)))) [
                  | none ↦ (none, some (generate_response_error "unable to amino encode value"))
                  | some texts ↦ (some "texts", none)
                ])
        × (find "f"
              (get_filter_changes_handler text_json constant_encoder fresh_id at_five later local
                ("f" ∷ [])).1.manager.filters
            ≡ some (for_txs (record { opts = cheap; txs = []; last_used = 5 }))))
new_filter-changes_example =
    new_filter-changes text_json constant_encoder fresh_id at_five no_fee in_order empty_service
      local local "{}" "f" [] cheap some_actions refl refl (refl, (tt, (omega arith, (tt, tt))))
