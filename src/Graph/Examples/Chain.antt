-- ===== src/Graph/Examples/Chain.antt =====
-- The conversions of the chain's transactions and the subscriptions, at concrete inputs.
use tx_indexer.Base.{
  ℕ, ◌≡◌, refl, true, false, Option, none, some, List, [], ◌∷◌, String, All, eq_iff, str_eq,
}
use tx_indexer.Base.Int.{pos}
use tx_indexer.Chain.{TxResult}
use tx_indexer.Types.{NewBlock}
use tx_indexer.Graph.Model.{Transaction}
use tx_indexer.Graph.TxFilter.{TransactionFilter, filtered_transaction_by}
use tx_indexer.Graph.TxFilter.Total.{ValueOfType, Returns}
use tx_indexer.Graph.Conversions.{Messages, Events, is_gno, make_vm_msg_run, cast}
use tx_indexer.Graph.Conversions.Objects.{Views, HeaderText, new_transaction, get_std_tx}
use tx_indexer.Graph.Conversions.Typed.{Known, new_transaction-ValueOfType}
use tx_indexer.Graph.Subscriptions.{
  Channel, writing, ended, Ending, context_ended, event_taken, context_ends, end_noticed,
  client_receives, run, step, take_event, write_next, handle_channel, finish, Move,
}
use tx_indexer.Graph.Subscriptions.Delivery.{given, run-due}
use tx_indexer.Graph.Subscriptions.Ends.{AtSend, run-ends, run-AtSend}

-- Messages are their route and type; a bank send, a call, and a run of a package without files.
abbrev sample_messages : Messages (String × String)
sample_messages = record {
  route = λ m. m.0;
  kind = λ m. m.1;
  marshal = λ m. some m.1;
  unmarshal_send =
      λ text. some (record { from_address = "a"; to_address = "b"; amount = "5ugnot" });
  unmarshal_call = λ text. none;
  unmarshal_add = λ text. none;
  unmarshal_run = λ text. some (record {
    caller = "a";
    send = "";
    max_deposit = "";
    package_name = "main";
    package_path = "p";
    files = [];
  });
}

abbrev no_events : Events ℕ
no_events = record {
  type_of = λ e. is_gno;
  marshal_event = λ e. none;
  unmarshal_gno = λ text. none;
  unmarshal_deposit = λ text. none;
  unmarshal_unlock = λ text. none;
}

abbrev no_text : HeaderText
no_text = record {
  version = "";
  validators_hash = "";
  proposer_address_raw = "";
  next_validators_hash = "";
  last_results_hash = "";
  last_commit_hash = none;
  last_block_hash = "";
  hash = "";
  consensus_hash = "";
  chain_id = "";
  app_version = "";
  app_hash = "";
}

abbrev three_messages : List (String × String)
three_messages = ("bank", "send") ∷ ("vm", "exec") ∷ ("vm", "run") ∷ []

abbrev sample_views : Views (String × String) ℕ
sample_views = record {
  unmarshal = λ tx. (
    record {
      msgs = three_messages;
      memo = "memo";
      gas_wanted = pos 9;
      gas_fee = record { denom = "ugnot"; amount = pos 1 };
    },
    none,
  );
  hash = λ tx. "hash";
  response = λ r. record { log = ""; info = ""; error = none; payload = ""; events = [] };
  header_text = λ h. no_text;
}

abbrev sample_result : TxResult
sample_result = record {
  height = 4;
  index = 1;
  tx = 7 ∷ [];
  response = record { gas_wanted = pos 9; gas_used = pos 8; payload = [] };
}

abbrev any_run : TransactionFilter
any_run = record {
  from_gas_used = none;
  to_gas_used = none;
  from_gas_wanted = none;
  to_gas_wanted = none;
  message =
      record {
        type_url = some "run";
        route = none;
        bank_param = none;
        vm_param = some (record { exec = none; add_package = none; run = none });
      }
      ∷ [];
  memo = none;
  success = none;
  events = [];
}

differ : {P : Type 0} (a b : String) → str_eq a b ≡ false → a ≡ b → P
differ a b e h = let f = (eq_iff a b).1 h in absurd (cc)

three-Known : All (Known sample_messages) three_messages
unfolding make_vm_msg_run cast
three-Known = (
  (
    (λ h. refl),
    differ "send" "exec" refl,
    differ "send" "add_package" refl,
    differ "send" "run" refl,
    differ "send" "add_package" refl,
    differ "send" "run" refl,
  ),
  (
    (
      differ "exec" "send" refl,
      (λ h. refl),
      differ "exec" "add_package" refl,
      differ "exec" "run" refl,
      differ "exec" "add_package" refl,
      differ "exec" "run" refl,
    ),
    (
      (
        differ "run" "send" refl,
        differ "run" "exec" refl,
        differ "run" "add_package" refl,
        (λ h. refl),
        differ "run" "add_package" refl,
        (λ h. λ n. absurd (cc)),
      ),
      tt,
    ),
  ),
)

new_transaction-ValueOfType_example :
    (tx : Transaction) × (new_transaction sample_messages no_events sample_views sample_result
      ≡ some tx)
    × All ValueOfType tx.messages
    × Returns (filtered_transaction_by (λ s. none) tx any_run)
unfolding get_std_tx
new_transaction-ValueOfType_example =
    new_transaction-ValueOfType sample_messages no_events sample_views (λ s. none) sample_result
      any_run three-Known tt

-- An event is what is written.
abbrev all_events : List ℕ → Option NewBlock
all_events e = some (record {
  block = record {
    header = record { height = 1; num_txs = 0; total_txs = 0; time = 0; chain_id = [] };
    txs = [];
  };
  results = [];
})

abbrev two_written : NewBlock → List ℕ
two_written nb = 1 ∷ 2 ∷ []

abbrev at_first : Channel ℕ
at_first = record {
  phase = writing 1 (2 ∷ []);
  received = [];
  context_done = true;
  subscribed = true;
}

run-due_example :
    given all_events two_written
      (record { phase = writing 2 []; received = 1 ∷ []; context_done = true; subscribed = true })
    ≡ 1 ∷ 2 ∷ []
unfolding handle_channel run step take_event write_next
run-due_example =
    run-due all_events two_written (event_taken [] ∷ context_ends ∷ client_receives ∷ [])
      handle_channel
      (record { phase = writing 2 []; received = 1 ∷ []; context_done = true; subscribed = true })
      refl

-- The client's context ends at the first of two elements; another event is taken all the same.
abbrev two_events : List (Move (List ℕ))
two_events =
    event_taken []
    ∷ context_ends
    ∷ client_receives
    ∷ client_receives
    ∷ event_taken []
    ∷ client_receives
    ∷ client_receives
    ∷ end_noticed
    ∷ []

abbrev all_given : Channel ℕ
all_given = record {
  phase = ended context_ended;
  received = 1 ∷ 2 ∷ 1 ∷ 2 ∷ [];
  context_done = true;
  subscribed = false;
}

run-ends_example :
    ((ending : Ending) × (all_given.phase ≡ ended ending))
    × (all_given.subscribed ≡ false)
    × (all_given.received ≡ 1 ∷ 2 ∷ 1 ∷ 2 ∷ [])
unfolding handle_channel run step take_event write_next finish
run-ends_example = run-ends all_events two_written two_events all_given refl refl (refl, refl)

run-AtSend_example :
    AtSend all_events two_written 1 (2 ∷ []) (record at_first { context_done = true })
unfolding run step
run-AtSend_example =
    run-AtSend all_events two_written (context_ends ∷ context_ends ∷ []) 1 (2 ∷ []) at_first
      at_first ((λ h. absurd (cc)), ((λ h. absurd (cc)), tt)) (refl, refl) refl
