-- ===== src/Graph/TxFilter/Examples.antt =====
-- The theorems about the filter of transactions, at concrete inputs.
use tx_indexer.Base.{
  ◌≡◌, ◌↔◌, refl, true, Option, none, some, List, [], ◌∷◌, ◌++◌, String, str_eq, if◌then◌else◌,
}
use tx_indexer.Base.Int.{pos}
use tx_indexer.Graph.Model.{
  Coin, Transaction, BankMsgSend, MsgCall, gno_event, msg_call, GnoEvent, Event, unknown_event,
}
use tx_indexer.Graph.Examples.{transaction_at}
use tx_indexer.Graph.TxFilter.{
  AmountInput, EventInput, filtered_event_by, filtered_gno_event_by, unless_false,
  filtered_amount_by, TransactionFilter, filtered_by_events, filtered_bank_msg_send_by, send_given,
  filtered_send_input, given, amount_given, parsed_amount_by, no_coins_selected, any_selected,
  coin_selected, between, is_empty, deref_int, deref_string, upper, filtered_msg_call_by,
  filtered_call_input, wanted, amount_excluded, args_given,
}
use tx_indexer.Graph.TxFilter.Amounts.{AmountMatches, filtered_amount_by_iff, amounts_differ}
use tx_indexer.Graph.TxFilter.Total.{filtered_by_events-none}

abbrev parsed : String → Option (List Coin)
parsed s = some (record { denom = "ugnot"; amount = pos 500 } ∷ [])

-- At least 100 ugnot.
abbrev at_least_hundred : AmountInput
at_least_hundred = record { from = some (pos 100); to = none; denomination = some "ugnot" }

filtered_amount_by_iff_example :
    (filtered_amount_by parsed "500ugnot" at_least_hundred ≡ true)
    ↔ AmountMatches at_least_hundred (record { denom = "ugnot"; amount = pos 500 } ∷ [])
filtered_amount_by_iff_example =
    filtered_amount_by_iff parsed "500ugnot" at_least_hundred
      (record { denom = "ugnot"; amount = pos 500 } ∷ []) refl

abbrev sent : BankMsgSend
sent = record { to_address = "b"; from_address = "a"; amount = "500ugnot" }

abbrev called : MsgCall
called = record {
  send = "";
  pkg_path = "p";
  max_deposit = "";
  func = "F";
  caller = "a";
  args = none;
}

abbrev parsed_or_none : String → Option (List Coin)
parsed_or_none s = if str_eq s "" then some [] else parsed s

amounts_differ_example :
    AmountMatches at_least_hundred (record { denom = "ugnot"; amount = pos 500 } ∷ [])
    × (¬ AmountMatches at_least_hundred [])
unfolding filtered_bank_msg_send_by send_given filtered_send_input given amount_given
    filtered_amount_by parsed_amount_by no_coins_selected any_selected coin_selected between
    is_empty deref_int deref_string upper filtered_msg_call_by filtered_call_input wanted
    amount_excluded args_given
amounts_differ_example =
    amounts_differ parsed_or_none sent
      (record { from_address = none; to_address = none; amount = some at_least_hundred }) called
      (record {
        caller = none;
        send = some at_least_hundred;
        pkg_path = none;
        func = none;
        args = none;
      })
      at_least_hundred (record { denom = "ugnot"; amount = pos 500 } ∷ []) [] refl refl refl refl
      refl refl

abbrev called_transaction : Transaction
called_transaction = record (transaction_at 3) {
  messages = record { value = msg_call called; type_url = "exec"; route = "vm" } ∷ [];
}

abbrev all_calls : TransactionFilter
all_calls = record {
  from_gas_wanted = none;
  to_gas_wanted = none;
  from_gas_used = none;
  to_gas_used = none;
  message =
      record {
        type_url = some "exec";
        route = none;
        bank_param = none;
        vm_param = some (record { exec = none; add_package = none; run = none });
      }
      ∷ [];
  memo = none;
  success = none;
  events = record { gno_event = some (record { kind = none; pkg_path = none; attrs = none }) } ∷ [];
}

abbrev transfer : GnoEvent
transfer = record { kind = "Transfer"; pkg_path = "p"; attrs = [] }

-- After an unknown event, a transfer, which an input for another type of GnoEvent does not match; then an
-- input for another kind of event.
abbrev other_type : EventInput
other_type = record {
  gno_event = some (record { kind = some "Other"; pkg_path = none; attrs = none });
}

abbrev unknown : List Event
unknown = unknown_event (record { value = "unlock" }) ∷ []

filtered_by_events-none_example :
    filtered_by_events
      (unknown ++ gno_event transfer ∷ [])
      (other_type ∷ record { gno_event = none } ∷ [])
    ≡ none
unfolding filtered_event_by filtered_gno_event_by unless_false given
filtered_by_events-none_example =
    filtered_by_events-none unknown transfer [] (other_type ∷ []) (record { gno_event = none }) []
      ((refl, (refl, tt)), tt) (refl, tt) refl
