-- ===== src/Graph/TxFilter.antt =====
-- The filters of the queries transactions and blocks: serve/graph/transaction_filter.go and
-- serve/graph/block_filter.go. `none` is a panic: a nil pointer or a failed type assertion.
-- std.ParseCoins is a parameter. Of the event inputs only the pointer to a GnoEvent's is read.
mod Inputs
pub mod Amounts
pub mod Total
pub mod Examples
pub use Inputs.*
use tx_indexer.Base.{
  ℕ, ◌-◌, ◌^◌, Bool, true, false, ◌&&◌, ◌||◌, not, Option, none, some, List, [], ◌∷◌, if◌then◌else◌,
  String, str_eq, is_some, leb, ltb,
}
use tx_indexer.Base.Int.{ℤ, pos, leb_ℤ, eqb_ℤ}
use tx_indexer.Graph.Model.{
  Coin, BankMsgSend, MemPackage, MsgCall, MsgAddPackage, MsgRun, MessageValue, bank_msg_send,
  msg_call, msg_add_package, msg_run, unexpected_message, TransactionMessage, GnoEventAttribute,
  GnoEvent, Event, gno_event, storage_deposit_event, storage_unlock_event, unknown_event, Block,
  Transaction,
}

pub deref_int : Option ℤ → ℤ
deref_int none = pos 0
deref_int (some n) = n

pub deref_string : Option String → String
deref_string none = ""
deref_string (some s) = s

-- A condition is checked if it is given.
pub given : Option String → String → Bool
given none s = true
given (some x) s = str_eq x s

-- An upper bound 0 stands for math.MaxInt.
pub upper : Option ℤ → ℤ
upper to = if eqb_ℤ (deref_int to) (pos 0) then pos (2 ^ 63 - 1) else deref_int to

pub between : Option ℤ → Option ℤ → ℤ → Bool
between from to n = leb_ℤ (deref_int from) n && leb_ℤ n (upper to)

pub is_empty : {A : Type 0} → List A → Bool
is_empty [] = true
is_empty (x ∷ xs) = false

-- A loop that returns true at the first element that passes.
pub first : {A : Type 0} → (A → Option Bool) → List A → Option Bool
first f [] = some false
first f (x ∷ xs) = elim (f x) [ none ↦ none | some true ↦ some true | some false ↦ first f xs ]

-- An early return of false.
pub unless_false : Option Bool → Option Bool → Option Bool
unless_false none rest = none
unless_false (some true) rest = rest
unless_false (some false) rest = some false

-- Two loops, one in the other.
pub first_pair : {A C : Type 0} → (A → C → Option Bool) → List A → List C → Option Bool
first_pair f xs ys = first (λ x. first (f x) ys) xs

attribute_by : GnoEventAttribute → AttributeInput → Bool
attribute_by attr input = given input.key attr.key && given input.value attr.value

-- An event without attributes passes.
pub filtered_attributes_by : List GnoEventAttribute → List AttributeInput → Option Bool
filtered_attributes_by attrs filter_attrs =
    if is_empty attrs
    then some true
    else first_pair (λ a f. some (attribute_by a f)) attrs filter_attrs

pub attributes_given : Option (List AttributeInput) → List GnoEventAttribute → Option Bool
attributes_given none attrs = some true
attributes_given (some inputs) attrs = filtered_attributes_by attrs inputs

pub filtered_gno_event_by : GnoEvent → Option GnoEventInput → Option Bool
filtered_gno_event_by event none = none
filtered_gno_event_by event (some input) =
    unless_false (some (given input.kind event.kind && given input.pkg_path event.pkg_path))
      (attributes_given input.attrs event.attrs)

pub filtered_event_by : Event → EventInput → Option Bool
filtered_event_by (gno_event event) input = filtered_gno_event_by event input.gno_event
filtered_event_by (storage_deposit_event event) input = some false
filtered_event_by (storage_unlock_event event) input = some false
filtered_event_by (unknown_event event) input = some false

pub filtered_by_events : List Event → List EventInput → Option Bool
filtered_by_events events inputs =
    if is_empty inputs
    then some true
    else if is_empty events
    then some false
    else first_pair filtered_event_by events inputs

-- Arguments that are empty, or behind the last one asked for, are not looked at.
args_match : List String → List String → Bool
args_match [] filter_args = true
args_match (arg ∷ args) [] = true
args_match (arg ∷ args) (f ∷ fs) =
    let rest = args_match args fs in
    if not (str_eq arg "") && not (str_eq f arg) then false else rest

pub args_given : Option (List String) → Option (List String) → Bool
args_given none args = true
args_given (some filter_args) none = false
args_given (some filter_args) (some args) = args_match args filter_args

pub coin_selected : AmountInput → Coin → Bool
coin_selected input coin =
    given input.denomination coin.denom && between input.from input.to coin.amount

pub any_selected : AmountInput → List Coin → Bool
any_selected input [] = false
any_selected input (coin ∷ coins) =
    if coin_selected input coin then true else any_selected input coins

-- The empty denomination selects an amount without coins.
pub no_coins_selected : AmountInput → List Coin → Bool
no_coins_selected input coins =
    is_some input.denomination && str_eq (deref_string input.denomination) "" && is_empty coins

pub parsed_amount_by : Option (List Coin) → AmountInput → Bool
parsed_amount_by none input = false
parsed_amount_by (some coins) input =
    if no_coins_selected input coins then true else any_selected input coins

package_given : Option MemPackageInput → MemPackage → Bool
package_given none pkg = true
package_given (some input) pkg = given input.name pkg.name && given input.path pkg.path

-- Of a run, the name and the path are compared also where they are not given.
package_same : Option MemPackageInput → MemPackage → Bool
package_same none pkg = true
package_same (some input) pkg =
    str_eq (deref_string input.name) pkg.name && str_eq (deref_string input.path) pkg.path

-- An input that names no parameters of the message's kind excludes it.
wanted : {V P : Type 0} → (V → P → Bool) → V → Option P → Bool
wanted test value none = false
wanted test value (some input) = test value input

-- The route must have its parameters.
route_allows : String → MessageInput → Bool
route_allows route input =
    if str_eq route "bank"
    then is_some input.bank_param
    else if str_eq route "vm"
    then is_some input.vm_param
    else false

-- The type assertions of BankMsgSend, VMMsgCall, VMAddPackage and VMMsgRun.
unfoldable pub as_send : MessageValue → Option BankMsgSend
as_send (bank_msg_send m) = some m
as_send value = none

unfoldable pub as_call : MessageValue → Option MsgCall
as_call (msg_call m) = some m
as_call value = none

unfoldable pub as_add_package : MessageValue → Option MsgAddPackage
as_add_package (msg_add_package m) = some m
as_add_package value = none

unfoldable pub as_run : MessageValue → Option MsgRun
as_run (msg_run m) = some m
as_run value = none

pub asserted : {V : Type 0} → Option V → (V → Bool) → Option Bool
asserted none test = none
asserted (some v) test = some (test v)

success_given : Option Bool → Bool → Bool
success_given none success = true
success_given (some true) success = success
success_given (some false) success = not success

-- The conditions that cannot panic, which come first.
pub plain_conditions : Transaction → TransactionFilter → Bool
plain_conditions tx filter =
    success_given filter.success tx.success
    && between filter.from_gas_used filter.to_gas_used tx.gas_used
    && between filter.from_gas_wanted filter.to_gas_wanted tx.gas_wanted
    && given filter.memo tx.memo

module _ (parse_coins : String → Option (List Coin)) where
  pub filtered_amount_by : String → AmountInput → Bool
  filtered_amount_by amount input = parsed_amount_by (parse_coins amount) input

  -- if given && filteredAmountBy(…) { return false }
  pub amount_excluded : Option AmountInput → String → Bool
  amount_excluded none amount = true
  amount_excluded (some input) amount = not (filtered_amount_by amount input)

  amount_given : Option AmountInput → String → Bool
  amount_given none amount = true
  amount_given (some input) amount = filtered_amount_by amount input

  filtered_send_input : BankMsgSend → BankMsgSendInput → Bool
  filtered_send_input value input =
      amount_given input.amount value.amount
      && given input.from_address value.from_address
      && given input.to_address value.to_address

  send_given : BankMsgSend → Option BankMsgSendInput → Bool
  send_given value none = true
  send_given value (some input) = filtered_send_input value input

  -- The message of a bank send, with the parameters of the bank.
  pub filtered_bank_msg_send_by : BankMsgSend → Option BankParam → Bool
  filtered_bank_msg_send_by value none = true
  filtered_bank_msg_send_by value (some params) = send_given value params.send

  pub filtered_call_input : MsgCall → MsgCallInput → Bool
  filtered_call_input value input =
      given input.caller value.caller
      && given input.func value.func
      && given input.pkg_path value.pkg_path
      && amount_excluded input.send value.send
      && args_given input.args value.args

  filtered_add_input : MsgAddPackage → MsgAddPackageInput → Bool
  filtered_add_input value input =
      given input.creator value.creator
      && amount_excluded input.deposit value.deposit
      && package_given input.mem_package value.mem_package

  filtered_run_input : MsgRun → MsgRunInput → Bool
  filtered_run_input value input =
      given input.caller value.caller
      && amount_excluded input.send value.send
      && package_same input.mem_package value.mem_package

  pub filtered_msg_call_by : MsgCall → Option VmParam → Bool
  filtered_msg_call_by value none = true
  filtered_msg_call_by value (some params) = wanted filtered_call_input value params.exec

  pub filtered_msg_add_package_by : MsgAddPackage → Option VmParam → Bool
  filtered_msg_add_package_by value none = true
  filtered_msg_add_package_by value (some params) =
      wanted filtered_add_input value params.add_package

  pub filtered_msg_run_by : MsgRun → Option VmParam → Bool
  filtered_msg_run_by value none = true
  filtered_msg_run_by value (some params) = wanted filtered_run_input value params.run

  pub filtered_value_by : TransactionMessage → MessageInput → Option Bool
  filtered_value_by tm input =
      if str_eq tm.type_url "send"
      then asserted (as_send tm.value) (λ m. filtered_bank_msg_send_by m input.bank_param)
      else if str_eq tm.type_url "exec"
      then asserted (as_call tm.value) (λ m. filtered_msg_call_by m input.vm_param)
      else if str_eq tm.type_url "add_package"
      then asserted (as_add_package tm.value) (λ m. filtered_msg_add_package_by m input.vm_param)
      else if str_eq tm.type_url "run"
      then asserted (as_run tm.value) (λ m. filtered_msg_run_by m input.vm_param)
      else some false

  pub filtered_transaction_message_by : TransactionMessage → MessageInput → Option Bool
  filtered_transaction_message_by tm input =
      if not (given input.route tm.route && given input.type_url tm.type_url)
      then some false
      else if not (is_some input.bank_param || is_some input.vm_param)
      then some true
      else if route_allows tm.route input
      then filtered_value_by tm input
      else some false

  pub filtered_by_messages : List TransactionMessage → List MessageInput → Option Bool
  filtered_by_messages messages inputs =
      if is_empty inputs
      then some true
      else if is_empty messages
      then some false
      else first_pair filtered_transaction_message_by messages inputs

  pub filtered_transaction_by : Transaction → TransactionFilter → Option Bool
  filtered_transaction_by tx filter = unless_false (some (plain_conditions tx filter)) (
      unless_false (filtered_by_events tx.response.events filter.events)
        (filtered_by_messages tx.messages filter.message))

-- filteredBlockByBlockTime: instants are numbers, 0 is the zero time, and `now` is time.Now().
pub record BlockFilter : Type 0 where
  pub from_time : Option ℕ
  pub to_time : Option ℕ

time_or : ℕ → Option ℕ → ℕ
time_or default none = default
time_or default (some t) = t

pub filtered_block_by : ℕ → Block → BlockFilter → Bool
filtered_block_by now block filter =
    let to_time = time_or now filter.to_time in
    leb (time_or 0 filter.from_time) block.time && (leb to_time 0 || ltb block.time to_time)
