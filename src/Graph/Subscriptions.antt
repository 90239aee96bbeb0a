-- ===== src/Graph/Subscriptions.antt =====
-- The subscriptions of serve/graph/all.resolvers.go and handleChannel of serve/graph/resolver.go: a
-- goroutine takes events and writes to an unbuffered channel, from which the client receives.
pub mod Delivery
pub mod Ends
pub mod Bounded
use tx_indexer.Base.{
  ℕ, Bool, true, false, Option, none, some, List, [], ◌∷◌, ◌++◌, keep, map, String, if◌then◌else◌,
}
use tx_indexer.Chain as Chain
use tx_indexer.Chain.{TxResult}
use tx_indexer.Types.{NewBlock}
use tx_indexer.Graph.Where.{Where}
use tx_indexer.Graph.Model.{Block, Transaction}
use tx_indexer.Graph.Filters.Roots.{BlockFields, TransactionFields, eval_block, eval_transaction}
use tx_indexer.Graph.TxFilter.{BlockFilter, filtered_block_by}

-- What a new block makes the goroutine write, in order: getTransactions, getBlocks and blocks.
module _ (match_string : String → String → Option Bool) (new_transaction : TxResult → Transaction)
    (new_block : Chain.Block → Block) where
  unfoldable pub transactions_written : Where TransactionFields → NewBlock → List Transaction
  transactions_written where_filter nb =
      keep (eval_transaction match_string where_filter) (map new_transaction nb.results)

  unfoldable pub blocks_written : Where BlockFields → NewBlock → List Block
  blocks_written where_filter nb =
      if eval_block match_string where_filter (new_block nb.block)
      then new_block nb.block ∷ []
      else []

  unfoldable pub old_blocks_written : ℕ → BlockFilter → NewBlock → List Block
  old_blocks_written now filter nb =
      if filtered_block_by now (new_block nb.block) filter then new_block nb.block ∷ [] else []

-- What is added to the errors when the goroutine ends.
pub data Ending : Type 0 where
  context_ended : Ending
  events_closed : Ending
  cast_failed : Ending

-- The goroutine waits in its select, is at `c <- x` with the rest to write, or has ended.
pub data Phase (T : Type 0) : Type 0 where
  waiting : Phase T
  writing : T → List T → Phase T
  ended : Ending → Phase T

-- `received` is what the client was given; `subscribed` is whether the event subscription is there.
pub record Channel (T : Type 0) : Type 0 where
  pub phase : Phase T
  pub received : List T
  pub context_done : Bool
  pub subscribed : Bool

-- What may happen next: `E` is an event.
pub data Move (E : Type 0) : Type 0 where
  event_taken : E → Move E
  events_end : Move E
  context_ends : Move E
  end_noticed : Move E
  client_receives : Move E

unfoldable pub handle_channel : {T : Type 0} → Channel T
handle_channel = record { phase = waiting; received = []; context_done = false; subscribed = true }

module _ {E T : Type 0} (as_new_block : E → Option NewBlock) (written : NewBlock → List T) where
  -- The deferred calls: the channel is closed and the subscription cancelled.
  unfoldable pub finish : Ending → Channel T → Channel T
  finish ending c = record c { phase = ended ending; subscribed = false }

  unfoldable pub write_next : List T → Channel T → Channel T
  write_next [] c = record c { phase = waiting }
  write_next (x ∷ xs) c = record c { phase = writing x xs }

  unfoldable pub take_event : E → Channel T → Channel T
  take_event e c = elim (as_new_block e) [
    | none ↦ finish cast_failed c
    | some nb ↦ write_next (written nb) c
  ]

  abbrev on_wait : Phase T → Channel T → Option (Channel T)
  on_wait waiting c = some c
  on_wait (writing x xs) c = none
  on_wait (ended ending) c = none

  abbrev on_write : Phase T → Channel T → Option (Channel T)
  on_write waiting c = none
  on_write (writing x xs) c = some (write_next xs (record c { received = c.received ++ x ∷ [] }))
  on_write (ended ending) c = none

  -- `none`: the move cannot be made. A send waits for the client only, not for the context.
  unfoldable pub step : Move E → Channel T → Option (Channel T)
  step (event_taken e) c = on_wait c.phase (take_event e c)
  step events_end c = on_wait c.phase (finish events_closed c)
  step context_ends c = some (record c { context_done = true })
  step end_noticed c = if c.context_done then on_wait c.phase (finish context_ended c) else none
  step client_receives c = on_write c.phase c

  unfoldable pub run : List (Move E) → Channel T → Option (Channel T)
  run [] c = some c
  run (m ∷ moves) c = elim (step m c) [ none ↦ none | some c' ↦ run moves c' ]
