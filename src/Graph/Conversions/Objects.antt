-- ===== src/Graph/Conversions/Objects.antt =====
-- The transactions and the blocks as the filters see them: the getters of serve/graph/model/transaction.go
-- and serve/graph/model/block.go.
use tx_indexer.Base.{not, is_some, Option, none, some, List, [], ◌∷◌, String}
use tx_indexer.Base.Int.{ℤ, pos}
use tx_indexer.Chain.{Tx, Header, DeliverTx, TxResult}
use tx_indexer.Chain as Chain
use tx_indexer.Graph.Model.{Coin, BlockTransaction, TransactionResponse, Transaction, Block}
use tx_indexer.Graph.Conversions.{Messages, Events, new_messages, make_events}

-- std.Tx as far as it is read.
pub record StdTx (M : Type 0) : Type 0 where
  pub msgs : List M
  pub memo : String
  pub gas_wanted : ℤ
  pub gas_fee : Coin

-- abci.ResponseDeliverTx; `error` is there if IsErr is true.
pub record ResponseView (Ev : Type 0) : Type 0 where
  pub log : String
  pub info : String
  pub error : Option String
  pub payload : String
  pub events : List Ev

-- The header's other fields: texts, and base64 of hashes; the last commit's hash may be nil.
pub record HeaderText : Type 0 where
  pub version : String
  pub validators_hash : String
  pub proposer_address_raw : String
  pub next_validators_hash : String
  pub last_results_hash : String
  pub last_commit_hash : Option String
  pub last_block_hash : String
  pub hash : String
  pub consensus_hash : String
  pub chain_id : String
  pub app_version : String
  pub app_hash : String

-- What the chain's types give of a transaction and of a block: Amino's Unmarshal, base64 of the hash,
-- the raw text, the response, and the header's fields other than the numbers and the time.
pub record Views (M Ev : Type 0) : Type 0 where
  -- what is decoded into a zero transaction, and the error, if any
  pub unmarshal : Tx → StdTx M × Option String
  pub hash : Tx → String
  pub response : DeliverTx → ResponseView Ev
  pub header_text : Header → HeaderText

module _ {M Ev : Type 0} (ms : Messages M) (es : Events Ev) (views : Views M Ev) where
  -- getStdTx: after an error the nil is overwritten by what was decoded before it.
  unfoldable pub get_std_tx : Tx → StdTx M
  get_std_tx tx = (views.unmarshal tx).0

  abbrev error_text : Option String → String
  error_text none = ""
  error_text (some text) = text

  unfoldable pub new_transaction_response : DeliverTx → TransactionResponse
  new_transaction_response response =
      let view = views.response response in
      record {
        log = view.log;
        info = view.info;
        events = make_events es view.events;
        error_text = error_text view.error;
        payload = view.payload;
      }

  unfoldable pub new_transaction : TxResult → Option Transaction
  new_transaction t =
      let std_tx = get_std_tx t.tx in
      elim (new_messages ms std_tx.msgs) [
        | none ↦ none
        | some messages ↦ some (record {
          success = not (is_some (views.response t.response).error);
          response = new_transaction_response t.response;
          messages = messages;
          memo = std_tx.memo;
          index = pos t.index;
          hash = views.hash t.tx;
          gas_wanted = t.response.gas_wanted;
          gas_used = t.response.gas_used;
          gas_fee = std_tx.gas_fee;
          block_height = pos t.height;
        })
      ]

  -- NewBlockTransaction: nil if the decoding fails.
  unfoldable pub new_block_transaction : Tx → Option BlockTransaction
  new_block_transaction tx =
      let (std_tx, failure) = views.unmarshal tx in
      elim failure [
        | some e ↦ none
        | none ↦ some (record {
          memo = std_tx.memo;
          hash = views.hash tx;
          fee = record { gas_wanted = std_tx.gas_wanted; gas_fee = std_tx.gas_fee };
        })
      ]

  -- The loop of getTxs.
  unfoldable pub get_txs : List Tx → List BlockTransaction
  get_txs [] = []
  get_txs (tx ∷ txs) = elim (new_block_transaction tx) [
    | none ↦ get_txs txs
    | some block_tx ↦ block_tx ∷ get_txs txs
  ]

  unfoldable pub new_block : Chain.Block → Block
  new_block block =
      let text = views.header_text block.header in
      record {
        version = text.version;
        validators_hash = text.validators_hash;
        txs = get_txs block.txs;
        total_txs = pos block.header.total_txs;
        time = block.header.time;
        proposer_address_raw = text.proposer_address_raw;
        num_txs = pos block.header.num_txs;
        next_validators_hash = text.next_validators_hash;
        last_results_hash = text.last_results_hash;
        last_commit_hash = error_text text.last_commit_hash;
        last_block_hash = text.last_block_hash;
        height = pos block.header.height;
        hash = text.hash;
        consensus_hash = text.consensus_hash;
        chain_id = text.chain_id;
        app_version = text.app_version;
        app_hash = text.app_hash;
      }
