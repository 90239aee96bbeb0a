-- ===== src/Graph/Conversions/Typed.antt =====
-- The values of the messages that are built have the types that the filters assert.
use tx_indexer.Base.{
  ◌≡◌, ◌≢◌, refl, sym, ◌∙◌, false, Option, none, some, List, [], ◌∷◌, String, str_eq, eq_iff, All,
  Bool-cases, Option-cases, inl, inr,
}
use tx_indexer.Chain.{TxResult}
use tx_indexer.Graph.Model.{TransactionMessage, Coin, Transaction}
use tx_indexer.Graph.TxFilter.{
  TransactionFilter, as_send, as_call, as_add_package, as_run, filtered_transaction_by,
}
use tx_indexer.Graph.TxFilter.Total.{
  ValueOfType, NamesGnoEvent, Returns, filtered_transaction_by-Returns,
}
use tx_indexer.Graph.Conversions.{
  Messages, Events, new_transaction_message, new_vm_message, unexpected, new_messages,
  make_vm_add_package, make_vm_msg_run,
}
use tx_indexer.Graph.Conversions.Objects.{Views, new_transaction, get_std_tx}

-- A message of a type that the chain's bank or vm module defines has that module's route, and one with
-- a package can be cast.
abbrev pub Known : {M : Type 0} → Messages M → M → Type 0
Known ms m =
    (ms.kind m ≡ "send" → ms.route m ≡ "bank")
    × (ms.kind m ≡ "exec" → ms.route m ≡ "vm")
    × (ms.kind m ≡ "add_package" → ms.route m ≡ "vm")
    × (ms.kind m ≡ "run" → ms.route m ≡ "vm")
    × (ms.kind m ≡ "add_package" → make_vm_add_package ms m ≢ none)
    × (ms.kind m ≡ "run" → make_vm_msg_run ms m ≢ none)

abbrev TypedOption : Option TransactionMessage → Type 0
TypedOption none = ⊥
TypedOption (some tm) = ValueOfType tm

differ : {P : Type 0} (a b : String) → str_eq a b ≡ false → a ≡ b → P
differ a b e h = let y = (eq_iff a b).1 h in absurd (cc)

module _ {M : Type 0} (ms : Messages M) where
  -- A message that is built as an unexpected one has none of the four types.
  unexpected-Typed :
      (m : M)
      → ms.kind m ≢ "send"
      → ms.kind m ≢ "exec"
      → ms.kind m ≢ "add_package"
      → ms.kind m ≢ "run"
      → TypedOption (unexpected ms m)
  unfolding unexpected
  unexpected-Typed m s e a r =
      (λ h. absurd (s h), λ h. absurd (e h), λ h. absurd (a h), λ h. absurd (r h))

  new_vm_message-Typed :
      (m : M) → Known ms m → ms.route m ≡ "vm" → TypedOption (new_vm_message ms m)
  unfolding new_vm_message as_send as_call as_add_package as_run
  new_vm_message-Typed m k v = elim (Bool-cases (str_eq (ms.kind m) "exec")) [
    | inl y ↦ rw y (
      differ "exec" "send" refl,
      λ h. λ n. absurd (cc),
      differ "exec" "add_package" refl,
      differ "exec" "run" refl,
    )
    | inr e ↦ elim (Bool-cases (str_eq (ms.kind m) "add_package")) [
      | inl y ↦ elim (Option-cases (make_vm_add_package ms m)) [
        | inl o ↦ absurd (k.4 ((eq_iff (ms.kind m) "add_package").0 y) o)
        | inr (d, o) ↦
            rw (e, y, o)
              (
                differ "add_package" "send" refl,
                differ "add_package" "exec" refl,
                λ h. λ n. absurd (cc),
                differ "add_package" "run" refl,
              )
      ]
      | inr a ↦ elim (Bool-cases (str_eq (ms.kind m) "run")) [
        | inl y ↦ elim (Option-cases (make_vm_msg_run ms m)) [
          | inl o ↦ absurd (k.5 ((eq_iff (ms.kind m) "run").0 y) o)
          | inr (d, o) ↦
              rw (e, a, y, o)
                (
                  differ "run" "send" refl,
                  differ "run" "exec" refl,
                  differ "run" "add_package" refl,
                  λ h. λ n. absurd (cc),
                )
        ]
        | inr r ↦
            rw (e, a, r)
              (unexpected-Typed m (λ h. differ "vm" "bank" refl (sym v ∙ k.0 h))
                (differ (ms.kind m) "exec" e) (differ (ms.kind m) "add_package" a)
                (differ (ms.kind m) "run" r))
      ]
    ]
  ]

  new_transaction_message-Typed : (m : M) → Known ms m → TypedOption (new_transaction_message ms m)
  unfolding new_transaction_message as_send
  new_transaction_message-Typed m k = elim (Bool-cases (str_eq (ms.route m) "bank")) [
    | inl b ↦
        let bank = (eq_iff (ms.route m) "bank").0 b in
        elim (Bool-cases (str_eq (ms.kind m) "send")) [
          | inl y ↦
              rw (b, y)
                (
                  (λ h. λ n. absurd (cc)),
                  differ "send" "exec" refl,
                  differ "send" "add_package" refl,
                  differ "send" "run" refl,
                )
          | inr n ↦
              rw (b, n)
                (unexpected-Typed m (differ (ms.kind m) "send" n)
                  (λ h. differ "bank" "vm" refl (sym bank ∙ k.1 h))
                  (λ h. differ "bank" "vm" refl (sym bank ∙ k.2 h))
                  (λ h. differ "bank" "vm" refl (sym bank ∙ k.3 h)))
        ]
    | inr b ↦ elim (Bool-cases (str_eq (ms.route m) "vm")) [
      | inl v ↦ rw (b, v) (new_vm_message-Typed m k ((eq_iff (ms.route m) "vm").0 v))
      | inr v ↦
          rw (b, v)
            (unexpected-Typed m (λ h. differ (ms.route m) "bank" b (k.0 h))
              (λ h. differ (ms.route m) "vm" v (k.1 h)) (λ h. differ (ms.route m) "vm" v (k.2 h))
              (λ h. differ (ms.route m) "vm" v (k.3 h)))
    ]
  ]

  typed_some :
      (o : Option TransactionMessage)
      → TypedOption o
      → (tm : TransactionMessage) × (o ≡ some tm) × ValueOfType tm
  typed_some none t = absurd t
  typed_some (some tm) t = (tm, refl, t)

  new_messages-Typed :
      (msgs : List M)
      → All (Known ms) msgs
      → (tms : List TransactionMessage) × (new_messages ms msgs ≡ some tms) × All ValueOfType tms
  unfolding new_messages
  new_messages-Typed [] k = ([], refl, tt)
  new_messages-Typed (m ∷ msgs) k =
      let (tm, e, t) =
        typed_some (new_transaction_message ms m) (new_transaction_message-Typed m k.0) in
      let (tms, f, ts) = new_messages-Typed msgs k.1 in
      rw (e, f, new_messages) (tm ∷ tms, refl, (t, ts))

module _ {M Ev : Type 0} (ms : Messages M) (es : Events Ev) (views : Views M Ev) where
  -- If each message of a transaction that is of a type of the bank or vm module has that module's route,
  -- and its package can be read where it has one, then the transaction is built, the value of each of its
  -- messages is of the type that the message's type_url stands for, and no filter of transactions whose
  -- event inputs each name a GnoEvent panics on it.
  pub new_transaction-ValueOfType :
      (parse_coins : String → Option (List Coin)) (t : TxResult) (filter : TransactionFilter)
      → All (Known ms) (get_std_tx ms es views t.tx).msgs
      → All NamesGnoEvent filter.events
      → (tx : Transaction) × (new_transaction ms es views t ≡ some tx)
        × All ValueOfType tx.messages
        × Returns (filtered_transaction_by parse_coins tx filter)
  unfolding new_transaction
  new_transaction-ValueOfType parse_coins t filter k named =
      let (tms, e, typed) = new_messages-Typed ms (get_std_tx ms es views t.tx).msgs k in
      rw (e, new_transaction)
        (_, refl, typed, filtered_transaction_by-Returns parse_coins _ filter named typed)
