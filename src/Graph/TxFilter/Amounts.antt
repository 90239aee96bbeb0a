-- ===== src/Graph/TxFilter/Amounts.antt =====
-- Which amounts pass the filters by amount.
use tx_indexer.Base.{
  ◌≡◌, ◌↔◌, ◌⊎◌, inl, inr, refl, ap, subst, true, false, ◌&&◌, Option, none, some, List, [], ◌∷◌,
  String, str_eq, eq_iff, is_some, Bool-cases, arith,
}
use tx_indexer.Base.Int.{◌≤ℤ◌}
use tx_indexer.Graph.Model.{Coin, BankMsgSend, MsgCall}
use tx_indexer.Graph.Where.Meaning.{either_iff}
use tx_indexer.Graph.TxFilter.{
  AmountInput, BankMsgSendInput, MsgCallInput, deref_int, deref_string, given, upper, between,
  is_empty, coin_selected, any_selected, no_coins_selected, parsed_amount_by, filtered_amount_by,
  amount_excluded, filtered_bank_msg_send_by, filtered_msg_call_by, filtered_call_input,
  filtered_send_input, amount_given, send_given, wanted,
}

-- A condition that is given is met.
abbrev pub Matches : Option String → String → Type 0
Matches none s = Unit
Matches (some x) s = x ≡ s

-- A coin of the denomination asked for, with an amount in the range asked for.
abbrev pub Selected : AmountInput → Coin → Type 0
Selected input coin =
    Matches input.denomination coin.denom
    × (deref_int input.from ≤ℤ coin.amount)
    × (coin.amount ≤ℤ upper input.to)

abbrev pub AnySelected : AmountInput → List Coin → Type 0
AnySelected input [] = ⊥
AnySelected input (coin ∷ coins) = Selected input coin ⊎ AnySelected input coins

-- One of the coins is selected, or there are none and the empty denomination is asked for.
abbrev pub AmountMatches : AmountInput → List Coin → Type 0
AmountMatches input coins =
    ((input.denomination ≡ some "") × (coins ≡ [])) ⊎ AnySelected input coins

given_iff : (o : Option String) (s : String) → (given o s ≡ true) ↔ Matches o s
unfolding given
given_iff none s = (λ h. tt, λ h. refl)
given_iff (some x) s = eq_iff x s

Selected-iff :
    (input : AmountInput) (coin : Coin) → (coin_selected input coin ≡ true) ↔ Selected input coin
unfolding coin_selected between
Selected-iff input coin =
    let (to, from) = given_iff input.denomination coin.denom in
    (
      λ h. (to (ground arith), ground arith, ground arith),
      λ h. let e = from h.0 in let l = h.1 in let u = h.2 in rw e (ground arith),
    )

any_selected_iff :
    (input : AmountInput) (coins : List Coin)
    → (any_selected input coins ≡ true) ↔ AnySelected input coins
unfolding any_selected
any_selected_iff input [] = (λ h. absurd (ground arith), λ h. absurd h)
any_selected_iff input (coin ∷ coins) =
    let (to, from) = Selected-iff input coin in
    let (to_rest, from_rest) = any_selected_iff input coins in
    elim (Bool-cases (coin_selected input coin)) [
      | inl y ↦ rw y (λ h. inl (to y), λ h. refl)
      | inr n ↦ rw n (
        λ h. inr (to_rest h),
        λ h. elim h [ inl x ↦ absurd (let e = from x in ground arith) | inr x ↦ from_rest x ],
      )
    ]

blank_iff :
    (o : Option String) (coins : List Coin)
    → ((is_some o && str_eq (deref_string o) "" && is_empty coins) ≡ true)
      ↔ ((o ≡ some "") × (coins ≡ []))
unfolding is_empty deref_string
blank_iff none coins = (λ h. absurd (ground arith), λ h. absurd (let e = h.0 in cc))
blank_iff (some d) (c ∷ cs) = (λ h. absurd (ground arith), λ h. absurd (let e = h.1 in cc))
blank_iff (some d) [] =
    let (to, from) = eq_iff d "" in
    (λ h. (ap some (to (ground arith)), refl), λ h. let e = from (let q = h.0 in cc) in rw e refl)

no_coins_iff :
    (input : AmountInput) (coins : List Coin)
    → (no_coins_selected input coins ≡ true) ↔ ((input.denomination ≡ some "") × (coins ≡ []))
unfolding no_coins_selected is_empty deref_string
no_coins_iff input coins = blank_iff input.denomination coins

module _ (parse_coins : String → Option (List Coin)) where
  -- An amount that is read as coins passes exactly if one of its coins has the denomination asked for
  -- and an amount within the range asked for, or if it has no coins and the empty denomination is
  -- asked for.
  pub filtered_amount_by_iff :
      (amount : String) (input : AmountInput) (coins : List Coin)
      → parse_coins amount ≡ some coins
      → (filtered_amount_by parse_coins amount input ≡ true) ↔ AmountMatches input coins
  unfolding filtered_amount_by parsed_amount_by
  filtered_amount_by_iff amount input coins parsed =
      rw (parsed, filtered_amount_by)
        (either_iff (no_coins_selected input coins) (any_selected input coins)
          (no_coins_iff input coins) (any_selected_iff input coins))

  send_amount :
      (m : BankMsgSend) (input : BankMsgSendInput) (a : AmountInput)
      → input.amount ≡ some a
      → filtered_send_input parse_coins m input ≡ true
      → filtered_amount_by parse_coins m.amount a ≡ true
  unfolding filtered_send_input amount_given
  send_amount m input a q h = subst (λ o. amount_given parse_coins o m.amount ≡ true) q checked
    where
      checked : amount_given parse_coins input.amount m.amount ≡ true
      checked = ground arith

  call_amount :
      (m : MsgCall) (input : MsgCallInput) (a : AmountInput)
      → input.send ≡ some a
      → filtered_call_input parse_coins m input ≡ true
      → filtered_amount_by parse_coins m.send a ≡ false
  unfolding filtered_call_input amount_excluded
  call_amount m input a q h =
      let e = subst (λ o. amount_excluded parse_coins o m.send ≡ true) q checked in ground arith
    where
      checked : amount_excluded parse_coins input.send m.send ≡ true
      checked = ground arith

  -- Of one filter by amount: a bank send that passes it has an amount that matches, and a call that
  -- passes it has an amount that does not match.
  pub amounts_differ :
      (m : BankMsgSend) (input : BankMsgSendInput) (c : MsgCall) (call_input : MsgCallInput)
      (a : AmountInput) (sent called : List Coin)
      → input.amount ≡ some a
      → call_input.send ≡ some a
      → parse_coins m.amount ≡ some sent
      → parse_coins c.send ≡ some called
      → filtered_bank_msg_send_by parse_coins m (some (record { send = some input })) ≡ true
      → filtered_msg_call_by parse_coins c
          (some (record { exec = some call_input; add_package = none; run = none }))
        ≡ true
      → AmountMatches a sent × (¬ AmountMatches a called)
  unfolding filtered_bank_msg_send_by filtered_msg_call_by send_given wanted
  amounts_differ m input c call_input a sent called q r p s g h = (
    (filtered_amount_by_iff m.amount a sent p).0 (send_amount m input a q g),
    λ x.
        let e = call_amount c call_input a r h in
        let f = (filtered_amount_by_iff c.send a called s).1 x in absurd (ground (arith, e, f)),
  )
