-- ===== src/Graph/TxFilter/Total.antt =====
-- When the filter of transactions does not panic, and when it does.
use tx_indexer.Base.{
  ◌≡◌, ◌≢◌, refl, Bool, true, false, ◌&&◌, ◌||◌, not, Option, none, some, List, [], ◌∷◌, ◌++◌,
  if◌then◌else◌, String, str_eq, eq_iff, is_some, All, Bool-cases, Option-cases, inl, inr,
}
use tx_indexer.Graph.Model.{
  Coin, TransactionMessage, Event, gno_event, storage_deposit_event, storage_unlock_event,
  unknown_event, Transaction, GnoEvent, GnoEventAttribute,
}
use tx_indexer.Graph.TxFilter.{
  EventInput, AttributeInput, MessageInput, TransactionFilter, is_empty, first, unless_false,
  first_pair, attribute_by, filtered_attributes_by, attributes_given, filtered_gno_event_by,
  filtered_event_by, filtered_by_events, as_send, as_call, as_add_package, as_run, asserted,
  filtered_value_by, filtered_transaction_message_by, filtered_by_messages, plain_conditions,
  filtered_transaction_by, filtered_bank_msg_send_by, filtered_msg_call_by,
  filtered_msg_add_package_by, filtered_msg_run_by, given, route_allows,
}

-- No panic.
abbrev pub Returns : Option Bool → Type 0
Returns o = (b : Bool) × (o ≡ some b)

first-Returns :
    {A : Type 0} (f : A → Option Bool) (xs : List A)
    → All (λ x. Returns (f x)) xs
    → Returns (first f xs)
unfolding first
first-Returns f [] a = (false, refl)
first-Returns f (x ∷ xs) ((true, e), a) = (true, rw (e, first) refl)
first-Returns f (x ∷ xs) ((false, e), a) = let (b, r) = first-Returns f xs a in (b, rw (e, first) r)

unless_false-Returns : (o p : Option Bool) → Returns o → Returns p → Returns (unless_false o p)
unfolding unless_false
unless_false-Returns o p (true, e) r = rw e r
unless_false-Returns o p (false, e) r = rw e (false, refl)

if-Returns : (c : Bool) (o p : Option Bool) → Returns o → Returns p → Returns (if c then o else p)
if-Returns true o p r s = r
if-Returns false o p r s = s

All-pure : {A : Type 0} {P : A → Type 0} → ((a : A) → P a) → (xs : List A) → All P xs
All-pure f [] = tt
All-pure f (x ∷ xs) = (f x, All-pure f xs)

All-map :
    {A : Type 0} {P Q : A → Type 0} → ((a : A) → P a → Q a) → (xs : List A) → All P xs → All Q xs
All-map f [] a = tt
All-map f (x ∷ xs) a = (f x a.0, All-map f xs a.1)

first_pair-Returns :
    {A C : Type 0} (P : A → Type 0) (Q : C → Type 0) (f : A → C → Option Bool)
    → ((a : A) (c : C) → P a → Q c → Returns (f a c))
    → (xs : List A) (ys : List C) → All P xs
    → All Q ys
    → Returns (first_pair f xs ys)
unfolding first_pair
first_pair-Returns P Q f r xs ys ps qs =
    first-Returns (λ x. first (f x) ys) xs
      (All-map (λ x p. first-Returns (f x) ys (All-map (λ y q. r x y p q) ys qs)) xs ps)

-- An event input that has a pointer to a GnoEvent's conditions.
abbrev pub NamesGnoEvent : EventInput → Type 0
NamesGnoEvent input = input.gno_event ≢ none

-- The value is of the type that the message's type_url stands for.
abbrev pub ValueOfType : TransactionMessage → Type 0
ValueOfType tm =
    (tm.type_url ≡ "send" → as_send tm.value ≢ none)
    × (tm.type_url ≡ "exec" → as_call tm.value ≢ none)
    × (tm.type_url ≡ "add_package" → as_add_package tm.value ≢ none)
    × (tm.type_url ≡ "run" → as_run tm.value ≢ none)

attributes-Returns :
    (attrs : List GnoEventAttribute) (inputs : List AttributeInput)
    → Returns (filtered_attributes_by attrs inputs)
unfolding filtered_attributes_by
attributes-Returns attrs inputs = elim (Bool-cases (is_empty attrs)) [
  | inl y ↦ rw y (true, refl)
  | inr n ↦ rw n (
      first_pair-Returns (λ _. Unit) (λ _. Unit) (λ a f. some (attribute_by a f))
        (λ a f p q. (attribute_by a f, refl)) attrs inputs (All-pure (λ _. tt) attrs)
        (All-pure (λ _. tt) inputs))
]

given_attributes-Returns :
    (inputs : Option (List AttributeInput)) (attrs : List GnoEventAttribute)
    → Returns (attributes_given inputs attrs)
unfolding attributes_given
given_attributes-Returns none attrs = (true, refl)
given_attributes-Returns (some inputs) attrs = attributes-Returns attrs inputs

event-Returns :
    (event : Event) (input : EventInput)
    → NamesGnoEvent input
    → Returns (filtered_event_by event input)
unfolding filtered_event_by filtered_gno_event_by attributes_given
event-Returns (storage_deposit_event event) input n = (false, refl)
event-Returns (storage_unlock_event event) input n = (false, refl)
event-Returns (unknown_event event) input n = (false, refl)
event-Returns (gno_event event) input n = elim (Option-cases input.gno_event) [
  | inl e ↦ absurd (n e)
  | inr (g, e) ↦ rw e (
      unless_false-Returns (some (given g.kind event.kind && given g.pkg_path event.pkg_path))
        (attributes_given g.attrs event.attrs)
        (given g.kind event.kind && given g.pkg_path event.pkg_path, refl)
        (given_attributes-Returns g.attrs event.attrs))
]

events-Returns :
    (events : List Event) (inputs : List EventInput)
    → All NamesGnoEvent inputs
    → Returns (filtered_by_events events inputs)
unfolding filtered_by_events
events-Returns events inputs named = elim (Bool-cases (is_empty inputs)) [
  | inl y ↦ rw y (true, refl)
  | inr n ↦ elim (Bool-cases (is_empty events)) [
    | inl y ↦ rw (n, y) (false, refl)
    | inr m ↦
        rw (n, m)
          (first_pair-Returns (λ _. Unit) NamesGnoEvent filtered_event_by
            (λ a f p q. event-Returns a f q) events inputs (All-pure (λ _. tt) events) named)
  ]
]

asserted-Returns :
    {V : Type 0} (o : Option V) (test : V → Bool) → o ≢ none → Returns (asserted o test)
unfolding asserted
asserted-Returns none test n = absurd (n refl)
asserted-Returns (some v) test n = (test v, refl)

module _ (parse_coins : String → Option (List Coin)) where
  value-Returns :
      (tm : TransactionMessage) (input : MessageInput)
      → ValueOfType tm
      → Returns (filtered_value_by parse_coins tm input)
  unfolding filtered_value_by
  value-Returns tm input t = elim (Bool-cases (str_eq tm.type_url "send")) [
    | inl y ↦ rw y (
        asserted-Returns (as_send tm.value)
          (λ m. filtered_bank_msg_send_by parse_coins m input.bank_param)
          (t.0 ((eq_iff tm.type_url "send").0 y)))
    | inr n ↦ elim (Bool-cases (str_eq tm.type_url "exec")) [
      | inl y ↦
          rw (n, y)
            (asserted-Returns (as_call tm.value)
              (λ m. filtered_msg_call_by parse_coins m input.vm_param)
              (t.1 ((eq_iff tm.type_url "exec").0 y)))
      | inr n2 ↦ elim (Bool-cases (str_eq tm.type_url "add_package")) [
        | inl y ↦
            rw (n, n2, y)
              (asserted-Returns (as_add_package tm.value)
                (λ m. filtered_msg_add_package_by parse_coins m input.vm_param)
                (t.2 ((eq_iff tm.type_url "add_package").0 y)))
        | inr n3 ↦ elim (Bool-cases (str_eq tm.type_url "run")) [
          | inl y ↦
              rw (n, n2, n3, y)
                (asserted-Returns (as_run tm.value)
                  (λ m. filtered_msg_run_by parse_coins m input.vm_param)
                  (t.3 ((eq_iff tm.type_url "run").0 y)))
          | inr n4 ↦ rw (n, n2, n3, n4) (false, refl)
        ]
      ]
    ]
  ]

  message-Returns :
      (tm : TransactionMessage) (input : MessageInput)
      → ValueOfType tm
      → Returns (filtered_transaction_message_by parse_coins tm input)
  unfolding filtered_transaction_message_by
  message-Returns tm input t =
      if-Returns (not (given input.route tm.route && given input.type_url tm.type_url)) (some false)
        (if not (is_some input.bank_param || is_some input.vm_param)
          then some true
          else if route_allows tm.route input
          then filtered_value_by parse_coins tm input
          else some false)
        (false, refl)
        (if-Returns (not (is_some input.bank_param || is_some input.vm_param)) (some true)
          (if route_allows tm.route input
            then filtered_value_by parse_coins tm input
            else some false)
          (true, refl)
          (if-Returns (route_allows tm.route input) (filtered_value_by parse_coins tm input)
            (some false) (value-Returns tm input t) (false, refl)))

  messages-Returns :
      (messages : List TransactionMessage) (inputs : List MessageInput)
      → All ValueOfType messages
      → Returns (filtered_by_messages parse_coins messages inputs)
  unfolding filtered_by_messages
  messages-Returns messages inputs typed = elim (Bool-cases (is_empty inputs)) [
    | inl y ↦ rw y (true, refl)
    | inr n ↦ elim (Bool-cases (is_empty messages)) [
      | inl y ↦ rw (n, y) (false, refl)
      | inr m ↦
          rw (n, m)
            (first_pair-Returns ValueOfType (λ _. Unit)
              (filtered_transaction_message_by parse_coins) (λ a f p q. message-Returns a f p)
              messages inputs typed (All-pure (λ _. tt) inputs))
    ]
  ]

  -- If each event input names a GnoEvent and each message's value is of the type that its type_url
  -- stands for, the filter of transactions does not panic.
  pub filtered_transaction_by-Returns :
      (tx : Transaction) (filter : TransactionFilter)
      → All NamesGnoEvent filter.events
      → All ValueOfType tx.messages
      → Returns (filtered_transaction_by parse_coins tx filter)
  unfolding filtered_transaction_by
  filtered_transaction_by-Returns tx filter named typed =
      unless_false-Returns (some (plain_conditions tx filter))
        (unless_false (filtered_by_events tx.response.events filter.events)
          (filtered_by_messages parse_coins tx.messages filter.message))
        (plain_conditions tx filter, refl)
        (unless_false-Returns (filtered_by_events tx.response.events filter.events)
          (filtered_by_messages parse_coins tx.messages filter.message)
          (events-Returns tx.response.events filter.events named)
          (messages-Returns tx.messages filter.message typed))

-- A loop that comes to a panic, having found nothing before it.
first-panics :
    {A : Type 0} (f : A → Option Bool) (xs : List A) (y : A) (ys : List A)
    → All (λ x. f x ≡ some false) xs
    → f y ≡ none
    → first f (xs ++ y ∷ ys) ≡ none
unfolding first
first-panics f [] y ys a h = rw (h, first) refl
first-panics f (x ∷ xs) y ys a h = rw (a.0, first) (first-panics f xs y ys a.1 h)

first-false :
    {A : Type 0} (f : A → Option Bool) (xs : List A)
    → All (λ x. f x ≡ some false) xs
    → first f xs ≡ some false
unfolding first
first-false f [] a = refl
first-false f (x ∷ xs) a = rw (a.0, first) (first-false f xs a.1)

not_empty-append :
    {A : Type 0} (xs : List A) (y : A) (ys : List A) → is_empty (xs ++ y ∷ ys) ≡ false
unfolding is_empty
not_empty-append [] y ys = refl
not_empty-append (x ∷ xs) y ys = refl

event-panics :
    (event : GnoEvent) (input : EventInput)
    → input.gno_event ≡ none
    → filtered_event_by (gno_event event) input ≡ none
unfolding filtered_event_by filtered_gno_event_by
event-panics event input h = rw h refl

-- A transaction has a GnoEvent, and some event input names no conditions for a GnoEvent, as one for
-- another kind of event does. If none of the events before it passes any input, and it passes none of
-- the inputs before that one, then the filter on events panics.
pub filtered_by_events-none :
    (earlier : List Event) (event : GnoEvent) (later : List Event) (before : List EventInput)
    (input : EventInput) (after : List EventInput)
    → All (λ e. All (λ i. filtered_event_by e i ≡ some false) (before ++ input ∷ after)) earlier
    → All (λ i. filtered_event_by (gno_event event) i ≡ some false) before
    → input.gno_event ≡ none
    → filtered_by_events (earlier ++ gno_event event ∷ later) (before ++ input ∷ after) ≡ none
unfolding filtered_by_events first_pair
filtered_by_events-none earlier event later before input after unmatched others h =
    rw (not_empty-append before input after, not_empty-append earlier (gno_event event) later)
      (first-panics (λ e. first (filtered_event_by e) (before ++ input ∷ after)) earlier
        (gno_event event) later
        (All-map (λ e a. first-false (filtered_event_by e) (before ++ input ∷ after) a) earlier
          unmatched)
        (first-panics (filtered_event_by (gno_event event)) before input after others
          (event-panics event input h)))
