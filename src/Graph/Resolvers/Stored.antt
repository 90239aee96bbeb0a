-- ===== src/Graph/Resolvers/Stored.antt =====
-- The resolvers' loop over the block iterators of storage/pebble.go.
use tx_indexer.Base.{
  keep, ℕ, ◌^◌, ◌≤◌, ◌<◌, ◌≡◌, refl, sym, ap, subst, ◌∙◌, Bool, true, false, Option, none, some,
  List, [], ◌∷◌, Result, ok, err, String, map, length, length-map, In, arith, Result-cases, inl,
  inr,
}
use tx_indexer.Chain.{Block, TxResult}
use tx_indexer.Storage.Encode.{Bytes}
use tx_indexer.Storage.Engine.{Engine, Codec, Entry, WalkLaws, IterLaws}
use tx_indexer.Storage.Pebble.{
  BlockIter, block_iter_move, block_value, block_iter_next, block_reverse_iter_next, block_iterator,
  block_reverse_iterator, to_block_bound, get_latest_height, Error, lift_codec,
}
use mathlib.Core.List.{reverse}
use tx_indexer.Graph.Resolvers.Walks.{
  upcoming, move_end, move_step, Decodes, In-Decodes, In-map, In-keep, take_all, In-reverse,
}
use tx_indexer.Graph.Query.{Iterator}
use tx_indexer.Graph.Query.Answers.{Yields, keep_shorter}
use tx_indexer.Base.Int.{pos}
use tx_indexer.Storage.Keys.{key_block}
use tx_indexer.Storage.Pebble.Iterators.{block_iterator_range}
use tx_indexer.Graph.Where.{Where}
use tx_indexer.Graph.Where.Range.Sound.{AtMost, AtLeast}
use tx_indexer.Graph.Model
use tx_indexer.Graph.Filters.Roots.{BlockFields, eval_block, min_max_height}
use tx_indexer.Graph.Filters.Roots.Ranges.{BoundedBy, min_max_height_range}
use tx_indexer.Graph.Query.{Answer, max_elements_per_query}
use tx_indexer.Graph.Query.Answers.{expected, query_loop-keep}
use tx_indexer.Storage.Pebble.Iterators.{block_reverse_iterator_lem}
use tx_indexer.Graph.Resolvers.{
  Order, asc, desc, Reader, bounds, is_desc, opened, open_blocks, get_blocks,
}
use tx_indexer.Graph.Resolvers.Blocks.{Fits, in_range, range_lem, bounds_small}

in_range_sound : (from to h : ℕ) → 0 < to → in_range from to h ≡ true → (from ≤ h) × (h ≤ to)
unfolding in_range
in_range_sound from to h positive i = (ground arith, ground arith)

module _ (e : Engine) (c : Codec) (db : e.Db) where
  -- The iterators of the store, each with its direction, `true` for backwards.
  abbrev pub Directed : Type 0
  Directed = Bool × BlockIter e.Iter

  abbrev pub directed_next : Directed → Bool × Directed
  directed_next (true, it) =
      (let (found, it') = block_reverse_iter_next e c it in (found, (true, it')))
  directed_next (false, it) = (let (found, it') = block_iter_next e c it in (found, (false, it')))

  abbrev pub directed : {E A : Type 0} → Bool → Result E A → Result E (Bool × A)
  directed d (ok it) = ok (d, it)
  directed d (err f) = err f

  -- The store behind the interface of the resolvers, with the blocks' side of storage/pebble.go; the
  -- transactions' iterators are any.
  abbrev pub pebble_reader :
      {TI : Type 0}
      → (ℕ → ℕ → ℕ → ℕ → Result (Error e c) TI)
      → (ℕ → ℕ → ℕ → ℕ → Result (Error e c) TI)
      → Iterator TI (Error e c) TxResult
      → (String → Result (Error e c) TxResult)
      → Reader Directed TI (Error e c) Block TxResult
  pebble_reader tx_forward tx_backward tx_walk by_hash = record {
    get_latest_height = get_latest_height e c db;
    get_tx_by_hash = by_hash;
    block_iterator = λ from to. directed false (block_iterator e c db from to);
    block_reverse_iterator = λ from to. directed true (block_reverse_iterator e c db from to);
    tx_iterator = tx_forward;
    tx_reverse_iterator = tx_backward;
    blocks = record { next = directed_next; value = λ d. block_value e c d.1; error = λ _. none };
    txs = tx_walk;
  }

  module _ {TI : Type 0} (tx_forward tx_backward : ℕ → ℕ → ℕ → ℕ → Result (Error e c) TI)
      (tx_walk : Iterator TI (Error e c) TxResult) (by_hash : String → Result (Error e c) TxResult)
      (laws : IterLaws e) where
    abbrev reader : Reader Directed TI (Error e c) Block TxResult
    reader = pebble_reader tx_forward tx_backward tx_walk by_hash

    -- The walk of a direction, `true` for backwards, and the entries in its order.
    abbrev start_of : Bool → e.Iter → Bool × e.Iter
    start_of true = e.last
    start_of false = e.first

    abbrev step_of : Bool → e.Iter → Bool × e.Iter
    step_of true = e.prev
    step_of false = e.next

    abbrev pub ordered : {A : Type 0} → Bool → List A → List A
    ordered true xs = reverse xs
    ordered false xs = xs

    abbrev walk_of :
        (d : Bool)
        → WalkLaws e.Iter
            (start_of d)
            (step_of d)
            e.valid
            e.key
            e.value
            (λ i. ordered d (laws.listed i))
    walk_of true = laws.backward
    walk_of false = laws.forward

    directed_next_lem :
        (d : Bool) (it : BlockIter e.Iter)
        → directed_next (d, it) ≡ (
          (block_iter_move (start_of d) (step_of d) e.valid it).0,
          (d, (block_iter_move (start_of d) (step_of d) e.valid it).1),
        )
    unfolding block_iter_next block_reverse_iter_next
    directed_next_lem true it = refl
    directed_next_lem false it = refl

    directed-Yields :
        (d : Bool) (xs : List Entry) (bs : List Block) (it : BlockIter e.Iter)
        → upcoming (walk_of d) it ≡ xs
        → Decodes c xs bs
        → Yields reader.blocks (map ok bs) none (d, it)
    unfolding Yields block_value
    directed-Yields d [] [] it u dec =
        (ap (λ p. p.0) (directed_next_lem d it) ∙ move_end (walk_of d) it u, refl)
    directed-Yields d [] (b ∷ bs) it u dec = absurd dec
    directed-Yields d (x ∷ xs) [] it u dec = absurd dec
    directed-Yields d (x ∷ xs) (b ∷ bs) it u dec =
        let (found, at, rest) = move_step (walk_of d) it x xs u in
        let moved = (block_iter_move (start_of d) (step_of d) e.valid it).1 in
        (
          ap (λ p. p.0) (directed_next_lem d it) ∙ found,
          ap (λ p. block_value e c p.1.1) (directed_next_lem d it)
              ∙ ap (lift_codec e c)
                  (ap c.decode_block ((walk_of d).at_entry moved.i x.0 x.1 xs at).1 ∙ dec.0),
          subst (λ p. Yields reader.blocks (map ok bs) none p)
              (sym (ap (λ p. p.1) (directed_next_lem d it)))
              (directed-Yields d xs bs moved rest dec.1),
        )

    open_directed :
        (f : Where BlockFields) (order : Option Order) (it : BlockIter e.Iter)
        → block_iterator e c db (bounds 64 (min_max_height f)).0 (bounds 64 (min_max_height f)).1
          ≡ ok it
        → open_blocks reader f order ≡ ok (is_desc order, it)
    unfolding open_blocks is_desc
    open_directed f none it o = ap (directed false) o
    open_directed f (some asc) it o = ap (directed false) o
    open_directed f (some desc) it o = ap (directed true) (
        block_reverse_iterator_lem e c db (bounds 64 (min_max_height f)).0
          (bounds 64 (min_max_height f)).1
        ∙ o)

    -- What getBlocks makes of an iterator whose entries decode to `bs`.
    answered :
        (match_string : String → String → Option Bool) (new_block : Block → Model.Block) (fuel : ℕ)
        (f : Where BlockFields) (order : Option Order) (it : BlockIter e.Iter) (bs : List Block)
        → block_iterator e c db (bounds 64 (min_max_height f)).0 (bounds 64 (min_max_height f)).1
          ≡ ok it
        → upcoming (walk_of (is_desc order)) it ≡ ordered (is_desc order) (laws.listed it.i)
        → Decodes c (ordered (is_desc order) (laws.listed it.i)) bs
        → length bs < fuel
        → get_blocks reader match_string new_block (λ _. false) fuel f order
          ≡ some (
              expected reader.blocks new_block
                (eval_block match_string f)
                max_elements_per_query
                0
                []
                (keep (eval_block match_string f) (map new_block bs))
                none)
    unfolding get_blocks opened
    answered match_string new_block fuel f order it bs o fresh d small =
        rw (open_directed f order it o, get_blocks)
          (query_loop-keep reader.blocks new_block (eval_block match_string f)
            max_elements_per_query fuel 0 [] bs none (is_desc order, it)
            (directed-Yields (is_desc order) (ordered (is_desc order) (laws.listed it.i)) bs it
              fresh d)
            small (omega arith))

    In-ordered : {A : Type 0} (d : Bool) (x : A) (xs : List A) → In x xs → In x (ordered d xs)
    In-ordered true x xs i = In-reverse x xs i
    In-ordered false x xs i = i

    opened_fresh :
        (d : Bool) (from to : ℕ) (it : BlockIter e.Iter)
        → block_iterator e c db from to ≡ ok it
        → upcoming (walk_of d) it ≡ ordered d (laws.listed it.i)
    unfolding block_iterator upcoming to_block_bound
    opened_fresh d from to it o = rw init_lem refl
      where
        init_lem : it.init ≡ false
        init_lem =
            elim (Result-cases (e.new_iter db (key_block from) (key_block (to_block_bound to)))) [
              | inl (i, q) ↦ ground arith
              | inr (g, q) ↦ absurd (ground arith)
            ]

    -- A block that is stored under its height is found, in either order: if the filter accepts it, every
    -- alternative of the filter names both bounds, no bound is negative, the upper one is not 0, and the
    -- iterator opens and shows at most as many blocks as the limit, all of which can be decoded in the
    -- order asked for, then with more fuel than blocks and no cancellation getBlocks returns and has the
    -- block among its answers, all of which are the accepted ones of those blocks in that order.
    pub get_blocks-In :
        (match_string : String → String → Option Bool) (new_block : Block → Model.Block) (fuel : ℕ)
        (f : Where BlockFields) (order : Option Order) (it : BlockIter e.Iter) (bs : List Block)
        (h : ℕ) (v : Bytes) (b : Block)
        → e.get db (key_block h) ≡ ok v
        → c.decode_block v ≡ ok b
        → (new_block b).height ≡ pos h
        → h < 2 ^ 63
        → BoundedBy (λ g. g.height) f
        → Fits (min_max_height f).0
        → Fits (min_max_height f).1
        → 0 < (bounds 64 (min_max_height f)).1
        → block_iterator e c db (bounds 64 (min_max_height f)).0 (bounds 64 (min_max_height f)).1
          ≡ ok it
        → Decodes c (ordered (is_desc order) (laws.listed it.i)) bs
        → length bs < fuel
        → length bs ≤ max_elements_per_query
        → eval_block match_string f (new_block b) ≡ true
        → (a : Answer (Error e c) Model.Block) × (get_blocks reader match_string new_block
              (λ _. false)
              fuel
              f
              order
            ≡ some a)
          × In (new_block b) a.elements
          × (a.elements ≡ keep (eval_block match_string f) (map new_block bs))
    get_blocks-In match_string new_block fuel f order it bs h v b stored decoded height small
          bounded lo hi positive o d fuel_left room accepted =
        (
          expected reader.blocks new_block (eval_block match_string f) max_elements_per_query 0 []
              (keep (eval_block match_string f) (map new_block bs)) none,
          answered match_string new_block fuel f order it bs o
              (opened_fresh (is_desc order) (bounds 64 (min_max_height f)).0
                (bounds 64 (min_max_height f)).1 it o)
              d fuel_left,
          subst (In (new_block b))
              (sym (
                take_all max_elements_per_query
                  (keep (eval_block match_string f) (map new_block bs)) kept_room))
              (In-keep (eval_block match_string f) (new_block b) (map new_block bs) accepted (
                In-map new_block b bs (
                  In-Decodes c (ordered (is_desc order) (laws.listed it.i)) bs (key_block h) v b d
                    (In-ordered (is_desc order) (key_block h, v) (laws.listed it.i) shown)
                    decoded))),
          take_all max_elements_per_query (keep (eval_block match_string f) (map new_block bs))
              kept_room,
        )
      where
        kept_room :
            length (keep (eval_block match_string f) (map new_block bs)) ≤ max_elements_per_query
        kept_room = omega (
          arith,
          keep_shorter (eval_block match_string f) (map new_block bs),
          length-map bs new_block,
          room,
        )

        range : ((bounds 64 (min_max_height f)).0 ≤ h) × (h ≤ (bounds 64 (min_max_height f)).1)
        range =
            let (low, high) = min_max_height_range match_string f (new_block b) bounded accepted in
            in_range_sound (bounds 64 (min_max_height f)).0 (bounds 64 (min_max_height f)).1 h
              positive
              (range_lem (min_max_height f).0 (min_max_height f).1 h lo hi
                (subst (AtMost (min_max_height f).0) height low)
                (subst (AtLeast (min_max_height f).1) height high))

        shown : In (key_block h, v) (laws.listed it.i)
        shown =
            let (from_small, to_small) =
              bounds_small (min_max_height f).0 (min_max_height f).1 lo hi in
            (block_iterator_range c laws db (bounds 64 (min_max_height f)).0
                (bounds 64 (min_max_height f)).1 h v it o stored from_small (omega (arith, small))
                positive to_small).1
              range
