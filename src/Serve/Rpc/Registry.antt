-- ===== src/Serve/Rpc/Registry.antt =====
-- The map of the handlers.
use tx_indexer.Base.{
  ◌≡◌, refl, sym, ap, subst, ◌∙◌, true, false, none, some, [], ◌∷◌, if◌then◌else◌, String, str_eq,
  eq_iff, Bool-cases, inl, inr,
}
use tx_indexer.Base.Dict.{not_both}
use tx_indexer.Serve.Rpc.{Handler, Handlers, find_handler, add_handler, remove_handler}

other_name : (m a b : String) → str_eq m a ≡ true → str_eq a b ≡ false → str_eq m b ≡ false
other_name m a b h n = subst (λ x. str_eq x b ≡ false) (sym ((eq_iff m a).0 h)) n

same_name : (m a b : String) → str_eq m a ≡ true → str_eq a b ≡ true → str_eq m b ≡ true
same_name m a b h n = subst (λ x. str_eq x b ≡ true) (sym ((eq_iff m a).0 h)) n

module _ {S V : Type 0} where
  -- After a method is registered it has that handler, whether or not it had one, and every other
  -- method has what it had; after it is unregistered it has none, and every other has what it had.
  pub find_handler-registered :
      (handlers : Handlers S V) (method asked : String) (handler : Handler S V)
      → (find_handler (add_handler handlers method handler) asked
          ≡ (if str_eq method asked then some handler else find_handler handlers asked))
        × (find_handler (remove_handler handlers method) asked
            ≡ (if str_eq method asked then none else find_handler handlers asked))
  unfolding find_handler add_handler remove_handler
  find_handler-registered [] method asked handler =
      (refl, elim (Bool-cases (str_eq method asked)) [ inl y ↦ rw y refl | inr n ↦ rw n refl ])
  find_handler-registered ((m, h) ∷ handlers) method asked handler =
      let (added, removed) = find_handler-registered handlers method asked handler in
      elim (Bool-cases (str_eq m method)) [
        | inl y ↦ elim (Bool-cases (str_eq method asked)) [
          | inl z ↦
              rw (y, z, same_name m method asked y z)
                (refl, removed ∙ ap (λ b. if b then none else find_handler handlers asked) z)
          | inr k ↦
              rw (y, k, other_name m method asked y k)
                (refl, removed ∙ ap (λ b. if b then none else find_handler handlers asked) k)
        ]
        | inr n ↦ elim (Bool-cases (str_eq m asked)) [
          | inl y ↦ rw (n, y, not_both m method asked n y) (refl, refl)
          | inr k ↦ rw (n, k) (added, removed)
        ]
      ]
