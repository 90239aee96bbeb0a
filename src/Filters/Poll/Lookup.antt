-- ===== src/Filters/Poll/Lookup.antt =====
-- What the map of the filters has under an ID after each of its operations.
use tx_indexer.Base.{
  ℕ, ◌≤◌, ◌≡◌, refl, ap, ◌∙◌, true, false, Option, none, some, [], ◌∷◌, String, str_eq, eq_iff,
  if◌then◌else◌, ltb, is_some, Bool-cases, inl, inr, arith,
}
use tx_indexer.Base.Dict.{find, remove, find-remove}
use tx_indexer.Filters.Poll.{
  Filter, FilterMap, get_last_used, update_last_used, uninstall_filter, new_filter, get_filter,
  cleanup,
}

uninstall_filter_lem :
    (id : String) (m : FilterMap) → uninstall_filter id m ≡ (is_some (find id m), remove id m)
unfolding uninstall_filter find remove
uninstall_filter_lem id [] = refl
uninstall_filter_lem id ((key, f) ∷ m) =
    let rest = uninstall_filter_lem id m in
    elim (Bool-cases (str_eq key id)) [
      | inl y ↦ rw (y, find, remove) (ap (λ p. (true, p.1)) rest)
      | inr n ↦ rw (n, find, remove) (ap (λ p. (p.0, (key, f) ∷ p.1)) rest)
    ]

pub find-uninstall_filter :
    (id asked : String) (m : FilterMap)
    → find asked (uninstall_filter id m).1 ≡ (if str_eq id asked then none else find asked m)
find-uninstall_filter id asked m =
    ap (λ p. find asked p.1) (uninstall_filter_lem id m) ∙ find-remove id asked m

pub find-new_filter :
    (id asked : String) (f : Filter) (m : FilterMap)
    → find asked (new_filter id f m) ≡ (if str_eq id asked then some f else find asked m)
unfolding new_filter find
find-new_filter id asked f m = elim (Bool-cases (str_eq id asked)) [
  | inl y ↦ rw y refl
  | inr n ↦ rw n (find-uninstall_filter id asked m ∙ rw n refl)
]

abbrev pub touched : ℕ → Option Filter → Option Filter
touched now none = none
touched now (some f) = some (update_last_used now f)

pub get_filter-find :
    (id : String) (now : ℕ) (m : FilterMap) → (get_filter id now m).0 ≡ touched now (find id m)
unfolding get_filter find
get_filter-find id now [] = refl
get_filter-find id now ((key, f) ∷ m) = elim (Bool-cases (str_eq key id)) [
  | inl y ↦ rw (y, get_filter) refl
  | inr n ↦ rw (n, get_filter) (get_filter-find id now m)
]

same_key :
    (key id asked : String)
    → str_eq key id ≡ true
    → str_eq id asked ≡ false
    → str_eq key asked ≡ false
same_key key id asked y n = rw ((eq_iff key id).0 y) n

-- The other filters are not touched.
pub find-get_filter :
    (id asked : String) (now : ℕ) (m : FilterMap)
    → str_eq id asked ≡ false
    → find asked (get_filter id now m).1 ≡ find asked m
unfolding get_filter find
find-get_filter id asked now [] n = refl
find-get_filter id asked now ((key, f) ∷ m) n =
    let later = find-get_filter id asked now m n in
    elim (Bool-cases (str_eq key id)) [
      | inl y ↦ rw (y, get_filter) (let k = same_key key id asked y n in rw k refl)
      | inr k ↦ elim (Bool-cases (str_eq key asked)) [
        | inl z ↦ rw (k, z, get_filter) refl
        | inr z ↦ rw (k, z, get_filter) later
      ]
    ]

-- A filter that was last used at the cutoff or after it stays.
pub find-cleanup :
    (asked : String) (cutoff : ℕ) (f : Filter) (m : FilterMap)
    → find asked m ≡ some f
    → cutoff ≤ get_last_used f
    → find asked (cleanup cutoff m) ≡ some f
unfolding cleanup find
find-cleanup asked cutoff f [] h used = absurd (cc)
find-cleanup asked cutoff f ((key, g) ∷ m) h used = elim (Bool-cases (str_eq key asked)) [
  | inl y ↦
      let q = rw y at h in
      (let e = ap (λ o. elim o [ none ↦ g | some x ↦ x ]) q in
        let k : ltb (get_last_used g) cutoff ≡ false = ground (arith, ap get_last_used e) in
        rw (k, y, cleanup) q)
  | inr n ↦ let q = rw n at h in ground (arith, find-cleanup asked cutoff f m q used)
]
