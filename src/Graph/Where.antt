-- ===== src/Graph/Where.antt =====
-- The filters of serve/graph/model/filter_methods_gen.go: every filter object has the same frame, a
-- conjunction, a disjunction and a negation of filters of its own type and the filters of its
-- fields. `Where F` is that frame with the fields `F`.
pub mod Meaning
pub mod Range
use tx_indexer.Base.{
  ℕ, List, [], ◌∷◌, Option, none, some, Bool, true, false, not, ◌&&◌, if◌then◌else◌, String, str_eq,
  ltb, leb, ◌==◌,
}
use tx_indexer.Base.Int.{ℤ, leb_ℤ, eqb_ℤ}

mutual
  pub data Where (F : Type 0) : Type 0 where
    plain : Wheres F → Wheres F → F → Where F
    negated : Wheres F → Wheres F → Where F → F → Where F

  pub data Wheres (F : Type 0) : Type 0 where
    nil : Wheres F
    cons : Where F → Wheres F → Wheres F

module _ {F A : Type 0} (fields_match : F → A → Bool) where
  unfoldable mutual
    pub eval : Where F → A → Bool
    eval (plain conj disj fields) a =
        if eval_all conj a then if eval_or disj a then fields_match fields a else false else false
    eval (negated conj disj inverse fields) a =
        if eval_all conj a
        then if eval_or disj a
          then if eval inverse a then false else fields_match fields a
          else false
        else false

    pub eval_all : Wheres F → A → Bool
    eval_all nil a = true
    eval_all (cons w ws) a = if eval w a then eval_all ws a else false

    pub eval_or : Wheres F → A → Bool
    eval_or nil a = true
    eval_or (cons w ws) a = if eval w a then true else eval_any ws a

    pub eval_any : Wheres F → A → Bool
    eval_any nil a = false
    eval_any (cons w ws) a = if eval w a then true else eval_any ws a

-- A field without a filter is not looked at. Of a slice, one element must match.
unfoldable pub field : {F A : Type 0} → (F → A → Bool) → Option F → A → Bool
field match none a = true
field match (some f) a = match f a

pub any : {A : Type 0} → (A → Bool) → List A → Bool
any p [] = false
any p (x ∷ xs) = let rest = any p xs in if p x then true else rest

unfoldable pub slice : {F A : Type 0} → (F → A → Bool) → Option F → List A → Bool
slice match none xs = true
slice match (some f) xs = any (match f) xs

-- A union's filter that is there must match.
pub specified : {F A : Type 0} → (F → A → Bool) → Option F → A → Bool
specified match none a = false
specified match (some f) a = match f a

module _ {A : Type 0} (same : A → A → Bool) where
  unfoldable pub check_exists : Option Bool → Option A → Bool
  check_exists none val = true
  check_exists (some true) none = false
  check_exists (some true) (some a) = true
  check_exists (some false) none = true
  check_exists (some false) (some a) = false

  unfoldable pub check_eq : Option A → Option A → Bool
  check_eq none val = true
  check_eq (some e) none = true
  check_eq (some e) (some a) = same e a

  unfoldable pub root_eval : Option A → Option Bool → Option A → Bool
  root_eval val exists eq = if check_exists exists val then check_eq eq val else false

-- An *int: the address tells two pointers apart whose values are the same.
pub record IntPtr : Type 0 where
  pub address : ℕ
  pub value : ℤ

unfoldable pub value_of : Option IntPtr → Option ℤ
value_of none = none
value_of (some p) = some p.value

pub record FilterInt : Type 0 where
  pub exists : Option Bool
  pub eq : Option IntPtr
  pub gt : Option IntPtr
  pub lt : Option IntPtr

-- A comparison that is not asked for holds.
unfoldable pub above : Option IntPtr → ℤ → Bool
above none val = true
above (some bound) val = not (leb_ℤ val bound.value)

unfoldable pub below : Option IntPtr → ℤ → Bool
below none val = true
below (some bound) val = not (leb_ℤ bound.value val)

unfoldable pub eval_int : FilterInt → ℤ → Bool
eval_int f val =
    if root_eval eqb_ℤ (some val) f.exists (value_of f.eq)
    then if above f.gt val then below f.lt val else false
    else false

pub record FilterBoolean : Type 0 where
  pub exists : Option Bool
  pub eq : Option Bool

same_bool : Bool → Bool → Bool
same_bool true b = b
same_bool false b = not b

pub eval_boolean : FilterBoolean → Bool → Bool
eval_boolean f val = root_eval same_bool (some val) f.exists f.eq

pub record FilterString : Type 0 where
  pub exists : Option Bool
  pub eq : Option String
  pub like : Option String

-- regexp.MatchString is a parameter: `none` is its error.
module _ (match_string : String → String → Option Bool) where
  matched : Option Bool → Bool
  matched none = false
  matched (some b) = b

  like_holds : Option String → String → Bool
  like_holds none val = true
  like_holds (some pattern) val = matched (match_string pattern val)

  pub eval_string : FilterString → String → Bool
  eval_string f val =
      if root_eval str_eq (some val) f.exists f.eq then like_holds f.like val else false

-- A time.Time is an instant.
pub record FilterTime : Type 0 where
  pub exists : Option Bool
  pub eq : Option ℕ
  pub before : Option ℕ
  pub after : Option ℕ

is_before : Option ℕ → ℕ → Bool
is_before none val = true
is_before (some t) val = ltb val t

is_after : Option ℕ → ℕ → Bool
is_after none val = true
is_after (some t) val = ltb t val

pub eval_time : FilterTime → ℕ → Bool
eval_time f val =
    if root_eval ◌==◌ (some val) f.exists f.eq
    then if is_before f.before val then is_after f.after val else false
    else false
