-- ===== src/Json.antt =====
-- What src/handlers/PlacesApiHandler.cpp uses of Boost.JSON: its values with their kinds, the
-- accessors with the exceptions they throw. The type of a double, the parser and the printer are
-- arguments.
pub mod Objects
use Prim.Native.String.{[], ◌∷◌}
use cherry_recorder_server.Integer.{ℤ}
use cherry_recorder_server.Prelude.{
  ℕ, String, code, Bool, true, false, str_eq, Option, none, some, ◌==◌, if◌then◌else◌,
}

-- A call ends with a value, or with an exception whose `what()` is the text.
pub data Result (A : Type 0) : Type 0 where
  throws : String → Result A
  ok : A → Result A

infixl 4 ◌>>=◌ ◌>>◌
abbrev pub ◌>>=◌ : {A B : Type 0} → Result A → (A → Result B) → Result B
throws what >>= next = throws what
ok value >>= next = next value

-- A call that returns nothing
abbrev pub ◌>>◌ : {B : Type 0} → Result (Unit {0}) → Result B → Result B
throws what >> rest = throws what
ok done >> rest = rest

mutual
  pub data Value (Double : Type 0) : Type 0 where
    null : Value Double
    bool : Bool → Value Double
    int64 : ℤ → Value Double
    uint64 : ℕ → Value Double
    double : Double → Value Double
    string : String → Value Double
    array : Array Double → Value Double
    object : Object Double → Value Double

  pub data Array (Double : Type 0) : Type 0 where
    nil : Array Double
    item : Value Double → Array Double → Array Double

  pub data Object (Double : Type 0) : Type 0 where
    end : Object Double
    field : String → Value Double → Object Double → Object Double

-- Boost.JSON, and the arithmetic of doubles: a literal of the source, `static_cast<double>`,
-- `radius > 0`, `std::round(x * 1000000) / 1000000.0`, and `to_number<int>` as a status.
pub record Library (Double : Type 0) : Type 0 where
  pub parse : String → Result (Value Double)
  pub serialize : Value Double → String
  pub to_status : Value Double → Result ℕ
  pub out_of_range : String
  pub not_kind : String → String
  pub literal : String → Double
  pub of_int64 : ℤ → Double
  pub is_positive : Double → Bool
  pub six_digits : Double → Double

abbrev pub is_some {ℓ} : {A : Type ℓ} → Option A → Bool
is_some none = false
is_some (some a) = true

module _ {Double : Type 0} where
  unfoldable pub find : String → Object Double → Option (Value Double)
  find k end = none
  find k (field j v o) = let rest = find k o in if str_eq j k then some v else rest

  -- `o.contains(k)`
  abbrev pub contains : String → Object Double → Bool
  contains k o = is_some (find k o)

  -- `o[k] = v`: a new key stands at the end.
  unfoldable pub assign : String → Value Double → Object Double → Object Double
  assign k v end = field k v end
  assign k v (field j w o) =
      let rest = assign k v o in if str_eq j k then field k v o else field j w rest

  module _ (l : Library Double) where
    abbrev pub as_object : Value Double → Result (Object Double)
    as_object (object o) = ok o
    as_object _ = throws (l.not_kind "object")

    abbrev pub as_array : Value Double → Result (Array Double)
    as_array (array a) = ok a
    as_array _ = throws (l.not_kind "array")

    abbrev pub as_string : Value Double → Result String
    as_string (string s) = ok s
    as_string _ = throws (l.not_kind "string")

    abbrev pub as_double : Value Double → Result Double
    as_double (double x) = ok x
    as_double _ = throws (l.not_kind "double")

    abbrev pub found : Option (Value Double) → Result (Value Double)
    found none = throws l.out_of_range
    found (some v) = ok v

    -- `v.at(k)`
    unfoldable pub at : String → Value Double → Result (Value Double)
    unfolding find
    at k v = do o ← as_object v; found (find k o)

-- `std::string(s.c_str())`: up to the first zero
unfoldable pub c_str : String → String
c_str [] = ""
c_str (c ∷ s) = let rest = c_str s in if code c == 0 then "" else c ∷ rest
