-- ===== src/Json/Objects.antt =====
-- Laws of the objects of Boost.JSON.
use cherry_recorder_server.Prelude.{String, str_eq, eq_iff, ◌≡◌, refl, arith, some, if◌then◌else◌}
use cherry_recorder_server.Json.{
  Result, ok, throws, ◌>>=◌, ◌>>◌, Value, Object, end, field, find, assign,
}

pub find-assign :
    {Double : Type 0} (k j : String) (v : Value Double) (o : Object Double)
    → find j (assign k v o) ≡ (if str_eq k j then some v else find j o)
unfolding find assign
find-assign k j v end = refl
find-assign k j v (field i w o) =
    ground (arith, eq_iff k j, eq_iff i k, eq_iff i j, find-assign k j v o)

-- A call that another one follows, where both end with a value
pub >>=-ends :
    {A B : Type 0} (next : A → Result B) (first : Result A) {last : B}
    → (first >>= next) ≡ ok last
    → (value : A) × (next value ≡ ok last) × (first ≡ ok value)
>>=-ends next (throws what) ended = cc
>>=-ends next (ok value) ended = (value, ended, refl)

pub >>-ends :
    {B : Type 0} (first : Result (Unit {0})) (rest : Result B) {last : B}
    → (first >> rest) ≡ ok last
    → rest ≡ ok last
>>-ends (throws what) rest ended = cc
>>-ends (ok done) rest ended = ended

module _ {A B C D Z : Type 0} (f : A → B → C → D → Z) where
  -- Four calls that do not depend on one another
  pub >>=-ends_4 :
      (m : Result A) (n : Result B) (o : Result C) (p : Result D) {z : Z}
      → (m >>= λ a. n >>= λ b. o >>= λ c. p >>= λ d. ok (f a b c d)) ≡ ok z
      → (a : A) × (b : B) × (c : C) × (d : D) × (m ≡ ok a)
        × (n ≡ ok b)
        × (o ≡ ok c)
        × (p ≡ ok d)
        × (z ≡ f a b c d)
  >>=-ends_4 (ok a) (ok b) (ok c) (ok d) {z} e = (a, b, c, d, refl, refl, refl, refl, cc e)
  >>=-ends_4 (ok a) (ok b) (ok c) (throws what) e = cc
  >>=-ends_4 (ok a) (ok b) (throws what) p e = cc
  >>=-ends_4 (ok a) (throws what) o p e = cc
  >>=-ends_4 (throws what) n o p e = cc
