-- ===== src/Http/Fields.antt =====
-- The header fields of a message as Boost.Beast keeps them: a parameter of the model, with what its
-- documentation says of the operations that the code calls.
use proxypp.Prelude.{
  ℕ, String, ◌≡◌, refl, Bool, true, false, Option, none, some, List, [], ◌∷◌, ◌++◌, arith,
  if◌then◌else◌, length,
}

-- boost::beast::http::fields. `same_name` is its comparison of names, `to_list` its iteration.
pub record Fields : Type 1 where
  pub Headers : Type 0
  pub same_name : String → String → Bool
  pub empty : Headers
  pub to_list : Headers → List (String × String)
  pub find : String → Headers → Option String
  pub contains : String → Headers → Bool
  pub set : String → String → Headers → Headers
  pub insert : String → String → Headers → Headers
  pub erase : String → Headers → Headers × ℕ

module _ (F : Fields) where
  -- The values of the fields of one name.
  unfoldable pub values_in : String → List (String × String) → List String
  values_in m [] = []
  values_in m ((n, v) ∷ rest) = if F.same_name n m then v ∷ values_in m rest else values_in m rest

  unfoldable pub values : String → F.Headers → List String
  values m h = values_in m (F.to_list h)

abbrev pub head? : List String → Option String
head? [] = none
head? (x ∷ xs) = some x

abbrev pub nonempty : List String → Bool
nonempty [] = false
nonempty (x ∷ xs) = true

pub record FieldsLaws (F : Fields) : Type 0 where
  -- Names are compared up to the case of their letters: an equivalence.
  pub same_refl : (n : String) → F.same_name n n ≡ true
  pub same_sym : (n m : String) → F.same_name n m ≡ F.same_name m n
  pub same_trans : (n m k : String) → F.same_name n m ≡ true → F.same_name n k ≡ F.same_name m k
  pub to_list-empty : F.to_list F.empty ≡ []
  pub find-values : (n : String) (h : F.Headers) → F.find n h ≡ head? (values F n h)
  pub contains-values : (n : String) (h : F.Headers) → F.contains n h ≡ nonempty (values F n h)
  -- `set` removes the fields of the name and inserts one.
  pub values-set :
      (n m v : String) (h : F.Headers)
      → values F m (F.set n v h) ≡ (if F.same_name n m then v ∷ [] else values F m h)
  -- `insert` puts the field behind those of the name.
  pub values-insert :
      (n m v : String) (h : F.Headers)
      → values F m (F.insert n v h)
        ≡ (if F.same_name n m then values F m h ++ v ∷ [] else values F m h)
  -- `erase` removes all fields of the name, and returns their number.
  pub values-erase :
      (n m : String) (h : F.Headers)
      → values F m (F.erase n h).0 ≡ (if F.same_name n m then [] else values F m h)
  pub erase-count : (n : String) (h : F.Headers) → (F.erase n h).1 ≡ length (values F n h)

module _ {F : Fields} (L : FieldsLaws F) where
  values_in-same :
      (n m : String) (xs : List (String × String))
      → F.same_name n m ≡ true
      → values_in F n xs ≡ values_in F m xs
  unfolding values_in
  values_in-same n m [] e = refl
  values_in-same n m ((k, v) ∷ xs) e =
      ground (arith, L.same_sym k n, L.same_sym k m, L.same_trans n m k e, values_in-same n m xs e)

  -- Names that compare equal have the same values.
  pub values-same :
      (n m : String) (h : F.Headers) → F.same_name n m ≡ true → values F n h ≡ values F m h
  unfolding values
  values-same n m h e = values_in-same n m (F.to_list h) e
