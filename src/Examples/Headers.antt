-- ===== src/Examples/Headers.antt =====
-- Header fields as a list of names and values.
use proxypp.Prelude.{
  ℕ, suc, String, ◌≡◌, refl, ap, Bool, false, ◌||◌, Option, none, some, List, [], ◌∷◌, ◌++◌, arith,
  eq_iff, str_eq, if◌then◌else◌, length,
}
use proxypp.Http.Fields.{Fields, FieldsLaws, values, values_in, head?, nonempty}

abbrev pub find_in : String → List (String × String) → Option String
find_in m [] = none
find_in m ((n, v) ∷ rest) = if str_eq n m then some v else find_in m rest

abbrev pub contains_in : String → List (String × String) → Bool
contains_in m [] = false
contains_in m ((n, v) ∷ rest) = str_eq n m || contains_in m rest

abbrev pub erase_in : String → List (String × String) → List (String × String)
erase_in m [] = []
erase_in m ((n, v) ∷ rest) = if str_eq m n then erase_in m rest else (n, v) ∷ erase_in m rest

abbrev pub count_in : String → List (String × String) → ℕ
count_in m [] = 0
count_in m ((n, v) ∷ rest) = if str_eq n m then suc (count_in m rest) else count_in m rest

abbrev pub fields : Fields
fields = record {
  Headers = List (String × String);
  same_name = str_eq;
  empty = [];
  to_list = λ h. h;
  find = find_in;
  contains = contains_in;
  set = λ n v h. erase_in n h ++ (n, v) ∷ [];
  insert = λ n v h. h ++ (n, v) ∷ [];
  erase = λ n h. (erase_in n h, count_in n h);
}

str_eq_sym : (n m : String) → str_eq n m ≡ str_eq m n
str_eq_sym n m = ground (arith, eq_iff n m, eq_iff m n)

insert_lem :
    (n m v : String) (h : List (String × String))
    → values fields m (h ++ (n, v) ∷ [])
      ≡ (if str_eq n m then values fields m h ++ v ∷ [] else values fields m h)
unfolding values values_in
insert_lem n m v [] = ground arith
insert_lem n m v ((k, x) ∷ h) = ground (arith, insert_lem n m v h)

erase_lem :
    (n m : String) (h : List (String × String))
    → values fields m (erase_in n h) ≡ (if str_eq n m then [] else values fields m h)
unfolding values values_in
erase_lem n m [] = ground arith
erase_lem n m ((k, x) ∷ h) = ground (arith, erase_lem n m h, eq_iff n k, eq_iff n m, eq_iff k m)

find_lem : (m : String) (h : List (String × String)) → find_in m h ≡ head? (values fields m h)
unfolding values values_in
find_lem m [] = refl
find_lem m ((k, x) ∷ h) = ground (arith, find_lem m h)

contains_lem :
    (m : String) (h : List (String × String)) → contains_in m h ≡ nonempty (values fields m h)
unfolding values values_in
contains_lem m [] = refl
contains_lem m ((k, x) ∷ h) = ground (arith, contains_lem m h)

count_lem : (m : String) (h : List (String × String)) → count_in m h ≡ length (values fields m h)
unfolding values values_in
count_lem m [] = refl
count_lem m ((k, x) ∷ h) = ground (arith, count_lem m h)

set_lem :
    (n m v : String) (h : List (String × String))
    → values fields m (erase_in n h ++ (n, v) ∷ [])
      ≡ (if str_eq n m then v ∷ [] else values fields m h)
set_lem n m v h = ground (arith, insert_lem n m v (erase_in n h), erase_lem n m h)

pub fields-FieldsLaws : FieldsLaws fields
fields-FieldsLaws = record {
  same_refl = λ n. (eq_iff n n).1 refl;
  same_sym = str_eq_sym;
  same_trans = λ n m k e. ap (λ z. str_eq z k) ((eq_iff n m).0 e);
  to_list-empty = refl;
  find-values = find_lem;
  contains-values = contains_lem;
  values-set = set_lem;
  values-insert = insert_lem;
  values-erase = erase_lem;
  erase-count = count_lem;
}
