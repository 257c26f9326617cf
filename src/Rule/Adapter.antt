-- ===== src/Rule/Adapter.antt =====
-- The adapters through which a rule reads and changes the header of a message:
-- src/proxypp/rule/http/{request_adapter,response_adapter}.h.
use proxypp.Prelude.{ℕ, String, ◌≡◌, Bool, Option, List, [], ◌∷◌, if◌then◌else◌}

-- The part that both adapters declare, over a message of the type A.
pub record Adapter (A : Type 0) : Type 0 where
  pub get_header : String → A → Option String
  pub get_all_headers : A → List (String × String)
  pub set_header : String → String → A → A
  pub add_header : String → String → A → A
  pub replace_header : String → String → A → A
  pub remove_header : String → A → A

-- What is read of a request and of a response besides the headers.
pub record RequestReader (A : Type 0) : Type 0 where
  pub method : A → String
  pub target : A → String
  pub version : A → ℕ

pub record ResponseReader (A : Type 0) : Type 0 where
  pub status : A → ℕ
  pub reason : A → String
  pub version : A → ℕ

-- What an operation leaves of the values of one header.
abbrev pub add_values : String → List String → List String
add_values v [] = v ∷ []
add_values v (x ∷ xs) = x ∷ xs

abbrev pub replace_values : String → List String → List String
replace_values v [] = []
replace_values v (x ∷ xs) = v ∷ []

-- What an implementation promises: `values` are the values of a header, in order, and `same`
-- compares header names.
pub record AdapterLaws {A : Type 0} (ops : Adapter A) (same : String → String → Bool)
    (values : String → A → List String) : Type 0 where
  pub values-set :
      (n m v : String) (a : A)
      → values m (ops.set_header n v a) ≡ (if same n m then v ∷ [] else values m a)
  pub values-add :
      (n m v : String) (a : A)
      → values m (ops.add_header n v a)
        ≡ (if same n m then add_values v (values m a) else values m a)
  pub values-replace :
      (n m v : String) (a : A)
      → values m (ops.replace_header n v a)
        ≡ (if same n m then replace_values v (values m a) else values m a)
  pub values-remove :
      (n m : String) (a : A)
      → values m (ops.remove_header n a) ≡ (if same n m then [] else values m a)
