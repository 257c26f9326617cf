-- ===== src/Http/Adapter/Laws.antt =====
-- The adapters keep the promises of their interface, whatever the fields.
use proxypp.Prelude.{String, ◌≡◌, refl, ap, ◌∙◌, true, false, List, [], ◌∷◌, arith, if◌then◌else◌}
use proxypp.Http.Fields.{Fields, FieldsLaws, values, values-same, nonempty}
use proxypp.Rule.Adapter.{AdapterLaws, add_values, replace_values}
use proxypp.Http.Adapter.{
  set_header, add_header, replace_header, remove_header, request_adapter, response_adapter,
  request_values, response_values,
}

add_values-nonempty : (v : String) (xs : List String) → nonempty xs ≡ true → add_values v xs ≡ xs
add_values-nonempty v [] e = cc
add_values-nonempty v (x ∷ xs) e = refl

add_values-empty : (v : String) (xs : List String) → nonempty xs ≡ false → add_values v xs ≡ v ∷ []
add_values-empty v [] e = refl
add_values-empty v (x ∷ xs) e = cc

replace_values-nonempty :
    (v : String) (xs : List String) → nonempty xs ≡ true → replace_values v xs ≡ v ∷ []
replace_values-nonempty v [] e = cc
replace_values-nonempty v (x ∷ xs) e = refl

replace_values-empty :
    (v : String) (xs : List String) → nonempty xs ≡ false → replace_values v xs ≡ xs
replace_values-empty v [] e = refl
replace_values-empty v (x ∷ xs) e = cc

module _ {F : Fields} (L : FieldsLaws F) where
  -- A name that compares equal is there exactly if this one is.
  contains-same :
      (n m : String) (h : F.Headers)
      → F.same_name n m ≡ true
      → F.contains n h ≡ nonempty (values F m h)
  contains-same n m h e = L.contains-values n h ∙ ap nonempty (values-same L n m h e)

  values-add :
      (n m v : String) (h : F.Headers)
      → values F m (add_header F n v h)
        ≡ (if F.same_name n m then add_values v (values F m h) else values F m h)
  unfolding add_header
  values-add n m v h = ground (
    arith,
    contains-same n m h,
    L.values-set n m v h,
    add_values-nonempty v (values F m h),
    add_values-empty v (values F m h),
  )

  values-replace :
      (n m v : String) (h : F.Headers)
      → values F m (replace_header F n v h)
        ≡ (if F.same_name n m then replace_values v (values F m h) else values F m h)
  unfolding replace_header
  values-replace n m v h = ground (
    arith,
    contains-same n m h,
    L.values-set n m v h,
    replace_values-nonempty v (values F m h),
    replace_values-empty v (values F m h),
  )

  -- The request adapter sets, adds, replaces and removes a header as its interface promises, under
  -- every name that compares equal, and changes no other header.
  pub request_adapter-AdapterLaws : AdapterLaws (request_adapter F) F.same_name (request_values F)
  unfolding request_adapter set_header add_header replace_header remove_header
  request_adapter-AdapterLaws = record {
    values-set = λ n m v r. L.values-set n m v r.fields;
    values-add = λ n m v r. values-add n m v r.fields;
    values-replace = λ n m v r. values-replace n m v r.fields;
    values-remove = λ n m r. L.values-erase n m r.fields;
  }

  -- So does the response adapter.
  pub response_adapter-AdapterLaws :
      AdapterLaws (response_adapter F) F.same_name (response_values F)
  unfolding response_adapter set_header add_header replace_header remove_header
  response_adapter-AdapterLaws = record {
    values-set = λ n m v r. L.values-set n m v r.fields;
    values-add = λ n m v r. values-add n m v r.fields;
    values-replace = λ n m v r. values-replace n m v r.fields;
    values-remove = λ n m r. L.values-erase n m r.fields;
  }
