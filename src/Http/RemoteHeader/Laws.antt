-- ===== src/Http/RemoteHeader/Laws.antt =====
-- Which headers reach the other side.
use proxypp.Prelude.{
  ℕ, String, ◌≡◌, ◌⊎◌, inl, inr, none, Bool-cases, refl, sym, ap, ◌∙◌, Bool, true, false, ◌||◌,
  some, List, [], ◌∷◌, ◌++◌, append-nil, append_assoc, arith, if◌then◌else◌,
}
use proxypp.Http.Fields.{Fields, FieldsLaws, values, values_in}
use proxypp.Http.Adapter.{RequestHeader, ResponseHeader}
use proxypp.Http.RemoteInfo.{RemoteInfo}
use proxypp.Http.RemoteHeader.{
  Enumerations, insert_all, erase_all, fields_to_erase, build_remote_request_header, remote_request,
  client_response,
}

-- What Boost.Beast promises of the status codes: a code that its enumeration names stands for
-- itself, and any other for `unknown`, whose value is 0.
pub record EnumerationsLaws (N : Enumerations) : Type 0 where
  pub is_named : ℕ → Bool
  pub int_to_status-named : (code : ℕ) → is_named code ≡ true → N.int_to_status code ≡ code
  pub int_to_status-unnamed : (code : ℕ) → is_named code ≡ false → N.int_to_status code ≡ 0

-- Whether a name compares equal to one of a list.
abbrev pub named_in : (F : Fields) → List String → String → Bool
named_in F [] m = false
named_in F (n ∷ ns) m = F.same_name n m || named_in F ns m

module _ {F : Fields} (L : FieldsLaws F) where
  values-insert_all :
      (m : String) (xs : List (String × String)) (h : F.Headers)
      → values F m (insert_all F xs h) ≡ values F m h ++ values_in F m xs
  unfolding insert_all values_in
  values-insert_all m [] h = sym (append-nil _)
  values-insert_all m ((n, v) ∷ xs) h = ground (
    arith,
    values-insert_all m xs (F.insert n v h),
    L.values-insert n m v h,
    append_assoc (values F m h) (v ∷ []) (values_in F m xs),
  )

  -- Copying the fields of a message one by one keeps the values of every header, in order.
  values-copy :
      (m : String) (h : F.Headers) → values F m (insert_all F (F.to_list h) F.empty) ≡ values F m h
  unfolding values values_in
  values-copy m h =
      values-insert_all m (F.to_list h) F.empty
      ∙ ap (λ z. values_in F m z ++ values_in F m (F.to_list h)) L.to_list-empty

  values-erase_all :
      (m : String) (names : List String) (h : F.Headers)
      → values F m (erase_all F names h) ≡ (if named_in F names m then [] else values F m h)
  unfolding erase_all
  values-erase_all m [] h = refl
  values-erase_all m (n ∷ names) h =
      ground (arith, values-erase_all m names (F.erase n h).0, L.values-erase n m h)

  module _ (N : Enumerations) where
    -- The request for the remote, with the names that it must lack.
    pub record BuiltFrom (header : RequestHeader F) (info : RemoteInfo) (built : RequestHeader F)
        : Type 0 where
      pub method : built.method ≡ header.method
      pub version : built.version ≡ header.version
      pub target : built.target ≡ info.forward_target
      pub kept :
          (m : String)
          → values F m built.fields ≡ (
              if named_in F
                ("Proxy-Connection" ∷ "Proxy-Authorization" ∷ "Proxy-Authenticate" ∷ [])
                m
              then []
              else values F m header.fields)

    -- The request for the remote is built if Boost.Beast knows the method, and refused if it does
    -- not; what is built has the method and the version of the client's request, the target of the
    -- remote, and every header of the client's request with its values in order, but for
    -- Proxy-Connection, Proxy-Authorization and Proxy-Authenticate, which it lacks.
    pub build_remote_request_header_lem :
        (header : RequestHeader F) (info : RemoteInfo)
        → ((N.known_method header.method ≡ true)
            × (built : RequestHeader F) × (build_remote_request_header F N header info ≡ some built)
            × BuiltFrom header info built)
          ⊎ ((N.known_method header.method ≡ false)
              × (build_remote_request_header F N header info ≡ none))
    unfolding build_remote_request_header
    build_remote_request_header_lem header info = elim (Bool-cases (N.known_method header.method)) [
      | inl known ↦ rw known (
          inl (
            refl,
            _,
            refl,
            record {
              method = refl;
              version = refl;
              target = refl;
              kept = λ m.
                  values-erase_all m (fields_to_erase F) _
                  ∙ ap (λ z. if named_in F (fields_to_erase F) m then [] else z)
                      (values-copy m header.fields);
            },
          ))
      | inr unknown ↦ rw unknown (inr (refl, refl))
    ]

    -- What is written to the remote has the values of every header of the request that the rules
    -- have left.
    pub remote_request-values :
        (header written : RequestHeader F) (m : String)
        → remote_request F N header ≡ some written
        → values F m written.fields ≡ values F m header.fields
    unfolding remote_request
    remote_request-values header written m e = ground (arith, values-copy m header.fields)

    -- What is written to the client has the values of every header of the response, its version and
    -- its reason; its status is that of the response where Boost.Beast has a name for the code, and
    -- 0 where it has none.
    pub client_response_lem :
        (laws : EnumerationsLaws N) (header : ResponseHeader F)
        → ((m : String) → values F m (client_response F N header).fields ≡ values F m header.fields)
          × ((client_response F N header).reason ≡ header.reason)
          × ((client_response F N header).version ≡ header.version)
          × (((laws.is_named header.result ≡ true)
                × ((client_response F N header).result ≡ header.result))
              ⊎ ((laws.is_named header.result ≡ false) × ((client_response F N header).result ≡ 0)))
    unfolding client_response
    client_response_lem laws header = (
      λ m. values-copy m header.fields,
      refl,
      refl,
      elim (Bool-cases (laws.is_named header.result)) [
        | inl named ↦ inl (named, laws.int_to_status-named header.result named)
        | inr unnamed ↦ inr (unnamed, laws.int_to_status-unnamed header.result unnamed)
      ],
    )
