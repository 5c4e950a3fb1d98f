-- ===== src/MongoProxy/Documents/Keys.antt =====
-- The keys of a document at every depth, and what the validation says of them.
use iot_ops_agent.Prelude.{
  String, ◌≡◌, ◌↔◌, refl, inl, inr, false, List, [], ◌∷◌, ◌++◌, All, All-append, string_eq, ◌≢◌,
  any, ◌==◌, arith, eq_iff, Bool-cases,
}
use iot_ops_agent.Prelude.Result.{ok, >>=-eq-ok}
use iot_ops_agent.MongoProxy.Documents.{
  Value, null, flag, number, text, array, document, Items, nil, item, Fields, end, field,
  blocked_query_operators, is_blocked, validate_read_document, validate_items, validate_fields,
}

mutual
  pub keys : Value → List String
  keys null = []
  keys (flag b) = []
  keys (number n) = []
  keys (text s) = []
  keys (array xs) = item_keys xs
  keys (document fs) = field_keys fs

  pub item_keys : Items → List String
  item_keys nil = []
  item_keys (item v vs) = keys v ++ item_keys vs

  pub field_keys : Fields → List String
  field_keys end = []
  field_keys (field key v fs) = key ∷ (keys v ++ field_keys fs)

abbrev pub IsAllowed : String → Type 0
IsAllowed key = All (λ b. b ≢ key) blocked_query_operators

apart-any :
    (key : String) (bs : List String) → (any (λ b. b == key) bs ≡ false) ↔ All (λ b. b ≢ key) bs
apart-any key [] = (λ _. tt, λ _. refl)
apart-any key (b ∷ bs) = (
  λ h. (ground (arith, eq_iff b key), (apart-any key bs).0 (ground arith)),
  λ (ne, nes). ground (arith, eq_iff b key, (apart-any key bs).1 nes),
)

is_blocked_iff : (key : String) → (is_blocked key ≡ false) ↔ IsAllowed key
unfolding is_blocked
is_blocked_iff key = apart-any key blocked_query_operators

All-append_iff :
    (xs ys : List String) → All IsAllowed (xs ++ ys) → All IsAllowed xs × All IsAllowed ys
All-append_iff [] ys h = (tt, h)
All-append_iff (x ∷ xs) ys (h, hs) = let (a, b) = All-append_iff xs ys hs in ((h, a), b)

mutual
  unfolding keys validate_read_document

  IsAllowed-of_ok : (v : Value) → validate_read_document v ≡ ok tt → All IsAllowed (keys v)
  IsAllowed-of_ok null h = tt
  IsAllowed-of_ok (flag b) h = tt
  IsAllowed-of_ok (number n) h = tt
  IsAllowed-of_ok (text s) h = tt
  IsAllowed-of_ok (array xs) h = IsAllowed-of_ok_items xs h
  IsAllowed-of_ok (document fs) h = IsAllowed-of_ok_fields fs h

  IsAllowed-of_ok_items : (xs : Items) → validate_items xs ≡ ok tt → All IsAllowed (item_keys xs)
  IsAllowed-of_ok_items nil h = tt
  IsAllowed-of_ok_items (item v vs) h =
      let (_, (hv, hs)) = >>=-eq-ok (validate_read_document v) _ h in
      All-append IsAllowed (keys v) (item_keys vs) (IsAllowed-of_ok v hv)
        (IsAllowed-of_ok_items vs hs)

  IsAllowed-of_ok_fields :
      (fs : Fields) → validate_fields fs ≡ ok tt → All IsAllowed (field_keys fs)
  IsAllowed-of_ok_fields end h = tt
  IsAllowed-of_ok_fields (field key v fs) h = elim (Bool-cases (is_blocked key)) [
    | inl e ↦ absurd (cc (rw e at h))
    | inr e ↦
        let (_, (hv, hs)) = >>=-eq-ok (validate_read_document v) _ (rw e at h) in
        (
          (is_blocked_iff key).0 e,
          All-append IsAllowed (keys v) (field_keys fs) (IsAllowed-of_ok v hv)
              (IsAllowed-of_ok_fields fs hs),
        )
  ]

mutual
  unfolding keys validate_read_document

  ok_of_IsAllowed : (v : Value) → All IsAllowed (keys v) → validate_read_document v ≡ ok tt
  ok_of_IsAllowed null h = refl
  ok_of_IsAllowed (flag b) h = refl
  ok_of_IsAllowed (number n) h = refl
  ok_of_IsAllowed (text s) h = refl
  ok_of_IsAllowed (array xs) h = ok_of_IsAllowed_items xs h
  ok_of_IsAllowed (document fs) h = ok_of_IsAllowed_fields fs h

  ok_of_IsAllowed_items : (xs : Items) → All IsAllowed (item_keys xs) → validate_items xs ≡ ok tt
  ok_of_IsAllowed_items nil h = refl
  ok_of_IsAllowed_items (item v vs) h =
      let (a, b) = All-append_iff (keys v) (item_keys vs) h in
      rw (ok_of_IsAllowed v a) (ok_of_IsAllowed_items vs b)

  ok_of_IsAllowed_fields :
      (fs : Fields) → All IsAllowed (field_keys fs) → validate_fields fs ≡ ok tt
  ok_of_IsAllowed_fields end h = refl
  ok_of_IsAllowed_fields (field key v fs) (e, h) =
      let (a, b) = All-append_iff (keys v) (field_keys fs) h in
      rw ((is_blocked_iff key).1 e, ok_of_IsAllowed v a) (ok_of_IsAllowed_fields fs b)

-- A document is accepted exactly if no key at any depth is a blocked operator.
pub validate_read_document_iff :
    (v : Value) → (validate_read_document v ≡ ok tt) ↔ All IsAllowed (keys v)
validate_read_document_iff v = (IsAllowed-of_ok v, ok_of_IsAllowed v)
