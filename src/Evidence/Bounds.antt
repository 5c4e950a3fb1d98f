-- ===== src/Evidence/Bounds.antt =====
-- What sanitised evidence may hold, and that sanitising it again changes nothing.
use iot_ops_agent.Prelude.{
  ℕ, zero, suc, ◌+◌, ◌≤◌, String, ◌≡◌, refl, sym, ap, Bool, false, ◌||◌, arith, eq_iff, ◌==◌,
  string_eq, Bool-cases, inl, inr,
}
use iot_ops_agent.Prelude.Text.{first_chars}
use iot_ops_agent.Prelude.Text.Words.{text_length, text_length-first_chars, first_chars_all}
use iot_ops_agent.MongoProxy.Documents.{
  Value, null, flag, number, text, array, document, Items, nil, item, Fields, end, field,
}
use iot_ops_agent.Evidence.{
  put_field, sanitize, sanitize_items, sanitize_fields, sanitize_evidence, max_key_chars,
}

abbrev pub items_count : Items → ℕ
items_count nil = 0
items_count (item v vs) = suc (items_count vs)

abbrev pub fields_count : Fields → ℕ
fields_count end = 0
fields_count (field key v fs) = suc (fields_count fs)

abbrev pub has_key : String → Fields → Bool
has_key key end = false
has_key key (field k v rest) = k == key || has_key key rest

-- At most so many levels, no key twice, 100 items or fields at each, texts of 2000 and keys of 120 characters.
mutual
  pub IsSmall : (levels : ℕ) → Value → Type 0
  IsSmall zero v = v ≡ text "[truncated]"
  IsSmall (suc l) null = Unit
  IsSmall (suc l) (flag b) = Unit
  IsSmall (suc l) (number n) = Unit
  IsSmall (suc l) (text s) = text_length s ≤ 2000
  IsSmall (suc l) (array xs) = (items_count xs ≤ 100) × AllSmall l xs
  IsSmall (suc l) (document fs) = (fields_count fs ≤ 100) × FieldsSmall l fs

  pub AllSmall : ℕ → Items → Type 0
  AllSmall l nil = Unit
  AllSmall l (item v vs) = IsSmall l v × AllSmall l vs

  pub FieldsSmall : ℕ → Fields → Type 0
  FieldsSmall l end = Unit
  FieldsSmall l (field key v fs) =
      (text_length key ≤ 120) × IsSmall l v × (has_key key fs ≡ false) × FieldsSmall l fs

put_field-count :
    (key : String) (v : Value) (fs : Fields)
    → fields_count (put_field key v fs) ≤ fields_count fs + 1
put_field-count key v end = omega arith
put_field-count key v (field k w fs) = ground (arith, put_field-count key v fs)

has_key-put_field :
    (q key : String) (v : Value) (fs : Fields)
    → has_key q (put_field key v fs) ≡ (has_key q fs || key == q)
has_key-put_field q key v end = ground arith
has_key-put_field q key v (field k w fs) =
    ground (arith, eq_iff k key, eq_iff key q, eq_iff k q, has_key-put_field q key v fs)

put_field-Small :
    (l : ℕ) (key : String) (v : Value) (fs : Fields)
    → text_length key ≤ 120
    → IsSmall l v
    → FieldsSmall l fs
    → FieldsSmall l (put_field key v fs)
unfolding IsSmall
put_field-Small l key v end hk hv h = (hk, hv, refl, tt)
put_field-Small l key v (field k w fs) hk hv (a, b, d, c) = elim (Bool-cases (k == key)) [
  | inl e ↦ rw e (a, hv, d, c)
  | inr e ↦ rw e (
    a,
    b,
    ground (arith, has_key-put_field k key v fs, eq_iff key k, eq_iff k key),
    put_field-Small l key v fs hk hv c,
  )
]

sanitize_items-count : (l n : ℕ) (xs : Items) → items_count (sanitize_items l n xs) ≤ n
unfolding sanitize
sanitize_items-count l zero xs = omega arith
sanitize_items-count l (suc n) nil = omega arith
sanitize_items-count l (suc n) (item v vs) = omega (arith, sanitize_items-count l n vs)

sanitize_fields-count :
    (l n : ℕ) (fs done : Fields)
    → fields_count (sanitize_fields l n fs done) ≤ fields_count done + n
unfolding sanitize
sanitize_fields-count l zero fs done = omega arith
sanitize_fields-count l (suc n) end done = omega arith
sanitize_fields-count l (suc n) (field key v fs) done = omega (
  arith,
  sanitize_fields-count l n fs (put_field (first_chars max_key_chars key) (sanitize l v) done),
  put_field-count (first_chars max_key_chars key) (sanitize l v) done,
)

mutual
  unfolding sanitize IsSmall

  sanitize-Small : (l : ℕ) (v : Value) → IsSmall l (sanitize l v)
  sanitize-Small zero v = refl
  sanitize-Small (suc l) null = tt
  sanitize-Small (suc l) (flag b) = tt
  sanitize-Small (suc l) (number n) = tt
  sanitize-Small (suc l) (text s) = text_length-first_chars 2000 s
  sanitize-Small (suc l) (array xs) = (sanitize_items-count l 100 xs, sanitize_items-Small l 100 xs)
  sanitize-Small (suc l) (document fs) =
      (sanitize_fields-count l 100 fs end, sanitize_fields-Small l 100 fs end tt)

  sanitize_items-Small : (l n : ℕ) (xs : Items) → AllSmall l (sanitize_items l n xs)
  sanitize_items-Small l zero xs = tt
  sanitize_items-Small l (suc n) nil = tt
  sanitize_items-Small l (suc n) (item v vs) = (sanitize-Small l v, sanitize_items-Small l n vs)

  sanitize_fields-Small :
      (l n : ℕ) (fs done : Fields)
      → FieldsSmall l done
      → FieldsSmall l (sanitize_fields l n fs done)
  sanitize_fields-Small l zero fs done h = h
  sanitize_fields-Small l (suc n) end done h = h
  sanitize_fields-Small l (suc n) (field key v fs) done h = sanitize_fields-Small l n fs _ (
      put_field-Small l (first_chars max_key_chars key) (sanitize l v) done
        (text_length-first_chars 120 key) (sanitize-Small l v) h)

-- Whatever the evidence is, what is passed on is nested at most six deep, with at most 100 items or
-- fields at each level, texts of at most 2000 characters and keys of at most 120.
pub sanitize_evidence-IsSmall : (v : Value) → IsSmall 6 (sanitize_evidence v)
unfolding sanitize_evidence
sanitize_evidence-IsSmall v = sanitize-Small 6 v

abbrev append_fields : Fields → Fields → Fields
append_fields end gs = gs
append_fields (field key v fs) gs = field key v (append_fields fs gs)

append_fields_assoc :
    (fs gs hs : Fields)
    → append_fields (append_fields fs gs) hs ≡ append_fields fs (append_fields gs hs)
append_fields_assoc end gs hs = refl
append_fields_assoc (field key v fs) gs hs = rw (append_fields_assoc fs gs hs)

append_fields_end : (fs : Fields) → append_fields fs end ≡ fs
append_fields_end end = refl
append_fields_end (field key v fs) = ap (field key v) (append_fields_end fs)

put_field_new :
    (key : String) (v : Value) (fs : Fields)
    → has_key key fs ≡ false
    → put_field key v fs ≡ append_fields fs (field key v end)
put_field_new key v end h = refl
put_field_new key v (field k w fs) h = elim (Bool-cases (k == key)) [
  | inl e ↦ absurd (ground arith)
  | inr e ↦ rw (e, put_field_new key v fs (ground arith))
]

-- No key of `fs` is one of `done`.
Apart : Fields → Fields → Type 0
Apart end done = Unit
Apart (field key v fs) done = (has_key key done ≡ false) × Apart fs done

Apart-put :
    (key : String) (v : Value) (fs done : Fields)
    → has_key key fs ≡ false
    → Apart fs done
    → Apart fs (put_field key v done)
unfolding Apart
Apart-put key v end done n h = tt
Apart-put key v (field k w fs) done n (a, h) = (
  ground (arith, has_key-put_field k key v done, eq_iff key k, eq_iff k key),
  Apart-put key v fs done (ground arith) h,
)

Apart-end : (fs : Fields) → Apart fs end
unfolding Apart
Apart-end end = tt
Apart-end (field key v fs) = (refl, Apart-end fs)

mutual
  unfolding sanitize IsSmall Apart

  sanitize_of_Small : (l : ℕ) (v : Value) → IsSmall l v → sanitize l v ≡ v
  sanitize_of_Small zero v h = sym h
  sanitize_of_Small (suc l) null h = refl
  sanitize_of_Small (suc l) (flag b) h = refl
  sanitize_of_Small (suc l) (number n) h = refl
  sanitize_of_Small (suc l) (text s) h = ap text (first_chars_all 2000 s h)
  sanitize_of_Small (suc l) (array xs) (n, h) = ap array (sanitize_items_of_Small l 100 xs n h)
  sanitize_of_Small (suc l) (document fs) (n, h) =
      ap document (sanitize_fields_of_Small l 100 fs end n h (Apart-end fs))

  sanitize_items_of_Small :
      (l n : ℕ) (xs : Items) → items_count xs ≤ n → AllSmall l xs → sanitize_items l n xs ≡ xs
  sanitize_items_of_Small l zero nil w h = refl
  sanitize_items_of_Small l zero (item v vs) w h = absurd (omega (arith, w))
  sanitize_items_of_Small l (suc n) nil w h = refl
  sanitize_items_of_Small l (suc n) (item v vs) w (a, h) =
      rw (sanitize_of_Small l v a, sanitize_items_of_Small l n vs (omega (arith, w)) h)

  sanitize_fields_of_Small :
      (l n : ℕ) (fs done : Fields)
      → fields_count fs ≤ n
      → FieldsSmall l fs
      → Apart fs done
      → sanitize_fields l n fs done ≡ append_fields done fs
  sanitize_fields_of_Small l zero end done w h p = sym (append_fields_end done)
  sanitize_fields_of_Small l zero (field key v fs) done w h p = absurd (omega (arith, w))
  sanitize_fields_of_Small l (suc n) end done w h p = sym (append_fields_end done)
  sanitize_fields_of_Small l (suc n) (field key v fs) done w (a, b, d, c) (q, p) =
      let next =
        sanitize_fields_of_Small l n fs (put_field key v done) (omega (arith, w)) c
          (Apart-put key v fs done d p) in
      let order = append_fields_assoc done (field key v end) fs in
      rw (first_chars_all 120 key a, sanitize_of_Small l v b, next, put_field_new key v done q)
        order

-- Evidence that was sanitised is the same when it is sanitised again.
sanitize_evidence_idempotent :
    (v : Value) → sanitize_evidence (sanitize_evidence v) ≡ sanitize_evidence v
unfolding sanitize_evidence
sanitize_evidence_idempotent v = sanitize_of_Small 6 (sanitize 6 v) (sanitize-Small 6 v)
