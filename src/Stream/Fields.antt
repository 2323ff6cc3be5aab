-- ===== src/Stream/Fields.antt =====
-- stream.go: the fields of an entry as one value. `none` is `ErrCorruptValue`, and the rest of `v`
-- from `i` on stands for the cursor `i`.
use pebbis.Prelude.{
  ℕ, zero, suc, ◌+◌, ◌%◌, ◌^◌, ◌<◌, ◌≡◌, ◌∙◌, refl, sym, ap, arith, Option, none, some, List, [],
  ◌∷◌, ◌++◌, ltb, if◌then◌else◌, length, length-append, take, drop, append_assoc, append-nil,
}
use native.Mathlib.Nat.{mod-eq_of_lt}
use pebbis.Prelude.Bytes.{
  Bytes, append_be, append_be-append, be_before, be_before-append, be_value, be_value-be_before,
  take-be_before, drop-be_before, length-be_before, take-append, drop-append,
}
use pebbis.Stream.{StreamField}

-- The count is put into the two bytes that the buffer starts with.
pub encode_loop : Bytes → List StreamField → Bytes
encode_loop buf [] = buf
encode_loop buf (f ∷ fields) =
    let buf = append_be 2 buf (length f.field % 2 ^ 16) in
    let buf = buf ++ f.field in
    let buf = append_be 4 buf (length f.value % 2 ^ 32) in
    let buf = buf ++ f.value in encode_loop buf fields

unfoldable pub encode_stream_fields : List StreamField → Bytes
encode_stream_fields fields = encode_loop (append_be 2 [] (length fields % 2 ^ 16)) fields

pub decode_loop : ℕ → Bytes → List StreamField → Option (List StreamField)
decode_loop zero rest out = some out
decode_loop (suc n) rest out =
    if ltb (length rest) 2
    then none
    else let fl = be_value (take 2 rest) in
      let rest = drop 2 rest in
      if ltb (length rest) (fl + 4)
      then none
      else let field = take fl rest in
        let rest = drop fl rest in
        let vl = be_value (take 4 rest) in
        let rest = drop 4 rest in
        let loop =
          decode_loop n (drop vl rest)
            (out ++ record { field = field; value = take vl rest } ∷ []) in
        if ltb (length rest) vl then none else loop

unfoldable pub decode_stream_fields : Bytes → Option (List StreamField)
decode_stream_fields v =
    if ltb (length v) 2 then none else decode_loop (be_value (take 2 v)) (drop 2 v) []

-- What the lengths before the fields can count.
abbrev pub Fits : List StreamField → Type 0
Fits [] = Unit
Fits (f ∷ fields) = (length f.field < 2 ^ 16) × ((length f.value < 2 ^ 32) × Fits fields)

abbrev body : List StreamField → Bytes → Bytes
body [] more = more
body (f ∷ fields) more =
    be_before 2 (length f.field)
      (f.field ++ be_before 4 (length f.value) (f.value ++ body fields more))

append_field :
    (buf : Bytes) (f : StreamField) (more : Bytes)
    → (append_be 4 (append_be 2 buf (length f.field) ++ f.field) (length f.value) ++ f.value)
        ++ more
      ≡ buf
        ++ be_before 2 (length f.field) (f.field ++ be_before 4 (length f.value) (f.value ++ more))
append_field buf f more = simp (append_assoc, append_be-append, be_before-append)

encode_loop_lem :
    (buf : Bytes) (fields : List StreamField)
    → Fits fields
    → encode_loop buf fields ≡ buf ++ body fields []
unfolding encode_loop
encode_loop_lem buf [] h = sym (append-nil buf)
encode_loop_lem buf (f ∷ fields) (hf, (hv, h)) =
    rw (mod-eq_of_lt hf, mod-eq_of_lt hv)
      (encode_loop_lem
          (append_be 4 (append_be 2 buf (length f.field) ++ f.field) (length f.value) ++ f.value)
          fields h
        ∙ append_field buf f (body fields []))

decode_block :
    (n : ℕ) (f : StreamField) (more : Bytes) (out : List StreamField)
    → length f.field < 2 ^ 16
    → length f.value < 2 ^ 32
    → decode_loop
        (suc n)
        (be_before 2 (length f.field) (f.field ++ be_before 4 (length f.value) (f.value ++ more)))
        out
      ≡ decode_loop n more (out ++ f ∷ [])
unfolding decode_loop
decode_block n f more out hf hv =
    let rest : Bytes = f.field ++ be_before 4 (length f.value) (f.value ++ more) in
    ground (
      arith,
      length-be_before 2 (length f.field) rest,
      take-be_before 2 (length f.field) rest,
      drop-be_before 2 (length f.field) rest,
      be_value-be_before 2 (length f.field) hf,
      length-append f.field (be_before 4 (length f.value) (f.value ++ more)),
      take-append (length f.field) f.field (be_before 4 (length f.value) (f.value ++ more)) refl,
      drop-append (length f.field) f.field (be_before 4 (length f.value) (f.value ++ more)) refl,
      length-be_before 4 (length f.value) (f.value ++ more),
      take-be_before 4 (length f.value) (f.value ++ more),
      drop-be_before 4 (length f.value) (f.value ++ more),
      be_value-be_before 4 (length f.value) hv,
      length-append f.value more,
      take-append (length f.value) f.value more refl,
      drop-append (length f.value) f.value more refl,
    )

decode_loop_lem :
    (fields : List StreamField) (more : Bytes) (out : List StreamField)
    → Fits fields
    → decode_loop (length fields) (body fields more) out ≡ some (out ++ fields)
unfolding decode_loop
decode_loop_lem [] more out h = rw append-nil refl
decode_loop_lem (f ∷ fields) more out (hf, (hv, h)) =
    decode_block (length fields) f (body fields more) out hf hv
    ∙ decode_loop_lem fields more (out ++ f ∷ []) h
    ∙ ap some (append_assoc out (f ∷ []) fields)

-- Fewer than 2^16 fields whose names have fewer than 2^16 bytes and whose values have fewer than
-- 2^32 are read back as they were, in their order and with their duplicates.
pub decode-encode_stream_fields :
    (fields : List StreamField)
    → length fields < 2 ^ 16
    → Fits fields
    → decode_stream_fields (encode_stream_fields fields) ≡ some fields
unfolding decode_stream_fields encode_stream_fields
decode-encode_stream_fields fields few h =
    rw (mod-eq_of_lt few, encode_loop_lem (append_be 2 [] (length fields)) fields h)
      (ground (
        arith,
        append_be-append 2 (length fields) [] (body fields []),
        length-be_before 2 (length fields) (body fields []),
        take-be_before 2 (length fields) (body fields []),
        drop-be_before 2 (length fields) (body fields []),
        be_value-be_before 2 (length fields) few,
        decode_loop_lem fields [] [] h,
      ))
