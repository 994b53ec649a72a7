-- ===== src/Core/Canonical.antt =====
-- oprow/core/canonical.py: the restricted canonical CBOR. A text is given by its UTF-8 bytes, and
-- a position in the input is given by the bytes from there on. Whether bytes are UTF-8 is decided by
-- Python's codec, a parameter. The decoder and the encoder recur on the number of nested calls of
-- themselves that the interpreter's stack has room for; its end is Python's RecursionError. A nested call
-- of the encoder takes more of the stack than one of the decoder, so that the two numbers are separate.
pub mod Head
pub mod WellFormed
pub mod Stack
pub mod RoundTrip
pub mod Strict
pub mod Accepts
pub mod Remaining
pub mod Depth
use watermarks_po_c.Common.{
  ℕ, zero, suc, ◌+◌, ◌-◌, ◌*◌, ◌/◌, ◌%◌, ltb, leb, ◌==◌, if◌then◌else◌, Bool, true, false, not,
  Option, none, some, List, [], ◌∷◌, ◌++◌, length, take, drop, any, bytes_eq, bytes_ltb, String,
  Result, ok, err, ◌>>=◌, ◌>>◌, raise_if, canonicalization_error, recursion_error, ℤ, pos, negsuc,
}
use watermarks_po_c.Core.Hashes.{to_bytes_be, from_bytes_be}

-- The restricted primitives. Arrays and maps hold their members in order.
mutual
  pub data Value : Type 0 where
    null : Value
    bool : Bool → Value
    int : ℤ → Value
    bytes : List ℕ → Value
    text : List ℕ → Value
    array : Items → Value
    dict : Fields → Value

  pub data Items : Type 0 where
    no_items : Items
    item : Value → Items → Items

  pub data Fields : Type 0 where
    no_fields : Fields
    field : List ℕ → Value → Fields → Fields

-- The low five bits of the prefix are clear, so that `|` adds the additional information.
abbrev pub first_byte : ℕ → ℕ → ℕ
first_byte major info = major * 32 + info

-- A length is a natural number, so that it is never negative.
unfoldable pub head : ℕ → ℕ → Result (List ℕ)
head major n =
    if ltb n 24
    then ok (first_byte major n ∷ [])
    else if leb n 0xFF
    then ok (first_byte major 24 ∷ to_bytes_be n 1)
    else if leb n 0xFFFF
    then ok (first_byte major 25 ∷ to_bytes_be n 2)
    else if leb n 0xFFFFFFFF
    then ok (first_byte major 26 ∷ to_bytes_be n 4)
    else if leb n 0xFFFFFFFFFFFFFFFF
    then ok (first_byte major 27 ∷ to_bytes_be n 8)
    else err (canonicalization_error "CBOR length exceeds 64-bit range")

unfoldable pub encode_text : List ℕ → Result (List ℕ)
unfolding head
encode_text raw = do n ← head 3 (length raw); ok (n ++ raw)

-- `b"".join(parts)`
abbrev pub join : List (List ℕ) → List ℕ
join [] = []
join (part ∷ parts) = part ++ join parts

-- `b"".join(k + v for k, v in pairs)`
abbrev pub join_pairs : List (List ℕ × List ℕ) → List ℕ
join_pairs [] = []
join_pairs ((k, v) ∷ pairs) = (k ++ v) ++ join_pairs pairs

-- `pairs.sort(key=lambda kv: kv[0])`: pairs with equal keys keep their order.
unfoldable pub insert_pair : List ℕ × List ℕ → List (List ℕ × List ℕ) → List (List ℕ × List ℕ)
insert_pair p [] = p ∷ []
insert_pair p (q ∷ qs) =
    let rest = insert_pair p qs in if bytes_ltb q.0 p.0 then q ∷ rest else p ∷ q ∷ qs

unfoldable pub sort_pairs : List (List ℕ × List ℕ) → List (List ℕ × List ℕ)
sort_pairs [] = []
sort_pairs (p ∷ ps) = insert_pair p (sort_pairs ps)

-- The bytes of `_encode` with no end of the stack: the reference for `encode_at` below.
-- A negative integer `negsuc n` has the argument `-1 - value`, which is `n`.
unfoldable mutual
  pub encode : Value → Result (List ℕ)
  encode null = ok (0xF6 ∷ [])
  encode (bool false) = ok (0xF4 ∷ [])
  encode (bool true) = ok (0xF5 ∷ [])
  encode (int (pos n)) = head 0 n
  encode (int (negsuc n)) = head 1 n
  encode (bytes raw) = do n ← head 2 (length raw); ok (n ++ raw)
  encode (text raw) = encode_text raw
  encode (array xs) = do parts ← encode_items xs; n ← head 4 (length parts); ok (n ++ join parts)
  encode (dict fs) = do
    pairs ← encode_fields fs
    n ← head 5 (length pairs)
    ok (n ++ join_pairs (sort_pairs pairs))

  pub encode_items : Items → Result (List (List ℕ))
  encode_items no_items = ok []
  encode_items (item v xs) = do part ← encode v; parts ← encode_items xs; ok (part ∷ parts)

  pub encode_fields : Fields → Result (List (List ℕ × List ℕ))
  encode_fields no_fields = ok []
  encode_fields (field k v fs) = do
    key ← encode_text k
    value ← encode v
    pairs ← encode_fields fs
    ok ((key, value) ∷ pairs)

abbrev pub too_deep {ℓ} : {A : Type ℓ} → Result A
too_deep = err (recursion_error "maximum recursion depth exceeded")

-- A key is encoded by a call of `_encode` too.
unfoldable pub encode_key_at : ℕ → List ℕ → Result (List ℕ)
unfolding encode_text
encode_key_at zero k = too_deep
encode_key_at (suc depth) k = encode_text k

-- `_encode` on the stack.
unfoldable mutual
  pub encode_at : ℕ → Value → Result (List ℕ)
  encode_at zero v = too_deep
  encode_at (suc depth) null = ok (0xF6 ∷ [])
  encode_at (suc depth) (bool false) = ok (0xF4 ∷ [])
  encode_at (suc depth) (bool true) = ok (0xF5 ∷ [])
  encode_at (suc depth) (int (pos n)) = head 0 n
  encode_at (suc depth) (int (negsuc n)) = head 1 n
  encode_at (suc depth) (bytes raw) = do n ← head 2 (length raw); ok (n ++ raw)
  encode_at (suc depth) (text raw) = encode_text raw
  encode_at (suc depth) (array xs) = do
    parts ← encode_items_at depth xs
    n ← head 4 (length parts)
    ok (n ++ join parts)
  encode_at (suc depth) (dict fs) = do
    pairs ← encode_fields_at depth fs
    n ← head 5 (length pairs)
    ok (n ++ join_pairs (sort_pairs pairs))

  pub encode_items_at : ℕ → Items → Result (List (List ℕ))
  encode_items_at depth no_items = ok []
  encode_items_at depth (item v xs) = do
    part ← encode_at depth v
    parts ← encode_items_at depth xs
    ok (part ∷ parts)

  pub encode_fields_at : ℕ → Fields → Result (List (List ℕ × List ℕ))
  encode_fields_at depth no_fields = ok []
  encode_fields_at depth (field k v fs) = do
    key ← encode_key_at depth k
    value ← encode_at depth v
    pairs ← encode_fields_at depth fs
    ok ((key, value) ∷ pairs)

-- `to_canonical_primitive` on values that are primitive already: it copies them.
unfoldable mutual
  pub to_canonical_primitive : ℕ → Value → Result Value
  to_canonical_primitive zero v = too_deep
  to_canonical_primitive (suc depth) null = ok null
  to_canonical_primitive (suc depth) (bool b) = ok (bool b)
  to_canonical_primitive (suc depth) (int n) = ok (int n)
  to_canonical_primitive (suc depth) (bytes raw) = ok (bytes raw)
  to_canonical_primitive (suc depth) (text raw) = ok (text raw)
  to_canonical_primitive (suc depth) (array xs) = do ys ← primitive_items depth xs; ok (array ys)
  to_canonical_primitive (suc depth) (dict fs) = do gs ← primitive_fields depth fs; ok (dict gs)

  pub primitive_items : ℕ → Items → Result Items
  primitive_items depth no_items = ok no_items
  primitive_items depth (item v xs) = do
    w ← to_canonical_primitive depth v
    ys ← primitive_items depth xs
    ok (item w ys)

  pub primitive_fields : ℕ → Fields → Result Fields
  primitive_fields depth no_fields = ok no_fields
  primitive_fields depth (field k v fs) = do
    w ← to_canonical_primitive depth v
    gs ← primitive_fields depth fs
    ok (field k w gs)

unfoldable pub canonical_cbor_dumps : ℕ → Value → Result (List ℕ)
canonical_cbor_dumps depth v = do
  primitive ← to_canonical_primitive depth v
  encode_at depth primitive

-- The argument in the `width` bytes after the first one, in shortest form when it is at least `least`.
unfoldable pub decode_argument : ℕ → ℕ → String → ℕ → List ℕ → Result (ℕ × ℕ × List ℕ)
decode_argument width least not_shortest major rest =
    if ltb (length rest) width
    then err (canonicalization_error "truncated CBOR integer/length")
    else do
      let arg = from_bytes_be 0 (take width rest)
      raise_if (ltb arg least) (canonicalization_error not_shortest)
      ok (major, arg, drop width rest)

-- The additional information `ai` of the first byte, and the bytes after it.
unfoldable pub decode_info : ℕ → ℕ → List ℕ → Result (ℕ × ℕ × List ℕ)
decode_info ai major rest =
    if ltb ai 24
    then ok (major, ai, rest)
    else if ai == 24
    then decode_argument 1 24 "non-canonical CBOR: one-byte length used for value < 24" major rest
    else if ai == 25
    then decode_argument 2 0x100 "non-canonical CBOR: two-byte length used for value <= 255" major
        rest
    else if ai == 26
    then decode_argument 4 0x10000 "non-canonical CBOR: four-byte length used for value <= 65535"
        major rest
    else if ai == 27
    then decode_argument 8 0x100000000
        "non-canonical CBOR: eight-byte length used for value <= 2^32-1" major rest
    else if ai == 31
    then err (canonicalization_error "indefinite-length CBOR is not canonical")
    else err (canonicalization_error "reserved CBOR additional-info value")

unfoldable pub decode_head : List ℕ → Result (ℕ × ℕ × List ℕ)
decode_head [] = err (canonicalization_error "truncated CBOR input")
decode_head (first ∷ rest) = decode_info (first % 32) (first / 32) rest

-- A decoder of one value: what it reads at the front of the bytes, and the bytes after that.
abbrev pub Decoder : Type 0
Decoder = List ℕ → Result (Value × List ℕ)

-- `for _ in range(arg)` over the items of an array.
unfoldable pub decode_items : Decoder → ℕ → List ℕ → Result (Items × List ℕ)
decode_items decode_item zero input = ok (no_items, input)
decode_items decode_item (suc n) input = do
  (v, rest) ← decode_item input
  (xs, after) ← decode_items decode_item n rest
  ok (item v xs, after)

abbrev pub text_key : Value → Result (List ℕ)
text_key (text raw) = ok raw
text_key _ = err (canonicalization_error "OProW canonical maps require text-string keys")

-- `last is not None and key_encoding < last`
abbrev pub out_of_order : Option (List ℕ) → List ℕ → Bool
out_of_order none key_encoding = false
out_of_order (some last) key_encoding = bytes_ltb key_encoding last

-- `for _ in range(arg)` over the pairs of a map. `out` holds the keys so far, the last one first.
unfoldable pub decode_fields :
    Decoder → ℕ → List (List ℕ) → Option (List ℕ) → List ℕ → Result (Fields × List ℕ)
decode_fields decode_item zero out last_key_encoding input = ok (no_fields, input)
decode_fields decode_item (suc n) out last_key_encoding input = do
  (key, after_key) ← decode_item input
  let key_encoding = take (length input - length after_key) input
  k ← text_key key
  raise_if (any (bytes_eq k) out) (canonicalization_error "duplicate CBOR map key")
  raise_if (out_of_order last_key_encoding key_encoding)
      (canonicalization_error "non-canonical CBOR: map keys are not sorted by encoded bytes")
  (v, rest) ← decode_item after_key
  (fs, after) ← decode_fields decode_item n (k ∷ out) (some key_encoding) rest
  ok (field k v fs, after)

-- The re-encoding that `require_canonical` asks for.
unfoldable pub recoded : ℕ → Value → List ℕ → Result Value
unfolding canonical_cbor_dumps
recoded encode_depth value input = do
  encoded ← canonical_cbor_dumps encode_depth value
  raise_if (not (bytes_eq encoded input))
      (canonicalization_error "CBOR input is not in OProW canonical form")
  ok value

module _ (is_utf8 : List ℕ → Bool) where
  unfoldable pub decode_bytes : ℕ → List ℕ → Result (Value × List ℕ)
  decode_bytes arg rest =
      if ltb (length rest) arg
      then err (canonicalization_error "truncated CBOR byte string")
      else ok (bytes (take arg rest), drop arg rest)

  unfoldable pub decode_text : ℕ → List ℕ → Result (Value × List ℕ)
  decode_text arg rest = do
    raise_if (ltb (length rest) arg) (canonicalization_error "truncated CBOR text string")
    raise_if (not (is_utf8 (take arg rest)))
        (canonicalization_error "invalid UTF-8 in CBOR text string")
    ok (text (take arg rest), drop arg rest)

  unfoldable pub decode_simple : ℕ → List ℕ → Result (Value × List ℕ)
  decode_simple arg rest =
      if arg == 20
      then ok (bool false, rest)
      else if arg == 21
      then ok (bool true, rest)
      else if arg == 22
      then ok (null, rest)
      else err (canonicalization_error "unsupported CBOR simple/float value")

  unfoldable pub decode_major : Decoder → ℕ → ℕ → List ℕ → Result (Value × List ℕ)
  unfolding decode_items decode_fields
  decode_major decode_item major arg rest =
      if major == 0
      then ok (int (pos arg), rest)
      else if major == 1
      then ok (int (negsuc arg), rest)
      else if major == 2
      then decode_bytes arg rest
      else if major == 3
      then decode_text arg rest
      else if major == 4
      then (do (xs, after) ← decode_items decode_item arg rest; ok (array xs, after))
      else if major == 5
      then (do (fs, after) ← decode_fields decode_item arg [] none rest; ok (dict fs, after))
      else if major == 7
      then decode_simple arg rest
      else err (canonicalization_error "unsupported CBOR major type")

  unfoldable pub decode_at : ℕ → List ℕ → Result (Value × List ℕ)
  decode_at zero input = too_deep
  decode_at (suc depth) input =
      let decode_item = decode_at depth in
      do (major, arg, rest) ← decode_head input; decode_major decode_item major arg rest

  unfoldable pub canonical_cbor_loads : Bool → ℕ → ℕ → List ℕ → Result Value
  canonical_cbor_loads require_canonical depth encode_depth input = do
    (value, rest) ← decode_at depth input
    raise_if (not (length rest == 0)) (canonicalization_error "trailing bytes after CBOR object")
    if require_canonical then recoded encode_depth value input else ok value
