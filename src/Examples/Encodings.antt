-- ===== src/Examples/Encodings.antt =====
-- A map with two texts as keys, in canonical CBOR.
use watermarks_po_c.Common.{
  ℕ, ◌≡◌, ◌≢◌, refl, true, false, Bool, List, [], ◌∷◌, ◌++◌, ltb, all, bytes_ltb, bytes_eq, ok, err,
  recursion_error, pos, arith,
}
use watermarks_po_c.Core.Hashes.{to_bytes_be}
use watermarks_po_c.Core.Canonical.{
  Value, int, null, array, dict, bytes, no_items, item, no_fields, field, head, encode,
  encode_items, encode_fields, encode_text, sort_pairs, insert_pair, decode_head,
  canonical_cbor_loads, canonical_cbor_dumps, decode_at, decode_info, decode_major, decode_items,
  recoded, to_canonical_primitive, primitive_items,
}
use watermarks_po_c.Core.Canonical.Strict.{IsBytes}
use watermarks_po_c.Core.Canonical.Head.{decode_head-head}
use watermarks_po_c.Core.Canonical.WellFormed.{WellFormed}
use watermarks_po_c.Core.Canonical.RoundTrip.{canonical_cbor_loads-encode, encode-inj}
use watermarks_po_c.Core.Canonical.Accepts.{
  canonical_cbor_loads-canonical, canonical_cbor_loads-require_canonical,
}
use watermarks_po_c.Core.Canonical.Depth.{canonical_cbor_loads-depth}

-- ASCII bytes are UTF-8.
abbrev is_ascii : List ℕ → Bool
is_ascii = all (λ b. ltb b 128)

-- {"a": [300, null], "bb": b"\x07"}
abbrev small_map : Value
small_map = dict (
    field (97 ∷ []) (array (item (int (pos 300)) (item null no_items)))
      (field (98 ∷ 98 ∷ []) (bytes (7 ∷ [])) no_fields))

abbrev small_map_bytes : List ℕ
small_map_bytes = 0xA2 ∷ 0x61 ∷ 97 ∷ 0x82 ∷ 0x19 ∷ 1 ∷ 44 ∷ 0xF6 ∷ 0x62 ∷ 98 ∷ 98 ∷ 0x41 ∷ 7 ∷ []

small_map-encode : encode small_map ≡ ok small_map_bytes
unfolding encode encode_items encode_fields encode_text head sort_pairs insert_pair bytes_ltb
    to_bytes_be
small_map-encode = refl

small_map-WellFormed : WellFormed is_ascii small_map
unfolding WellFormed encode_text head bytes_ltb bytes_eq
small_map-WellFormed = (refl, refl, refl, (tt, (tt, tt)), (refl, refl, refl, tt, tt))

small_map_bytes-IsBytes : IsBytes small_map_bytes
small_map_bytes-IsBytes = (
  omega arith,
  (
    omega arith,
    (
      omega arith,
      (
        omega arith,
        (
          omega arith,
          (
            omega arith,
            (
              omega arith,
              (
                omega arith,
                (omega arith, (omega arith, (omega arith, (omega arith, (omega arith, tt))))),
              ),
            ),
          ),
        ),
      ),
    ),
  ),
)

head_300 : head 4 300 ≡ ok (0x99 ∷ 1 ∷ 44 ∷ [])
unfolding head to_bytes_be
head_300 = refl

decode_head-head_example : decode_head ((0x99 ∷ 1 ∷ 44 ∷ []) ++ (5 ∷ [])) ≡ ok (4, 300, 5 ∷ [])
decode_head-head_example = decode_head-head 4 300 (0x99 ∷ 1 ∷ 44 ∷ []) (5 ∷ []) head_300

canonical_cbor_loads-encode_example :
    (canonical_cbor_dumps 13 small_map ≡ ok small_map_bytes)
    × (canonical_cbor_loads is_ascii true 20 13 small_map_bytes ≡ ok small_map)
canonical_cbor_loads-encode_example =
    canonical_cbor_loads-encode is_ascii true 20 13 small_map small_map_bytes small_map-WellFormed
      small_map-encode (omega arith) (omega arith)

encode-inj_example : small_map ≡ small_map
encode-inj_example =
    encode-inj is_ascii small_map small_map small_map_bytes small_map-WellFormed
      small_map-WellFormed small_map-encode small_map-encode

canonical_cbor_loads-canonical_example :
    WellFormed is_ascii small_map × (encode small_map ≡ ok small_map_bytes)
canonical_cbor_loads-canonical_example =
    canonical_cbor_loads-canonical is_ascii true 20 13 small_map_bytes small_map
      small_map_bytes-IsBytes small_map-loads
  where
    small_map-loads : canonical_cbor_loads is_ascii true 20 13 small_map_bytes ≡ ok small_map
    small_map-loads =
        (canonical_cbor_loads-encode is_ascii true 20 13 small_map small_map_bytes
          small_map-WellFormed small_map-encode (omega arith) (omega arith)).1

canonical_cbor_loads-require_canonical_example :
    canonical_cbor_loads is_ascii true 20 13 small_map_bytes
    ≡ canonical_cbor_loads is_ascii false 20 13 small_map_bytes
canonical_cbor_loads-require_canonical_example =
    canonical_cbor_loads-require_canonical is_ascii 20 13 small_map_bytes small_map_bytes-IsBytes
      (omega arith)

canonical_cbor_loads-depth_example :
    canonical_cbor_loads is_ascii true 14 13 small_map_bytes
    ≢ err (recursion_error "maximum recursion depth exceeded")
canonical_cbor_loads-depth_example =
    canonical_cbor_loads-depth is_ascii true 14 13 small_map_bytes
      "maximum recursion depth exceeded" small_map_bytes-IsBytes (omega arith)
      (λ asked. omega arith)

-- Two nested arrays: the decoder's stack suffices, and the encoder's does not.
nested-canonical_cbor_loads :
    (canonical_cbor_loads is_ascii false 2 1 (0x81 ∷ 0x80 ∷ [])
      ≡ ok (array (item (array no_items) no_items)))
    × (canonical_cbor_loads is_ascii true 2 1 (0x81 ∷ 0x80 ∷ [])
        ≡ err (recursion_error "maximum recursion depth exceeded"))
unfolding canonical_cbor_loads decode_at decode_head decode_info decode_major decode_items recoded
    canonical_cbor_dumps to_canonical_primitive primitive_items
nested-canonical_cbor_loads = (refl, refl)
