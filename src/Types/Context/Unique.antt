-- ===== src/Types/Context/Unique.antt =====
-- A type of the context that has the type value of a new type is that type but for its id.
use zed.Prelude.{ℕ, ◌≡◌, ap, ap, List, [], ◌++◌, length, arith, sym, ◌∙◌}
use zed.Types.{
  Bytes, ZedType, primitive, type_record, type_array, type_set, type_map, type_union, type_enum,
  type_error, type_named, Fields, Types, count_fields, count_types,
}
use zed.Types.PrimitiveId.{primitive_id-lt}
use zed.Types.Value.{value_bytes, field_bytes, types_bytes, symbol_bytes}
use zed.Prelude.Dict.{get}
use zed.Types.Context.{Context}
use zed.Types.Context.Decode.{decode_symbols}
use zed.Types.Context.Holds.{Holds, HoldsFields, HoldsTypes, Agrees, IsDecodable}
use zed.Types.Context.Reads.{decode_symbols-symbol_bytes}
use zed.Types.Context.RoundTrip.{reads}
use zed.Types.Context.Held.{with_typedefs}
use zed.Types.Context.Shapes.{tag, tail_of}
use zed.Types.Context.Injective.{
  value_bytes_injective, field_bytes_injective, types_bytes_injective, length_injective,
  name_injective, same_result,
}

pub nothing_bound : (c : Context) → Agrees c.by_id c.to_type [] c.typedefs
unfolding get
nothing_bound c name t g = absurd (cc)

module _ (c : Context) where
  whole_injective :
      (s t : ZedType)
      → Holds c.by_id c.to_type s
      → Holds c.by_id c.to_type t
      → IsDecodable s
      → IsDecodable t
      → (value_bytes s []).0 ≡ (value_bytes t []).0
      → s ≡ t
  whole_injective s t hs ht ds dt e =
      (value_bytes_injective c [] (nothing_bound c) s t [] [] hs ht ds dt (ap (λ b. b ++ []) e)).0

  symbols_injective :
      (ss us : List Bytes)
      → IsDecodable (type_enum 0 ss)
      → IsDecodable (type_enum 0 us)
      → length ss ≡ length us
      → symbol_bytes ss ≡ symbol_bytes us
      → ss ≡ us
  symbols_injective ss us ds du k e =
      (same_result
        (ap (λ b. decode_symbols (length ss) (b ++ []) c) e
          ∙ ap (λ n. decode_symbols n (symbol_bytes us ++ []) c) k)
        (decode_symbols-symbol_bytes ss [] c ds.1) (decode_symbols-symbol_bytes us [] c du.1)).0

  pub same_array :
      (t : ZedType) (u : ZedType)
      → Holds c.by_id c.to_type t
      → IsDecodable t
      → Holds c.by_id c.to_type u
      → IsDecodable (type_array 0 u)
      → (value_bytes t []).0 ≡ (value_bytes (type_array 0 u) []).0
      → (id : ℕ) × (t ≡ type_array id u)
  unfolding value_bytes
  same_array (type_array id u') u ht dt hu du e =
      (id, ap (λ w. type_array id w) (whole_injective u' u ht.1 hu dt du (ap tail_of e)))
  same_array (primitive p) u ht dt hu du e =
      absurd (omega (arith, primitive_id-lt p, tag _ _ (primitive p) e))
  same_array t u ht dt hu du e = absurd (omega (arith, tag _ _ t e))

  pub same_set :
      (t : ZedType) (u : ZedType)
      → Holds c.by_id c.to_type t
      → IsDecodable t
      → Holds c.by_id c.to_type u
      → IsDecodable (type_set 0 u)
      → (value_bytes t []).0 ≡ (value_bytes (type_set 0 u) []).0
      → (id : ℕ) × (t ≡ type_set id u)
  unfolding value_bytes
  same_set (type_set id u') u ht dt hu du e =
      (id, ap (λ w. type_set id w) (whole_injective u' u ht.1 hu dt du (ap tail_of e)))
  same_set (primitive p) u ht dt hu du e =
      absurd (omega (arith, primitive_id-lt p, tag _ _ (primitive p) e))
  same_set t u ht dt hu du e = absurd (omega (arith, tag _ _ t e))

  pub same_error :
      (t : ZedType) (u : ZedType)
      → Holds c.by_id c.to_type t
      → IsDecodable t
      → Holds c.by_id c.to_type u
      → IsDecodable (type_error 0 u)
      → (value_bytes t []).0 ≡ (value_bytes (type_error 0 u) []).0
      → (id : ℕ) × (t ≡ type_error id u)
  unfolding value_bytes
  same_error (type_error id u') u ht dt hu du e =
      (id, ap (λ w. type_error id w) (whole_injective u' u ht.1 hu dt du (ap tail_of e)))
  same_error (primitive p) u ht dt hu du e =
      absurd (omega (arith, primitive_id-lt p, tag _ _ (primitive p) e))
  same_error t u ht dt hu du e = absurd (omega (arith, tag _ _ t e))

  pub same_enum :
      (t : ZedType) (ss : List Bytes)
      → Holds c.by_id c.to_type t
      → IsDecodable t
      → IsDecodable (type_enum 0 ss)
      → (value_bytes t []).0 ≡ (value_bytes (type_enum 0 ss) []).0
      → (id : ℕ) × (t ≡ type_enum id ss)
  unfolding value_bytes
  same_enum (type_enum id ss') ss ht dt du e =
      let (k, b) =
        length_injective (length ss') (length ss) (symbol_bytes ss') (symbol_bytes ss)
          (omega (arith, dt.0)) (omega (arith, du.0)) (ap tail_of e) in
      (id, ap (λ w. type_enum id w) (symbols_injective ss' ss dt du k b))
  same_enum (primitive p) ss ht dt du e =
      absurd (omega (arith, primitive_id-lt p, tag _ _ (primitive p) e))
  same_enum t ss ht dt du e = absurd (omega (arith, tag _ _ t e))

  pub same_record :
      (t : ZedType) (fs : Fields)
      → Holds c.by_id c.to_type t
      → IsDecodable t
      → HoldsFields c.by_id c.to_type fs
      → IsDecodable (type_record 0 fs)
      → (value_bytes t []).0 ≡ (value_bytes (type_record 0 fs) []).0
      → (id : ℕ) × (t ≡ type_record id fs)
  unfolding value_bytes
  same_record (type_record id fs') fs ht dt hu du e =
      let (k, b) =
        length_injective (count_fields fs') (count_fields fs) (field_bytes fs' []).0
          (field_bytes fs []).0 (omega (arith, dt.0)) (omega (arith, du.0)) (ap tail_of e) in
      (
        id,
        ap (λ w. type_record id w)
            (field_bytes_injective c [] (nothing_bound c) fs' fs [] [] ht.1 hu dt.1 du.1 k
              (ap (λ r. r ++ []) b)).0,
      )
  same_record (primitive p) fs ht dt hu du e =
      absurd (omega (arith, primitive_id-lt p, tag _ _ (primitive p) e))
  same_record t fs ht dt hu du e = absurd (omega (arith, tag _ _ t e))

  pub same_union :
      (t : ZedType) (ts : Types)
      → Holds c.by_id c.to_type t
      → IsDecodable t
      → HoldsTypes c.by_id c.to_type ts
      → IsDecodable (type_union 0 ts)
      → (value_bytes t []).0 ≡ (value_bytes (type_union 0 ts) []).0
      → (id : ℕ) × (t ≡ type_union id ts)
  unfolding value_bytes
  same_union (type_union id ts') ts ht dt hu du e =
      let (k, b) =
        length_injective (count_types ts') (count_types ts) (types_bytes ts' []).0
          (types_bytes ts []).0 (omega (arith, dt.0)) (omega (arith, du.0)) (ap tail_of e) in
      (
        id,
        ap (λ w. type_union id w)
            (types_bytes_injective c [] (nothing_bound c) ts' ts [] [] ht.2 hu dt.1 du.1 k
              (ap (λ r. r ++ []) b)).0,
      )
  same_union (primitive p) ts ht dt hu du e =
      absurd (omega (arith, primitive_id-lt p, tag _ _ (primitive p) e))
  same_union t ts ht dt hu du e = absurd (omega (arith, tag _ _ t e))

  pub same_named :
      (t : ZedType) (name : Bytes) (u : ZedType)
      → Holds c.by_id c.to_type t
      → IsDecodable t
      → Holds c.by_id c.to_type u
      → IsDecodable (type_named 0 name u)
      → (value_bytes t []).0 ≡ (value_bytes (type_named 0 name u) []).0
      → (id : ℕ) × (t ≡ type_named id name u)
  unfolding value_bytes
  same_named (type_named id name' u') name u ht dt hu du e =
      let (k, b) =
        name_injective name' name (value_bytes u' []).0 (value_bytes u []).0 dt.0 du.0
          (ap tail_of e) in
      let i = whole_injective u' u ht.3 hu dt.1 du.1 b in
      (id, ap (λ w. type_named id w u') k ∙ ap (λ w. type_named id name w) i)
  same_named (primitive p) name u ht dt hu du e =
      absurd (omega (arith, primitive_id-lt p, tag _ _ (primitive p) e))
  same_named t name u ht dt hu du e = absurd (omega (arith, tag _ _ t e))

  pub same_map :
      (t : ZedType) (k : ZedType) (v : ZedType)
      → Holds c.by_id c.to_type t
      → IsDecodable t
      → Holds c.by_id c.to_type k
      → Holds c.by_id c.to_type v
      → IsDecodable (type_map 0 k v)
      → (value_bytes t []).0 ≡ (value_bytes (type_map 0 k v) []).0
      → (id : ℕ) × (t ≡ type_map id k v)
  unfolding value_bytes
  same_map (type_map id k' v') k v ht dt hu hv du e =
      let (i, b) =
        value_bytes_injective c [] (nothing_bound c) k' k (value_bytes v' (value_bytes k' []).1).0
          (value_bytes v (value_bytes k []).1).0 ht.1 hu dt.0 du.0 (ap tail_of e) in
      let defs = (value_bytes k []).1 in
      let (named, _, a) =
        reads k (length (value_bytes k []).0) [] c [] hu du.0 (nothing_bound c) (omega arith) in
      let same = ap (λ w. (value_bytes v' (value_bytes w []).1).0) (sym i) ∙ b in
      let j =
        (value_bytes_injective (with_typedefs c named) defs a v' v [] [] ht.2 hv dt.1 du.1
          (ap (λ r. r ++ []) same)).0 in
      (id, ap (λ w. type_map id w v') i ∙ ap (λ w. type_map id k w) j)
  same_map (primitive p) k v ht dt hu hv du e =
      absurd (omega (arith, primitive_id-lt p, tag _ _ (primitive p) e))
  same_map t k v ht dt hu hv du e = absurd (omega (arith, tag _ _ t e))
