-- ===== src/Types/Context/Consistent.antt =====
-- The invariant of a context, and what `enterWithLock` adds to a context.
use mathlib.Core.Option.{some_inj, none-ne-some}
use zed.Prelude.{
  ℕ, suc, ◌≤◌, ◌≡◌, sym, ◌∙◌, [], ◌∷◌, none, some, Option, length, length-append, arith, get_elem?,
  get_elem?-append_keeps, get_elem?-append_last, get_elem?-append_cases, inl, inr, zero, ◌≢◌,
}
use zed.Prelude.Dict.{get, get-put_self, get-put_keeps, get-put_cases}
use zed.Prelude.Eq.{list_eq}
use zed.Types.{
  Bytes, ZedType, primitive, type_record, type_array, type_set, type_map, type_union, type_enum,
  type_error, type_named, Fields, no_fields, field, Types, no_types, and_type, type_id,
  id_type_complex,
}
use zed.Types.Value.{append_type_value}
use zed.Types.Context.{Context, enter, next_id, new_context, nils}
use zed.Types.Context.Holds.{IsInterned, Holds, HoldsFields, HoldsTypes, IsDecodable}

-- The tables of a context agree: at an id is the type of that id, under a type value the type that
-- it encodes, and a name is bound to a named type of that name; all of them are held.
pub record IsContext (c : Context) : Type 0 where
  pub complex_ids : id_type_complex ≤ length c.by_id
  pub ids :
      (i : ℕ) (t : ZedType)
      → get_elem? c.by_id i ≡ some (some t)
      → (type_id t ≡ i) × Holds c.by_id c.to_type t × IsDecodable t
  pub values :
      (tv : Bytes) (t : ZedType)
      → get tv c.to_type ≡ some t
      → (tv ≡ append_type_value [] t) × Holds c.by_id c.to_type t × IsDecodable t
  pub names :
      (name : Bytes) (t : ZedType)
      → get name c.typedefs ≡ some t
      → Holds c.by_id c.to_type t × IsDecodable t

-- No pointer of `c` is lost or moved in `d`.
pub record Extends (c d : Context) : Type 0 where
  pub same_ids :
      (i : ℕ) (o : Option ZedType) → get_elem? c.by_id i ≡ some o → get_elem? d.by_id i ≡ some o
  pub same_values :
      (tv : Bytes) (t : ZedType) → get tv c.to_type ≡ some t → get tv d.to_type ≡ some t

pub Extends-refl : (c : Context) → Extends c c
Extends-refl c = record { same_ids = λ i o e. e; same_values = λ tv t e. e }

pub Extends-trans : (c d e : Context) → Extends c d → Extends d e → Extends c e
Extends-trans c d e x y = record {
  same_ids = λ i o h. y.same_ids i o (x.same_ids i o h);
  same_values = λ tv t h. y.same_values tv t (x.same_values tv t h);
}

module _ (c d : Context) (x : Extends c d) where
  IsInterned-extends :
      (t : ZedType) → IsInterned c.by_id c.to_type t → IsInterned d.by_id d.to_type t
  IsInterned-extends t h = record {
    complex = h.complex;
    at_id = x.same_ids (type_id t) (some t) h.at_id;
    at_value = x.same_values (append_type_value [] t) t h.at_value;
  }

  mutual
    pub Holds-extends : (t : ZedType) → Holds c.by_id c.to_type t → Holds d.by_id d.to_type t
    Holds-extends (primitive p) h = tt
    Holds-extends (type_record id fs) h =
        (IsInterned-extends (type_record id fs) h.0, HoldsFields-extends fs h.1)
    Holds-extends (type_array id t) h =
        (IsInterned-extends (type_array id t) h.0, Holds-extends t h.1)
    Holds-extends (type_set id t) h = (IsInterned-extends (type_set id t) h.0, Holds-extends t h.1)
    Holds-extends (type_map id k v) h =
        (IsInterned-extends (type_map id k v) h.0, Holds-extends k h.1, Holds-extends v h.2)
    Holds-extends (type_union id ts) h =
        (IsInterned-extends (type_union id ts) h.0, h.1, HoldsTypes-extends ts h.2)
    Holds-extends (type_enum id ss) h = IsInterned-extends (type_enum id ss) h
    Holds-extends (type_error id t) h =
        (IsInterned-extends (type_error id t) h.0, Holds-extends t h.1)
    Holds-extends (type_named id name t) h =
        (IsInterned-extends (type_named id name t) h.0, h.1, h.2, Holds-extends t h.3)

    pub HoldsFields-extends :
        (fs : Fields) → HoldsFields c.by_id c.to_type fs → HoldsFields d.by_id d.to_type fs
    HoldsFields-extends no_fields h = tt
    HoldsFields-extends (field name t fs) h = (Holds-extends t h.0, HoldsFields-extends fs h.1)

    pub HoldsTypes-extends :
        (ts : Types) → HoldsTypes c.by_id c.to_type ts → HoldsTypes d.by_id d.to_type ts
    HoldsTypes-extends no_types h = tt
    HoldsTypes-extends (and_type t ts) h = (Holds-extends t h.0, HoldsTypes-extends ts h.1)

-- `t` is new in `c`: it has the next id, and nothing stands under its type value.
module _ (c : Context) (w : IsContext c) (t : ZedType) (fresh : type_id t ≡ next_id c)
    (absent : get (append_type_value [] t) c.to_type ≡ none) where
  abbrev entered : Context
  entered = enter (append_type_value [] t) t c

  pub enter-Extends : Extends c entered
  unfolding enter
  enter-Extends = record {
    same_ids = λ i o e. get_elem?-append_keeps c.by_id (some t ∷ []) i o e;
    same_values = λ tv u e. get-put_keeps (append_type_value [] t) t c.to_type tv u absent e;
  }

  pub enter-IsInterned : IsInterned entered.by_id entered.to_type t
  unfolding enter
  enter-IsInterned = record {
    complex = omega (arith, fresh, w.complex_ids);
    at_id = rw fresh (get_elem?-append_last c.by_id (some t));
    at_value = get-put_self (append_type_value [] t) t c.to_type;
  }

  pub enter-IsContext : Holds entered.by_id entered.to_type t → IsDecodable t → IsContext entered
  unfolding enter
  enter-IsContext h d = record {
    complex_ids = omega (arith, length-append c.by_id (some t ∷ []), w.complex_ids);
    ids = λ i u e. elim (get_elem?-append_cases c.by_id (some t) (some u) i e) [
      | inl (p, q) ↦ rw (← some_inj.0 q) (fresh ∙ sym p, h, d)
      | inr p ↦ let (a, b, f) = w.ids i u p in (a, Holds-extends c entered enter-Extends u b, f)
    ];
    values = λ tv u e. elim (get-put_cases (append_type_value [] t) t c.to_type tv u e) [
      | inl (p, q) ↦ rw (← q) (sym p, h, d)
      | inr p ↦ let (a, b, f) = w.values tv u p in (a, Holds-extends c entered enter-Extends u b, f)
    ];
    names =
        λ name u e. let (b, f) = w.names name u e in (Holds-extends c entered enter-Extends u b, f);
  }

nils_none : (n i : ℕ) (t : ZedType) → get_elem? (nils n) i ≢ some (some t)
nils_none zero i t e = absurd (cc)
nils_none (suc n) zero t e = none-ne-some t (some_inj.0 e)
nils_none (suc n) (suc i) t e = nils_none n i t e

-- A new context satisfies the invariant.
pub new_context-IsContext : IsContext new_context
unfolding new_context get
new_context-IsContext = record {
  complex_ids = omega arith;
  ids = λ i t e. absurd (nils_none id_type_complex i t e);
  values = λ tv t e. absurd (none-ne-some t e);
  names = λ name t e. absurd (none-ne-some t e);
}
