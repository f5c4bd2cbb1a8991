-- ===== src/Lake/Data.antt =====
-- lake/data/object.go. A KSUID is its 160-bit number, and `Nil` is 0; the values of `Min` and `Max`
-- are of a type that the code here only passes on.
use zed.Prelude.{ℕ, Bool, ◌==◌}

abbrev pub Ksuid : Type 0
Ksuid = ℕ

abbrev pub nil_ksuid : Ksuid
nil_ksuid = 0

pub record DataObject (Val : Type 0) : Type 0 where
  pub id : Ksuid
  pub min : Val
  pub max : Val
  pub count : ℕ
  pub size : ℕ

unfoldable pub is_zero : {Val : Type 0} → DataObject Val → Bool
is_zero o = o.id == nil_ksuid

unfoldable pub equal : {Val : Type 0} → DataObject Val → DataObject Val → Bool
equal o to = o.id == to.id
