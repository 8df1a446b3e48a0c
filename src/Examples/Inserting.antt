-- ===== src/Examples/Inserting.antt =====
-- A variable with a pair of a Boolean and a byte, in which another byte is inserted.
use gazer.Core.Ty.{Ty, Tys}
use gazer.Core.Expr.{Expr}

abbrev both_types : Tys
both_types = Tys.cons Ty.bool (Tys.cons (Ty.bv 8) Tys.nil)

abbrev flag_and_byte : Expr
flag_and_byte = Expr.var_ref (record { id = 0; ty = Ty.tuple both_types })

abbrev byte : Expr
byte = Expr.var_ref (record { id = 1; ty = Ty.bv 8 })
