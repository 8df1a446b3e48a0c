-- ===== src/Core/Builder/Insert.antt =====
-- TupleInsert, for every index and every expression that has a tuple as its type.
use gazer.Core.Ty.{Ty}
use gazer.Core.Expr.{Expr}
